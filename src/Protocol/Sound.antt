-- ===== src/Protocol/Sound.antt =====
-- Whatever bytes arrive: what the parser accepts, and how its properties lie in the frame.
use echonet_go.Base.{
  ℕ, zero, suc, ◌+◌, ◌*◌, ◌<◌, ◌≤◌, ◌≡◌, refl, ap, sym, ◌∙◌, List, [], ◌∷◌, ◌++◌, arith, length,
  All, ok, le→ltb, drop, take, ◌⊎◌, inl, inr, Bool-cases, ltb, take-append-drop, length-take,
  ltb→lt, ltb→le,
}
use echonet_go.Protocol.{
  Property, Frame, parse_props, encode_props, parse_frame, byte_at, ehd1, ehd2,
}
use echonet_go.Protocol.Bytes.{IsSized}
use mathlib.Core.List.{append_assoc}

-- Too few bytes are left for one more property.
abbrev pub IsCutShort : List ℕ → Type 0
IsCutShort [] = Unit
IsCutShort (epc ∷ []) = Unit
IsCutShort (epc ∷ pdc ∷ rest) = length rest < pdc

-- The parser took `props` from the front of `bytes`, and left `rest`; it stopped after `n` properties
-- or before one that is cut short.
pub record Splits (n : ℕ) (bytes : List ℕ) (props : List Property) : Type 0 where
  pub rest : List ℕ
  pub splits : bytes ≡ encode_props props ++ rest
  pub sized : All IsSized props
  pub stops : (length props ≡ n) ⊎ ((length props < n) × IsCutShort rest)

Splits-nil : (n : ℕ) (bytes : List ℕ) → IsCutShort bytes → Splits (suc n) bytes []
unfolding encode_props
Splits-nil n bytes h = record {
  rest = bytes;
  splits = refl;
  sized = tt;
  stops = inr (omega arith, h);
}

Splits-cons :
    (n epc pdc : ℕ) (rest : List ℕ) {props : List Property}
    → pdc ≤ length rest
    → Splits n (drop pdc rest) props
    → Splits
        (suc n)
        (epc ∷ pdc ∷ rest)
        (record { epc = epc; pdc = pdc; edt = take pdc rest } ∷ props)
unfolding encode_props
Splits-cons n epc pdc rest {props} h s = record {
  rest = s.rest;
  splits =
      ap (λ l. epc ∷ pdc ∷ l)
        (sym (take-append-drop pdc rest)
          ∙ ap (◌++◌ (take pdc rest)) s.splits
          ∙ sym (append_assoc (take pdc rest) (encode_props props) s.rest));
  sized = (omega (arith, length-take pdc rest), s.sized);
  stops = elim s.stops [ inl e ↦ inl (ap suc e) | inr (l, c) ↦ inr (omega arith, c) ];
}

parse_props-Splits : (n : ℕ) (bytes : List ℕ) → Splits n bytes (parse_props n bytes)
unfolding parse_props
parse_props-Splits zero bytes = record {
  rest = bytes;
  splits = unfold encode_props in refl;
  sized = tt;
  stops = inl refl;
}
parse_props-Splits (suc n) [] = Splits-nil n [] tt
parse_props-Splits (suc n) (epc ∷ []) = Splits-nil n (epc ∷ []) tt
parse_props-Splits (suc n) (epc ∷ pdc ∷ rest) = elim (Bool-cases (ltb (length rest) pdc)) [
  | inl short ↦ rw short (Splits-nil n (epc ∷ pdc ∷ rest) (ltb→lt _ _ short))
  | inr fits ↦
      rw fits (Splits-cons n epc pdc rest (ltb→le _ _ fits) (parse_props-Splits n (drop pdc rest)))
]

-- A frame of at least twelve bytes that starts with the two ECHONET Lite bytes is accepted. Its
-- transaction number, service code and count are the bytes at their fixed places. Its properties are,
-- in order, what stands behind the twelve bytes, each with the length that its length byte says: as
-- many as the count, or fewer if the next one is cut short.
pub parse_frame_lem :
    (d : List ℕ)
    → 12 ≤ length d
    → byte_at d 0 ≡ ehd1
    → byte_at d 1 ≡ ehd2
    → (f : Frame) × (parse_frame d ≡ ok f)
      × (f.tid ≡ byte_at d 2 * 256 + byte_at d 3)
      × (f.esv ≡ byte_at d 10)
      × Splits (byte_at d 11) (drop 12 d) f.props
unfolding parse_frame
parse_frame_lem d l a b = (
  record {
    tid = byte_at d 2 * 256 + byte_at d 3;
    esv = byte_at d 10;
    props = parse_props (byte_at d 11) (drop 12 d);
  },
  rw (le→ltb _ _ l, a, b),
  refl,
  refl,
  parse_props-Splits _ _,
)

-- Nothing else is accepted: shorter data and other first bytes are refused.
pub parse_frame-ok :
    (d : List ℕ) {f : Frame}
    → parse_frame d ≡ ok f
    → (12 ≤ length d) × (byte_at d 0 ≡ ehd1) × (byte_at d 1 ≡ ehd2)
unfolding parse_frame
parse_frame-ok d h = ground arith
