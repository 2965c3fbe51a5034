-- ===== src/Protocol/Bytes.antt =====
-- Properties that fit their length byte, and what the bytes of a frame decode to.
use echonet_go.Base.{
  ℕ, suc, ◌≡◌, refl, ap, ◌∙◌, List, [], ◌∷◌, ◌++◌, arith, length, length-append, take-length-append,
  drop-length-append, All, le→ltb,
}
use echonet_go.Protocol.{Property, parse_props, encode_props}
use mathlib.Core.List.{append_assoc}

-- The length byte of a property counts its data.
abbrev pub IsSized : Property → Type 0
IsSized p = p.pdc ≡ length p.edt

pub parse_props-cons :
    (n : ℕ) (p : Property) (rest : List ℕ)
    → IsSized p
    → parse_props (suc n) (p.epc ∷ p.pdc ∷ (p.edt ++ rest)) ≡ p ∷ parse_props n rest
unfolding parse_props
parse_props-cons n p rest h = rw (
  h,
  le→ltb (length (p.edt ++ rest)) (length p.edt) (omega (arith, length-append p.edt rest)),
  take-length-append p.edt rest,
  drop-length-append p.edt rest,
)

-- The loop of the parser undoes the loop of the builder, whatever follows.
pub parse_props-encode_props :
    (props : List Property) (rest : List ℕ)
    → All IsSized props
    → parse_props (length props) (encode_props props ++ rest) ≡ props
unfolding encode_props
parse_props-encode_props [] rest h = unfold parse_props in refl
parse_props-encode_props (p ∷ props) rest h = rw (append_assoc p.edt (encode_props props) rest) (
    parse_props-cons (length props) p (encode_props props ++ rest) h.0
    ∙ ap (◌∷◌ p) (parse_props-encode_props props rest h.1))
