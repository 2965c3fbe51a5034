-- ===== src/Encoder/RoundTrip.antt =====
-- What `EncodeValueToEDT` writes, `parseEDTWithReason` reads back.
use mathlib.Core.Path.{subst}
use echonet_go.Base.{
  sym, ◌∙◌, ◌&&◌, ℕ, ◌+◌, ◌-◌, ◌*◌, ◌^◌, ◌≡◌, refl, ap, Bool, true, false, ◌||◌, List, [], ◌∷◌,
  arith, ltb, ◌==◌, if◌then◌else◌, length, All, ok, err, ◌⊎◌, inl, inr, none, take,
}
use echonet_go.Base.Int.{ℤ, pos, negsuc, ◌≤ℤ◌}
use echonet_go.Floats.{Float64, zero_float, one_float, ten_float, neg_float}
use echonet_go.Specs.{MetricSpec}
use echonet_go.Encoder.{
  raw_bytes, parse_integer, encode_raw, clamp_raw, raw_of_value, encode_value_to_edt, scale_value,
  parse_edt_with_reason, auto_sized, unsupported_size,
}
use echonet_go.Encoder.Integers.{IsByte}

-- The integers of `size` bytes.
abbrev pub min_raw : ℕ → Bool → ℤ
min_raw size true = negsuc (2 ^ (size * 8 - 1) - 1)
min_raw size false = pos 0

abbrev pub max_raw : ℕ → Bool → ℤ
max_raw size true = pos (2 ^ (size * 8 - 1) - 1)
max_raw size false = pos (2 ^ (size * 8) - 1)

-- `r` is the integer of the range `lo` to `hi` that is nearest to `raw`.
pub record IsClamped (lo hi raw r : ℤ) : Type 0 where
  pub low : lo ≤ℤ r
  pub high : r ≤ℤ hi
  pub inside : lo ≤ℤ raw → raw ≤ℤ hi → r ≡ raw
  pub below : raw ≤ℤ lo → r ≡ lo
  pub above : hi ≤ℤ raw → r ≡ hi

abbrev pub IsSize : ℕ → Type 0
IsSize size = (size ≡ 1) ⊎ ((size ≡ 2) ⊎ (size ≡ 4))

clamp_raw-IsClamped :
    (size : ℕ) (signed : Bool) (raw : ℤ)
    → IsSize size
    → IsClamped (min_raw size signed) (max_raw size signed) raw (clamp_raw (size * 8) signed raw)
unfolding clamp_raw
clamp_raw-IsClamped size true raw (inl e) = rw e (ground arith)
clamp_raw-IsClamped size true raw (inr (inl e)) = rw e (ground arith)
clamp_raw-IsClamped size true raw (inr (inr e)) = rw e (ground arith)
clamp_raw-IsClamped size false raw (inl e) = rw e (ground arith)
clamp_raw-IsClamped size false raw (inr (inl e)) = rw e (ground arith)
clamp_raw-IsClamped size false raw (inr (inr e)) = rw e (ground arith)

-- `size` bytes that read back as `r`.
abbrev pub Reads : ℕ → Bool → ℤ → List ℕ → Type 0
Reads size signed r bytes =
    (length bytes ≡ size) × All IsByte bytes × (parse_integer bytes signed ≡ ok r)

raw_bytes-one :
    (signed : Bool) (r : ℤ)
    → min_raw 1 signed ≤ℤ r
    → r ≤ℤ max_raw 1 signed
    → Reads 1 signed r (raw_bytes 1 r)
unfolding raw_bytes parse_integer
raw_bytes-one true (pos n) lo hi = (refl, omega arith, ground arith)
raw_bytes-one true (negsuc n) lo hi = (refl, omega arith, ground arith)
raw_bytes-one false (pos n) lo hi = (refl, omega arith, ground arith)
raw_bytes-one false (negsuc n) lo hi = absurd (omega arith)

raw_bytes-two :
    (signed : Bool) (r : ℤ)
    → min_raw 2 signed ≤ℤ r
    → r ≤ℤ max_raw 2 signed
    → Reads 2 signed r (raw_bytes 2 r)
unfolding raw_bytes parse_integer
raw_bytes-two true (pos n) lo hi = (refl, omega arith, ground arith)
raw_bytes-two true (negsuc n) lo hi = (refl, omega arith, ground arith)
raw_bytes-two false (pos n) lo hi = (refl, omega arith, ground arith)
raw_bytes-two false (negsuc n) lo hi = absurd (omega arith)

raw_bytes-four :
    (signed : Bool) (r : ℤ)
    → min_raw 4 signed ≤ℤ r
    → r ≤ℤ max_raw 4 signed
    → Reads 4 signed r (raw_bytes 4 r)
unfolding raw_bytes parse_integer
raw_bytes-four true (pos n) lo hi = (refl, omega arith, ground arith)
raw_bytes-four true (negsuc n) lo hi = (refl, omega arith, ground arith)
raw_bytes-four false (pos n) lo hi = (refl, omega arith, ground arith)
raw_bytes-four false (negsuc n) lo hi = absurd (omega arith)

raw_bytes-Reads :
    (size : ℕ) (signed : Bool) (r : ℤ)
    → IsSize size
    → min_raw size signed ≤ℤ r
    → r ≤ℤ max_raw size signed
    → Reads size signed r (raw_bytes size r)
raw_bytes-Reads size signed r (inl e) = rw e (raw_bytes-one signed r)
raw_bytes-Reads size signed r (inr (inl e)) = rw e (raw_bytes-two signed r)
raw_bytes-Reads size signed r (inr (inr e)) = rw e (raw_bytes-four signed r)

IsSize-pos : {size : ℕ} → IsSize size → (size == 0) ≡ false
IsSize-pos (inl e) = ground arith
IsSize-pos (inr (inl e)) = ground arith
IsSize-pos (inr (inr e)) = ground arith

take-length : (xs : List ℕ) → take (length xs) xs ≡ xs
take-length [] = refl
take-length (x ∷ xs) = ap (◌∷◌ x) (take-length xs)

module _ (fl : Float64) where
  open fl use {F}

  -- A value is written for a metric of 1, 2 or 4 bytes. It gives that many bytes, and these are read
  -- back as the integer of that width which is nearest to the rounded and unscaled value: that value
  -- itself if it fits.
  pub encode_value_to_edt_lem :
      (value : F) (m : MetricSpec F)
      → IsSize m.size
      → (edt : List ℕ) × (r : ℤ) × (encode_value_to_edt fl value m ≡ ok edt)
        × Reads m.size m.signed r edt
        × IsClamped (min_raw m.size m.signed) (max_raw m.size m.signed) (raw_of_value fl value m) r
  unfolding encode_value_to_edt encode_raw
  encode_value_to_edt_lem value m s =
      let raw = raw_of_value fl value m in
      let c = clamp_raw-IsClamped m.size m.signed raw s in
      (
        encode_raw m.size m.signed raw,
        clamp_raw (m.size * 8) m.signed raw,
        accepted s,
        raw_bytes-Reads m.size m.signed _ s c.low c.high,
        c,
      )
    where
      accepted :
          IsSize m.size
          → encode_value_to_edt fl value m
            ≡ ok (encode_raw m.size m.signed (raw_of_value fl value m))
      accepted s = ground arith

  -- Any other size is refused, 0 as one whose width is not known.
  pub encode_value_to_edt_refuses :
      (value : F) (m : MetricSpec F)
      → ¬ IsSize m.size
      → encode_value_to_edt fl value m
        ≡ err (if m.size == 0 then auto_sized else unsupported_size m.size)
  unfolding encode_value_to_edt
  encode_value_to_edt_refuses value m s = ground arith

  pub parse_edt-Reads :
      (m : MetricSpec F) (edt : List ℕ) (r : ℤ)
      → IsSize m.size
      → m.offset ≡ 0
      → m.invalid ≡ none
      → (fl.is_inf (scale_value fl m.scale r) || fl.is_nan (scale_value fl m.scale r)) ≡ false
      → Reads m.size m.signed r edt
      → parse_edt_with_reason fl edt m ≡ ok (scale_value fl m.scale r)
  unfolding parse_edt_with_reason
  parse_edt-Reads m edt r s o i finite (n, bytes, reads) =
      let size : (m.size == 0) ≡ false = IsSize-pos s in
      let fits : ltb (length edt) (0 + m.size) ≡ false = ground arith in
      let whole : take m.size edt ≡ edt = rw (← n) (take-length edt) in
      rw (o, size, size, fits, whole, reads) (rw (i) (rw finite))

  -- The value shown for the integer `r` under the scale `s` is `v`: their product, which for a scale
  -- between 0 and 1 is rounded to the decimals that the scale has.
  abbrev pub Shows : F → ℤ → F → Type 0
  Shows s r v =
      ((fl.lt (zero_float fl) s && fl.lt s (one_float fl)) ≡ false) × (fl.mul (fl.of_int r) s ≡ v)
      ⊎ ((fl.lt (zero_float fl) s && fl.lt s (one_float fl)) ≡ true)
        × (fl.div
              (fl.round (
                fl.mul (fl.mul (fl.of_int r) s) (
                  fl.pow (ten_float fl)
                    (fl.of_int (fl.to_int (fl.ceil (neg_float fl (fl.log10 s))))))))
              (fl.pow (ten_float fl) (fl.of_int (fl.to_int (fl.ceil (neg_float fl (fl.log10 s))))))
            ≡ v)

  pub scale_value-Shows : (s : F) (r : ℤ) (v : F) → Shows s r v → scale_value fl s r ≡ v
  unfolding scale_value
  scale_value-Shows s r v (inl (whole, e)) = rw whole e
  scale_value-Shows s r v (inr (part, e)) = rw part e

  -- The integer that is nearest to a value without its scale; a metric with labels has none.
  abbrev pub Unscales : MetricSpec F → F → ℤ → Type 0
  Unscales m v r =
      (ltb 0 (length m.enum) ≡ true) × (fl.to_int (fl.round v) ≡ r)
      ⊎ (ltb 0 (length m.enum) ≡ false)
        × (fl.eq m.scale (zero_float fl) ≡ false)
        × (fl.to_int (fl.round (fl.div v m.scale)) ≡ r)

  raw_of_value-Unscales :
      (m : MetricSpec F) (v : F) (r : ℤ) → Unscales m v r → raw_of_value fl v m ≡ r
  unfolding raw_of_value
  raw_of_value-Unscales m v r (inl (labels, e)) = rw labels e
  raw_of_value-Unscales m v r (inr (plain, scaled, e)) = rw (plain, scaled) e

  -- Through both directions: a metric of 1, 2 or 4 bytes at offset 0 has no invalid mark. `v` is the
  -- finite value that is shown for an integer `r` of its width, and the floats are exact enough that
  -- `v` divided by the scale (for a metric with labels, `v` itself) rounds to `r` again. Then the
  -- bytes that are written for `v` are read as `v`.
  pub parse-encode :
      (m : MetricSpec F) (r : ℤ) (v : F)
      → IsSize m.size
      → m.offset ≡ 0
      → m.invalid ≡ none
      → min_raw m.size m.signed ≤ℤ r
      → r ≤ℤ max_raw m.size m.signed
      → (fl.is_inf v || fl.is_nan v) ≡ false
      → Shows m.scale r v
      → Unscales m v r
      → (edt : List ℕ) × (encode_value_to_edt fl v m ≡ ok edt)
        × (parse_edt_with_reason fl edt m ≡ ok v)
  parse-encode m r v s o i low high finite shows unscales =
      let (edt, r', written, reads, c) = encode_value_to_edt_lem v m s in
      let raw : raw_of_value fl v m ≡ r = raw_of_value-Unscales m v r unscales in
      let same : r' ≡ r =
        c.inside (subst (λ x. min_raw m.size m.signed ≤ℤ x) (sym raw) low)
          (subst (λ x. x ≤ℤ max_raw m.size m.signed) (sym raw) high)
        ∙ raw in
      let shown : scale_value fl m.scale r ≡ v = scale_value-Shows m.scale r v shows in
      (
        edt,
        written,
        parse_edt-Reads m edt r s o i
              (subst (λ x. (fl.is_inf x || fl.is_nan x) ≡ false) (sym shown) finite)
              (subst (λ x. Reads m.size m.signed x edt) same reads)
            ∙ ap ok shown,
      )
