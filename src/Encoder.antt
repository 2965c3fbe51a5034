-- ===== src/Encoder.antt =====
-- internal/echonet/encoder.go: property data to values and back. An `int64` is an integer, a `uint64`
-- a number below 2 ^ 64, with the wrap-around written out.
pub mod Integers
pub mod RoundTrip
use echonet_go.Base.{
  ℕ, zero, suc, ◌+◌, ◌-◌, ◌*◌, ◌/◌, ◌%◌, ◌^◌, Bool, true, false, not, ◌&&◌, ◌||◌, Option, none,
  some, List, [], ◌∷◌, ltb, leb, ◌==◌, if◌then◌else◌, length, take, drop, Result, ok, err,
}
use echonet_go.Base.Int.{ℤ, pos, negsuc, ltb_ℤ, eq_ℤ}
use echonet_go.Floats.{Float64, zero_float, one_float, ten_float, neg_float}
use echonet_go.Protocol.{byte_at}
use echonet_go.Specs.{MetricSpec}

-- Why a value is not read, or a value not written.
pub data EncodeError : Type 0 where
  empty_payload : EncodeError
  too_wide : ℕ → EncodeError
  empty_auto_sized : EncodeError
  edt_too_short : ℕ → ℕ → EncodeError
  invalid_sentinel : ℤ → EncodeError
  overflows_float : EncodeError
  auto_sized : EncodeError
  unsupported_size : ℕ → EncodeError

abbrev pub max_integer_bytes : ℕ
max_integer_bytes = 8

-- `int64(u)` and `uint64(n)`
abbrev pub to_int64 : ℕ → ℤ
to_int64 u = if ltb u (2 ^ 63) then pos u else negsuc (2 ^ 64 - u - 1)

abbrev pub to_uint64 : ℤ → ℕ
to_uint64 (pos n) = n % 2 ^ 64
to_uint64 (negsuc n) = 2 ^ 64 - 1 - n % 2 ^ 64

-- The loop `u = u<<8 | uint64(b)`.
unfoldable pub shift_in : ℕ → List ℕ → ℕ
shift_in u [] = u
shift_in u (b ∷ bs) = shift_in ((u * 256) % 2 ^ 64 + b) bs

unfoldable pub parse_integer : List ℕ → Bool → Result EncodeError ℤ
unfolding shift_in
parse_integer raw signed =
    if length raw == 0
    then err empty_payload
    else if ltb max_integer_bytes (length raw)
    then err (too_wide (length raw))
    else let u = shift_in 0 raw in
      if not signed || (byte_at raw 0 / 128) % 2 == 0
      then ok (to_int64 u)
      else ok (to_int64 ((u + 2 ^ 64 - 2 ^ (length raw * 8) % 2 ^ 64) % 2 ^ 64))

-- The clamps of `EncodeValueToEDT`, for `bits` bits.
unfoldable pub clamp_raw : ℕ → Bool → ℤ → ℤ
clamp_raw bits true raw =
    let max_pos = pos (2 ^ (bits - 1) - 1) in
    let min_neg = negsuc (2 ^ (bits - 1) - 1) in
    let capped = if ltb_ℤ max_pos raw then max_pos else raw in
    if ltb_ℤ capped min_neg then min_neg else capped
clamp_raw bits false raw =
    let floored = if ltb_ℤ raw (pos 0) then pos 0 else raw in
    let max_val = pos (2 ^ bits - 1) in if ltb_ℤ max_val floored then max_val else floored

-- The loop that writes `n` bytes, the lowest last; `out` holds those written.
unfoldable pub emit_bytes : ℕ → ℕ → List ℕ → List ℕ
emit_bytes zero u out = out
emit_bytes (suc n) u out = emit_bytes n (u / 256) (u % 256 ∷ out)

-- Mask to the width, and write big-endian.
unfoldable pub raw_bytes : ℕ → ℤ → List ℕ
unfolding emit_bytes
raw_bytes size raw = emit_bytes size (to_uint64 raw % 2 ^ (size * 8)) []

-- The part of `EncodeValueToEDT` behind the rounding.
unfoldable pub encode_raw : ℕ → Bool → ℤ → List ℕ
encode_raw size signed raw = raw_bytes size (clamp_raw (size * 8) signed raw)

module _ (fl : Float64) where
  open fl use {F, of_int, to_int, mul, div, lt, eq, round, ceil, log10, pow, is_inf, is_nan}

  -- `v := float64(rawValue) * m.Scale`, rounded to the digits of a scale between 0 and 1.
  unfoldable pub scale_value : F → ℤ → F
  scale_value scale raw =
      let v = mul (of_int raw) scale in
      if lt (zero_float fl) scale && lt scale (one_float fl)
      then (let digits = to_int (ceil (neg_float fl (log10 scale))) in
          let factor = pow (ten_float fl) (of_int digits) in div (round (mul v factor)) factor)
      else v

  is_invalid : Option ℤ → ℤ → Bool
  is_invalid none raw = false
  is_invalid (some n) raw = eq_ℤ raw n

  -- The end of `parseEDTWithReason`, from the raw value on.
  check_value : MetricSpec F → Result EncodeError ℤ → Result EncodeError F
  check_value m (err e) = err e
  check_value m (ok raw) =
      let v = scale_value m.scale raw in
      if is_invalid m.invalid raw
      then err (invalid_sentinel raw)
      else if is_inf v || is_nan v
      then err overflows_float
      else ok v

  -- `parseEDTWithReason`
  unfoldable pub parse_edt_with_reason : List ℕ → MetricSpec F → Result EncodeError F
  unfolding is_invalid check_value
  parse_edt_with_reason edt m =
      let size = if m.size == 0 then length edt - m.offset else m.size in
      if size == 0
      then err empty_auto_sized
      else if ltb (length edt) (m.offset + size)
      then err (edt_too_short (length edt) (m.offset + size))
      else check_value m (parse_integer (take size (drop m.offset edt)) m.signed)

  -- The raw value that a display value stands for.
  unfoldable pub raw_of_value : F → MetricSpec F → ℤ
  raw_of_value value m =
      if ltb 0 (length m.enum)
      then to_int (round value)
      else (let scale = if eq m.scale (zero_float fl) then one_float fl else m.scale in
          to_int (round (div value scale)))

  -- `EncodeValueToEDT`
  unfoldable pub encode_value_to_edt : F → MetricSpec F → Result EncodeError (List ℕ)
  encode_value_to_edt value m =
      if m.size == 0
      then err auto_sized
      else if not (m.size == 1) && (not (m.size == 2) && not (m.size == 4))
      then err (unsupported_size m.size)
      else ok (encode_raw m.size m.signed (raw_of_value value m))
