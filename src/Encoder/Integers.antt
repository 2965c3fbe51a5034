-- ===== src/Encoder/Integers.antt =====
-- `parseInteger` against two's complement.
use echonet_go.Base.{
  ℕ, zero, suc, ◌+◌, ◌-◌, ◌*◌, ◌/◌, ◌%◌, ◌^◌, ◌<◌, ◌≤◌, ◌≡◌, refl, ap, true, false, List, [], ◌∷◌,
  arith, ltb, ◌==◌, if◌then◌else◌, length, All, ok, Result, le→ltb,
}
use echonet_go.Base.Int.{ℤ, pos, negsuc}
use native.Mathlib.Numerals.{towards_suc}
use echonet_go.Encoder.{EncodeError, shift_in, parse_integer, to_int64}

abbrev pub IsByte : ℕ → Type 0
IsByte b = b < 256

-- The number that big-endian bytes spell, behind the digits of `u`.
unfoldable pub big_endian : ℕ → List ℕ → ℕ
big_endian u [] = u
big_endian u (b ∷ bs) = big_endian (u * 256 + b) bs

-- The integer that an `n`-byte pattern stands for.
abbrev pub twos_complement : ℕ → ℕ → ℤ
twos_complement n u = if ltb u (2 ^ (n * 8 - 1)) then pos u else negsuc (2 ^ (n * 8) - u - 1)

abbrev pow_bytes : List ℕ → ℕ
pow_bytes [] = 1
pow_bytes (b ∷ bs) = 256 * pow_bytes bs

pow_bytes_pos : (bs : List ℕ) → 1 ≤ pow_bytes bs
pow_bytes_pos [] = omega arith
pow_bytes_pos (b ∷ bs) = omega (arith, pow_bytes_pos bs)

mul_mono : (a b p : ℕ) → a ≤ b → a * p ≤ b * p
mul_mono a b p h = grind arith

pub big_endian_bounds :
    (u : ℕ) (bs : List ℕ)
    → All IsByte bs
    → (u * pow_bytes bs ≤ big_endian u bs) × (big_endian u bs < (u + 1) * pow_bytes bs)
unfolding big_endian
big_endian_bounds u [] h = omega arith
big_endian_bounds u (b ∷ bs) h =
    let (lo, hi) = big_endian_bounds (u * 256 + b) bs h.1 in
    omega (arith, mul_mono (suc b) 256 (pow_bytes bs) h.0)

-- With room for every byte no bit is shifted out.
shift_in-big_endian :
    (u : ℕ) (bs : List ℕ)
    → All IsByte bs
    → (u + 1) * pow_bytes bs ≤ 2 ^ 64
    → shift_in u bs ≡ big_endian u bs
unfolding shift_in big_endian
shift_in-big_endian u [] h r = refl
shift_in-big_endian u (b ∷ bs) h r =
    let room : (u + 1) * 256 ≤ 2 ^ 64 =
      omega (arith, mul_mono 1 (pow_bytes bs) ((u + 1) * 256) (pow_bytes_pos bs)) in
    let whole : (u * 256) % 2 ^ 64 ≡ u * 256 = omega arith in
    rw whole (
      shift_in-big_endian (u * 256 + b) bs h.1
        (omega (arith, mul_mono (suc b) 256 (pow_bytes bs) h.0)))

-- The cases of the sign, at each width: the top bit of the pattern `u` is that of its first byte.
to_int64-twos_complement :
    (k u a : ℕ)
    → k < 8
    → u < 2 ^ (suc k * 8)
    → a * 2 ^ (k * 8) ≤ u
    → u < (a + 1) * 2 ^ (k * 8)
    → a < 256
    → ◌≡◌ {A = Result EncodeError ℤ}
        (if (a / 128) % 2 == 0
          then ok (to_int64 u)
          else ok (to_int64 ((u + 2 ^ 64 - 2 ^ (suc k * 8) % 2 ^ 64) % 2 ^ 64)))
        (ok (twos_complement (suc k) u))
to_int64-twos_complement zero u a q b lo hi h = ground arith
to_int64-twos_complement (suc zero) u a q b lo hi h = ground arith
to_int64-twos_complement (suc (suc zero)) u a q b lo hi h = ground arith
to_int64-twos_complement (suc (suc (suc zero))) u a q b lo hi h = ground arith
to_int64-twos_complement (suc (suc (suc (suc zero)))) u a q b lo hi h = ground arith
to_int64-twos_complement (suc (suc (suc (suc (suc zero))))) u a q b lo hi h = ground arith
to_int64-twos_complement (suc (suc (suc (suc (suc (suc zero)))))) u a q b lo hi h = ground arith
to_int64-twos_complement (suc (suc (suc (suc (suc (suc (suc zero))))))) u a q b lo hi h =
    ground arith
to_int64-twos_complement (suc (suc (suc (suc (suc (suc (suc (suc n)))))))) u a q b lo hi h =
    absurd (omega arith)

pow_step : (k : ℕ) → 2 ^ (suc k * 8) ≡ 256 * 2 ^ (k * 8)
pow_step k = let e : suc k * 8 ≡ k * 8 + 8 = omega arith in rw e (simp towards_suc (omega arith))

pow_bytes-pow : (bs : List ℕ) → pow_bytes bs ≡ 2 ^ (length bs * 8)
pow_bytes-pow [] = refl
pow_bytes-pow (b ∷ bs) = omega (arith, pow_bytes-pow bs, pow_step (length bs))

pow_bytes_le : (k : ℕ) (bs : List ℕ) → length bs ≤ k → pow_bytes bs ≤ 2 ^ (k * 8)
pow_bytes_le zero [] h = omega arith
pow_bytes_le zero (b ∷ bs) h = absurd (omega arith)
pow_bytes_le (suc k) [] h = omega (arith, pow_bytes_le k [] (omega arith), pow_step k)
pow_bytes_le (suc k) (b ∷ bs) h = omega (arith, pow_bytes_le k bs (omega arith), pow_step k)

-- At most eight bytes of a signed metric are read as the two's complement integer of their width.
pub parse_integer-signed :
    (a : ℕ) (bs : List ℕ)
    → All IsByte (a ∷ bs)
    → length (a ∷ bs) ≤ 8
    → parse_integer (a ∷ bs) true ≡ ok (twos_complement (length (a ∷ bs)) (big_endian 0 (a ∷ bs)))
unfolding parse_integer
parse_integer-signed a bs h n =
    let room : pow_bytes (a ∷ bs) ≤ 2 ^ 64 = pow_bytes_le 8 (a ∷ bs) n in
    let read : shift_in 0 (a ∷ bs) ≡ big_endian 0 (a ∷ bs) =
      shift_in-big_endian 0 (a ∷ bs) h (omega arith) in
    let full : (length (a ∷ bs) == 0) ≡ false = ground arith in
    let fits : ltb 8 (length (a ∷ bs)) ≡ false = le→ltb 8 (length (a ∷ bs)) n in
    let (lo, hi) = big_endian_bounds 0 (a ∷ bs) h in
    let (low, high) = big_endian_bounds a bs h.1 in
    let e : big_endian 0 (a ∷ bs) ≡ big_endian a bs =
      unfold big_endian in ap (λ u. big_endian u bs) (omega arith) in
    rw (read, full, fits)
      (to_int64-twos_complement (length bs) _ a n (omega (arith, pow_bytes-pow (a ∷ bs)))
        (omega (arith, ap (λ (t : ℕ). a * t) (pow_bytes-pow bs), e))
        (omega (arith, ap (λ (t : ℕ). (a + 1) * t) (pow_bytes-pow bs), e)) h.0)

-- At most eight bytes of an unsigned metric are read as the number that they spell, if that is below
-- 2 ^ 63.
pub parse_integer-unsigned :
    (a : ℕ) (bs : List ℕ)
    → All IsByte (a ∷ bs)
    → length (a ∷ bs) ≤ 8
    → big_endian 0 (a ∷ bs) < 2 ^ 63
    → parse_integer (a ∷ bs) false ≡ ok (pos (big_endian 0 (a ∷ bs)))
unfolding parse_integer
parse_integer-unsigned a bs h n small =
    let room : pow_bytes (a ∷ bs) ≤ 2 ^ 64 = pow_bytes_le 8 (a ∷ bs) n in
    let read : shift_in 0 (a ∷ bs) ≡ big_endian 0 (a ∷ bs) =
      shift_in-big_endian 0 (a ∷ bs) h (omega arith) in
    let full : (length (a ∷ bs) == 0) ≡ false = ground arith in
    let fits : ltb 8 (length (a ∷ bs)) ≡ false = le→ltb 8 (length (a ∷ bs)) n in
    rw (read, full, fits) (ap ok (ground arith))

-- Eight bytes that spell 2 ^ 63 or more are read as a negative number, though the metric is unsigned.
pub parse_integer-unsigned_negative :
    (a : ℕ) (bs : List ℕ)
    → All IsByte (a ∷ bs)
    → length (a ∷ bs) ≡ 8
    → 2 ^ 63 ≤ big_endian 0 (a ∷ bs)
    → parse_integer (a ∷ bs) false ≡ ok (negsuc (2 ^ 64 - big_endian 0 (a ∷ bs) - 1))
unfolding parse_integer
parse_integer-unsigned_negative a bs h n large =
    let room : pow_bytes (a ∷ bs) ≤ 2 ^ 64 = pow_bytes_le 8 (a ∷ bs) (omega arith) in
    let read : shift_in 0 (a ∷ bs) ≡ big_endian 0 (a ∷ bs) =
      shift_in-big_endian 0 (a ∷ bs) h (omega arith) in
    rw (n, read) (ap ok (ground arith))
