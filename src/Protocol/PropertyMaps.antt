-- ===== src/Protocol/PropertyMaps.antt =====
-- `decodePropertyMap` against the description of the map: in the long form, bit `h` of byte `l + 1`
-- stands for the code `(h + 8) * 16 + l`.
use echonet_go.Base.{
  ℕ, zero, suc, ◌+◌, ◌-◌, ◌*◌, ◌/◌, ◌%◌, ◌^◌, ◌<◌, ◌≤◌, ◌≡◌, refl, ◌∙◌, Bool, false, ◌&&◌, ◌||◌,
  List, [], ◌∷◌, arith, length, inl, inr, Bool-cases, ltb, leb, ◌==◌, get_or, drop, if◌then◌else◌,
  ==_iff, ||_assoc,
}
use echonet_go.Base.Maps.{ByteSet, has, add, has-add}
use echonet_go.Protocol.{to_byte, byte_at, add_all, add_bits, add_rows, decode_property_map}

abbrev pub bit_set : ℕ → ℕ → Bool
bit_set bits k = (bits / 2 ^ k) % 2 == 1

has-add_all :
    (e : ℕ) (bs : List ℕ) (out : ByteSet) → has e (add_all bs out) ≡ (has e bs || has e out)
unfolding add_all
has-add_all e [] out = unfold has in refl
has-add_all e (b ∷ bs) out =
    ground (arith, has-add_all e bs (add b out), has-add b e out, has-cons e b bs)
  where
    has-cons : (e b : ℕ) (bs : List ℕ) → has e (b ∷ bs) ≡ (b == e || has e bs)
    has-cons e b bs = unfold has in refl

-- One bit: the code of bit `b` in row `code` is `e` exactly if `e` has these digits.
bit_code :
    (b code e : ℕ)
    → b < 8
    → code < 16
    → (to_byte (to_byte ((b + 8) * 0x10) + code) == e) ≡ (e % 16 == code && e / 16 == (b + 8))
bit_code b code e p q = ground arith

abbrev in_row : ℕ → ℕ → ℕ → ℕ → ℕ → Bool
in_row n bit bits code e =
    e % 16 == code
    && (leb (bit + 8) (e / 16) && (ltb (e / 16) (bit + 8 + n) && bit_set bits (e / 16 - 8)))

has-add_bit :
    (bit bits code e : ℕ) (out : ByteSet)
    → bit < 8
    → code < 16
    → has e
        (if bit_set bits bit then add (to_byte (to_byte ((bit + 8) * 0x10) + code)) out else out)
      ≡ (has e out || (e % 16 == code && e / 16 == (bit + 8) && bit_set bits bit))
has-add_bit bit bits code e out p q = elim (Bool-cases (bit_set bits bit)) [
  | inl h ↦ rw h (rw (has-add _ e out, bit_code bit code e p q) (ground arith))
  | inr h ↦ rw h (ground arith)
]

-- The codes of the rows from `bit` on are those of `bit` and those of the rows from `bit + 1` on.
in_row-suc :
    (n bit bits code e : ℕ)
    → in_row (suc n) bit bits code e ≡ (
        (e % 16 == code && e / 16 == (bit + 8) && bit_set bits bit)
        || in_row n (bit + 1) bits code e)
in_row-suc n bit bits code e = elim (Bool-cases (e / 16 == (bit + 8))) [
  | inl h ↦
      let d : e / 16 ≡ bit + 8 = (==_iff _ _).0 h in
      let k : bit + 8 - 8 ≡ bit = omega arith in rw (d, k) (ground arith)
  | inr h ↦ ground arith
]

has-add_bits :
    (n bit bits code e : ℕ) (out : ByteSet)
    → bit + n ≤ 8
    → code < 16
    → has e (add_bits n bit bits code out) ≡ (has e out || in_row n bit bits code e)
unfolding add_bits
has-add_bits zero bit bits code e out p q = ground arith
has-add_bits (suc n) bit bits code e out p q =
    has-add_bits n (bit + 1) bits code e _ (omega arith) q
    ∙ rw (has-add_bit bit bits code e out (omega arith) q, in_row-suc n bit bits code e)
        (ground arith)

-- The code `e` is described by some row from `code` on.
abbrev in_rows : ℕ → ℕ → List ℕ → ℕ → Bool
in_rows n code rows e =
    leb code (e % 16)
    && (ltb (e % 16) (code + n)
        && (leb 8 (e / 16)
            && (ltb (e / 16) 16 && bit_set (get_or rows (e % 16 - code) 0) (e / 16 - 8))))

bit_set-zero : (k : ℕ) → bit_set 0 k ≡ false
bit_set-zero k = ground arith

in_rows-suc :
    (n code e bits : ℕ) (rows : List ℕ)
    → in_rows (suc n) code (bits ∷ rows) e ≡ (in_row 8 0 bits code e || in_rows n (code + 1) rows e)
in_rows-suc n code e bits rows = elim (Bool-cases (ltb code (e % 16))) [
  | inl above ↦
      let k : e % 16 - code ≡ suc (e % 16 - (code + 1)) = ground arith in rw k (ground arith)
  | inr below ↦ elim (Bool-cases (e % 16 == code)) [
    | inl same ↦ let k : e % 16 - code ≡ 0 = ground arith in rw k (ground arith)
    | inr other ↦ ground arith
  ]
]

has-add_rows :
    (n code e : ℕ) (rows : List ℕ) (out : ByteSet)
    → code + n ≤ 16
    → has e (add_rows n code rows out) ≡ (has e out || in_rows n code rows e)
unfolding add_rows
has-add_rows zero code e rows out p = ground arith
has-add_rows (suc n) code e [] out p = ground (arith, bit_set-zero (e / 16 - 8))
has-add_rows (suc n) code e (bits ∷ rows) out p =
    has-add_rows n (code + 1) e rows _ (omega arith)
    ∙ rw
        (
          has-add_bits 8 0 bits code e out (omega arith) (omega arith),
          in_rows-suc n code e bits rows,
        )
        (||_assoc (has e out) _ _)

-- The decoded map. With fewer than 17 bytes a code is in it exactly if it stands behind the first
-- byte. With more, a code below 256 is in it exactly if it is at least 0x80 and its bit is set in
-- its byte.
pub has-decode_property_map :
    (edt : List ℕ) (e : ℕ)
    → e < 256
    → has e (decode_property_map edt) ≡ (
        if ltb (length edt) 17
        then has e (drop 1 edt)
        else leb 0x80 e && bit_set (byte_at edt (e % 16 + 1)) (e / 16 - 8))
unfolding decode_property_map
has-decode_property_map [] e h = refl
has-decode_property_map (n ∷ bytes) e h = elim (Bool-cases (ltb (length (n ∷ bytes)) 17)) [
  | inl short ↦ rw short (has-add_all e bytes [] ∙ unfold has in ground arith)
  | inr long ↦ rw long (
      let i : e % 16 + 1 ≡ suc (e % 16) = omega arith in
      let j : e % 16 - 0 ≡ e % 16 = omega arith in
      unfold decode_property_map in
      has-add_rows 16 0 e bytes [] (omega arith) ∙ rw (i, j) (unfold has in ground arith))
]
