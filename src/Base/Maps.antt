-- ===== src/Base/Maps.antt =====
-- Go maps as association lists, read by `lookup`, with keys of any type that has an equality test.
-- A missing key reads as `none`; the order of the list stands for the order of a `range` loop.
use Prim.Native.Nat.{ℕ}
use mathlib.Core.Path.{◌≡◌, refl, subst}
use mathlib.Core.Logic.{◌↔◌, inl, inr}
use mathlib.Core.Bool.{Bool, true, false, ◌||◌}
use mathlib.Core.List.{List, [], ◌∷◌, ◌++◌}
use mathlib.Core.Option.{Option, none, some}
use native.Mathlib.Omega.{arith}
use package.echonet_go.Base.Tests.{◌==◌, ==_iff, if◌then◌else◌, Bool-cases}
use package.echonet_go.Base.Int.{ℤ, eq_ℤ, eq_ℤ_iff}
use package.echonet_go.Base.Lists.{All}
use package.echonet_go.Base.Texts.{Text, text_eq, text_eq_iff}

pub record Eq {ℓ} (A : Type ℓ) : Type ℓ where
  pub beq : A → A → Bool
  pub beq_iff : (a b : A) → (beq a b ≡ true) ↔ (a ≡ b)

instance abbrev pub byte_key : Eq ℕ
byte_key = record { beq = ◌==◌; beq_iff = ==_iff }

instance abbrev pub int_key : Eq ℤ
int_key = record { beq = eq_ℤ; beq_iff = eq_ℤ_iff }

instance abbrev pub text_key : Eq Text
text_key = record { beq = text_eq; beq_iff = text_eq_iff }

pub beq_self {ℓ} : {K : Type ℓ} ⦃e : Eq K⦄ (k : K) → e.beq k k ≡ true
beq_self ⦃e⦄ k = (e.beq_iff k k).1 refl

module _ {ℓ κ} {K : Type ℓ} {V : Type κ} ⦃e : Eq K⦄ where
  unfoldable pub lookup : K → List (K × V) → Option V
  lookup k [] = none
  lookup k ((j, v) ∷ m) = if e.beq j k then some v else lookup k m

  -- `m[k] = v`
  unfoldable pub insert : K → V → List (K × V) → List (K × V)
  insert k v [] = (k, v) ∷ []
  insert k v ((j, w) ∷ m) = if e.beq j k then (k, v) ∷ m else (j, w) ∷ insert k v m

  -- `delete(m, k)`
  unfoldable pub delete : K → List (K × V) → List (K × V)
  delete k [] = []
  delete k ((j, w) ∷ m) = let rest = delete k m in if e.beq j k then rest else (j, w) ∷ rest

  -- `for k, v := range src { dst[k] = v }`
  unfoldable pub insert_all : List (K × V) → List (K × V) → List (K × V)
  insert_all [] dst = dst
  insert_all ((k, v) ∷ src) dst = insert_all src (insert k v dst)

  pub lookup-insert :
      (k j : K) (v : V) (m : List (K × V))
      → lookup j (insert k v m) ≡ (if e.beq k j then some v else lookup j m)
  unfolding lookup insert
  lookup-insert k j v [] = refl
  lookup-insert k j v ((i, w) ∷ m) =
      ground (arith, e.beq_iff k j, e.beq_iff i k, e.beq_iff i j, lookup-insert k j v m)

  pub lookup-delete :
      (k j : K) (m : List (K × V))
      → lookup j (delete k m) ≡ (if e.beq k j then none else lookup j m)
  unfolding lookup delete
  lookup-delete k j [] = ground arith
  lookup-delete k j ((i, w) ∷ m) =
      ground (arith, e.beq_iff k j, e.beq_iff i k, e.beq_iff i j, lookup-delete k j m)

  -- The last entry of `src` under `k`, which is what the loop of `insert_all` leaves.
  unfoldable pub last_of : K → List (K × V) → Option V → Option V
  last_of k [] d = d
  last_of k ((j, v) ∷ m) d = last_of k m (if e.beq j k then some v else d)

  pub lookup-insert_all :
      (k : K) (src dst : List (K × V))
      → lookup k (insert_all src dst) ≡ last_of k src (lookup k dst)
  unfolding insert_all last_of
  lookup-insert_all k [] dst = refl
  lookup-insert_all k ((j, v) ∷ src) dst =
      ground (arith, lookup-insert_all k src (insert j v dst), lookup-insert j k v dst)

-- Sets of bytes, Go's `map[byte]struct{}`.
abbrev pub ByteSet : Type 0
ByteSet = List ℕ

unfoldable pub has : ℕ → ByteSet → Bool
has x [] = false
has x (y ∷ s) = y == x || has x s

unfoldable pub add : ℕ → ByteSet → ByteSet
add x s = if has x s then s else x ∷ s

pub has-add : (x y : ℕ) (s : ByteSet) → has y (add x s) ≡ (x == y || has y s)
unfolding has add
has-add x y s = elim (Bool-cases (x == y)) [ inl h ↦ ground (arith, h) | inr h ↦ ground (arith, h) ]

pub has-append : (x : ℕ) (s t : ByteSet) → has x (s ++ t) ≡ (has x s || has x t)
unfolding has
has-append x [] t = refl
has-append x (y ∷ s) t = ground (arith, has-append x s t)

-- A property of all entries is kept by an insertion, and holds of an entry that is found.
module _ {ℓ κ μ} {K : Type ℓ} {V : Type κ} ⦃e : Eq K⦄ (Q : K × V → Type μ) where
  pub insert-All : (k : K) (v : V) (m : List (K × V)) → Q (k, v) → All Q m → All Q (insert k v m)
  unfolding insert
  insert-All k v [] q h = (q, tt)
  insert-All k v ((j, w) ∷ m) q h = elim (Bool-cases (e.beq j k)) [
    | inl same ↦ rw same (q, h.1)
    | inr other ↦ rw other (h.0, insert-All k v m q h.1)
  ]

  pub lookup-All : (k : K) (m : List (K × V)) {v : V} → All Q m → lookup k m ≡ some v → Q (k, v)
  unfolding lookup
  lookup-All k [] h q = absurd (cc)
  lookup-All k ((j, w) ∷ m) h q = elim (Bool-cases (e.beq j k)) [
    | inl same ↦
        subst (λ x. Q (k, x)) (ground (arith)) (subst (λ i. Q (i, w)) ((e.beq_iff j k).0 same) h.0)
    | inr other ↦ lookup-All k m h.1 (ground (arith))
  ]
