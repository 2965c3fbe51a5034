-- ===== src/Client/Merge.antt =====
-- The map that collects the answers: what it holds, and in what order it is read out.
use echonet_go.Base.{
  ℕ, ◌<◌, ◌≡◌, refl, ◌∙◌, sym, Bool, true, false, ◌||◌, Option, none, some, List, [], ◌∷◌, arith,
  All, is_some, inl, inr, Bool-cases, Option-cases, ◌==◌, if◌then◌else◌, ◌&&◌, ==_iff, ||_assoc,
}
use echonet_go.Base.Maps.{has, lookup, insert, lookup-insert, byte_key, insert-All, lookup-All}
use echonet_go.Protocol.{Property}
use echonet_go.Client.{
  epcs_of, PropMap, replaces, merge_props, cons_some, insert_sorted, sort_ints, keys, values_at,
  map_to_props,
}

-- The properties stand under their own codes.
abbrev pub IsKeyed : PropMap → Type 0
IsKeyed m = All (λ e. e.1.epc ≡ e.0) m

abbrev pub AllValues : (Property → Type 0) → PropMap → Type 0
AllValues P m = All (λ e. P e.1) m

merge_props-All :
    (Q : ℕ × Property → Type 0) (src : List Property) (dst : PropMap)
    → All (λ p. Q (p.epc, p)) src
    → All Q dst
    → All Q (merge_props dst src)
unfolding merge_props
merge_props-All Q [] dst s d = d
merge_props-All Q (p ∷ src) dst s d = elim (Bool-cases (replaces (lookup p.epc dst) p)) [
  | inl put ↦ rw put (merge_props-All Q src _ s.1 (insert-All Q p.epc p dst s.0 d))
  | inr keep ↦ rw keep (merge_props-All Q src dst s.1 d)
]

All-self : (src : List Property) → All (λ p. p.epc ≡ p.epc) src
All-self [] = tt
All-self (p ∷ src) = (refl, All-self src)

pub merge_props-IsKeyed :
    (src : List Property) (dst : PropMap) → IsKeyed dst → IsKeyed (merge_props dst src)
merge_props-IsKeyed src dst = merge_props-All (λ e. e.1.epc ≡ e.0) src dst (All-self src)

pub merge_props-AllValues :
    (P : Property → Type 0) (src : List Property) (dst : PropMap)
    → All P src
    → AllValues P dst
    → AllValues P (merge_props dst src)
merge_props-AllValues P = merge_props-All (λ e. P e.1)

replaces-false : (o : Option Property) (p : Property) → replaces o p ≡ false → is_some o ≡ true
unfolding replaces
replaces-false none p h = cc
replaces-false (some q) p h = refl

lookup-merge_one :
    (e : ℕ) (p : Property) (dst : PropMap)
    → is_some (lookup e (if replaces (lookup p.epc dst) p then insert p.epc p dst else dst))
      ≡ (is_some (lookup e dst) || p.epc == e)
lookup-merge_one e p dst = elim (Bool-cases (replaces (lookup p.epc dst) p)) [
  | inl put ↦ rw put (rw (lookup-insert p.epc e p dst) (ground arith))
  | inr keep ↦ rw keep (stays (replaces-false (lookup p.epc dst) p keep))
]
  where
    stays :
        is_some (lookup p.epc dst) ≡ true
        → is_some (lookup e dst) ≡ (is_some (lookup e dst) || p.epc == e)
    stays h = elim (Bool-cases (p.epc == e)) [
      | inl same ↦ rw (same, ← (==_iff p.epc e).0 same, h)
      | inr other ↦ rw other (ground arith)
    ]

-- A code has a place in the merged map exactly if it had one or came in.
pub lookup-merge_props :
    (e : ℕ) (src : List Property) (dst : PropMap)
    → is_some (lookup e (merge_props dst src)) ≡ (is_some (lookup e dst) || has e (epcs_of src))
unfolding merge_props has
lookup-merge_props e [] dst = ground arith
lookup-merge_props e (p ∷ src) dst =
    lookup-merge_props e src _
    ∙ rw (lookup-merge_one e p dst) (||_assoc (is_some (lookup e dst)) _ _)

lookup-keys : (k : ℕ) (m : PropMap) → is_some (lookup k m) ≡ has k (keys m)
unfolding lookup has
lookup-keys k [] = refl
lookup-keys k ((j, w) ∷ m) = ground (arith, lookup-keys k m)

has-insert_sorted : (e x : ℕ) (ys : List ℕ) → has e (insert_sorted x ys) ≡ (x == e || has e ys)
unfolding insert_sorted has
has-insert_sorted e x [] = refl
has-insert_sorted e x (y ∷ ys) = ground (arith, has-insert_sorted e x ys)

pub has-sort_ints : (e : ℕ) (xs : List ℕ) → has e (sort_ints xs) ≡ has e xs
unfolding sort_ints has
has-sort_ints e [] = refl
has-sort_ints e (x ∷ xs) = has-insert_sorted e x (sort_ints xs) ∙ rw (has-sort_ints e xs)

values_at-AllValues :
    (P : Property → Type 0) (m : PropMap) (ks : List ℕ) → AllValues P m → All P (values_at m ks)
unfolding values_at
values_at-AllValues P m [] h = tt
values_at-AllValues P m (k ∷ ks) h = elim (Option-cases (lookup k m)) [
  | inl e ↦ rw (e, cons_some) (values_at-AllValues P m ks h)
  | inr (p, e) ↦ rw (e, cons_some) (lookup-All (λ q. P q.1) k m h e, values_at-AllValues P m ks h)
]

has-cons-and :
    (e k : ℕ) (ks : List ℕ) (b : Bool)
    → (k ≡ e → b ≡ false)
    → (has e (k ∷ ks) && b) ≡ (has e ks && b)
unfolding has
has-cons-and e k ks b h = ground arith

has-cons-or :
    (e k : ℕ) (ks rest : List ℕ) (b : Bool)
    → has e rest ≡ (has e ks && b)
    → (k ≡ e → b ≡ true)
    → has e (k ∷ rest) ≡ (has e (k ∷ ks) && b)
unfolding has
has-cons-or e k ks rest b ih h = ground arith

has-values_at :
    (e : ℕ) (m : PropMap) (ks : List ℕ)
    → IsKeyed m
    → has e (epcs_of (values_at m ks)) ≡ (has e ks && is_some (lookup e m))
unfolding values_at
has-values_at e m [] h = unfold has in refl
has-values_at e m (k ∷ ks) h = elim (Option-cases (lookup k m)) [
  | inl missing ↦
      rw (missing, cons_some)
        (has-values_at e m ks h
          ∙ sym (has-cons-and e k ks (is_some (lookup e m)) (λ same. rw (← same, missing))))
  | inr (p, found) ↦
      let key : p.epc ≡ k = lookup-All (λ q. q.1.epc ≡ q.0) k m h found in
      rw (found, cons_some)
        (rw key (
          has-cons-or e k ks _ (is_some (lookup e m)) (has-values_at e m ks h)
            (λ same. rw (← same, found))))
]

-- The codes that are read out are those of the map.
pub has-map_to_props :
    (e : ℕ) (m : PropMap) → IsKeyed m → has e (epcs_of (map_to_props m)) ≡ is_some (lookup e m)
unfolding map_to_props
has-map_to_props e m h =
    has-values_at e m (sort_ints (keys m)) h
    ∙ rw (has-sort_ints e (keys m), ← lookup-keys e m) (ground arith)

pub map_to_props-AllValues :
    (P : Property → Type 0) (m : PropMap) → AllValues P m → All P (map_to_props m)
unfolding map_to_props
map_to_props-AllValues P m = values_at-AllValues P m (sort_ints (keys m))

-- The codes rise strictly along the list.
abbrev pub IsRising : List ℕ → Type 0
IsRising [] = Unit
IsRising (x ∷ xs) = All (λ y. x < y) xs × IsRising xs

insert_sorted-All :
    (a x : ℕ) (ys : List ℕ) → a < x → All (λ y. a < y) ys → All (λ y. a < y) (insert_sorted x ys)
unfolding insert_sorted
insert_sorted-All a x [] h k = (h, tt)
insert_sorted-All a x (y ∷ ys) h k = ground (arith, insert_sorted-All a x ys)

All-lt_trans : (a x : ℕ) (ys : List ℕ) → a < x → All (λ y. x < y) ys → All (λ y. a < y) ys
All-lt_trans a x [] h k = tt
All-lt_trans a x (y ∷ ys) h k = (omega arith, All-lt_trans a x ys h k.1)

insert_sorted-IsRising :
    (x : ℕ) (ys : List ℕ) → has x ys ≡ false → IsRising ys → IsRising (insert_sorted x ys)
unfolding insert_sorted has
insert_sorted-IsRising x [] n r = (tt, tt)
insert_sorted-IsRising x (y ∷ ys) n r =
    ground (arith, insert_sorted-IsRising x ys, insert_sorted-All y x ys, All-lt_trans x y ys)

-- No key stands twice.
abbrev pub HasOnce : List ℕ → Type 0
HasOnce [] = Unit
HasOnce (x ∷ xs) = (has x xs ≡ false) × HasOnce xs

sort_ints-IsRising : (xs : List ℕ) → HasOnce xs → IsRising (sort_ints xs)
unfolding sort_ints
sort_ints-IsRising [] h = tt
sort_ints-IsRising (x ∷ xs) h =
    insert_sorted-IsRising x (sort_ints xs) (has-sort_ints x xs ∙ h.0) (sort_ints-IsRising xs h.1)

has-keys-insert :
    (e k : ℕ) (p : Property) (m : PropMap)
    → has e (keys (insert k p m)) ≡ (k == e || has e (keys m))
has-keys-insert e k p m =
    sym (lookup-keys e (insert k p m))
    ∙ rw (lookup-insert k e p m, ← lookup-keys e m) (ground arith)

insert-HasOnce :
    (k : ℕ) (p : Property) (m : PropMap) → HasOnce (keys m) → HasOnce (keys (insert k p m))
unfolding insert
insert-HasOnce k p [] h = (unfold has in refl, tt)
insert-HasOnce k p ((j, w) ∷ m) h = elim (Bool-cases (j == k)) [
  | inl same ↦ rw same (rw (← (==_iff j k).0 same) h.0, h.1)
  | inr other ↦
      rw other
        (unfold insert in has-keys-insert j k p m ∙ ground (arith, h.0), insert-HasOnce k p m h.1)
]

pub merge_props-HasOnce :
    (src : List Property) (dst : PropMap)
    → HasOnce (keys dst)
    → HasOnce (keys (merge_props dst src))
unfolding merge_props
merge_props-HasOnce [] dst d = d
merge_props-HasOnce (p ∷ src) dst d = elim (Bool-cases (replaces (lookup p.epc dst) p)) [
  | inl put ↦ rw put (merge_props-HasOnce src _ (insert-HasOnce p.epc p dst d))
  | inr keep ↦ rw keep (merge_props-HasOnce src dst d)
]

values_at-All :
    (a : ℕ) (m : PropMap) (ks : List ℕ)
    → IsKeyed m
    → All (λ y. a < y) ks
    → All (λ y. a < y) (epcs_of (values_at m ks))
unfolding values_at
values_at-All a m [] d h = tt
values_at-All a m (k ∷ ks) d h = elim (Option-cases (lookup k m)) [
  | inl e ↦ rw (e, cons_some) (values_at-All a m ks d h.1)
  | inr (p, e) ↦
      let key : p.epc ≡ k = lookup-All (λ q. q.1.epc ≡ q.0) k m d e in
      rw (e, cons_some) (omega arith, values_at-All a m ks d h.1)
]

values_at-IsRising :
    (m : PropMap) (ks : List ℕ) → IsKeyed m → IsRising ks → IsRising (epcs_of (values_at m ks))
unfolding values_at
values_at-IsRising m [] d r = tt
values_at-IsRising m (k ∷ ks) d r = elim (Option-cases (lookup k m)) [
  | inl e ↦ rw (e, cons_some) (values_at-IsRising m ks d r.1)
  | inr (p, e) ↦
      let key : p.epc ≡ k = lookup-All (λ q. q.1.epc ≡ q.0) k m d e in
      rw (e, cons_some) (rw key (values_at-All k m ks d r.0), values_at-IsRising m ks d r.1)
]

-- The map is read out by rising codes, each once.
pub map_to_props-IsRising :
    (m : PropMap) → IsKeyed m → HasOnce (keys m) → IsRising (epcs_of (map_to_props m))
unfolding map_to_props
map_to_props-IsRising m d h = values_at-IsRising m _ d (sort_ints-IsRising (keys m) h)
