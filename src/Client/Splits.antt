-- ===== src/Client/Splits.antt =====
-- internal/echonet/client.go: the split of a request, and the codes that an answer leaves out.
use echonet_go.Base.{
  ℕ, ◌*◌, ◌/◌, ◌≤◌, ◌≡◌, refl, ◌∙◌, Bool, true, false, not, ◌&&◌, List, [], ◌∷◌, ◌++◌, arith,
  is_some, inl, inr, ◌⊎◌, Bool-cases, ◌==◌, leb, length, take-append-drop, length-take, length-drop,
  keep, ==_iff,
}
use echonet_go.Base.Maps.{has, lookup, byte_key}
use echonet_go.Protocol.{Property}
use echonet_go.Client.{epcs_of, missing_epcs, split_epcs, contains_any, props_to_map}
use echonet_go.Client.Merge.{lookup-merge_props}

-- The split loses no code, and each half has at most half of the room.
pub split_epcs_lem :
    (epcs : List ℕ) (k : ℕ)
    → 2 ≤ length epcs
    → length epcs ≤ 2 * k
    → ((split_epcs epcs).0 ++ (split_epcs epcs).1 ≡ epcs)
      × (1 ≤ length (split_epcs epcs).0)
      × (1 ≤ length (split_epcs epcs).1)
      × (length (split_epcs epcs).0 ≤ k)
      × (length (split_epcs epcs).1 ≤ k)
unfolding split_epcs
split_epcs_lem epcs k two room =
    let h : leb (length epcs) 1 ≡ false = ground arith in
    let z : (length epcs / 2 == 0) ≡ false = ground arith in
    rw (h, z)
      (
        take-append-drop (length epcs / 2) epcs,
        omega (arith, length-take (length epcs / 2) epcs),
        omega (arith, length-drop (length epcs / 2) epcs),
        omega (arith, length-take (length epcs / 2) epcs),
        omega (arith, length-drop (length epcs / 2) epcs),
      )

pub has-keep : (e : ℕ) (p : ℕ → Bool) (xs : List ℕ) → has e (keep p xs) ≡ (has e xs && p e)
unfolding has
has-keep e p [] = refl
has-keep e p (x ∷ xs) = ground (arith, has-keep e p xs)

pub has-missing_epcs :
    (e : ℕ) (requested : List ℕ) (props : List Property)
    → has e (missing_epcs requested props) ≡ (has e requested && not (has e (epcs_of props)))
unfolding missing_epcs
has-missing_epcs e requested props = has-keep e _ requested

pub contains_any-has :
    (e : ℕ) (part set : List ℕ)
    → has e part ≡ true
    → has e set ≡ true
    → contains_any part set ≡ true
unfolding contains_any has
contains_any-has e [] set h k = h
contains_any-has e (v ∷ part) set h k = elim (Bool-cases (v == e)) [
  | inl same ↦ rw ((==_iff v e).0 same, k)
  | inr other ↦ ground (arith, contains_any-has e part set)
]

pub has-length : (e : ℕ) (part : List ℕ) → has e part ≡ true → (length part == 0) ≡ false
unfolding has
has-length e [] h = cc
has-length e (x ∷ part) h = ground arith

pub has-empty :
    (e : ℕ) (props : List Property) → (length props == 0) ≡ true → has e (epcs_of props) ≡ false
unfolding has
has-empty e [] h = refl
has-empty e (p ∷ props) h = ground arith

-- A code of the request is missing from the first answer, or the map has it from there.
pub missing_or_held :
    (e : ℕ) (epcs : List ℕ) (props : List Property)
    → has e epcs ≡ true
    → (has e (missing_epcs epcs props) ≡ true) ⊎ (is_some (lookup e (props_to_map props)) ≡ true)
unfolding props_to_map
missing_or_held e epcs props i = elim (Bool-cases (has e (epcs_of props))) [
  | inl h ↦ inr (lookup-merge_props e props [] ∙ rw h (unfold lookup in refl))
  | inr h ↦ inl (has-missing_epcs e epcs props ∙ rw (i, h))
]
