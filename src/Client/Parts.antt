-- ===== src/Client/Parts.antt =====
-- internal/echonet/client.go: the two parts of a split request, and what they add to the merged map.
use echonet_go.Base.{
  ℕ, ◌*◌, ◌≤◌, ◌≡◌, ap, ◌∙◌, sym, Bool, true, false, not, ◌||◌, List, [], ◌++◌, arith, All, is_some,
  inl, inr, ◌⊎◌, Bool-cases, ◌==◌, length, Result, ok, err,
}
use echonet_go.Base.Maps.{has, lookup, has-append, byte_key}
use echonet_go.Base.Texts.{Text}
use echonet_go.Protocol.{Property, Eoj, FrameError}
use echonet_go.Client.{
  Transport, epcs_of, PropMap, missing_epcs, split_epcs, contains_any, props_to_map, map_to_props,
  merge_part, ask_part, ask_parts, finish_split,
}
use echonet_go.Client.Merge.{
  IsKeyed, AllValues, merge_props-IsKeyed, merge_props-AllValues, lookup-merge_props,
  has-map_to_props, map_to_props-AllValues,
}
use echonet_go.Client.Splits.{
  split_epcs_lem, contains_any-has, has-length, has-empty, missing_or_held,
}

module _ (P : Property → Type 0) (supported : ℕ → Bool) where
  -- What the map is known to hold.
  pub record Holds (m : PropMap) : Type 0 where
    pub keyed : IsKeyed m
    pub values : AllValues P m

  -- A result is complete for a request: each property is good, and each supported code is there. It
  -- is an error only if no code of the request is supported.
  abbrev pub Covers : {W : Type 0} → List ℕ → Result FrameError (List Property) × W → Type 0
  Covers epcs (ok props, w) =
      All P props
      × ((e : ℕ) → has e epcs ≡ true → supported e ≡ true → has e (epcs_of props) ≡ true)
  Covers epcs (err x, w) = (e : ℕ) → has e epcs ≡ true → supported e ≡ false

  -- The map after a part: it holds what it held, and what of the part is supported.
  pub record Extends (part : List ℕ) (old new : PropMap) : Type 0 where
    pub holds : Holds new
    pub grows : (e : ℕ) → is_some (lookup e old) ≡ true → is_some (lookup e new) ≡ true
    pub covers : (e : ℕ) → has e part ≡ true → supported e ≡ true → is_some (lookup e new) ≡ true

module _ (tr : Transport) (addr : Text) (eoj : Eoj) (P : Property → Type 0)
    (supported : ℕ → Bool) where
  open tr use {W}

  merge_part-Extends :
      (part : List ℕ) (merged : PropMap) (r : Result FrameError (List Property) × W)
      → Holds P supported merged
      → Covers P supported part r
      → Extends P supported part merged (merge_part tr addr eoj merged r).0
  unfolding merge_part
  merge_part-Extends part merged (ok props, w) h c = record {
    holds = record {
      keyed = merge_props-IsKeyed props merged h.keyed;
      values = merge_props-AllValues P props merged c.0 h.values;
    };
    grows = λ e s. rw (lookup-merge_props e props merged, s);
    covers = λ e i s. rw (lookup-merge_props e props merged, c.1 e i s) (ground arith);
  }
  merge_part-Extends part merged (err x, w) h c = record {
    holds = h;
    grows = λ e s. s;
    covers = λ e i s. ground (arith, c e i);
  }

  ask_part-Extends :
      (ask : List ℕ → W → Result FrameError (List Property) × W) (missing part : List ℕ)
      (merged : PropMap) (w : W)
      → Holds P supported merged
      → Covers P supported part (ask part w)
      → ((e : ℕ) → has e part ≡ true → (has e missing ≡ true) ⊎ (is_some (lookup e merged) ≡ true))
      → Extends P supported part merged (ask_part tr addr eoj ask missing part merged w).0
  unfolding ask_part
  ask_part-Extends ask missing part merged w h c known =
      elim (Bool-cases (length part == 0 || not (contains_any part missing))) [
        | inl skip ↦
            rw skip (record { holds = h; grows = λ e s. s; covers = λ e i s. skipped skip e i })
        | inr asked ↦ rw asked (merge_part-Extends part merged (ask part w) h c)
      ]
    where
      skipped :
          (length part == 0 || not (contains_any part missing)) ≡ true
          → (e : ℕ) → has e part ≡ true
          → is_some (lookup e merged) ≡ true
      skipped skip e i = elim (known e i) [
        | inl m ↦ absurd (ground (arith, contains_any-has e part missing i m, has-length e part i))
        | inr s ↦ s
      ]

  finish_split-Covers :
      (epcs : List ℕ) (merged : PropMap) (w : W)
      → Holds P supported merged
      → ((e : ℕ) → has e epcs ≡ true → supported e ≡ true → is_some (lookup e merged) ≡ true)
      → Covers P supported epcs (finish_split tr addr eoj merged, w)
  unfolding finish_split
  finish_split-Covers epcs merged w h c = elim (Bool-cases (length (map_to_props merged) == 0)) [
    | inl none_left ↦ rw none_left (λ e i. unsupported none_left e i)
    | inr some_left ↦ rw some_left (
      map_to_props-AllValues P merged h.values,
      λ e i s. has-map_to_props e merged h.keyed ∙ c e i s,
    )
  ]
    where
      unsupported :
          (length (map_to_props merged) == 0) ≡ true
          → (e : ℕ) → has e epcs ≡ true
          → supported e ≡ false
      unsupported z e i = elim (Bool-cases (supported e)) [
        | inl s ↦ absurd (
            ground (
              arith,
              c e i s,
              has-map_to_props e merged h.keyed,
              has-empty e (map_to_props merged),
            ))
        | inr s ↦ s
      ]

  pub props_to_map-Holds :
      (props : List Property) → All P props → Holds P supported (props_to_map props)
  unfolding props_to_map
  props_to_map-Holds props good = record {
    keyed = merge_props-IsKeyed props [] tt;
    values = merge_props-AllValues P props [] good tt;
  }

  -- One part after the other, where the recursive call covers each of them.
  two_parts-Extends :
      (ask : List ℕ → W → Result FrameError (List Property) × W) (missing left right : List ℕ)
      (start : PropMap) (w : W)
      → Holds P supported start
      → ((w' : W) → Covers P supported left (ask left w'))
      → ((w' : W) → Covers P supported right (ask right w'))
      → ((e : ℕ)
          → (has e left || has e right) ≡ true
          → (has e missing ≡ true) ⊎ (is_some (lookup e start) ≡ true))
      → let mid = ask_part tr addr eoj ask missing left start w in
        Extends P supported
          (left ++ right)
          start
          (ask_part tr addr eoj ask missing right mid.0 mid.1).0
  two_parts-Extends ask missing left right start w h cl cr known =
      let mid = ask_part tr addr eoj ask missing left start w in
      let first : Extends P supported left start mid.0 =
        ask_part-Extends ask missing left start w h (cl w) (λ e i. known e (rw i)) in
      let second : Extends P supported right mid.0
          (ask_part tr addr eoj ask missing right mid.0 mid.1).0 =
        ask_part-Extends ask missing right mid.0 mid.1 first.holds (cr mid.1) (λ e i.
          elim (known e (rw i (ground arith))) [ inl m ↦ inl m | inr s ↦ inr (first.grows e s) ]) in
      record {
        holds = second.holds;
        grows = λ e s. second.grows e (first.grows e s);
        covers = λ e i s. elim (Bool-cases (has e left)) [
          | inl l ↦ second.grows e (first.covers e l s)
          | inr l ↦ second.covers e (ground (arith, has-append e left right)) s
        ];
      }

  pub ask_parts-Covers :
      (ask : List ℕ → W → Result FrameError (List Property) × W) (epcs : List ℕ)
      (props : List Property) (w : W) (k : ℕ)
      → ((part : List ℕ) (w' : W)
          → 1 ≤ length part
          → length part ≤ k
          → Covers P supported part (ask part w'))
      → 2 ≤ length epcs
      → length epcs ≤ 2 * k
      → All P props
      → Covers P supported epcs (ask_parts tr addr eoj ask epcs props w)
  unfolding ask_parts
  ask_parts-Covers ask epcs props w k c two room good =
      let (whole, l, r, lk, rk) = split_epcs_lem epcs k two room in
      let left = (split_epcs epcs).0 in
      let right = (split_epcs epcs).1 in
      let in_half : (e : ℕ) → (has e left || has e right) ≡ has e epcs =
        λ e. sym (has-append e left right) ∙ ap (has e) whole in
      let both =
        two_parts-Extends ask (missing_epcs epcs props) left right (props_to_map props) w
          (props_to_map-Holds props good) (λ w'. c left w' l lk) (λ w'. c right w' r rk)
          (λ e i. missing_or_held e epcs props (sym (in_half e) ∙ i)) in
      finish_split-Covers epcs _ _ both.holds (λ e i s. both.covers e (ap (has e) whole ∙ i) s)
