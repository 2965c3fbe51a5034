-- ===== src/Commander/Stored.antt =====
-- internal/mqtt/commander.go, `mergePropsToCache`: the values of a reply that the cache holds afterwards.
use mathlib.Core.Path.{subst}
use echonet_go.Base.{
  ℕ, ◌≡◌, ◌∙◌, refl, ap, sym, arith, Bool, true, false, Option, none, some, List, [], ◌∷◌, ltb,
  length, keep, inl, inr, Bool-cases,
}
use echonet_go.Base.Maps.{
  has, lookup, insert, insert_all, last_of, lookup-insert, lookup-insert_all, beq_self, text_key,
}
use echonet_go.Base.Texts.{Text, text_eq, text_eq_iff}
use echonet_go.Cache.{Cache, DeviceCache, Device, device_key, device_cache, get_device_specs}
use echonet_go.Commander.Verify.{merge_known, merge_props_to_cache}
use echonet_go.Floats.{Float64}
use echonet_go.Protocol.{Property}
use echonet_go.Readings.{MetricValue, Readings, reading, put, collect, parse_props_to_metrics}
use echonet_go.Readings.Laws.{named, NamesOnce, Among, lookup-parse_props_to_metrics}
use echonet_go.Specs.{MetricSpec}
use echonet_go.Updates.{merge_metrics, publish, store_device}
use echonet_go.Updates.Scrape.{metrics-publish}

-- The new value, or the old one where there is no new one.
abbrev pub or_old {ℓ} : {A : Type ℓ} → Option A → Option A → Option A
or_old none old = old
or_old (some v) old = some v

module _ {V : Type 0} where
  abbrev KeysOnce : List (Text × V) → Type 0
  KeysOnce [] = Unit
  KeysOnce ((k, v) ∷ m) = (lookup k m ≡ none) × KeysOnce m

  insert-KeysOnce : (k : Text) (v : V) (m : List (Text × V)) → KeysOnce m → KeysOnce (insert k v m)
  unfolding insert
  insert-KeysOnce k v [] h = (unfold lookup in refl, tt)
  insert-KeysOnce k v ((j, w) ∷ m) h = elim (Bool-cases (text_eq j k)) [
    | inl same ↦ rw same (subst (λ i. lookup i m ≡ none) ((text_eq_iff j k).0 same) h.0, h.1)
    | inr other ↦ rw other (
      lookup-insert k j v m ∙ ground (arith, text_eq_iff j k, text_eq_iff k j, h.0),
      insert-KeysOnce k v m h.1,
    )
  ]

  last_of-KeysOnce :
      (k : Text) (m : List (Text × V)) (d : Option V)
      → KeysOnce m
      → last_of k m d ≡ or_old (lookup k m) d
  unfolding last_of lookup
  last_of-KeysOnce k [] d h = refl
  last_of-KeysOnce k ((j, v) ∷ m) d h = elim (Bool-cases (text_eq j k)) [
    | inl same ↦
        let free : lookup k m ≡ none =
          subst (λ i. lookup i m ≡ none) ((text_eq_iff j k).0 same) h.0 in
        rw same (last_of-KeysOnce k m (some v) h.1 ∙ rw free refl)
    | inr other ↦ rw other (last_of-KeysOnce k m d h.1)
  ]

module _ (fl : Float64) where
  open fl use {F}

  collect-KeysOnce :
      (props : List Property) (ms : List (MetricSpec F)) (out : Readings F)
      → KeysOnce out
      → KeysOnce (collect fl props ms out)
  unfolding collect
  collect-KeysOnce props [] out h = h
  collect-KeysOnce props (m ∷ ms) out h = collect-KeysOnce props ms _ (stored (reading fl props m))
    where
      stored : (o : Option (MetricValue F)) → KeysOnce (put fl m.name o out)
      stored none = unfold put in h
      stored (some v) = unfold put in insert-KeysOnce m.name v out h

  -- The metrics of these codes.
  keep-named :
      (n : Text) (p : MetricSpec F → Bool) (ms : List (MetricSpec F))
      → named fl n ms ≡ false
      → named fl n (keep p ms) ≡ false
  keep-named n p [] h = refl
  keep-named n p (m ∷ ms) h =
      let rest = keep-named n p ms (ground (arith)) in
      elim (Bool-cases (p m)) [
        | inl kept ↦ rw kept (ground (arith, rest))
        | inr dropped ↦ rw dropped rest
      ]

  keep-NamesOnce :
      (p : MetricSpec F → Bool) (ms : List (MetricSpec F))
      → NamesOnce fl ms
      → NamesOnce fl (keep p ms)
  keep-NamesOnce p [] h = tt
  keep-NamesOnce p (m ∷ ms) h = elim (Bool-cases (p m)) [
    | inl kept ↦ rw kept (keep-named m.name p ms h.0, keep-NamesOnce p ms h.1)
    | inr dropped ↦ rw dropped (keep-NamesOnce p ms h.1)
  ]

  keep-Among :
      (p : MetricSpec F → Bool) (m : MetricSpec F) (ms : List (MetricSpec F))
      → p m ≡ true
      → Among fl m ms
      → Among fl m (keep p ms)
  keep-Among p m [] h a = a
  keep-Among p m (x ∷ ms) h (inl e) = let kept : p x ≡ true = ap p e ∙ h in rw kept (inl e)
  keep-Among p m (x ∷ ms) h (inr a) = elim (Bool-cases (p x)) [
    | inl kept ↦ rw kept (inr (keep-Among p m ms h a))
    | inr dropped ↦ rw dropped (keep-Among p m ms h a)
  ]

  -- What the cache has under a name of a device.
  abbrev pub held : Device → Text → Cache F → Option (MetricValue F)
  held dev name c = lookup name (device_cache c (device_key dev)).metrics

  held-merge_metrics :
      (dev : Device) (name : Text) (metrics : Readings F) (c : Cache F)
      → KeysOnce metrics
      → held dev name (merge_metrics fl dev metrics c)
        ≡ or_old (lookup name metrics) (held dev name c)
  unfolding merge_metrics
  held-merge_metrics dev name metrics c once =
      let old : DeviceCache F = device_cache c (device_key dev) in
      let dc : DeviceCache F = record old { metrics = insert_all metrics old.metrics } in
      let told : device_cache (publish dev dc true (store_device dev dc c)) (device_key dev) ≡ dc =
        unfold device_cache in
        rw
          (
            metrics-publish dev dc true (store_device dev dc c),
            lookup-insert (device_key dev) (device_key dev) dc c.metrics,
            beq_self (device_key dev),
          )
          refl in
      ap (λ (x : DeviceCache F). lookup name x.metrics) told
      ∙ lookup-insert_all name metrics old.metrics
      ∙ last_of-KeysOnce name metrics (lookup name old.metrics) once

  empty_lookup :
      {A : Type 0} (name : Text) (m : List (Text × A))
      → ltb 0 (length m) ≡ false
      → lookup name m ≡ none
  unfolding lookup
  empty_lookup name [] h = refl
  empty_lookup name (x ∷ m) h = absurd (ground (arith))

  -- The value of a metric that was asked for is that of the reply; where the reply has none, the cache
  -- keeps what it had.
  pub held-merge_props_to_cache :
      (dev : Device) (props : List Property) (epcs : List ℕ) (specs : List (MetricSpec F))
      (m : MetricSpec F) (c : Cache F)
      → get_device_specs c dev ≡ some specs
      → NamesOnce fl specs
      → Among fl m specs
      → has m.epc epcs ≡ true
      → held dev m.name (merge_props_to_cache fl dev props epcs c)
        ≡ or_old (reading fl props m) (held dev m.name c)
  unfolding merge_props_to_cache merge_known
  held-merge_props_to_cache dev props epcs specs m c known once among asked =
      let asked_for : MetricSpec F → Bool = (λ x. has x.epc epcs) in
      let ms = keep asked_for specs in
      let metrics : Readings F = parse_props_to_metrics fl props ms in
      let value : lookup m.name metrics ≡ reading fl props m =
        lookup-parse_props_to_metrics fl props ms m (keep-NamesOnce asked_for specs once)
          (keep-Among asked_for m specs asked among) in
      let unique : KeysOnce metrics =
        unfold parse_props_to_metrics in collect-KeysOnce props ms [] tt in
      rw known (elim (Bool-cases (ltb 0 (length metrics))) [
        | inl some' ↦ rw some' (
            held-merge_metrics dev m.name metrics c unique
            ∙ ap (λ o. or_old o (held dev m.name c)) value)
        | inr none' ↦ rw none' (
            ap (λ o. or_old o (held dev m.name c))
              (sym (empty_lookup m.name metrics none') ∙ value))
      ])
