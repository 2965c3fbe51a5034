-- ===== src/Scraping/Groups.antt =====
-- internal/poller/scheduler.go: the scrapers of a device cover its metrics, each at its interval.
use echonet_go.Base.{
  ℕ, ◌≡◌, ◌≤◌, ◌*◌, ◌+◌, ◌∙◌, sym, refl, ap, true, ◌||◌, Option, List, [], ◌∷◌, ◌++◌, ◌==◌, ==_iff,
  All, All-map, arith, Bool-cases, inl, inr, keep, map,
}
use echonet_go.Base.Int.{ℤ}
use echonet_go.Base.Maps.{has, lookup, insert, lookup-insert, byte_key}
use echonet_go.Base.Texts.{Text}
use echonet_go.Cache.{Device, or_else}
use echonet_go.Client.{sort_ints}
use echonet_go.Specs.{MetricSpec, DeviceSpec}
use echonet_go.Scraping.{
  Scraper, calculate_initial_delay, interval_of, group_by_interval, scrapers_of,
  schedule_device_scrapers, device_interval,
}
use mathlib.Core.List.{append_assoc, append-nil}
use echonet_go.Client.Merge.{has-sort_ints}

calculate_initial_delay-bound :
    (interval i dev_index : ℕ) → 2 * calculate_initial_delay interval i dev_index ≤ interval
unfolding calculate_initial_delay
calculate_initial_delay-bound interval i dev_index = ground arith

module _ {F : Type 0} where
  -- The metrics of one interval, in their order.
  abbrev pub with_interval : ℕ → ℕ → List (MetricSpec F) → List (MetricSpec F)
  with_interval default' iv metrics = keep (λ m. interval_of default' m == iv) metrics

  lookup-group_by_interval :
      (default' iv : ℕ) (metrics : List (MetricSpec F)) (groups : List (ℕ × List (MetricSpec F)))
      → or_else (lookup iv (group_by_interval default' metrics groups)) []
        ≡ or_else (lookup iv groups) [] ++ with_interval default' iv metrics
  unfolding group_by_interval
  lookup-group_by_interval default' iv [] groups = sym (append-nil (or_else (lookup iv groups) []))
  lookup-group_by_interval default' iv (m ∷ metrics) groups =
      let new = interval_of default' m in
      lookup-group_by_interval default' iv metrics
        (insert new (or_else (lookup new groups) [] ++ (m ∷ [])) groups)
      ∙ rw (lookup-insert new iv (or_else (lookup new groups) [] ++ (m ∷ [])) groups)
          (elim (Bool-cases (new == iv)) [
            | inl same ↦ rw same (
                rw ((==_iff new iv).0 same) (
                  append_assoc (or_else (lookup iv groups) []) (m ∷ [])
                    (with_interval default' iv metrics)))
            | inr other ↦ rw other refl
          ])

  has-keys-insert :
      (e k : ℕ) (v : List (MetricSpec F)) (groups : List (ℕ × List (MetricSpec F)))
      → has e (map (λ g. g.0) (insert k v groups)) ≡ (k == e || has e (map (λ g. g.0) groups))
  unfolding has insert
  has-keys-insert e k v [] = refl
  has-keys-insert e k v ((j, w) ∷ groups) = elim (Bool-cases (j == k)) [
    | inl same ↦ rw same (rw ((==_iff j k).0 same) (ground arith))
    | inr other ↦ rw other (ground (arith, has-keys-insert e k v groups))
  ]

  keys-grow :
      (default' e : ℕ) (metrics : List (MetricSpec F)) (groups : List (ℕ × List (MetricSpec F)))
      → has e (map (λ g. g.0) groups) ≡ true
      → has e (map (λ g. g.0) (group_by_interval default' metrics groups)) ≡ true
  unfolding group_by_interval
  keys-grow default' e [] groups h = h
  keys-grow default' e (m ∷ metrics) groups h =
      keys-grow default' e metrics _
        (has-keys-insert e (interval_of default' m) _ groups ∙ rw h (ground arith))

  keys-cover :
      (default' : ℕ) (metrics : List (MetricSpec F)) (groups : List (ℕ × List (MetricSpec F)))
      → All
          (λ m.
            has
              (interval_of default' m)
              (map (λ g. g.0) (group_by_interval default' metrics groups))
            ≡ true)
          metrics
  unfolding group_by_interval
  keys-cover default' [] groups = tt
  keys-cover default' (m ∷ metrics) groups =
      let new = interval_of default' m in
      (
        keys-grow default' new metrics _
            (has-keys-insert new new _ groups ∙ rw ((==_iff new new).1 refl)),
        keys-cover default' metrics _,
      )

  -- The scraper takes the metrics of its interval, all of them and in their order, and starts within half
  -- of its interval.
  pub record Takes (default' : ℕ) (metrics : List (MetricSpec F)) (s : Scraper F) : Type 0 where
    pub whole : s.metrics ≡ with_interval default' s.interval metrics
    pub prompt : 2 * s.initial_delay ≤ s.interval

  scrapers_of-Takes :
      (default' : ℕ) (metrics : List (MetricSpec F)) (ivs : List ℕ) (i dev_index : ℕ)
      → All
          (Takes default' metrics)
          (scrapers_of ivs i dev_index (group_by_interval default' metrics []))
  unfolding scrapers_of
  scrapers_of-Takes default' metrics [] i dev_index = tt
  scrapers_of-Takes default' metrics (iv ∷ ivs) i dev_index = (
    record {
      whole = lookup-group_by_interval default' iv metrics [] ∙ (unfold lookup in refl);
      prompt = calculate_initial_delay-bound iv i dev_index;
    },
    scrapers_of-Takes default' metrics ivs (i + 1) dev_index,
  )

  intervals-scrapers_of :
      (ivs : List ℕ) (i dev_index : ℕ) (groups : List (ℕ × List (MetricSpec F)))
      → map (λ (s : Scraper F). s.interval) (scrapers_of ivs i dev_index groups) ≡ ivs
  unfolding scrapers_of
  intervals-scrapers_of [] i dev_index groups = refl
  intervals-scrapers_of (iv ∷ ivs) i dev_index groups =
      ap (◌∷◌ iv) (intervals-scrapers_of ivs (i + 1) dev_index groups)

  -- Each scraper of a device takes the metrics of its interval, all of them and in their order, and
  -- starts within half of its interval. Each metric's interval has a scraper, so none is left unpolled.
  pub schedule_device_scrapers-Takes :
      (parse_duration : Text → Option ℤ) (dev : Device) (metrics : List (MetricSpec F))
      (spec : DeviceSpec F) (dev_index : ℕ)
      → All
          (Takes (device_interval parse_duration dev spec) metrics)
          (schedule_device_scrapers parse_duration dev metrics spec dev_index)
        × All
            (λ m.
              has (interval_of (device_interval parse_duration dev spec) m) (
                map
                  (λ (s : Scraper F). s.interval)
                  (schedule_device_scrapers parse_duration dev metrics spec dev_index))
              ≡ true)
            metrics
  unfolding schedule_device_scrapers
  schedule_device_scrapers-Takes parse_duration dev metrics spec dev_index =
      let d = device_interval parse_duration dev spec in
      let groups = group_by_interval d metrics [] in
      let ivs = sort_ints (map (λ g. g.0) groups) in
      (
        scrapers_of-Takes d metrics ivs 0 dev_index,
        rw (intervals-scrapers_of ivs 0 dev_index groups) (
            All-map _ _ metrics (λ m h. has-sort_ints (interval_of d m) (map (λ g. g.0) groups) ∙ h)
              (keys-cover d metrics [])),
      )
