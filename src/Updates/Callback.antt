-- ===== src/Updates/Callback.antt =====
-- internal/poller/cache.go: the states that are taken for the update callback, and what a notification
-- leaves alone.
use echonet_go.Base.{
  ◌&&◌, ℕ, ◌≡◌, ◌∙◌, sym, ap, refl, Bool, true, false, ◌⊎◌, Option, none, some, List, ◌∷◌,
  if◌then◌else◌, Bool-cases, inl, inr, ltb, length,
}
use echonet_go.Base.Maps.{lookup, insert_all, lookup-insert, beq_self, text_key}
use echonet_go.Base.Texts.{Text, text_eq}
use echonet_go.Cache.{
  Cache, DeviceCache, DeviceState, Device, device_key, device_cache, set_device_specs,
  set_device_climate, set_device_light, set_writable_epcs, set_notification_epcs, set_device_eoj,
  record_push, get_device_specs, find_device_by_ip_and_eoj,
}
use echonet_go.Client.{epcs_of}
use echonet_go.Floats.{Float64}
use echonet_go.Protocol.{Property, Eoj}
use echonet_go.Readings.{Readings, parse_props_to_metrics}
use echonet_go.Updates.{
  snapshot, publish, store_device, update_device, update, trigger_update, merge_metrics,
  update_info, ingest_known, ingest_found, ingest_notification, relevant_specs,
}
use echonet_go.Updates.History.{
  Op, step, subscribes, sets_specs, sets_climate, sets_light, sets_writable, sets_notification,
  sets_eoj, forces, pushes, updates, triggers, merges, names, ingests,
}
use echonet_go.Updates.Scrape.{device_cache-store, metrics-publish}
use echonet_go.Specs.{MetricSpec}

module _ (fl : Float64) where
  open fl use {F}

  -- The state that is taken for the callback agrees with the cache.
  pub record Agrees (c : Cache F) (st : DeviceState F) : Type 0 where
    pub metrics : st.metrics ≡ (device_cache c (device_key st.device)).metrics
    pub info : st.info ≡ (device_cache c (device_key st.device)).info
    pub metric_specs : st.metric_specs ≡ lookup (device_key st.device) c.specs_by_dev
    pub writable : st.writable ≡ lookup (device_key st.device) c.writable_epcs
    pub climate : st.climate ≡ lookup (device_key st.device) c.climate_by_dev
    pub light : st.light ≡ lookup (device_key st.device) c.light_by_dev

  -- One state is taken that agrees with the cache, or none is, if none has to be.
  abbrev pub TellsTruth : Bool → Cache F → Cache F → Type 0
  TellsTruth must c c' =
      (c'.due ≡ c.due) × (must ≡ false)
      ⊎ ((st : DeviceState F) × (c'.due ≡ st ∷ c.due) × Agrees c' st)

  publish-TellsTruth :
      (dev : Device) (dc : DeviceCache F) (b : Bool) (c c' : Cache F)
      → c'.due ≡ c.due
      → device_cache c' (device_key dev) ≡ dc
      → TellsTruth c'.subscribed c (publish dev dc b c')
  unfolding publish device_cache
  publish-TellsTruth dev dc b c c' p e = choose c'.subscribed
    where
      agrees : Agrees (record c' { due = snapshot c' dev dc b ∷ c'.due }) (snapshot c' dev dc b)
      agrees = record {
        metrics = ap (λ (x : DeviceCache F). x.metrics) (sym e);
        info = ap (λ (x : DeviceCache F). x.info) (sym e);
        metric_specs = refl;
        writable = refl;
        climate = refl;
        light = refl;
      }

      choose :
          (told : Bool)
          → TellsTruth told c
              (if told then record c' { due = snapshot c' dev dc b ∷ c'.due } else c')
      choose true = inr (snapshot c' dev dc b, ap (◌∷◌ (snapshot c' dev dc b)) p, agrees)
      choose false = inl (p, refl)

  device_cache-stored :
      (dev : Device) (dc : DeviceCache F) (c : Cache F)
      → device_cache (store_device dev dc c) (device_key dev) ≡ dc
  device_cache-stored dev dc c =
      device_cache-store dev dc c (device_key dev) ∙ rw (beq_self (device_key dev)) refl

  merge_metrics-TellsTruth :
      (dev : Device) (metrics : Readings F) (c : Cache F)
      → TellsTruth c.subscribed c (merge_metrics fl dev metrics c)
  unfolding merge_metrics
  merge_metrics-TellsTruth dev metrics c =
      let old : DeviceCache F = device_cache c (device_key dev) in
      let dc : DeviceCache F = record old { metrics = insert_all metrics old.metrics } in
      publish-TellsTruth dev dc true c (store_device dev dc c) refl (device_cache-stored dev dc c)

  freely : (c c' : Cache F) (must : Bool) → TellsTruth must c c' → TellsTruth false c c'
  freely c c' must (inl (same, h)) = inl (same, refl)
  freely c c' must (inr told) = inr told

  -- The calls that change or tell the values of a device.
  unfoldable pub must_tell : Op F → Bool
  must_tell (updates dev gid interval success duration metrics msg) = true
  must_tell (triggers dev) = true
  must_tell (merges dev metrics) = true
  must_tell _ = false

  ingest_known-TellsTruth :
      (now : ℕ) (dev : Device) (props : List Property) (specs : Option (List (MetricSpec F)))
      (c : Cache F)
      → TellsTruth false c (ingest_known fl now dev props specs c)
  unfolding ingest_known record_push
  ingest_known-TellsTruth now dev props none c = inl (refl, refl)
  ingest_known-TellsTruth now dev props (some specs) c =
      let pushed : Cache F = record_push now dev (epcs_of props) c in
      let metrics = parse_props_to_metrics fl props (relevant_specs fl (epcs_of props) specs) in
      elim (Bool-cases (ltb 0 (length metrics))) [
        | inl e ↦ rw e (
            freely c (merge_metrics fl dev metrics pushed) c.subscribed
              (merge_metrics-TellsTruth dev metrics pushed))
        | inr e ↦ rw e (inl (refl, refl))
      ]

  ingest_found-TellsTruth :
      (now : ℕ) (props : List Property) (c : Cache F) (found : Option Device)
      → TellsTruth false c (ingest_found fl now props c found)
  unfolding ingest_found
  ingest_found-TellsTruth now props c none = inl (refl, refl)
  ingest_found-TellsTruth now props c (some dev) =
      ingest_known-TellsTruth now dev props (get_device_specs c dev) c

  -- Each call on a cache that has a callback takes a state for it if the call is a scrape, a trigger or a
  -- merge; no call takes more than one; and the state that is taken agrees with what the cache holds for
  -- that device at that moment, under the lock. (The callback itself runs later, without the lock.)
  pub step-TellsTruth :
      (now : ℕ) (op : Op F) (c : Cache F)
      → TellsTruth (must_tell op && c.subscribed) c (step fl now op c)
  unfolding step must_tell
  step-TellsTruth now subscribes c = inl (refl, refl)
  step-TellsTruth now (sets_specs dev specs) c = unfold set_device_specs in inl (refl, refl)
  step-TellsTruth now (sets_climate dev none) c = unfold set_device_climate in inl (refl, refl)
  step-TellsTruth now (sets_climate dev (some s)) c = unfold set_device_climate in inl (refl, refl)
  step-TellsTruth now (sets_light dev none) c = unfold set_device_light in inl (refl, refl)
  step-TellsTruth now (sets_light dev (some s)) c = unfold set_device_light in inl (refl, refl)
  step-TellsTruth now (sets_writable dev s) c = unfold set_writable_epcs in inl (refl, refl)
  step-TellsTruth now (sets_notification dev s) c = unfold set_notification_epcs in inl (refl, refl)
  step-TellsTruth now (sets_eoj dev eoj) c = unfold set_device_eoj in inl (refl, refl)
  step-TellsTruth now (forces b) c = inl (refl, refl)
  step-TellsTruth now (pushes dev epcs) c = unfold record_push in inl (refl, refl)
  step-TellsTruth now (updates dev gid interval success duration metrics msg) c =
      let dc : DeviceCache F =
        update_device fl now gid interval success duration metrics msg
          (device_cache c (device_key dev)) in
      unfold update in
      publish-TellsTruth dev dc success c (store_device dev dc c) refl
        (device_cache-stored dev dc c)
  step-TellsTruth now (triggers dev) c =
      unfold trigger_update in
      publish-TellsTruth dev (device_cache c (device_key dev)) true c c refl refl
  step-TellsTruth now (merges dev metrics) c = merge_metrics-TellsTruth dev metrics c
  step-TellsTruth now (names dev info) c = unfold update_info in inl (refl, refl)
  step-TellsTruth now (ingests ip seoj props devices) c =
      unfold ingest_notification in
      ingest_found-TellsTruth now props c (find_device_by_ip_and_eoj c ip seoj devices)

  merge_metrics-groups :
      (dev : Device) (metrics : Readings F) (c : Cache F) (key : Text)
      → (device_cache (merge_metrics fl dev metrics c) key).groups ≡ (device_cache c key).groups
  unfolding merge_metrics device_cache
  merge_metrics-groups dev metrics c key =
      let old : DeviceCache F = device_cache c (device_key dev) in
      let dc : DeviceCache F = record old { metrics = insert_all metrics old.metrics } in
      elim (Bool-cases (text_eq (device_key dev) key)) [
        | inl same ↦
            rw
              (
                metrics-publish dev dc true (store_device dev dc c),
                lookup-insert (device_key dev) key dc c.metrics,
                same,
              )
              (rw ((text_key.beq_iff (device_key dev) key).0 same) refl)
        | inr other ↦
            rw
              (
                metrics-publish dev dc true (store_device dev dc c),
                lookup-insert (device_key dev) key dc c.metrics,
                other,
              )
              refl
      ]

  ingest_known-groups :
      (now : ℕ) (dev : Device) (props : List Property) (specs : Option (List (MetricSpec F)))
      (c : Cache F) (key : Text)
      → (device_cache (ingest_known fl now dev props specs c) key).groups
        ≡ (device_cache c key).groups
  unfolding ingest_known record_push device_cache
  ingest_known-groups now dev props none c key = refl
  ingest_known-groups now dev props (some specs) c key =
      let pushed : Cache F = record_push now dev (epcs_of props) c in
      let metrics = parse_props_to_metrics fl props (relevant_specs fl (epcs_of props) specs) in
      elim (Bool-cases (ltb 0 (length metrics))) [
        | inl e ↦ rw e (merge_metrics-groups dev metrics pushed key)
        | inr e ↦ rw e refl
      ]

  ingest_found-groups :
      (now : ℕ) (props : List Property) (c : Cache F) (found : Option Device) (key : Text)
      → (device_cache (ingest_found fl now props c found) key).groups ≡ (device_cache c key).groups
  unfolding ingest_found
  ingest_found-groups now props c none key = refl
  ingest_found-groups now props c (some dev) key =
      ingest_known-groups now dev props (get_device_specs c dev) c key

  -- A notification touches no scrape group: each device keeps the status of its scrapes.
  pub ingest_notification-groups :
      (now : ℕ) (ip : Text) (seoj : Eoj) (props : List Property) (devices : List Device)
      (c : Cache F) (key : Text)
      → (device_cache (ingest_notification fl now ip seoj props devices c) key).groups
        ≡ (device_cache c key).groups
  unfolding ingest_notification
  ingest_notification-groups now ip seoj props devices c key =
      ingest_found-groups now props c (find_device_by_ip_and_eoj c ip seoj devices) key
