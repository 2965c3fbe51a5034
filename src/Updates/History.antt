-- ===== src/Updates/History.antt =====
-- The status of a scrape group over any history of the cache.
use echonet_go.Base.{
  ℕ, ◌+◌, ◌≤◌, ◌≡◌, ◌≢◌, Bool, true, false, Option, none, some, List, [], ◌∷◌, arith, All, All-map,
  Bool-cases, Option-cases, inl, inr, if◌then◌else◌, length, ltb,
}
use echonet_go.Base.Maps.{ByteSet, lookup, insert_all, insert-All, lookup-All, text_key}
use echonet_go.Base.Texts.{Text, text}
use echonet_go.Cache.{
  Cache, DeviceCache, GroupStatus, Device, device_key, device_cache, or_else, set_device_specs,
  set_device_climate, set_device_light, set_writable_epcs, set_notification_epcs, set_device_eoj,
  set_force_polling, set_on_update, record_push,
}
use echonet_go.Floats.{Float64}
use echonet_go.Identity.{DeviceInfo, is_empty}
use echonet_go.Protocol.{Property, Eoj}
use echonet_go.Client.{epcs_of}
use echonet_go.Readings.{Readings, parse_props_to_metrics}
use echonet_go.Specs.{MetricSpec, ClimateSpec, LightSpec}
use echonet_go.Updates.{
  new_group, publish, store_device, update_group, update_device, update, trigger_update,
  merge_metrics, with_fallback, update_info, ingest_known, ingest_found, ingest_notification,
  relevant_specs,
}

-- A group that stands as a success was last tried when it last succeeded, with no error and no failure
-- counted; any other has failed, and says why. No time lies in the future.
pub record IsConsistent (F : Type 0) (now : ℕ) (gs : GroupStatus F) : Type 0 where
  pub fresh :
      gs.success ≡ true
      → (gs.last_success ≡ gs.last_attempt) × (gs.failures ≡ 0) × (gs.last_error ≡ [])
  pub stale : gs.success ≡ false → (1 ≤ gs.failures) × (gs.last_error ≢ [])
  pub ordered : gs.last_success ≤ gs.last_attempt
  pub past : gs.last_attempt ≤ now

-- The calls that change a cache.
pub data Op (F : Type 0) : Type 0 where
  subscribes : Op F
  sets_specs : Device → List (MetricSpec F) → Op F
  sets_climate : Device → Option (ClimateSpec F) → Op F
  sets_light : Device → Option LightSpec → Op F
  sets_writable : Device → ByteSet → Op F
  sets_notification : Device → ByteSet → Op F
  sets_eoj : Device → Eoj → Op F
  forces : Bool → Op F
  pushes : Device → List ℕ → Op F
  updates : Device → Text → ℕ → Bool → F → Readings F → Text → Op F
  triggers : Device → Op F
  merges : Device → Readings F → Op F
  names : Device → DeviceInfo → Op F
  ingests : Text → Eoj → List Property → List Device → Op F

message_ne : (msg : Text) → (if is_empty msg then text "scrape failed" else msg) ≢ []
message_ne [] = λ e. cc
message_ne (x ∷ msg) = let e : is_empty (x ∷ msg) ≡ false = ground arith in rw e (λ q. cc)

module _ (fl : Float64) where
  open fl use {F}

  unfoldable pub step : ℕ → Op F → Cache F → Cache F
  step now subscribes c = set_on_update c
  step now (sets_specs dev specs) c = set_device_specs dev specs c
  step now (sets_climate dev climate) c = set_device_climate dev climate c
  step now (sets_light dev light) c = set_device_light dev light c
  step now (sets_writable dev set') c = set_writable_epcs dev set' c
  step now (sets_notification dev set') c = set_notification_epcs dev set' c
  step now (sets_eoj dev eoj) c = set_device_eoj dev eoj c
  step now (forces b) c = set_force_polling b c
  step now (pushes dev epcs) c = record_push now dev epcs c
  step now (updates dev gid interval success duration metrics msg) c =
      update fl now dev gid interval success duration metrics msg c
  step now (triggers dev) c = trigger_update fl dev c
  step now (merges dev metrics) c = merge_metrics fl dev metrics c
  step now (names dev info) c = update_info fl dev info c
  step now (ingests ip seoj props devices) c = ingest_notification fl now ip seoj props devices c

  -- A history: each call a while after the one before.
  unfoldable pub run : ℕ → List (ℕ × Op F) → Cache F → Cache F
  run now [] c = c
  run now ((wait, op) ∷ ops) c = run (now + wait) ops (step (now + wait) op c)

  abbrev pub clock : ℕ → List (ℕ × Op F) → ℕ
  clock now [] = now
  clock now ((wait, op) ∷ ops) = clock (now + wait) ops

  abbrev pub GroupsOk : ℕ → DeviceCache F → Type 0
  GroupsOk now dc = All (λ (g : Text × GroupStatus F). IsConsistent F now g.1) dc.groups

  abbrev pub CacheOk : ℕ → Cache F → Type 0
  CacheOk now c = All (λ (d : Text × DeviceCache F). GroupsOk now d.1) c.metrics

  pub device_cache-Ok :
      (now : ℕ) (c : Cache F) (key : Text) → CacheOk now c → GroupsOk now (device_cache c key)
  unfolding device_cache
  device_cache-Ok now c key h = elim (Option-cases (lookup key c.metrics)) [
    | inl e ↦ rw e tt
    | inr (dc, e) ↦
        rw e (lookup-All (λ (d : Text × DeviceCache F). GroupsOk now d.1) key c.metrics h e)
  ]

  update_group-Ok :
      (now interval : ℕ) (success : Bool) (duration : F) (msg : Text) (gs : GroupStatus F)
      → gs.last_success ≤ now
      → IsConsistent F now (update_group fl now interval success duration msg gs)
  unfolding update_group
  update_group-Ok now interval true duration msg gs h = ground arith
  update_group-Ok now interval false duration msg gs h = record {
    fresh = λ e. absurd (cc);
    stale = λ _. (omega arith, message_ne msg);
    ordered = h;
    past = omega arith;
  }

  pub update_device-Ok :
      (now : ℕ) (gid : Text) (interval : ℕ) (success : Bool) (duration : F) (metrics : Readings F)
      (msg : Text) (dc : DeviceCache F)
      → GroupsOk now dc
      → GroupsOk now (update_device fl now gid interval success duration metrics msg dc)
  unfolding update_device
  update_device-Ok now gid interval success duration metrics msg dc h =
      insert-All (λ (g : Text × GroupStatus F). IsConsistent F now g.1) gid _ dc.groups
        (unfold update_device in update_group-Ok now interval success duration msg _ old) h
    where
      old : (or_else (lookup gid dc.groups) (new_group fl)).last_success ≤ now
      old = elim (Option-cases (lookup gid dc.groups)) [
        | inl e ↦ rw e (omega arith)
        | inr (gs, e) ↦
            let k =
              lookup-All (λ (g : Text × GroupStatus F). IsConsistent F now g.1) gid dc.groups h e in
            rw e (omega (arith, k.ordered, k.past))
      ]

  store-Ok :
      (now : ℕ) (dev : Device) (dc : DeviceCache F) (c : Cache F)
      → GroupsOk now dc
      → CacheOk now c
      → CacheOk now (store_device dev dc c)
  store-Ok now dev dc c g h =
      insert-All (λ (d : Text × DeviceCache F). GroupsOk now d.1) (device_key dev) dc c.metrics g h

  publish-Ok :
      (now : ℕ) (dev : Device) (dc : DeviceCache F) (success : Bool) (c : Cache F)
      → CacheOk now c
      → CacheOk now (publish dev dc success c)
  unfolding publish
  publish-Ok now dev dc success c h = elim (Bool-cases c.subscribed) [
    | inl e ↦ rw e h
    | inr e ↦ rw e h
  ]

  merge_metrics-Ok :
      (now : ℕ) (dev : Device) (metrics : Readings F) (c : Cache F)
      → CacheOk now c
      → CacheOk now (merge_metrics fl dev metrics c)
  unfolding merge_metrics
  merge_metrics-Ok now dev metrics c h =
      let old = device_cache c (device_key dev) in
      let dc : DeviceCache F = record old { metrics = insert_all metrics old.metrics } in
      publish-Ok now dev dc true (store_device dev dc c)
        (store-Ok now dev dc c (device_cache-Ok now c (device_key dev) h) h)

  ingest_known-Ok :
      (now : ℕ) (dev : Device) (props : List Property) (specs : Option (List (MetricSpec F)))
      (c : Cache F)
      → CacheOk now c
      → CacheOk now (ingest_known fl now dev props specs c)
  unfolding ingest_known
  ingest_known-Ok now dev props none c h = h
  ingest_known-Ok now dev props (some specs) c h =
      let pushed = record_push now dev (epcs_of props) c in
      let ok' : CacheOk now pushed = unfold record_push in h in
      let metrics = parse_props_to_metrics fl props (relevant_specs fl (epcs_of props) specs) in
      elim (Bool-cases (ltb 0 (length metrics))) [
        | inl e ↦ rw e (merge_metrics-Ok now dev metrics pushed ok')
        | inr e ↦ rw e ok'
      ]

  ingest_found-Ok :
      (now : ℕ) (props : List Property) (c : Cache F) (found : Option Device)
      → CacheOk now c
      → CacheOk now (ingest_found fl now props c found)
  unfolding ingest_found
  ingest_found-Ok now props c none h = h
  ingest_found-Ok now props c (some dev) h = ingest_known-Ok now dev props _ c h

  -- Every call keeps the status of every group consistent.
  pub step-Ok : (now : ℕ) (op : Op F) (c : Cache F) → CacheOk now c → CacheOk now (step now op c)
  unfolding step
  step-Ok now subscribes c h = h
  step-Ok now (sets_specs dev specs) c h = unfold set_device_specs in h
  step-Ok now (sets_climate dev none) c h = unfold set_device_climate in h
  step-Ok now (sets_climate dev (some s)) c h = unfold set_device_climate in h
  step-Ok now (sets_light dev none) c h = unfold set_device_light in h
  step-Ok now (sets_light dev (some s)) c h = unfold set_device_light in h
  step-Ok now (sets_writable dev s) c h = unfold set_writable_epcs in h
  step-Ok now (sets_notification dev s) c h = unfold set_notification_epcs in h
  step-Ok now (sets_eoj dev eoj) c h = unfold set_device_eoj in h
  step-Ok now (forces b) c h = h
  step-Ok now (pushes dev epcs) c h = unfold record_push in h
  step-Ok now (updates dev gid interval success duration metrics msg) c h =
      let old : DeviceCache F = device_cache c (device_key dev) in
      let dc : DeviceCache F = update_device fl now gid interval success duration metrics msg old in
      let k : GroupsOk now dc =
        update_device-Ok now gid interval success duration metrics msg old
          (device_cache-Ok now c (device_key dev) h) in
      unfold update in
      publish-Ok now dev dc success (store_device dev dc c) (store-Ok now dev dc c k h)
  step-Ok now (triggers dev) c h =
      unfold trigger_update in publish-Ok now dev (device_cache c (device_key dev)) true c h
  step-Ok now (merges dev metrics) c h = merge_metrics-Ok now dev metrics c h
  step-Ok now (names dev info) c h =
      let dc : DeviceCache F = record (device_cache c (device_key dev)) {
        info = with_fallback fl dev info;
      } in
      unfold update_info in store-Ok now dev dc c (device_cache-Ok now c (device_key dev) h) h
  step-Ok now (ingests ip seoj props devices) c h =
      unfold ingest_notification in ingest_found-Ok now props c _ h

  CacheOk-later : (now wait : ℕ) (c : Cache F) → CacheOk now c → CacheOk (now + wait) c
  CacheOk-later now wait c = All-map _ _ c.metrics (λ d. All-map _ _ d.1.groups (λ g k. record {
    fresh = k.fresh;
    stale = k.stale;
    ordered = k.ordered;
    past = omega (arith, k.past);
  }))

  -- After any history of calls on a consistent cache, in any order and at any times that do not
  -- fall, the status of every scrape group of every device is consistent: a success has no failure
  -- counted and no error, anything else counts at least one failure and has an error, its times are
  -- in order, and none lies in the future.
  pub run-Ok :
      (now : ℕ) (ops : List (ℕ × Op F)) (c : Cache F)
      → CacheOk now c
      → CacheOk (clock now ops) (run now ops c)
  unfolding run
  run-Ok now [] c h = h
  run-Ok now ((wait, op) ∷ ops) c h =
      run-Ok (now + wait) ops _ (step-Ok (now + wait) op c (CacheOk-later now wait c h))
