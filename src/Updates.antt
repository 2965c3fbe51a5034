-- ===== src/Updates.antt =====
-- internal/poller/cache.go: what polls, notifications and identity reads write into the cache, with the
-- states that are taken for the update callback.
pub mod Callback
pub mod History
pub mod Scrape
use echonet_go.Base.{
  ℕ, zero, suc, ◌+◌, ◌*◌, Bool, true, false, not, ◌&&◌, ◌||◌, Option, none, some, List, [], ◌∷◌,
  ltb, leb, ◌==◌, if◌then◌else◌, map, length, keep,
}
use echonet_go.Base.Maps.{ByteSet, has, lookup, insert, insert_all, text_key}
use echonet_go.Base.Texts.{Text, text}
use echonet_go.Cache.{
  Cache, DeviceCache, DeviceState, GroupStatus, Device, device_key, device_cache, or_else,
  empty_device, get_device_specs, record_push, find_device_by_ip_and_eoj,
}
use echonet_go.Floats.{Float64, zero_float}
use echonet_go.Identity.{DeviceInfo, is_empty}
use echonet_go.Protocol.{Property, Eoj}
use echonet_go.Client.{epcs_of}
use echonet_go.Readings.{Readings, parse_props_to_metrics}
use echonet_go.Specs.{MetricSpec}

module _ {F : Type 0} where
  -- `snapshotLocked`
  unfoldable pub snapshot : Cache F → Device → DeviceCache F → Bool → DeviceState F
  snapshot c dev dc success =
      let key = device_key dev in
      record {
        device = dev;
        info = dc.info;
        metrics = dc.metrics;
        metric_specs = lookup key c.specs_by_dev;
        writable = lookup key c.writable_epcs;
        climate = lookup key c.climate_by_dev;
        light = lookup key c.light_by_dev;
        success = success;
      }

  -- The end of the locked part of an update: the state for the callback, if there is one.
  unfoldable pub publish : Device → DeviceCache F → Bool → Cache F → Cache F
  unfolding snapshot
  publish dev dc success c =
      if c.subscribed then record c { due = snapshot c dev dc success ∷ c.due } else c

  -- `c.metrics[key] = dc`
  abbrev pub store_device : Device → DeviceCache F → Cache F → Cache F
  store_device dev dc c = record c { metrics = insert (device_key dev) dc c.metrics }

-- `groupStatus{}`; the zero value of the duration is a float.
abbrev pub new_group : (fl : Float64) → GroupStatus fl.F
new_group fl = record {
  interval = 0;
  success = false;
  duration_sec = zero_float fl;
  last_attempt = 0;
  last_success = 0;
  last_error = [];
  failures = 0;
}

module _ (fl : Float64) where
  open fl use {F}

  -- The group's status after a scrape.
  unfoldable pub update_group : ℕ → ℕ → Bool → F → Text → GroupStatus F → GroupStatus F
  update_group now interval true duration err_msg gs = record {
    interval = interval;
    success = true;
    duration_sec = duration;
    last_attempt = now;
    last_success = now;
    last_error = [];
    failures = 0;
  }
  update_group now interval false duration err_msg gs = record {
    interval = interval;
    success = false;
    duration_sec = duration;
    last_attempt = now;
    last_success = gs.last_success;
    last_error = if is_empty err_msg then text "scrape failed" else err_msg;
    failures = suc gs.failures;
  }

  -- The device's entry after a scrape of a group.
  unfoldable pub update_device :
      ℕ → Text → ℕ → Bool → F → Readings F → Text → DeviceCache F → DeviceCache F
  unfolding update_group
  update_device now group_id interval success duration metrics err_msg dc =
      let gs = or_else (lookup group_id dc.groups) (new_group fl) in
      record dc {
        groups = insert group_id (update_group now interval success duration err_msg gs) dc.groups;
        metrics = if success then insert_all metrics dc.metrics else dc.metrics;
      }

  -- `Update`
  unfoldable pub update : ℕ → Device → Text → ℕ → Bool → F → Readings F → Text → Cache F → Cache F
  unfolding device_cache publish update_device
  update now dev group_id interval success duration metrics err_msg c =
      let dc =
        update_device now group_id interval success duration metrics err_msg
          (device_cache c (device_key dev)) in
      publish dev dc success (store_device dev dc c)

  -- `TriggerUpdate`
  unfoldable pub trigger_update : Device → Cache F → Cache F
  unfolding device_cache publish
  trigger_update dev c = publish dev (device_cache c (device_key dev)) true c

  -- `MergeMetrics`
  unfoldable pub merge_metrics : Device → Readings F → Cache F → Cache F
  unfolding device_cache publish
  merge_metrics dev metrics c =
      let old = device_cache c (device_key dev) in
      let dc = record old { metrics = insert_all metrics old.metrics } in
      publish dev dc true (store_device dev dc c)

  -- `UpdateInfo`: the configuration fills in what the device does not say.
  unfoldable pub with_fallback : Device → DeviceInfo → DeviceInfo
  with_fallback dev info = record info {
    manufacturer =
        if is_empty info.manufacturer && not (is_empty dev.manufacturer)
        then dev.manufacturer
        else info.manufacturer;
    product_code =
        if is_empty info.product_code && not (is_empty dev.model)
        then dev.model
        else info.product_code;
  }

  unfoldable pub update_info : Device → DeviceInfo → Cache F → Cache F
  unfolding device_cache with_fallback
  update_info dev info c =
      store_device dev (record (device_cache c (device_key dev)) { info = with_fallback dev info })
        c

  -- The metrics of the device whose codes came in.
  unfoldable pub relevant_specs : List ℕ → List (MetricSpec F) → List (MetricSpec F)
  relevant_specs epcs specs = keep (λ m. has m.epc epcs) specs

  -- `IngestNotification` for a device that is known. It takes the lock once to record the push and once to
  -- merge; where other calls come in between, the two are steps of their own.
  unfoldable pub ingest_known :
      ℕ → Device → List Property → Option (List (MetricSpec F)) → Cache F → Cache F
  unfolding relevant_specs
  ingest_known now dev props none c = c
  ingest_known now dev props (some specs) c =
      let c' = record_push now dev (epcs_of props) c in
      let metrics = parse_props_to_metrics fl props (relevant_specs (epcs_of props) specs) in
      if ltb 0 (length metrics) then merge_metrics dev metrics c' else c'

  ingest_found : ℕ → List Property → Cache F → Option Device → Cache F
  ingest_found now props c none = c
  ingest_found now props c (some dev) = ingest_known now dev props (get_device_specs c dev) c

  -- `IngestNotification`
  unfoldable pub ingest_notification :
      ℕ → Text → Eoj → List Property → List Device → Cache F → Cache F
  unfolding ingest_found
  ingest_notification now ip seoj props devices c =
      ingest_found now props c (find_device_by_ip_and_eoj c ip seoj devices)
