-- ===== src/Bringup.antt =====
-- internal/poller/scheduler.go, `discoverDeviceState`: how a device is brought up before it is polled.
-- The steps run in the order of the code, each on the cache and the world that the one before left.
pub mod Outcome
pub mod Records
use echonet_go.Base.{
  ℕ, Bool, true, false, not, ◌&&◌, Option, none, some, List, [], ◌∷◌, ◌++◌, if◌then◌else◌, length,
  ◌==◌, Result, ok, err,
}
use echonet_go.Base.Maps.{ByteSet, lookup, text_key}
use echonet_go.Base.Texts.{Text, text}
use echonet_go.Cache.{
  Cache, Device, set_device_climate, set_device_eoj, set_device_light, set_device_specs,
  set_notification_epcs, set_writable_epcs,
}
use echonet_go.Client.{Transport}
use echonet_go.Floats.{Float64}
use echonet_go.Identity.{
  DeviceInfo, Lookups, no_info, get_device_info, get_manufacturer_code, get_property_map, is_empty,
}
use echonet_go.Protocol.{Eoj, FrameError, is_get_sna}
use echonet_go.Scheduler.{HostCache, resolve_eoj_instance}
use echonet_go.Scraping.{filter_metrics_by_readable_map}
use echonet_go.Specs.{MetricSpec, DeviceSpec}
use echonet_go.Updates.{update_info}

-- The specifications by class, and by class and manufacturer.
abbrev pub SpecMap : Type 0 → Type 0
SpecMap F = List (Text × DeviceSpec F)

module _ {F : Type 0} where
  or_spec : Option (DeviceSpec F) → DeviceSpec F → DeviceSpec F
  or_spec none d = d
  or_spec (some s) d = s

  -- The vendor's specification of the class, where there is one.
  unfoldable pub vendor_spec : Device → DeviceSpec F → SpecMap F → DeviceInfo → DeviceSpec F
  unfolding or_spec
  vendor_spec dev default' specs info =
      if is_empty info.manufacturer_code
      then default'
      else or_spec (lookup (dev.class ++ (text "_" ++ info.manufacturer_code)) specs) default'

  -- The metrics that the device can be read for; all of them where its map cannot be read.
  unfoldable pub readable_metrics :
      List (MetricSpec F) → Result FrameError ByteSet → List (MetricSpec F)
  readable_metrics metrics (err e) = metrics
  readable_metrics metrics (ok readable) = (filter_metrics_by_readable_map metrics readable).0

  -- A map is stored as it was read, and as empty where the device has none.
  unfoldable pub store_map :
      (ByteSet → Cache F → Cache F) → Result FrameError ByteSet → Cache F → Cache F
  store_map store (ok s) c = store s c
  store_map store (err e) c = if is_get_sna (some e) then store [] c else c

  -- The end: without a metric the specifications are not recorded.
  unfoldable pub store_specs : Device → DeviceSpec F → List (MetricSpec F) → Cache F → Cache F
  store_specs dev spec [] c = c
  store_specs dev spec (m ∷ metrics) c =
      set_device_light dev spec.light
        (set_device_climate dev spec.climate (set_device_specs dev (m ∷ metrics) c))

module _ (fl : Float64) (tr : Transport) (l : Lookups) where
  open fl use {F}
  open tr use {W}

  -- What `discoverDeviceState` returns, with the state that it leaves.
  pub record Found : Type 0 where
    pub eoj : Eoj
    pub metrics : List (MetricSpec F)
    pub spec : DeviceSpec F
    pub hosts : HostCache
    pub cache : Cache F
    pub world : W

  code_or : DeviceInfo → Result FrameError Text × W → DeviceInfo × W
  code_or info (err e, w) = (info, w)
  code_or info (ok code, w) =
      (if is_empty code then info else record info { manufacturer_code = code }, w)

  -- The identity, or else the manufacturer code alone.
  unfoldable pub identity_of : Device → Eoj → Result FrameError DeviceInfo × W → DeviceInfo × W
  unfolding code_or
  identity_of dev eoj (ok info, w) = (info, w)
  identity_of dev eoj (err e, w) = code_or no_info (get_manufacturer_code tr dev.ip eoj w)

  -- The notification map, or an empty one where notifications are off.
  notification_step : Bool → Device → Eoj → Cache F → W → Cache F × W
  notification_step false dev eoj c w = (set_notification_epcs dev [] c, w)
  notification_step true dev eoj c w =
      let (r, w') = get_property_map tr dev.ip eoj 0x9D w in
      (store_map (set_notification_epcs dev) r c, w')

  -- From the identity on; the object is resolved.
  unfoldable pub discover_resolved :
      Bool → Device → DeviceSpec F → SpecMap F → Eoj → HostCache → Cache F → W → Found
  unfolding identity_of notification_step
  discover_resolved notify dev default' specs eoj hosts c w =
      let (info, w1) = identity_of dev eoj (get_device_info tr dev.ip l eoj dev.model w) in
      let spec = vendor_spec dev default' specs info in
      let (readable, w2) = get_property_map tr dev.ip eoj 0x9F w1 in
      let metrics = readable_metrics spec.metrics readable in
      let (writable, w3) = get_property_map tr dev.ip eoj 0x9E w2 in
      let c3 =
        store_map (set_writable_epcs dev) writable
          (set_device_eoj dev eoj (update_info fl dev info c)) in
      let (c4, w4) = notification_step notify dev eoj c3 w3 in
      record {
        eoj = eoj;
        metrics = metrics;
        spec = spec;
        hosts = hosts;
        cache = store_specs dev spec metrics c4;
        world = w4;
      }

  -- `discoverDeviceState`; the probe client shares the transport.
  unfoldable pub discover_device_state :
      Bool → Device → DeviceSpec F → SpecMap F → HostCache → Cache F → W → Found
  unfolding discover_resolved
  discover_device_state notify dev default' specs hosts c w =
      let (eoj, hosts', w') = resolve_eoj_instance tr dev default'.eoj hosts w in
      discover_resolved notify dev default' specs eoj hosts' c w'
