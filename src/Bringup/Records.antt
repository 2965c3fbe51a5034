-- ===== src/Bringup/Records.antt =====
-- internal/poller/scheduler.go: all that the cache records of a device that was brought up.
use mathlib.Core.Path.{subst}
use echonet_go.Base.{
  ◌≡◌, ◌∙◌, ap, refl, sym, Bool, true, false, Option, none, some, List, [], ◌∷◌, Result, ok, err,
  if◌then◌else◌, Bool-cases, inl, inr,
}
use echonet_go.Base.Maps.{ByteSet, lookup, lookup-insert, beq_self, text_key}
use echonet_go.Base.Texts.{Text}
use echonet_go.Bringup.{
  SpecMap, store_map, store_specs, notification_step, discover_resolved, discover_device_state,
}
use echonet_go.Bringup.Outcome.{discover_device_state-eoj, specs-store_specs, notify-store_specs}
use echonet_go.Cache.{
  Cache, Device, device_key, set_device_climate, set_device_eoj, set_device_light, set_device_specs,
  set_notification_epcs, set_writable_epcs, get_device_eoj, get_device_specs, get_writable_epcs,
}
use echonet_go.Client.{Transport}
use echonet_go.Floats.{Float64}
use echonet_go.Identity.{DeviceInfo, Lookups, get_property_map}
use echonet_go.Protocol.{Eoj, FrameError, is_get_sna}
use echonet_go.Scheduler.{HostCache, resolve_eoj_instance}
use echonet_go.Scheduler.Instances.{SameClass}
use echonet_go.Specs.{MetricSpec, DeviceSpec, ClimateSpec, LightSpec}
use echonet_go.Updates.{update_info}

-- What is recorded where a map was read, where the device refused to give one, and where no answer came.
unfoldable pub map_after : Result FrameError ByteSet → Option ByteSet → Option ByteSet
map_after (ok s) before = some s
map_after (err e) before = if is_get_sna (some e) then some [] else before

unfoldable pub specs_after :
    {F : Type 0} → List (MetricSpec F) → Option (List (MetricSpec F)) → Option (List (MetricSpec F))
specs_after [] before = before
specs_after (m ∷ metrics) before = some (m ∷ metrics)

module _ {F : Type 0} where
  writable-store_map :
      (dev : Device) (r : Result FrameError ByteSet) (c : Cache F)
      → lookup (device_key dev) (store_map (set_writable_epcs dev) r c).writable_epcs
        ≡ map_after r (lookup (device_key dev) c.writable_epcs)
  unfolding store_map set_writable_epcs map_after
  writable-store_map dev (ok s) c =
      lookup-insert (device_key dev) (device_key dev) s c.writable_epcs
      ∙ rw (beq_self (device_key dev)) refl
  writable-store_map dev (err e) c = elim (Bool-cases (is_get_sna (some e))) [
    | inl t ↦ rw t (
        lookup-insert (device_key dev) (device_key dev) [] c.writable_epcs
        ∙ rw (beq_self (device_key dev)) refl)
    | inr f ↦ rw f refl
  ]

  notify-store_map :
      (dev : Device) (r : Result FrameError ByteSet) (c : Cache F)
      → lookup (device_key dev) (store_map (set_notification_epcs dev) r c).notify_epcs
        ≡ map_after r (lookup (device_key dev) c.notify_epcs)
  unfolding store_map set_notification_epcs map_after
  notify-store_map dev (ok s) c =
      lookup-insert (device_key dev) (device_key dev) s c.notify_epcs
      ∙ rw (beq_self (device_key dev)) refl
  notify-store_map dev (err e) c = elim (Bool-cases (is_get_sna (some e))) [
    | inl t ↦ rw t (
        lookup-insert (device_key dev) (device_key dev) [] c.notify_epcs
        ∙ rw (beq_self (device_key dev)) refl)
    | inr f ↦ rw f refl
  ]

  -- The steps that touch other parts of the cache.
  record SameRest (c c' : Cache F) : Type 0 where
    notify : c'.notify_epcs ≡ c.notify_epcs
    specs : c'.specs_by_dev ≡ c.specs_by_dev

  writable-SameRest :
      (dev : Device) (r : Result FrameError ByteSet) (c : Cache F)
      → SameRest c (store_map (set_writable_epcs dev) r c)
  unfolding store_map set_writable_epcs
  writable-SameRest dev (ok s) c = record { notify = refl; specs = refl }
  writable-SameRest dev (err e) c = elim (Bool-cases (is_get_sna (some e))) [
    | inl t ↦ rw t (record { notify = refl; specs = refl })
    | inr f ↦ rw f (record { notify = refl; specs = refl })
  ]

  record Untouched (c c' : Cache F) : Type 0 where
    writable : c'.writable_epcs ≡ c.writable_epcs
    specs : c'.specs_by_dev ≡ c.specs_by_dev

  notify-Untouched :
      (dev : Device) (r : Result FrameError ByteSet) (c : Cache F)
      → Untouched c (store_map (set_notification_epcs dev) r c)
  unfolding store_map set_notification_epcs
  notify-Untouched dev (ok s) c = record { writable = refl; specs = refl }
  notify-Untouched dev (err e) c = elim (Bool-cases (is_get_sna (some e))) [
    | inl t ↦ rw t (record { writable = refl; specs = refl })
    | inr f ↦ rw f (record { writable = refl; specs = refl })
  ]

  writable-store_specs :
      (dev : Device) (spec : DeviceSpec F) (metrics : List (MetricSpec F)) (c : Cache F)
      → (store_specs dev spec metrics c).writable_epcs ≡ c.writable_epcs
  unfolding store_specs set_device_specs
  writable-store_specs dev spec [] c = refl
  writable-store_specs dev spec (m ∷ metrics) c =
      light spec.light (set_device_climate dev spec.climate (set_device_specs dev (m ∷ metrics) c))
      ∙ climate spec.climate (set_device_specs dev (m ∷ metrics) c)
    where
      light :
          (x : Option LightSpec) (d : Cache F)
          → (set_device_light dev x d).writable_epcs ≡ d.writable_epcs
      light none d = unfold set_device_light in refl
      light (some s) d = unfold set_device_light in refl

      climate :
          (x : Option (ClimateSpec F)) (d : Cache F)
          → (set_device_climate dev x d).writable_epcs ≡ d.writable_epcs
      climate none d = unfold set_device_climate in refl
      climate (some s) d = unfold set_device_climate in refl

  specs-after :
      (dev : Device) (spec : DeviceSpec F) (metrics : List (MetricSpec F)) (c : Cache F)
      → get_device_specs (store_specs dev spec metrics c) dev
        ≡ specs_after metrics (get_device_specs c dev)
  unfolding specs_after
  specs-after dev spec [] c = unfold store_specs in refl
  specs-after dev spec (m ∷ metrics) c = specs-store_specs dev spec m metrics c

module _ (fl : Float64) (tr : Transport) (l : Lookups) where
  open fl use {F}
  open tr use {W}

  -- The notification map: empty where notifications are off, and else what a read of 0x9D brought.
  abbrev pub NotifyRecorded : Bool → Text → Eoj → Option ByteSet → Option ByteSet → Type 0
  NotifyRecorded false ip eoj before after = after ≡ some []
  NotifyRecorded true ip eoj before after =
      (w : W) × (after ≡ map_after (get_property_map tr ip eoj 0x9D w).0 before)

  step-NotifyRecorded :
      (notify : Bool) (dev : Device) (eoj : Eoj) (c : Cache F) (w : W)
      → NotifyRecorded notify dev.ip eoj
          (lookup (device_key dev) c.notify_epcs)
          (lookup (device_key dev) (notification_step fl tr l notify dev eoj c w).0.notify_epcs)
  unfolding notification_step
  step-NotifyRecorded true dev eoj c w = (w, notify-store_map dev _ c)
  step-NotifyRecorded false dev eoj c w =
      unfold set_notification_epcs in
      lookup-insert (device_key dev) (device_key dev) [] c.notify_epcs
      ∙ rw (beq_self (device_key dev)) refl

  step-Untouched :
      (notify : Bool) (dev : Device) (eoj : Eoj) (c : Cache F) (w : W)
      → Untouched c (notification_step fl tr l notify dev eoj c w).0
  unfolding notification_step
  step-Untouched true dev eoj c w = notify-Untouched dev _ c
  step-Untouched false dev eoj c w =
      unfold set_notification_epcs in record { writable = refl; specs = refl }

  -- What the cache records of a device, beside what it held in `c`.
  pub record IsRecorded (notify : Bool) (dev : Device) (configured : Eoj) (c : Cache F) (eoj : Eoj)
      (metrics : List (MetricSpec F)) (after : Cache F) : Type 0 where
    pub object : get_device_eoj after dev ≡ some eoj
    pub same_class : SameClass eoj configured
    pub writable :
        (w : W) × (get_writable_epcs after dev
          ≡ map_after (get_property_map tr dev.ip eoj 0x9E w).0 (get_writable_epcs c dev))
    pub notified :
        NotifyRecorded notify dev.ip eoj
          (lookup (device_key dev) c.notify_epcs)
          (lookup (device_key dev) after.notify_epcs)
    pub polled : get_device_specs after dev ≡ specs_after metrics (get_device_specs c dev)

  record MapsRecorded (notify : Bool) (dev : Device) (c : Cache F) (eoj : Eoj)
      (metrics : List (MetricSpec F)) (after : Cache F) : Type 0 where
    writable :
        (w : W) × (get_writable_epcs after dev
          ≡ map_after (get_property_map tr dev.ip eoj 0x9E w).0 (get_writable_epcs c dev))
    notified :
        NotifyRecorded notify dev.ip eoj
          (lookup (device_key dev) c.notify_epcs)
          (lookup (device_key dev) after.notify_epcs)
    polled : get_device_specs after dev ≡ specs_after metrics (get_device_specs c dev)

  -- The steps from the writable map on.
  steps-MapsRecorded :
      (notify : Bool) (dev : Device) (eoj : Eoj) (info : DeviceInfo) (spec : DeviceSpec F)
      (metrics : List (MetricSpec F)) (c : Cache F) (w w3 : W)
      → MapsRecorded notify dev c eoj metrics (
          store_specs dev spec metrics
            (notification_step fl tr l notify dev eoj
              (store_map
                (set_writable_epcs dev)
                (get_property_map tr dev.ip eoj 0x9E w).0
                (set_device_eoj dev eoj (update_info fl dev info c)))
              w3).0)
  unfolding set_device_eoj update_info
  steps-MapsRecorded notify dev eoj info spec metrics c w w3 =
      let r = (get_property_map tr dev.ip eoj 0x9E w).0 in
      let c2 : Cache F = set_device_eoj dev eoj (update_info fl dev info c) in
      let c3 : Cache F = store_map (set_writable_epcs dev) r c2 in
      let c4 : Cache F = (notification_step fl tr l notify dev eoj c3 w3).0 in
      let rest = writable-SameRest dev r c2 in
      let still = step-Untouched notify dev eoj c3 w3 in
      record {
        writable = (
          w,
          ap (lookup (device_key dev)) (writable-store_specs dev spec metrics c4 ∙ still.writable)
              ∙ writable-store_map dev r c2,
        );
        notified =
            subst
              (λ m.
                NotifyRecorded notify dev.ip eoj (lookup (device_key dev) m)
                  (lookup (device_key dev) (store_specs dev spec metrics c4).notify_epcs))
              rest.notify
              (subst
                (λ m.
                  NotifyRecorded notify dev.ip eoj (lookup (device_key dev) c3.notify_epcs)
                    (lookup (device_key dev) m))
                (sym (notify-store_specs dev spec metrics c4))
                (step-NotifyRecorded notify dev eoj c3 w3));
        polled =
            specs-after dev spec metrics c4
            ∙ ap (λ m. specs_after metrics (lookup (device_key dev) m)) (still.specs ∙ rest.specs);
      }

  discover_resolved-MapsRecorded :
      (notify : Bool) (dev : Device) (default' : DeviceSpec F) (specs : SpecMap F) (eoj : Eoj)
      (hosts : HostCache) (c : Cache F) (w : W)
      → MapsRecorded notify dev c eoj
          (discover_resolved fl tr l notify dev default' specs eoj hosts c w).metrics
          (discover_resolved fl tr l notify dev default' specs eoj hosts c w).cache
  unfolding discover_resolved
  discover_resolved-MapsRecorded notify dev default' specs eoj hosts c w =
      steps-MapsRecorded notify dev eoj _ _ _ c _ _

  -- When a device has been brought up, the cache has its object, which is of the class of its
  -- specification; its writable map as the device gave it, empty where the device refuses it, and as it
  -- was where no answer came; its notification map likewise, or an empty one where notifications are
  -- off; and the metrics that are returned, unless there are none.
  pub discover_device_state-IsRecorded :
      (notify : Bool) (dev : Device) (default' : DeviceSpec F) (specs : SpecMap F)
      (hosts : HostCache) (c : Cache F) (w : W)
      → IsRecorded notify dev default'.eoj c
          (discover_device_state fl tr l notify dev default' specs hosts c w).eoj
          (discover_device_state fl tr l notify dev default' specs hosts c w).metrics
          (discover_device_state fl tr l notify dev default' specs hosts c w).cache
  discover_device_state-IsRecorded notify dev default' specs hosts c w =
      let (eoj, hosts', w') = resolve_eoj_instance tr dev default'.eoj hosts w in
      let found = discover_device_state-eoj fl tr l notify dev default' specs hosts c w in
      let maps = discover_resolved-MapsRecorded notify dev default' specs eoj hosts' c w' in
      record {
        object = found.0;
        same_class = found.1;
        writable = unfold discover_device_state in unfold discover_resolved in maps.writable;
        notified = unfold discover_device_state in unfold discover_resolved in maps.notified;
        polled = unfold discover_device_state in maps.polled;
      }
