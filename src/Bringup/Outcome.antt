-- ===== src/Bringup/Outcome.antt =====
-- internal/poller/scheduler.go: what the cache holds of a device that was brought up.
use echonet_go.Base.{
  ◌≡◌, ◌∙◌, ap, refl, Bool, true, false, Option, none, some, List, [], ◌∷◌, Result, ok, err,
  Bool-cases, is_some, inl, inr,
}
use echonet_go.Base.Maps.{ByteSet, lookup, lookup-insert, beq_self, text_key}
use echonet_go.Bringup.{
  SpecMap, store_map, store_specs, notification_step, discover_resolved, discover_device_state,
}
use echonet_go.Cache.{
  Cache, Device, device_key, set_device_climate, set_device_eoj, set_device_light, set_device_specs,
  set_notification_epcs, set_writable_epcs, get_device_eoj, get_device_specs, has_notification_map,
}
use echonet_go.Client.{Transport}
use echonet_go.Floats.{Float64}
use echonet_go.Identity.{Lookups}
use echonet_go.Protocol.{Eoj, FrameError, is_get_sna}
use echonet_go.Scheduler.{HostCache, resolve_eoj_instance}
use echonet_go.Scheduler.Instances.{SameClass, resolve_eoj_instance-SameClass}
use echonet_go.Specs.{MetricSpec, DeviceSpec, ClimateSpec, LightSpec}

module _ {F : Type 0} where
  eoj-store_specs :
      (dev : Device) (spec : DeviceSpec F) (metrics : List (MetricSpec F)) (c : Cache F)
      → (store_specs dev spec metrics c).eoj_by_dev ≡ c.eoj_by_dev
  unfolding store_specs set_device_specs
  eoj-store_specs dev spec [] c = refl
  eoj-store_specs dev spec (m ∷ metrics) c =
      light spec.light (set_device_climate dev spec.climate (set_device_specs dev (m ∷ metrics) c))
      ∙ climate spec.climate (set_device_specs dev (m ∷ metrics) c)
    where
      light :
          (x : Option LightSpec) (d : Cache F)
          → (set_device_light dev x d).eoj_by_dev ≡ d.eoj_by_dev
      light none d = unfold set_device_light in refl
      light (some s) d = unfold set_device_light in refl

      climate :
          (x : Option (ClimateSpec F)) (d : Cache F)
          → (set_device_climate dev x d).eoj_by_dev ≡ d.eoj_by_dev
      climate none d = unfold set_device_climate in refl
      climate (some s) d = unfold set_device_climate in refl

  eoj-store_map :
      (dev : Device) (r : Result FrameError ByteSet) (c : Cache F)
      → ((store_map (set_writable_epcs dev) r c).eoj_by_dev ≡ c.eoj_by_dev)
        × ((store_map (set_notification_epcs dev) r c).eoj_by_dev ≡ c.eoj_by_dev)
  unfolding store_map set_writable_epcs set_notification_epcs
  eoj-store_map dev (ok s) c = (refl, refl)
  eoj-store_map dev (err e) c = elim (Bool-cases (is_get_sna (some e))) [
    | inl t ↦ rw t (refl, refl)
    | inr f ↦ rw f (refl, refl)
  ]

  pub notify-store_specs :
      (dev : Device) (spec : DeviceSpec F) (metrics : List (MetricSpec F)) (c : Cache F)
      → (store_specs dev spec metrics c).notify_epcs ≡ c.notify_epcs
  unfolding store_specs set_device_specs
  notify-store_specs dev spec [] c = refl
  notify-store_specs dev spec (m ∷ metrics) c =
      light spec.light (set_device_climate dev spec.climate (set_device_specs dev (m ∷ metrics) c))
      ∙ climate spec.climate (set_device_specs dev (m ∷ metrics) c)
    where
      light :
          (x : Option LightSpec) (d : Cache F)
          → (set_device_light dev x d).notify_epcs ≡ d.notify_epcs
      light none d = unfold set_device_light in refl
      light (some s) d = unfold set_device_light in refl

      climate :
          (x : Option (ClimateSpec F)) (d : Cache F)
          → (set_device_climate dev x d).notify_epcs ≡ d.notify_epcs
      climate none d = unfold set_device_climate in refl
      climate (some s) d = unfold set_device_climate in refl

  pub specs-store_specs :
      (dev : Device) (spec : DeviceSpec F) (m : MetricSpec F) (metrics : List (MetricSpec F))
      (c : Cache F)
      → get_device_specs (store_specs dev spec (m ∷ metrics) c) dev ≡ some (m ∷ metrics)
  unfolding store_specs set_device_specs
  specs-store_specs dev spec m metrics c =
      ap (lookup (device_key dev)) (
        light spec.light
          (set_device_climate dev spec.climate (set_device_specs dev (m ∷ metrics) c))
        ∙ climate spec.climate (set_device_specs dev (m ∷ metrics) c))
      ∙ lookup-insert (device_key dev) (device_key dev) (m ∷ metrics) c.specs_by_dev
      ∙ rw (beq_self (device_key dev)) refl
    where
      light :
          (x : Option LightSpec) (d : Cache F)
          → (set_device_light dev x d).specs_by_dev ≡ d.specs_by_dev
      light none d = unfold set_device_light in refl
      light (some s) d = unfold set_device_light in refl

      climate :
          (x : Option (ClimateSpec F)) (d : Cache F)
          → (set_device_climate dev x d).specs_by_dev ≡ d.specs_by_dev
      climate none d = unfold set_device_climate in refl
      climate (some s) d = unfold set_device_climate in refl

module _ (fl : Float64) (tr : Transport) (l : Lookups) where
  open fl use {F}
  open tr use {W}

  eoj-notification_step :
      (notify : Bool) (dev : Device) (eoj : Eoj) (c : Cache F) (w : W)
      → (notification_step fl tr l notify dev eoj c w).0.eoj_by_dev ≡ c.eoj_by_dev
  unfolding notification_step
  eoj-notification_step false dev eoj c w = unfold set_notification_epcs in refl
  eoj-notification_step true dev eoj c w = (eoj-store_map dev _ c).1

  get_device_eoj-set :
      (dev : Device) (eoj : Eoj) (c : Cache F)
      → get_device_eoj (set_device_eoj dev eoj c) dev ≡ some eoj
  unfolding set_device_eoj
  get_device_eoj-set dev eoj c =
      lookup-insert (device_key dev) (device_key dev) eoj c.eoj_by_dev
      ∙ rw (beq_self (device_key dev)) refl

  discover_resolved-eoj :
      (notify : Bool) (dev : Device) (default' : DeviceSpec F) (specs : SpecMap F) (eoj : Eoj)
      (hosts : HostCache) (c : Cache F) (w : W)
      → get_device_eoj (discover_resolved fl tr l notify dev default' specs eoj hosts c w).cache dev
        ≡ some eoj
  unfolding discover_resolved
  discover_resolved-eoj notify dev default' specs eoj hosts c w =
      ap (lookup (device_key dev)) (
        eoj-store_specs dev _ _ _
        ∙ eoj-notification_step notify dev eoj _ _
        ∙ (eoj-store_map dev _ _).0)
      ∙ get_device_eoj-set dev eoj _

  notify-notification_step :
      (dev : Device) (eoj : Eoj) (c : Cache F) (w : W)
      → has_notification_map (notification_step fl tr l false dev eoj c w).0 dev ≡ true
  unfolding notification_step set_notification_epcs has_notification_map
  notify-notification_step dev eoj c w =
      rw
        (
          lookup-insert (device_key dev) (device_key dev) [] c.notify_epcs,
          beq_self (device_key dev),
        )
        refl

  discover_resolved-notify :
      (dev : Device) (default' : DeviceSpec F) (specs : SpecMap F) (eoj : Eoj) (hosts : HostCache)
      (c : Cache F) (w : W)
      → has_notification_map
          (discover_resolved fl tr l false dev default' specs eoj hosts c w).cache
          dev
        ≡ true
  unfolding discover_resolved has_notification_map
  discover_resolved-notify dev default' specs eoj hosts c w =
      ap (λ m. is_some (lookup (device_key dev) m)) (notify-store_specs dev _ _ _)
      ∙ notify-notification_step dev eoj _ w

  pub discover_device_state-eoj :
      (notify : Bool) (dev : Device) (default' : DeviceSpec F) (specs : SpecMap F)
      (hosts : HostCache) (c : Cache F) (w : W)
      → (get_device_eoj
            (discover_device_state fl tr l notify dev default' specs hosts c w).cache
            dev
          ≡ some (discover_device_state fl tr l notify dev default' specs hosts c w).eoj)
        × SameClass
            (discover_device_state fl tr l notify dev default' specs hosts c w).eoj
            default'.eoj
  unfolding discover_device_state
  discover_device_state-eoj notify dev default' specs hosts c w =
      let (eoj, hosts', w') = resolve_eoj_instance tr dev default'.eoj hosts w in
      (
        discover_resolved-eoj notify dev default' specs eoj hosts' c w',
        unfold discover_resolved in resolve_eoj_instance-SameClass tr dev default'.eoj hosts w,
      )

  -- Where notifications are off, the notification map of a device that was brought up counts as known,
  -- so that it is not asked for again.
  pub discover_device_state-notify :
      (dev : Device) (default' : DeviceSpec F) (specs : SpecMap F) (hosts : HostCache) (c : Cache F)
      (w : W)
      → has_notification_map
          (discover_device_state fl tr l false dev default' specs hosts c w).cache
          dev
        ≡ true
  unfolding discover_device_state
  discover_device_state-notify dev default' specs hosts c w =
      let (eoj, hosts', w') = resolve_eoj_instance tr dev default'.eoj hosts w in
      discover_resolved-notify dev default' specs eoj hosts' c w'
