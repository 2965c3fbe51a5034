-- ===== src/Reconciler/Safety.antt =====
-- internal/poller/reconciler.go: that healing overwrites nothing.
use echonet_go.Base.{
  ◌≡◌, ◌∙◌, ap, refl, Bool, true, false, not, ◌&&◌, ◌||◌, some, is_some, ◌∷◌, if◌then◌else◌, Result,
  ok, err, Bool-cases, inl, inr,
}
use echonet_go.Base.Maps.{ByteSet, lookup, text_key}
use echonet_go.Cache.{
  Cache, Device, device_key, device_cache, has_writable_map, has_notification_map, has_device_info,
  set_writable_epcs, set_notification_epcs,
}
use echonet_go.Client.{Transport}
use echonet_go.Floats.{Float64}
use echonet_go.Identity.{DeviceInfo, Lookups, get_property_map, get_device_info, is_empty}
use echonet_go.Protocol.{Eoj, FrameError, is_get_sna}
use echonet_go.Updates.{update_info, trigger_update, publish, snapshot}
use echonet_go.Reconciler.{
  Healing, heal_map, heal_writable, heal_notification, heal_identity, heal_info, tell_healed,
  do_reconcile,
}

module _ (fl : Float64) (tr : Transport) (l : Lookups) (expired : tr.W → Bool) where
  open fl use {F}
  open tr use {W}

  -- The first map stands where it is known; the later steps do not touch it.
  heal_writable-known :
      (dev : Device) (eoj : Eoj) (h : Healing fl tr l expired)
      → has_writable_map h.cache dev ≡ true
      → (heal_writable fl tr l expired dev eoj h).cache.writable_epcs ≡ h.cache.writable_epcs
  unfolding heal_writable
  heal_writable-known dev eoj h k = rw k refl

  heal_writable-notify :
      (dev : Device) (eoj : Eoj) (h : Healing fl tr l expired)
      → (heal_writable fl tr l expired dev eoj h).cache.notify_epcs ≡ h.cache.notify_epcs
  unfolding heal_writable heal_map set_writable_epcs
  heal_writable-notify dev eoj h =
      elim (Bool-cases (not (has_writable_map h.cache dev) && not (expired h.world))) [
        | inr e ↦ rw e refl
        | inl e ↦ rw e (go (get_property_map tr dev.ip eoj 0x9E h.world))
      ]
    where
      go :
          (r : Result FrameError ByteSet × W)
          → (heal_map fl tr l expired (set_writable_epcs dev) r h).cache.notify_epcs
            ≡ h.cache.notify_epcs
      go (ok s, w) = refl
      go (err e, w) = elim (Bool-cases (is_get_sna (some e))) [
        | inl t ↦ rw t refl
        | inr f ↦ rw f refl
      ]

  heal_notification-writable :
      (dev : Device) (eoj : Eoj) (h : Healing fl tr l expired)
      → (heal_notification fl tr l expired dev eoj h).cache.writable_epcs ≡ h.cache.writable_epcs
  unfolding heal_notification heal_map set_notification_epcs
  heal_notification-writable dev eoj h =
      elim (Bool-cases (not (has_notification_map h.cache dev) && not (expired h.world))) [
        | inr e ↦ rw e refl
        | inl e ↦ rw e (go (get_property_map tr dev.ip eoj 0x9D h.world))
      ]
    where
      go :
          (r : Result FrameError ByteSet × W)
          → (heal_map fl tr l expired (set_notification_epcs dev) r h).cache.writable_epcs
            ≡ h.cache.writable_epcs
      go (ok s, w) = refl
      go (err e, w) = elim (Bool-cases (is_get_sna (some e))) [
        | inl t ↦ rw t refl
        | inr f ↦ rw f refl
      ]

  -- The maps of both caches are the same.
  record SameMaps (c c' : Cache F) : Type 0 where
    writable : c'.writable_epcs ≡ c.writable_epcs
    notify : c'.notify_epcs ≡ c.notify_epcs

  heal_identity-SameMaps :
      (dev : Device) (r : Result FrameError DeviceInfo × W) (h : Healing fl tr l expired)
      → SameMaps h.cache (heal_identity fl tr l expired dev r h).cache
  unfolding heal_identity update_info
  heal_identity-SameMaps dev (err e, w) h = record { writable = refl; notify = refl }
  heal_identity-SameMaps dev (ok info, w) h =
      elim (Bool-cases (not (is_empty info.manufacturer) || not (is_empty info.uid))) [
        | inl e ↦ rw e (record { writable = refl; notify = refl })
        | inr e ↦ rw e (record { writable = refl; notify = refl })
      ]

  heal_info-SameMaps :
      (dev : Device) (eoj : Eoj) (h : Healing fl tr l expired)
      → SameMaps h.cache (heal_info fl tr l expired dev eoj h).cache
  unfolding heal_info
  heal_info-SameMaps dev eoj h =
      elim (Bool-cases (not (has_device_info h.cache dev) && not (expired h.world))) [
        | inl e ↦
            rw e (heal_identity-SameMaps dev (get_device_info tr dev.ip l eoj dev.model h.world) h)
        | inr e ↦ rw e (record { writable = refl; notify = refl })
      ]

  tell_healed-SameMaps :
      (dev : Device) (h : Healing fl tr l expired)
      → SameMaps h.cache (tell_healed fl tr l expired dev h).0
  unfolding tell_healed trigger_update publish
  tell_healed-SameMaps dev h = elim (Bool-cases h.updated) [
    | inr e ↦ rw e (record { writable = refl; notify = refl })
    | inl e ↦ rw e (told h.cache.subscribed)
  ]
    where
      told :
          (b : Bool)
          → SameMaps h.cache (
              if b
              then record h.cache {
                due =
                    snapshot h.cache dev (device_cache h.cache (device_key dev)) true ∷ h.cache.due;
              }
              else h.cache)
      told true = record { writable = refl; notify = refl }
      told false = record { writable = refl; notify = refl }

  -- Reconciliation overwrites no map: where the writable map of the device is known, every writable map
  -- stays as it is.
  pub do_reconcile-writable :
      (dev : Device) (eoj : Eoj) (c : Cache F) (w : W)
      → has_writable_map c dev ≡ true
      → (do_reconcile fl tr l expired dev eoj c w).0.writable_epcs ≡ c.writable_epcs
  unfolding do_reconcile
  do_reconcile-writable dev eoj c w known =
      let h0 : Healing fl tr l expired = record { cache = c; updated = false; world = w } in
      let h1 = heal_writable fl tr l expired dev eoj h0 in
      let h2 = heal_notification fl tr l expired dev eoj h1 in
      let h3 = heal_info fl tr l expired dev eoj h2 in
      (tell_healed-SameMaps dev h3).writable
      ∙ (heal_info-SameMaps dev eoj h2).writable
      ∙ heal_notification-writable dev eoj h1
      ∙ heal_writable-known dev eoj h0 known

  heal_notification-known :
      (dev : Device) (eoj : Eoj) (h : Healing fl tr l expired)
      → has_notification_map h.cache dev ≡ true
      → (heal_notification fl tr l expired dev eoj h).cache.notify_epcs ≡ h.cache.notify_epcs
  unfolding heal_notification
  heal_notification-known dev eoj h k = rw k refl

  -- Where the notification map of the device is known, every notification map stays as it is.
  pub do_reconcile-notify :
      (dev : Device) (eoj : Eoj) (c : Cache F) (w : W)
      → has_notification_map c dev ≡ true
      → (do_reconcile fl tr l expired dev eoj c w).0.notify_epcs ≡ c.notify_epcs
  unfolding do_reconcile
  do_reconcile-notify dev eoj c w known =
      let h0 : Healing fl tr l expired = record { cache = c; updated = false; world = w } in
      let h1 = heal_writable fl tr l expired dev eoj h0 in
      let h2 = heal_notification fl tr l expired dev eoj h1 in
      let h3 = heal_info fl tr l expired dev eoj h2 in
      let still : has_notification_map h1.cache dev ≡ true =
        unfold has_notification_map in
        ap (λ m. is_some (lookup (device_key dev) m)) (heal_writable-notify dev eoj h0) ∙ known in
      (tell_healed-SameMaps dev h3).notify
      ∙ (heal_info-SameMaps dev eoj h2).notify
      ∙ heal_notification-known dev eoj h1 still
      ∙ heal_writable-notify dev eoj h0
