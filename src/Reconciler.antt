-- ===== src/Reconciler.antt =====
-- internal/poller/reconciler.go: the healing of missing capabilities. A task runs by itself for each key
-- (package singleflight); `expired` tells from the state of the world whether the context has ended.
-- Log lines are left out.
pub mod Safety
pub mod Cooldown
use echonet_go.Base.{
  ℕ, ◌+◌, ◌-◌, ◌*◌, Bool, true, false, not, ◌&&◌, ◌||◌, Option, none, some, List, [], ◌∷◌, ltb,
  if◌then◌else◌, Result, ok, err,
}
use echonet_go.Base.Maps.{ByteSet, lookup, insert, text_key}
use echonet_go.Base.Texts.{Text}
use echonet_go.Cache.{
  Cache, Device, device_key, or_else, has_writable_map, has_notification_map, has_device_info,
  set_writable_epcs, set_notification_epcs,
}
use echonet_go.Client.{Transport}
use echonet_go.Floats.{Float64}
use echonet_go.Identity.{DeviceInfo, Lookups, get_property_map, get_device_info, is_empty}
use echonet_go.Protocol.{Eoj, FrameError, is_get_sna}
use echonet_go.Updates.{update_info, trigger_update}

-- `reconcileCooldown`, 60 seconds in nanoseconds.
abbrev pub reconcile_cooldown : ℕ
reconcile_cooldown = 60000000000

-- `lastAttempt`
abbrev pub Attempts : Type 0
Attempts = List (Text × ℕ)

module _ {F : Type 0} where
  -- `NeedsReconciliation`
  unfoldable pub needs_reconciliation : Cache F → Device → Bool
  needs_reconciliation c dev =
      not (has_writable_map c dev)
      || (not (has_notification_map c dev) || not (has_device_info c dev))

  -- `ReconcileDevice` with a client: whether a task is started, and the attempts.
  unfoldable pub reconcile_device : ℕ → Cache F → Device → Attempts → Bool × Attempts
  unfolding needs_reconciliation
  reconcile_device now c dev attempts =
      if not (needs_reconciliation c dev)
      then (false, attempts)
      else if ltb (now - or_else (lookup (device_key dev) attempts) 0) reconcile_cooldown
      then (false, attempts)
      else (true, insert (device_key dev) now attempts)

-- What `RefreshDevice` notes before its task, which has no cooldown.
unfoldable pub note_refresh : ℕ → Device → Attempts → Attempts
note_refresh now dev attempts = insert (device_key dev) now attempts

module _ (fl : Float64) (tr : Transport) (l : Lookups) (expired : tr.W → Bool) where
  open fl use {F}
  open tr use {W}

  -- The state of `doReconcile`: the cache, `updated`, and the world.
  pub record Healing : Type 0 where
    pub cache : Cache F
    pub updated : Bool
    pub world : W

  -- A map that was read, or an empty one where the device has none.
  unfoldable pub heal_map :
      (ByteSet → Cache F → Cache F) → Result FrameError ByteSet × W → Healing → Healing
  heal_map store (ok s, w) h = record { cache = store s h.cache; updated = true; world = w }
  heal_map store (err e, w) h =
      if is_get_sna (some e)
      then record { cache = store [] h.cache; updated = true; world = w }
      else record h { world = w }

  -- 1. and 2.: the maps 0x9E and 0x9D.
  unfoldable pub heal_writable : Device → Eoj → Healing → Healing
  unfolding heal_map
  heal_writable dev eoj h =
      if not (has_writable_map h.cache dev) && not (expired h.world)
      then heal_map (set_writable_epcs dev) (get_property_map tr dev.ip eoj 0x9E h.world) h
      else h

  unfoldable pub heal_notification : Device → Eoj → Healing → Healing
  unfolding heal_map
  heal_notification dev eoj h =
      if not (has_notification_map h.cache dev) && not (expired h.world)
      then heal_map (set_notification_epcs dev) (get_property_map tr dev.ip eoj 0x9D h.world) h
      else h

  unfoldable pub heal_identity : Device → Result FrameError DeviceInfo × W → Healing → Healing
  heal_identity dev (err e, w) h = record h { world = w }
  heal_identity dev (ok info, w) h =
      if not (is_empty info.manufacturer) || not (is_empty info.uid)
      then record { cache = update_info fl dev info h.cache; updated = true; world = w }
      else record h { world = w }

  -- 3.: the identity.
  unfoldable pub heal_info : Device → Eoj → Healing → Healing
  unfolding heal_identity
  heal_info dev eoj h =
      if not (has_device_info h.cache dev) && not (expired h.world)
      then heal_identity dev (get_device_info tr dev.ip l eoj dev.model h.world) h
      else h

  -- The end of `doReconcile`.
  unfoldable pub tell_healed : Device → Healing → Cache F × W
  tell_healed dev h = (if h.updated then trigger_update fl dev h.cache else h.cache, h.world)

  -- `doReconcile`
  unfoldable pub do_reconcile : Device → Eoj → Cache F → W → Cache F × W
  unfolding heal_writable heal_notification heal_info tell_healed
  do_reconcile dev eoj c w = tell_healed dev (
      heal_info dev eoj (
        heal_notification dev eoj
          (heal_writable dev eoj (record { cache = c; updated = false; world = w }))))

  refreshed : Device → Result FrameError DeviceInfo → Cache F → Cache F
  refreshed dev (err e) c = c
  refreshed dev (ok info) c = update_info fl dev info c

  -- The task of `RefreshDevice`.
  unfoldable pub refresh_device : Device → Eoj → Cache F → W → Cache F × W
  unfolding do_reconcile refreshed
  refresh_device dev eoj c w =
      let (info, w') = get_device_info tr dev.ip l eoj dev.model w in
      let c' = refreshed dev info c in
      if needs_reconciliation c' dev then do_reconcile dev eoj c' w' else (c', w')
