-- ===== src/Cache.antt =====
-- internal/poller/cache.go: the state of each device. A `time.Time` is a number of nanoseconds since
-- Go's zero time, which is 0; each operation that reads the clock takes it as an argument. What runs
-- under the cache's lock at once is one step. `due` lists the states that were taken under the lock for
-- the update callback, the latest first; the callback gets each of them after the lock is released,
-- when other calls may have come in between.
pub mod Push
pub mod Lookup
pub mod Status
use echonet_go.Base.{
  ℕ, zero, suc, ◌+◌, ◌-◌, ◌*◌, Bool, true, false, not, ◌&&◌, ◌||◌, Option, none, some, List, [],
  ◌∷◌, ◌++◌, ltb, leb, ◌==◌, if◌then◌else◌, is_some, map, length,
}
use echonet_go.Base.Maps.{ByteSet, has, lookup, insert, delete, text_key, byte_key}
use echonet_go.Base.Texts.{Text, text, text_eq}
use echonet_go.Identity.{DeviceInfo, no_info, eoj_eq, is_empty}
use echonet_go.Protocol.{Eoj}
use echonet_go.Readings.{Readings}
use echonet_go.Specs.{MetricSpec, ClimateSpec, LightSpec}

-- internal/config/config.go, `Device`
pub record Device : Type 0 where
  pub name : Text
  pub ip : Text
  pub class : Text
  pub manufacturer : Text
  pub model : Text
  pub labels : List (Text × Text)
  pub scrape_interval : Text

-- `groupStatus`
pub record GroupStatus (F : Type 0) : Type 0 where
  pub interval : ℕ
  pub success : Bool
  pub duration_sec : F
  pub last_attempt : ℕ
  pub last_success : ℕ
  pub last_error : Text
  pub failures : ℕ

-- `deviceCache`
pub record DeviceCache (F : Type 0) : Type 0 where
  pub groups : List (Text × GroupStatus F)
  pub metrics : Readings F
  pub info : DeviceInfo

-- `DeviceState`, what the update callback is given.
pub record DeviceState (F : Type 0) : Type 0 where
  pub device : Device
  pub info : DeviceInfo
  pub metrics : Readings F
  pub metric_specs : Option (List (MetricSpec F))
  pub writable : Option ByteSet
  pub climate : Option (ClimateSpec F)
  pub light : Option LightSpec
  pub success : Bool

-- `Cache`
pub record Cache (F : Type 0) : Type 0 where
  pub metrics : List (Text × DeviceCache F)
  pub subscribed : Bool
  pub due : List (DeviceState F)
  pub specs_by_dev : List (Text × List (MetricSpec F))
  pub climate_by_dev : List (Text × ClimateSpec F)
  pub light_by_dev : List (Text × LightSpec)
  pub writable_epcs : List (Text × ByteSet)
  pub eoj_by_dev : List (Text × Eoj)
  pub notify_epcs : List (Text × ByteSet)
  pub last_push : List (Text × List (ℕ × ℕ))
  pub force_polling : Bool

-- `deviceKey`
unfoldable pub device_key : Device → Text
device_key dev = dev.name ++ (text "|" ++ (dev.ip ++ (text "|" ++ dev.class)))

-- The device's object is known, and is this one.
unfoldable pub eoj_matches : Option Eoj → Eoj → Bool
eoj_matches none seoj = false
eoj_matches (some eoj) seoj = eoj_eq eoj seoj

-- The value that a missing key reads as.
abbrev pub or_else {ℓ} : {A : Type ℓ} → Option A → A → A
or_else none d = d
or_else (some a) d = a

-- The loop of `RecordPush` over the codes.
unfoldable pub push_all : List ℕ → ℕ → List (ℕ × ℕ) → List (ℕ × ℕ)
push_all [] now times = times
push_all (epc ∷ epcs) now times = push_all epcs now (insert epc now times)

-- The end of `ShouldSkipPoll`: was this code pushed less than `freshness` ago?
unfoldable pub pushed_within : ℕ → ℕ → Option ℕ → Bool
pushed_within now freshness none = false
pushed_within now freshness (some t) = ltb now (t + freshness)

-- Is the code in the map, if there is one?
unfoldable pub in_set : ℕ → Option ByteSet → Bool
in_set epc none = false
in_set epc (some s) = has epc s

module _ {F : Type 0} where
  abbrev pub empty_device : DeviceCache F
  empty_device = record { groups = []; metrics = []; info = no_info }

  -- `NewCache`
  abbrev pub new_cache : Cache F
  new_cache = record {
    metrics = [];
    subscribed = false;
    due = [];
    specs_by_dev = [];
    climate_by_dev = [];
    light_by_dev = [];
    writable_epcs = [];
    eoj_by_dev = [];
    notify_epcs = [];
    last_push = [];
    force_polling = false;
  }

  -- `c.metrics[key]`
  unfoldable pub device_cache : Cache F → Text → DeviceCache F
  device_cache c key = or_else (lookup key c.metrics) empty_device

  -- `SetOnUpdate`, with a callback.
  abbrev pub set_on_update : Cache F → Cache F
  set_on_update c = record c { subscribed = true }

  -- `SetDeviceSpecs`
  unfoldable pub set_device_specs : Device → List (MetricSpec F) → Cache F → Cache F
  set_device_specs dev specs c = record c {
    specs_by_dev = insert (device_key dev) specs c.specs_by_dev;
  }

  -- `SetDeviceClimate`
  unfoldable pub set_device_climate : Device → Option (ClimateSpec F) → Cache F → Cache F
  set_device_climate dev none c = record c {
    climate_by_dev = delete (device_key dev) c.climate_by_dev;
  }
  set_device_climate dev (some climate) c = record c {
    climate_by_dev = insert (device_key dev) climate c.climate_by_dev;
  }

  -- `SetDeviceLight`
  unfoldable pub set_device_light : Device → Option LightSpec → Cache F → Cache F
  set_device_light dev none c = record c { light_by_dev = delete (device_key dev) c.light_by_dev }
  set_device_light dev (some light) c = record c {
    light_by_dev = insert (device_key dev) light c.light_by_dev;
  }

  -- `SetWritableEPCs`
  unfoldable pub set_writable_epcs : Device → ByteSet → Cache F → Cache F
  set_writable_epcs dev writable c = record c {
    writable_epcs = insert (device_key dev) writable c.writable_epcs;
  }

  -- `SetNotificationEPCs`
  unfoldable pub set_notification_epcs : Device → ByteSet → Cache F → Cache F
  set_notification_epcs dev notify c = record c {
    notify_epcs = insert (device_key dev) notify c.notify_epcs;
  }

  -- `SetDeviceEOJ`
  unfoldable pub set_device_eoj : Device → Eoj → Cache F → Cache F
  set_device_eoj dev eoj c = record c { eoj_by_dev = insert (device_key dev) eoj c.eoj_by_dev }

  -- `SetForcePolling`
  abbrev pub set_force_polling : Bool → Cache F → Cache F
  set_force_polling force c = record c { force_polling = force }

  -- `GetDeviceSpecs`, `GetDeviceClimate`, `GetDeviceLight`, `GetWritableEPCs` and `GetDeviceEOJ`.
  abbrev pub get_device_specs : Cache F → Device → Option (List (MetricSpec F))
  get_device_specs c dev = lookup (device_key dev) c.specs_by_dev

  abbrev pub get_device_climate : Cache F → Device → Option (ClimateSpec F)
  get_device_climate c dev = lookup (device_key dev) c.climate_by_dev

  abbrev pub get_device_light : Cache F → Device → Option LightSpec
  get_device_light c dev = lookup (device_key dev) c.light_by_dev

  abbrev pub get_writable_epcs : Cache F → Device → Option ByteSet
  get_writable_epcs c dev = lookup (device_key dev) c.writable_epcs

  abbrev pub get_device_eoj : Cache F → Device → Option Eoj
  get_device_eoj c dev = lookup (device_key dev) c.eoj_by_dev

  -- `HasWritableMap`, `HasNotificationMap` and `HasDeviceInfo`.
  unfoldable pub has_writable_map : Cache F → Device → Bool
  has_writable_map c dev = is_some (lookup (device_key dev) c.writable_epcs)

  unfoldable pub has_notification_map : Cache F → Device → Bool
  has_notification_map c dev = is_some (lookup (device_key dev) c.notify_epcs)

  unfoldable pub has_device_info : Cache F → Device → Bool
  unfolding device_cache
  has_device_info c dev =
      let info = (device_cache c (device_key dev)).info in
      not (is_empty info.manufacturer) || not (is_empty info.uid)

  -- `RecordPush`
  unfoldable pub record_push : ℕ → Device → List ℕ → Cache F → Cache F
  unfolding push_all
  record_push now dev epcs c =
      let key = device_key dev in
      record c {
        last_push =
            insert key (push_all epcs now (or_else (lookup key c.last_push) [])) c.last_push;
      }

  -- `ShouldSkipPoll`
  unfoldable pub should_skip_poll : ℕ → Cache F → Device → ℕ → ℕ → Bool
  unfolding in_set pushed_within
  should_skip_poll now c dev epc freshness =
      let key = device_key dev in
      if c.force_polling
      then false
      else if not (in_set epc (lookup key c.notify_epcs))
      then false
      else pushed_within now freshness (lookup epc (or_else (lookup key c.last_push) []))

  -- `FindDeviceByIPAndEOJ`
  unfoldable pub find_device_by_ip_and_eoj : Cache F → Text → Eoj → List Device → Option Device
  unfolding eoj_matches
  find_device_by_ip_and_eoj c ip seoj [] = none
  find_device_by_ip_and_eoj c ip seoj (dev ∷ devices) =
      let rest = find_device_by_ip_and_eoj c ip seoj devices in
      if not (text_eq dev.ip ip)
      then rest
      else if eoj_matches (lookup (device_key dev) c.eoj_by_dev) seoj
      then some dev
      else rest
