-- ===== src/Scheduler.antt =====
-- internal/poller/scheduler.go: which object of a device is polled. The transport's state and the cache
-- of the hosts go through every call; a caller's label and log lines are left out.
pub mod Instances
use echonet_go.Base.{
  ℕ, zero, suc, ◌+◌, ◌*◌, ◌/◌, Bool, true, false, not, ◌&&◌, ◌||◌, Option, none, some, List, [],
  ◌∷◌, ◌++◌, ltb, leb, ◌==◌, if◌then◌else◌, length, keep, map, is_some, Result, ok, err,
}
use echonet_go.Base.Int.{ℤ, pos, negsuc}
use echonet_go.Base.Maps.{ByteSet, has, add, lookup, insert, byte_key, text_key}
use echonet_go.Base.Texts.{Text, text}
use echonet_go.Cache.{Cache, Device, or_else, should_skip_poll}
use echonet_go.Client.{Transport, get_props, sort_ints}
use echonet_go.Floats.{Float64}
use echonet_go.Identity.{node_profile, is_empty}
use echonet_go.Protocol.{Property, Eoj, FrameError, transport_error}
use echonet_go.Readings.{Readings, parse_props_to_metrics}
use echonet_go.Specs.{MetricSpec, DeviceSpec, to_lower}
use echonet_go.Updates.{update}

-- The loop of `decodeInstanceList`; the bytes from `base` on are carried along.
unfoldable pub read_instances : ℕ → List ℕ → List Eoj
read_instances zero bytes = []
read_instances (suc n) (a ∷ b ∷ c ∷ bytes) =
    record { b0 = a; b1 = b; b2 = c } ∷ read_instances n bytes
read_instances (suc n) _ = []

-- `decodeInstanceList`
unfoldable pub decode_instance_list : List ℕ → List Eoj
unfolding read_instances
decode_instance_list [] = []
decode_instance_list (count ∷ bytes) =
    let max_count = length bytes / 3 in
    read_instances (if ltb max_count count then max_count else count) bytes

-- `selectEOJFromInstances`: the first instance of the class, if there is one.
unfoldable pub select_eoj_from_instances : Eoj → List Eoj → Option Eoj
select_eoj_from_instances configured [] = none
select_eoj_from_instances configured (inst ∷ instances) =
    let rest = select_eoj_from_instances configured instances in
    if not (inst.b0 == configured.b0) || not (inst.b1 == configured.b1) then rest else some inst

-- `strings.HasPrefix` and `strings.Contains`
has_prefix : Text → Text → Bool
has_prefix s [] = true
has_prefix [] (c ∷ t) = false
has_prefix (a ∷ s) (c ∷ t) = a == c && has_prefix s t

unfoldable pub contains : Text → Text → Bool
unfolding has_prefix
contains [] t = has_prefix [] t
contains (a ∷ s) t = has_prefix (a ∷ s) t || contains s t

-- `isProbeTimeout`: of the package's own errors only those of the socket speak of a timeout, and
-- "i/o timeout" contains "timeout".
unfoldable pub is_probe_timeout : Option FrameError → Bool
unfolding contains
is_probe_timeout (some (transport_error message)) = contains (to_lower message) (text "timeout")
is_probe_timeout _ = false

-- The instances that the sweep tries, 0x01 to 0x0F.
abbrev pub sweep_instances : List ℕ
sweep_instances = 1 ∷ 2 ∷ 3 ∷ 4 ∷ 5 ∷ 6 ∷ 7 ∷ 8 ∷ 9 ∷ 10 ∷ 11 ∷ 12 ∷ 13 ∷ 14 ∷ 15 ∷ []

-- The instance list in the first property 0xD6 that has data.
unfoldable pub instances_in : List Property → List Eoj
unfolding decode_instance_list
instances_in [] = []
instances_in (p ∷ props) =
    let rest = instances_in props in
    if not (p.epc == 0xD6) || length p.edt == 0 then rest else decode_instance_list p.edt

-- `hostEOJCache`
abbrev pub HostCache : Type 0
HostCache = List (Text × List Eoj)

module _ (tr : Transport) where
  open tr use {W}

  probed : Result FrameError (List Property) × W → Bool × Option FrameError × W
  probed (err e, w) = (false, some e, w)
  probed (ok props, w) = (ltb 0 (length props), none, w)

  -- `probeEOJ`
  unfoldable pub probe_eoj : Text → Eoj → W → Bool × Option FrameError × W
  unfolding probed
  probe_eoj ip eoj w = probed (get_props tr ip eoj (0x80 ∷ []) w)

  -- The sweep over the instances of the class.
  unfoldable pub sweep : Text → Eoj → List ℕ → W → Eoj × W
  unfolding probe_eoj
  sweep ip configured [] w = (configured, w)
  sweep ip configured (inst ∷ insts) w =
      if inst == configured.b2
      then sweep ip configured insts w
      else (let candidate = record configured { b2 = inst } in
          let (found, error, w') = probe_eoj ip candidate w in
          if found
          then (candidate, w')
          else if is_probe_timeout error
          then (configured, w')
          else sweep ip configured insts w')

  store_instances : Device → Eoj → List Eoj → HostCache → W → Option Eoj × HostCache × W
  store_instances dev configured [] cache w = (none, cache, w)
  store_instances dev configured (i ∷ instances) cache w =
      (select_eoj_from_instances configured (i ∷ instances), insert dev.ip (i ∷ instances) cache, w)

  ask_node_profile :
      Device → Eoj → HostCache → Result FrameError (List Property) × W → Option Eoj × HostCache × W
  unfolding store_instances
  ask_node_profile dev configured cache (err e, w) = (none, cache, w)
  ask_node_profile dev configured cache (ok props, w) =
      store_instances dev configured (instances_in props) cache w

  resolve_cached : Device → Eoj → HostCache → List Eoj → W → Option Eoj × HostCache × W
  unfolding ask_node_profile
  resolve_cached dev configured cache (i ∷ instances) w =
      (select_eoj_from_instances configured (i ∷ instances), cache, w)
  resolve_cached dev configured cache [] w =
      ask_node_profile dev configured cache (get_props tr dev.ip node_profile (0xD6 ∷ []) w)

  -- `resolveEOJFromNodeProfile`
  unfoldable pub resolve_eoj_from_node_profile :
      Device → Eoj → HostCache → W → Option Eoj × HostCache × W
  unfolding resolve_cached
  resolve_eoj_from_node_profile dev configured cache w =
      resolve_cached dev configured cache (or_else (lookup dev.ip cache) []) w

  probe_configured : Device → Eoj → HostCache → W → Eoj × HostCache × W
  unfolding sweep
  probe_configured dev configured cache w =
      let (found, error, w') = probe_eoj dev.ip configured w in
      if found
      then (configured, cache, w')
      else if is_probe_timeout error
      then (configured, cache, w')
      else let (eoj, w2) = sweep dev.ip configured sweep_instances w' in (eoj, cache, w2)

  resolved : Device → Eoj → Option Eoj × HostCache × W → Eoj × HostCache × W
  unfolding probe_configured
  resolved dev configured (some eoj, cache, w) = (eoj, cache, w)
  resolved dev configured (none, cache, w) = probe_configured dev configured cache w

  -- `resolveEOJInstance`
  unfoldable pub resolve_eoj_instance : Device → Eoj → HostCache → W → Eoj × HostCache × W
  unfolding resolve_eoj_from_node_profile resolved
  resolve_eoj_instance dev configured cache w =
      resolved dev configured (resolve_eoj_from_node_profile dev configured cache w)
