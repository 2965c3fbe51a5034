-- ===== src/Commander/Routing.antt =====
-- internal/mqtt/commander.go: from a message to the handler of its attribute.
use echonet_go.Base.{ℕ, Bool, ◌&&◌, ◌||◌, Option, none, some, List, [], ◌∷◌, ◌==◌, if◌then◌else◌}
use echonet_go.Base.Texts.{Text, text, text_eq}
use echonet_go.Cache.{
  Cache, Device, or_else, get_device_eoj, get_device_specs, get_device_climate, get_device_light,
  get_writable_epcs,
}
use echonet_go.Client.{Transport}
use echonet_go.Floats.{Float64}
use echonet_go.Identity.{trim_space, is_empty}
use echonet_go.Protocol.{Eoj}
use echonet_go.Specs.{MetricSpec, find_metric_spec_by_name, climate_handles_epc, light_handles_epc}
use echonet_go.Commander.{Station, when_writable}
use echonet_go.Commander.Handlers.{
  handle_power, handle_climate_mode, handle_climate_temperature, handle_climate_fan_mode,
  handle_light_brightness, handle_light_effect, execute_writable_set,
}

-- `strings.Split(s, "/")`
unfoldable pub cons_first : ℕ → List Text → List Text
cons_first c [] = (c ∷ []) ∷ []
cons_first c (part ∷ parts) = (c ∷ part) ∷ parts

unfoldable pub split : Text → List Text
unfolding cons_first
split [] = [] ∷ []
split (c ∷ s) = let rest = split s in if c == b'/' then [] ∷ rest else cons_first c rest

-- `deviceByName`
unfoldable pub device_by_name : List Device → Text → Option Device
device_by_name [] name = none
device_by_name (dev ∷ devices) name =
    if text_eq dev.name name then some dev else device_by_name devices name

-- A topic `prefix/name/kind/attr/set`, with anything behind: the name and the attribute.
unfoldable pub attribute_of : Text → List Text → Option (Text × Text)
attribute_of kind (prefix ∷ name ∷ kind' ∷ attr ∷ verb ∷ rest) =
    if text_eq kind' kind && text_eq verb (text "set") then some (name, attr) else none
attribute_of kind _ = none

-- A topic `prefix/name/entity/metric/set`: the name, the type of entity and the metric.
unfoldable pub entity_of_topic : List Text → Option (Text × (Text × Text))
entity_of_topic (prefix ∷ name ∷ entity ∷ metric ∷ verb ∷ []) =
    if text_eq verb (text "set")
      && (text_eq entity (text "switch")
          || (text_eq entity (text "select") || text_eq entity (text "number")))
    then some (name, (entity, metric))
    else none
entity_of_topic _ = none

unfoldable pub pair_eoj : Device → Option Eoj → Option (Device × Eoj)
pair_eoj dev none = none
pair_eoj dev (some eoj) = some (dev, eoj)

module _ {F : Type 0} where
  unfoldable pub with_eoj : Cache F → Option Device → Option (Device × Eoj)
  unfolding pair_eoj
  with_eoj c none = none
  with_eoj c (some dev) = pair_eoj dev (get_device_eoj c dev)

  -- The device that a message is for, and its object.
  unfoldable pub addressed : Cache F → List Device → Text → Option (Device × Eoj)
  unfolding with_eoj
  addressed c devices name = with_eoj c (device_by_name devices name)

module _ (fl : Float64) (tr : Transport) (healing : Bool) (devices : List Device) (now : ℕ)
    (c : Cache fl.F) where
  open fl use {F}
  open tr use {W}

  -- The `switch attr` of `handleClimateMessage`.
  unfoldable pub climate_attribute : Text → Text → Option (Device × Eoj) → Station W → Station W
  climate_attribute attr payload none st = st
  climate_attribute attr payload (some (dev, eoj)) st =
      let specs = or_else (get_device_specs c dev) [] in
      let climate = get_device_climate c dev in
      let writable = get_writable_epcs c dev in
      if text_eq attr (text "mode")
      then handle_climate_mode fl tr healing dev eoj writable payload climate specs st
      else if text_eq attr (text "temperature")
      then handle_climate_temperature fl tr healing dev eoj writable now c payload climate specs st
      else if text_eq attr (text "fan_mode")
      then handle_climate_fan_mode fl tr healing dev eoj writable payload climate specs st
      else if text_eq attr (text "power")
      then handle_power fl tr healing dev eoj writable payload st
      else st

  -- The `switch attr` of `handleLightMessage`.
  unfoldable pub light_attribute : Text → Text → Option (Device × Eoj) → Station W → Station W
  light_attribute attr payload none st = st
  light_attribute attr payload (some (dev, eoj)) st =
      let specs = or_else (get_device_specs c dev) [] in
      let light = get_device_light c dev in
      let writable = get_writable_epcs c dev in
      if text_eq attr (text "power")
      then handle_power fl tr healing dev eoj writable payload st
      else if text_eq attr (text "brightness")
      then handle_light_brightness fl tr healing dev eoj writable payload light specs st
      else if text_eq attr (text "effect")
      then handle_light_effect fl tr healing dev eoj writable payload light specs st
      else st

  unfoldable pub to_attribute :
      (Text → Text → Option (Device × Eoj) → Station W → Station W)
      → Text
      → Option (Text × Text)
      → Station W
      → Station W
  to_attribute handle payload none st = st
  to_attribute handle payload (some (name, attr)) st =
      handle attr payload (addressed c devices name) st

  -- `handleClimateMessage`
  unfoldable pub handle_climate_message : Text → Text → Station W → Station W
  unfolding climate_attribute to_attribute
  handle_climate_message topic raw st =
      let payload = trim_space raw in
      if is_empty payload
      then st
      else to_attribute climate_attribute payload (attribute_of (text "climate") (split topic)) st

  -- `handleLightMessage`
  unfoldable pub handle_light_message : Text → Text → Station W → Station W
  unfolding light_attribute to_attribute
  handle_light_message topic raw st =
      let payload = trim_space raw in
      if is_empty payload
      then st
      else to_attribute light_attribute payload (attribute_of (text "light") (split topic)) st

  -- The guards behind `checkWritable`: the climate, the light, and metrics that are not to be set.
  unfoldable pub set_allowed :
      Device → Eoj → MetricSpec F → List (MetricSpec F) → Text → Text → Station W → Station W
  set_allowed dev eoj ms specs entity payload st =
      if climate_handles_epc (get_device_climate c dev) ms.epc
        || (light_handles_epc (get_device_light c dev) ms.epc || ms.exclude_set)
      then st
      else execute_writable_set fl tr healing dev eoj (get_writable_epcs c dev) ms specs entity
          payload st

  unfoldable pub to_metric :
      Device
      → Eoj
      → Text
      → Text
      → List (MetricSpec F)
      → Option (MetricSpec F)
      → Station W
      → Station W
  unfolding set_allowed
  to_metric dev eoj entity payload specs none st = st
  to_metric dev eoj entity payload specs (some ms) st =
      when_writable healing dev eoj ms.epc (get_writable_epcs c dev)
        (set_allowed dev eoj ms specs entity payload) st

  unfoldable pub with_specs :
      Device → Eoj → Text → Text → Text → Option (List (MetricSpec F)) → Station W → Station W
  unfolding to_metric
  with_specs dev eoj entity metric payload none st = st
  with_specs dev eoj entity metric payload (some specs) st =
      to_metric dev eoj entity payload specs (find_metric_spec_by_name specs metric) st

  unfoldable pub to_device : Text → Text → Text → Option (Device × Eoj) → Station W → Station W
  unfolding with_specs
  to_device entity metric payload none st = st
  to_device entity metric payload (some (dev, eoj)) st =
      with_specs dev eoj entity metric payload (get_device_specs c dev) st

  unfoldable pub to_entity : Text → Option (Text × (Text × Text)) → Station W → Station W
  unfolding to_device
  to_entity payload none st = st
  to_entity payload (some (name, (entity, metric))) st =
      to_device entity metric payload (addressed c devices name) st

  -- `handleWritableMessage`
  unfoldable pub handle_writable_message : Text → Text → Station W → Station W
  unfolding to_entity
  handle_writable_message topic raw st =
      let payload = trim_space raw in
      if is_empty payload then st else to_entity payload (entity_of_topic (split topic)) st
