-- ===== src/Specs.antt =====
-- internal/specs/types.go: device specifications, and what is looked up in them. An `EPC` is a byte,
-- a `time.Duration` a number of nanoseconds; a nil pointer is `none`.
use echonet_go.Base.{
  ℕ, Bool, true, false, not, ◌&&◌, ◌||◌, Option, none, some, List, [], ◌∷◌, ltb, ◌==◌,
  if◌then◌else◌, length, leb, ◌+◌, ◌-◌, map,
}
use echonet_go.Base.Int.{ℤ}
use echonet_go.Base.Texts.{Text, text, text_eq}
use echonet_go.Protocol.{Eoj}

-- `MetricSpec`, over the type of floats.
pub record MetricSpec (F : Type 0) : Type 0 where
  pub epc : ℕ
  pub name : Text
  pub help : Text
  pub size : ℕ
  pub offset : ℕ
  pub scale : F
  pub signed : Bool
  pub invalid : Option ℤ
  pub kind : Text
  pub enum : List (ℤ × Text)
  pub reverse_enum : List (Text × ℤ)
  pub scrape_interval : ℕ
  pub multiplier_epc : ℕ
  pub multiplier_map : List (ℤ × F)
  pub ha_device_class : Text
  pub ha_state_class : Text
  pub ha_unit : Text
  pub number_min : Option F
  pub number_max : Option F
  pub pre_set_epc : ℕ
  pub pre_set_value : ℤ
  pub exclude_set : Bool
  pub set_mode : Text

-- `ClimateSpec`
pub record ClimateSpec (F : Type 0) : Type 0 where
  pub mode_epc : ℕ
  pub temperature_epc : ℕ
  pub current_temperature_epc : ℕ
  pub fan_mode_epc : ℕ
  pub min_temp : F
  pub max_temp : F
  pub temp_step : F
  pub modes : List (Text × Option ℤ)
  pub fan_modes : List Text

-- `LightSpec`
pub record LightSpec : Type 0 where
  pub brightness_epc : ℕ
  pub color_setting_epc : ℕ
  pub color_settings : List (Text × ℤ)
  pub scene_epc : ℕ
  pub max_scenes : ℤ

-- `DeviceSpec`
pub record DeviceSpec (F : Type 0) : Type 0 where
  pub eoj : Eoj
  pub description : Text
  pub default_scrape_interval : ℕ
  pub metrics : List (MetricSpec F)
  pub climate : Option (ClimateSpec F)
  pub light : Option LightSpec

-- `strings.ToLower` and `strings.ToUpper`, on ASCII text.
abbrev pub lower_byte : ℕ → ℕ
lower_byte c = if leb b'A' c && leb c b'Z' then c + 32 else c

abbrev pub to_lower : Text → Text
to_lower = map lower_byte

abbrev pub upper_byte : ℕ → ℕ
upper_byte c = if leb b'a' c && leb c b'z' then c - 32 else c

abbrev pub to_upper : Text → Text
to_upper = map upper_byte

-- The loop over the labels of an enumeration: is there one that reads `label`?
unfoldable pub has_label : Text → List (ℤ × Text) → Bool
has_label label [] = false
has_label label ((v, l) ∷ enum) = text_eq (to_lower l) label || has_label label enum

module _ {F : Type 0} where
  -- `(*ClimateSpec).HandlesEPC`
  unfoldable pub climate_handles_epc : Option (ClimateSpec F) → ℕ → Bool
  climate_handles_epc none epc = false
  climate_handles_epc (some c) epc =
      if epc == 0x80
      then true
      else epc == c.mode_epc
        || epc == c.temperature_epc
        || epc == c.current_temperature_epc
        || (not (c.fan_mode_epc == 0) && epc == c.fan_mode_epc)

  find_by_epc : List (MetricSpec F) → ℕ → Option (MetricSpec F)
  find_by_epc [] epc = none
  find_by_epc (m ∷ ms) epc = if m.epc == epc then some m else find_by_epc ms epc

  -- `FindMetricSpecByEPC`
  unfoldable pub find_metric_spec_by_epc : List (MetricSpec F) → ℕ → Option (MetricSpec F)
  unfolding find_by_epc
  find_metric_spec_by_epc ms epc = if epc == 0 then none else find_by_epc ms epc

  find_by_name : List (MetricSpec F) → Text → Option (MetricSpec F)
  find_by_name [] name = none
  find_by_name (m ∷ ms) name = if text_eq m.name name then some m else find_by_name ms name

  -- `FindMetricSpecByName`
  unfoldable pub find_metric_spec_by_name : List (MetricSpec F) → Text → Option (MetricSpec F)
  unfolding find_by_name
  find_metric_spec_by_name ms name = if text_eq name [] then none else find_by_name ms name

  name_of : Option (MetricSpec F) → Text
  name_of none = []
  name_of (some m) = m.name

  -- `MetricNameForEPC`
  unfoldable pub metric_name_for_epc : List (MetricSpec F) → ℕ → Text
  unfolding name_of
  metric_name_for_epc ms epc = name_of (find_metric_spec_by_epc ms epc)

  -- `WritableEntityType`
  unfoldable pub writable_entity_type : MetricSpec F → Text
  unfolding has_label
  writable_entity_type m =
      if m.exclude_set
      then []
      else if length m.enum == 2
      then (if has_label (text "on") m.enum && has_label (text "off") m.enum
          then text "switch"
          else text "select")
      else if ltb 2 (length m.enum)
      then text "select"
      else if length m.enum == 0
      then text "number"
      else []

-- `(*LightSpec).HandlesEPC`
unfoldable pub light_handles_epc : Option LightSpec → ℕ → Bool
light_handles_epc none epc = false
light_handles_epc (some l) epc =
    if epc == 0x80
    then true
    else (not (l.brightness_epc == 0) && epc == l.brightness_epc)
      || (not (l.color_setting_epc == 0) && epc == l.color_setting_epc)
      || (not (l.scene_epc == 0) && epc == l.scene_epc)
