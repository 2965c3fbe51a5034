-- ===== src/Publisher.antt =====
-- internal/mqtt/publisher.go and internal/mqtt/discovery.go: the messages that go to the broker. A
-- function gives the messages that it publishes, in order; the broker's tokens only lead to log lines
-- and are left out. The value that is passed to `json.Marshal` stands for its text.
pub mod States
pub mod Queue
pub mod Coalescing
pub mod Wakeups
use echonet_go.Base.{ℕ, Bool, Option, List}
use echonet_go.Base.Int.{ℤ}
use echonet_go.Base.Texts.{Text}

-- `haDevice`
pub record HaDevice : Type 0 where
  pub identifiers : List Text
  pub name : Text
  pub manufacturer : Text
  pub model : Text
  pub sw_version : Text
  pub via_device : Text

-- `haDiscoveryPayload`
pub record SensorPayload : Type 0 where
  pub name : Text
  pub unique_id : Text
  pub state_topic : Text
  pub value_template : Text
  pub device_class : Text
  pub state_class : Text
  pub unit_of_measurement : Text
  pub options : List Text
  pub availability_topic : Text
  pub expire_after : ℤ
  pub force_update : Bool
  pub suggested_display_precision : Option ℕ
  pub device : HaDevice

-- `haClimateDiscoveryPayload`; `precision` is left out, it is 1.
pub record ClimatePayload (F : Type 0) : Type 0 where
  pub name : Text
  pub unique_id : Text
  pub mode_command_topic : Text
  pub mode_state_topic : Text
  pub temperature_command_topic : Text
  pub temperature_state_topic : Text
  pub current_temperature_topic : Text
  pub power_command_topic : Text
  pub fan_mode_command_topic : Text
  pub fan_mode_state_topic : Text
  pub min_temp : F
  pub max_temp : F
  pub temp_step : F
  pub availability_topic : Text
  pub expire_after : ℤ
  pub device : HaDevice
  pub modes : List Text
  pub fan_modes : List Text

-- `haLightDiscoveryPayload`
pub record LightPayload : Type 0 where
  pub name : Text
  pub unique_id : Text
  pub command_topic : Text
  pub state_topic : Text
  pub brightness_command_topic : Text
  pub brightness_state_topic : Text
  pub brightness_scale : ℕ
  pub effect_command_topic : Text
  pub effect_state_topic : Text
  pub effect_list : List Text
  pub availability_topic : Text
  pub expire_after : ℤ
  pub device : HaDevice

-- What the maps of the switches, selects and numbers have in common.
pub record EntityPayload : Type 0 where
  pub name : Text
  pub unique_id : Text
  pub command_topic : Text
  pub state_topic : Text
  pub availability_topic : Text
  pub expire_after : ℤ
  pub device : HaDevice

-- A value of the state's JSON object.
pub data JsonValue (F : Type 0) : Type 0 where
  number : F → JsonValue F
  string : Text → JsonValue F

pub data Body (F : Type 0) : Type 0 where
  plain : Text → Body F
  state_object : List (Text × JsonValue F) → Body F
  sensor_config : SensorPayload → Body F
  climate_config : ClimatePayload F → Body F
  light_config : LightPayload → Body F
  switch_config : EntityPayload → Body F
  select_config : EntityPayload → List Text → Body F
  -- `min`, `max`, `step` and the unit
  number_config : EntityPayload → F → F → F → Text → Body F

-- One call of `Publish`.
pub record Message (F : Type 0) : Type 0 where
  pub topic : Text
  pub retained : Bool
  pub body : Body F

-- What the publisher uses of package fmt and strconv: `%.0f` and `FormatFloat(v, 'f', -1, 64)`; and of
-- golang.org/x/text/cases: the title case.
pub record Printer (F : Type 0) : Type 0 where
  pub whole : F → Text
  pub shortest : F → Text
  pub title : Text → Text
