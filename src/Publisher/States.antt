-- ===== src/Publisher/States.antt =====
-- internal/mqtt/publisher.go: the messages that tell the state of a device.
use echonet_go.Base.{
  ℕ, Bool, true, false, not, ◌&&◌, ◌||◌, Option, none, some, List, [], ◌∷◌, ◌++◌, ◌==◌,
  if◌then◌else◌, is_some,
}
use echonet_go.Base.Int.{ℤ, pos, eq_ℤ}
use echonet_go.Base.Maps.{ByteSet, has, lookup, insert, text_key}
use echonet_go.Base.Texts.{Text, text, text_eq}
use echonet_go.Cache.{Device}
use echonet_go.Commander.Topics.{join}
use echonet_go.Floats.{Float64, zero_float, one_float}
use echonet_go.Identity.{is_empty}
use echonet_go.Publisher.{Message, plain, state_object, JsonValue, number, string, Printer}
use echonet_go.Readings.{MetricValue, Readings}
use echonet_go.Specs.{
  MetricSpec, ClimateSpec, LightSpec, metric_name_for_epc, climate_handles_epc, light_handles_epc,
  writable_entity_type, to_lower,
}

module _ (fl : Float64) (pr : Printer fl.F) (topic_prefix : Text) where
  open fl use {F, of_int, to_int, lt, eq}
  open pr use {whole, shortest}

  abbrev pub transient : Text → Text → Message F
  transient topic payload = record { topic = topic; retained = false; body = plain payload }

  -- `fmt.Sprintf("%s/%s/<kind>", p.topicPrefix, dev.Name)`
  abbrev pub base_of : Device → Text → Text
  base_of dev kind = join (topic_prefix ∷ dev.name ∷ kind ∷ [])

  -- The topic `base + "/" + attr + "/state"`.
  abbrev pub state_topic : Text → Text → Text
  state_topic base attr = join (base ∷ attr ∷ text "state" ∷ [])

  -- `publishAvailability`
  unfoldable pub publish_availability : Device → Bool → List (Message F)
  publish_availability dev online =
      record {
        topic = base_of dev (text "availability");
        retained = true;
        body = plain (if online then text "online" else text "offline");
      }
      ∷ []

  -- `metrics[name]`, where the metric has a name.
  unfoldable pub named_value : Readings F → Text → Option (MetricValue F)
  named_value metrics name = if is_empty name then none else lookup name metrics

  -- The label of the first mode with this number.
  unfoldable pub label_of_mode : ℤ → List (Text × Option ℤ) → Text
  label_of_mode raw [] = []
  label_of_mode raw ((label, none) ∷ modes) = label_of_mode raw modes
  label_of_mode raw ((label, some v) ∷ modes) =
      if eq_ℤ v raw then label else label_of_mode raw modes

  is_off : Option (MetricValue F) → Bool
  is_off none = false
  is_off (some mv) = eq_ℤ (to_int mv.value) (pos 0x31)

  mode_label : List (Text × Option ℤ) → Option (MetricValue F) → Text
  mode_label modes none = []
  mode_label modes (some mv) = label_of_mode (to_int mv.value) modes

  -- `modeStr`
  unfoldable pub mode_text : Readings F → List (MetricSpec F) → ClimateSpec F → Text
  unfolding is_off mode_label
  mode_text metrics specs cl =
      if is_off (named_value metrics (metric_name_for_epc specs 0x80))
      then text "off"
      else mode_label cl.modes (named_value metrics (metric_name_for_epc specs cl.mode_epc))

  unfoldable pub publish_text : Text → Text → List (Message F)
  publish_text topic payload = if is_empty payload then [] else transient topic payload ∷ []

  -- A value with no fraction, where the metric has one.
  unfoldable pub publish_whole : Text → Option (MetricValue F) → List (Message F)
  publish_whole topic none = []
  publish_whole topic (some mv) = transient topic (whole mv.value) ∷ []

  -- A label, where the metric has one.
  unfoldable pub publish_label : Text → Option (MetricValue F) → List (Message F)
  unfolding publish_text
  publish_label topic none = []
  publish_label topic (some mv) = publish_text topic mv.enum_label

  -- `publishClimateState`
  unfoldable pub publish_climate_state :
      Device → Readings F → List (MetricSpec F) → ClimateSpec F → List (Message F)
  unfolding mode_text publish_text publish_whole publish_label named_value
  publish_climate_state dev metrics specs cl =
      let base = base_of dev (text "climate") in
      let value = (λ (epc : ℕ). named_value metrics (metric_name_for_epc specs epc)) in
      publish_text (state_topic base (text "mode")) (mode_text metrics specs cl)
      ++ (publish_whole (state_topic base (text "temperature")) (value cl.temperature_epc)
          ++ (publish_whole (join (base ∷ text "current_temperature" ∷ []))
                (value cl.current_temperature_epc)
              ++ (if cl.fan_mode_epc == 0
                  then []
                  else publish_label (state_topic base (text "fan_mode")) (value cl.fan_mode_epc))))

  power_state : Text → Option (MetricValue F) → List (Message F)
  power_state topic none = []
  power_state topic (some mv) =
      transient topic (if eq_ℤ (to_int mv.value) (pos 0x30) then text "ON" else text "OFF") ∷ []

  -- The label of a color, if it is one of the settings.
  color_state : Text → List (Text × ℤ) → Option (MetricValue F) → List (Message F)
  color_state topic settings none = []
  color_state topic settings (some mv) =
      if not (is_empty mv.enum_label) && is_some (lookup mv.enum_label settings)
      then transient topic mv.enum_label ∷ []
      else []

  -- `mv.Value >= 1`
  scene_state : Text → Option (MetricValue F) → List (Message F)
  scene_state topic none = []
  scene_state topic (some mv) =
      if lt (one_float fl) mv.value || eq mv.value (one_float fl)
      then transient topic (text "scene_" ++ whole mv.value) ∷ []
      else []

  -- `publishLightState`
  unfoldable pub publish_light_state :
      Device → Readings F → List (MetricSpec F) → LightSpec → List (Message F)
  unfolding named_value power_state color_state scene_state publish_whole
  publish_light_state dev metrics specs light =
      let base = base_of dev (text "light") in
      let value = (λ (epc : ℕ). named_value metrics (metric_name_for_epc specs epc)) in
      power_state (state_topic base (text "power")) (value 0x80)
      ++ ((if light.brightness_epc == 0
            then []
            else publish_whole (state_topic base (text "brightness")) (value light.brightness_epc))
          ++ (if not (light.color_setting_epc == 0)
              then color_state (state_topic base (text "effect")) light.color_settings
                  (value light.color_setting_epc)
              else if not (light.scene_epc == 0)
              then scene_state (state_topic base (text "effect")) (value light.scene_epc)
              else []))

  below : F → Option F → Bool
  below v none = false
  below v (some bound) = lt v bound

  above : F → Option F → Bool
  above v none = false
  above v (some bound) = lt bound v

  -- `shouldSkipStateUpdate`
  unfoldable pub should_skip_state_update : MetricSpec F → MetricValue F → Bool
  unfolding below above
  should_skip_state_update ms mv = below mv.value ms.number_min || above mv.value ms.number_max

  switch_text : MetricValue F → Text
  switch_text mv =
      if not (is_empty mv.enum_label)
      then (let label = to_lower mv.enum_label in
          if text_eq label (text "on")
          then text "ON"
          else if text_eq label (text "off")
          then text "OFF"
          else mv.enum_label)
      else if eq mv.value (zero_float fl)
      then text "OFF"
      else text "ON"

  -- The payload of an entity, or none where nothing is published.
  unfoldable pub entity_text : Text → MetricValue F → Option Text
  unfolding switch_text
  entity_text entity mv =
      if text_eq entity (text "switch")
      then some (switch_text mv)
      else if text_eq entity (text "select")
      then (if is_empty mv.enum_label then none else some mv.enum_label)
      else if text_eq entity (text "number")
      then some (shortest mv.value)
      else none

  entity_state : Device → MetricSpec F → Text → Option Text → List (Message F)
  entity_state dev ms entity none = []
  entity_state dev ms entity (some payload) =
      transient (join (topic_prefix ∷ dev.name ∷ entity ∷ ms.name ∷ text "state" ∷ [])) payload ∷ []

  writable_value : Device → MetricSpec F → Text → Option (MetricValue F) → List (Message F)
  unfolding should_skip_state_update entity_text entity_state
  writable_value dev ms entity none = []
  writable_value dev ms entity (some mv) =
      if should_skip_state_update ms mv
      then []
      else entity_state dev ms entity (entity_text entity mv)

  -- The entity that a metric of the device is, if it has one of its own.
  unfoldable pub own_entity :
      ByteSet → Option (ClimateSpec F) → Option LightSpec → MetricSpec F → Text
  own_entity writable climate light ms =
      if not (has ms.epc writable)
        || (climate_handles_epc climate ms.epc || light_handles_epc light ms.epc)
      then []
      else writable_entity_type ms

  -- `publishWritableState`
  unfoldable pub publish_writable_state :
      Device
      → Readings F
      → List (MetricSpec F)
      → ByteSet
      → Option (ClimateSpec F)
      → Option LightSpec
      → List (Message F)
  unfolding own_entity writable_value
  publish_writable_state dev metrics [] writable climate light = []
  publish_writable_state dev metrics (ms ∷ specs) writable climate light =
      let rest = publish_writable_state dev metrics specs writable climate light in
      let entity = own_entity writable climate light ms in
      if is_empty entity
      then rest
      else writable_value dev ms entity (lookup ms.name metrics) ++ rest

  with_label : Text → Text → List (Text × JsonValue F) → List (Text × JsonValue F)
  with_label name label fields =
      if is_empty label then fields else insert (name ++ text "_str") (string label) fields

  -- The loop of `publishState`, from the fields that are there.
  unfoldable pub add_fields : Readings F → List (Text × JsonValue F) → List (Text × JsonValue F)
  unfolding with_label
  add_fields [] fields = fields
  add_fields ((name, mv) ∷ metrics) fields =
      add_fields metrics (with_label name mv.enum_label (insert name (number mv.value) fields))

  -- `publishState`; `marshals` tells whether `json.Marshal` takes the object.
  unfoldable pub publish_state :
      (List (Text × JsonValue F) → Bool) → Device → Readings F → List (Message F)
  unfolding add_fields
  publish_state marshals dev metrics =
      let fields = add_fields metrics [] in
      if marshals fields
      then record {
        topic = base_of dev (text "state");
        retained = false;
        body = state_object fields;
      }
        ∷ []
      else []
