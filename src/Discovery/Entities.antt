-- ===== src/Discovery/Entities.antt =====
-- internal/mqtt/discovery.go: the payloads of the entities.
use echonet_go.Base.{
  Bool, true, not, ◌&&◌, ◌||◌, Option, none, some, List, [], ◌∷◌, ◌++◌, ◌==◌, if◌then◌else◌, ltb,
  length, is_some, map,
}
use echonet_go.Base.Int.{pos}
use echonet_go.Base.Maps.{ByteSet, lookup, text_key}
use echonet_go.Base.Texts.{Text, text, text_eq}
use echonet_go.Cache.{Device, or_else}
use echonet_go.Commander.Topics.{join}
use echonet_go.Discovery.{expire_after_for, friendly_name, slowest_metric_interval}
use echonet_go.Discovery.Options.{
  climate_modes_list, select_options, fan_modes_from_spec, effect_list,
}
use echonet_go.Floats.{Float64, zero_float, one_float}
use echonet_go.Identity.{is_empty}
use echonet_go.Publisher.{
  HaDevice, SensorPayload, ClimatePayload, LightPayload, EntityPayload, Body, climate_config,
  light_config, switch_config, select_config, number_config, Message, Printer,
}
use echonet_go.Publisher.States.{base_of, state_topic, own_entity}
use echonet_go.Readings.{Readings}
use echonet_go.Specs.{MetricSpec, ClimateSpec, LightSpec}

module _ (fl : Float64) (pr : Printer fl.F) (topic_prefix discovery_prefix : Text) where
  open fl use {F, of_int, eq}
  open pr use {title}

  abbrev pub set_topic : Text → Text → Text
  set_topic base attr = join (base ∷ attr ∷ text "set" ∷ [])

  -- `dev.Name + "_" + ms.Name`
  abbrev pub object_id : Device → MetricSpec F → Text
  object_id dev ms = dev.name ++ (b'_' ∷ ms.name)

  -- `fmt.Sprintf("%s/%s/%s/config", p.discoveryPrefix, entityType, objectID)`
  abbrev pub config_topic : Text → Text → Text
  config_topic kind object = join (discovery_prefix ∷ kind ∷ object ∷ text "config" ∷ [])

  is_class : MetricSpec F → Text → Bool
  is_class ms kind = text_eq ms.ha_device_class kind

  -- `buildSensorPayload`
  unfoldable pub build_sensor_payload : MetricSpec F → Text → Text → Text → HaDevice → SensorPayload
  unfolding is_class
  build_sensor_payload ms object state avail device =
      let enumerated = is_class ms (text "enum") && ltb 0 (length ms.enum) in
      record {
        name = friendly_name title ms.name;
        unique_id = text "echonetgo_" ++ object;
        state_topic = state;
        value_template =
            if enumerated
            then text "{{ value_json."
              ++ (ms.name
                  ++ (text "_str | default(value_json."
                      ++ (ms.name ++ text " | default(None)) }}")))
            else text "{{ value_json." ++ (ms.name ++ text " | default(None) }}");
        device_class =
            if enumerated
            then text "enum"
            else if is_class ms (text "enum")
            then []
            else ms.ha_device_class;
        state_class = if enumerated then [] else ms.ha_state_class;
        unit_of_measurement = if enumerated then [] else ms.ha_unit;
        options = if enumerated then map (λ e. e.1) ms.enum else [];
        availability_topic = avail;
        expire_after = expire_after_for fl ms.scrape_interval;
        force_update = true;
        suggested_display_precision =
            if is_class ms (text "power")
              || (is_class ms (text "energy") || is_class ms (text "temperature"))
            then some 1
            else none;
        device = device;
      }

  -- `payload.FanModes`, with its default.
  unfoldable pub shown_fan_modes : List (MetricSpec F) → ClimateSpec F → List Text
  shown_fan_modes specs cl =
      let modes = fan_modes_from_spec specs cl in
      if cl.fan_mode_epc == 0
      then []
      else if length modes == 0
      then text "auto" ∷ text "low" ∷ text "medium" ∷ text "high" ∷ []
      else modes

  -- The payload of `publishClimateDiscovery`.
  unfoldable pub climate_payload :
      Device → HaDevice → Text → ClimateSpec F → List (MetricSpec F) → ClimatePayload F
  unfolding shown_fan_modes
  climate_payload dev device avail cl specs =
      let base = base_of fl pr topic_prefix dev (text "climate") in
      record {
        name = friendly_name title dev.name;
        unique_id = text "echonetgo_" ++ (dev.name ++ text "_climate");
        mode_command_topic = set_topic base (text "mode");
        mode_state_topic = state_topic fl pr topic_prefix base (text "mode");
        temperature_command_topic = set_topic base (text "temperature");
        temperature_state_topic = state_topic fl pr topic_prefix base (text "temperature");
        current_temperature_topic = join (base ∷ text "current_temperature" ∷ []);
        power_command_topic = set_topic base (text "power");
        fan_mode_command_topic =
            if cl.fan_mode_epc == 0 then [] else set_topic base (text "fan_mode");
        fan_mode_state_topic =
            if cl.fan_mode_epc == 0
            then []
            else state_topic fl pr topic_prefix base (text "fan_mode");
        min_temp = cl.min_temp;
        max_temp = cl.max_temp;
        temp_step = cl.temp_step;
        availability_topic = avail;
        expire_after = expire_after_for fl (
            slowest_metric_interval specs (
              0x80 ∷ cl.mode_epc ∷ cl.temperature_epc ∷ cl.current_temperature_epc ∷ cl.fan_mode_epc
              ∷ []));
        device = device;
        modes = climate_modes_list cl.modes;
        fan_modes = shown_fan_modes specs cl;
      }

  -- `publishClimateDiscovery`
  unfoldable pub publish_climate_discovery :
      Device → HaDevice → Text → ClimateSpec F → List (MetricSpec F) → List (Message F)
  unfolding climate_payload
  publish_climate_discovery dev device avail cl specs =
      record {
        topic = config_topic (text "climate") (dev.name ++ text "_climate");
        retained = true;
        body = climate_config (climate_payload dev device avail cl specs);
      }
      ∷ []

  -- The payload of `publishLightDiscovery`; the topics of the effects stand where there are some to show.
  unfoldable pub light_payload :
      Device → HaDevice → Text → LightSpec → List (MetricSpec F) → LightPayload
  light_payload dev device avail light specs =
      let base = base_of fl pr topic_prefix dev (text "light") in
      let effects = effect_list light in
      let dimmed = not (light.brightness_epc == 0) in
      let no_effect = length effects == 0 in
      record {
        name = friendly_name title dev.name;
        unique_id = text "echonetgo_" ++ (dev.name ++ text "_light");
        command_topic = set_topic base (text "power");
        state_topic = state_topic fl pr topic_prefix base (text "power");
        brightness_command_topic = if dimmed then set_topic base (text "brightness") else [];
        brightness_state_topic =
            if dimmed then state_topic fl pr topic_prefix base (text "brightness") else [];
        brightness_scale = if dimmed then 100 else 0;
        effect_command_topic = if no_effect then [] else set_topic base (text "effect");
        effect_state_topic =
            if no_effect then [] else state_topic fl pr topic_prefix base (text "effect");
        effect_list = effects;
        availability_topic = avail;
        expire_after = expire_after_for fl (
            slowest_metric_interval specs
              (0x80 ∷ light.brightness_epc ∷ light.color_setting_epc ∷ light.scene_epc ∷ []));
        device = device;
      }

  -- `publishLightDiscovery`
  unfoldable pub publish_light_discovery :
      Device → HaDevice → Text → LightSpec → List (MetricSpec F) → List (Message F)
  unfolding light_payload
  publish_light_discovery dev device avail light specs =
      record {
        topic = config_topic (text "light") (dev.name ++ text "_light");
        retained = true;
        body = light_config (light_payload dev device avail light specs);
      }
      ∷ []

  unfoldable pub entity_payload : Device → HaDevice → Text → MetricSpec F → Text → EntityPayload
  entity_payload dev device avail ms entity =
      let base = join (topic_prefix ∷ dev.name ∷ entity ∷ ms.name ∷ []) in
      record {
        name = friendly_name title ms.name;
        unique_id = text "echonetgo_" ++ object_id dev ms;
        command_topic = join (base ∷ text "set" ∷ []);
        state_topic = join (base ∷ text "state" ∷ []);
        availability_topic = avail;
        expire_after = expire_after_for fl ms.scrape_interval;
        device = device;
      }

  -- `min`, `max`, `step` and the unit of a number.
  number_body : MetricSpec F → EntityPayload → Body F
  number_body ms payload =
      let highest = of_int (pos (if ms.size == 2 then 65535 else 255)) in
      let step =
        if eq ms.scale (zero_float fl) || eq ms.scale (one_float fl)
        then one_float fl
        else ms.scale in
      number_config payload (or_else ms.number_min (zero_float fl)) (or_else ms.number_max highest)
        step ms.ha_unit

  unfoldable pub entity_body : MetricSpec F → Text → EntityPayload → List (Body F)
  unfolding number_body
  entity_body ms entity payload =
      if text_eq entity (text "switch")
      then switch_config payload ∷ []
      else if text_eq entity (text "select")
      then select_config payload (select_options ms) ∷ []
      else if text_eq entity (text "number")
      then number_body ms payload ∷ []
      else []

  -- The body of the loop of `publishWritableDiscovery`.
  unfoldable pub entity_discovery :
      Device → HaDevice → Text → MetricSpec F → Text → List (Message F)
  unfolding entity_payload entity_body
  entity_discovery dev device avail ms entity =
      map
        (λ b. record { topic = config_topic entity (object_id dev ms); retained = true; body = b })
        (entity_body ms entity (entity_payload dev device avail ms entity))

  -- `publishWritableDiscovery`
  unfoldable pub publish_writable_discovery :
      Device
      → HaDevice
      → Text
      → List (MetricSpec F)
      → ByteSet
      → Option (ClimateSpec F)
      → Option LightSpec
      → Readings F
      → List (Message F)
  unfolding entity_discovery
  publish_writable_discovery dev device avail [] writable climate light metrics = []
  publish_writable_discovery dev device avail (ms ∷ specs) writable climate light metrics =
      let rest = publish_writable_discovery dev device avail specs writable climate light metrics in
      let entity = own_entity fl pr topic_prefix writable climate light ms in
      if not (is_some (lookup ms.name metrics)) || is_empty entity
      then rest
      else entity_discovery dev device avail ms entity ++ rest
