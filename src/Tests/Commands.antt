-- ===== src/Tests/Commands.antt =====
-- internal/mqtt/commander.go and discovery.go: commands for an air conditioner with a buzzer.
use echonet_go.Base.{◌⊎◌, inl}
use echonet_go.Base.{
  ℕ, ◌≡◌, ◌≤◌, ◌+◌, ◌*◌, refl, Bool, true, some, List, [], ◌∷◌, arith, All, length, ok,
}
use echonet_go.Base.Int.{ℤ, pos}
use echonet_go.Base.Maps.{has, lookup, insert, text_key}
use echonet_go.Base.Texts.{Text, text, text_eq}
use echonet_go.Cache.{
  Cache, new_cache, device_key, set_device_eoj, set_device_specs, set_writable_epcs,
  get_device_climate, get_device_light,
}
use echonet_go.Client.{send_get, get_props, missing_epcs, after_reply, usable_props, refused}
use echonet_go.Commander.{Station}
use echonet_go.Commander.Handlers.{execute_writable_set}
use echonet_go.Commander.Outcome.{
  Confirms, third_read, verify_state_update-sent, verify_state_update-Stored,
}
use echonet_go.Commander.Routing.{
  attribute_of, split, device_by_name, handle_climate_message, handle_light_message,
  handle_writable_message,
}
use echonet_go.Commander.Safety.{
  Permitted, PermittedOrPreSet, Followed, handle_messages-Permitted, handle_messages-Followed,
  handle_writable_message-Permitted,
}
use echonet_go.Cache.{device_key}
use echonet_go.Base.Maps.{insert}
use echonet_go.Commander.Stored.{held, or_old}
use echonet_go.Readings.{reading}
use echonet_go.Commander.Topics.{HasNoSlash}
use echonet_go.Commander.Verify.{verify_state_update, codes}
use echonet_go.Discovery.Commanded.{is_plain, plain-HasNoSlash}
use echonet_go.Discovery.Entities.{entity_payload, climate_payload}
use echonet_go.Discovery.Routes.{handle_writable_message-announced}
use echonet_go.Floats.{whole_floats}
use echonet_go.Identity.{trim_space}
use echonet_go.Protocol.{Property, get_request, parse_get_res, parse_frame, is_get_sna}
use echonet_go.Publisher.{HaDevice, ClimatePayload, Printer}
use echonet_go.Publisher.States.{own_entity}
use echonet_go.Specs.{
  MetricSpec, ClimateSpec, LightSpec, writable_entity_type, find_metric_spec_by_name,
  climate_handles_epc, light_handles_epc,
}
use echonet_go.Tests.Caches.{living_ac, ac_object}
use echonet_go.Tests.Metrics.{temperature}
use echonet_go.Tests.Polls.{dead}
use echonet_go.Tests.Requests.{terse_meter, counts, meter}

abbrev buzzer : MetricSpec ℤ
buzzer = record temperature {
  epc = 0xD0;
  name = text "buzzer";
  enum = (pos 0x41, text "on") ∷ (pos 0x42, text "off") ∷ [];
  reverse_enum = (text "on", pos 0x41) ∷ (text "off", pos 0x42) ∷ [];
}

abbrev house : Cache ℤ
house =
    set_writable_epcs living_ac (0x80 ∷ 0xD0 ∷ [])
      (set_device_specs living_ac (buzzer ∷ []) (set_device_eoj living_ac ac_object new_cache))

abbrev idle : Station ℕ
idle = record { world = 0; effects = [] }

abbrev power_topic : Text
power_topic = text "echonetgo/living/climate/power/set"

handle_messages-Permitted_example :
    All
      (Permitted house)
      (handle_climate_message whole_floats dead true
        (living_ac ∷ [])
        10
        house
        power_topic
        (text "ON")
        idle).effects
    × All
        (Permitted house)
        (handle_light_message whole_floats dead true
          (living_ac ∷ [])
          10
          house
          power_topic
          (text "ON")
          idle).effects
handle_messages-Permitted_example =
    handle_messages-Permitted whole_floats dead true (living_ac ∷ []) 10 house power_topic
      (text "ON") idle tt

handle_messages-Followed_example :
    Followed
      (handle_climate_message whole_floats dead true
        (living_ac ∷ [])
        10
        house
        power_topic
        (text "ON")
        idle).effects
    × Followed
        (handle_light_message whole_floats dead true
          (living_ac ∷ [])
          10
          house
          power_topic
          (text "ON")
          idle).effects
unfolding attribute_of split text_eq
handle_messages-Followed_example =
    handle_messages-Followed whole_floats dead true (living_ac ∷ []) 10 house power_topic
      (text "ON") idle (λ name e. cc) tt

handle_writable_message-Permitted_example :
    All
      (PermittedOrPreSet house)
      (handle_writable_message whole_floats dead true
        (living_ac ∷ [])
        10
        house
        (text "echonetgo/living/switch/buzzer/set")
        (text "on")
        idle).effects
handle_writable_message-Permitted_example =
    handle_writable_message-Permitted whole_floats dead true (living_ac ∷ []) 10 house
      (text "echonetgo/living/switch/buzzer/set") (text "on") idle tt

abbrev always : ℕ → ℕ → Bool × ℕ
always delay w = (true, w)

abbrev quiet : ℕ → Cache ℤ → Cache ℤ
quiet w c = c

verify_state_update-sent_example :
    (verify_state_update whole_floats terse_meter always quiet living_ac meter
      ((0x80, 0x30 ∷ []) ∷ [])
      house
      0).1
    ≤ 0 + 6 * length (codes ((0x80, 0x30 ∷ []) ∷ []))
verify_state_update-sent_example =
    verify_state_update-sent whole_floats terse_meter always quiet living_ac meter
      ((0x80, 0x30 ∷ []) ∷ []) (λ w. w) counts (λ d w. refl) (omega arith) house 0

-- The meter answers a read of one code.
meter_answers :
    (w : ℕ)
    → (props : List Property) × ((get_props terse_meter living_ac.ip meter (0xD0 ∷ []) w).0
        ≡ ok props)
unfolding get_props send_get get_request parse_get_res parse_frame usable_props refused has
    is_get_sna missing_epcs after_reply
meter_answers w = (_, refl)

verify_state_update-Stored_example :
    (asked : ℕ) × (props : List Property) × (ended : ℕ) × (get_props terse_meter living_ac.ip meter
        (0xD0 ∷ [])
        asked
      ≡ (ok props, ended))
    × (Confirms whole_floats terse_meter always quiet living_ac meter
          ((0xD0, 7 ∷ []) ∷ [])
          props
          ((0xD0, 7 ∷ []) ∷ [])
        ⊎ (asked
            ≡ third_read whole_floats terse_meter always quiet living_ac meter
                ((0xD0, 7 ∷ []) ∷ [])
                0))
    × (held whole_floats living_ac buzzer.name
          (verify_state_update whole_floats terse_meter always quiet living_ac meter
            ((0xD0, 7 ∷ []) ∷ [])
            house
            0).0
        ≡ or_old
            (reading whole_floats props buzzer)
            (held whole_floats living_ac buzzer.name house))
unfolding insert text_eq device_key
verify_state_update-Stored_example =
    verify_state_update-Stored whole_floats terse_meter always quiet living_ac meter
      ((0xD0, 7 ∷ []) ∷ []) (λ d w. refl) meter_answers (buzzer ∷ []) buzzer house 0
      (λ w.
        unfold lookup in
        unfold set_device_eoj in unfold set_device_specs in unfold set_writable_epcs in refl)
      (refl, tt) (inl refl) (unfold has in refl)

abbrev printer : Printer ℤ
printer = record { whole = λ v. []; shortest = λ v. []; title = λ t. t }

abbrev ha_device : HaDevice
ha_device = record {
  identifiers = [];
  name = [];
  manufacturer = [];
  model = [];
  sw_version = [];
  via_device = [];
}

abbrev buzzer_entity : Text
buzzer_entity =
    own_entity whole_floats printer (text "echonetgo") (0x80 ∷ 0xD0 ∷ [])
      (get_device_climate house living_ac) (get_device_light house living_ac) buzzer

echonetgo_plain : HasNoSlash (text "echonetgo")
unfolding is_plain
echonetgo_plain = plain-HasNoSlash (text "echonetgo") refl

living_plain : HasNoSlash (text "living")
unfolding is_plain
living_plain = plain-HasNoSlash (text "living") refl

buzzer_plain : HasNoSlash (text "buzzer")
unfolding is_plain
buzzer_plain = plain-HasNoSlash (text "buzzer") refl

handle_writable_message-announced_example :
    handle_writable_message whole_floats dead true
      (living_ac ∷ [])
      10
      house
      (entity_payload whole_floats printer
        (text "echonetgo")
        (text "homeassistant")
        living_ac
        ha_device
        []
        buzzer
        buzzer_entity).command_topic
      (text "on")
      idle
    ≡ execute_writable_set whole_floats dead true living_ac ac_object
        (some (0x80 ∷ 0xD0 ∷ []))
        buzzer
        (buzzer ∷ [])
        buzzer_entity
        (trim_space (text "on"))
        idle
unfolding device_by_name text_eq lookup device_key insert find_metric_spec_by_name own_entity
    writable_entity_type has trim_space climate_handles_epc light_handles_epc set_device_eoj
    set_device_specs set_writable_epcs
handle_writable_message-announced_example =
    handle_writable_message-announced whole_floats dead true (living_ac ∷ []) 10 house printer
      (text "echonetgo") (text "homeassistant") living_ac ac_object ha_device [] buzzer
      (buzzer ∷ []) (0x80 ∷ 0xD0 ∷ []) (text "on") idle echonetgo_plain living_plain buzzer_plain
      refl refl refl refl refl refl refl

abbrev split_unit : ClimateSpec ℤ
split_unit = record {
  mode_epc = 0xB0;
  temperature_epc = 0xB3;
  current_temperature_epc = 0xBB;
  fan_mode_epc = 0xA0;
  min_temp = pos 16;
  max_temp = pos 30;
  temp_step = pos 1;
  modes = (text "cool", some (pos 0x42)) ∷ [];
  fan_modes = [];
}

abbrev lamp : LightSpec
lamp = record {
  brightness_epc = 0xB0;
  color_setting_epc = 0;
  color_settings = [];
  scene_epc = 0xC0;
  max_scenes = pos 12;
}

abbrev panel : ClimatePayload ℤ
panel =
    climate_payload whole_floats printer (text "echonetgo") (text "homeassistant") living_ac
      ha_device [] split_unit (buzzer ∷ [])
