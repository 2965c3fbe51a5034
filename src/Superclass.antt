-- ===== src/Superclass.antt =====
-- internal/specs/superclass.go and loader.go: the metrics that every class has, and the entries of a
-- climate and of a light.
pub mod Merging
pub mod Loading
pub mod Parsed
pub mod Loaded
use echonet_go.Base.{
  ℕ, ◌*◌, Bool, true, false, not, ◌&&◌, ◌||◌, Option, none, some, List, [], ◌∷◌, ◌++◌, ltb, ◌==◌,
  if◌then◌else◌, length, map, Result, ok, err,
}
use echonet_go.Base.Int.{ℤ, pos, pos_part, ltb_ℤ, eq_ℤ}
use echonet_go.Base.Maps.{has, insert_all, text_key}
use echonet_go.Base.Texts.{Text, text}
use echonet_go.Floats.{Float64, zero_float, one_float}
use echonet_go.Identity.{is_empty}
use echonet_go.Loader.{
  LoadError, unless, no_byte, infer_ha_metadata, bad_epc, bad_bounds, bad_step, no_modes,
  no_brightness, no_color_settings, bad_scenes,
}
use echonet_go.Specs.{MetricSpec, ClimateSpec, LightSpec, DeviceSpec}

-- `climateYAML`
pub record ClimateYaml (F : Type 0) : Type 0 where
  pub mode_epc : ℤ
  pub temperature_epc : ℤ
  pub current_temperature_epc : ℤ
  pub fan_mode_epc : ℤ
  pub min_temp : F
  pub max_temp : F
  pub temp_step : F
  pub modes : List (Text × Option ℤ)
  pub fan_modes : List Text

-- `lightYAML`
pub record LightYaml : Type 0 where
  pub brightness_epc : ℤ
  pub color_setting_epc : ℤ
  pub color_settings : List (Text × ℤ)
  pub scene_epc : ℤ
  pub max_scenes : ℤ

-- `parseLightYAML`, of an entry that is there.
unfoldable pub parse_light_yaml : LightYaml → Result LoadError LightSpec
parse_light_yaml raw = unless (no_byte raw.brightness_epc) bad_epc (
    unless (eq_ℤ raw.brightness_epc (pos 0)) no_brightness (
      unless (no_byte raw.color_setting_epc) bad_epc (
        unless (not (eq_ℤ raw.color_setting_epc (pos 0)) && length raw.color_settings == 0)
          no_color_settings
          (unless (no_byte raw.scene_epc) bad_epc (
            unless (not (eq_ℤ raw.scene_epc (pos 0)) && not (ltb_ℤ (pos 0) raw.max_scenes))
              bad_scenes
              (ok (record {
                brightness_epc = pos_part raw.brightness_epc;
                color_setting_epc = pos_part raw.color_setting_epc;
                color_settings = raw.color_settings;
                scene_epc = pos_part raw.scene_epc;
                max_scenes = raw.max_scenes;
              })))))))

-- Ten minutes and one minute, in nanoseconds.
abbrev pub ten_minutes : ℕ
ten_minutes = 600000000000

abbrev pub default_scrape_interval : ℕ
default_scrape_interval = 60000000000

abbrev pub op_enum : List (ℤ × Text)
op_enum = (pos 0x30, text "on") ∷ (pos 0x31, text "off") ∷ []

abbrev pub fault_enum : List (ℤ × Text)
fault_enum = (pos 0x41, text "fault") ∷ (pos 0x42, text "no_fault") ∷ []

abbrev pub location_enum : List (ℤ × Text)
location_enum =
    (pos 0x00, text "not_specified")
    ∷ (pos 0x08, text "living_room")
    ∷ (pos 0x10, text "dining_room")
    ∷ (pos 0x18, text "kitchen")
    ∷ (pos 0x20, text "bathroom")
    ∷ (pos 0x28, text "washroom")
    ∷ (pos 0x30, text "changing_room")
    ∷ (pos 0x38, text "corridor")
    ∷ (pos 0x40, text "room")
    ∷ (pos 0x48, text "stairway")
    ∷ (pos 0x50, text "entrance")
    ∷ (pos 0x58, text "closet")
    ∷ (pos 0x60, text "garden")
    ∷ (pos 0x68, text "garage")
    ∷ (pos 0x70, text "veranda")
    ∷ (pos 0x78, text "other")
    ∷ []

module _ (fl : Float64) where
  open fl use {F, lt, eq}

  -- `parseClimateYAML`, of an entry that is there.
  unfoldable pub parse_climate_yaml : ClimateYaml F → Result LoadError (ClimateSpec F)
  parse_climate_yaml raw = unless (no_byte raw.mode_epc) bad_epc (
      unless (no_byte raw.temperature_epc) bad_epc (
        unless (no_byte raw.current_temperature_epc) bad_epc (
          unless (no_byte raw.fan_mode_epc) bad_epc (
            unless (lt raw.max_temp raw.min_temp || eq raw.min_temp raw.max_temp) bad_bounds (
              unless (lt raw.temp_step (zero_float fl) || eq raw.temp_step (zero_float fl)) bad_step
                (unless (length raw.modes == 0) no_modes (
                  ok (record {
                    mode_epc = pos_part raw.mode_epc;
                    temperature_epc = pos_part raw.temperature_epc;
                    current_temperature_epc = pos_part raw.current_temperature_epc;
                    fan_mode_epc = pos_part raw.fan_mode_epc;
                    min_temp = raw.min_temp;
                    max_temp = raw.max_temp;
                    temp_step = raw.temp_step;
                    modes = raw.modes;
                    fan_modes = raw.fan_modes;
                  }))))))))

  -- An entry of `SuperClassMetrics`, with the fields that they leave out.
  unfoldable pub super_metric :
      ℕ → Text → Text → List (ℤ × Text) → Option ℤ → Text → ℕ → MetricSpec F
  super_metric epc name help enum invalid device_class interval = record {
    epc = epc;
    name = name;
    help = help;
    size = 1;
    offset = 0;
    scale = one_float fl;
    signed = false;
    invalid = invalid;
    kind = text "gauge";
    enum = enum;
    reverse_enum = insert_all (map (λ e. (e.1, e.0)) enum) [];
    scrape_interval = interval;
    multiplier_epc = 0;
    multiplier_map = [];
    ha_device_class = device_class;
    ha_state_class = [];
    ha_unit = [];
    number_min = none;
    number_max = none;
    pre_set_epc = 0;
    pre_set_value = pos 0;
    exclude_set = false;
    set_mode = [];
  }

  -- `SuperClassMetrics`
  unfoldable pub super_class_metrics : List (MetricSpec F)
  unfolding super_metric
  super_class_metrics =
      super_metric 0x80 (text "operation_status") (text "Operation status: 0x30=ON, 0x31=OFF.")
        op_enum none [] 0
      ∷ super_metric 0x81 (text "installation_location")
          (text "Installation location (1B bitmap per ECHONET Appendix).") location_enum
          (some (pos 0xFF)) (text "enum") ten_minutes
      ∷ super_metric 0x88 (text "fault_status") (text "Fault status.") fault_enum none []
          ten_minutes
      ∷ []

  -- The entry as it is appended: with an interval, and with what is inferred for Home Assistant.
  unfoldable pub complete_metric : ℕ → MetricSpec F → MetricSpec F
  complete_metric dev_interval m =
      let inferred = infer_ha_metadata m.name m.kind (ltb 0 (length m.enum)) in
      let own = not (is_empty m.ha_device_class) in
      record m {
        scrape_interval = if m.scrape_interval == 0 then dev_interval else m.scrape_interval;
        ha_device_class = if own then m.ha_device_class else inferred.0;
        ha_state_class = if own then m.ha_state_class else inferred.1;
        ha_unit = if own then m.ha_unit else inferred.2;
      }

  -- The loop of `mergeSuperClass`; `have` is the set of the codes of `metrics`.
  unfoldable pub add_missing : ℕ → List (MetricSpec F) → List (MetricSpec F) → List (MetricSpec F)
  unfolding complete_metric
  add_missing dev_interval [] metrics = metrics
  add_missing dev_interval (m ∷ super') metrics = add_missing dev_interval super' (
      if has m.epc (map (λ x. x.epc) metrics)
      then metrics
      else metrics ++ (complete_metric dev_interval m ∷ []))

  -- `mergeSuperClass`
  unfoldable pub merge_super_class : DeviceSpec F → DeviceSpec F
  unfolding add_missing super_class_metrics
  merge_super_class spec =
      let dev_interval =
        if spec.default_scrape_interval == 0
        then default_scrape_interval
        else spec.default_scrape_interval in
      record spec { metrics = add_missing dev_interval super_class_metrics spec.metrics }
