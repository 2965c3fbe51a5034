-- ===== src/Loader.antt =====
-- internal/specs/loader.go: from an entry of a specification file to what the program uses. The entries
-- are as the YAML package leaves them; the name catalog and time.ParseDuration are arguments. A loop
-- over a map goes by the order of the list.
pub mod Checks
use echonet_go.Base.{
  ℕ, ◌+◌, ◌-◌, ◌*◌, ◌^◌, Bool, true, false, not, ◌&&◌, ◌||◌, Option, none, some, List, [], ◌∷◌,
  ◌++◌, ltb, ◌==◌, if◌then◌else◌, length, map, is_some, Result, ok, err,
}
use echonet_go.Base.Int.{ℤ, pos, negsuc, pos_part, ltb_ℤ, eq_ℤ}
use echonet_go.Base.Maps.{lookup, insert_all, text_key}
use echonet_go.Base.Texts.{Text, text, text_eq}
use echonet_go.Floats.{Float64, zero_float, one_float, ten_float, neg_float}
use echonet_go.Identity.{is_empty}
use echonet_go.Protocol.{Eoj}
use echonet_go.Specs.{MetricSpec, ClimateSpec, LightSpec}

-- The checks that an entry fails; the messages are left out.
pub data LoadError : Type 0 where
  bad_size : LoadError
  bad_type : LoadError
  bad_epc : LoadError
  bad_offset : LoadError
  bad_multiplier_epc : LoadError
  no_multiplier_map : LoadError
  bad_bounds : LoadError
  bad_set_mode : LoadError
  bad_pre_set : LoadError
  scaled_enum : LoadError
  empty_label : LoadError
  unfit_label : LoadError
  bad_scale : LoadError
  bad_interval : LoadError
  bad_step : LoadError
  no_modes : LoadError
  no_brightness : LoadError
  no_color_settings : LoadError
  bad_scenes : LoadError
  bad_eoj : LoadError
  bad_yaml : LoadError
  unread_file : LoadError
  unread_dir : LoadError

-- `if refused { return err }` in front of the rest.
unfoldable pub unless {ℓ} :
    {A : Type ℓ} → Bool → LoadError → Result LoadError A → Result LoadError A
unless refused e rest = if refused then err e else rest

-- `v < 0 || v > 0xFF`
abbrev pub no_byte : ℤ → Bool
no_byte v = ltb_ℤ v (pos 0) || ltb_ℤ (pos 0xFF) v

-- `metricYAML`
pub record MetricYaml (F : Type 0) : Type 0 where
  pub epc : ℤ
  pub name : Text
  pub help : Text
  pub size : ℤ
  pub offset : ℤ
  pub scale : F
  pub signed : Bool
  pub invalid : Option ℤ
  pub kind : Text
  pub enum : List (ℤ × Text)
  pub scrape_interval : Text
  pub ha_device_class : Text
  pub ha_state_class : Text
  pub ha_unit : Text
  pub number_min : Option F
  pub number_max : Option F
  pub pre_set : Option (ℤ × ℤ)
  pub exclude_set : Bool
  pub multiplier_epc : ℤ
  pub multiplier_map : List (ℤ × F)
  pub set_mode : Text

-- `enumValueFits`, for a size that was checked.
unfoldable pub enum_value_fits : ℤ → ℕ → Bool → Bool
enum_value_fits v size true =
    not (ltb_ℤ v (negsuc (2 ^ (size * 8 - 1) - 1))) && not (ltb_ℤ (pos (2 ^ (size * 8 - 1) - 1)) v)
enum_value_fits v size false = not (ltb_ℤ v (pos 0)) && not (ltb_ℤ (pos (2 ^ (size * 8) - 1)) v)

-- The loop over the labels.
unfoldable pub check_labels : ℕ → Bool → List (ℤ × Text) → Option LoadError
unfolding enum_value_fits
check_labels size signed [] = none
check_labels size signed ((v, label) ∷ enum) =
    let rest = check_labels size signed enum in
    if is_empty label
    then some empty_label
    else if not (size == 0) && not (enum_value_fits v size signed)
    then some unfit_label
    else rest

-- `strings.HasSuffix`
unfoldable pub has_suffix : Text → Text → Bool
has_suffix [] suffix = text_eq [] suffix
has_suffix (c ∷ s) suffix =
    let rest = has_suffix s suffix in if text_eq (c ∷ s) suffix then true else rest

abbrev counted : Text → Text → Text → Text × Text × Text
counted device kind unit = (
  device,
  (if text_eq kind (text "counter") then text "total_increasing" else text "measurement"),
  unit,
)

-- `inferHAMetadata`
unfoldable pub infer_ha_metadata : Text → Text → Bool → Text × Text × Text
infer_ha_metadata name kind true = (text "enum", [], [])
infer_ha_metadata name kind false =
    if has_suffix name (text "_power_w") || has_suffix name (text "_watts")
    then (text "power", text "measurement", text "W")
    else if has_suffix name (text "_kwh")
    then counted (text "energy") kind (text "kWh")
    else if has_suffix name (text "_wh")
    then counted (text "energy") kind (text "Wh")
    else if has_suffix name (text "_celsius")
    then (text "temperature", text "measurement", 0xC2 ∷ 0xB0 ∷ text "C")
    else if has_suffix name (text "_percent")
    then ([], text "measurement", text "%")
    else if has_suffix name (text "_m3")
    then counted (text "volume") kind (text "m" ++ (0xC2 ∷ 0xB3 ∷ []))
    else if text_eq kind (text "gauge")
    then ([], text "measurement", [])
    else if text_eq kind (text "counter")
    then ([], text "total_increasing", [])
    else ([], [], [])

-- The interval of an entry: the device's where it has none.
unfoldable pub interval_or : ℕ → Option ℤ → Result LoadError ℕ
interval_or d none = err bad_interval
interval_or d (some (negsuc n)) = err bad_interval
interval_or d (some (pos n)) = if n == 0 then err bad_interval else ok n

unfoldable pub read_interval : (Text → Option ℤ) → ℕ → Text → Result LoadError ℕ
unfolding interval_or
read_interval parse_duration d s = if is_empty s then ok d else interval_or d (parse_duration s)

pre_set_refused : Option (ℤ × ℤ) → Bool
pre_set_refused none = false
pre_set_refused (some (epc, value)) = no_byte epc

pre_set_or : Option (ℤ × ℤ) → ℕ × ℤ
pre_set_or none = (0, pos 0)
pre_set_or (some (epc, value)) = (pos_part epc, value)

refusal_or {ℓ} : {A : Type ℓ} → Option LoadError → Result LoadError A → Result LoadError A
refusal_or (some e) rest = err e
refusal_or none rest = rest

map_ok {ℓ κ} : {A : Type ℓ} {B : Type κ} → (A → B) → Result LoadError A → Result LoadError B
map_ok f (err e) = err e
map_ok f (ok a) = ok (f a)

module _ (fl : Float64) where
  open fl use {F, lt, eq, sub, abs, pow, ceil, log10, to_int, of_int, pico}

  bounds_refused : Option F → Option F → Bool
  bounds_refused (some lo) (some hi) = lt hi lo || eq lo hi
  bounds_refused _ _ = false

  -- A scale below one that is not a negative power of ten.
  unfoldable pub scale_refused : F → Bool
  scale_refused scale =
      if lt (zero_float fl) scale && lt scale (one_float fl)
      then (let digits = to_int (ceil (neg_float fl (log10 scale))) in
          lt pico (abs (sub (pow (ten_float fl) (neg_float fl (of_int digits))) scale)))
      else false

  abbrev pub scale_or_one : F → F
  scale_or_one scale = if eq scale (zero_float fl) then one_float fl else scale

  module _ (parse_duration : Text → Option ℤ) (lookup_epc_name : Eoj → ℕ → Text) where
    -- The specification of an entry that passed the checks.
    unfoldable pub metric_of : MetricYaml F → Eoj → ℕ → MetricSpec F
    unfolding pre_set_or
    metric_of m eoj interval =
        let inferred = infer_ha_metadata m.name m.kind (ltb 0 (length m.enum)) in
        let own = not (is_empty m.ha_device_class) in
        record {
          epc = pos_part m.epc;
          name = m.name;
          help = if is_empty m.help then lookup_epc_name eoj (pos_part m.epc) else m.help;
          size = pos_part m.size;
          offset = pos_part m.offset;
          scale = scale_or_one m.scale;
          signed = m.signed;
          invalid = m.invalid;
          kind = m.kind;
          enum = m.enum;
          reverse_enum = insert_all (map (λ e. (e.1, e.0)) m.enum) [];
          scrape_interval = interval;
          multiplier_epc = pos_part m.multiplier_epc;
          multiplier_map = m.multiplier_map;
          ha_device_class = if own then m.ha_device_class else inferred.0;
          ha_state_class = if own then m.ha_state_class else inferred.1;
          ha_unit = if own then m.ha_unit else inferred.2;
          number_min = m.number_min;
          number_max = m.number_max;
          pre_set_epc = (pre_set_or m.pre_set).0;
          pre_set_value = (pre_set_or m.pre_set).1;
          exclude_set = m.exclude_set;
          set_mode = m.set_mode;
        }

    -- `parseMetricSpec`
    unfoldable pub parse_metric_spec : MetricYaml F → ℕ → Eoj → Result LoadError (MetricSpec F)
    unfolding pre_set_refused bounds_refused refusal_or map_ok metric_of
    parse_metric_spec m dev_interval eoj =
        unless
          (not (eq_ℤ m.size (pos 0))
            && (not (eq_ℤ m.size (pos 1))
                && (not (eq_ℤ m.size (pos 2)) && not (eq_ℤ m.size (pos 4)))))
          bad_size
          (unless (not (text_eq m.kind (text "gauge")) && not (text_eq m.kind (text "counter")))
            bad_type
            (unless (no_byte m.epc) bad_epc (
              unless (ltb_ℤ m.offset (pos 0)) bad_offset (
                unless (no_byte m.multiplier_epc) bad_multiplier_epc (
                  unless (not (eq_ℤ m.multiplier_epc (pos 0)) && length m.multiplier_map == 0)
                    no_multiplier_map
                    (unless (bounds_refused m.number_min m.number_max) bad_bounds (
                      unless
                        (not (is_empty m.set_mode)
                          && (not (text_eq m.set_mode (text "setc"))
                              && not (text_eq m.set_mode (text "seti"))))
                        bad_set_mode
                        (unless (pre_set_refused m.pre_set) bad_pre_set (
                          unless
                            (ltb 0 (length m.enum)
                              && not (eq (scale_or_one m.scale) (one_float fl)))
                            scaled_enum
                            (refusal_or (check_labels (pos_part m.size) m.signed m.enum) (
                              unless (scale_refused (scale_or_one m.scale)) bad_scale (
                                map_ok (metric_of m eoj) (
                                  read_interval parse_duration dev_interval
                                    m.scrape_interval)))))))))))))
