-- ===== src/Commander/Handlers.antt =====
-- internal/mqtt/commander.go: the handlers of the attributes, behind the routing of a message.
use echonet_go.Base.{
  ℕ, Bool, Option, none, some, List, [], ◌∷◌, ◌==◌, if◌then◌else◌, Result, ok, err,
}
use echonet_go.Base.Int.{ℤ, pos}
use echonet_go.Base.Maps.{ByteSet, lookup, text_key}
use echonet_go.Base.Texts.{Text, text, text_eq}
use echonet_go.Cache.{Cache, Device}
use echonet_go.Cache.Status.{get}
use echonet_go.Client.{Transport}
use echonet_go.Encoder.{EncodeError, encode_value_to_edt}
use echonet_go.Floats.{Float64}
use echonet_go.Protocol.{Eoj}
use echonet_go.Readings.{MetricValue}
use echonet_go.Specs.{MetricSpec, ClimateSpec, LightSpec, find_metric_spec_by_epc, to_lower}
use echonet_go.Commander.{
  Station, PendingUpdate, trigger, note, operation_status, when_writable, set_property,
  set_property_i, set_and_verify,
}
use echonet_go.Commander.Values.{
  on_status, off_status, power_edt, effect_value, normalize_climate_setpoint, command_value,
}

module _ (fl : Float64) (tr : Transport) (healing : Bool) (dev : Device) (eoj : Eoj)
    (writable : Option ByteSet) where
  open fl use {F, of_int, parse}
  open tr use {W}

  abbrev checked : ℕ → (Station W → Station W) → Station W → Station W
  checked epc = when_writable healing dev eoj epc writable

  -- One property is set, if its data could be made, and verified.
  unfoldable pub set_one : ℕ → Result EncodeError (List ℕ) → Station W → Station W
  set_one epc (err e) st = st
  set_one epc (ok edt) st = set_and_verify tr dev eoj epc edt (epc ∷ []) ((epc, edt) ∷ []) st

  -- `FindMetricSpecByEPC`, `EncodeValueToEDT` and what follows.
  unfoldable pub set_value : ℕ → F → Option (MetricSpec F) → Station W → Station W
  unfolding set_one
  set_value epc value none st = st
  set_value epc value (some ms) st = set_one epc (encode_value_to_edt fl value ms) st

  unfoldable pub set_power : Option (List ℕ) → Station W → Station W
  set_power none st = st
  set_power (some edt) st =
      set_and_verify tr dev eoj operation_status edt (operation_status ∷ [])
        ((operation_status, edt) ∷ []) st

  -- `handleClimatePower` and `handleLightPower`, which have the same body.
  unfoldable pub handle_power : Text → Station W → Station W
  unfolding set_power
  handle_power payload = checked operation_status (set_power (power_edt payload))

  -- The second request of a mode: the codes are read back, or verified, together.
  unfoldable pub send_mode : ℕ → Result EncodeError (List ℕ) → Station W → Station W
  send_mode epc (err e) st = st
  send_mode epc (ok edt) st =
      set_and_verify tr dev eoj epc edt (operation_status ∷ epc ∷ [])
        ((operation_status, on_status ∷ []) ∷ (epc, edt) ∷ []) st

  unfoldable pub mode_of : ℕ → ℤ → Option (MetricSpec F) → Station W → Station W
  unfolding send_mode
  mode_of epc raw none st = st
  mode_of epc raw (some ms) st = send_mode epc (encode_value_to_edt fl (of_int raw) ms) st

  -- `climateSpec.Modes[payload]`: a key that is absent, and one without a number.
  unfoldable pub set_mode : List (MetricSpec F) → ℕ → Option (Option ℤ) → Station W → Station W
  unfolding mode_of
  set_mode specs epc (some (some raw)) st = mode_of epc raw (find_metric_spec_by_epc specs epc) st
  set_mode specs epc _ st = st

  -- `handleClimateMode`
  unfoldable pub handle_climate_mode :
      Text → Option (ClimateSpec F) → List (MetricSpec F) → Station W → Station W
  unfolding set_mode
  handle_climate_mode payload none specs st = st
  handle_climate_mode payload (some climate) specs st =
      let word = to_lower payload in
      if text_eq word (text "off")
      then checked operation_status (set_power (some (off_status ∷ []))) st
      else checked operation_status
          (checked climate.mode_epc (
            set_property tr dev eoj operation_status (on_status ∷ [])
              (note (trigger dev (operation_status ∷ [])))
              (set_mode specs climate.mode_epc (lookup word climate.modes))))
          st

  unfoldable pub value_of : Option (MetricValue F) → Option F
  value_of none = none
  value_of (some mv) = some mv.value

  -- The value that the cache has of a metric.
  unfoldable pub cached_value : ℕ → Cache F → MetricSpec F → Option F
  unfolding value_of
  cached_value now c ms = value_of (lookup ms.name (get now (of_int (pos 0)) c dev).metrics)

  unfoldable pub set_temperature :
      ℕ → Cache F → ℕ → F → Option (MetricSpec F) → Station W → Station W
  set_temperature now c epc temp none st = st
  set_temperature now c epc temp (some ms) st =
      set_value epc (normalize_climate_setpoint fl temp (cached_value now c ms) ms) (some ms) st

  unfoldable pub parsed_temperature :
      ℕ → Cache F → ℕ → Option F → List (MetricSpec F) → Station W → Station W
  unfolding set_temperature
  parsed_temperature now c epc none specs st = st
  parsed_temperature now c epc (some temp) specs st =
      set_temperature now c epc temp (find_metric_spec_by_epc specs epc) st

  -- `handleClimateTemperature`
  unfoldable pub handle_climate_temperature :
      ℕ → Cache F → Text → Option (ClimateSpec F) → List (MetricSpec F) → Station W → Station W
  unfolding parsed_temperature
  handle_climate_temperature now c payload none specs st = st
  handle_climate_temperature now c payload (some climate) specs st =
      let epc = climate.temperature_epc in
      checked epc (parsed_temperature now c epc (parse payload) specs) st

  unfoldable pub set_raw : ℕ → MetricSpec F → Option ℤ → Station W → Station W
  set_raw epc ms none st = st
  set_raw epc ms (some raw) st = set_value epc (of_int raw) (some ms) st

  unfoldable pub set_fan_mode : ℕ → Text → Option (MetricSpec F) → Station W → Station W
  unfolding set_raw
  set_fan_mode epc payload none st = st
  set_fan_mode epc payload (some ms) st = set_raw epc ms (lookup payload ms.reverse_enum) st

  -- `handleClimateFanMode`; a metric with no reverse map has no option either.
  unfoldable pub handle_climate_fan_mode :
      Text → Option (ClimateSpec F) → List (MetricSpec F) → Station W → Station W
  unfolding set_fan_mode
  handle_climate_fan_mode payload none specs st = st
  handle_climate_fan_mode payload (some climate) specs st =
      let epc = climate.fan_mode_epc in
      if epc == 0
      then st
      else checked epc (set_fan_mode epc payload (find_metric_spec_by_epc specs epc)) st

  unfoldable pub set_brightness : ℕ → Option F → List (MetricSpec F) → Station W → Station W
  unfolding set_value
  set_brightness epc none specs st = st
  set_brightness epc (some value) specs st =
      set_value epc value (find_metric_spec_by_epc specs epc) st

  -- `handleLightBrightness`
  unfoldable pub handle_light_brightness :
      Text → Option LightSpec → List (MetricSpec F) → Station W → Station W
  unfolding set_brightness
  handle_light_brightness payload none specs st = st
  handle_light_brightness payload (some light) specs st =
      let epc = light.brightness_epc in
      if epc == 0 then st else checked epc (set_brightness epc (parse payload) specs) st

  unfoldable pub set_effect : Option (ℕ × ℤ) → List (MetricSpec F) → Station W → Station W
  unfolding set_value
  set_effect none specs st = st
  set_effect (some (epc, raw)) specs st =
      checked epc (set_value epc (of_int raw) (find_metric_spec_by_epc specs epc)) st

  -- `handleLightEffect`
  unfoldable pub handle_light_effect :
      Text → Option LightSpec → List (MetricSpec F) → Station W → Station W
  unfolding set_effect
  handle_light_effect payload none specs st = st
  handle_light_effect payload (some light) specs st =
      set_effect (effect_value light payload) specs st

  -- The end of `executeWritableSet`, from the encoded value on.
  unfoldable pub send_metric :
      MetricSpec F → List PendingUpdate → Result EncodeError (List ℕ) → Station W → Station W
  send_metric ms before (err e) st = st
  send_metric ms before (ok edt) st =
      if text_eq ms.set_mode (text "seti")
      then set_property_i tr dev eoj ms.epc edt st
      else set_and_verify tr dev eoj ms.epc edt (ms.epc ∷ []) ((ms.epc, edt) ∷ before) st

  unfoldable pub set_metric : MetricSpec F → List PendingUpdate → Option F → Station W → Station W
  unfolding send_metric
  set_metric ms before none st = st
  set_metric ms before (some value) st = send_metric ms before (encode_value_to_edt fl value ms) st

  -- The pre-set is sent whatever its result is.
  unfoldable pub pre_set :
      MetricSpec F → Option F → Result EncodeError (List ℕ) → Station W → Station W
  pre_set ms value (err e) st = st
  pre_set ms value (ok edt) st =
      set_property tr dev eoj ms.pre_set_epc edt (set_metric ms ((ms.pre_set_epc, edt) ∷ []) value)
        (set_metric ms ((ms.pre_set_epc, edt) ∷ []) value) st

  unfoldable pub pre_set_of :
      MetricSpec F → Option F → Option (MetricSpec F) → Station W → Station W
  unfolding pre_set
  pre_set_of ms value none st = st
  pre_set_of ms value (some pre) st =
      pre_set ms value (encode_value_to_edt fl (of_int ms.pre_set_value) pre) st

  -- `executeWritableSet`
  unfoldable pub execute_writable_set :
      MetricSpec F → List (MetricSpec F) → Text → Text → Station W → Station W
  unfolding set_metric pre_set_of
  execute_writable_set ms specs entity payload st =
      let value = command_value fl entity payload ms in
      if ms.pre_set_epc == 0
      then set_metric ms [] value st
      else pre_set_of ms value (find_metric_spec_by_epc specs ms.pre_set_epc) st
