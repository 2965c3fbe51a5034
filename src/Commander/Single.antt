-- ===== src/Commander/Single.antt =====
-- internal/mqtt/commander.go: the handlers that set one property and read it back.
use echonet_go.Base.{
  ℕ, ◌≡◌, Bool, true, Option, none, some, List, [], ◌∷◌, ◌==◌, Result, ok, err, inl, inr,
  Bool-cases, Option-cases,
}
use echonet_go.Base.Int.{ℤ}
use echonet_go.Base.Maps.{ByteSet, text_key}
use echonet_go.Base.Texts.{Text}
use echonet_go.Cache.{Cache, Device}
use echonet_go.Client.{Transport}
use echonet_go.Encoder.{EncodeError}
use echonet_go.Floats.{Float64}
use echonet_go.Protocol.{Eoj}
use echonet_go.Specs.{MetricSpec, ClimateSpec, LightSpec, find_metric_spec_by_epc}
use echonet_go.Commander.{Station, Effect, operation_status, may_set, set_property, set_and_verify}
use echonet_go.Commander.Handlers.{
  set_one, set_value, set_power, handle_power, set_temperature, parsed_temperature,
  handle_climate_temperature, set_raw, set_fan_mode, handle_climate_fan_mode, set_brightness,
  handle_light_brightness, set_effect, handle_light_effect,
}
use echonet_go.Commander.Values.{power_edt, effect_value}
use echonet_go.Commander.Kept.{ReadsBack, Keeps, when_writable-Keeps, after_one-Keeps}

module _ (Q : List Effect → Type 0) (fl : Float64) (tr : Transport) (healing : Bool) (dev : Device)
    (eoj : Eoj) (writable : Option ByteSet) (c : ReadsBack Q dev eoj writable) where
  open fl use {F, of_int, parse}
  open tr use {W}

  abbrev Keeps' : (Station W → Station W) → Type 0
  Keeps' = Keeps Q fl tr healing dev eoj writable

  one-Keeps :
      (epc : ℕ) (edt : List ℕ)
      → may_set writable epc ≡ true
      → Keeps' (set_and_verify tr dev eoj epc edt (epc ∷ []) ((epc, edt) ∷ []))
  unfolding set_and_verify set_property
  one-Keeps epc edt may st q =
      after_one-Keeps Q fl tr healing dev eoj writable c epc edt st.effects may q _

  set_one-Keeps :
      (epc : ℕ) (r : Result EncodeError (List ℕ))
      → may_set writable epc ≡ true
      → Keeps' (set_one fl tr healing dev eoj writable epc r)
  unfolding set_one
  set_one-Keeps epc (ok edt) may st q = one-Keeps epc edt may st q
  set_one-Keeps epc (err e) may st q = q

  set_value-Keeps :
      (epc : ℕ) (value : F) (o : Option (MetricSpec F))
      → may_set writable epc ≡ true
      → Keeps' (set_value fl tr healing dev eoj writable epc value o)
  unfolding set_value
  set_value-Keeps epc value none may st q = q
  set_value-Keeps epc value (some ms) may st q = set_one-Keeps epc _ may st q

  pub set_power-Keeps :
      (o : Option (List ℕ))
      → may_set writable operation_status ≡ true
      → Keeps' (set_power fl tr healing dev eoj writable o)
  unfolding set_power
  set_power-Keeps none may st q = q
  set_power-Keeps (some edt) may st q = one-Keeps operation_status edt may st q

  pub handle_power-Keeps :
      (payload : Text) → Keeps' (handle_power fl tr healing dev eoj writable payload)
  unfolding handle_power
  handle_power-Keeps payload =
      when_writable-Keeps Q fl tr healing dev eoj writable operation_status _ c.healed
        (set_power-Keeps (power_edt payload))

  set_temperature-Keeps :
      (now : ℕ) (cache : Cache F) (epc : ℕ) (o : Option F) (specs : List (MetricSpec F))
      → may_set writable epc ≡ true
      → Keeps' (parsed_temperature fl tr healing dev eoj writable now cache epc o specs)
  unfolding parsed_temperature set_temperature
  set_temperature-Keeps now cache epc none specs may st q = q
  set_temperature-Keeps now cache epc (some temp) specs may st q =
      elim (Option-cases (find_metric_spec_by_epc specs epc)) [
        | inl missing ↦ rw missing q
        | inr (ms, found) ↦ rw found (set_value-Keeps epc _ (some ms) may st q)
      ]

  pub handle_climate_temperature-Keeps :
      (now : ℕ) (cache : Cache F) (payload : Text) (o : Option (ClimateSpec F))
      (specs : List (MetricSpec F))
      → Keeps' (handle_climate_temperature fl tr healing dev eoj writable now cache payload o specs)
  unfolding handle_climate_temperature
  handle_climate_temperature-Keeps now cache payload none specs st q = q
  handle_climate_temperature-Keeps now cache payload (some climate) specs st q =
      when_writable-Keeps Q fl tr healing dev eoj writable climate.temperature_epc _ c.healed
        (set_temperature-Keeps now cache climate.temperature_epc (parse payload) specs) st q

  set_raw-Keeps :
      (epc : ℕ) (ms : MetricSpec F) (o : Option ℤ)
      → may_set writable epc ≡ true
      → Keeps' (set_raw fl tr healing dev eoj writable epc ms o)
  unfolding set_raw
  set_raw-Keeps epc ms none may st q = q
  set_raw-Keeps epc ms (some raw) may st q = set_value-Keeps epc _ (some ms) may st q

  set_fan_mode-Keeps :
      (epc : ℕ) (payload : Text) (o : Option (MetricSpec F))
      → may_set writable epc ≡ true
      → Keeps' (set_fan_mode fl tr healing dev eoj writable epc payload o)
  unfolding set_fan_mode
  set_fan_mode-Keeps epc payload none may st q = q
  set_fan_mode-Keeps epc payload (some ms) may st q = set_raw-Keeps epc ms _ may st q

  pub handle_climate_fan_mode-Keeps :
      (payload : Text) (o : Option (ClimateSpec F)) (specs : List (MetricSpec F))
      → Keeps' (handle_climate_fan_mode fl tr healing dev eoj writable payload o specs)
  unfolding handle_climate_fan_mode
  handle_climate_fan_mode-Keeps payload none specs st q = q
  handle_climate_fan_mode-Keeps payload (some climate) specs st q =
      elim (Bool-cases (climate.fan_mode_epc == 0)) [
        | inl unset ↦ rw unset q
        | inr set ↦ rw set (
            when_writable-Keeps Q fl tr healing dev eoj writable climate.fan_mode_epc _ c.healed
              (set_fan_mode-Keeps climate.fan_mode_epc payload _) st q)
      ]

  set_brightness-Keeps :
      (epc : ℕ) (o : Option F) (specs : List (MetricSpec F))
      → may_set writable epc ≡ true
      → Keeps' (set_brightness fl tr healing dev eoj writable epc o specs)
  unfolding set_brightness
  set_brightness-Keeps epc none specs may st q = q
  set_brightness-Keeps epc (some value) specs may st q = set_value-Keeps epc value _ may st q

  pub handle_light_brightness-Keeps :
      (payload : Text) (o : Option LightSpec) (specs : List (MetricSpec F))
      → Keeps' (handle_light_brightness fl tr healing dev eoj writable payload o specs)
  unfolding handle_light_brightness
  handle_light_brightness-Keeps payload none specs st q = q
  handle_light_brightness-Keeps payload (some light) specs st q =
      elim (Bool-cases (light.brightness_epc == 0)) [
        | inl unset ↦ rw unset q
        | inr set ↦ rw set (
            when_writable-Keeps Q fl tr healing dev eoj writable light.brightness_epc _ c.healed
              (set_brightness-Keeps light.brightness_epc (parse payload) specs) st q)
      ]

  set_effect-Keeps :
      (o : Option (ℕ × ℤ)) (specs : List (MetricSpec F))
      → Keeps' (set_effect fl tr healing dev eoj writable o specs)
  unfolding set_effect
  set_effect-Keeps none specs st q = q
  set_effect-Keeps (some (epc, raw)) specs st q =
      when_writable-Keeps Q fl tr healing dev eoj writable epc _ c.healed
        (set_value-Keeps epc (of_int raw) _) st q

  pub handle_light_effect-Keeps :
      (payload : Text) (o : Option LightSpec) (specs : List (MetricSpec F))
      → Keeps' (handle_light_effect fl tr healing dev eoj writable payload o specs)
  unfolding handle_light_effect
  handle_light_effect-Keeps payload none specs st q = q
  handle_light_effect-Keeps payload (some light) specs st q =
      set_effect-Keeps (effect_value light payload) specs st q
