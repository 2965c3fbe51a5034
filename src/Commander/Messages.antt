-- ===== src/Commander/Messages.antt =====
-- internal/mqtt/commander.go: what each step of a handler keeps, a message keeps.
use echonet_go.Base.{
  ℕ, ◌≡◌, Bool, true, Option, none, some, List, [], inl, inr, Bool-cases, Option-cases,
}
use echonet_go.Base.Maps.{byte_key}
use echonet_go.Base.Texts.{Text, text, text_eq}
use echonet_go.Cache.{
  Cache, Device, get_device_specs, get_device_climate, get_device_light, get_writable_epcs, or_else,
}
use echonet_go.Client.{Transport}
use echonet_go.Floats.{Float64}
use echonet_go.Identity.{trim_space, is_empty}
use echonet_go.Protocol.{Eoj}
use echonet_go.Commander.{Station, Effect}
use echonet_go.Commander.Kept.{ReadsBack, Keeps}
use echonet_go.Commander.Single.{
  handle_power-Keeps, handle_climate_temperature-Keeps, handle_climate_fan_mode-Keeps,
  handle_light_brightness-Keeps, handle_light_effect-Keeps,
}
use echonet_go.Commander.Handlers.{handle_climate_mode}
use echonet_go.Commander.Routing.{
  split, attribute_of, addressed, climate_attribute, light_attribute, to_attribute,
  handle_climate_message, handle_light_message,
}

module _ (Q : List Effect → Type 0) (fl : Float64) (tr : Transport) (healing : Bool)
    (devices : List Device) (now : ℕ) (c : Cache fl.F)
    (r : (dev : Device) (eoj : Eoj) → ReadsBack Q dev eoj (get_writable_epcs c dev)) where
  open fl use {F}
  open tr use {W}

  -- The handler of the mode is one that keeps `Q`.
  abbrev pub ModeKeeps : Type 0
  ModeKeeps =
      (dev : Device) (eoj : Eoj) (payload : Text)
      → Keeps Q fl tr healing dev eoj (get_writable_epcs c dev) (
          handle_climate_mode fl tr healing dev eoj (get_writable_epcs c dev) payload
            (get_device_climate c dev) (or_else (get_device_specs c dev) []))

  climate_attribute-Keeps :
      (attr payload : Text) (o : Option (Device × Eoj))
      → (text_eq attr (text "mode") ≡ true → ModeKeeps)
      → (st : Station W) → Q st.effects
      → Q (climate_attribute fl tr healing devices now c attr payload o st).effects
  unfolding climate_attribute
  climate_attribute-Keeps attr payload none mode st q = q
  climate_attribute-Keeps attr payload (some (dev, eoj)) mode st q =
      let writable = get_writable_epcs c dev in
      let climate = get_device_climate c dev in
      let specs = or_else (get_device_specs c dev) [] in
      elim (Bool-cases (text_eq attr (text "mode"))) [
        | inl is_mode ↦ rw is_mode (mode is_mode dev eoj payload st q)
        | inr no_mode ↦ rw no_mode (elim (Bool-cases (text_eq attr (text "temperature"))) [
          | inl is_temp ↦ rw is_temp (
              handle_climate_temperature-Keeps Q fl tr healing dev eoj writable (r dev eoj) now c
                payload climate specs st q)
          | inr no_temp ↦ rw no_temp (elim (Bool-cases (text_eq attr (text "fan_mode"))) [
            | inl is_fan ↦ rw is_fan (
                handle_climate_fan_mode-Keeps Q fl tr healing dev eoj writable (r dev eoj) payload
                  climate specs st q)
            | inr no_fan ↦ rw no_fan (elim (Bool-cases (text_eq attr (text "power"))) [
              | inl is_power ↦
                  rw is_power
                    (handle_power-Keeps Q fl tr healing dev eoj writable (r dev eoj) payload st q)
              | inr no_power ↦ rw no_power q
            ])
          ])
        ])
      ]

  light_attribute-Keeps :
      (attr payload : Text) (o : Option (Device × Eoj)) (st : Station W)
      → Q st.effects
      → Q (light_attribute fl tr healing devices now c attr payload o st).effects
  unfolding light_attribute
  light_attribute-Keeps attr payload none st q = q
  light_attribute-Keeps attr payload (some (dev, eoj)) st q =
      let writable = get_writable_epcs c dev in
      let light = get_device_light c dev in
      let specs = or_else (get_device_specs c dev) [] in
      elim (Bool-cases (text_eq attr (text "power"))) [
        | inl is_power ↦
            rw is_power
              (handle_power-Keeps Q fl tr healing dev eoj writable (r dev eoj) payload st q)
        | inr no_power ↦ rw no_power (elim (Bool-cases (text_eq attr (text "brightness"))) [
          | inl is_level ↦ rw is_level (
              handle_light_brightness-Keeps Q fl tr healing dev eoj writable (r dev eoj) payload
                light specs st q)
          | inr no_level ↦ rw no_level (elim (Bool-cases (text_eq attr (text "effect"))) [
            | inl is_effect ↦ rw is_effect (
                handle_light_effect-Keeps Q fl tr healing dev eoj writable (r dev eoj) payload light
                  specs st q)
            | inr no_effect ↦ rw no_effect q
          ])
        ])
      ]

  pub handle_light_message-Keeps :
      (topic raw : Text) (st : Station W)
      → Q st.effects
      → Q (handle_light_message fl tr healing devices now c topic raw st).effects
  unfolding handle_light_message to_attribute
  handle_light_message-Keeps topic raw st q = elim (Bool-cases (is_empty (trim_space raw))) [
    | inl empty ↦ rw empty q
    | inr full ↦ rw full (elim (Option-cases (attribute_of (text "light") (split topic))) [
      | inl other ↦ rw other q
      | inr ((name, attr), found) ↦
          rw found (light_attribute-Keeps attr (trim_space raw) (addressed c devices name) st q)
    ])
  ]

  pub handle_climate_message-Keeps :
      (topic raw : Text)
      → ((name attr : Text)
          → attribute_of (text "climate") (split topic) ≡ some (name, attr)
          → text_eq attr (text "mode") ≡ true
          → ModeKeeps)
      → (st : Station W) → Q st.effects
      → Q (handle_climate_message fl tr healing devices now c topic raw st).effects
  unfolding handle_climate_message to_attribute
  handle_climate_message-Keeps topic raw mode st q = elim (Bool-cases (is_empty (trim_space raw))) [
    | inl empty ↦ rw empty q
    | inr full ↦ rw full (elim (Option-cases (attribute_of (text "climate") (split topic))) [
      | inl other ↦ rw other q
      | inr ((name, attr), found) ↦ rw found (
          climate_attribute-Keeps attr (trim_space raw) (addressed c devices name)
            (mode name attr found) st q)
    ])
  ]
