-- ===== src/Discovery/Attributes.antt =====
-- internal/mqtt/discovery.go and internal/mqtt/commander.go: the command topics of a climate.
use echonet_go.Base.{
  ◌≡◌, refl, ap, ◌∙◌, Bool, true, false, some, List, [], ◌∷◌, ◌==◌, if◌then◌else◌, ◌⊎◌, inl, inr,
}
use echonet_go.Base.Texts.{Text, text, text_eq}
use echonet_go.Cache.{Device}
use echonet_go.Commander.Routing.{split, attribute_of}
use echonet_go.Commander.Topics.{HasNoSlash, join, split-join, join-join}
use echonet_go.Discovery.Entities.{climate_payload}
use echonet_go.Floats.{Float64}
use echonet_go.Publisher.{HaDevice, Printer}
use echonet_go.Publisher.States.{base_of}
use echonet_go.Specs.{MetricSpec, ClimateSpec}
use echonet_go.Discovery.Commanded.{is_plain, plain-HasNoSlash}

-- A topic is not announced, or a message to it is for this attribute of the device.
abbrev pub Commands : Text → Text → Text → Text → Type 0
Commands kind name attr topic = (topic ≡ []) ⊎ (attribute_of kind (split topic) ≡ some (name, attr))

optional-Commands :
    (kind name attr topic : Text) (b : Bool)
    → attribute_of kind (split topic) ≡ some (name, attr)
    → Commands kind name attr (if b then [] else topic)
optional-Commands kind name attr topic true h = inl refl
optional-Commands kind name attr topic false h = inr h

module _ (fl : Float64) (pr : Printer fl.F) (topic_prefix discovery_prefix : Text) where
  open fl use {F}

  attribute-split :
      (dev : Device) (kind attr : Text)
      → HasNoSlash topic_prefix
      → HasNoSlash dev.name
      → HasNoSlash kind
      → HasNoSlash attr
      → split (join (base_of fl pr topic_prefix dev kind ∷ attr ∷ text "set" ∷ []))
        ≡ topic_prefix ∷ dev.name ∷ kind ∷ attr ∷ text "set" ∷ []
  unfolding is_plain
  attribute-split dev kind attr p n k a =
      ap split (join-join topic_prefix (dev.name ∷ kind ∷ []) attr (text "set" ∷ []))
      ∙ split-join topic_prefix (dev.name ∷ kind ∷ attr ∷ text "set" ∷ [])
          (p, (n, (k, (a, (plain-HasNoSlash (text "set") refl, tt)))))

  attribute_of-topic :
      (dev : Device) (kind attr : Text)
      → HasNoSlash topic_prefix
      → HasNoSlash dev.name
      → HasNoSlash kind
      → HasNoSlash attr
      → text_eq kind kind ≡ true
      → attribute_of kind
          (split (join (base_of fl pr topic_prefix dev kind ∷ attr ∷ text "set" ∷ [])))
        ≡ some (dev.name, attr)
  unfolding attribute_of text_eq
  attribute_of-topic dev kind attr p n k a same =
      ap (attribute_of kind) (attribute-split dev kind attr p n k a) ∙ rw same refl

  -- The command topics that are announced for a climate are those of its mode, temperature, power and,
  -- if it has one, fan mode, and each leads to its own attribute of this device. The prefix and the
  -- name of the device have no separator.
  pub climate_payload-Commands :
      (dev : Device) (device : HaDevice) (avail : Text) (cl : ClimateSpec F)
      (specs : List (MetricSpec F))
      → HasNoSlash topic_prefix
      → HasNoSlash dev.name
      → (attribute_of (text "climate") (
            split
              (climate_payload fl pr topic_prefix discovery_prefix dev device avail cl
                specs).mode_command_topic)
          ≡ some (dev.name, text "mode"))
        × (attribute_of (text "climate") (
              split
                (climate_payload fl pr topic_prefix discovery_prefix dev device avail cl
                  specs).temperature_command_topic)
            ≡ some (dev.name, text "temperature"))
        × (attribute_of (text "climate") (
              split
                (climate_payload fl pr topic_prefix discovery_prefix dev device avail cl
                  specs).power_command_topic)
            ≡ some (dev.name, text "power"))
        × Commands
            (text "climate")
            dev.name
            (text "fan_mode")
            (climate_payload fl pr topic_prefix discovery_prefix dev device avail cl
              specs).fan_mode_command_topic
  unfolding climate_payload is_plain text_eq
  climate_payload-Commands dev device avail cl specs p n =
      let climate = plain-HasNoSlash (text "climate") refl in
      (
        attribute_of-topic dev (text "climate") (text "mode") p n climate
            (plain-HasNoSlash (text "mode") refl) refl,
        attribute_of-topic dev (text "climate") (text "temperature") p n climate
            (plain-HasNoSlash (text "temperature") refl) refl,
        attribute_of-topic dev (text "climate") (text "power") p n climate
            (plain-HasNoSlash (text "power") refl) refl,
        optional-Commands (text "climate") dev.name (text "fan_mode") _ (cl.fan_mode_epc == 0) (
            attribute_of-topic dev (text "climate") (text "fan_mode") p n climate
              (plain-HasNoSlash (text "fan_mode") refl) refl),
      )
