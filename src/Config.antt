-- ===== src/Config.antt =====
-- internal/config/config.go: the configuration, from the environment and the files of devices. An `int`
-- is an integer with no bound: those that are read from text are between the bounds that the code
-- tests. Text is a sequence of Unicode characters, as `strings.Map` walks it.
pub mod Sanitized
pub mod Loading
use echonet_go.Base.{
  ℕ, suc, Bool, true, false, not, ◌&&◌, ◌||◌, Option, none, some, List, [], ◌∷◌, ◌++◌, ltb, leb,
  ◌==◌, if◌then◌else◌, length, map, Result, ok, err,
}
use echonet_go.Base.Int.{ℤ, pos, ltb_ℤ}
use echonet_go.Base.Texts.{Text, text, text_eq}
use echonet_go.Cache.{Device}
use echonet_go.Identity.{is_empty}
use echonet_go.Commander.Routing.{cons_first}

-- `MQTTConfig`
pub record MqttConfig : Type 0 where
  pub broker : Text
  pub username : Text
  pub password : Text
  pub topic_prefix : Text
  pub discovery_prefix : Text

-- `Config`
pub record Config : Type 0 where
  pub listen_addr : Text
  pub scrape_timeout_sec : ℤ
  pub strict_source_port_3610 : Bool
  pub devices_path : Text
  pub specs_dir : Text
  pub metrics_enabled : Bool
  pub notifications_enabled : Bool
  pub force_polling : Bool
  pub multicast_interfaces : List Text
  pub devices : List Device
  pub mqtt : MqttConfig

-- Why a file was not read.
pub data ReadError : Type 0 where
  not_exist : ReadError
  other_error : ReadError

-- The errors of `Load`; `bad_variable` is one of `applyEnvOverrides`, by the name of the variable.
pub data ConfigError : Type 0 where
  bad_variable : Text → ConfigError
  unread_file : ReadError → ConfigError
  bad_devices : ConfigError
  bad_json : ConfigError
  no_name : ℕ → ConfigError
  no_ip : Text → ConfigError
  no_class : Text → ConfigError

-- `MQTTEnabled`
unfoldable pub mqtt_enabled : Config → Bool
mqtt_enabled c = not (is_empty c.mqtt.broker)

-- `unicode.IsControl`
abbrev pub is_control : ℕ → Bool
is_control r = leb r 0x1F || (leb 0x7F r && leb r 0x9F)

-- `case '/', '+', '#'`
abbrev pub is_reserved : ℕ → Bool
is_reserved r = r == b'/' || (r == b'+' || r == b'#')

-- `sanitizeDeviceName`
unfoldable pub sanitize_device_name : Text → Text
sanitize_device_name [] = []
sanitize_device_name (r ∷ name) =
    let rest = sanitize_device_name name in
    if is_control r then rest else if is_reserved r then b'_' ∷ rest else r ∷ rest

unfoldable pub sanitize_device : Device → Device
unfolding sanitize_device_name
sanitize_device d = if is_empty d.name then d else record d { name = sanitize_device_name d.name }

-- `Sanitize`
unfoldable pub sanitize : Config → Config
unfolding sanitize_device
sanitize c = record c { devices = map sanitize_device c.devices }

-- The loop of `Validate`, at the device with this index.
unfoldable pub validate_devices : ℕ → List Device → Option ConfigError
validate_devices i [] = none
validate_devices i (d ∷ devices) =
    let rest = validate_devices (suc i) devices in
    if is_empty d.name
    then some (no_name i)
    else if is_empty d.ip
    then some (no_ip d.name)
    else if is_empty d.class
    then some (no_class d.name)
    else rest

-- `Validate`
unfoldable pub validate : Config → Option ConfigError
unfolding validate_devices
validate c = validate_devices 0 c.devices

-- `strings.Split(v, ",")`
unfoldable pub split_commas : Text → List Text
unfolding cons_first
split_commas [] = [] ∷ []
split_commas (c ∷ s) =
    let rest = split_commas s in if c == b',' then [] ∷ rest else cons_first c rest

-- `strings.HasPrefix`
unfoldable pub has_prefix : Text → Text → Bool
has_prefix s [] = true
has_prefix [] (p ∷ prefix) = false
has_prefix (c ∷ s) (p ∷ prefix) = c == p && has_prefix s prefix

-- What the process reads from outside: `os.Getenv`, which gives an empty text for a variable that is
-- not set, and `strconv.Atoi` and `strconv.ParseBool`, with none for an error.
pub record Environment : Type 0 where
  pub getenv : Text → Text
  pub atoi : Text → Option ℤ
  pub parse_bool : Text → Option Bool

-- The files: `os.ReadFile`, and `json.Unmarshal` and `yaml.Unmarshal` of a document whose `devices` are
-- a list, and of a list itself.
pub record Files : Type 0 where
  pub read_file : Text → Result ReadError Text
  pub unmarshal_json : Text → Option (List Device)
  pub unmarshal_yaml : Text → Option (List Device)
  pub unmarshal_list : Text → Option (List Device)

module _ (env : Environment) where
  open env use {getenv, atoi, parse_bool}

  -- `if v := os.Getenv(name); v != "" { ... }`, for a text.
  unfoldable pub text_variable : Text → Text → Text
  text_variable name d = let v = getenv name in if is_empty v then d else v

  parsed_bool : Text → Option Bool → Result ConfigError Bool
  parsed_bool name none = err (bad_variable name)
  parsed_bool name (some b) = ok b

  -- The same for a variable that is parsed by `strconv.ParseBool`.
  unfoldable pub bool_variable : Text → Bool → Result ConfigError Bool
  unfolding parsed_bool
  bool_variable name d =
      let v = getenv name in if is_empty v then ok d else parsed_bool name (parse_bool v)

  unfoldable pub parsed_timeout : Text → Option ℤ → Result ConfigError ℤ
  parsed_timeout name none = err (bad_variable name)
  parsed_timeout name (some n) = if ltb_ℤ (pos 0) n then ok n else err (bad_variable name)

  -- `ECHONET_SCRAPE_TIMEOUT_SEC`
  unfoldable pub timeout_variable : Text → ℤ → Result ConfigError ℤ
  unfolding parsed_timeout
  timeout_variable name d =
      let v = getenv name in if is_empty v then ok d else parsed_timeout name (atoi v)

  is_port : Option ℤ → Bool
  is_port none = false
  is_port (some p) = not (ltb_ℤ p (pos 1)) && not (ltb_ℤ (pos 65535) p)

  -- The address of the broker, where `MQTT_BROKER` is not set.
  unfoldable pub broker_of_host : Text → Text → Text → Result ConfigError Text
  unfolding is_port has_prefix
  broker_of_host host given d =
      let port = if is_empty given then text "1883" else given in
      if is_empty host
      then ok d
      else if has_prefix host (text "tcp://") || has_prefix host (text "ssl://")
      then ok host
      else if is_port (atoi port)
      then ok (text "tcp://" ++ (host ++ (b':' ∷ port)))
      else err (bad_variable (text "MQTT_PORT"))

  unfoldable pub broker_variable : Text → Result ConfigError Text
  unfolding broker_of_host text_variable
  broker_variable d =
      let v = getenv (text "MQTT_BROKER") in
      if not (is_empty v)
      then ok v
      else broker_of_host (text_variable (text "MQTT_HOST") (getenv (text "MQTT_SERVER")))
          (getenv (text "MQTT_PORT")) d

  -- `MQTT_USER` before `MQTT_USERNAME`, and `MQTT_PASS` before `MQTT_PASSWORD`.
  unfoldable pub first_variable : Text → Text → Text → Text
  unfolding text_variable
  first_variable a b d = text_variable a (text_variable b d)

  unfoldable pub interfaces_variable : List Text → List Text
  unfolding split_commas
  interfaces_variable d =
      let v = getenv (text "ECHONET_MULTICAST_INTERFACES") in
      if is_empty v then d else split_commas v
