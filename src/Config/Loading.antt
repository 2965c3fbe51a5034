-- ===== src/Config/Loading.antt =====
-- internal/config/config.go: the order in which the parts of a configuration are read.
use echonet_go.Base.{
  Bool, true, false, not, ◌&&◌, Option, none, some, List, [], ◌∷◌, if◌then◌else◌, length, Result,
  ok, err, ◌==◌,
}
use echonet_go.Base.Int.{pos}
use echonet_go.Base.Texts.{Text, text, text_eq}
use echonet_go.Cache.{Device}
use echonet_go.Identity.{is_empty}
use echonet_go.Config.{
  Config, ConfigError, ReadError, not_exist, unread_file, bad_devices, bad_json, Environment, Files,
  text_variable, bool_variable, timeout_variable, broker_variable, first_variable,
  interfaces_variable, sanitize, validate,
}

-- `if err != nil { return err }`, and what follows.
unfoldable pub and_then :
    {A B : Type 0} → Result ConfigError A → (A → Result ConfigError B) → Result ConfigError B
and_then (ok a) f = f a
and_then (err e) f = err e

has_slash : Text → Bool
has_slash [] = false
has_slash (c ∷ s) = if c == b'/' then true else has_slash s

-- `filepath.Ext`: from the last dot of the last part of a path.
unfoldable pub ext : Text → Text
unfolding has_slash
ext [] = []
ext (c ∷ path) =
    let rest = ext path in
    if not (is_empty rest) then rest else if c == b'.' && not (has_slash path) then c ∷ path else []

parsed_devices : Option (List Device) → Result ConfigError (List Device)
parsed_devices none = err bad_devices
parsed_devices (some devices) = ok devices

module _ (files : Files) where
  open files use {read_file, unmarshal_json, unmarshal_yaml, unmarshal_list}

  parse_file : Text → Result ReadError Text → Result ConfigError (List Device)
  parse_file path (err e) = err (unread_file e)
  parse_file path (ok content) =
      parsed_devices (
        if text_eq (ext path) (text ".json")
        then unmarshal_json content
        else unmarshal_yaml content)

  -- `loadDevicesFile`
  unfoldable pub load_devices_file : Text → Result ConfigError (List Device)
  unfolding parse_file parsed_devices
  load_devices_file path = parse_file path (read_file path)

  -- A file that does not exist leaves the devices as they are.
  from_file : List Device → Result ConfigError (List Device) → Result ConfigError (List Device)
  from_file devices (err (unread_file not_exist)) = ok devices
  from_file devices r = r

  from_list : Option (List Device) → Result ConfigError (List Device)
  from_list none = err bad_json
  from_list (some devices) = ok devices

  -- `loadAdditionalDevices`: the devices behind the file and the variable `ECHONET_DEVICES`.
  unfoldable pub load_additional_devices : Environment → Config → Result ConfigError Config
  unfolding from_file from_list
  load_additional_devices env c =
      let json = env.getenv (text "ECHONET_DEVICES") in
      and_then
        (if length c.devices == 0 && not (is_empty c.devices_path)
          then from_file c.devices (load_devices_file c.devices_path)
          else ok c.devices)
        (λ devices.
          and_then (if is_empty json then ok devices else from_list (unmarshal_list json))
            (λ devices'. ok (record c { devices = devices' })))

module _ (env : Environment) where
  -- `applyEnvOverrides`
  unfoldable pub apply_env_overrides : Config → Result ConfigError Config
  apply_env_overrides c =
      let str = text_variable env in
      let flag = bool_variable env in
      and_then (timeout_variable env (text "ECHONET_SCRAPE_TIMEOUT_SEC") c.scrape_timeout_sec)
        (λ timeout.
          and_then (flag (text "ECHONET_STRICT_SOURCE_PORT_3610") c.strict_source_port_3610)
            (λ strict.
              and_then (flag (text "ECHONET_METRICS_ENABLED") c.metrics_enabled) (λ metrics.
                and_then (flag (text "ECHONET_NOTIFICATIONS_ENABLED") c.notifications_enabled)
                  (λ notifications.
                    and_then (flag (text "ECHONET_FORCE_POLLING") c.force_polling) (λ force.
                      and_then (broker_variable env c.mqtt.broker) (λ broker. ok (record {
                        listen_addr = str (text "ECHONET_LISTEN_ADDR") c.listen_addr;
                        scrape_timeout_sec = timeout;
                        strict_source_port_3610 = strict;
                        devices_path = str (text "ECHONET_DEVICES_PATH") c.devices_path;
                        specs_dir = str (text "ECHONET_SPECS_DIR") c.specs_dir;
                        metrics_enabled = metrics;
                        notifications_enabled = notifications;
                        force_polling = force;
                        multicast_interfaces = interfaces_variable env c.multicast_interfaces;
                        devices = c.devices;
                        mqtt = record {
                          broker = broker;
                          username =
                              first_variable env (text "MQTT_USER") (text "MQTT_USERNAME")
                                c.mqtt.username;
                          password =
                              first_variable env (text "MQTT_PASS") (text "MQTT_PASSWORD")
                                c.mqtt.password;
                          topic_prefix = str (text "MQTT_TOPIC_PREFIX") c.mqtt.topic_prefix;
                          discovery_prefix =
                              str (text "MQTT_DISCOVERY_PREFIX") c.mqtt.discovery_prefix;
                        };
                      })))))))

  -- The configuration that `Load` starts from; a new one has no prefixes, so the defaults are set.
  unfoldable pub default_config : Config
  default_config = record {
    listen_addr = text ":9191";
    scrape_timeout_sec = pos 15;
    strict_source_port_3610 = true;
    devices_path = text_variable env (text "ECHONET_DEVICES_PATH") (text "etc/devices.yaml");
    specs_dir = [];
    metrics_enabled = false;
    notifications_enabled = true;
    force_polling = false;
    multicast_interfaces = [];
    devices = [];
    mqtt = record {
      broker = [];
      username = [];
      password = [];
      topic_prefix = text "echonetgo";
      discovery_prefix = text "homeassistant";
    };
  }

  unfoldable pub checked : Config → Option ConfigError → Result ConfigError Config
  checked c none = ok c
  checked c (some e) = err e

  -- `Load`
  unfoldable pub load : Files → Result ConfigError Config
  unfolding apply_env_overrides default_config checked
  load files = and_then (apply_env_overrides default_config) (λ c.
      and_then (load_additional_devices files env c)
        (λ c'. let clean = sanitize c' in checked clean (validate clean)))
