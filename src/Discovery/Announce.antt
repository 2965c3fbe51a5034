-- ===== src/Discovery/Announce.antt =====
-- internal/mqtt/discovery.go and internal/mqtt/publisher.go: what a device's state makes the publisher
-- send, with the state that it keeps between two devices.
use echonet_go.Base.{
  ℕ, suc, Bool, true, false, not, ◌&&◌, Option, none, some, List, [], ◌∷◌, ◌++◌, if◌then◌else◌, ltb,
  length, map,
}
use echonet_go.Base.Int.{ℤ, pos, negsuc}
use echonet_go.Base.Maps.{ByteSet, lookup, insert, text_key}
use echonet_go.Base.Texts.{Text, text, text_eq}
use echonet_go.Cache.{Device, DeviceState, or_else}
use echonet_go.Commander.Topics.{join}
use echonet_go.Discovery.{friendly_name, decimal_int}
use echonet_go.Discovery.Entities.{
  object_id, config_topic, build_sensor_payload, publish_climate_discovery, publish_light_discovery,
  publish_writable_discovery,
}
use echonet_go.Floats.{Float64}
use echonet_go.Identity.{DeviceInfo, is_empty}
use echonet_go.Publisher.{
  HaDevice, Message, plain, sensor_config, state_object, string, JsonValue, Printer,
}
use echonet_go.Publisher.States.{
  base_of, publish_availability, publish_state, publish_climate_state, publish_light_state,
  publish_writable_state,
}
use echonet_go.Readings.{Readings}
use echonet_go.Specs.{MetricSpec, ClimateSpec, LightSpec}

-- What a publisher remembers: for each name the identity that was announced, and how often it was not.
pub record Announced : Type 0 where
  pub published : List (Text × Text)
  pub info_skips : List (Text × ℕ)

writable_count : Option ByteSet → ℤ
writable_count none = negsuc 0
writable_count (some writable) = pos (length writable)

-- `infoKey`: `%s|%s|w:%d`
unfoldable pub info_key : DeviceInfo → Option ByteSet → Text
unfolding writable_count
info_key info writable =
    info.manufacturer
    ++ (b'|' ∷ (info.product_code ++ (text "|w:" ++ decimal_int (writable_count writable))))

is_announced : Option Text → Text → Bool
is_announced none key = false
is_announced (some prev) key = text_eq prev key

module _ (fl : Float64) (pr : Printer fl.F) (topic_prefix discovery_prefix sw_version : Text)
    (marshals : List (Text × JsonValue fl.F) → Bool) where
  open fl use {F}
  open pr use {title}

  retained : Text → Text → Message F
  retained topic payload = record { topic = topic; retained = true; body = plain payload }

  wipe_entities : Device → MetricSpec F → List (Message F)
  unfolding retained
  wipe_entities dev ms =
      map
        (λ kind.
          retained
            (config_topic fl pr topic_prefix discovery_prefix kind
              (object_id fl pr topic_prefix discovery_prefix dev ms))
            [])
        (text "sensor" ∷ text "switch" ∷ text "select" ∷ text "number" ∷ [])

  wipe_metrics : Device → List (MetricSpec F) → List (Message F)
  unfolding wipe_entities
  wipe_metrics dev [] = []
  wipe_metrics dev (ms ∷ specs) = wipe_entities dev ms ++ wipe_metrics dev specs

  -- `wipeDeviceDiscovery`
  unfoldable pub wipe_device_discovery : Device → List (MetricSpec F) → List (Message F)
  unfolding wipe_metrics retained
  wipe_device_discovery dev specs =
      wipe_metrics dev specs
      ++ (retained
            (config_topic fl pr topic_prefix discovery_prefix (text "climate")
              (dev.name ++ text "_climate"))
            []
          ∷ retained
              (config_topic fl pr topic_prefix discovery_prefix (text "light")
                (dev.name ++ text "_light"))
              []
          ∷ [])

  -- The device that the entities belong to.
  unfoldable pub device_of : Device → DeviceInfo → HaDevice
  device_of dev info = record {
    identifiers =
        (text "echonetgo_" ++ dev.name)
        ∷ (if is_empty info.uid then [] else (info.uid ++ (b'_' ∷ dev.name)) ∷ []);
    name = friendly_name title dev.name;
    manufacturer = info.manufacturer;
    model = info.product_code;
    sw_version = sw_version;
    via_device = text "echonetgo";
  }

  -- The loop over the sensors.
  unfoldable pub sensors : Device → HaDevice → Text → List (MetricSpec F) → List (Message F)
  sensors dev device avail [] = []
  sensors dev device avail (ms ∷ specs) =
      let object = object_id fl pr topic_prefix discovery_prefix dev ms in
      record {
        topic = config_topic fl pr topic_prefix discovery_prefix (text "sensor") object;
        retained = true;
        body = sensor_config (
            build_sensor_payload fl pr topic_prefix discovery_prefix ms object
              (base_of fl pr topic_prefix dev (text "state")) avail device);
      }
      ∷ sensors dev device avail specs

  writables :
      Device
      → HaDevice
      → Text
      → List (MetricSpec F)
      → Option ByteSet
      → Option (ClimateSpec F)
      → Option LightSpec
      → Readings F
      → List (Message F)
  writables dev device avail specs none climate light metrics = []
  writables dev device avail specs (some writable) climate light metrics =
      publish_writable_discovery fl pr topic_prefix discovery_prefix dev device avail specs writable
        climate light metrics

  climates :
      Device → HaDevice → Text → Option (ClimateSpec F) → List (MetricSpec F) → List (Message F)
  climates dev device avail none specs = []
  climates dev device avail (some cl) specs =
      publish_climate_discovery fl pr topic_prefix discovery_prefix dev device avail cl specs

  lights : Device → HaDevice → Text → Option LightSpec → List (MetricSpec F) → List (Message F)
  lights dev device avail none specs = []
  lights dev device avail (some light) specs =
      publish_light_discovery fl pr topic_prefix discovery_prefix dev device avail light specs

  -- Everything that announces a device.
  unfoldable pub announcement :
      Device
      → DeviceInfo
      → List (MetricSpec F)
      → Option ByteSet
      → Option (ClimateSpec F)
      → Option LightSpec
      → Readings F
      → List (Message F)
  unfolding writables climates lights
  announcement dev info specs writable climate light metrics =
      let device = device_of dev info in
      let avail = base_of fl pr topic_prefix dev (text "availability") in
      wipe_device_discovery dev specs
      ++ (sensors dev device avail specs
          ++ (writables dev device avail specs writable climate light metrics
              ++ (climates dev device avail climate specs ++ lights dev device avail light specs)))

  -- `ensureDiscovery`
  unfoldable pub ensure_discovery :
      Device
      → DeviceInfo
      → List (MetricSpec F)
      → Option ByteSet
      → Option (ClimateSpec F)
      → Option LightSpec
      → Readings F
      → Announced
      → List (Message F) × Announced
  unfolding is_announced announcement
  ensure_discovery dev info specs writable climate light metrics a =
      let key = info_key info writable in
      if is_empty info.manufacturer && is_empty info.uid
      then (
        [],
        record a {
          info_skips =
              insert dev.name (suc (or_else (lookup dev.name a.info_skips) 0)) a.info_skips;
        },
      )
      else if is_announced (lookup dev.name a.published) key
      then ([], a)
      else (
        announcement dev info specs writable climate light metrics,
        record a { published = insert dev.name key a.published },
      )

  climate_states :
      Device → Readings F → List (MetricSpec F) → Option (ClimateSpec F) → List (Message F)
  climate_states dev metrics specs none = []
  climate_states dev metrics specs (some cl) =
      publish_climate_state fl pr topic_prefix dev metrics specs cl

  light_states : Device → Readings F → List (MetricSpec F) → Option LightSpec → List (Message F)
  light_states dev metrics specs none = []
  light_states dev metrics specs (some light) =
      publish_light_state fl pr topic_prefix dev metrics specs light

  writable_states :
      Device
      → Readings F
      → List (MetricSpec F)
      → Option ByteSet
      → Option (ClimateSpec F)
      → Option LightSpec
      → List (Message F)
  writable_states dev metrics specs none climate light = []
  writable_states dev metrics specs (some writable) climate light =
      publish_writable_state fl pr topic_prefix dev metrics specs writable climate light

  -- `PublishDeviceState`
  unfoldable pub publish_device_state : DeviceState F → Announced → List (Message F) × Announced
  unfolding ensure_discovery climate_states light_states writable_states
  publish_device_state st a =
      let dev = st.device in
      let specs = or_else st.metric_specs [] in
      let avail = publish_availability fl pr topic_prefix dev st.success in
      if not (st.success && ltb 0 (length st.metrics))
      then (avail, a)
      else (let (discovery, a') =
            ensure_discovery dev st.info specs st.writable st.climate st.light st.metrics a in
          (
            avail
                ++ (discovery
                    ++ (publish_state fl pr topic_prefix marshals dev st.metrics
                        ++ (climate_states dev st.metrics specs st.climate
                            ++ (light_states dev st.metrics specs st.light
                                ++ writable_states dev st.metrics specs st.writable st.climate
                                    st.light)))),
            a',
          ))

  -- `publishBridgeDevice`, when the first message is taken; `expire_after` is not set.
  unfoldable pub publish_bridge_device : List (Message F)
  unfolding retained
  publish_bridge_device =
      let avail = join (topic_prefix ∷ text "bridge" ∷ text "availability" ∷ []) in
      let state = join (topic_prefix ∷ text "bridge" ∷ text "state" ∷ []) in
      record {
        topic =
            config_topic fl pr topic_prefix discovery_prefix (text "sensor")
              (text "echonetgo_bridge_status");
        retained = true;
        body = sensor_config (record {
          name = text "Status";
          unique_id = text "echonetgo_bridge_status";
          state_topic = state;
          value_template = text "{{ value_json.status }}";
          device_class = [];
          state_class = [];
          unit_of_measurement = [];
          options = [];
          availability_topic = avail;
          expire_after = pos 0;
          force_update = true;
          suggested_display_precision = none;
          device = record {
            identifiers = text "echonetgo" ∷ [];
            name = text "EchonetGO";
            manufacturer = text "github.com/styygeli/EchonetGO";
            model = text "ECHONET Lite Gateway";
            sw_version = sw_version;
            via_device = [];
          };
        });
      }
      ∷ retained avail (text "online")
      ∷ record {
        topic = state;
        retained = true;
        body = state_object ((text "status", string (text "online")) ∷ []);
      }
      ∷ []
