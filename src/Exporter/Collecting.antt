-- ===== src/Exporter/Collecting.antt =====
-- internal/metrics/collector.go: the samples of a collector.
use echonet_go.Base.{
  ℕ, ◌/◌, not, ◌&&◌, Option, none, some, List, [], ◌∷◌, ◌++◌, ◌==◌, if◌then◌else◌,
}
use echonet_go.Base.Int.{ℤ, pos, eq_ℤ, sub_ℕ}
use echonet_go.Base.Maps.{lookup, text_key}
use echonet_go.Base.Texts.{Text, text, text_eq}
use echonet_go.Cache.{Cache, Device}
use echonet_go.Cache.Status.{Status, get, get_info}
use echonet_go.Exporter.{Desc, EnumMeta, Sample, gauge, counter, label_values}
use echonet_go.Floats.{Float64}
use echonet_go.Identity.{DeviceInfo}
use echonet_go.Readings.{Readings, MetricValue}
use echonet_go.Exporter.Descriptors.{ByName, Collector}

-- The enumerations of a class; a missing key reads as an empty map.
unfoldable pub metas_of : Option (ByName EnumMeta) → ByName EnumMeta
metas_of none = []
metas_of (some metas) = metas

module _ (fl : Float64) (c : Collector) where
  open fl use {F, of_int, to_int, round}

  -- The samples of the states of an enumeration.
  unfoldable pub state_samples : Desc → List Text → ℤ → List (ℤ × Text) → List (Sample F)
  state_samples desc labels raw [] = []
  state_samples desc labels raw ((v, label) ∷ values) =
      record {
        desc = desc;
        value_type = gauge;
        value = of_int (pos (if eq_ℤ raw v then 1 else 0));
        labels = labels ++ (label ∷ []);
      }
      ∷ state_samples desc labels raw values

  unfoldable pub enum_samples : List Text → F → Option EnumMeta → List (Sample F)
  unfolding state_samples
  enum_samples labels value none = []
  enum_samples labels value (some meta) =
      state_samples meta.desc labels (to_int (round value)) meta.values

  unfoldable pub metric_samples :
      List Text → MetricValue F → Option EnumMeta → Option Desc → List (Sample F)
  unfolding enum_samples
  metric_samples labels mv meta none = []
  metric_samples labels mv meta (some desc) =
      record {
        desc = desc;
        value_type = if text_eq mv.kind (text "counter") then counter else gauge;
        value = mv.value;
        labels = labels;
      }
      ∷ enum_samples labels mv.value meta

  unfoldable pub class_samples :
      ByName Desc → ByName EnumMeta → List Text → Readings F → List (Sample F)
  unfolding metric_samples
  class_samples descs metas labels [] = []
  class_samples descs metas labels ((name, mv) ∷ metrics) =
      metric_samples labels mv (lookup name metas) (lookup name descs)
      ++ class_samples descs metas labels metrics

  unfoldable pub known_class :
      Text → List Text → Readings F → Option (ByName Desc) → List (Sample F)
  unfolding class_samples metas_of
  known_class class labels metrics none = []
  known_class class labels metrics (some descs) =
      class_samples descs (metas_of (lookup class c.enum_metric_descs)) labels metrics

  -- `collectDeviceMetrics`
  unfoldable pub collect_device_metrics : Text → List Text → Readings F → List (Sample F)
  unfolding known_class
  collect_device_metrics class labels metrics =
      known_class class labels metrics (lookup class c.metric_descs)

  -- `lastScrape.Unix()`: the zero time is 62135596800 seconds before 1970.
  unfoldable pub unix : ℕ → ℤ
  unix t = sub_ℕ (t / 1000000000) 62135596800

  -- The samples that each device has.
  unfoldable pub device_samples : Status F → DeviceInfo → List Text → List (Sample F)
  unfolding unix
  device_samples status info labels =
      record {
        desc = c.scrape_success;
        value_type = gauge;
        value = of_int (pos (if status.success then 1 else 0));
        labels = labels;
      }
      ∷ record {
        desc = c.scrape_duration;
        value_type = gauge;
        value = status.duration_sec;
        labels = labels;
      }
      ∷ record {
        desc = c.device_info;
        value_type = gauge;
        value = of_int (pos 1);
        labels = labels ++ (info.manufacturer ∷ info.product_code ∷ info.uid ∷ []);
      }
      ∷ (if status.success && not (status.last_scrape == 0)
          then record {
            desc = c.last_scrape_timestamp;
            value_type = gauge;
            value = of_int (unix status.last_scrape);
            labels = labels;
          }
            ∷ []
          else [])

  -- `collectDevice`
  unfoldable pub collect_device : ℕ → Cache F → Device → List (Sample F)
  unfolding device_samples collect_device_metrics
  collect_device now cache dev =
      let status = get now (of_int (pos 0)) cache dev in
      let labels = label_values c.extra_label_keys dev in
      device_samples status (get_info cache dev) labels
      ++ collect_device_metrics dev.class labels status.metrics

  unfoldable pub collect_all : ℕ → Cache F → List Device → List (Sample F)
  unfolding collect_device
  collect_all now cache [] = []
  collect_all now cache (dev ∷ devices) =
      collect_device now cache dev ++ collect_all now cache devices

  -- `Collect`, with the clock of the calls of `Get`.
  unfoldable pub collect : ℕ → Cache F → List (Sample F)
  unfolding collect_all
  collect now cache = collect_all now cache c.devices
