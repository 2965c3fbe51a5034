-- ===== src/Exporter/Descriptors.antt =====
-- internal/metrics/collector.go: a collector, and the descriptors that it announces.
use echonet_go.Base.{Option, none, some, List, [], ◌∷◌, ◌++◌, ltb, ◌==◌, if◌then◌else◌, length, map}
use echonet_go.Base.Maps.{insert, text_key}
use echonet_go.Base.Texts.{Text, text}
use echonet_go.Cache.{Device}
use echonet_go.Exporter.{
  Desc, EnumMeta, subsystem_for_class, collect_extra_label_keys, sort_keys, enum_values,
}
use echonet_go.Identity.{is_empty}
use echonet_go.Specs.{MetricSpec, DeviceSpec}

-- The maps of descriptors: by class, and by metric name.
abbrev pub ByName : Type 0 → Type 0
ByName A = List (Text × A)

-- `Collector`
pub record Collector : Type 0 where
  pub devices : List Device
  pub extra_label_keys : List Text
  pub scrape_success : Desc
  pub scrape_duration : Desc
  pub last_scrape_timestamp : Desc
  pub device_info : Desc
  pub metric_descs : ByName (ByName Desc)
  pub enum_metric_descs : ByName (ByName EnumMeta)

-- `strings.TrimSuffix(s, ".")`
trim_dot : Text → Text
trim_dot [] = []
trim_dot (c ∷ []) = if c == b'.' then [] else c ∷ []
trim_dot (c ∷ d ∷ s) = c ∷ trim_dot (d ∷ s)

unfoldable pub own_desc : (Text → Text → Text → Text) → Text → Text → List Text → Desc
own_desc fq_name name help labels = record {
  name = fq_name (text "echonet") [] name;
  help = help;
  label_names = labels;
}

module _ {F : Type 0} (fq_name : Text → Text → Text → Text) where
  -- `buildEnumMeta`
  unfoldable pub build_enum_meta : Text → MetricSpec F → List Text → EnumMeta
  unfolding trim_dot
  build_enum_meta subsystem m labels = record {
    desc = record {
      name = fq_name (text "echonet") subsystem (m.name ++ text "_info");
      help =
          trim_dot
            (if is_empty m.help then text "Current state of " ++ (m.name ++ text ".") else m.help)
          ++ text " (1 if active, else 0)";
      label_names = labels ++ (text "state" ∷ []);
    };
    values = enum_values m.enum (sort_keys (map (λ e. e.0) m.enum)) [];
  }

  -- The loops of `NewCollector` over the metrics of a class.
  unfoldable pub class_descs : Text → List Text → List (MetricSpec F) → ByName Desc → ByName Desc
  class_descs class labels [] descs = descs
  class_descs class labels (m ∷ ms) descs = class_descs class labels ms (
      insert m.name
        (record {
          name = fq_name (text "echonet") (subsystem_for_class class) m.name;
          help = m.help;
          label_names = labels;
        })
        descs)

  unfoldable pub class_enums :
      Text → List Text → List (MetricSpec F) → ByName EnumMeta → ByName EnumMeta
  unfolding build_enum_meta
  class_enums class labels [] metas = metas
  class_enums class labels (m ∷ ms) metas = class_enums class labels ms (
      if ltb 0 (length m.enum)
      then insert m.name (build_enum_meta (subsystem_for_class class) m labels) metas
      else metas)

  unfoldable pub all_descs :
      List Text → List (Text × Option (DeviceSpec F)) → ByName (ByName Desc) → ByName (ByName Desc)
  unfolding class_descs
  all_descs labels [] descs = descs
  all_descs labels ((class, none) ∷ specs) descs = all_descs labels specs descs
  all_descs labels ((class, some spec) ∷ specs) descs =
      all_descs labels specs (insert class (class_descs class labels spec.metrics []) descs)

  unfoldable pub all_enums :
      List Text
      → List (Text × Option (DeviceSpec F))
      → ByName (ByName EnumMeta)
      → ByName (ByName EnumMeta)
  unfolding class_enums
  all_enums labels [] metas = metas
  all_enums labels ((class, none) ∷ specs) metas = all_enums labels specs metas
  all_enums labels ((class, some spec) ∷ specs) metas =
      all_enums labels specs (insert class (class_enums class labels spec.metrics []) metas)

  -- `NewCollector`
  unfoldable pub new_collector : List Device → List (Text × Option (DeviceSpec F)) → Collector
  unfolding all_descs all_enums own_desc
  new_collector devices specs =
      let keys = collect_extra_label_keys devices in
      let labels = text "device" ∷ text "ip" ∷ text "class" ∷ keys in
      record {
        devices = devices;
        extra_label_keys = keys;
        scrape_success =
            own_desc fq_name (text "scrape_success")
              (text "1 if the last scrape of this device succeeded, 0 otherwise.") labels;
        scrape_duration =
            own_desc fq_name (text "scrape_duration_seconds")
              (text "Duration of the last scrape for this device in seconds.") labels;
        last_scrape_timestamp =
            own_desc fq_name (text "last_scrape_timestamp_seconds")
              (text "Unix timestamp of the last successful scrape for this device.") labels;
        device_info =
            own_desc fq_name (text "device_info")
              (text "Static device identity labels from generic ECHONET properties.")
              (labels ++ (text "manufacturer" ∷ text "product_code" ∷ text "uid" ∷ []));
        metric_descs = all_descs labels specs [];
        enum_metric_descs = all_enums labels specs [];
      }

unfoldable pub flatten_class : {A : Type 0} → (A → List Desc) → ByName A → List Desc
flatten_class f [] = []
flatten_class f ((name, a) ∷ rest) = f a ++ flatten_class f rest

unfoldable pub flatten : {A : Type 0} → (A → List Desc) → ByName (ByName A) → List Desc
unfolding flatten_class
flatten f [] = []
flatten f ((class, m) ∷ classes) = flatten_class f m ++ flatten f classes

-- `Describe`
unfoldable pub describe : Collector → List Desc
unfolding flatten
describe c =
    c.scrape_success
    ∷ c.scrape_duration
    ∷ c.last_scrape_timestamp
    ∷ c.device_info
    ∷ (flatten (λ d. d ∷ []) c.metric_descs ++ flatten (λ meta. meta.desc ∷ []) c.enum_metric_descs)
