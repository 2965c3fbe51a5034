-- ===== src/Tests/Specs.antt =====
-- internal/specs/loader.go: an entry of a temperature, and a class with one metric.
use echonet_go.Base.{
  ◌≡◌, refl, Bool, true, false, Option, none, some, List, [], ◌∷◌, ok, if◌then◌else◌, All,
}
use echonet_go.Base.Int.{ℤ, pos}
use echonet_go.Base.Maps.{has, insert}
use echonet_go.Base.Texts.{Text, text, text_eq}
use echonet_go.Floats.{whole_floats}
use echonet_go.Loader.{
  MetricYaml, metric_of, parse_metric_spec, unless, check_labels, read_interval, scale_refused,
  has_suffix,
}
use echonet_go.Specs.{DeviceSpec}
use echonet_go.Superclass.{super_class_metrics, merge_super_class, default_scrape_interval}
use echonet_go.Superclass.Loaded.{IsUsableEntry, load_specs-AllUsable}
use echonet_go.Superclass.Loading.{
  DeviceYaml, load_specs, parse_device_yaml, load_entries, optional, and_then, read_eoj,
}
use echonet_go.Superclass.Merging.{IsMerged, merge_super_class-IsMerged}
use echonet_go.Tests.Caches.{ac_object}
use echonet_go.Tests.Metrics.{temperature}

abbrev entry : MetricYaml ℤ
entry = record {
  epc = pos 0xB3;
  name = text "target_celsius";
  help = text "Target";
  size = pos 1;
  offset = pos 0;
  scale = pos 1;
  signed = true;
  invalid = none;
  kind = text "gauge";
  enum = [];
  scrape_interval = [];
  ha_device_class = [];
  ha_state_class = [];
  ha_unit = [];
  number_min = none;
  number_max = none;
  pre_set = none;
  exclude_set = false;
  multiplier_epc = pos 0;
  multiplier_map = [];
  set_mode = [];
}

abbrev class_spec : DeviceSpec ℤ
class_spec = record {
  eoj = ac_object;
  description = [];
  default_scrape_interval = 60;
  metrics = temperature ∷ [];
  climate = none;
  light = none;
}

merge_super_class-IsMerged_example :
    IsMerged whole_floats
      (super_class_metrics whole_floats)
      (temperature ∷ [])
      (merge_super_class whole_floats class_spec).metrics
unfolding has
merge_super_class-IsMerged_example = merge_super_class-IsMerged whole_floats class_spec (refl, tt)

abbrev file : DeviceYaml ℤ
file = record {
  eoj = pos 1 ∷ pos 0x30 ∷ pos 1 ∷ [];
  description = text "Air conditioner";
  default_scrape_interval = [];
  metrics = entry ∷ [];
  climate = none;
  light = none;
}

abbrev listing : List (Text × Bool)
listing = (text "old.yaml", true) ∷ (text "README.md", false) ∷ (text "ac.yaml", false) ∷ []

abbrev directory : Text → Option (List (Text × Bool))
directory dir = if text_eq dir (text "etc/specs") then some listing else none

abbrev contents : Text → Text → Option (Option (DeviceYaml ℤ))
contents dir name = if text_eq name (text "ac.yaml") then some (some file) else none

abbrev classes : List (Text × Option (DeviceSpec ℤ))
classes =
    (
      text "ac",
      some (
          merge_super_class whole_floats (record class_spec {
            description = text "Air conditioner";
            default_scrape_interval = default_scrape_interval;
            metrics =
                metric_of whole_floats (λ s. none) (λ eoj epc. []) entry ac_object
                  default_scrape_interval
                ∷ [];
          })),
    )
    ∷ []

directory_loads :
    load_specs whole_floats (λ s. none) (λ eoj epc. []) directory contents [] ≡ ok classes
unfolding load_specs parse_metric_spec unless text_eq check_labels read_interval scale_refused
    has_suffix parse_device_yaml load_entries optional and_then read_eoj insert
directory_loads = refl

load_specs-AllUsable_example : All (λ (e : Text × Option (DeviceSpec ℤ)). IsUsableEntry e.1) classes
load_specs-AllUsable_example =
    load_specs-AllUsable whole_floats (λ s. none) (λ eoj epc. []) directory contents [] classes
      directory_loads
