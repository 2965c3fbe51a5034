-- ===== src/Tests/Samples.antt =====
-- internal/metrics/collector.go: an air conditioner with a temperature and an operation mode, whose states
-- have labels that collide.
use echonet_go.Base.{◌≡◌, refl, true, none, some, Option, List, [], ◌∷◌, ◌++◌, All, map}
use echonet_go.Base.Int.{ℤ, pos}
use echonet_go.Base.Texts.{Text, text, text_eq}
use echonet_go.Cache.{Cache, Device, new_cache}
use echonet_go.Base.Maps.{lookup}
use echonet_go.Discovery.Options.{contains}
use echonet_go.Identity.{drop_while, trim_right, trim_space, hex_digit}
use echonet_go.Exporter.{enum_values, sort_keys, sanitize_enum_label}
use echonet_go.Exporter.Collecting.{collect}
use echonet_go.Exporter.Descriptors.{new_collector, describe}
use echonet_go.Exporter.Registered.{IsTaken, collect-IsTaken}
use echonet_go.Floats.{whole_floats}
use echonet_go.Specs.{MetricSpec, DeviceSpec}
use echonet_go.Tests.Caches.{living_ac}
use echonet_go.Tests.Metrics.{temperature}
use echonet_go.Updates.{update}

abbrev operation_mode : MetricSpec ℤ
operation_mode = record temperature {
  epc = 0xB0;
  name = text "mode";
  enum = (pos 0, text "a 0x2") ∷ (pos 1, text "a") ∷ (pos 2, text "a") ∷ [];
}

abbrev specs : List (Text × Option (DeviceSpec ℤ))
specs =
    (
      text "home_ac",
      some (record {
        eoj = record { b0 = 1; b1 = 0x30; b2 = 1 };
        description = text "air conditioner";
        default_scrape_interval = 60;
        metrics = temperature ∷ operation_mode ∷ [];
        climate = none;
        light = none;
      }),
    )
    ∷ (text "unknown", none)
    ∷ []

abbrev devices : List Device
devices = record living_ac { labels = (text "room", text "living") ∷ [] } ∷ []

abbrev joined : Text → Text → Text → Text
joined namespace subsystem name = namespace ++ (b'_' ∷ (subsystem ++ (b'_' ∷ name)))

abbrev scraped : Cache ℤ
scraped =
    update whole_floats 100 living_ac (text "60s") 60 true (pos 1)
      ((text "mode", record { value = pos 2; kind = text "gauge"; enum_label = text "a" }) ∷ []) []
      new_cache

collect-IsTaken_example :
    All
      (IsTaken (describe (new_collector joined devices specs)))
      (collect whole_floats (new_collector joined devices specs) 100 scraped)
collect-IsTaken_example = collect-IsTaken whole_floats joined devices specs 100 scraped

-- Two states of the mode have one label: the suffix is not compared with the labels in use.
colliding_labels :
    map
      (λ e. e.1)
      (enum_values operation_mode.enum (sort_keys (map (λ e. e.0) operation_mode.enum)) [])
    ≡ text "a_0x2" ∷ text "a" ∷ text "a_0x2" ∷ []
unfolding enum_values sort_keys contains sanitize_enum_label text_eq drop_while trim_right
    trim_space lookup hex_digit
colliding_labels = refl
