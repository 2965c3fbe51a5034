-- ===== src/Superclass/Loading.antt =====
-- internal/specs/loader.go: from the directory of specification files to the specifications by class. What
-- reads the directory, a file and its YAML are arguments.
use echonet_go.Base.{
  ℕ, ◌-◌, Bool, not, ◌||◌, Option, none, some, List, [], ◌∷◌, ◌==◌, if◌then◌else◌, length, take,
  Result, ok, err,
}
use echonet_go.Base.Int.{ℤ, pos_part}
use echonet_go.Base.Maps.{insert, text_key}
use echonet_go.Base.Texts.{Text, text}
use echonet_go.Floats.{Float64}
use echonet_go.Identity.{is_empty}
use echonet_go.Loader.{
  LoadError, unless, no_byte, MetricYaml, parse_metric_spec, read_interval, has_suffix, bad_eoj,
  bad_yaml, unread_file, unread_dir,
}
use echonet_go.Protocol.{Eoj}
use echonet_go.Specs.{MetricSpec, DeviceSpec}
use echonet_go.Superclass.{
  ClimateYaml, LightYaml, parse_climate_yaml, parse_light_yaml, default_scrape_interval,
  merge_super_class,
}

-- `deviceYAML`
pub record DeviceYaml (F : Type 0) : Type 0 where
  pub eoj : List ℤ
  pub description : Text
  pub default_scrape_interval : Text
  pub metrics : List (MetricYaml F)
  pub climate : Option (ClimateYaml F)
  pub light : Option LightYaml

-- `if err != nil { return nil, err }` behind a call.
unfoldable pub and_then {ℓ κ} :
    {A : Type ℓ} {B : Type κ} → Result LoadError A → (A → Result LoadError B) → Result LoadError B
and_then (err e) f = err e
and_then (ok a) f = f a

-- A part that may be left out.
unfoldable pub optional {ℓ κ} :
    {A : Type ℓ} {B : Type κ} → (A → Result LoadError B) → Option A → Result LoadError (Option B)
unfolding and_then
optional f none = ok none
optional f (some a) = and_then (f a) (λ b. ok (some b))

-- The loop over the bytes of the object, behind the check that there are three.
unfoldable pub read_eoj : List ℤ → Result LoadError Eoj
read_eoj (a ∷ b ∷ c ∷ []) =
    unless (no_byte a || (no_byte b || no_byte c)) bad_eoj
      (ok (record { b0 = pos_part a; b1 = pos_part b; b2 = pos_part c }))
read_eoj _ = err bad_eoj

module _ (fl : Float64) (parse_duration : Text → Option ℤ) (lookup_epc_name : Eoj → ℕ → Text) where
  open fl use {F}

  unfoldable pub parse_metrics :
      List (MetricYaml F) → ℕ → Eoj → Result LoadError (List (MetricSpec F))
  unfolding and_then
  parse_metrics [] interval eoj = ok []
  parse_metrics (m ∷ ms) interval eoj =
      let rest = parse_metrics ms interval eoj in
      and_then (parse_metric_spec fl parse_duration lookup_epc_name m interval eoj)
        (λ s. and_then rest (λ ss. ok (s ∷ ss)))

  -- `parseDeviceYAML`, behind the parser of the YAML package.
  unfoldable pub parse_device_yaml : DeviceYaml F → Result LoadError (DeviceSpec F)
  unfolding parse_metrics optional read_eoj
  parse_device_yaml raw = unless (not (length raw.eoj == 3)) bad_eoj (
      and_then (read_interval parse_duration default_scrape_interval raw.default_scrape_interval)
        (λ interval. and_then (read_eoj raw.eoj) (λ eoj.
          and_then (parse_metrics raw.metrics interval eoj) (λ metrics.
            and_then (optional (parse_climate_yaml fl) raw.climate) (λ climate.
              and_then (optional parse_light_yaml raw.light) (λ light. ok (record {
                eoj = eoj;
                description = raw.description;
                default_scrape_interval = interval;
                metrics = metrics;
                climate = climate;
                light = light;
              })))))))

  -- `parseDeviceYAML`, with what the YAML package makes of a file, and `mergeSuperClass`.
  unfoldable pub read_spec : Option (Option (DeviceYaml F)) → Result LoadError (DeviceSpec F)
  unfolding parse_device_yaml
  read_spec none = err unread_file
  read_spec (some none) = err bad_yaml
  read_spec (some (some raw)) =
      and_then (parse_device_yaml raw) (λ spec. ok (merge_super_class fl spec))

  abbrev pub Classes : Type 0
  Classes = List (Text × Option (DeviceSpec F))

  module _ (read_file : Text → Text → Option (Option (DeviceYaml F))) (dir : Text) where
    -- The loop over the entries of the directory; an entry is its name, and whether it is a directory.
    unfoldable pub load_entries : List (Text × Bool) → Classes → Result LoadError Classes
    unfolding read_spec
    load_entries [] out = ok out
    load_entries ((name, is_dir) ∷ entries) out =
        let skipped = load_entries entries out in
        if is_dir || not (has_suffix name (text ".yaml"))
        then skipped
        else and_then (read_spec (read_file dir name))
            (λ spec. load_entries entries (insert (take (length name - 5) name) (some spec) out))

    unfoldable pub load_listed : Option (List (Text × Bool)) → Result LoadError Classes
    unfolding load_entries
    load_listed none = err unread_dir
    load_listed (some entries) = load_entries entries []

  -- `loadFromDir`
  unfoldable pub load_from_dir :
      (Text → Option (List (Text × Bool)))
      → (Text → Text → Option (Option (DeviceYaml F)))
      → Text
      → Result LoadError Classes
  unfolding load_listed
  load_from_dir read_dir read_file dir = load_listed read_file dir (read_dir dir)

  -- `Load` of package specs
  unfoldable pub load_specs :
      (Text → Option (List (Text × Bool)))
      → (Text → Text → Option (Option (DeviceYaml F)))
      → Text
      → Result LoadError Classes
  unfolding load_from_dir
  load_specs read_dir read_file dir =
      load_from_dir read_dir read_file (if is_empty dir then text "etc/specs" else dir)
