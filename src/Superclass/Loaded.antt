-- ===== src/Superclass/Loaded.antt =====
-- internal/specs/loader.go: what holds of the specifications that were loaded.
use echonet_go.Base.{
  ℕ, ◌≡◌, ◌≤◌, ◌<◌, refl, arith, Bool, true, false, not, ◌||◌, Option, none, some, List, [], ◌∷◌,
  ◌++◌, ◌-◌, ◌==◌, if◌then◌else◌, length, map, take, Result, ok, inl, inr, All, All-append,
}
use echonet_go.Base.Int.{ℤ}
use echonet_go.Base.Maps.{has, insert, insert-All, text_key}
use echonet_go.Base.Texts.{Text, text}
use echonet_go.Floats.{Float64}
use echonet_go.Loader.{LoadError, has_suffix}
use echonet_go.Loader.Checks.{IsLoaded}
use echonet_go.Protocol.{Eoj}
use echonet_go.Specs.{MetricSpec, DeviceSpec}
use echonet_go.Superclass.{
  default_scrape_interval, merge_super_class, add_missing, complete_metric, super_class_metrics,
  super_metric,
}
use echonet_go.Superclass.Loading.{
  DeviceYaml, and_then, parse_device_yaml, read_spec, load_entries, load_listed, load_from_dir,
  load_specs,
}
use echonet_go.Superclass.Parsed.{IsPolled, IsUsable, and_then-ok, parse_device_yaml-IsUsable}

-- A class of the map that is returned: it is there, and usable.
abbrev pub IsUsableEntry : {F : Type 0} → Option (DeviceSpec F) → Type 0
IsUsableEntry none = ⊥
IsUsableEntry (some s) = IsUsable s

either-ok :
    {A P : Type 0} (b : Bool) (x y : Result LoadError A) {a : A}
    → (x ≡ ok a → P)
    → (y ≡ ok a → P)
    → (if b then x else y) ≡ ok a
    → P
either-ok true x y f g h = f h
either-ok false x y f g h = g h

module _ (fl : Float64) (parse_duration : Text → Option ℤ) (lookup_epc_name : Eoj → ℕ → Text) where
  open fl use {F}

  -- The metrics of the super class, with an interval.
  complete_metric-IsPolled :
      (d : ℕ) (m : MetricSpec F) → 1 ≤ d → IsLoaded m → IsPolled (complete_metric fl d m)
  unfolding complete_metric
  complete_metric-IsPolled d m le h = (
    record { width = h.width; code = h.code; unit_code = h.unit_code; factors = h.factors },
    ground arith,
  )

  add_missing-Polled :
      (d : ℕ) (super' metrics : List (MetricSpec F))
      → 1 ≤ d
      → All IsLoaded super'
      → All IsPolled metrics
      → All IsPolled (add_missing fl d super' metrics)
  unfolding add_missing
  add_missing-Polled d [] metrics le h k = k
  add_missing-Polled d (m ∷ super') metrics le h k =
      add_missing-Polled d super' _ le h.1 (extended (has m.epc (map (λ x. x.epc) metrics)))
    where
      extended :
          (b : Bool)
          → All IsPolled (if b then metrics else metrics ++ (complete_metric fl d m ∷ []))
      extended true = k
      extended false =
          All-append IsPolled metrics (complete_metric fl d m ∷ []) k
            (complete_metric-IsPolled d m le h.0, tt)

  super_metric-IsLoaded :
      (epc : ℕ) (name help : Text) (enum : List (ℤ × Text)) (invalid : Option ℤ)
      (device_class : Text) (interval : ℕ)
      → epc < 256
      → IsLoaded (super_metric fl epc name help enum invalid device_class interval)
  unfolding super_metric
  super_metric-IsLoaded epc name help enum invalid device_class interval h = record {
    width = inr (inl refl);
    code = h;
    unit_code = omega arith;
    factors = inl refl;
  }

  super_class_metrics-Loaded : All IsLoaded (super_class_metrics fl)
  unfolding super_class_metrics
  super_class_metrics-Loaded = (
    super_metric-IsLoaded _ _ _ _ _ _ _ (omega arith),
    (
      super_metric-IsLoaded _ _ _ _ _ _ _ (omega arith),
      (super_metric-IsLoaded _ _ _ _ _ _ _ (omega arith), tt),
    ),
  )

  merge_super_class-IsUsable : (s : DeviceSpec F) → IsUsable s → IsUsable (merge_super_class fl s)
  unfolding merge_super_class
  merge_super_class-IsUsable s h = record {
    interval = h.interval;
    group = h.group;
    class = h.class;
    instance_code = h.instance_code;
    polled =
        add_missing-Polled _ (super_class_metrics fl) s.metrics (positive h.interval)
          super_class_metrics-Loaded h.polled;
  }
    where
      positive :
          1 ≤ s.default_scrape_interval
          → 1 ≤ (
              if s.default_scrape_interval == 0
              then default_scrape_interval
              else s.default_scrape_interval)
      positive le = ground arith

  read_spec-IsUsable :
      (file : Option (Option (DeviceYaml F))) {s : DeviceSpec F}
      → read_spec fl parse_duration lookup_epc_name file ≡ ok s
      → IsUsable s
  unfolding read_spec
  read_spec-IsUsable none h = absurd (cc)
  read_spec-IsUsable (some none) h = absurd (cc)
  read_spec-IsUsable (some (some raw)) {s} h =
      let (spec, parsed, h1) =
        and_then-ok (parse_device_yaml fl parse_duration lookup_epc_name raw) _ h in
      let merged : merge_super_class fl spec ≡ s = cc in
      rw (← merged) (
        merge_super_class-IsUsable spec
          (parse_device_yaml-IsUsable fl parse_duration lookup_epc_name raw parsed))

  abbrev AllUsable : List (Text × Option (DeviceSpec F)) → Type 0
  AllUsable = All (λ (e : Text × Option (DeviceSpec F)). IsUsableEntry e.1)

  load_entries-AllUsable :
      (read_file : Text → Text → Option (Option (DeviceYaml F))) (dir : Text)
      (entries : List (Text × Bool)) (classes : List (Text × Option (DeviceSpec F)))
      {out : List (Text × Option (DeviceSpec F))}
      → AllUsable classes
      → load_entries fl parse_duration lookup_epc_name read_file dir entries classes ≡ ok out
      → AllUsable out
  unfolding load_entries
  load_entries-AllUsable read_file dir [] classes {out} k h =
      let same : classes ≡ out = cc in rw (← same) k
  load_entries-AllUsable read_file dir ((name, is_dir) ∷ entries) classes {out} k h =
      either-ok (is_dir || not (has_suffix name (text ".yaml"))) _ _
        (load_entries-AllUsable read_file dir entries classes k)
        (read (λ grown l. load_entries-AllUsable read_file dir entries grown l)) h
    where
      class : Text
      class = take (length name - 5) name

      read :
          ((grown : List (Text × Option (DeviceSpec F)))
            → AllUsable grown
            → load_entries fl parse_duration lookup_epc_name read_file dir entries grown ≡ ok out
            → AllUsable out)
          → and_then (read_spec fl parse_duration lookup_epc_name (read_file dir name)) (λ spec.
            load_entries fl parse_duration lookup_epc_name read_file dir entries
              (insert class (some spec) classes))
            ≡ ok out
          → AllUsable out
      read next h' =
          let (spec, loaded, h1) = and_then-ok _ _ h' in
          next _
            (insert-All (λ (e : Text × Option (DeviceSpec F)). IsUsableEntry e.1) class (some spec)
              classes (read_spec-IsUsable (read_file dir name) loaded) k)
            h1

  load_listed-AllUsable :
      (read_file : Text → Text → Option (Option (DeviceYaml F))) (dir : Text)
      (listing : Option (List (Text × Bool))) {out : List (Text × Option (DeviceSpec F))}
      → load_listed fl parse_duration lookup_epc_name read_file dir listing ≡ ok out
      → AllUsable out
  unfolding load_listed
  load_listed-AllUsable read_file dir none h = absurd (cc)
  load_listed-AllUsable read_file dir (some entries) h =
      load_entries-AllUsable read_file dir entries [] tt h

  -- Where loading succeeds, every class that is returned has a specification whose object is three bytes
  -- and whose interval is positive, and each of its metrics, those of the super class included, has a
  -- width that the encoder writes or the automatic one, codes that are bytes, factors if it has a unit,
  -- and a positive interval.
  pub load_specs-AllUsable :
      (read_dir : Text → Option (List (Text × Bool)))
      (read_file : Text → Text → Option (Option (DeviceYaml F))) (dir : Text)
      (out : List (Text × Option (DeviceSpec F)))
      → load_specs fl parse_duration lookup_epc_name read_dir read_file dir ≡ ok out
      → All (λ (e : Text × Option (DeviceSpec F)). IsUsableEntry e.1) out
  unfolding load_specs load_from_dir
  load_specs-AllUsable read_dir read_file dir out h =
      load_listed-AllUsable read_file _ (read_dir _) h
