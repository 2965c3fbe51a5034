-- ===== src/Exporter/Registered.antt =====
-- internal/metrics/collector.go: the samples of a collector against its descriptors. The registry refuses
-- a sample of a descriptor that was not announced, and `MustNewConstMetric` panics where the number of
-- label values is not that of the label names.
use mathlib.Core.Path.{subst}
use mathlib.Core.List.{Mem, mem-cons_self, mem-cons_of_mem, mem-append_left, mem-append_right}
use echonet_go.Base.{
  All-append, ℕ, suc, Bool, true, false, not, ◌&&◌, ◌≡◌, sym, ◌∙◌, inl, inr, Option, some, List, [],
  ◌∷◌, ◌==◌, if◌then◌else◌, length, length-append, All, arith, Option-cases,
}
use echonet_go.Base.Int.{ℤ, pos}
use echonet_go.Base.Maps.{lookup, lookup-All, text_key}
use echonet_go.Base.Texts.{Text}
use echonet_go.Cache.{Cache, Device}
use echonet_go.Cache.Status.{Status, get, get_info}
use echonet_go.Exporter.{Desc, EnumMeta, Sample, gauge, label_values}
use echonet_go.Exporter.Collecting.{
  state_samples, enum_samples, metric_samples, class_samples, metas_of, known_class,
  collect_device_metrics, device_samples, unix, collect_device, collect_all, collect,
}
use echonet_go.Exporter.Descriptors.{ByName, Collector, new_collector, flatten, describe}
use echonet_go.Exporter.Names.{
  flatten-Mem, HasNames, ClassNames, ClassEnums, label_names, HasArity, new_collector-HasArity,
  length-label_values,
}
use echonet_go.Floats.{Float64}
use echonet_go.Identity.{DeviceInfo}
use echonet_go.Readings.{Readings, MetricValue}
use echonet_go.Specs.{DeviceSpec}

-- A sample that the registry takes.
abbrev pub IsTaken : {F : Type 0} → List Desc → Sample F → Type 0
IsTaken announced s = Mem s.desc announced × (length s.labels ≡ length s.desc.label_names)

module _ (fl : Float64) (c : Collector) (labels : List Text)
    (ready : HasArity (length labels) c) where
  open fl use {F}

  abbrev Taken : List (Sample F) → Type 0
  Taken = All (IsTaken (describe c))

  state_samples-Taken :
      (desc : Desc) (raw : ℤ) (values : List (ℤ × Text))
      → Mem desc (describe c)
      → HasNames (suc (length labels)) desc
      → Taken (state_samples fl c desc labels raw values)
  unfolding state_samples
  state_samples-Taken desc raw [] m h = tt
  state_samples-Taken desc raw ((v, label) ∷ values) m h = (
    (m, omega (arith, h, length-append labels (label ∷ []))),
    state_samples-Taken desc raw values m h,
  )

  enum_samples-Taken :
      (value : F) (metas : ByName EnumMeta) (name : Text)
      → ClassEnums (length labels) metas
      → ((meta : EnumMeta) → lookup name metas ≡ some meta → Mem meta.desc (describe c))
      → Taken (enum_samples fl c labels value (lookup name metas))
  unfolding enum_samples
  enum_samples-Taken value metas name h m = elim (Option-cases (lookup name metas)) [
    | inl e ↦ rw e tt
    | inr (meta, e) ↦ rw e (
        state_samples-Taken meta.desc (fl.to_int (fl.round value)) meta.values (m meta e) (
          lookup-All (λ (q : Text × EnumMeta). HasNames (suc (length labels)) q.1.desc) name metas h
            e))
  ]

  metric_samples-Taken :
      (mv : MetricValue F) (name : Text) (metas : ByName EnumMeta) (descs : ByName Desc)
      → ClassNames (length labels) descs
      → ((desc : Desc) → lookup name descs ≡ some desc → Mem desc (describe c))
      → Taken (enum_samples fl c labels mv.value (lookup name metas))
      → Taken (metric_samples fl c labels mv (lookup name metas) (lookup name descs))
  unfolding metric_samples
  metric_samples-Taken mv name metas descs h m states = elim (Option-cases (lookup name descs)) [
    | inl e ↦ rw e tt
    | inr (desc, e) ↦ rw e (
      (
        m desc e,
        sym (lookup-All (λ (q : Text × Desc). HasNames (length labels) q.1) name descs h e),
      ),
      states,
    )
  ]

  class_samples-Taken :
      (descs : ByName Desc) (metas : ByName EnumMeta) (metrics : Readings F)
      → ClassNames (length labels) descs
      → ((name : Text) (desc : Desc) → lookup name descs ≡ some desc → Mem desc (describe c))
      → ClassEnums (length labels) metas
      → ((name : Text) (meta : EnumMeta)
          → lookup name metas ≡ some meta
          → Mem meta.desc (describe c))
      → Taken (class_samples fl c descs metas labels metrics)
  unfolding class_samples
  class_samples-Taken descs metas [] h m k n = tt
  class_samples-Taken descs metas ((name, mv) ∷ metrics) h m k n =
      All-append (IsTaken (describe c)) _ _
        (metric_samples-Taken mv name metas descs h (m name)
          (enum_samples-Taken mv.value metas name k (n name)))
        (class_samples-Taken descs metas metrics h m k n)

  metric_desc-Mem :
      (class name : Text) {descs : ByName Desc} {desc : Desc}
      → lookup class c.metric_descs ≡ some descs
      → lookup name descs ≡ some desc
      → Mem desc (describe c)
  unfolding describe
  metric_desc-Mem class name {descs} {desc} e k = mem-append_right own (
      mem-append_left _
        (flatten-Mem (λ (d : Desc). d ∷ []) desc class name c.metric_descs e k mem-cons_self))
    where
      own : List Desc
      own = c.scrape_success ∷ c.scrape_duration ∷ c.last_scrape_timestamp ∷ c.device_info ∷ []

  enum_desc-Mem :
      (class name : Text) {metas : ByName EnumMeta} {meta : EnumMeta}
      → lookup class c.enum_metric_descs ≡ some metas
      → lookup name metas ≡ some meta
      → Mem meta.desc (describe c)
  unfolding describe
  enum_desc-Mem class name {metas} {meta} e k = mem-append_right own (
      mem-append_right (flatten (λ (d : Desc). d ∷ []) c.metric_descs) (
        flatten-Mem (λ (a : EnumMeta). a.desc ∷ []) meta.desc class name c.enum_metric_descs e k
          mem-cons_self))
    where
      own : List Desc
      own = c.scrape_success ∷ c.scrape_duration ∷ c.last_scrape_timestamp ∷ c.device_info ∷ []

  -- The enumerations of a class that has none.
  metas_of-ClassEnums :
      (class : Text)
      → ClassEnums (length labels) (metas_of (lookup class c.enum_metric_descs))
        × ((name : Text) (meta : EnumMeta)
            → lookup name (metas_of (lookup class c.enum_metric_descs)) ≡ some meta
            → Mem meta.desc (describe c))
  unfolding metas_of
  metas_of-ClassEnums class = elim (Option-cases (lookup class c.enum_metric_descs)) [
    | inl e ↦ rw e (tt, λ name meta k. absurd (unfold lookup in cc))
    | inr (metas, e) ↦ rw e (
      lookup-All (λ (q : Text × ByName EnumMeta). ClassEnums (length labels) q.1) class
          c.enum_metric_descs ready.enums e,
      λ name meta k. enum_desc-Mem class name e k,
    )
  ]

  collect_device_metrics-Taken :
      (class : Text) (metrics : Readings F)
      → Taken (collect_device_metrics fl c class labels metrics)
  unfolding collect_device_metrics known_class
  collect_device_metrics-Taken class metrics = elim (Option-cases (lookup class c.metric_descs)) [
    | inl e ↦ rw e tt
    | inr (descs, e) ↦
        let metas = metas_of-ClassEnums class in
        rw e (
          class_samples-Taken descs _ metrics
            (lookup-All (λ (q : Text × ByName Desc). ClassNames (length labels) q.1) class
              c.metric_descs ready.descs e)
            (λ name desc k. metric_desc-Mem class name e k) metas.0 metas.1)
  ]

  when-Taken : (b : Bool) (s : Sample F) → IsTaken (describe c) s → Taken (if b then s ∷ [] else [])
  when-Taken true s h = (h, tt)
  when-Taken false s h = tt

  device_samples-Taken :
      (status : Status F) (info : DeviceInfo) → Taken (device_samples fl c status info labels)
  unfolding device_samples describe
  device_samples-Taken status info = (
    (mem-cons_self, sym ready.success),
    (
      (mem-cons_of_mem c.scrape_success mem-cons_self, sym ready.duration),
      (
        (
          mem-cons_of_mem _ (mem-cons_of_mem _ (mem-cons_of_mem _ mem-cons_self)),
          length-append labels (info.manufacturer ∷ info.product_code ∷ info.uid ∷ [])
              ∙ sym ready.info,
        ),
        when-Taken (status.success && not (status.last_scrape == 0))
            (record {
              desc = c.last_scrape_timestamp;
              value_type = gauge;
              value = fl.of_int (unix fl c status.last_scrape);
              labels = labels;
            })
            (mem-cons_of_mem _ (mem-cons_of_mem _ mem-cons_self), sym ready.timestamp),
      ),
    ),
  )

module _ (fl : Float64) (c : Collector) (now : ℕ) (cache : Cache fl.F) where
  collect_device-Taken :
      (dev : Device)
      → HasArity (length (label_names c.extra_label_keys)) c
      → All (IsTaken (describe c)) (collect_device fl c now cache dev)
  unfolding collect_device
  collect_device-Taken dev ready =
      let labels = label_values c.extra_label_keys dev in
      let arity : HasArity (length labels) c =
        subst (λ n. HasArity n c) (sym (length-label_values c.extra_label_keys dev)) ready in
      let status : Status fl.F = get now (fl.of_int (pos 0)) cache dev in
      All-append (IsTaken (describe c)) (device_samples fl c status (get_info cache dev) labels)
        (collect_device_metrics fl c dev.class labels status.metrics)
        (device_samples-Taken fl c labels arity status (get_info cache dev))
        (collect_device_metrics-Taken fl c labels arity dev.class status.metrics)

  collect_all-Taken :
      (devices : List Device)
      → HasArity (length (label_names c.extra_label_keys)) c
      → All (IsTaken (describe c)) (collect_all fl c now cache devices)
  unfolding collect_all
  collect_all-Taken [] ready = tt
  collect_all-Taken (dev ∷ devices) ready =
      All-append (IsTaken (describe c)) (collect_device fl c now cache dev)
        (collect_all fl c now cache devices) (collect_device-Taken dev ready)
        (collect_all-Taken devices ready)

-- Whatever the devices, the specifications and the cache: each sample that `Collect` sends has a descriptor
-- that `Describe` sent, and as many label values as that descriptor has label names.
pub collect-IsTaken :
    (fl : Float64) (fq_name : Text → Text → Text → Text) (devices : List Device)
    (specs : List (Text × Option (DeviceSpec fl.F))) (now : ℕ) (cache : Cache fl.F)
    → All
        (IsTaken (describe (new_collector fq_name devices specs)))
        (collect fl (new_collector fq_name devices specs) now cache)
unfolding collect
collect-IsTaken fl fq_name devices specs now cache =
    collect_all-Taken fl (new_collector fq_name devices specs) now cache _
      (unfold new_collector in new_collector-HasArity fq_name devices specs)
