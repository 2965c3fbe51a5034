-- ===== src/Exporter/Names.antt =====
-- internal/metrics/collector.go: the descriptors of a collector: which are announced, and how many label
-- names they have.
use mathlib.Core.List.{Mem, mem-append_left, mem-append_right}
use echonet_go.Base.{
  Bool-cases, inl, inr, ℕ, suc, ◌+◌, Bool, true, false, ◌≡◌, refl, ap, Option, none, some, List, [],
  ◌∷◌, ltb, if◌then◌else◌, length, map, length-append, All, arith,
}
use echonet_go.Base.Maps.{lookup, insert, insert-All, text_key}
use echonet_go.Base.Texts.{Text, text, text_eq}
use echonet_go.Cache.{Device}
use echonet_go.Exporter.{
  Desc, EnumMeta, label_values, collect_extra_label_keys, subsystem_for_class,
}
use echonet_go.Exporter.Descriptors.{
  ByName, Collector, build_enum_meta, class_descs, class_enums, all_descs, all_enums, own_desc,
  new_collector, flatten_class, flatten,
}
use echonet_go.Specs.{MetricSpec, DeviceSpec}

length-map : {A B : Type 0} (f : A → B) (xs : List A) → length (map f xs) ≡ length xs
length-map f [] = refl
length-map f (x ∷ xs) = ap suc (length-map f xs)

-- What is found in the maps is announced.
module _ {A : Type 0} (f : A → List Desc) (d : Desc) where
  flatten_class-Mem :
      (name : Text) (m : ByName A) {a : A}
      → lookup name m ≡ some a
      → Mem d (f a)
      → Mem d (flatten_class f m)
  unfolding flatten_class lookup
  flatten_class-Mem name [] e h = absurd (cc)
  flatten_class-Mem name ((other, b) ∷ m) {a} e h = elim (Bool-cases (text_eq other name)) [
    | inl same ↦
        let found : b ≡ a = ground (arith) in mem-append_left (flatten_class f m) (rw found h)
    | inr differs ↦ mem-append_right (f b) (flatten_class-Mem name m (ground (arith)) h)
  ]

  pub flatten-Mem :
      (class name : Text) (m : ByName (ByName A)) {of_class : ByName A} {a : A}
      → lookup class m ≡ some of_class
      → lookup name of_class ≡ some a
      → Mem d (f a)
      → Mem d (flatten f m)
  unfolding flatten lookup
  flatten-Mem class name [] e k h = absurd (cc)
  flatten-Mem class name ((other, b) ∷ m) {of_class} e k h =
      elim (Bool-cases (text_eq other class)) [
        | inl same ↦
            let found : b ≡ of_class = ground (arith) in
            mem-append_left (flatten f m) (flatten_class-Mem name b (rw found k) h)
        | inr differs ↦
            mem-append_right (flatten_class f b) (flatten-Mem class name m (ground (arith)) k h)
      ]

-- The label names of the descriptors that a collector has for the metrics.
abbrev pub HasNames : ℕ → Desc → Type 0
HasNames n d = length d.label_names ≡ n

abbrev pub ClassNames : ℕ → ByName Desc → Type 0
ClassNames n = All (λ (e : Text × Desc). HasNames n e.1)

abbrev pub ClassEnums : ℕ → ByName EnumMeta → Type 0
ClassEnums n = All (λ (e : Text × EnumMeta). HasNames (suc n) e.1.desc)

abbrev pub AllNames : ℕ → ByName (ByName Desc) → Type 0
AllNames n = All (λ (e : Text × ByName Desc). ClassNames n e.1)

abbrev pub AllEnums : ℕ → ByName (ByName EnumMeta) → Type 0
AllEnums n = All (λ (e : Text × ByName EnumMeta). ClassEnums n e.1)

module _ {F : Type 0} (fq_name : Text → Text → Text → Text) (labels : List Text) where
  class_descs-ClassNames :
      (class : Text) (ms : List (MetricSpec F)) (descs : ByName Desc)
      → ClassNames (length labels) descs
      → ClassNames (length labels) (class_descs fq_name class labels ms descs)
  unfolding class_descs
  class_descs-ClassNames class [] descs h = h
  class_descs-ClassNames class (m ∷ ms) descs h =
      class_descs-ClassNames class ms _
        (insert-All (λ (e : Text × Desc). HasNames (length labels) e.1) m.name _ descs refl h)

  build_enum_meta-HasNames :
      (subsystem : Text) (m : MetricSpec F)
      → HasNames (suc (length labels)) (build_enum_meta fq_name subsystem m labels).desc
  unfolding build_enum_meta
  build_enum_meta-HasNames subsystem m = omega (arith, length-append labels (text "state" ∷ []))

  class_enums-ClassEnums :
      (class : Text) (ms : List (MetricSpec F)) (metas : ByName EnumMeta)
      → ClassEnums (length labels) metas
      → ClassEnums (length labels) (class_enums fq_name class labels ms metas)
  unfolding class_enums
  class_enums-ClassEnums class [] metas h = h
  class_enums-ClassEnums class (m ∷ ms) metas h =
      class_enums-ClassEnums class ms _ (kept (ltb 0 (length m.enum)))
    where
      kept :
          (b : Bool)
          → ClassEnums (length labels) (
              if b
              then insert m.name
                  (build_enum_meta fq_name (subsystem_for_class class) m labels)
                  metas
              else metas)
      kept true =
          insert-All (λ (e : Text × EnumMeta). HasNames (suc (length labels)) e.1.desc) m.name _
            metas (build_enum_meta-HasNames (subsystem_for_class class) m) h
      kept false = h

  all_descs-AllNames :
      (specs : List (Text × Option (DeviceSpec F))) (descs : ByName (ByName Desc))
      → AllNames (length labels) descs
      → AllNames (length labels) (all_descs fq_name labels specs descs)
  unfolding all_descs
  all_descs-AllNames [] descs h = h
  all_descs-AllNames ((class, none) ∷ specs) descs h = all_descs-AllNames specs descs h
  all_descs-AllNames ((class, some spec) ∷ specs) descs h = all_descs-AllNames specs _ (
      insert-All (λ (e : Text × ByName Desc). ClassNames (length labels) e.1) class _ descs
        (class_descs-ClassNames class spec.metrics [] tt) h)

  all_enums-AllEnums :
      (specs : List (Text × Option (DeviceSpec F))) (metas : ByName (ByName EnumMeta))
      → AllEnums (length labels) metas
      → AllEnums (length labels) (all_enums fq_name labels specs metas)
  unfolding all_enums
  all_enums-AllEnums [] metas h = h
  all_enums-AllEnums ((class, none) ∷ specs) metas h = all_enums-AllEnums specs metas h
  all_enums-AllEnums ((class, some spec) ∷ specs) metas h = all_enums-AllEnums specs _ (
      insert-All (λ (e : Text × ByName EnumMeta). ClassEnums (length labels) e.1) class _ metas
        (class_enums-ClassEnums class spec.metrics [] tt) h)

-- The names of all descriptors of a collector with `n` labels.
pub record HasArity (n : ℕ) (c : Collector) : Type 0 where
  pub success : HasNames n c.scrape_success
  pub duration : HasNames n c.scrape_duration
  pub timestamp : HasNames n c.last_scrape_timestamp
  pub info : HasNames (n + 3) c.device_info
  pub descs : AllNames n c.metric_descs
  pub enums : AllEnums n c.enum_metric_descs

-- `allLabelNames`
abbrev pub label_names : List Text → List Text
label_names keys = text "device" ∷ text "ip" ∷ text "class" ∷ keys

pub new_collector-HasArity :
    {F : Type 0} (fq_name : Text → Text → Text → Text) (devices : List Device)
    (specs : List (Text × Option (DeviceSpec F)))
    → HasArity
        (length (label_names (collect_extra_label_keys devices)))
        (new_collector fq_name devices specs)
unfolding new_collector own_desc
new_collector-HasArity fq_name devices specs = record {
  success = refl;
  duration = refl;
  timestamp = refl;
  info = length-append labels (text "manufacturer" ∷ text "product_code" ∷ text "uid" ∷ []);
  descs = all_descs-AllNames fq_name labels specs [] tt;
  enums = all_enums-AllEnums fq_name labels specs [] tt;
}
  where
    labels : List Text
    labels = label_names (collect_extra_label_keys devices)

pub length-label_values :
    (keys : List Text) (dev : Device) → length (label_values keys dev) ≡ length (label_names keys)
unfolding label_values
length-label_values keys dev = omega (arith, length-map _ keys)
