-- ===== src/Exporter.antt =====
-- internal/metrics/collector.go: the metrics for Prometheus. A sample is what is sent into the channel of
-- `Collect`; a descriptor holds the arguments of `prometheus.NewDesc`. `fq_name` is
-- `prometheus.BuildFQName`.
pub mod Descriptors
pub mod Collecting
pub mod Names
pub mod Registered
use echonet_go.Base.{
  ℕ, zero, suc, ◌+◌, ◌-◌, ◌*◌, ◌/◌, ◌%◌, Bool, true, false, not, ◌&&◌, ◌||◌, Option, none, some,
  List, [], ◌∷◌, ◌++◌, ltb, leb, ◌==◌, if◌then◌else◌, length, map,
}
use echonet_go.Base.Int.{ℤ, pos, negsuc, ltb_ℤ}
use echonet_go.Base.Maps.{lookup, insert, text_key, int_key}
use echonet_go.Base.Texts.{Text, text, text_eq}
use echonet_go.Cache.{Device, or_else}
use echonet_go.Discovery.Options.{contains, labels_of, sort_strings}
use echonet_go.Identity.{drop_while, trim_right, trim_space, hex_digit, is_empty}
use echonet_go.Specs.{to_lower}

pub record Desc : Type 0 where
  pub name : Text
  pub help : Text
  pub label_names : List Text

-- `enumMeta`, with `enumValueMeta` as a pair.
pub record EnumMeta : Type 0 where
  pub desc : Desc
  pub values : List (ℤ × Text)

pub data ValueType : Type 0 where
  gauge : ValueType
  counter : ValueType

-- `MustNewConstMetric`
pub record Sample (F : Type 0) : Type 0 where
  pub desc : Desc
  pub value_type : ValueType
  pub value : F
  pub labels : List Text

-- `subsystemForClass`
unfoldable pub subsystem_for_class : Text → Text
subsystem_for_class class =
    if text_eq class (text "storage_battery")
    then text "battery"
    else if text_eq class (text "home_solar")
    then text "solar"
    else if text_eq class (text "home_ac")
    then text "ac"
    else class

abbrev pub is_label_byte : ℕ → Bool
is_label_byte c = (leb b'a' c && leb c b'z') || (leb b'0' c && leb c b'9')

-- The loop of `sanitizeEnumLabel`; the first argument is `prevUnderscore`.
unfoldable pub squash : Bool → Text → Text
squash prev [] = []
squash prev (c ∷ s) =
    let kept = squash false s in
    let dropped = squash true s in
    if is_label_byte c then c ∷ kept else if prev then dropped else b'_' ∷ dropped

-- `sanitizeEnumLabel`
unfoldable pub sanitize_enum_label : Text → Text
unfolding squash
sanitize_enum_label label =
    let is_underscore = (λ (c : ℕ). c == b'_') in
    let out =
      drop_while is_underscore
        (trim_right is_underscore (squash false (to_lower (trim_space label)))) in
    if is_empty out then text "value" else out

-- The keys of one device's labels.
add_keys : List (Text × Text) → List (Text × Bool) → List (Text × Bool)
add_keys [] set = set
add_keys ((k, v) ∷ labels) set = add_keys labels (if is_empty k then set else insert k true set)

add_devices : List Device → List (Text × Bool) → List (Text × Bool)
unfolding add_keys
add_devices [] set = set
add_devices (dev ∷ devices) set = add_devices devices (add_keys dev.labels set)

-- `collectExtraLabelKeys`
unfoldable pub collect_extra_label_keys : List Device → List Text
unfolding add_devices
collect_extra_label_keys devices = sort_strings (labels_of (add_devices devices []))

-- `labelValues`
unfoldable pub label_values : List Text → Device → List Text
label_values keys dev =
    dev.name ∷ dev.ip ∷ dev.class ∷ map (λ k. or_else (lookup k dev.labels) []) keys

-- The digits of `%x`, with as many rounds as there may be digits.
unfoldable pub hex_digits : ℕ → ℕ → Text
hex_digits zero n = []
hex_digits (suc rounds) n =
    let higher = hex_digits rounds (n / 16) in
    let last = hex_digit (n % 16) ∷ [] in if ltb n 16 then last else higher ++ last

unfoldable pub hex_int : ℤ → Text
unfolding hex_digits
hex_int (pos n) = hex_digits (suc n) n
hex_int (negsuc n) = b'-' ∷ hex_digits (suc (suc n)) (suc n)

-- `sort.Ints` on the keys of the enumeration.
insert_key : ℤ → List ℤ → List ℤ
insert_key k [] = k ∷ []
insert_key k (j ∷ js) = let rest = insert_key k js in if ltb_ℤ j k then j ∷ rest else k ∷ j ∷ js

unfoldable pub sort_keys : List ℤ → List ℤ
unfolding insert_key
sort_keys [] = []
sort_keys (k ∷ ks) = insert_key k (sort_keys ks)

-- The label of a value: with its number, where another value has the label.
unfoldable pub state_label : List Text → Text → ℤ → Text
unfolding hex_int
state_label used label value =
    let state = sanitize_enum_label label in
    if contains used state then state ++ (text "_0x" ++ hex_int value) else state

-- The loop of `buildEnumMeta` over the values, from the labels that are in use.
unfoldable pub enum_values : List (ℤ × Text) → List ℤ → List Text → List (ℤ × Text)
unfolding state_label
enum_values enum [] used = []
enum_values enum (k ∷ ks) used =
    let label = state_label used (or_else (lookup k enum) []) k in
    (k, label) ∷ enum_values enum ks (label ∷ used)
