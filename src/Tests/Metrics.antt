-- ===== src/Tests/Metrics.antt =====
-- internal/echonet/encoder.go and client.go: a temperature, an energy counter and its unit.
use echonet_go.Base.{ℕ, ◌≡◌, refl, true, false, none, List, [], ◌∷◌, arith, ok, inl, inr, length}
use echonet_go.Base.Int.{ℤ, pos}
use echonet_go.Base.Maps.{lookup, text_key}
use echonet_go.Base.Texts.{text, text_eq}
use echonet_go.Encoder.{parse_integer, parse_edt_with_reason, encode_value_to_edt, raw_of_value}
use echonet_go.Encoder.Integers.{big_endian, twos_complement, parse_integer-signed}
use echonet_go.Encoder.RoundTrip.{
  IsClamped, Reads, min_raw, max_raw, encode_value_to_edt_lem, parse-encode,
}
use echonet_go.Floats.{Float64, whole_floats}
use echonet_go.Protocol.{Property, prop}
use echonet_go.Readings.{parse_props_to_metrics}
use echonet_go.Readings.Values.{parse_props_to_metrics-value}
use echonet_go.Encoder.{shift_in}
use echonet_go.Protocol.{prop}
use echonet_go.Base.{some, ◌/◌}
use echonet_go.Specs.{MetricSpec}

abbrev two_bytes : List ℕ
two_bytes = 0xFF ∷ 0x9C ∷ []

parse_integer-signed_example :
    parse_integer two_bytes true ≡ ok (twos_complement (length two_bytes) (big_endian 0 two_bytes))
parse_integer-signed_example =
    parse_integer-signed 0xFF (0x9C ∷ []) (omega arith, (omega arith, tt)) (omega arith)

abbrev eight_bytes : List ℕ
eight_bytes = 0x80 ∷ 0 ∷ 0 ∷ 0 ∷ 0 ∷ 0 ∷ 0 ∷ 1 ∷ []

-- A temperature of one signed byte.
abbrev pub temperature : MetricSpec ℤ
temperature = record {
  epc = 0xB3;
  name = text "temperature";
  help = [];
  size = 1;
  offset = 0;
  scale = pos 1;
  signed = true;
  invalid = none;
  kind = text "gauge";
  enum = [];
  reverse_enum = [];
  scrape_interval = 0;
  multiplier_epc = 0;
  multiplier_map = [];
  ha_device_class = [];
  ha_state_class = [];
  ha_unit = [];
  number_min = none;
  number_max = none;
  pre_set_epc = 0;
  pre_set_value = pos 0;
  exclude_set = false;
  set_mode = [];
}

-- A counter of four bytes whose unit stands in another property.
abbrev pub energy : MetricSpec ℤ
energy = record temperature {
  epc = 0xE0;
  name = text "energy";
  size = 4;
  signed = false;
  multiplier_epc = 0xE1;
  multiplier_map = (pos 1, pos 10) ∷ [];
}

encode_value_to_edt_lem_example :
    (edt : List ℕ) × (r : ℤ) × (encode_value_to_edt whole_floats (pos 300) temperature ≡ ok edt)
    × Reads 1 true r edt
    × IsClamped
        (min_raw 1 true)
        (max_raw 1 true)
        (raw_of_value whole_floats (pos 300) temperature)
        r
encode_value_to_edt_lem_example =
    encode_value_to_edt_lem whole_floats (pos 300) temperature (inl refl)

-- Whole numbers with the division of numbers that are not negative, and the same metric in steps of ten.
unfoldable quotient : ℤ → ℤ → ℤ
quotient (pos a) (pos b) = pos (a / b)
quotient x y = x

abbrev exact_floats : Float64
exact_floats = record whole_floats { div = quotient }

abbrev tens : MetricSpec ℤ
tens = record temperature { scale = pos 10 }

parse-encode_example :
    (edt : List ℕ) × (encode_value_to_edt exact_floats (pos 210) tens ≡ ok edt)
    × (parse_edt_with_reason exact_floats edt tens ≡ ok (pos 210))
unfolding quotient
parse-encode_example =
    parse-encode exact_floats tens (pos 21) (pos 210) (inl refl) refl refl (omega arith)
      (omega arith) refl (inl (refl, refl)) (inr (refl, refl, refl))

-- A reply with both metrics.
abbrev counter : List Property
counter = record { epc = 0xE0; pdc = 4; edt = 0 ∷ 0 ∷ 0 ∷ 5 ∷ [] } ∷ []

abbrev reply : List Property
reply =
    record { epc = 0xB3; pdc = 1; edt = 21 ∷ [] }
    ∷ record { epc = 0xE1; pdc = 1; edt = 1 ∷ [] }
    ∷ counter

parse_props_to_metrics-value_example :
    lookup (text "energy") (parse_props_to_metrics whole_floats reply (temperature ∷ energy ∷ []))
    ≡ some (record { value = pos 50; kind = text "gauge"; enum_label = [] })
unfolding text_eq parse_integer shift_in prop lookup
parse_props_to_metrics-value_example =
    parse_props_to_metrics-value whole_floats reply (temperature ∷ energy ∷ []) energy
      (0 ∷ 0 ∷ 0 ∷ 5 ∷ []) (pos 5) (pos 5) (pos 50) (refl, (refl, tt)) (inr (inl refl))
      (inr (inr refl)) refl refl refl
      (refl, (omega arith, (omega arith, (omega arith, (omega arith, tt)))), refl)
      (inl (refl, refl)) refl (inr (refl, (1, [], pos 10, refl, refl, refl)))
