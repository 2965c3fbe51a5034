-- ===== src/Readings.antt =====
-- internal/echonet/client.go, `ParsePropsToMetrics`: the values of a reply, by metric name.
pub mod Laws
pub mod Values
use echonet_go.Base.{
  ℕ, Bool, true, false, not, ◌&&◌, Option, none, some, List, [], ◌∷◌, ltb, ◌==◌, if◌then◌else◌,
  length, Result, ok, err,
}
use echonet_go.Base.Int.{ℤ, pos}
use echonet_go.Base.Maps.{lookup, insert, int_key, text_key}
use echonet_go.Base.Texts.{Text}
use echonet_go.Encoder.{EncodeError, parse_edt_with_reason}
use echonet_go.Floats.{Float64}
use echonet_go.Protocol.{Property, prop, byte_at}
use echonet_go.Specs.{MetricSpec}

-- `MetricValue`
pub record MetricValue (F : Type 0) : Type 0 where
  pub value : F
  pub kind : Text
  pub enum_label : Text

abbrev pub Readings : Type 0 → Type 0
Readings F = List (Text × MetricValue F)

module _ (fl : Float64) where
  open fl use {F, mul, to_int}

  unfoldable pub times : F → Option F → F
  times v none = v
  times v (some k) = mul v k

  -- The factor that the unit property names: none where it is absent or empty, or not in the map.
  unfoldable pub factor_in : List (ℤ × F) → Option (List ℕ) → Option F
  factor_in map' none = none
  factor_in map' (some []) = none
  factor_in map' (some (unit ∷ edt)) = lookup (pos unit) map'

  -- `v *= mul`, where the metric has a multiplier.
  unfoldable pub apply_multiplier : List Property → MetricSpec F → F → F
  unfolding times factor_in
  apply_multiplier props m v =
      if not (m.multiplier_epc == 0) && ltb 0 (length m.multiplier_map)
      then times v (factor_in m.multiplier_map (prop props m.multiplier_epc))
      else v

  unfoldable pub or_empty : Option Text → Text
  or_empty none = []
  or_empty (some label) = label

  unfoldable pub to_reading :
      List Property → MetricSpec F → Result EncodeError F → Option (MetricValue F)
  to_reading props m (err e) = none
  to_reading props m (ok v) =
      let v' = apply_multiplier props m v in
      some (record { value = v'; kind = m.kind; enum_label = or_empty (lookup (to_int v') m.enum) })

  unfoldable pub parse_edt : List Property → MetricSpec F → Option (List ℕ) → Option (MetricValue F)
  parse_edt props m none = none
  parse_edt props m (some edt) = to_reading props m (parse_edt_with_reason fl edt m)

  -- The body of the loop: the value of one metric, or none where the loop goes on with the next.
  unfoldable pub reading : List Property → MetricSpec F → Option (MetricValue F)
  unfolding or_empty to_reading parse_edt
  reading props m = parse_edt props m (prop props m.epc)

  unfoldable pub put : Text → Option (MetricValue F) → Readings F → Readings F
  put name none out = out
  put name (some v) out = insert name v out

  unfoldable pub collect : List Property → List (MetricSpec F) → Readings F → Readings F
  unfolding put
  collect props [] out = out
  collect props (m ∷ metrics) out = collect props metrics (put m.name (reading props m) out)

  -- `ParsePropsToMetrics`
  unfoldable pub parse_props_to_metrics : List Property → List (MetricSpec F) → Readings F
  unfolding collect
  parse_props_to_metrics props metrics = collect props metrics []
