-- ===== src/Readings/Values.antt =====
-- internal/echonet/client.go, `ParsePropsToMetrics`: the value of a metric, from its bytes to the cache.
use mathlib.Core.Path.{subst}
use echonet_go.Base.{
  ℕ, true, false, ◌||◌, Option, none, some, List, [], ◌∷◌, arith, ltb, ◌==◌, length, ◌≡◌, refl, sym,
  ◌∙◌, ap, ◌⊎◌, inl, inr, ok,
}
use echonet_go.Base.Int.{ℤ, pos}
use echonet_go.Base.Maps.{lookup, text_key, int_key}
use echonet_go.Base.Texts.{Text}
use echonet_go.Cache.{or_else}
use echonet_go.Encoder.{parse_edt_with_reason, scale_value}
use echonet_go.Encoder.RoundTrip.{IsSize, Reads, Shows, parse_edt-Reads, scale_value-Shows}
use echonet_go.Floats.{Float64}
use echonet_go.Protocol.{Property, prop}
use echonet_go.Readings.{
  reading, parse_props_to_metrics, apply_multiplier, to_reading, parse_edt, or_empty, times,
  factor_in,
}
use echonet_go.Readings.Laws.{NamesOnce, Among, lookup-parse_props_to_metrics}
use echonet_go.Specs.{MetricSpec}

module _ (fl : Float64) where
  open fl use {F}

  -- `v'` is `v` in the unit that the reply names: without a unit the value itself, and else its product
  -- with the factor of the first byte of the unit's property.
  abbrev pub InUnit : List Property → MetricSpec F → F → F → Type 0
  InUnit props m v v' =
      (m.multiplier_epc ≡ 0) × (v ≡ v')
      ⊎ ((m.multiplier_epc == 0) ≡ false)
        × ((u : ℕ) × (rest : List ℕ) × (k : F) × (prop props m.multiplier_epc ≡ some (u ∷ rest))
            × (lookup (pos u) m.multiplier_map ≡ some k)
            × (fl.mul v k ≡ v'))

  found_nonempty :
      {A : Type 0} (n : ℤ) (xs : List (ℤ × A)) {a : A}
      → lookup n xs ≡ some a
      → ltb 0 (length xs) ≡ true
  unfolding lookup
  found_nonempty n [] h = absurd (cc)
  found_nonempty n (x ∷ xs) h = ground arith

  apply_multiplier-InUnit :
      (props : List Property) (m : MetricSpec F) (v v' : F)
      → InUnit props m v v'
      → apply_multiplier fl props m v ≡ v'
  unfolding apply_multiplier times factor_in
  apply_multiplier-InUnit props m v v' (inl (without, e)) = rw without e
  apply_multiplier-InUnit props m v v' (inr (with', (u, rest, k, found, factor, e))) =
      rw (with', found_nonempty (pos u) m.multiplier_map factor) (rw found (rw factor e))

  label-or_empty : (o : Option Text) → or_empty fl o ≡ or_else o []
  unfolding or_empty
  label-or_empty none = refl
  label-or_empty (some t) = refl

  reading-value :
      (props : List Property) (m : MetricSpec F) (edt : List ℕ) (r : ℤ) (v v' : F)
      → IsSize m.size
      → m.offset ≡ 0
      → m.invalid ≡ none
      → prop props m.epc ≡ some edt
      → Reads m.size m.signed r edt
      → Shows fl m.scale r v
      → (fl.is_inf v || fl.is_nan v) ≡ false
      → InUnit props m v v'
      → reading fl props m
        ≡ some (record {
          value = v';
          kind = m.kind;
          enum_label = or_else (lookup (fl.to_int v') m.enum) [];
        })
  unfolding reading parse_edt to_reading
  reading-value props m edt r v v' s o i there reads shows finite unit =
      let shown : scale_value fl m.scale r ≡ v = scale_value-Shows fl m.scale r v shows in
      let parsed : parse_edt_with_reason fl edt m ≡ ok v =
        parse_edt-Reads fl m edt r s o i
          (subst (λ x. (fl.is_inf x || fl.is_nan x) ≡ false) (sym shown) finite) reads
        ∙ ap ok shown in
      rw there (
        rw parsed (
          rw
            (
              apply_multiplier-InUnit props m v v' unit,
              label-or_empty (lookup (fl.to_int v') m.enum),
            )
            refl))

  -- Where the metrics have different names, a reply has data for one of them of 1, 2 or 4 bytes, at offset
  -- 0 and with no invalid mark, and these bytes read as the integer `r`: what is stored under the
  -- name of the metric is the finite value shown for `r`, in the unit that the reply names, with the
  -- type of the metric and the label of the whole number in that value.
  pub parse_props_to_metrics-value :
      (props : List Property) (ms : List (MetricSpec F)) (m : MetricSpec F) (edt : List ℕ) (r : ℤ)
      (v v' : F)
      → NamesOnce fl ms
      → Among fl m ms
      → IsSize m.size
      → m.offset ≡ 0
      → m.invalid ≡ none
      → prop props m.epc ≡ some edt
      → Reads m.size m.signed r edt
      → Shows fl m.scale r v
      → (fl.is_inf v || fl.is_nan v) ≡ false
      → InUnit props m v v'
      → lookup m.name (parse_props_to_metrics fl props ms)
        ≡ some (record {
          value = v';
          kind = m.kind;
          enum_label = or_else (lookup (fl.to_int v') m.enum) [];
        })
  parse_props_to_metrics-value props ms m edt r v v' once among s o i there reads shows finite
        unit =
      lookup-parse_props_to_metrics fl props ms m once among
      ∙ reading-value props m edt r v v' s o i there reads shows finite unit
