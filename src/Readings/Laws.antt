-- ===== src/Readings/Laws.antt =====
-- What `ParsePropsToMetrics` stores under each name.
use echonet_go.Base.{
  Bool, true, false, Option, none, some, List, [], ◌∷◌, arith, if◌then◌else◌, ◌≡◌, refl, ◌∙◌, ap,
  ◌⊎◌, inl, inr, Bool-cases,
}
use echonet_go.Base.Maps.{lookup, lookup-insert, text_key}
use echonet_go.Base.Texts.{Text, text_eq, text_eq_iff}
use mathlib.Core.Path.{subst}
use echonet_go.Floats.{Float64}
use echonet_go.Protocol.{Property}
use echonet_go.Specs.{MetricSpec}
use echonet_go.Readings.{MetricValue, Readings, reading, put, collect, parse_props_to_metrics}

module _ (fl : Float64) where
  open fl use {F}

  -- Is some metric of the list called `n`?
  abbrev pub named : Text → List (MetricSpec F) → Bool
  named n [] = false
  named n (m ∷ ms) = let rest = named n ms in if text_eq m.name n then true else rest

  lookup-put :
      (n : Text) (m : MetricSpec F) (r : Option (MetricValue F)) (out : Readings F)
      → text_eq m.name n ≡ false
      → lookup n (put fl m.name r out) ≡ lookup n out
  unfolding put
  lookup-put n m none out h = refl
  lookup-put n m (some v) out h = lookup-insert m.name n v out ∙ rw h

  lookup-collect_unnamed :
      (props : List Property) (n : Text) (ms : List (MetricSpec F)) (out : Readings F)
      → named n ms ≡ false
      → lookup n (collect fl props ms out) ≡ lookup n out
  unfolding collect
  lookup-collect_unnamed props n [] out h = refl
  lookup-collect_unnamed props n (m ∷ ms) out h = elim (Bool-cases (text_eq m.name n)) [
    | inl same ↦ absurd (ground arith)
    | inr other ↦
        lookup-collect_unnamed props n ms _ (ground arith)
        ∙ lookup-put n m (reading fl props m) out other
  ]

  -- The metrics of a device have different names.
  abbrev pub NamesOnce : List (MetricSpec F) → Type 0
  NamesOnce [] = Unit
  NamesOnce (m ∷ ms) = (named m.name ms ≡ false) × NamesOnce ms

  abbrev pub Among : MetricSpec F → List (MetricSpec F) → Type 0
  Among m [] = ⊥
  Among m (x ∷ ms) = (x ≡ m) ⊎ Among m ms

  lookup-put_self :
      (m : MetricSpec F) (r : Option (MetricValue F)) (out : Readings F)
      → lookup m.name out ≡ none
      → lookup m.name (put fl m.name r out) ≡ r
  unfolding put
  lookup-put_self m none out h = h
  lookup-put_self m (some v) out h =
      lookup-insert m.name m.name v out ∙ rw ((text_eq_iff m.name m.name).1 refl)

  named_of_Among :
      (m : MetricSpec F) (ms : List (MetricSpec F)) → Among m ms → named m.name ms ≡ true
  named_of_Among m [] a = elim a [ ]
  named_of_Among m (x ∷ ms) (inl e) =
      rw ((text_eq_iff x.name m.name).1 (ap (λ (y : MetricSpec F). y.name) e))
  named_of_Among m (x ∷ ms) (inr a) = ground (arith, named_of_Among m ms a)

  lookup-collect :
      (props : List Property) (m : MetricSpec F) (ms : List (MetricSpec F)) (out : Readings F)
      → NamesOnce ms
      → Among m ms
      → lookup m.name out ≡ none
      → lookup m.name (collect fl props ms out) ≡ reading fl props m
  unfolding collect
  lookup-collect props m [] out once a h = elim a [ ]
  lookup-collect props m (x ∷ ms) out once (inl e) h =
      subst
        (λ (y : MetricSpec F).
          lookup y.name out ≡ none
          → lookup y.name (collect fl props (x ∷ ms) out) ≡ reading fl props y)
        e
        (λ free.
          unfold collect in
          lookup-collect_unnamed props x.name ms _ once.0
          ∙ lookup-put_self x (reading fl props x) out free)
        h
  lookup-collect props m (x ∷ ms) out once (inr a) h = lookup-collect props m ms _ once.1 a (
      lookup-put m.name x (reading fl props x) out (other (Bool-cases (text_eq x.name m.name))) ∙ h)
    where
      other :
          (text_eq x.name m.name ≡ true) ⊎ (text_eq x.name m.name ≡ false)
          → text_eq x.name m.name ≡ false
      other (inr f) = f
      other (inl t) =
          let e : x.name ≡ m.name = (text_eq_iff x.name m.name).0 t in
          let clash : named x.name ms ≡ true = rw e (named_of_Among m ms a) in absurd (ground arith)

  -- Where the names of the metrics differ, what is stored under the name of one of them is the value
  -- of that metric in the reply, and nothing if it has none.
  pub lookup-parse_props_to_metrics :
      (props : List Property) (ms : List (MetricSpec F)) (m : MetricSpec F)
      → NamesOnce ms
      → Among m ms
      → lookup m.name (parse_props_to_metrics fl props ms) ≡ reading fl props m
  unfolding parse_props_to_metrics
  lookup-parse_props_to_metrics props ms m once a =
      lookup-collect props m ms [] once a (unfold lookup in refl)
