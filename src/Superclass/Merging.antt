-- ===== src/Superclass/Merging.antt =====
-- internal/specs/loader.go, `mergeSuperClass`: what is added to a class, and what stays.
use echonet_go.Base.{
  ℕ, ◌≡◌, ◌∙◌, sym, refl, ap, arith, true, ◌||◌, List, [], ◌∷◌, ◌++◌, ◌==◌, ==_iff, map, Bool-cases,
  inl, inr,
}
use echonet_go.Base.Maps.{has, has-append}
use echonet_go.Client.Merge.{HasOnce}
use echonet_go.Floats.{Float64}
use echonet_go.Scraping.Polling.{HasOnce-append}
use echonet_go.Specs.{MetricSpec, DeviceSpec}
use echonet_go.Superclass.{add_missing, complete_metric, super_class_metrics, merge_super_class}
use mathlib.Core.List.{append_assoc, append-nil}

known_code :
    (e x : ℕ) (xs ys : List ℕ)
    → has x xs ≡ true
    → (has e xs || has e ys) ≡ (has e xs || has e (x ∷ ys))
unfolding has
known_code e x xs ys h = elim (Bool-cases (x == e)) [
  | inl same ↦ rw (ap (λ y. has y xs) (sym ((==_iff x e).0 same)) ∙ h) refl
  | inr other ↦ rw other refl
]

new_code :
    (e x : ℕ) (xs ys : List ℕ) → (has e (xs ++ (x ∷ [])) || has e ys) ≡ (has e xs || has e (x ∷ ys))
unfolding has
new_code e x xs ys = ground (arith, has-append e xs (x ∷ []))

module _ (fl : Float64) where
  open fl use {F}

  abbrev pub codes : List (MetricSpec F) → List ℕ
  codes metrics = map (λ m. m.epc) metrics

  codes-append :
      (xs : List (MetricSpec F)) (m : MetricSpec F)
      → codes (xs ++ (m ∷ [])) ≡ codes xs ++ (m.epc ∷ [])
  codes-append [] m = refl
  codes-append (x ∷ xs) m = ap (◌∷◌ x.epc) (codes-append xs m)

  -- The metrics of the class come first and unchanged, no code comes twice, and no code is lost.
  pub record IsMerged (super' before after : List (MetricSpec F)) : Type 0 where
    pub added : List (MetricSpec F)
    pub kept : after ≡ before ++ added
    pub once : HasOnce (codes after)
    pub all : (e : ℕ) → has e (codes after) ≡ (has e (codes before) || has e (codes super'))

  add_missing-IsMerged :
      (d : ℕ) (super' metrics : List (MetricSpec F))
      → HasOnce (codes metrics)
      → IsMerged super' metrics (add_missing fl d super' metrics)
  unfolding add_missing
  add_missing-IsMerged d [] metrics h = record {
    added = [];
    kept = sym (append-nil metrics);
    once = h;
    all = λ e. unfold has in ground arith;
  }
  add_missing-IsMerged d (m ∷ super') metrics h = elim (Bool-cases (has m.epc (codes metrics))) [
    | inl there ↦ rw there (
        let k = add_missing-IsMerged d super' metrics h in
        record {
          added = k.added;
          kept = k.kept;
          once = k.once;
          all = λ e. k.all e ∙ known_code e m.epc (codes metrics) (codes super') there;
        })
    | inr new ↦ rw new (
        let grown : List (MetricSpec F) = metrics ++ (complete_metric fl d m ∷ []) in
        let k = add_missing-IsMerged d super' grown (
          rw (codes-append metrics (complete_metric fl d m))
            (HasOnce-append m.epc (codes metrics) new h)) in
        record {
          added = complete_metric fl d m ∷ k.added;
          kept = k.kept ∙ append_assoc metrics (complete_metric fl d m ∷ []) k.added;
          once = k.once;
          all = λ e.
              k.all e
              ∙ ap (λ l. has e l || has e (codes super'))
                  (codes-append metrics (complete_metric fl d m))
              ∙ new_code e m.epc (codes metrics) (codes super');
        })
  ]

  -- A class whose codes differ keeps its own metrics, in their order and unchanged, at the front; it has
  -- each code of the super class, and still no code twice.
  pub merge_super_class-IsMerged :
      (spec : DeviceSpec F)
      → HasOnce (codes spec.metrics)
      → IsMerged (super_class_metrics fl) spec.metrics (merge_super_class fl spec).metrics
  unfolding merge_super_class
  merge_super_class-IsMerged spec h = add_missing-IsMerged _ (super_class_metrics fl) spec.metrics h
