-- ===== src/Scraping/Polling.antt =====
-- internal/poller/scheduler.go: which codes a scrape asks for, and which it leaves out.
use echonet_go.Base.{
  ℕ, ◌≡◌, ◌∙◌, sym, refl, Bool, true, false, not, ◌&&◌, ◌||◌, List, [], ◌∷◌, ◌++◌, ◌==◌, ==_iff,
  All, arith, Bool-cases, inl, inr,
}
use echonet_go.Base.Maps.{has, has-append}
use echonet_go.Client.Merge.{HasOnce}
use echonet_go.Specs.{MetricSpec}
use echonet_go.Scraping.{Choice, add_multiplier, choose_metric, choose_metrics}

pub HasOnce-append :
    (e : ℕ) (xs : List ℕ) → has e xs ≡ false → HasOnce xs → HasOnce (xs ++ (e ∷ []))
unfolding has
HasOnce-append e [] h k = (refl, tt)
HasOnce-append e (x ∷ xs) h k = (
  has-append x xs (e ∷ []) ∙ unfold has in ground (arith, ==_iff x e, ==_iff e x, k.0),
  HasOnce-append e xs (ground (arith)) k.1,
)

module _ (skip : ℕ → Bool) where
  -- No code is asked for twice, none is both asked for and left out, and none is left out unless
  -- `skip` says so.
  pub record IsChoice (s : Choice) : Type 0 where
    pub once : HasOnce s.epcs
    pub seen : (e : ℕ) → has e s.seen ≡ (has e s.epcs || has e s.skipped)
    pub apart : (e : ℕ) → (has e s.epcs && has e s.skipped) ≡ false
    pub fresh : (e : ℕ) → (has e s.skipped && not (skip e)) ≡ false

  ask-IsChoice :
      (epc : ℕ) (s : Choice)
      → has epc s.seen ≡ false
      → IsChoice s
      → IsChoice (record s { seen = epc ∷ s.seen; epcs = s.epcs ++ (epc ∷ []) })
  ask-IsChoice epc s h k =
      let free : (has epc s.epcs || has epc s.skipped) ≡ false = sym (k.seen epc) ∙ h in
      record {
        once = HasOnce-append epc s.epcs (ground (arith)) k.once;
        seen = λ e. unfold has in ground (arith, k.seen e, has-append e s.epcs (epc ∷ []));
        apart = λ e. elim (Bool-cases (epc == e)) [
          | inl same ↦ rw (← (==_iff epc e).0 same) (ground (arith))
          | inr other ↦ unfold has in ground (arith, k.apart e, has-append e s.epcs (epc ∷ []))
        ];
        fresh = k.fresh;
      }

  skip-IsChoice :
      (epc : ℕ) (s : Choice)
      → has epc s.seen ≡ false
      → skip epc ≡ true
      → IsChoice s
      → IsChoice (record s { skipped = epc ∷ s.skipped; seen = epc ∷ s.seen })
  skip-IsChoice epc s h f k =
      let free : (has epc s.epcs || has epc s.skipped) ≡ false = sym (k.seen epc) ∙ h in
      record {
        once = k.once;
        seen = λ e. unfold has in ground (arith, k.seen e);
        apart = λ e. elim (Bool-cases (epc == e)) [
          | inl same ↦ rw (← (==_iff epc e).0 same) (ground (arith))
          | inr other ↦ unfold has in ground (arith, k.apart e)
        ];
        fresh = λ e. elim (Bool-cases (epc == e)) [
          | inl same ↦ rw (← (==_iff epc e).0 same, f) (ground (arith))
          | inr other ↦ unfold has in ground (arith, k.fresh e)
        ];
      }

  module _ {F : Type 0} where
    add_multiplier-IsChoice :
        (m : MetricSpec F) (s : Choice) → IsChoice s → IsChoice (add_multiplier m s)
    unfolding add_multiplier
    add_multiplier-IsChoice m s k =
        elim (Bool-cases (not (m.multiplier_epc == 0) && not (has m.multiplier_epc s.seen))) [
          | inl e ↦ rw e (ask-IsChoice m.multiplier_epc s (ground (arith)) k)
          | inr e ↦ rw e k
        ]

    choose_metric-IsChoice :
        (m : MetricSpec F) (s : Choice) → IsChoice s → IsChoice (choose_metric skip m s)
    unfolding choose_metric
    choose_metric-IsChoice m s k = elim (Bool-cases (has m.epc s.seen)) [
      | inl known ↦ rw known (add_multiplier-IsChoice m s k)
      | inr new ↦ elim (Bool-cases (skip m.epc)) [
        | inl skipped ↦ rw (new, skipped) (skip-IsChoice m.epc s new skipped k)
        | inr asked ↦ rw (new, asked) (add_multiplier-IsChoice m _ (ask-IsChoice m.epc s new k))
      ]
    ]

    pub choose_metrics-IsChoice :
        (metrics : List (MetricSpec F)) (s : Choice)
        → IsChoice s
        → IsChoice (choose_metrics skip metrics s)
    unfolding choose_metrics
    choose_metrics-IsChoice [] s k = k
    choose_metrics-IsChoice (m ∷ metrics) s k =
        choose_metrics-IsChoice metrics _ (choose_metric-IsChoice m s k)

    pub add_multiplier-grows :
        (e : ℕ) (m : MetricSpec F) (s : Choice)
        → has e s.seen ≡ true
        → has e (add_multiplier m s).seen ≡ true
    unfolding add_multiplier has
    add_multiplier-grows e m s h =
        elim (Bool-cases (not (m.multiplier_epc == 0) && not (has m.multiplier_epc s.seen))) [
          | inl c ↦ rw c (ground (arith))
          | inr c ↦ rw c h
        ]

    choose_metric-grows :
        (e : ℕ) (m : MetricSpec F) (s : Choice)
        → (has e s.seen || m.epc == e) ≡ true
        → has e (choose_metric skip m s).seen ≡ true
    unfolding choose_metric has
    choose_metric-grows e m s h = elim (Bool-cases (has m.epc s.seen)) [
      | inl known ↦ rw known (
          add_multiplier-grows e m s (elim (Bool-cases (m.epc == e)) [
            | inl same ↦ rw (← (==_iff m.epc e).0 same) known
            | inr other ↦ ground (arith)
          ]))
      | inr new ↦ elim (Bool-cases (skip m.epc)) [
        | inl skipped ↦ rw (new, skipped) (ground (arith))
        | inr asked ↦
            rw (new, asked)
              (add_multiplier-grows e m
                (record s { seen = m.epc ∷ s.seen; epcs = s.epcs ++ (m.epc ∷ []) })
                (unfold has in ground (arith)))
      ]
    ]

    pub choose_metrics-grows :
        (e : ℕ) (metrics : List (MetricSpec F)) (s : Choice)
        → has e s.seen ≡ true
        → has e (choose_metrics skip metrics s).seen ≡ true
    unfolding choose_metrics
    choose_metrics-grows e [] s h = h
    choose_metrics-grows e (m ∷ metrics) s h =
        choose_metrics-grows e metrics _ (choose_metric-grows e m s (rw h refl))

    pub choose_metrics-seen :
        (metrics : List (MetricSpec F)) (s : Choice)
        → All (λ m. has m.epc (choose_metrics skip metrics s).seen ≡ true) metrics
    unfolding choose_metrics
    choose_metrics-seen [] s = tt
    choose_metrics-seen (m ∷ metrics) s = (
      choose_metrics-grows m.epc metrics _
          (choose_metric-grows m.epc m s (rw ((==_iff m.epc m.epc).1 refl) (ground arith))),
      choose_metrics-seen metrics _,
    )
