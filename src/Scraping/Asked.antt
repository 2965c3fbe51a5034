-- ===== src/Scraping/Asked.antt =====
-- internal/poller/scheduler.go: exactly which codes a scrape asks for.
use echonet_go.Base.{ℕ, ◌≡◌, Bool, true, false, not, ◌&&◌, ◌||◌, List, [], ◌∷◌, ◌==◌}
use echonet_go.Base.Maps.{has}
use echonet_go.Specs.{MetricSpec}
use echonet_go.Scraping.{Choice}

module _ {F : Type 0} where
  -- Is this the code of a metric? Is it the code of a metric's unit?
  unfoldable pub is_code : List (MetricSpec F) → ℕ → Bool
  is_code [] e = false
  is_code (m ∷ metrics) e = m.epc == e || is_code metrics e

  unfoldable pub is_unit : List (MetricSpec F) → ℕ → Bool
  is_unit [] e = false
  is_unit (m ∷ metrics) e =
      (not (m.multiplier_epc == 0) && m.multiplier_epc == e) || is_unit metrics e

  module _ (skip : ℕ → Bool) where
    -- What a scrape does for a metric whose code is not to be left out: it asks for that code, and for
    -- the code of its unit, unless this is the code of a metric that is left out.
    abbrev pub IsServed : Choice → MetricSpec F → Type 0
    IsServed s m =
        ((skip m.epc || has m.epc s.epcs) ≡ true)
        × ((skip m.epc
              || (m.multiplier_epc == 0
                  || (has m.multiplier_epc s.epcs || has m.multiplier_epc s.skipped)))
            ≡ true)
