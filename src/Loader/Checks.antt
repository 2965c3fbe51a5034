-- ===== src/Loader/Checks.antt =====
-- internal/specs/loader.go: what holds of a metric that was loaded.
use mathlib.Core.Path.{subst}
use echonet_go.Base.{
  ℕ, ◌≡◌, ◌≤◌, ◌<◌, refl, arith, Bool, true, false, not, ◌&&◌, ◌⊎◌, Option, none, some, ◌==◌,
  length, Result, ok, err, inl, inr, Bool-cases, if◌then◌else◌,
}
use echonet_go.Base.Int.{ℤ, pos, negsuc, pos_part, eq_ℤ}
use echonet_go.Base.Texts.{Text}
use echonet_go.Encoder.RoundTrip.{IsSize}
use echonet_go.Floats.{Float64}
use echonet_go.Protocol.{Eoj}
use echonet_go.Specs.{MetricSpec}
use echonet_go.Identity.{is_empty}
use echonet_go.Loader.{
  LoadError, unless, no_byte, MetricYaml, metric_of, parse_metric_spec, refusal_or, map_ok,
  read_interval, interval_or,
}

pub unless-ok :
    {A : Type 0} (b : Bool) (e : LoadError) (rest : Result LoadError A) {a : A}
    → unless b e rest ≡ ok a
    → (b ≡ false) × (rest ≡ ok a)
unfolding unless
unless-ok true e rest h = absurd (cc)
unless-ok false e rest h = (refl, h)

pub no_byte-bound : (v : ℤ) → no_byte v ≡ false → pos_part v < 256
no_byte-bound (pos n) h = ground arith
no_byte-bound (negsuc n) h = omega arith

eq_ℤ-IsSize :
    (v : ℤ)
    → (not (eq_ℤ v (pos 0))
        && (not (eq_ℤ v (pos 1)) && (not (eq_ℤ v (pos 2)) && not (eq_ℤ v (pos 4)))))
      ≡ false
    → (pos_part v ≡ 0) ⊎ IsSize (pos_part v)
eq_ℤ-IsSize (negsuc n) h = inl refl
eq_ℤ-IsSize (pos n) h = ground arith

unit_of_checks :
    (v : ℤ) (n : ℕ) → (not (eq_ℤ v (pos 0)) && n == 0) ≡ false → (pos_part v ≡ 0) ⊎ (1 ≤ n)
unit_of_checks (negsuc k) n h = inl refl
unit_of_checks (pos k) n h = ground arith

-- What the program relies on: a width that the encoder writes or the automatic one, codes that are
-- bytes, and factors wherever there is a unit.
pub record IsLoaded {F : Type 0} (s : MetricSpec F) : Type 0 where
  pub width : (s.size ≡ 0) ⊎ IsSize s.size
  pub code : s.epc < 256
  pub unit_code : s.multiplier_epc < 256
  pub factors : (s.multiplier_epc ≡ 0) ⊎ (1 ≤ length s.multiplier_map)

interval_or-positive : (d : ℕ) (o : Option ℤ) {n : ℕ} → interval_or d o ≡ ok n → 1 ≤ n
unfolding interval_or
interval_or-positive d none h = absurd (cc)
interval_or-positive d (some (negsuc k)) h = absurd (cc)
interval_or-positive d (some (pos k)) {n} h = elim (Bool-cases (k == 0)) [
  | inl e ↦ absurd (cc)
  | inr e ↦ let same : k ≡ n = cc in ground (arith, same)
]

either-positive :
    (b : Bool) (d : ℕ) (rest : Result LoadError ℕ) {n : ℕ}
    → 1 ≤ d
    → (rest ≡ ok n → 1 ≤ n)
    → (if b then ok d else rest) ≡ ok n
    → 1 ≤ n
either-positive true d rest le f h = subst (λ k. 1 ≤ k) (cc) le
either-positive false d rest le f h = f h

module _ (fl : Float64) (parse_duration : Text → Option ℤ) (lookup_epc_name : Eoj → ℕ → Text) where
  open fl use {F}

  refusal_or-ok :
      (o : Option LoadError) (rest : Result LoadError (MetricSpec F)) {s : MetricSpec F}
      → refusal_or o rest ≡ ok s
      → rest ≡ ok s
  unfolding refusal_or
  refusal_or-ok none rest h = h
  refusal_or-ok (some e) rest h = absurd (cc)

  map_ok-ok :
      (m : MetricYaml F) (eoj : Eoj) (r : Result LoadError ℕ) {s : MetricSpec F}
      → map_ok (metric_of fl parse_duration lookup_epc_name m eoj) r ≡ ok s
      → (interval : ℕ) × (metric_of fl parse_duration lookup_epc_name m eoj interval ≡ s)
        × (r ≡ ok interval)
  unfolding map_ok
  map_ok-ok m eoj (ok n) h = (n, cc, refl)
  map_ok-ok m eoj (err e) h = absurd (cc)

  parse_metric_spec-checked :
      (m : MetricYaml F) (dev_interval : ℕ) (eoj : Eoj) (s : MetricSpec F)
      → parse_metric_spec fl parse_duration lookup_epc_name m dev_interval eoj ≡ ok s
      → IsLoaded s
        × (read_interval parse_duration dev_interval m.scrape_interval ≡ ok s.scrape_interval)
  unfolding parse_metric_spec
  parse_metric_spec-checked m dev_interval eoj s h =
      let (size, h1) = unless-ok _ _ _ h in
      let (kind, h2) = unless-ok _ _ _ h1 in
      let (code, h3) = unless-ok _ _ _ h2 in
      let (offset, h4) = unless-ok _ _ _ h3 in
      let (unit_code, h5) = unless-ok _ _ _ h4 in
      let (factors, h6) = unless-ok _ _ _ h5 in
      let (bounds, h7) = unless-ok _ _ _ h6 in
      let (mode, h8) = unless-ok _ _ _ h7 in
      let (pre, h9) = unless-ok _ _ _ h8 in
      let (scaled, h10) = unless-ok _ _ _ h9 in
      let (scale, h12) = unless-ok _ _ _ (refusal_or-ok _ _ h10) in
      let (interval, e, read) = map_ok-ok m eoj _ h12 in
      rw (← e) (
        unfold metric_of in
        (
          record {
            width = eq_ℤ-IsSize m.size size;
            code = no_byte-bound m.epc code;
            unit_code = no_byte-bound m.multiplier_epc unit_code;
            factors = unit_of_checks m.multiplier_epc (length m.multiplier_map) factors;
          },
          read,
        ))

  -- A metric that is loaded has a width that the encoder writes or the automatic one, its code and that
  -- of its unit are bytes, and it has factors if it has a unit.
  pub parse_metric_spec-IsLoaded :
      (m : MetricYaml F) (dev_interval : ℕ) (eoj : Eoj) (s : MetricSpec F)
      → parse_metric_spec fl parse_duration lookup_epc_name m dev_interval eoj ≡ ok s
      → IsLoaded s
  parse_metric_spec-IsLoaded m dev_interval eoj s h =
      (parse_metric_spec-checked m dev_interval eoj s h).0

  pub read_interval-positive :
      (d : ℕ) (t : Text) {n : ℕ} → 1 ≤ d → read_interval parse_duration d t ≡ ok n → 1 ≤ n
  unfolding read_interval interval_or
  read_interval-positive d t le h =
      either-positive (is_empty t) d (interval_or d (parse_duration t)) le
        (interval_or-positive d (parse_duration t)) h

  pub parse_metric_spec-positive :
      (m : MetricYaml F) (dev_interval : ℕ) (eoj : Eoj) (s : MetricSpec F)
      → 1 ≤ dev_interval
      → parse_metric_spec fl parse_duration lookup_epc_name m dev_interval eoj ≡ ok s
      → 1 ≤ s.scrape_interval
  parse_metric_spec-positive m dev_interval eoj s le h =
      read_interval-positive dev_interval m.scrape_interval le
        (parse_metric_spec-checked m dev_interval eoj s h).1
