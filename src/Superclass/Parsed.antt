-- ===== src/Superclass/Parsed.antt =====
-- internal/specs/loader.go: what holds of the specification in a file that was parsed.
use echonet_go.Base.{
  ℕ, ◌≡◌, ◌≤◌, ◌<◌, refl, arith, Bool, false, ◌||◌, Option, List, [], ◌∷◌, Result, ok, err, All,
}
use echonet_go.Base.Int.{ℤ, pos_part}
use echonet_go.Base.Maps.{text_key}
use echonet_go.Base.Texts.{Text}
use echonet_go.Floats.{Float64}
use echonet_go.Loader.{LoadError, no_byte, MetricYaml}
use echonet_go.Loader.Checks.{
  IsLoaded, parse_metric_spec-IsLoaded, parse_metric_spec-positive, read_interval-positive,
  unless-ok, no_byte-bound,
}
use echonet_go.Protocol.{Eoj}
use echonet_go.Specs.{MetricSpec, DeviceSpec}
use echonet_go.Superclass.{parse_climate_yaml, parse_light_yaml, default_scrape_interval}
use echonet_go.Superclass.Loading.{
  DeviceYaml, and_then, optional, read_eoj, parse_metrics, parse_device_yaml,
}

-- A metric that can be polled: its interval is not zero, which a ticker would refuse.
abbrev pub IsPolled : {F : Type 0} → MetricSpec F → Type 0
IsPolled m = IsLoaded m × (1 ≤ m.scrape_interval)

-- A specification that the program can work with.
pub record IsUsable {F : Type 0} (s : DeviceSpec F) : Type 0 where
  pub interval : 1 ≤ s.default_scrape_interval
  pub group : s.eoj.b0 < 256
  pub class : s.eoj.b1 < 256
  pub instance_code : s.eoj.b2 < 256
  pub polled : All IsPolled s.metrics

pub and_then-ok :
    {A B : Type 0} (r : Result LoadError A) (f : A → Result LoadError B) {b : B}
    → and_then r f ≡ ok b
    → (a : A) × (r ≡ ok a) × (f a ≡ ok b)
unfolding and_then
and_then-ok (err e) f h = absurd (cc)
and_then-ok (ok a) f h = (a, refl, h)

default_interval-positive : 1 ≤ default_scrape_interval
default_interval-positive = omega arith

abbrev IsObject : Eoj → Type 0
IsObject e = (e.b0 < 256) × (e.b1 < 256) × (e.b2 < 256)

no_bytes : (a b c : Bool) → (a || (b || c)) ≡ false → (a ≡ false) × (b ≡ false) × (c ≡ false)
no_bytes a b c h = ground arith

read_eoj-IsObject : (xs : List ℤ) {e : Eoj} → read_eoj xs ≡ ok e → IsObject e
unfolding read_eoj
read_eoj-IsObject [] h = absurd (cc)
read_eoj-IsObject (a ∷ []) h = absurd (cc)
read_eoj-IsObject (a ∷ b ∷ []) h = absurd (cc)
read_eoj-IsObject (a ∷ b ∷ c ∷ d ∷ xs) h = absurd (cc)
read_eoj-IsObject (a ∷ b ∷ c ∷ []) {e} h =
    let (checked, found) = unless-ok (no_byte a || (no_byte b || no_byte c)) _ _ h in
    let (x, y, z) = no_bytes (no_byte a) (no_byte b) (no_byte c) checked in
    let object : record { b0 = pos_part a; b1 = pos_part b; b2 = pos_part c } ≡ e = cc in
    rw (← object) (no_byte-bound a x, no_byte-bound b y, no_byte-bound c z)

module _ (fl : Float64) (parse_duration : Text → Option ℤ) (lookup_epc_name : Eoj → ℕ → Text) where
  open fl use {F}

  parse_metrics-Polled :
      (ms : List (MetricYaml F)) (interval : ℕ) (eoj : Eoj) {out : List (MetricSpec F)}
      → 1 ≤ interval
      → parse_metrics fl parse_duration lookup_epc_name ms interval eoj ≡ ok out
      → All IsPolled out
  unfolding parse_metrics
  parse_metrics-Polled [] interval eoj {out} le h =
      let none_listed : [] ≡ out = cc in rw (← none_listed) tt
  parse_metrics-Polled (m ∷ ms) interval eoj {out} le h =
      let (s, parsed, h1) = and_then-ok _ _ h in
      let (ss, others, h2) = and_then-ok _ _ h1 in
      let listed : s ∷ ss ≡ out = cc in
      rw (← listed) (
        (
          parse_metric_spec-IsLoaded fl parse_duration lookup_epc_name m interval eoj s parsed,
          parse_metric_spec-positive fl parse_duration lookup_epc_name m interval eoj s le parsed,
        ),
        parse_metrics-Polled ms interval eoj le others,
      )

  pub parse_device_yaml-IsUsable :
      (raw : DeviceYaml F) {s : DeviceSpec F}
      → parse_device_yaml fl parse_duration lookup_epc_name raw ≡ ok s
      → IsUsable s
  unfolding parse_device_yaml
  parse_device_yaml-IsUsable raw {s} h =
      let (three, h1) = unless-ok _ _ _ h in
      let (interval, read, h2) = and_then-ok _ _ h1 in
      let (eoj, object, h3) = and_then-ok _ _ h2 in
      let (metrics, parsed, h4) = and_then-ok _ _ h3 in
      let (climate, c, h5) = and_then-ok (optional (parse_climate_yaml fl) raw.climate) _ h4 in
      let (light, l, h6) = and_then-ok (optional parse_light_yaml raw.light) _ h5 in
      let le : 1 ≤ interval =
        read_interval-positive fl parse_duration lookup_epc_name default_scrape_interval
          raw.default_scrape_interval default_interval-positive read in
      let bytes = read_eoj-IsObject raw.eoj object in
      let made : record {
        eoj = eoj;
        description = raw.description;
        default_scrape_interval = interval;
        metrics = metrics;
        climate = climate;
        light = light;
      }
          ≡ s =
        cc in
      rw (← made) (record {
        interval = le;
        group = bytes.0;
        class = bytes.1;
        instance_code = bytes.2;
        polled = parse_metrics-Polled raw.metrics interval eoj le parsed;
      })
