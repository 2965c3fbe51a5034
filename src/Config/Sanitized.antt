-- ===== src/Config/Sanitized.antt =====
-- internal/config/config.go: what the names of the devices satisfy, and what `Load` gives.
use echonet_go.Base.{
  ℕ, suc, ◌≡◌, refl, Bool, true, false, Option, none, some, List, [], ◌∷◌, if◌then◌else◌, map,
  Result, ok, err, All, arith, inl, inr, Bool-cases, ||_false, ◌==◌,
}
use mathlib.Core.Path.{subst}
use echonet_go.Base.Int.{ℤ, pos, ltb_ℤ}
use echonet_go.Base.Texts.{Text}
use echonet_go.Cache.{Device}
use echonet_go.Identity.{is_empty}
use echonet_go.Commander.Topics.{HasNoSlash}
use echonet_go.Config.{
  Config, ConfigError, Environment, Files, is_control, is_reserved, sanitize_device_name,
  sanitize_device, sanitize, validate_devices, validate, timeout_variable, parsed_timeout,
}
use echonet_go.Config.Loading.{
  and_then, apply_env_overrides, default_config, load_additional_devices, checked, load,
}

-- No character is a control character, a separator or a wildcard.
abbrev pub IsClean : Text → Type 0
IsClean = All (λ r. (is_control r ≡ false) × (is_reserved r ≡ false))

-- The name that is made of any name is clean: it is safe as a part of a topic.
pub sanitize_device_name-IsClean : (name : Text) → IsClean (sanitize_device_name name)
unfolding sanitize_device_name
sanitize_device_name-IsClean [] = tt
sanitize_device_name-IsClean (r ∷ name) =
    let rest = sanitize_device_name-IsClean name in
    elim (Bool-cases (is_control r)) [
      | inl control ↦ rw control rest
      | inr printed ↦ elim (Bool-cases (is_reserved r)) [
        | inl reserved ↦ rw (printed, reserved) ((refl, refl), rest)
        | inr plain ↦ rw (printed, plain) ((printed, plain), rest)
      ]
    ]

-- A clean name stays as it is.
sanitize_device_name-fixes : (name : Text) → IsClean name → sanitize_device_name name ≡ name
unfolding sanitize_device_name
sanitize_device_name-fixes [] h = refl
sanitize_device_name-fixes (r ∷ name) h =
    rw (h.0.0, h.0.1, sanitize_device_name-fixes name h.1) refl

-- Sanitizing a name twice is sanitizing it once.
pub sanitize_device_name-idempotent :
    (name : Text) → sanitize_device_name (sanitize_device_name name) ≡ sanitize_device_name name
sanitize_device_name-idempotent name =
    sanitize_device_name-fixes (sanitize_device_name name) (sanitize_device_name-IsClean name)

pub clean-HasNoSlash : (name : Text) → IsClean name → HasNoSlash name
clean-HasNoSlash [] h = tt
clean-HasNoSlash (r ∷ name) h = ((||_false (r == b'/') _ h.0.1).0, clean-HasNoSlash name h.1)

-- A device with a name that is safe in topics, an address and a class.
abbrev pub IsUsable : Device → Type 0
IsUsable d =
    (is_empty d.name ≡ false)
    × IsClean d.name
    × (is_empty d.ip ≡ false)
    × (is_empty d.class ≡ false)

empty-IsClean : (name : Text) → is_empty name ≡ true → IsClean name
empty-IsClean [] h = tt
empty-IsClean (r ∷ name) h = absurd (ground arith)

sanitize_device-IsClean : (d : Device) → IsClean (sanitize_device d).name
unfolding sanitize_device
sanitize_device-IsClean d = elim (Bool-cases (is_empty d.name)) [
  | inl empty ↦ rw empty (empty-IsClean d.name empty)
  | inr named ↦ rw named (sanitize_device_name-IsClean d.name)
]

passes :
    {E : Type 0} (b : Bool) (e : E) (rest : Option E)
    → (if b then some e else rest) ≡ none
    → (b ≡ false) × (rest ≡ none)
passes true e rest h = absurd (cc)
passes false e rest h = (refl, h)

validate_devices-IsUsable :
    (i : ℕ) (devices : List Device)
    → validate_devices i (map sanitize_device devices) ≡ none
    → All IsUsable (map sanitize_device devices)
unfolding validate_devices
validate_devices-IsUsable i [] h = tt
validate_devices-IsUsable i (d ∷ devices) h =
    let (named, h1) = passes _ _ _ h in
    let (addressed, h2) = passes _ _ _ h1 in
    let (classed, rest) = passes _ _ _ h2 in
    (
      (named, sanitize_device-IsClean d, addressed, classed),
      validate_devices-IsUsable (suc i) devices rest,
    )

-- A result that is no error has the property.
abbrev Yields : {A : Type 0} → (A → Type 0) → Result ConfigError A → Type 0
Yields P (ok a) = P a
Yields P (err e) = Unit

and_then-Yields :
    {A B : Type 0} (P : B → Type 0) (r : Result ConfigError A) (f : A → Result ConfigError B)
    → ((a : A) → r ≡ ok a → Yields P (f a))
    → Yields P (and_then r f)
unfolding and_then
and_then-Yields P (ok a) f h = h a refl
and_then-Yields P (err e) f h = tt

yielded :
    {A : Type 0} (P : A → Type 0) (r : Result ConfigError A) (a : A) → Yields P r → r ≡ ok a → P a
yielded P (ok b) a y h = subst P (cc) y
yielded P (err e) a y h = absurd (cc)

accepted :
    {A : Type 0} (b : Bool) (a n : A) (e : ConfigError)
    → (if b then ok a else err e) ≡ ok n
    → (b ≡ true) × (a ≡ n)
accepted true a n e h = (refl, cc)
accepted false a n e h = absurd (cc)

parsed_timeout-positive :
    (env : Environment) (name : Text) (o : Option ℤ) (n : ℤ)
    → parsed_timeout env name o ≡ ok n
    → ltb_ℤ (pos 0) n ≡ true
unfolding parsed_timeout
parsed_timeout-positive env name none n h = absurd (cc)
parsed_timeout-positive env name (some m) n h =
    let (positive, same) = accepted (ltb_ℤ (pos 0) m) m n _ h in rw (← same) positive

timeout_variable-positive :
    (env : Environment) (name : Text) (n : ℤ)
    → timeout_variable env name (pos 15) ≡ ok n
    → ltb_ℤ (pos 0) n ≡ true
unfolding timeout_variable
timeout_variable-positive env name n h = by_value (is_empty (env.getenv name)) h
  where
    fifteen : pos 15 ≡ n → ltb_ℤ (pos 0) n ≡ true
    fifteen e = rw (← e) refl

    by_value :
        (b : Bool)
        → (if b then ok (pos 15) else parsed_timeout env name (env.atoi (env.getenv name))) ≡ ok n
        → ltb_ℤ (pos 0) n ≡ true
    by_value true e = fifteen (cc)
    by_value false e = parsed_timeout-positive env name (env.atoi (env.getenv name)) n e

abbrev HasTimeout : Config → Type 0
HasTimeout c = ltb_ℤ (pos 0) c.scrape_timeout_sec ≡ true

apply_env_overrides-positive :
    (env : Environment) → Yields HasTimeout (apply_env_overrides env (default_config env))
unfolding apply_env_overrides default_config
apply_env_overrides-positive env = and_then-Yields HasTimeout _ _ (λ timeout t.
    let positive = timeout_variable-positive env _ timeout t in
    and_then-Yields HasTimeout _ _ (λ strict _. and_then-Yields HasTimeout _ _ (λ metrics _.
      and_then-Yields HasTimeout _ _ (λ notifications _.
        and_then-Yields HasTimeout _ _
          (λ force _. and_then-Yields HasTimeout _ _ (λ broker _. positive))))))

load_additional_devices-timeout :
    (files : Files) (env : Environment) (c : Config)
    → Yields
        (λ c'. c'.scrape_timeout_sec ≡ c.scrape_timeout_sec)
        (load_additional_devices files env c)
unfolding load_additional_devices
load_additional_devices-timeout files env c =
    and_then-Yields (λ c'. c'.scrape_timeout_sec ≡ c.scrape_timeout_sec) _ _
      (λ devices _.
        and_then-Yields (λ c'. c'.scrape_timeout_sec ≡ c.scrape_timeout_sec) _ _
          (λ devices' _. refl))

checked-Yields :
    (P : Config → Type 0) (env : Environment) (c : Config) (o : Option ConfigError)
    → (o ≡ none → P c)
    → Yields P (checked env c o)
unfolding checked
checked-Yields P env c none h = h refl
checked-Yields P env c (some e) h = tt

-- A configuration is usable: its timeout is positive, and so are its devices.
abbrev pub IsLoaded : Config → Type 0
IsLoaded c = (ltb_ℤ (pos 0) c.scrape_timeout_sec ≡ true) × All IsUsable c.devices

-- A configuration that `Load` gives has a positive timeout, and each of its devices has a name, an
-- address and a class, and a name that is safe as a part of a topic.
pub load-IsLoaded :
    (env : Environment) (files : Files) (c : Config) → load env files ≡ ok c → IsLoaded c
unfolding load sanitize validate
load-IsLoaded env files c h = yielded IsLoaded (load env files) c loaded h
  where
    loaded : Yields IsLoaded (load env files)
    loaded = and_then-Yields IsLoaded _ _ (λ first e1. and_then-Yields IsLoaded _ _ (λ second e2.
        checked-Yields IsLoaded env (sanitize second) _ (λ valid. (
          rw
              (yielded (λ c'. c'.scrape_timeout_sec ≡ first.scrape_timeout_sec) _ second
                (load_additional_devices-timeout files env first) e2)
              (yielded HasTimeout _ first (apply_env_overrides-positive env) e1),
          validate_devices-IsUsable 0 second.devices valid,
        ))))
