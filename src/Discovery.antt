-- ===== src/Discovery.antt =====
-- internal/mqtt/discovery.go: the messages that announce the entities of a device.
pub mod Options
pub mod Entities
pub mod Announce
pub mod Commanded
pub mod Routes
pub mod Attributes
pub mod Scenes
use echonet_go.Base.{
  ℕ, zero, suc, ◌+◌, ◌-◌, ◌*◌, ◌/◌, ◌%◌, Bool, true, false, not, ◌&&◌, ◌||◌, Option, none, some,
  List, [], ◌∷◌, ◌++◌, ◌==◌, if◌then◌else◌, ltb, length, is_some, map,
}
use echonet_go.Base.Int.{ℤ, pos, negsuc, ltb_ℤ}
use echonet_go.Base.Texts.{Text, text, text_eq}
use echonet_go.Floats.{Float64}
use echonet_go.Specs.{MetricSpec}

-- `minExpireAfterSeconds`
abbrev pub min_expire_after_seconds : ℕ
min_expire_after_seconds = 300

-- `expireAfterFor`, of a number of nanoseconds: `d.Seconds()` is the seconds and the rest over 1e9.
unfoldable pub expire_after_for : Float64 → ℕ → ℤ
expire_after_for fl d =
    let seconds =
      fl.add (fl.of_int (pos (d / 1000000000)))
        (fl.div (fl.of_int (pos (d % 1000000000))) (fl.of_int (pos 1000000000))) in
    let secs =
      fl.to_int (fl.ceil (fl.mul seconds (fl.div (fl.of_int (pos 5)) (fl.of_int (pos 2))))) in
    if ltb_ℤ secs (pos min_expire_after_seconds) then pos min_expire_after_seconds else secs

-- `strings.ReplaceAll(s, "_", " ")`
unfoldable pub spaces_for : Text → Text
spaces_for = map (λ c. if c == b'_' then b' ' else c)

-- `strings.ReplaceAll(s, "  ", " ")`, from the left.
unfoldable pub single_spaces : Text → Text
single_spaces [] = []
single_spaces (c ∷ []) = c ∷ []
single_spaces (c ∷ d ∷ s) =
    let rest = single_spaces s in
    let next = single_spaces (d ∷ s) in if c == b' ' && d == b' ' then b' ' ∷ rest else c ∷ next

-- `friendlyName`; `title` is the caser.
unfoldable pub friendly_name : (Text → Text) → Text → Text
unfolding spaces_for single_spaces
friendly_name title name = single_spaces (title (spaces_for name))

-- The digits of `%d`, with as many rounds as there may be digits.
unfoldable pub digits_of : ℕ → ℕ → Text
digits_of zero n = []
digits_of (suc rounds) n =
    let higher = digits_of rounds (n / 10) in
    let last = (b'0' + n % 10) ∷ [] in if ltb n 10 then last else higher ++ last

-- `fmt.Sprintf("%d", n)`
unfoldable pub decimal : ℕ → Text
unfolding digits_of
decimal n = digits_of (suc n) n

unfoldable pub decimal_int : ℤ → Text
unfolding decimal
decimal_int (pos n) = decimal n
decimal_int (negsuc n) = b'-' ∷ decimal (suc n)

module _ {F : Type 0} where
  -- The longest interval of the metrics of one code.
  slowest_of : ℕ → List (MetricSpec F) → ℕ → ℕ
  slowest_of epc [] slowest = slowest
  slowest_of epc (m ∷ specs) slowest =
      slowest_of epc specs
        (if m.epc == epc && ltb slowest m.scrape_interval then m.scrape_interval else slowest)

  slowest_over : List (MetricSpec F) → List ℕ → ℕ → ℕ
  unfolding slowest_of
  slowest_over specs [] slowest = slowest
  slowest_over specs (epc ∷ epcs) slowest =
      slowest_over specs epcs (if epc == 0 then slowest else slowest_of epc specs slowest)

  -- `slowestMetricInterval`
  unfoldable pub slowest_metric_interval : List (MetricSpec F) → List ℕ → ℕ
  unfolding slowest_over
  slowest_metric_interval specs epcs = slowest_over specs epcs 0
