-- ===== src/Commander/Values.antt =====
-- internal/mqtt/commander.go: what the words of a command stand for, before anything is sent. Text is
-- ASCII where its case changes.
use echonet_go.Base.{
  ℕ, zero, suc, ◌+◌, ◌*◌, ◌-◌, ◌^◌, Bool, true, false, not, ◌&&◌, ◌||◌, Option, none, some, List,
  [], ◌∷◌, ltb, leb, ◌==◌, if◌then◌else◌,
}
use echonet_go.Base.Int.{ℤ, pos, negsuc, ltb_ℤ}
use echonet_go.Base.Maps.{lookup, text_key}
use echonet_go.Base.Texts.{Text, text, text_eq}
use echonet_go.Floats.{Float64, zero_float, one_float}
use echonet_go.Identity.{is_space}
use echonet_go.Specs.{MetricSpec, LightSpec, to_upper}

-- `case "ON", "1", "TRUE"` and `case "OFF", "0", "FALSE"`, on the text in upper case.
unfoldable pub switch_word : Text → Option Bool
switch_word payload =
    let word = to_upper payload in
    if text_eq word (text "ON") || (text_eq word (text "1") || text_eq word (text "TRUE"))
    then some true
    else if text_eq word (text "OFF") || (text_eq word (text "0") || text_eq word (text "FALSE"))
    then some false
    else none

-- `onStatus` and `offStatus`
abbrev pub on_status : ℕ
on_status = 0x30

abbrev pub off_status : ℕ
off_status = 0x31

-- The data of the power command.
unfoldable pub power_edt : Text → Option (List ℕ)
power_edt payload = elim (switch_word payload) [
  | none ↦ none
  | some true ↦ some (on_status ∷ [])
  | some false ↦ some (off_status ∷ [])
]

-- `%d` of `fmt.Sscanf`: blanks, a sign, and digits up to the first other byte; a line break among the
-- blanks, no digit, and a number that an int64 does not hold are errors.
unfoldable pub digits : Text → ℕ → ℕ
digits [] n = n
digits (c ∷ s) n =
    let rest = digits s (n * 10 + (c - b'0')) in if leb b'0' c && leb c b'9' then rest else n

unfoldable pub starts_with_digit : Text → Bool
starts_with_digit [] = false
starts_with_digit (c ∷ s) = leb b'0' c && leb c b'9'

unfoldable pub scan_digits : Bool → Text → Option ℤ
unfolding digits starts_with_digit
scan_digits negative s =
    if not (starts_with_digit s)
    then none
    else (let n = digits s 0 in
        if negative
        then (if leb n (2 ^ 63) then some (neg n) else none)
        else if ltb n (2 ^ 63)
        then some (pos n)
        else none)
  where
    neg : ℕ → ℤ
    neg zero = pos 0
    neg (suc n) = negsuc n

unfoldable pub scan_int : Text → Option ℤ
unfolding scan_digits
scan_int [] = none
scan_int (c ∷ s) =
    let rest = scan_int s in
    if c == 0x0A
    then none
    else if is_space c
    then rest
    else if c == b'-'
    then scan_digits true s
    else if c == b'+'
    then scan_digits false s
    else scan_digits false (c ∷ s)

-- The text behind a prefix.
unfoldable pub after_prefix : Text → Text → Option Text
after_prefix [] s = some s
after_prefix (c ∷ prefix) [] = none
after_prefix (c ∷ prefix) (d ∷ s) =
    let rest = after_prefix prefix s in if c == d then rest else none

unfoldable pub scan_rest : Option Text → Option ℤ
scan_rest none = none
scan_rest (some s) = scan_int s

-- `fmt.Sscanf(payload, "scene_%d", &sceneNum)`
unfoldable pub scan_scene : Text → Option ℤ
unfolding after_prefix scan_int scan_rest
scan_scene payload = scan_rest (after_prefix (text "scene_") payload)

-- The number of a scene that the light has.
unfoldable pub in_range : LightSpec → Option ℤ → Option ℤ
in_range light none = none
in_range light (some n) =
    if ltb_ℤ n (pos 1) || (ltb_ℤ (pos 0) light.max_scenes && ltb_ℤ light.max_scenes n)
    then none
    else some n

unfoldable pub with_epc : ℕ → Option ℤ → Option (ℕ × ℤ)
with_epc epc none = none
with_epc epc (some n) = some (epc, n)

-- The first half of `handleLightEffect`: the code and the raw value of an effect.
unfoldable pub effect_value : LightSpec → Text → Option (ℕ × ℤ)
unfolding scan_scene in_range with_epc
effect_value light payload =
    if not (light.color_setting_epc == 0)
    then with_epc light.color_setting_epc (lookup payload light.color_settings)
    else if not (light.scene_epc == 0)
    then with_epc light.scene_epc (in_range light (scan_scene payload))
    else none

module _ (fl : Float64) where
  open fl use {F, of_int, sub, lt, eq, round, floor, ceil, trunc, abs, half, nano, parse}

  -- The direction of a step that ends on a half.
  round_half : F → Option F → F
  round_half req none = round req
  round_half req (some prev) = if lt prev req || eq req prev then ceil req else floor req

  -- `normalizeClimateSetpoint`; `prev` is `none` where `hasPrev` is false.
  unfoldable pub normalize_climate_setpoint : F → Option F → MetricSpec F → F
  unfolding round_half
  normalize_climate_setpoint req prev ms =
      let scale = if eq ms.scale (zero_float fl) then one_float fl else ms.scale in
      if not (eq scale (one_float fl))
      then req
      else if eq req (trunc req)
      then req
      else if lt (abs (sub (sub req (floor req)) half)) nano
      then round_half req prev
      else round req

  or_default : ℤ → Option ℤ → F
  or_default d none = of_int d
  or_default d (some raw) = of_int raw

  switch_value : MetricSpec F → Option Bool → Option F
  switch_value ms none = none
  switch_value ms (some true) = some (or_default (pos 1) (lookup (text "on") ms.reverse_enum))
  switch_value ms (some false) = some (or_default (pos 0) (lookup (text "off") ms.reverse_enum))

  option_value : Option ℤ → Option F
  option_value none = none
  option_value (some raw) = some (of_int raw)

  -- The `switch entityType` of `executeWritableSet`: the value to write, or none for a return.
  unfoldable pub command_value : Text → Text → MetricSpec F → Option F
  unfolding switch_word or_default switch_value option_value
  command_value entity payload ms =
      if text_eq entity (text "switch")
      then switch_value ms (switch_word payload)
      else if text_eq entity (text "select")
      then option_value (lookup payload ms.reverse_enum)
      else if text_eq entity (text "number")
      then parse payload
      else none
