-- ===== src/Discovery/Options.antt =====
-- internal/mqtt/discovery.go: the lists of options, in the order in which they are shown.
use echonet_go.Base.{
  ℕ, zero, suc, Bool, true, false, not, ◌&&◌, ◌||◌, Option, List, [], ◌∷◌, ◌++◌, ◌==◌,
  if◌then◌else◌, ltb, length, is_some, map, keep,
}
use echonet_go.Base.Int.{ℤ, pos, negsuc}
use echonet_go.Base.Maps.{lookup, text_key}
use echonet_go.Base.Texts.{Text, text, text_eq}
use echonet_go.Discovery.{decimal}
use echonet_go.Specs.{MetricSpec, ClimateSpec, LightSpec}

unfoldable pub contains : List Text → Text → Bool
contains [] label = false
contains (l ∷ labels) label = text_eq l label || contains labels label

abbrev pub labels_of {ℓ} : {A : Type ℓ} → List (Text × A) → List Text
labels_of = map (λ e. e.0)

-- The labels of a map: those of the order that are there, and the others.
unfoldable pub in_order {ℓ} : {A : Type ℓ} → List Text → List (Text × A) → List Text
unfolding contains
in_order order m =
    keep (λ label. is_some (lookup label m)) order
    ++ keep (λ label. not (contains order label)) (labels_of m)

-- The order of Go's strings, and `sort.Strings`.
text_leb : Text → Text → Bool
text_leb [] t = true
text_leb (a ∷ s) [] = false
text_leb (a ∷ s) (b ∷ t) = ltb a b || (a == b && text_leb s t)

insert_text : Text → List Text → List Text
unfolding text_leb
insert_text t [] = t ∷ []
insert_text t (u ∷ us) =
    let rest = insert_text t us in if text_leb t u then t ∷ u ∷ us else u ∷ rest

unfoldable pub sort_strings : List Text → List Text
unfolding insert_text
sort_strings [] = []
sort_strings (t ∷ ts) = insert_text t (sort_strings ts)

-- `climateModesList`
unfoldable pub climate_modes_list : List (Text × Option ℤ) → List Text
unfolding in_order
climate_modes_list =
    in_order
      (text "off" ∷ text "auto" ∷ text "cool" ∷ text "heat" ∷ text "dry" ∷ text "fan_only" ∷ [])

abbrev fan_order : List Text
fan_order =
    text "auto"
    ∷ text "level_1"
    ∷ text "level_2"
    ∷ text "level_3"
    ∷ text "level_4"
    ∷ text "level_5"
    ∷ text "level_6"
    ∷ text "level_7"
    ∷ text "level_8"
    ∷ []

module _ {F : Type 0} where
  -- `selectOptionsOrdered`, and the sorted labels where it has no order.
  unfoldable pub select_options : MetricSpec F → List Text
  unfolding in_order sort_strings
  select_options ms =
      if text_eq ms.name (text "air_flow_direction_horizontal")
      then in_order
          (text "uppermost"
            ∷ text "upper_mid"
            ∷ text "middle"
            ∷ text "lower_mid"
            ∷ text "lowermost"
            ∷ [])
          ms.reverse_enum
      else sort_strings (labels_of ms.reverse_enum)

  -- The options of the first metric with this code; none where it has no labels.
  fan_options : ℕ → List (MetricSpec F) → List Text
  unfolding in_order
  fan_options epc [] = []
  fan_options epc (m ∷ specs) =
      let rest = fan_options epc specs in
      if not (m.epc == epc)
      then rest
      else if length m.reverse_enum == 0
      then []
      else in_order fan_order m.reverse_enum

  -- `fanModesFromSpec`, which is called with a climate.
  unfoldable pub fan_modes_from_spec : List (MetricSpec F) → ClimateSpec F → List Text
  unfolding fan_options
  fan_modes_from_spec specs cl =
      if cl.fan_mode_epc == 0
      then []
      else if ltb 0 (length cl.fan_modes)
      then cl.fan_modes
      else fan_options cl.fan_mode_epc specs

-- `fmt.Sprintf("scene_%d", i)`
abbrev pub scene_name : ℕ → Text
scene_name i = text "scene_" ++ decimal i

-- The loop over the scenes, from this one on.
unfoldable pub scenes_from : ℕ → ℕ → List Text
scenes_from i zero = []
scenes_from i (suc left) = scene_name i ∷ scenes_from (suc i) left

-- No scene where the number is not positive.
unfoldable pub scene_list : ℤ → List Text
unfolding scenes_from
scene_list (pos n) = scenes_from 1 n
scene_list (negsuc n) = []

-- The effects of a light, none where it has neither colors nor scenes.
unfoldable pub effect_list : LightSpec → List Text
unfolding sort_strings scene_list
effect_list light =
    if not (light.color_setting_epc == 0) && ltb 0 (length light.color_settings)
    then sort_strings (labels_of light.color_settings)
    else if not (light.scene_epc == 0)
    then scene_list light.max_scenes
    else []
