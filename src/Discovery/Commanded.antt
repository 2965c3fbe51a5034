-- ===== src/Discovery/Commanded.antt =====
-- internal/specs/types.go, `WritableEntityType`: which metrics are announced as entities of their own.
use echonet_go.Base.{
  ◌≡◌, refl, Bool, true, false, not, ◌&&◌, ◌||◌, Option, [], ◌∷◌, ◌==◌, if◌then◌else◌, ltb, length,
  arith,
}
use echonet_go.Base.Maps.{ByteSet, has}
use echonet_go.Base.Texts.{Text, text, text_eq}
use echonet_go.Commander.Topics.{HasNoSlash}
use echonet_go.Identity.{is_empty}
use echonet_go.Specs.{
  MetricSpec, ClimateSpec, LightSpec, climate_handles_epc, light_handles_epc, writable_entity_type,
  has_label,
}

-- A literal has no separator if none of its bytes is one.
unfoldable pub is_plain : Text → Bool
is_plain [] = true
is_plain (c ∷ s) = if c == b'/' then false else is_plain s

pub plain-HasNoSlash : (s : Text) → is_plain s ≡ true → HasNoSlash s
unfolding is_plain
plain-HasNoSlash [] h = tt
plain-HasNoSlash (c ∷ s) h = (ground arith, plain-HasNoSlash s (ground arith))

abbrev pub is_entity : Text → Bool
is_entity entity =
    text_eq entity (text "switch")
    || (text_eq entity (text "select") || text_eq entity (text "number"))

-- The choice of an entity type, over its conditions.
abbrev pub choice : Bool → Bool → Bool → Bool → Bool → Text
choice excluded two on_off many no_labels =
    if excluded
    then []
    else if two
    then (if on_off then text "switch" else text "select")
    else if many
    then text "select"
    else if no_labels
    then text "number"
    else []

abbrev pub IsCommanded : Bool → Text → Type 0
IsCommanded excluded entity = (excluded ≡ false) × (is_entity entity ≡ true) × HasNoSlash entity

choice-IsCommanded :
    (excluded two on_off many no_labels : Bool)
    → is_empty (choice excluded two on_off many no_labels) ≡ false
    → IsCommanded excluded (choice excluded two on_off many no_labels)
unfolding text_eq is_plain
choice-IsCommanded true two on_off many no_labels h = absurd (ground arith)
choice-IsCommanded false true true many no_labels h =
    (refl, refl, plain-HasNoSlash (text "switch") refl)
choice-IsCommanded false true false many no_labels h =
    (refl, refl, plain-HasNoSlash (text "select") refl)
choice-IsCommanded false false on_off true no_labels h =
    (refl, refl, plain-HasNoSlash (text "select") refl)
choice-IsCommanded false false on_off false true h =
    (refl, refl, plain-HasNoSlash (text "number") refl)
choice-IsCommanded false false on_off false false h = absurd (ground arith)

module _ {F : Type 0} where
  -- An entity type is one of the three, and stands for a metric that is not excluded.
  writable_entity_type-IsCommanded :
      (m : MetricSpec F)
      → is_empty (writable_entity_type m) ≡ false
      → IsCommanded m.exclude_set (writable_entity_type m)
  unfolding writable_entity_type
  writable_entity_type-IsCommanded m h =
      choice-IsCommanded m.exclude_set (length m.enum == 2)
        (has_label (text "on") m.enum && has_label (text "off") m.enum) (ltb 2 (length m.enum))
        (length m.enum == 0) h

  abbrev pub IsOwn :
      ByteSet → Option (ClimateSpec F) → Option LightSpec → MetricSpec F → Text → Type 0
  IsOwn writable climate light ms entity =
      (has ms.epc writable ≡ true)
      × ((climate_handles_epc climate ms.epc || (light_handles_epc light ms.epc || ms.exclude_set))
          ≡ false)
      × (is_entity entity ≡ true)
      × HasNoSlash entity

  pub taken-IsOwn :
      (writable : ByteSet) (climate : Option (ClimateSpec F)) (light : Option LightSpec)
      (ms : MetricSpec F) (listed climates lights : Bool)
      → has ms.epc writable ≡ listed
      → climate_handles_epc climate ms.epc ≡ climates
      → light_handles_epc light ms.epc ≡ lights
      → is_empty (if not listed || (climates || lights) then [] else writable_entity_type ms)
        ≡ false
      → IsOwn writable climate light ms
          (if not listed || (climates || lights) then [] else writable_entity_type ms)
  taken-IsOwn writable climate light ms true false false e1 e2 e3 h =
      let (set, entity, plain) = writable_entity_type-IsCommanded ms h in
      (e1, rw (e2, e3, set) refl, entity, plain)
  taken-IsOwn writable climate light ms false climates lights e1 e2 e3 h = absurd (ground arith)
  taken-IsOwn writable climate light ms true true lights e1 e2 e3 h = absurd (ground arith)
  taken-IsOwn writable climate light ms true false true e1 e2 e3 h = absurd (ground arith)
