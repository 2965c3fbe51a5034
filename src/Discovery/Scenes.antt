-- ===== src/Discovery/Scenes.antt =====
-- internal/mqtt/discovery.go and internal/mqtt/commander.go: the scenes that are announced are read
-- back as their numbers.
use echonet_go.Base.{List, ℕ, suc, ◌≤◌, ◌≡◌, some, [], ◌∷◌}
use echonet_go.Base.Int.{pos}
use echonet_go.Base.Texts.{Text}
use echonet_go.Commander.Values.{effect_value}
use echonet_go.Specs.{LightSpec}

abbrev IsDigit : ℕ → Type 0
IsDigit c = (b'0' ≤ c) × (c ≤ b'9')

-- The names of a list stand for these numbers, one after another from the first on, and are written to
-- the scene code.
abbrev pub AreScenes : LightSpec → ℕ → List Text → Type 0
AreScenes light i [] = Unit
AreScenes light i (name ∷ names) =
    (effect_value light name ≡ some (light.scene_epc, pos i)) × AreScenes light (suc i) names
