-- ===== src/Commander/Topics.antt =====
-- internal/mqtt/commander.go, `strings.Split(topic, "/")`: the parts of a topic that was put together.
use echonet_go.Base.{◌≡◌, refl, ap, ◌∙◌, false, List, [], ◌∷◌, ◌++◌, ◌==◌, All}
use echonet_go.Base.Texts.{Text}
use echonet_go.Commander.Routing.{split}

-- No byte of the text is the separator of topics.
abbrev pub HasNoSlash : Text → Type 0
HasNoSlash = All (λ c. (c == b'/') ≡ false)

-- The parts with the separator between them, as `fmt.Sprintf("%s/%s/...")` writes them.
unfoldable pub join : List Text → Text
join [] = []
join (part ∷ []) = part
join (part ∷ next ∷ parts) = part ++ (b'/' ∷ join (next ∷ parts))

split-part :
    (part rest : Text) → HasNoSlash part → split (part ++ (b'/' ∷ rest)) ≡ part ∷ split rest
unfolding split
split-part [] rest h = refl
split-part (c ∷ part) rest h = rw (h.0, split-part part rest h.1) refl

split-last : (part : Text) → HasNoSlash part → split part ≡ part ∷ []
unfolding split
split-last [] h = refl
split-last (c ∷ part) h = rw (h.0, split-last part h.1) refl

-- A topic made of one part or more, none of which has a separator in it, is split into these parts.
pub split-join :
    (part : Text) (parts : List Text)
    → All HasNoSlash (part ∷ parts)
    → split (join (part ∷ parts)) ≡ part ∷ parts
unfolding join
split-join part [] h = split-last part h.0
split-join part (next ∷ parts) h =
    split-part part (join (next ∷ parts)) h.0 ∙ ap (◌∷◌ part) (split-join next parts h.1)

append-slash : (a b c : Text) → (a ++ (b'/' ∷ b)) ++ c ≡ a ++ (b'/' ∷ (b ++ c))
append-slash [] b c = refl
append-slash (x ∷ a) b c = ap (◌∷◌ x) (append-slash a b c)

-- A topic that goes on from another one.
pub join-join :
    (part : Text) (parts : List Text) (next : Text) (more : List Text)
    → join (join (part ∷ parts) ∷ next ∷ more) ≡ join (part ∷ (parts ++ (next ∷ more)))
unfolding join
join-join part [] next more = refl
join-join part (p ∷ parts) next more =
    append-slash part (join (p ∷ parts)) (b'/' ∷ join (next ∷ more))
    ∙ ap (λ t. part ++ (b'/' ∷ t)) (join-join p parts next more)
