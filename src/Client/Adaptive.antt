-- ===== src/Client/Adaptive.antt =====
-- The split of a request that a device answers in part: nothing that it can answer alone is lost.
use echonet_go.Base.{
  ℕ, zero, suc, ◌*◌, ◌^◌, ◌≤◌, ◌≡◌, refl, ap, Bool, true, false, ◌||◌, Option, none, some, List, [],
  ◌∷◌, arith, All, inl, inr, ◌⊎◌, Bool-cases, ◌==◌, leb, length, Result, ok, err,
}
use echonet_go.Base.Maps.{has, byte_key}
use echonet_go.Base.Texts.{Text}
use echonet_go.Protocol.{Property, Eoj, FrameError, parse_get_res}
use echonet_go.Client.{
  Transport, epcs_of, missing_epcs, usable_props, refused, send_get, unless_refused, split_or_keep,
  after_reply, get_props_adaptive, get_props,
}
use native.Mathlib.Nat.{pow-suc}
use echonet_go.Client.Splits.{has-missing_epcs}
use echonet_go.Client.Parts.{Covers, ask_parts-Covers}

module _ (tr : Transport) (addr : Text) (eoj : Eoj) (P : Property → Type 0)
    (supported : ℕ → Bool) where
  open tr use {W}

  -- A usable answer to a request: a frame that is a Get_Res or a Get_SNA, with good properties. To a
  -- request for one supported code it holds that code.
  abbrev pub Answers : List ℕ → Result FrameError (List ℕ) × W → Type 0
  Answers epcs (err x, w) = ⊥
  Answers epcs (ok raw, w) =
      (refused (parse_get_res raw) ≡ none)
      × All P (usable_props (parse_get_res raw))
      × ((e : ℕ)
          → epcs ≡ e ∷ []
          → supported e ≡ true
          → has e (epcs_of (usable_props (parse_get_res raw))) ≡ true)

  has-single : (e : ℕ) (epcs : List ℕ) → length epcs ≤ 1 → has e epcs ≡ true → epcs ≡ e ∷ []
  unfolding has
  has-single e [] n h = absurd (cc)
  has-single e (x ∷ []) n h = ap (λ y. y ∷ []) (ground arith)
  has-single e (x ∷ y ∷ epcs) n h = absurd (omega arith)

  none_missing :
      (e : ℕ) (epcs : List ℕ) (props : List Property)
      → (length (missing_epcs epcs props) == 0) ≡ true
      → has e epcs ≡ true
      → has e (epcs_of props) ≡ true
  none_missing e epcs props z i =
      ground (arith, has-missing_epcs e epcs props, has-nil e (missing_epcs epcs props))
    where
      has-nil : (e : ℕ) (xs : List ℕ) → (length xs == 0) ≡ true → has e xs ≡ false
      has-nil e [] h = unfold has in refl
      has-nil e (x ∷ xs) h = absurd (ground arith)

  -- The depth limit stands for no recursive call, where one code at most is left.
  after_reply-Covers :
      (ask : Option (List ℕ → W → Result FrameError (List Property) × W)) (epcs : List ℕ)
      (r : Result FrameError (List ℕ) × W)
      → Answers epcs r
      → (length epcs ≤ 1)
        ⊎ ((again : List ℕ → W → Result FrameError (List Property) × W) × (k : ℕ) × (ask
              ≡ some again)
            × (length epcs ≤ 2 * k)
            × ((part : List ℕ) (w' : W)
                → 1 ≤ length part
                → length part ≤ k
                → Covers P supported part (again part w')))
      → Covers P supported epcs (after_reply tr addr eoj ask epcs r)
  unfolding after_reply
  after_reply-Covers ask epcs (err x, w) a d = absurd a
  after_reply-Covers ask epcs (ok raw, w) (sound, good, single) d =
      let props = usable_props (parse_get_res raw) in
      rw (sound, unless_refused)
        (elim (Bool-cases (length (missing_epcs epcs props) == 0 || leb (length epcs) 1)) [
          | inl done ↦ rw done (good, λ e i s. kept done e i s)
          | inr split ↦ rw split (elim d [
            | inl small ↦ absurd (ground arith)
            | inr (again, k, given, room, c) ↦
                rw (given, split_or_keep)
                  (ask_parts-Covers tr addr eoj P supported again epcs props w k c (ground arith)
                    room good)
          ])
        ])
    where
      kept :
          (length (missing_epcs epcs (usable_props (parse_get_res raw))) == 0
              || leb (length epcs) 1)
            ≡ true
          → (e : ℕ) → has e epcs ≡ true
          → supported e ≡ true
          → has e (epcs_of (usable_props (parse_get_res raw))) ≡ true
      kept done e i s =
          let props = usable_props (parse_get_res raw) in
          elim (Bool-cases (length (missing_epcs epcs props) == 0)) [
            | inl z ↦ none_missing e epcs props z i
            | inr z ↦ single e (has-single e epcs (ground arith) i) s
          ]

module _ (tr : Transport) (addr : Text) (eoj : Eoj) (P : Property → Type 0)
    (supported : ℕ → Bool) where
  open tr use {W}

  -- The device answers every request with something usable, and each supported code by itself.
  abbrev pub Serves : Type 0
  Serves =
      (epcs : List ℕ) (w : W)
      → 1 ≤ length epcs
      → Answers tr addr eoj P supported epcs (send_get tr addr eoj w epcs)

  get_props_adaptive-Covers :
      (depth : ℕ) (epcs : List ℕ) (w : W)
      → Serves
      → 1 ≤ length epcs
      → length epcs ≤ 2 ^ depth
      → Covers P supported epcs (get_props_adaptive tr addr eoj depth epcs w)
  unfolding get_props_adaptive
  get_props_adaptive-Covers zero epcs w serves n m =
      after_reply-Covers tr addr eoj P supported none epcs _ (serves epcs w n) (inl m)
  get_props_adaptive-Covers (suc depth) epcs w serves n m =
      after_reply-Covers tr addr eoj P supported (some _) epcs _ (serves epcs w n) (
        inr (
          λ part w'. get_props_adaptive tr addr eoj depth part w',
          2 ^ depth,
          refl,
          omega (arith, pow-suc 2 depth),
          λ part w' n' m'. get_props_adaptive-Covers depth part w' serves n' m',
        ))

  -- A device that answers each supported code by itself, whatever it leaves out of longer answers, is
  -- read in full: a request for 1 to 256 codes gives every one of them that is supported, and fails
  -- only if none is. All properties that come back are among those that the device sends.
  pub get_props-Covers :
      (epcs : List ℕ) (w : W)
      → Serves
      → 1 ≤ length epcs
      → length epcs ≤ 256
      → Covers P supported epcs (get_props tr addr eoj epcs w)
  unfolding get_props
  get_props-Covers epcs w serves n m = get_props_adaptive-Covers 8 epcs w serves n m
