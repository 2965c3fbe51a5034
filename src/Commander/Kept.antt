-- ===== src/Commander/Kept.antt =====
-- internal/mqtt/commander.go: properties of what a command did that each of its steps keeps.
use echonet_go.Base.{
  ℕ, ◌≡◌, Bool, true, false, Option, none, some, List, [], ◌∷◌, Result, ok, err, inl, inr,
  Bool-cases,
}
use echonet_go.Base.Maps.{ByteSet, text_key}
use echonet_go.Cache.{Device}
use echonet_go.Client.{Transport}
use echonet_go.Floats.{Float64}
use echonet_go.Protocol.{Eoj, FrameError}
use echonet_go.Commander.{
  Station, Effect, set_c, set_i, reconcile, verify, trigger, PendingUpdate, note, may_set,
  note_missing_map, when_writable, after_set, set_property,
}

-- `Q` holds behind a call of the reconciler, and behind one property that is set and read back.
pub record ReadsBack (Q : List Effect → Type 0) (dev : Device) (eoj : Eoj)
    (writable : Option ByteSet) : Type 0 where
  pub healed : (es : List Effect) → Q es → Q (reconcile dev eoj ∷ es)
  pub verified :
      (epc : ℕ) (edt : List ℕ) (es : List Effect)
      → may_set writable epc ≡ true
      → Q es
      → Q (verify dev ((epc, edt) ∷ []) ∷ set_c dev epc edt ∷ es)
  pub triggered :
      (epc : ℕ) (edt : List ℕ) (es : List Effect)
      → may_set writable epc ≡ true
      → Q es
      → Q (trigger dev (epc ∷ []) ∷ set_c dev epc edt ∷ es)

-- `Q` holds behind each single effect.
pub record Stepwise (Q : List Effect → Type 0) (dev : Device) (eoj : Eoj)
    (writable : Option ByteSet) : Type 0 where
  pub heals : (es : List Effect) → Q es → Q (reconcile dev eoj ∷ es)
  pub sets :
      (epc : ℕ) (edt : List ℕ) (es : List Effect)
      → may_set writable epc ≡ true
      → Q es
      → Q (set_c dev epc edt ∷ es)
  pub sets_i :
      (epc : ℕ) (edt : List ℕ) (es : List Effect)
      → may_set writable epc ≡ true
      → Q es
      → Q (set_i dev epc edt ∷ es)
  pub verifies : (us : List PendingUpdate) (es : List Effect) → Q es → Q (verify dev us ∷ es)
  pub triggers : (epcs : List ℕ) (es : List Effect) → Q es → Q (trigger dev epcs ∷ es)

module _ (Q : List Effect → Type 0) (fl : Float64) (tr : Transport) (healing : Bool) (dev : Device)
    (eoj : Eoj) (writable : Option ByteSet) where
  open fl use {F, of_int, parse}
  open tr use {W}

  pub Stepwise-ReadsBack : Stepwise Q dev eoj writable → ReadsBack Q dev eoj writable
  Stepwise-ReadsBack s = record {
    healed = s.heals;
    verified = λ epc edt es may q. s.verifies ((epc, edt) ∷ []) _ (s.sets epc edt es may q);
    triggered = λ epc edt es may q. s.triggers (epc ∷ []) _ (s.sets epc edt es may q);
  }

  abbrev pub Keeps : (Station W → Station W) → Type 0
  Keeps k = (st : Station W) → Q st.effects → Q (k st).effects

  heal-Keeps :
      ((es : List Effect) → Q es → Q (reconcile dev eoj ∷ es))
      → (b : Bool) (o : Option ByteSet) → Keeps (note_missing_map b dev eoj o)
  unfolding note_missing_map
  heal-Keeps heal true none st q = heal st.effects q
  heal-Keeps heal true (some s) st q = q
  heal-Keeps heal false o st q = q

  pub when_writable-Keeps :
      (epc : ℕ) (k : Station W → Station W)
      → ((es : List Effect) → Q es → Q (reconcile dev eoj ∷ es))
      → (may_set writable epc ≡ true → Keeps k)
      → Keeps (when_writable healing dev eoj epc writable k)
  unfolding when_writable
  when_writable-Keeps epc k heal kept st q =
      let q' = heal-Keeps heal healing writable st q in
      elim (Bool-cases (may_set writable epc)) [
        | inl allowed ↦ rw allowed (kept allowed _ q')
        | inr refused ↦ rw refused q'
      ]

  after_set-Keeps :
      (epc : ℕ) (edt : List ℕ) (failed done : Station W → Station W) (es : List Effect)
      → Q (set_c dev epc edt ∷ es)
      → Keeps failed
      → Keeps done
      → (r : Result FrameError (List ℕ) × W)
      → Q (after_set tr dev eoj epc edt failed done es r).effects
  unfolding after_set
  after_set-Keeps epc edt failed done es q f d (ok raw, w) = d _ q
  after_set-Keeps epc edt failed done es q f d (err e, w) = f _ q

  pub set_property-Keeps :
      (epc : ℕ) (edt : List ℕ) (failed done : Station W → Station W)
      → ((es : List Effect) → Q es → Q (set_c dev epc edt ∷ es))
      → Keeps failed
      → Keeps done
      → Keeps (set_property tr dev eoj epc edt failed done)
  unfolding set_property
  set_property-Keeps epc edt failed done s f d st q =
      after_set-Keeps epc edt failed done st.effects (s st.effects q) f d _

  pub after_one-Keeps :
      ReadsBack Q dev eoj writable
      → (epc : ℕ) (edt : List ℕ) (es : List Effect) → may_set writable epc ≡ true
      → Q es
      → (r : Result FrameError (List ℕ) × W)
      → Q
          (after_set tr dev eoj epc edt
            (note (trigger dev (epc ∷ [])))
            (note (verify dev ((epc, edt) ∷ [])))
            es
            r).effects
  unfolding after_set
  after_one-Keeps c epc edt es may q (ok raw, w) = c.verified epc edt es may q
  after_one-Keeps c epc edt es may q (err e, w) = c.triggered epc edt es may q
