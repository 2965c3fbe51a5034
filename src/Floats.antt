-- ===== src/Floats.antt =====
-- Go's `float64` and the functions of package `math` that the program calls, as an interface: the
-- type and the operations are a parameter of every definition that computes with floats. What a
-- theorem needs of them is among its hypotheses.
use echonet_go.Base.{Bool, false, Option, none, ◌+◌}
use echonet_go.Base.Int.{ℤ, pos, mul_ℤ, ltb_ℤ, eq_ℤ, pos_part, neg_part, sub_ℕ}
use echonet_go.Base.Texts.{Text}

pub record Float64 : Type 1 where
  pub F : Type 0
  -- `float64(n)`
  pub of_int : ℤ → F
  -- `int64(x)` and `int(x)`, which drop the fraction
  pub to_int : F → ℤ
  pub add : F → F → F
  pub sub : F → F → F
  pub mul : F → F → F
  pub div : F → F → F
  pub lt : F → F → Bool
  pub eq : F → F → Bool
  -- `math.Round`, `math.Floor`, `math.Ceil`, `math.Trunc`, `math.Abs`
  pub round : F → F
  pub floor : F → F
  pub ceil : F → F
  pub trunc : F → F
  pub abs : F → F
  pub log10 : F → F
  pub pow : F → F → F
  pub is_inf : F → Bool
  pub is_nan : F → Bool
  -- the literals `0.5`, `1e-9` and `1e-12`
  pub half : F
  pub nano : F
  pub pico : F
  -- `strconv.ParseFloat(s, 64)`, with `none` for its error
  pub parse : Text → Option F

-- `0`, `1`, `10` as floats, and `-x`.
module _ (fl : Float64) where
  open fl use {F, of_int, sub, lt, eq}

  abbrev pub zero_float : F
  zero_float = of_int (pos 0)

  abbrev pub one_float : F
  one_float = of_int (pos 1)

  abbrev pub ten_float : F
  ten_float = of_int (pos 10)

  abbrev pub neg_float : F → F
  neg_float x = sub zero_float x

-- The integers: an instance in which all values are whole.
abbrev pub whole_floats : Float64
whole_floats = record {
  F = ℤ;
  of_int = λ n. n;
  to_int = λ x. x;
  add = λ x y. sub_ℕ (pos_part x + pos_part y) (neg_part x + neg_part y);
  sub = λ x y. sub_ℕ (pos_part x + neg_part y) (neg_part x + pos_part y);
  mul = mul_ℤ;
  div = λ x y. x;
  lt = ltb_ℤ;
  eq = eq_ℤ;
  round = λ x. x;
  floor = λ x. x;
  ceil = λ x. x;
  trunc = λ x. x;
  abs = λ x. pos (pos_part x + neg_part x);
  log10 = λ x. pos 0;
  pow = λ x y. pos 1;
  is_inf = λ x. false;
  is_nan = λ x. false;
  half = pos 0;
  nano = pos 0;
  pico = pos 0;
  parse = λ t. none;
}
