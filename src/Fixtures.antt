-- ===== src/Fixtures.antt =====
-- Concrete stand-ins for what the code takes from elsewhere, for the examples: whole numbers as float64, a
-- calendar of one-hour days, and a text for each window.
use i_pulse.Base.{
  ℕ, ◌+◌, ◌-◌, ◌*◌, ◌/◌, ◌%◌, ◌^◌, ◌≤◌, ◌≡◌, false, [], ◌∷◌, some, arith, ltb, leb, ◌==◌, Floats,
}
use i_pulse.Util.Stats.Ranks.{RanksFit}
use i_pulse.Baseline.Engine.{Calendar}
use i_pulse.Baseline.Engine.Storage.{Json}

instance abbrev pub whole : Floats ℕ
whole = record {
  decimal = λ m e. m / 10 ^ e;
  of_count = λ n. n;
  infinity = 1_000_000;
  is_nan = λ x. false;
  is_inf = λ x. x == 1_000_000;
  sqrt = λ x. x;
  floor_int = λ x. x;
  ceil_int = λ x. x;
  add = λ x y. x + y;
  sub = λ x y. x - y;
  mul = λ x y. x * y;
  div = λ x y. x / y;
  neg = λ x. 0;
  abs = λ x. x;
  lt = ltb;
  le = leb;
  eq = λ x y. x == y;
}

no_rank : (p n : ℕ) → p ≡ 0 → p * n ≤ n
no_rank p n h = rw h (omega arith)

pub whole-RanksFit : RanksFit ℕ
unfolding RanksFit
whole-RanksFit p n small =
    let z : p / 10 ^ 0 / (100 / 10 ^ 0) ≡ 0 = omega arith in
    (no_rank (p / 10 ^ 0 / (100 / 10 ^ 0)) n z, no_rank (p / 10 ^ 0 / (100 / 10 ^ 0)) n z)

abbrev pub hourly : Calendar
hourly = record { weekday = λ t. t / 24 % 7; hour = λ t. t % 24 }

abbrev pub one_text : Json ℕ
one_text = record { encode = λ w. some "[4,6]"; decode = λ s. some (4 ∷ 6 ∷ []) }
