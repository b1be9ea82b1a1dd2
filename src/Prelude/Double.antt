-- ===== src/Prelude/Double.antt =====
-- Double precision arithmetic, which the hardware does: its type and operations are a parameter.
use hypertron_sw01_ros2_brid.Prelude.{
  ℕ, zero, suc, ◌+◌, ◌*◌, ◌/◌, Bool, true, false, ◌&&◌, not, leb, if◌then◌else◌,
}
use hypertron_sw01_ros2_brid.Prelude.Int.{ℤ, pos, pos_part, neg_part, ltb_ℤ, difference, ◌+ℤ◌, ◌*ℤ◌}
use hypertron_sw01_ros2_brid.Prelude.Float.{Sample, milli}

-- `of_int` is the cast from an integer.
pub record DoubleOps (D : Type 0) : Type 0 where
  pub is_finite : D → Bool
  pub lt : D → D → Bool
  pub le : D → D → Bool
  pub eq : D → D → Bool
  pub zero_value : D
  pub add : D → D → D
  pub mul : D → D → D
  pub div : D → D → D
  pub sqrt : D → D
  pub fabs : D → D
  pub of_int : ℤ → D

-- The cast to single precision.
pub record Narrowing (D F : Type 0) : Type 0 where
  pub to_float : D → F

-- Whole numbers, as a number system in which the program can run.
abbrev root : ℕ → ℕ → ℕ
root n zero = 0
root n (suc k) = elim (leb (suc k * suc k) n) [ true ↦ suc k | false ↦ root n k ]

abbrev quotient : ℤ → ℤ → ℤ
quotient a b =
    let size : ℕ = (pos_part a + neg_part a) / (pos_part b + neg_part b) in
    if ltb_ℤ a (pos 0)
    then (if ltb_ℤ b (pos 0) then pos size else difference 0 size)
    else if ltb_ℤ b (pos 0)
    then difference 0 size
    else pos size

instance abbrev pub whole_ops : DoubleOps ℤ
whole_ops = record {
  is_finite = λ a. true;
  lt = ltb_ℤ;
  le = λ a b. not (ltb_ℤ b a);
  eq = λ a b. not (ltb_ℤ a b) && not (ltb_ℤ b a);
  zero_value = pos 0;
  add = ◌+ℤ◌;
  mul = ◌*ℤ◌;
  div = quotient;
  sqrt = λ a. pos (root (pos_part a) (pos_part a));
  fabs = λ a. pos (pos_part a + neg_part a);
  of_int = λ a. a;
}

instance abbrev pub whole_narrowing : Narrowing ℤ Sample
whole_narrowing = record { to_float = λ a. milli (a *ℤ pos 1000) }
