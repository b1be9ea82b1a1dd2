-- ===== src/Prelude/Float.antt =====
-- The floating point numbers that the program computes with. The hardware's arithmetic is no code
-- of the repository: its type and operations are a parameter, and what IEEE 754 promises of them is
-- a named record of laws.
use hypertron_sw01_ros2_brid.Prelude.{◌≡◌, refl, Bool, true, false, not, ◌&&◌, arith, if◌then◌else◌}
use hypertron_sw01_ros2_brid.Prelude.Int.{ℤ, pos, negsuc, ltb_ℤ}

pub record FloatOps (F : Type 0) : Type 0 where
  pub is_finite : F → Bool
  pub lt : F → F → Bool
  pub eq : F → F → Bool
  pub zero_value : F
  pub one : F
  pub minus_one : F

-- `std::clamp(v, lo, hi)`.
abbrev pub clamp : {F : Type 0} ⦃o : FloatOps F⦄ → F → F → F → F
clamp ⦃o⦄ v lo hi = if o.lt v lo then lo else if o.lt hi v then hi else v

-- No number is below itself, 1 is not below -1, 0 lies between them, and the three are finite.
pub record FloatLaws (F : Type 0) (o : FloatOps F) : Type 0 where
  pub lt_irrefl : (a : F) → o.lt a a ≡ false
  pub not_one_lt_minus_one : o.lt o.one o.minus_one ≡ false
  pub not_zero_lt_minus_one : o.lt o.zero_value o.minus_one ≡ false
  pub not_one_lt_zero : o.lt o.one o.zero_value ≡ false
  pub eq_refl : (a : F) → o.is_finite a ≡ true → o.eq a a ≡ true
  pub zero_is_finite : o.is_finite o.zero_value ≡ true
  pub one_is_finite : o.is_finite o.one ≡ true
  pub minus_one_is_finite : o.is_finite o.minus_one ≡ true

-- A small number system that meets the laws: thousandths, the infinities and "not a number".
pub data Sample : Type 0 where
  milli : ℤ → Sample
  infinite : Bool → Sample
  nan : Sample

abbrev sample_is_finite : Sample → Bool
sample_is_finite (milli z) = true
sample_is_finite (infinite b) = false
sample_is_finite nan = false

abbrev sample_lt : Sample → Sample → Bool
sample_lt (milli a) (milli b) = ltb_ℤ a b
sample_lt (milli a) (infinite b) = b
sample_lt (infinite a) (milli b) = not a
sample_lt (infinite false) (infinite b) = b
sample_lt (infinite true) (infinite b) = false
sample_lt (milli a) nan = false
sample_lt (infinite a) nan = false
sample_lt nan b = false

abbrev sample_eq : Sample → Sample → Bool
sample_eq (milli a) (milli b) = not (ltb_ℤ a b) && not (ltb_ℤ b a)
sample_eq (infinite true) (infinite b) = b
sample_eq (infinite false) (infinite b) = not b
sample_eq (milli a) (infinite b) = false
sample_eq (infinite a) (milli b) = false
sample_eq (milli a) nan = false
sample_eq (infinite a) nan = false
sample_eq nan b = false

instance abbrev pub sample_ops : FloatOps Sample
sample_ops = record {
  is_finite = sample_is_finite;
  lt = sample_lt;
  eq = sample_eq;
  zero_value = milli (pos 0);
  one = milli (pos 1000);
  minus_one = milli (negsuc 999);
}

sample_lt_irrefl : (a : Sample) → sample_lt a a ≡ false
sample_lt_irrefl (milli z) = ground arith
sample_lt_irrefl (infinite true) = refl
sample_lt_irrefl (infinite false) = refl
sample_lt_irrefl nan = refl

sample_eq_refl : (a : Sample) → sample_is_finite a ≡ true → sample_eq a a ≡ true
sample_eq_refl (milli z) h = ground arith
sample_eq_refl (infinite b) h = cc
sample_eq_refl nan h = cc

pub sample_laws : FloatLaws Sample sample_ops
sample_laws = record {
  lt_irrefl = sample_lt_irrefl;
  not_one_lt_minus_one = refl;
  not_zero_lt_minus_one = refl;
  not_one_lt_zero = refl;
  eq_refl = sample_eq_refl;
  zero_is_finite = refl;
  one_is_finite = refl;
  minus_one_is_finite = refl;
}
