-- ===== src/Node/Commands.antt =====
-- src/driver_node.cpp: the commands that arrive on topics, up to the call of the runtime, and the
-- frequencies of subscriptions.
use hypertron_sw01_ros2_brid.Prelude.{
  subst, ℕ, ◌≡◌, refl, Bool, true, false, ◌&&◌, ◌||◌, List, [], ◌∷◌, map, Option, none, some, arith,
  ◌==◌, if◌then◌else◌, Bool-cases, inl, inr,
}
use hypertron_sw01_ros2_brid.Prelude.Int.{ℤ, pos, negsuc}
use hypertron_sw01_ros2_brid.Prelude.Text.{Bytes, codes, bytes_eq, bytes_eq_sound, to_lower}
use hypertron_sw01_ros2_brid.Prelude.Float.{FloatOps}
use hypertron_sw01_ros2_brid.Prelude.Double.{DoubleOps, Narrowing}
use hypertron_sw01_ros2_brid.Controller.Data.{VelocityPayload}
use hypertron_sw01_ros2_brid.Controller.Modes.{normalized_mode, find_mode, find_in, modes}

-- " \t\r\n".
abbrev is_blank : ℕ → Bool
is_blank c = (c == 32 || c == 9) || (c == 13 || c == 10)

-- From the first character that is no blank.
unfoldable pub from_first : Bytes → Bytes
from_first [] = []
from_first (c ∷ s) = if is_blank c then from_first s else c ∷ s

abbrev keep : ℕ → Bytes → Bytes
keep c [] = if is_blank c then [] else c ∷ []
keep c (d ∷ s) = c ∷ d ∷ s

-- Up to the last character that is no blank.
unfoldable pub to_last : Bytes → Bytes
to_last [] = []
to_last (c ∷ s) = keep c (to_last s)

unfoldable pub trimmed_lower : Bytes → Bytes
trimmed_lower s = map to_lower (to_last (from_first s))

abbrev robot_mode_names : List Bytes
robot_mode_names =
    codes "damping"
    ∷ codes "stand"
    ∷ codes "down"
    ∷ codes "move"
    ∷ codes "auto_charge"
    ∷ codes "exit_charge"
    ∷ codes "recover"
    ∷ codes "recovery"
    ∷ []

-- `std::find(names.begin(), names.end(), name) != names.end()`.
unfoldable pub is_listed : List Bytes → Bytes → Bool
is_listed [] name = false
is_listed (key ∷ keys) name = bytes_eq key name || is_listed keys name

-- The name that the runtime is asked for, if it is asked.
unfoldable pub on_robot_mode : Bool → Bytes → Option Bytes
on_robot_mode has_runtime text =
    let name : Bytes = trimmed_lower text in
    if has_runtime && is_listed robot_mode_names name then some name else none

-- `std::max(-1.0f, std::min(1.0f, v))`.
unfoldable pub clamp_unit : {F : Type 0} ⦃float : FloatOps F⦄ → F → F
clamp_unit ⦃float⦄ v =
    let least = if float.lt v float.one then v else float.one in
    if float.lt float.minus_one least then least else float.minus_one

-- The velocity that the runtime is given, if it is given one: of the components of a message, whose
-- numbers have double precision, those of the robot's plane.
unfoldable pub on_cmd_vel :
    {D F : Type 0} ⦃double : DoubleOps D⦄ ⦃float : FloatOps F⦄ ⦃narrowing : Narrowing D F⦄
    → Bool
    → D
    → D
    → D
    → Option (VelocityPayload F)
on_cmd_vel ⦃double⦄ ⦃float⦄ ⦃narrowing⦄ has_runtime x y yaw =
    if has_runtime && (double.is_finite x && (double.is_finite y && double.is_finite yaw))
    then some (record {
      vx = clamp_unit (narrowing.to_float x);
      vy = clamp_unit (narrowing.to_float y);
      vyaw = clamp_unit (narrowing.to_float yaw);
    })
    else none

pub data SubscriptionFrequency : Type 0 where
  disabled hz1 hz25 hz50 hz125 hz250 : SubscriptionFrequency

-- What is thrown is `none`.
unfoldable pub frequency_from_hz : ℤ → Option SubscriptionFrequency
frequency_from_hz (pos hz) =
    if hz == 0
    then some disabled
    else if hz == 1
    then some hz1
    else if hz == 25
    then some hz25
    else if hz == 50
    then some hz50
    else if hz == 125
    then some hz125
    else if hz == 250
    then some hz250
    else none
frequency_from_hz (negsuc k) = none

abbrev hz_of : SubscriptionFrequency → ℤ
hz_of disabled = pos 0
hz_of hz1 = pos 1
hz_of hz25 = pos 25
hz_of hz50 = pos 50
hz_of hz125 = pos 125
hz_of hz250 = pos 250

-- Every frequency is reached, from its own number of Hz,
frequency_from_hz-hz_of : (f : SubscriptionFrequency) → frequency_from_hz (hz_of f) ≡ some f
unfolding frequency_from_hz
frequency_from_hz-hz_of disabled = refl
frequency_from_hz-hz_of hz1 = refl
frequency_from_hz-hz_of hz25 = refl
frequency_from_hz-hz_of hz50 = refl
frequency_from_hz-hz_of hz125 = refl
frequency_from_hz-hz_of hz250 = refl

-- and from no other.
hz_of-frequency_from_hz :
    (hz : ℤ) (f : SubscriptionFrequency) → frequency_from_hz hz ≡ some f → hz_of f ≡ hz
unfolding frequency_from_hz
hz_of-frequency_from_hz (pos hz) f h = ground arith
hz_of-frequency_from_hz (negsuc k) f h = ground arith

-- The node passes on a name exactly when the controller's table has it.
is_listed-find_in :
    (table : List (Bytes × ℕ)) (name : Bytes)
    → is_listed (map (λ row. row.0) table) name
      ≡ elim (find_in table name) [ none ↦ false | some mode ↦ true ]
unfolding is_listed find_in
is_listed-find_in [] name = refl
is_listed-find_in ((key, mode) ∷ rest) name = elim (Bool-cases (bytes_eq key name)) [
  | inl same ↦ rw same refl
  | inr other ↦ rw other (is_listed-find_in rest name)
]

is_listed-find_mode :
    (name : Bytes)
    → is_listed robot_mode_names name ≡ elim (find_mode name) [ none ↦ false | some mode ↦ true ]
unfolding find_mode
is_listed-find_mode name = is_listed-find_in modes name

abbrev are_normal : List Bytes → Bool
are_normal [] = true
are_normal (key ∷ keys) = bytes_eq (normalized_mode key) key && are_normal keys

listed-normal :
    (keys : List Bytes) (name : Bytes)
    → are_normal keys ≡ true
    → is_listed keys name ≡ true
    → bytes_eq (normalized_mode name) name ≡ true
unfolding is_listed
listed-normal [] name n h = ground arith
listed-normal (key ∷ keys) name n h = elim (Bool-cases (bytes_eq key name)) [
  | inl same ↦
      subst (λ x. bytes_eq (normalized_mode x) x ≡ true) (bytes_eq_sound key name same)
        (ground arith)
  | inr other ↦ listed-normal keys name (ground arith) (ground arith)
]

robot_mode_names-normal : are_normal robot_mode_names ≡ true
unfolding normalized_mode
robot_mode_names-normal = refl

-- A name that the node passes on is one that the controller's lookup, which normalizes it again,
-- finds.
on_robot_mode-found :
    (has_runtime : Bool) (text name : Bytes)
    → on_robot_mode has_runtime text ≡ some name
    → (normalized_mode name ≡ name) × ((mode : ℕ) × (find_mode (normalized_mode name) ≡ some mode))
unfolding on_robot_mode
on_robot_mode-found has_runtime text name h =
    let listed : is_listed robot_mode_names name ≡ true = ground arith in
    let normal : normalized_mode name ≡ name =
      bytes_eq_sound (normalized_mode name) name
        (listed-normal robot_mode_names name robot_mode_names-normal listed) in
    (normal, rw normal (found (find_mode name) (is_listed-find_mode name) listed))
  where
    found :
        {b : Bool} (o : Option ℕ)
        → b ≡ elim o [ none ↦ false | some mode ↦ true ]
        → b ≡ true
        → (mode : ℕ) × (o ≡ some mode)
    found none e h = cc
    found (some mode) e h = (mode, refl)
