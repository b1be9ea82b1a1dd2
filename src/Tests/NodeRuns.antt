-- ===== src/Tests/NodeRuns.antt =====
-- The clock of the LiDAR and the commands from topics, at concrete values.
use hypertron_sw01_ros2_brid.Prelude.{
  List, ℕ, ◌^◌, ◌-◌, [], ◌∷◌, ◌≡◌, refl, arith, none, some, true, false,
}
use hypertron_sw01_ros2_brid.Prelude.Int.{pos, negsuc, ◌-ℤ◌}
use hypertron_sw01_ros2_brid.Prelude.Text.{codes}
use hypertron_sw01_ros2_brid.Prelude.Float.{Sample, milli, nan, sample_ops}
use hypertron_sw01_ros2_brid.Prelude.Double.{whole_ops, whole_narrowing}
use hypertron_sw01_ros2_brid.Node.Commands.{
  on_cmd_vel, clamp_unit, on_robot_mode, trimmed_lower, from_first, to_last, is_listed,
  frequency_from_hz,
}
use hypertron_sw01_ros2_brid.Node.Clock.{
  wrap, Mapper, constructed, next_offset, is_discontinuous, mapped_time, observe_odometry,
  map_cloud,
}
use hypertron_sw01_ros2_brid.Node.Clock.Near.{IsNear, ◌≤ℤ◌, observe_all, observe_odometry-IsNear}

-- After a first datagram at device time 1 ms.
abbrev anchored : Mapper
anchored = (observe_odometry 1_000_000 (pos 5_000_000) constructed).0

observe_odometry-IsNear_example :
    let seen : List (ℕ × ℕ) = (1_000_000, 5_000_000) ∷ [] in
    let (m', time) = observe_odometry 2_000_000 (pos 8_000_000) (observe_all seen constructed) in
    IsNear (pos 8_000_000) time
    × (map_cloud 2_000_000 (pos 9_000_000) m' ≡ time)
    × (map_cloud 3_000_000 (pos 9_000_000) m' ≤ℤ pos 9_000_000)
observe_odometry-IsNear_example =
    observe_odometry-IsNear ((1_000_000, 5_000_000) ∷ []) 2_000_000 3_000_000 8_000_000 9_000_000
      9_000_000 ((omega arith, omega arith), tt) (omega arith, omega arith) (omega arith)

-- A device time that passes the test for its size: the second datagram in a row with it counts as a
-- restart of the device, since the sum that the test compares overflows.
abbrev late_in_range : ℕ
late_in_range = 2 ^ 63 - 1

overflow_restarts :
    is_discontinuous
      (pos late_in_range)
      (pos 5 -ℤ pos late_in_range)
      (observe_odometry late_in_range (pos 5) constructed).0
    ≡ true
unfolding observe_odometry next_offset is_discontinuous mapped_time wrap
overflow_restarts = refl

-- The second datagram came two milliseconds late; the offset follows by a 64th of that.
late_by_two : (observe_odometry 2_000_000 (pos 8_000_000) anchored).1 ≡ pos 6_031_250
unfolding observe_odometry next_offset is_discontinuous mapped_time wrap
late_by_two = refl

-- Components beyond 1 are cut, and nothing is submitted without a runtime.
cut_to_unit :
    on_cmd_vel true (pos 5) (pos 0) (negsuc 6)
    ≡ some (record { vx = milli (pos 1000); vy = milli (pos 0); vyaw = milli (negsuc 999) })
unfolding on_cmd_vel clamp_unit
cut_to_unit = refl

nothing_submitted : on_cmd_vel {F = Sample} false (pos 0) (pos 0) (pos 0) ≡ none
unfolding on_cmd_vel
nothing_submitted = refl

-- What is no number would be cut to 1, the reason for the test before it.
nan_cut : clamp_unit nan ≡ milli (pos 1000)
unfolding clamp_unit
nan_cut = refl

mode_passed_on : on_robot_mode true (codes " Stand\n") ≡ some (codes "stand")
unfolding on_robot_mode trimmed_lower from_first to_last is_listed
mode_passed_on = refl

mode_unknown : on_robot_mode true (codes "fly") ≡ none
unfolding on_robot_mode trimmed_lower from_first to_last is_listed
mode_unknown = refl

frequency_refused : frequency_from_hz (pos 100) ≡ none
unfolding frequency_from_hz
frequency_refused = refl
