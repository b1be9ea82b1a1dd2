-- ===== src/Tests/ControllerRuns.antt =====
-- `RobotController` at concrete inputs: a robot in the Move state, and its histories.
use hypertron_sw01_ros2_brid.Prelude.{
  ◌++◌, inr, arith, ℕ, ◌-◌, ◌≤◌, ◌≡◌, ◌≢◌, refl, true, false, List, [], ◌∷◌, some, none, ◌⊎◌, leb,
}
use hypertron_sw01_ros2_brid.Prelude.Int.{pos, negsuc}
use hypertron_sw01_ros2_brid.Prelude.Float.{Sample, milli, sample_laws, sample_ops}
use hypertron_sw01_ros2_brid.Prelude.Text.{codes}
use hypertron_sw01_ros2_brid.Controller.Data.{
  Controller, ControllerStatus, VelocityPayload, no_status,
}
use hypertron_sw01_ros2_brid.Controller.Modes.{normalized_mode, find_mode, mode_damping}
use hypertron_sw01_ros2_brid.Controller.Gate.{
  accept_velocity, velocity_for_tick, trigger_estop, clear_estop, request_mode, clamped, construct,
  invalidate_connection, is_finite_velocity, no_velocity,
}
use hypertron_sw01_ros2_brid.Controller.Step.{
  Call, accepts, requests, completes, readies, invalidates, updates, run, step,
}
use hypertron_sw01_ros2_brid.Controller.Invariant.{IsGated, run-construct-IsGated}
use hypertron_sw01_ros2_brid.Controller.Freshness.{last_command, tick-is_fresh}
use hypertron_sw01_ros2_brid.Controller.Decisions.{
  IsMovable, InRange, accept_velocity_iff, accept_velocity-InRange, request_mode_iff,
  request_mode-padded,
}
use hypertron_sw01_ros2_brid.Controller.Transition.{request_mode-stills}
use hypertron_sw01_ros2_brid.Controller.Latch.{
  any_call, is_accept, is_arming, is_success, trigger_estop-holds, clear_estop-replays_nothing,
  invalidate-rearms,
}

abbrev made : Controller Sample
made = record {
  command_deadman = 200;
  status = no_status;
  latest_velocity = no_velocity;
  last_velocity_time = 0;
  has_velocity = false;
  estop_latched = false;
  driver_ready = false;
  motion_transition_gate = false;
  mode_transition_pending = false;
  pending_mode = 0;
}

abbrev in_move : ControllerStatus
in_move = record {
  sdk_linked = true;
  control_authority = true;
  sport_status = 0xB104;
  error_code = 0;
}

abbrev movable : Controller Sample
movable = record made { driver_ready = true; status = in_move }

abbrev forward : VelocityPayload Sample
forward = record { vx = milli (pos 1500); vy = milli (pos 0); vyaw = milli (negsuc 249) }

abbrev start : List (ℕ × Call Sample)
start =
    (1, updates in_move)
    ∷ (2, readies true)
    ∷ (3, requests (codes " Move "))
    ∷ (9, completes true)
    ∷ (10, accepts forward)
    ∷ []

construct-made : construct (pos 200) ≡ some made
unfolding construct
construct-made = refl

normalized_test : normalized_mode (codes " Move ") ≡ codes "move"
unfolding normalized_mode
normalized_test = refl

start_tick : (velocity_for_tick 150 (run made start)).accepted ≡ true
unfolding run step velocity_for_tick normalized_mode find_mode
start_tick = refl

late_tick : (velocity_for_tick 211 (run made start)).accepted ≡ false
unfolding run step velocity_for_tick normalized_mode find_mode
late_tick = refl

run-construct-IsGated_example : IsGated (run made start)
run-construct-IsGated_example = run-construct-IsGated (pos 200) made start construct-made

tick-is_fresh_example :
    (at : ℕ) × (v : VelocityPayload Sample) × (last_command start ≡ some (at, v))
    × ((velocity_for_tick 150 (run made start)).value ≡ clamped v)
    × (is_finite_velocity v ≡ true)
    × (150 - at ≤ 200)
tick-is_fresh_example = tick-is_fresh 200 made start 150 construct-made start_tick

abbrev after_stop : List (ℕ × Call Sample)
after_stop =
    (30, invalidates) ∷ (40, updates in_move) ∷ (50, readies true) ∷ (60, accepts forward) ∷ []

trigger_estop-holds_example :
    ((velocity_for_tick 70 (run (trigger_estop 20 movable).0 after_stop)).accepted ≡ false)
    × ((accept_velocity 70 forward (run (trigger_estop 20 movable).0 after_stop)).1.accepted
        ≡ false)
    × ((run (trigger_estop 20 movable).0 after_stop).estop_latched ≡ true)
trigger_estop-holds_example = trigger_estop-holds movable 20 70 after_stop forward refl

abbrev after_clear : List (ℕ × Call Sample)
after_clear = (30, updates in_move) ∷ (40, readies true) ∷ []

clear_estop-replays_nothing_example :
    (velocity_for_tick 50 (run (clear_estop 20 movable).0 after_clear)).accepted ≡ false
clear_estop-replays_nothing_example = clear_estop-replays_nothing movable 20 50 after_clear refl

abbrev rearmed : List (ℕ × Call Sample)
rearmed = start

rearmed_tick :
    (velocity_for_tick 150 (run (invalidate_connection 0 movable) rearmed)).accepted ≡ true
unfolding run step velocity_for_tick normalized_mode find_mode invalidate_connection
rearmed_tick = refl

invalidate-rearms_example :
    (any_call is_arming rearmed ≡ true)
    × (any_call is_success rearmed ≡ true)
    × (any_call is_accept rearmed ≡ true)
invalidate-rearms_example = invalidate-rearms movable 0 150 rearmed rearmed_tick

accept_velocity_iff_example :
    (((accept_velocity 10 forward movable).1.accepted ≡ true)
      × (is_finite_velocity forward ≡ true)
      × IsMovable movable
      × ((velocity_for_tick 15 (accept_velocity 10 forward movable).0).accepted ≡ leb (15 - 10) 200)
      × ((accept_velocity 10 forward movable).0.latest_velocity ≡ clamped forward))
    ⊎ (((accept_velocity 10 forward movable).1.accepted ≡ false)
        × ((is_finite_velocity forward ≡ false) ⊎ (¬ IsMovable movable))
        × ((velocity_for_tick 15 (accept_velocity 10 forward movable).0).accepted ≡ false))
accept_velocity_iff_example = accept_velocity_iff movable 10 15 forward

accept_test : (accept_velocity 10 forward movable).1.accepted ≡ true
unfolding accept_velocity
accept_test = refl

accept_velocity-InRange_example :
    InRange (accept_velocity 10 forward movable).0.latest_velocity.vx
    × InRange (accept_velocity 10 forward movable).0.latest_velocity.vy
    × InRange (accept_velocity 10 forward movable).0.latest_velocity.vyaw
    × ((accept_velocity 10 forward movable).1.value
        ≡ (accept_velocity 10 forward movable).0.latest_velocity)
accept_velocity-InRange_example = accept_velocity-InRange sample_laws movable 10 forward accept_test

request_mode_iff_example :
    let (c', d) = request_mode 10 (codes "Move") movable in
    ((d.accepted ≡ true)
      × (find_mode (normalized_mode (codes "Move")) ≡ some d.mode)
      × (movable.driver_ready ≡ true)
      × (movable.mode_transition_pending ≡ false)
      × (movable.status.sdk_linked ≡ true)
      × (movable.status.control_authority ≡ true)
      × (movable.status.error_code ≡ 0)
      × ((movable.estop_latched ≡ false) ⊎ (d.mode ≡ mode_damping))
      × (c'.has_velocity ≡ false)
      × (c'.motion_transition_gate ≡ true)
      × (c'.mode_transition_pending ≡ true)
      × (c'.pending_mode ≡ d.mode))
    ⊎ ((d.accepted ≡ false)
        × (c' ≡ movable)
        × ((find_mode (normalized_mode (codes "Move")) ≡ none)
            ⊎ (movable.driver_ready ≡ false)
            ⊎ (movable.mode_transition_pending ≡ true)
            ⊎ (movable.status.sdk_linked ≡ false)
            ⊎ (movable.status.control_authority ≡ false)
            ⊎ (movable.status.error_code ≢ 0)
            ⊎ ((movable.estop_latched ≡ true)
                × (find_mode (normalized_mode (codes "Move")) ≢ some mode_damping))))
request_mode_iff_example = request_mode_iff 10 (codes "Move") movable

request_mode-padded_example :
    (normalized_mode (codes " \t" ++ (codes "MOVE" ++ codes "\n")) ≡ codes "move")
    × (request_mode 10 (codes " \t" ++ (codes "MOVE" ++ codes "\n")) movable
        ≡ request_mode 10 (codes "move") movable)
request_mode-padded_example =
    request_mode-padded 10 (codes " \t") (codes "MOVE") (codes "\n") movable (refl, (refl, tt))
      (refl, tt) refl refl

stand_test :
    ((request_mode 10 (codes "stand") movable).1.accepted ≡ true)
    × ((request_mode 10 (codes "stand") movable).1.mode ≡ 0xA102)
unfolding request_mode normalized_mode find_mode
stand_test = (refl, refl)

-- The transition to the stand mode completes, and a velocity is offered.
request_mode-stills_example :
    (velocity_for_tick 13 (
      run
        (request_mode 10 (codes "stand") movable).0
        ((11, completes true) ∷ (12, accepts forward) ∷ []))).accepted
    ≡ false
request_mode-stills_example =
    request_mode-stills movable 10 13 (codes "stand")
      ((11, completes true) ∷ (12, accepts forward) ∷ []) stand_test.0
      (inr (ground (arith, stand_test.1), refl))
