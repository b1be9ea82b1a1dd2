-- ===== src/Tests/RuntimeRuns.antt =====
-- `DirectDriverRuntime` at concrete inputs, with an SDK that takes every call and sees the robot in
-- the Move state.
use hypertron_sw01_ros2_brid.Prelude.{
  max, ◌^◌, List, ◌*◌, min, ◌≡◌, refl, true, false, not, [], ◌∷◌, none, some, ◌⊎◌, if◌then◌else◌,
  arith,
}
use hypertron_sw01_ros2_brid.Prelude.Int.{pos}
use hypertron_sw01_ros2_brid.Prelude.Float.{Sample, milli, sample_ops, sample_laws}
use hypertron_sw01_ros2_brid.Prelude.Text.{codes}
use hypertron_sw01_ros2_brid.Queue
use hypertron_sw01_ros2_brid.Runtime.Types.{
  call, set_promise, ok, Vendor, Runtime, RuntimeConfig, request_mode_kind, moves, success,
  is_answered, is_disconnected,
}
use hypertron_sw01_ros2_brid.Queue.{reject_new}
use hypertron_sw01_ros2_brid.Runtime.Requests.{
  submit_velocity, trigger_estop, request_authority, handle_status, enqueue,
}
use hypertron_sw01_ros2_brid.Runtime.Loop.{
  begin_session, Session, motion_tick, end_session, iterate, run_command, heartbeat, periodic,
  send_target, state_poll,
}
use hypertron_sw01_ros2_brid.Runtime.History.{
  step, Event, asks_authority, triggers, reports, connects, submits, iterates, connect, construct,
  run,
}
use hypertron_sw01_ros2_brid.Controller.Data.{VelocityPayload, no_status}
use hypertron_sw01_ros2_brid.Controller.Gate
use hypertron_sw01_ros2_brid.Runtime.Worker.{may_actuate, handle_estop_if_requested}
use hypertron_sw01_ros2_brid.Runtime.Answered.{run-no_promise_lost}
use hypertron_sw01_ros2_brid.Runtime.Promises.{IsAccounted, is_held, is_queued, is_tracked}
use hypertron_sw01_ros2_brid.Runtime.Promises.Estop.{stopped_calls, handle_estop-stops}
use hypertron_sw01_ros2_brid.Runtime.Motion.{nth_delay, wait_backoff-nth, end_session-closes}
use hypertron_sw01_ros2_brid.Runtime.Follows.{nonzero_since}
use hypertron_sw01_ros2_brid.Runtime.Sent.{rejected_tick-stops}

instance abbrev willing : Vendor Sample
willing = record {
  answer = λ calls. ok (codes "success");
  look = λ calls. record { sdk_linked = true; sport_status = 0xB104; error_code = 0 };
}

abbrev config : RuntimeConfig
config = record {
  heartbeat_max_failures = 1;
  heartbeat_period = 100;
  motion_refresh_period = 20;
  mode_timeout = 5000;
  state_poll_period = 500;
  enable_lidar_stream = true;
  lidar_disabled = false;
  reconnect_initial_delay = 1000;
  reconnect_max_delay = 30_000;
}

abbrev fresh : Runtime Sample
fresh = record {
  config = config;
  controller = record {
    command_deadman = 100;
    status = no_status;
    latest_velocity = Gate.no_velocity;
    last_velocity_time = 0;
    has_velocity = false;
    estop_latched = false;
    driver_ready = false;
    motion_transition_gate = false;
    mode_transition_pending = false;
    pending_mode = 0;
  };
  stop_requested = false;
  sdk_linked = false;
  connected = false;
  link_drop_latched = false;
  control_authority = false;
  last_snapshot_sport_status = 0;
  last_snapshot_error_code = 0;
  motion_refresh_due = false;
  estop_engaged = false;
  estop_promise = none;
  command_queue = record { capacity = 16; policy = reject_new; items = []; closed = false };
  mode_transition = record { active = false; stable_status = 0; deadline = 0; promise = 0 };
  last_sent_nonzero = false;
  driver_ready_armed = false;
  answers = [];
  next_promise = 0;
  calls = [];
  events = [];
}

construct-fresh : construct config (pos 100) 16 ≡ some fresh
unfolding construct Gate.construct Queue.construct
construct-fresh = refl

abbrev history : List (Event Sample)
history = reports (1, true, true) ∷ connects 2 ∷ asks_authority true ∷ triggers 4 true ∷ []

run_promises : (run fresh history).next_promise ≡ 2
unfolding run step trigger_estop request_authority handle_status begin_session enqueue set_promise
    Queue.push
run_promises = refl

run-no_promise_lost_example :
    (is_tracked 1 (run fresh history) ≡ true)
    × (is_answered 1 (end_session 9 (run fresh history)).answers ≡ true)
run-no_promise_lost_example =
    run-no_promise_lost config (pos 100) 16 fresh history 9 1 construct-fresh
      (omega (arith, run_promises))

-- A stop is requested while a mode command waits.
abbrev alarmed : Runtime Sample
alarmed = record fresh {
  sdk_linked = true;
  control_authority = true;
  estop_engaged = true;
  estop_promise = some 1;
  command_queue = record {
    capacity = 16;
    policy = reject_new;
    items =
        record { kind = request_mode_kind; authority_sdk = false; mode = 0xA104; promise = 0 } ∷ [];
    closed = false;
  };
  next_promise = 2;
}

alarmed-IsAccounted : IsAccounted alarmed
unfolding is_held is_queued
alarmed-IsAccounted = record { estop = refl; policy = refl; tracked = λ p h. ground arith }

handle_estop-stops_example :
    let w' = handle_estop_if_requested 5 alarmed in
    (w'.calls ≡ (if may_actuate alarmed then stopped_calls [] else []))
    × (w'.command_queue.items ≡ [])
    × (w'.mode_transition.active ≡ false)
    × (w'.estop_promise ≡ none)
    × (is_answered 0 w'.answers ≡ true)
handle_estop-stops_example = handle_estop-stops 5 0 alarmed alarmed-IsAccounted refl (omega arith)

wait_backoff-nth_example : nth_delay config 6 ≡ max 1000 (min (1000 * 2 ^ 6) 30_000)
wait_backoff-nth_example = wait_backoff-nth config 6

abbrev session : Session
session = record {
  consecutive_heartbeat_failures = 0;
  next_heartbeat = 100;
  next_state_poll = 500;
  next_motion_refresh = 20;
}

abbrev forward : VelocityPayload Sample
forward = record { vx = milli (pos 500); vy = milli (pos 0); vyaw = milli (pos 0) }

end_session-closes_example :
    let w' = end_session 9 alarmed in
    ((Gate.accept_velocity 10 forward w'.controller).1.accepted ≡ false)
    × ((Gate.velocity_for_tick 10 w'.controller).accepted ≡ false)
    × (is_disconnected w' ≡ true)
end_session-closes_example = end_session-closes 9 10 forward alarmed

-- The request is made of a connected runtime.
abbrev linked : Runtime Sample
linked = record fresh { connected = true; sdk_linked = true }

-- A session in which the robot moves: the gate is open, a velocity is submitted, and a tick sends it;
-- then the authority is lost.
abbrev open_gate : Runtime Sample
open_gate = record fresh {
  controller = record fresh.controller {
    driver_ready = true;
    motion_transition_gate = false;
    status = record {
      sdk_linked = true;
      control_authority = true;
      sport_status = 0xB104;
      error_code = 0;
    };
  };
  sdk_linked = true;
  control_authority = true;
}

abbrev drive : List (Event Sample)
drive = submits 10 forward ∷ iterates 30 30 30 session ∷ reports (31, true, false) ∷ []

drive_sends : (run (connect 5 open_gate) drive).calls ≡ moves forward ∷ []
unfolding run step submit_velocity begin_session iterate handle_estop_if_requested run_command
    Queue.try_pop Queue.pop_locked heartbeat periodic motion_tick send_target state_poll
    handle_status call Gate.accept_velocity Gate.velocity_for_tick Gate.movement_ready
    Gate.update_robot_state
drive_sends = refl

drive_refused :
    (Gate.velocity_for_tick 40 (run (connect 5 open_gate) drive).controller).accepted ≡ false
unfolding run step submit_velocity begin_session iterate handle_estop_if_requested run_command
    Queue.try_pop Queue.pop_locked heartbeat periodic motion_tick send_target state_poll
    handle_status call Gate.accept_velocity Gate.velocity_for_tick Gate.movement_ready
    Gate.update_robot_state
drive_refused = refl

rejected_tick-stops_example :
    let u = run (connect 5 open_gate) drive in
    let u' = (motion_tick 40 40 true session u).0 in
    ((nonzero_since 0 u.calls ≡ true)
      × (u'.calls ≡ moves Gate.no_velocity ∷ u.calls)
      × (nonzero_since 0 u'.calls
          ≡ not (success (willing.answer (moves Gate.no_velocity ∷ u.calls)))))
    ⊎ ((nonzero_since 0 u.calls ≡ false) × (u' ≡ u))
rejected_tick-stops_example =
    rejected_tick-stops sample_laws open_gate drive 5 40 40 session (refl, (refl, (refl, tt)))
      drive_refused
