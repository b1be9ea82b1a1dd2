-- ===== src/Runtime/Loop.antt =====
-- The worker's loops: one iteration of `run_connected_loop`, and one attempt of `worker_main`.
use hypertron_sw01_ros2_brid.Prelude.{
  ℕ, suc, ◌+◌, max, Bool, true, false, not, ◌||◌, ◌&&◌, ◌++◌, Option, none, some, leb,
  if◌then◌else◌,
}
use hypertron_sw01_ros2_brid.Prelude.Float.{FloatOps}
use hypertron_sw01_ros2_brid.Prelude.Text.{codes}
use hypertron_sw01_ros2_brid.Queue
use hypertron_sw01_ros2_brid.Controller.Data.{ControllerStatus, VelocityPayload, VelocityDecision}
use hypertron_sw01_ros2_brid.Controller.Gate
use hypertron_sw01_ros2_brid.Runtime.Types.{
  success, failure, res_failed, SdkSnapshot, moves, heartbeats, polls, deinits, Vendor, Runtime,
  notify_event, call, result, with_controller,
}
use hypertron_sw01_ros2_brid.Runtime.Requests.{event_warning, event_error}
use hypertron_sw01_ros2_brid.Runtime.Worker.{
  fail_mode_transition, settle_mode_transition_timeout, check_mode_transition, fail_all_pending,
  invalidate_session, actuate_stop_if_authorized, handle_estop_if_requested, execute_command,
}

-- The local variables of `run_connected_loop`.
pub record Session : Type 0 where
  pub consecutive_heartbeat_failures : ℕ
  pub next_heartbeat : ℕ
  pub next_state_poll : ℕ
  pub next_motion_refresh : ℕ

module _ {F : Type 0} ⦃float : FloatOps F⦄ where
  abbrev pub target_of : VelocityDecision F → VelocityPayload F
  target_of tick = if tick.accepted then tick.value else Gate.no_velocity

  abbrev pub is_nonzero : VelocityPayload F → Bool
  is_nonzero v =
      not (float.eq v.vx float.zero_value)
      || (not (float.eq v.vy float.zero_value) || not (float.eq v.vyaw float.zero_value))

  -- The worker-side transition that the controller has dropped.
  abbrev pub settle_orphan : ℕ → Runtime F → Runtime F
  settle_orphan now w =
      if w.mode_transition.active && not w.controller.mode_transition_pending
      then fail_mode_transition now
          (failure res_failed (codes "mode transition aborted by the safety gate")) true w
      else w

  abbrev pub arm_ready : ℕ → Bool → Runtime F → Runtime F
  arm_ready now linked w =
      if linked && not w.driver_ready_armed
      then with_controller (Gate.set_driver_ready now true w.controller)
          (record w { driver_ready_armed = true })
      else w

  -- What the state poll does with the snapshot under the lock.
  unfoldable pub apply_snapshot : ℕ → SdkSnapshot → Runtime F → Runtime F
  apply_snapshot now snapshot w =
      let status : ControllerStatus = record {
        sdk_linked = w.sdk_linked;
        control_authority = w.control_authority;
        sport_status = snapshot.sport_status;
        error_code = snapshot.error_code;
      } in
      record w {
        last_snapshot_sport_status = snapshot.sport_status;
        last_snapshot_error_code = snapshot.error_code;
        controller = Gate.update_robot_state now status w.controller;
      }

  -- `motion_refresh_due_ = false`.
  abbrev pub take_refresh : Runtime F → Runtime F
  take_refresh w = record w { motion_refresh_due = false }

  -- The variables at the start of the loop, and `last_sent_nonzero_ = false`.
  unfoldable pub begin_session : ℕ → Runtime F → Runtime F × Session
  begin_session now w = (
    record w { last_sent_nonzero = false },
    record {
      consecutive_heartbeat_failures = 0;
      next_heartbeat = now + w.config.heartbeat_period;
      next_state_poll = now + w.config.state_poll_period;
      next_motion_refresh = now + w.config.motion_refresh_period;
    },
  )

  -- The end of a session in `worker_main`, up to the deinitialization.
  unfoldable pub end_session : ℕ → Runtime F → Runtime F
  end_session now w =
      call deinits (invalidate_session now (fail_all_pending now (record w { connected = false })))

module _ {F : Type 0} ⦃float : FloatOps F⦄ ⦃vendor : Vendor F⦄ where
  -- `command_queue_.try_pop()` and what follows it.
  unfoldable pub run_command : ℕ → Runtime F → Runtime F
  run_command now w =
      let (q, front) = Queue.try_pop w.command_queue in
      elim front [
        | none ↦ record w { command_queue = q }
        | some command ↦ execute_command now command (record w { command_queue = q })
      ]

  -- The heartbeat; `none` in the place of the session is the `return`.
  unfoldable pub heartbeat : ℕ → Session → Runtime F → Runtime F × Option Session
  heartbeat now s w =
      let beaten : Runtime F = call heartbeats w in
      let failures = suc s.consecutive_heartbeat_failures in
      let next = now + w.config.heartbeat_period in
      if not (leb s.next_heartbeat now)
      then (w, some s)
      else if success (result beaten)
      then (beaten, some (record s { consecutive_heartbeat_failures = 0; next_heartbeat = next }))
      else if leb (max 1 w.config.heartbeat_max_failures) failures
      then (
        notify_event event_error (codes "sdk heartbeat failed; ending the connection") beaten,
        none,
      )
      else (
        beaten,
        some (record s { consecutive_heartbeat_failures = failures; next_heartbeat = next }),
      )

  -- The motion tick; `at` is the clock reading of `velocity_for_tick`.
  unfoldable pub send_target : VelocityPayload F → Runtime F → Runtime F
  send_target target w =
      let moved : Runtime F = call (moves target) w in
      let move_result = result moved in
      if not (is_nonzero target || w.last_sent_nonzero)
      then w
      else if not (success move_result)
      then notify_event event_warning
          (codes "velocity move rejected by the SDK: " ++ move_result.message) moved
      else record moved { last_sent_nonzero = is_nonzero target }

  unfoldable pub motion_tick : ℕ → ℕ → Bool → Session → Runtime F → Runtime F × Session
  motion_tick now at requested s w =
      if not (requested || leb s.next_motion_refresh now) then (w, s) else (
        send_target (target_of (Gate.velocity_for_tick at w.controller)) w,
        record s { next_motion_refresh = now + w.config.motion_refresh_period },
      )

  -- The state poll.
  unfoldable pub state_poll : ℕ → Session → Runtime F → Runtime F × Session
  state_poll now s w =
      let polled : Runtime F = call polls w in
      let snapshot = vendor.look polled.calls in
      if not (leb s.next_state_poll now) then (w, s) else (
        check_mode_transition now snapshot (
            arm_ready now snapshot.sdk_linked
              (settle_orphan now (apply_snapshot now snapshot polled))),
        record s { next_state_poll = now + w.config.state_poll_period },
      )

  -- An iteration from the end of the heartbeat on.
  unfoldable pub periodic : ℕ → ℕ → Bool → Session → Runtime F → Runtime F × Session
  periodic now at requested s w =
      let (w', s') = motion_tick now at requested s w in
      state_poll now s' (
        if w'.mode_transition.active && leb w'.mode_transition.deadline now
        then settle_mode_transition_timeout now w'
        else w')

  abbrev pub after_heartbeat :
      ℕ → ℕ → Bool → Runtime F × Option Session → Runtime F × Option Session
  after_heartbeat now at requested (w, none) = (w, none)
  after_heartbeat now at requested (w, some s) =
      let (w', s') = periodic now at requested s w in (w', some s')

  -- One iteration, from the test for the session's end on; `later` and `at` are the clock readings
  -- of `execute_command` and of the motion tick. The same test just after the wait does the same. Without a session, the loop
  -- has returned.
  unfoldable pub iterate : ℕ → ℕ → ℕ → Session → Runtime F → Runtime F × Option Session
  iterate now later at s w =
      let served : Runtime F =
        run_command later (settle_orphan now (handle_estop_if_requested now w)) in
      if w.stop_requested
      then (actuate_stop_if_authorized w, none)
      else if w.link_drop_latched
      then (w, none)
      else after_heartbeat now at served.motion_refresh_due (heartbeat now s (take_refresh served))
