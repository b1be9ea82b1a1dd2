-- ===== src/Runtime/Worker.antt =====
-- What the worker thread does to the runtime, apart from its loop. The SDK calls of one function are
-- made in order; what other threads do between them is what they do before or after the function.
-- An SDK that throws is not modelled.
use hypertron_sw01_ros2_brid.Prelude.{
  ℕ, zero, suc, ◌+◌, ◌*◌, max, Bool, true, false, not, ◌||◌, ◌&&◌, ◌++◌, Option, none, some, ◌==◌,
  leb, ltb, if◌then◌else◌,
}
use hypertron_sw01_ros2_brid.Prelude.Float.{FloatOps}
use hypertron_sw01_ros2_brid.Prelude.Text.{Bytes, codes}
use hypertron_sw01_ros2_brid.Queue
use hypertron_sw01_ros2_brid.Controller.Data.{no_status}
use hypertron_sw01_ros2_brid.Controller.Gate
use hypertron_sw01_ros2_brid.Runtime.Types.{
  Result, success, ok, failure, res_failed, res_timeout, res_not_init, res_without_auth,
  res_invalid_param, SdkSnapshot, moves, sets_mode, takes_authority, Vendor, Kind,
  request_authority_kind, request_mode_kind, Command, Runtime, RuntimeConfig, stable_status_for,
  set_promise, notify_event, call, result, complete_mode,
}
use hypertron_sw01_ros2_brid.Runtime.Requests.{event_warning}

abbrev pub is_mode : Kind → Bool
is_mode request_authority_kind = false
is_mode request_mode_kind = true

abbrev pub mode_damping : ℕ
mode_damping = 0xA101

abbrev estop_result : Bool → Result
estop_result true = ok (codes "emergency stop executed: zero velocity and damping mode")
estop_result false =
    failure res_failed
      (codes "emergency stop latched but the zero-velocity or damping command failed")

-- `wait_backoff`: the next delay.
unfoldable pub wait_backoff : RuntimeConfig → ℕ → ℕ
wait_backoff config current =
    let next = current * 2 in
    max (if ltb config.reconnect_max_delay next then config.reconnect_max_delay else next) current

module _ {F : Type 0} ⦃float : FloatOps F⦄ where
  -- `mode_transition_.active = false`.
  abbrev pub disarm : Runtime F → Runtime F
  disarm w = record w { mode_transition = record w.mode_transition { active = false } }

  unfoldable pub fail_mode_transition : ℕ → Result → Bool → Runtime F → Runtime F
  fail_mode_transition now r complete_controller w =
      if not w.mode_transition.active
      then w
      else set_promise w.mode_transition.promise r
          (if complete_controller then complete_mode now false (disarm w) else disarm w)

  unfoldable pub settle_mode_transition_timeout : ℕ → Runtime F → Runtime F
  settle_mode_transition_timeout now w =
      set_promise w.mode_transition.promise
        (failure res_timeout
          (codes "mode transition timed out before reaching the stable sport status"))
        (complete_mode now false (disarm w))

  unfoldable pub check_mode_transition : ℕ → SdkSnapshot → Runtime F → Runtime F
  check_mode_transition now snapshot w =
      if not w.mode_transition.active
      then w
      else if not w.controller.mode_transition_pending
      then fail_mode_transition now
          (failure res_failed (codes "mode transition aborted by the safety gate")) false w
      else if snapshot.sport_status == w.mode_transition.stable_status
      then set_promise w.mode_transition.promise
          (ok (codes "mode transition reached the stable sport status"))
          (complete_mode now true (disarm w))
      else if leb w.mode_transition.deadline now
      then settle_mode_transition_timeout now w
      else w

  -- The body of the loops that empty the queue.
  unfoldable pub abort_command : ℕ → Result → Command → Runtime F → Runtime F
  abort_command now r command w =
      set_promise command.promise r (if is_mode command.kind then complete_mode now false w else w)

  -- The loops that empty the queue; the fuel is the queue's size.
  unfoldable pub drain : ℕ → ℕ → Result → Runtime F → Runtime F
  drain zero now r w = w
  drain (suc n) now r w =
      let (q, front) = Queue.try_pop w.command_queue in
      elim front [
        | none ↦ record w { command_queue = q }
        | some command ↦
            drain n now r (abort_command now r command (record w { command_queue = q }))
      ]

  -- The estop promise may be null; `set_promise` is called on a promise that is there.
  abbrev pub answer_estop : Option ℕ → Result → Runtime F → Runtime F
  answer_estop none r w = w
  answer_estop (some p) r w = set_promise p r w

  abbrev pub lost_during_estop : Runtime F → Runtime F
  lost_during_estop w =
      if w.estop_engaged
      then answer_estop w.estop_promise
          (failure res_not_init
            (codes "connection lost during the emergency stop; the software latch remains set"))
          (record w { estop_engaged = false; estop_promise = none })
      else w

  unfoldable pub fail_all_pending : ℕ → Runtime F → Runtime F
  fail_all_pending now w =
      let w' : Runtime F =
        fail_mode_transition now
          (failure res_not_init (codes "connection lost during a mode transition")) false
          (lost_during_estop w) in
      drain (Queue.size w'.command_queue) now
        (failure res_not_init (codes "runtime disconnected; command dropped")) w'

  unfoldable pub invalidate_session : ℕ → Runtime F → Runtime F
  invalidate_session now w = record w {
    driver_ready_armed = false;
    sdk_linked = false;
    control_authority = false;
    last_snapshot_sport_status = 0;
    last_snapshot_error_code = 0;
    controller =
        Gate.invalidate_connection now (Gate.update_robot_state now no_status w.controller);
  }

  -- Link, authority and no latched drop: the condition for a call that moves the robot.
  abbrev pub may_actuate : Runtime F → Bool
  may_actuate w = not (not w.sdk_linked || (not w.control_authority || w.link_drop_latched))

module _ {F : Type 0} ⦃float : FloatOps F⦄ ⦃vendor : Vendor F⦄ where
  abbrev warn_unless : Bool → Bytes → Runtime F → Runtime F
  warn_unless passed message w = if not passed then notify_event event_warning message w else w

  abbrev pub clear_sent : Bool → Runtime F → Runtime F
  clear_sent sent w = if sent then record w { last_sent_nonzero = false } else w

  unfoldable pub send_zero_and_damping : Runtime F → Runtime F × Bool
  send_zero_and_damping w =
      let moved : Runtime F = call (moves Gate.no_velocity) w in
      let move_result = result moved in
      let set : Runtime F = call (sets_mode mode_damping) (
        warn_unless (success move_result)
          (codes "zero-velocity move failed: " ++ move_result.message) moved) in
      let mode_result = result set in
      let done : Runtime F =
        warn_unless (success mode_result)
          (codes "damping mode command failed: " ++ mode_result.message) set in
      (clear_sent (success move_result) done, success move_result && success mode_result)

  unfoldable pub actuate_stop_if_authorized : Runtime F → Runtime F
  actuate_stop_if_authorized w = if not (may_actuate w) then w else (send_zero_and_damping w).0

  -- `handle_estop_if_requested` up to the test of the link.
  unfoldable pub abort_for_estop : ℕ → Runtime F → Runtime F
  abort_for_estop now w =
      let w' : Runtime F = complete_mode now false (
        fail_mode_transition now
          (failure res_failed (codes "mode transition aborted by the emergency stop")) false
          (record w { estop_engaged = false; estop_promise = none })) in
      drain (Queue.size w'.command_queue) now
        (failure res_failed (codes "command aborted by the emergency stop")) w'

  -- `handle_estop_if_requested` from the test of the link on.
  unfoldable pub stop_robot : Option ℕ → Runtime F → Runtime F
  stop_robot promise w =
      if not (may_actuate w)
      then answer_estop promise
          (failure res_without_auth
            (codes "no SDK link or control authority; emergency stop latched locally only"))
          w
      else let (w', done) = send_zero_and_damping w in answer_estop promise (estop_result done) w'

  unfoldable pub handle_estop_if_requested : ℕ → Runtime F → Runtime F
  handle_estop_if_requested now w =
      if not w.estop_engaged then w else stop_robot w.estop_promise (abort_for_estop now w)

  -- `execute_command` from `set_mode` on.
  unfoldable pub switch_mode : ℕ → Command → Runtime F → Runtime F
  switch_mode now command w =
      let set : Runtime F = call (sets_mode command.mode) w in
      let set_result = result set in
      let stable = stable_status_for command.mode in
      if not (success set_result)
      then set_promise command.promise
          (failure set_result.code (codes "set_mode rejected: " ++ set_result.message))
          (complete_mode now false set)
      else if stable == 0
      then set_promise command.promise
          (failure res_invalid_param
            (codes "no stable sport status is mapped for the requested mode"))
          (complete_mode now false set)
      else record set {
        mode_transition = record {
          active = true;
          stable_status = stable;
          deadline = now + set.config.mode_timeout;
          promise = command.promise;
        };
      }

  -- `execute_command` from the explicit zero on.
  unfoldable pub zero_and_switch : ℕ → Command → Runtime F → Runtime F
  zero_and_switch now command w =
      let moved : Runtime F = call (moves Gate.no_velocity) w in
      let zero_result = result moved in
      if not w.last_sent_nonzero
      then switch_mode now command w
      else if not (success zero_result)
      then set_promise command.promise
          (failure zero_result.code
            (codes "zero-velocity before mode switch failed: " ++ zero_result.message))
          (complete_mode now false moved)
      else switch_mode now command (record moved { last_sent_nonzero = false })

  unfoldable pub execute_command : ℕ → Command → Runtime F → Runtime F
  execute_command now command w =
      let asked : Runtime F = call (takes_authority command.authority_sdk) w in
      if not (is_mode command.kind)
      then set_promise command.promise (result asked) asked
      else zero_and_switch now command (
          fail_mode_transition now
            (failure res_failed (codes "mode transition superseded by a newer mode command")) false
            w)
