-- ===== src/Runtime/Requests.antt =====
-- What clients and the vendor's threads do to the runtime: each function holds `wake_mutex_` for the
-- part of the state that it reads and writes.
use hypertron_sw01_ros2_brid.Prelude.{
  ℕ, suc, Bool, true, false, not, ◌||◌, ◌++◌, Option, none, some, if◌then◌else◌,
}
use hypertron_sw01_ros2_brid.Prelude.Float.{FloatOps}
use hypertron_sw01_ros2_brid.Prelude.Text.{Bytes, codes}
use hypertron_sw01_ros2_brid.Queue
use hypertron_sw01_ros2_brid.Queue.{Queue}
use hypertron_sw01_ros2_brid.Controller.Data.{VelocityPayload, ControllerStatus}
use hypertron_sw01_ros2_brid.Controller.Gate
use hypertron_sw01_ros2_brid.Runtime.Types.{
  ok, failure, res_failed, res_not_init, Command, request_authority_kind, request_mode_kind,
  Runtime, map_mode_rejection, set_promise, notify_event, with_controller, is_disconnected,
  complete_mode,
}

abbrev pub event_info : ℕ
event_info = 0

abbrev pub event_warning : ℕ
event_warning = 1

abbrev pub event_error : ℕ
event_error = 2

module _ {F : Type 0} where
  -- `std::make_shared<std::promise<Result>>()`: a number that no promise has yet.
  abbrev pub take_promise : Runtime F → Runtime F
  take_promise w = record w { next_promise = suc w.next_promise }

  -- Pushes a command, whose promise has the number `p`, or fails it. `undo` is done if it fails.
  unfoldable pub enqueue : Command → (Runtime F → Runtime F) → Runtime F → Runtime F
  enqueue command undo w =
      let (q, taken) = Queue.push w.command_queue command in
      if taken
      then record w { command_queue = q }
      else set_promise command.promise (failure res_failed (codes "command queue is full"))
          (undo (record w { command_queue = q }))

  unfoldable pub request_authority : Bool → Runtime F → Runtime F × ℕ
  request_authority sdk w =
      let p = w.next_promise in
      let w' : Runtime F = take_promise w in
      let command : Command = record {
        kind = request_authority_kind;
        authority_sdk = sdk;
        mode = 0;
        promise = p;
      } in
      (
        if is_disconnected w'
            then set_promise p
                (failure res_not_init
                  (codes "runtime is disconnected; authority request not enqueued"))
                w'
            else enqueue command (λ u. u) w',
        p,
      )

module _ {F : Type 0} ⦃float : FloatOps F⦄ where
  unfoldable pub submit_velocity : ℕ → VelocityPayload F → Runtime F → Runtime F
  submit_velocity now velocity w =
      let (c, decision) = Gate.accept_velocity now velocity w.controller in
      let w' : Runtime F = with_controller c w in
      if not decision.accepted
      then notify_event event_warning (codes "velocity rejected: " ++ decision.reason) w'
      else w'

  -- The two tests of the connection stand on both sides of the controller's gate: between them the
  -- session may end, which `between` says.
  unfoldable pub request_mode : ℕ → Bytes → (Runtime F → Runtime F) → Runtime F → Runtime F × ℕ
  request_mode now name between w =
      let p = w.next_promise in
      let w' : Runtime F = take_promise w in
      let (c, decision) = Gate.request_mode now name w'.controller in
      let gated : Runtime F = with_controller c w' in
      let after : Runtime F = between gated in
      let command : Command = record {
        kind = request_mode_kind;
        authority_sdk = false;
        mode = decision.mode;
        promise = p;
      } in
      (
        if is_disconnected w'
            then set_promise p
                (failure res_not_init (codes "runtime is disconnected; mode request not enqueued"))
                w'
            else if not decision.accepted
            then set_promise p (map_mode_rejection decision) gated
            else if is_disconnected after
            then set_promise p
                (failure res_not_init
                  (codes "runtime disconnected before the mode command was enqueued"))
                (complete_mode now false after)
            else enqueue command (complete_mode now false) after,
        p,
      )

  abbrev pub supersede : Option ℕ → Runtime F → Runtime F
  supersede none w = w
  supersede (some p) w =
      set_promise p (failure res_failed (codes "emergency stop request superseded")) w

  unfoldable pub trigger_estop : ℕ → Bool → Runtime F → Runtime F × ℕ
  trigger_estop now engage w =
      let p = w.next_promise in
      let w' : Runtime F = take_promise w in
      let cleared : Runtime F = with_controller (Gate.clear_estop now w'.controller).0 w' in
      let latched : Runtime F =
        supersede w'.estop_promise (with_controller (Gate.trigger_estop now w'.controller).0 w') in
      (
        if not engage
            then set_promise p (ok (codes "software emergency stop cleared")) cleared
            else if is_disconnected latched
            then set_promise p
                (failure res_not_init
                  (codes "runtime is disconnected; emergency stop latched locally"))
                (record latched { estop_engaged = false; estop_promise = none })
            else record latched { estop_engaged = true; estop_promise = some p },
        p,
      )

  unfoldable pub handle_status : ℕ → Bool → Bool → Runtime F → Runtime F
  handle_status now linked authority w =
      let status : ControllerStatus = record {
        sdk_linked = linked;
        control_authority = authority;
        sport_status = w.last_snapshot_sport_status;
        error_code = w.last_snapshot_error_code;
      } in
      record w {
        sdk_linked = linked;
        control_authority = authority;
        link_drop_latched = w.link_drop_latched || not linked;
        controller = Gate.update_robot_state now status w.controller;
        motion_refresh_due = true;
      }

  unfoldable pub stop : Runtime F → Runtime F
  stop w = record w { stop_requested = true }
