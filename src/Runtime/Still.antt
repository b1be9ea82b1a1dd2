-- ===== src/Runtime/Still.antt =====
-- The steps of the runtime that make no SDK call and leave `last_sent_nonzero_` alone.
use hypertron_sw01_ros2_brid.Prelude.{
  ℕ, zero, suc, ◌≡◌, refl, ◌∙◌, Bool, List, [], ◌∷◌, arith, List-cases, inl, inr,
}
use hypertron_sw01_ros2_brid.Prelude.Float.{FloatOps}
use hypertron_sw01_ros2_brid.Prelude.Text.{Bytes}
use hypertron_sw01_ros2_brid.Queue
use hypertron_sw01_ros2_brid.Controller.Data.{VelocityPayload}
use hypertron_sw01_ros2_brid.Controller.Gate
use hypertron_sw01_ros2_brid.Runtime.Types.{
  Vendor, Runtime, SdkSnapshot, Result, notify_event, set_promise,
}
use hypertron_sw01_ros2_brid.Runtime.Requests.{
  request_authority, request_mode, trigger_estop, handle_status, submit_velocity, enqueue,
  take_promise,
}
use hypertron_sw01_ros2_brid.Runtime.Worker.{
  fail_mode_transition, settle_mode_transition_timeout, check_mode_transition, abort_command, drain,
  fail_all_pending, abort_for_estop,
}
use hypertron_sw01_ros2_brid.Runtime.Loop.{settle_orphan}
use hypertron_sw01_ros2_brid.Runtime.History.{Report, report_all}

pub record Still {F : Type 0} (w w' : Runtime F) : Type 0 where
  pub calls : w'.calls ≡ w.calls
  pub sent : w'.last_sent_nonzero ≡ w.last_sent_nonzero

pub Still-trans : {F : Type 0} (a b c : Runtime F) → Still a b → Still b c → Still a c
Still-trans a b c h k = record { calls = k.calls ∙ h.calls; sent = k.sent ∙ h.sent }

module _ {F : Type 0} ⦃float : FloatOps F⦄ where
  pub request_authority-Still : (sdk : Bool) (w : Runtime F) → Still w (request_authority sdk w).0
  unfolding request_authority enqueue set_promise
  request_authority-Still sdk w = record { calls = ground arith; sent = ground arith }

  pub handle_status-Still :
      (now : ℕ) (linked authority : Bool) (w : Runtime F)
      → Still w (handle_status now linked authority w)
  unfolding handle_status
  handle_status-Still now linked authority w = record { calls = refl; sent = refl }

  pub report_all-Still : (rs : List Report) (w : Runtime F) → Still w (report_all rs w)
  report_all-Still [] w = record { calls = refl; sent = refl }
  report_all-Still ((now, linked, authority) ∷ rs) w =
      Still-trans w (handle_status now linked authority w) _
        (handle_status-Still now linked authority w)
        (report_all-Still rs (handle_status now linked authority w))

  pub request_mode-Still :
      (now : ℕ) (name : Bytes) (rs : List Report) (w : Runtime F)
      → Still w (request_mode now name (report_all rs) w).0
  unfolding request_mode enqueue set_promise
  request_mode-Still now name rs w =
      let gated : Runtime F = record (take_promise w) {
        controller = (Gate.request_mode now name w.controller).0;
      } in
      let s : Still gated (report_all rs gated) = report_all-Still rs gated in
      record { calls = ground (arith, s.calls); sent = ground (arith, s.sent) }

  pub trigger_estop-Still :
      (now : ℕ) (engage : Bool) (w : Runtime F) → Still w (trigger_estop now engage w).0
  unfolding trigger_estop set_promise
  trigger_estop-Still now engage w = record { calls = ground arith; sent = ground arith }

  pub submit-Still :
      (now : ℕ) (v : VelocityPayload F) (w : Runtime F) → Still w (submit_velocity now v w)
  unfolding submit_velocity notify_event
  submit-Still now v w = record { calls = ground arith; sent = ground arith }

  pub fail-Still :
      (now : ℕ) (r : Result) (b : Bool) (w : Runtime F) → Still w (fail_mode_transition now r b w)
  unfolding fail_mode_transition set_promise
  fail-Still now r b w = record { calls = ground arith; sent = ground arith }

  pub settle-Still : (now : ℕ) (w : Runtime F) → Still w (settle_mode_transition_timeout now w)
  unfolding settle_mode_transition_timeout set_promise
  settle-Still now w = record { calls = refl; sent = refl }

  pub check-Still :
      (now : ℕ) (s : SdkSnapshot) (w : Runtime F) → Still w (check_mode_transition now s w)
  unfolding check_mode_transition settle_mode_transition_timeout fail_mode_transition set_promise
  check-Still now s w = record { calls = ground arith; sent = ground arith }

  pub drain-Still : (n now : ℕ) (r : Result) (w : Runtime F) → Still w (drain n now r w)
  unfolding drain Queue.try_pop Queue.pop_locked abort_command set_promise
  drain-Still zero now r w = record { calls = refl; sent = refl }
  drain-Still (suc n) now r w = elim (List-cases w.command_queue.items) [
    | inl e ↦ rw e (record { calls = refl; sent = refl })
    | inr (c, cs, e) ↦
        let w' : Runtime F =
          abort_command now r c
            (record w { command_queue = record w.command_queue { items = cs } }) in
        let s = drain-Still n now r w' in
        rw e (record { calls = s.calls ∙ ground arith; sent = s.sent ∙ ground arith })
  ]

  pub fail_all-Still : (now : ℕ) (w : Runtime F) → Still w (fail_all_pending now w)
  unfolding fail_all_pending fail_mode_transition set_promise
  fail_all-Still now w =
      let s = drain-Still _ now _ _ in
      record { calls = s.calls ∙ ground arith; sent = s.sent ∙ ground arith }

  pub orphan-Still : (now : ℕ) (w : Runtime F) → Still w (settle_orphan now w)
  unfolding fail_mode_transition set_promise
  orphan-Still now w = record { calls = ground arith; sent = ground arith }

module _ {F : Type 0} ⦃float : FloatOps F⦄ ⦃vendor : Vendor F⦄ where
  pub abort_estop-Still : (now : ℕ) (w : Runtime F) → Still w (abort_for_estop now w)
  unfolding abort_for_estop fail_mode_transition set_promise
  abort_estop-Still now w =
      let s = drain-Still _ now _ _ in
      record { calls = s.calls ∙ ground arith; sent = s.sent ∙ ground arith }
