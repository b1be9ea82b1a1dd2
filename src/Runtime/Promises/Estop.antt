-- ===== src/Runtime/Promises/Estop.antt =====
-- What the worker does to the robot and to the callers when an emergency stop was requested.
use hypertron_sw01_ros2_brid.Prelude.{
  ℕ, ◌<◌, ◌≡◌, refl, sym, ap, ◌∙◌, subst, Bool, true, false, List, [], ◌∷◌, Option, none, some,
  arith, Bool-cases, inl, inr, if◌then◌else◌, length,
}
use hypertron_sw01_ros2_brid.Prelude.Text.{codes}
use hypertron_sw01_ros2_brid.Prelude.Float.{FloatOps}
use hypertron_sw01_ros2_brid.Queue.{size}
use hypertron_sw01_ros2_brid.Controller.Gate
use hypertron_sw01_ros2_brid.Runtime.Types.{
  Result, Vendor, Runtime, SdkCall, moves, sets_mode, set_promise, notify_event, is_answered, call,
  failure, res_failed, complete_mode,
}
use hypertron_sw01_ros2_brid.Runtime.Worker.{
  mode_damping, may_actuate, fail_mode_transition, abort_for_estop, stop_robot,
  handle_estop_if_requested, send_zero_and_damping, answer_estop,
}
use hypertron_sw01_ros2_brid.Runtime.Promises.{
  IsAccounted, Keeps, Keeps-IsAccounted, drain-Spares, drain-empties,
}
use hypertron_sw01_ros2_brid.Runtime.Promises.Stop.{
  taken, aborted, failed-idle, failed-estop, handle_engaged, handle_estop-Keeps, IsSettled,
  settled-answers,
}

module _ {F : Type 0} ⦃float : FloatOps F⦄ where
  -- What a stop must send: the zero velocity, then the damping mode.
  abbrev pub stopped_calls : List (SdkCall F) → List (SdkCall F)
  stopped_calls calls = sets_mode mode_damping ∷ moves Gate.no_velocity ∷ calls

  failed-may :
      (now : ℕ) (r : Result) (b : Bool) (w : Runtime F)
      → (may_actuate (fail_mode_transition now r b w) ≡ may_actuate w)
        × ((fail_mode_transition now r b w).calls ≡ w.calls)
  unfolding fail_mode_transition set_promise
  failed-may now r b w = (ground arith, ground arith)

module _ {F : Type 0} ⦃float : FloatOps F⦄ ⦃vendor : Vendor F⦄ where
  abort_for_estop-IsSettled :
      (now : ℕ) (w : Runtime F)
      → IsSettled (abort_for_estop now w)
        × (may_actuate (abort_for_estop now w) ≡ may_actuate w)
        × ((abort_for_estop now w).calls ≡ w.calls)
  unfolding abort_for_estop size
  abort_for_estop-IsSettled now w =
      let r : Result = failure res_failed (codes "mode transition aborted by the emergency stop") in
      let b : Runtime F = complete_mode now false (aborted now w) in
      let d =
        drain-Spares (length b.command_queue.items) now
          (failure res_failed (codes "command aborted by the emergency stop")) b in
      let f = failed-may now r false (taken w) in
      (
        record {
          disarmed = ap (λ t. t.active) d.transition ∙ failed-idle now r false (taken w);
          no_estop = d.estop ∙ failed-estop now r false (taken w);
          emptied = drain-empties _ now _ b (omega arith);
        },
        ground (arith, f.0, d.linked, d.authority, d.dropped),
        d.calls ∙ f.1,
      )

  send-calls : (w : Runtime F) → (send_zero_and_damping w).0.calls ≡ stopped_calls w.calls
  unfolding send_zero_and_damping notify_event call
  send-calls w = ground arith

  send-IsSettled : (w : Runtime F) → IsSettled w → IsSettled (send_zero_and_damping w).0
  unfolding send_zero_and_damping notify_event call
  send-IsSettled w s = record {
    disarmed = ground (arith, s.disarmed);
    no_estop = ground (arith, s.no_estop);
    emptied = ground (arith, s.emptied);
  }

  answer-IsSettled :
      (o : Option ℕ) (r : Result) (w : Runtime F) → IsSettled w → IsSettled (answer_estop o r w)
  unfolding set_promise
  answer-IsSettled none r w s = s
  answer-IsSettled (some p) r w s = record {
    disarmed = s.disarmed;
    no_estop = s.no_estop;
    emptied = s.emptied;
  }

  answer-calls : (o : Option ℕ) (r : Result) (w : Runtime F) → (answer_estop o r w).calls ≡ w.calls
  unfolding set_promise
  answer-calls none r w = refl
  answer-calls (some p) r w = refl

  stop_robot-stops :
      (o : Option ℕ) (w : Runtime F)
      → IsSettled w
      → IsSettled (stop_robot o w)
        × ((stop_robot o w).calls ≡ (if may_actuate w then stopped_calls w.calls else w.calls))
  unfolding stop_robot
  stop_robot-stops o w s = elim (Bool-cases (may_actuate w)) [
    | inr barred ↦ rw (barred, stop_robot) (answer-IsSettled o _ w s, answer-calls o _ w)
    | inl may ↦
        let w' : Runtime F = (send_zero_and_damping w).0 in
        rw (may, stop_robot)
          (answer-IsSettled o _ w' (send-IsSettled w s), answer-calls o _ w' ∙ send-calls w)
  ]

  -- In a runtime where every promise is answered or held: when the worker handles a requested
  -- emergency stop, it sends the zero velocity and then the
  -- damping mode exactly if the link and the authority are there and no drop is latched, and makes no
  -- other SDK call; afterwards the command queue is empty, no mode transition is armed, no stop is
  -- pending, and every promise ever issued is answered.
  pub handle_estop-stops :
      (now p : ℕ) (w : Runtime F)
      → IsAccounted w
      → w.estop_engaged ≡ true
      → p < w.next_promise
      → let w' = handle_estop_if_requested now w in
        (w'.calls ≡ (if may_actuate w then stopped_calls w.calls else w.calls))
        × (w'.command_queue.items ≡ [])
        × (w'.mode_transition.active ≡ false)
        × (w'.estop_promise ≡ none)
        × (is_answered p w'.answers ≡ true)
  handle_estop-stops now p w a e h =
      let s : Runtime F = abort_for_estop now w in
      let (idle, may, calls) = abort_for_estop-IsSettled now w in
      let (settled, sent) = stop_robot-stops w.estop_promise s idle in
      let same = handle_engaged now w e in
      let k : Keeps w (handle_estop_if_requested now w) = handle_estop-Keeps now w in
      let settled' : IsSettled (handle_estop_if_requested now w) =
        subst IsSettled (sym same) settled in
      (
        ap (λ u. u.calls) same ∙ sent ∙ cong_calls s w may calls,
        settled'.emptied,
        settled'.disarmed,
        settled'.no_estop,
        settled-answers _ (Keeps-IsAccounted w _ k a) settled' p (ground (arith, k.next)),
      )
    where
      cong_calls :
          (s w : Runtime F)
          → may_actuate s ≡ may_actuate w
          → s.calls ≡ w.calls
          → (if may_actuate s then stopped_calls s.calls else s.calls)
            ≡ (if may_actuate w then stopped_calls w.calls else w.calls)
      cong_calls s w may calls = rw (may, calls) refl
