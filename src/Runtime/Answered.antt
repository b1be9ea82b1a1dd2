-- ===== src/Runtime/Answered.antt =====
-- Whole histories of the runtime lose no promise.
use hypertron_sw01_ros2_brid.Prelude.{
  ℕ, ◌<◌, ◌≡◌, refl, ap, ◌∙◌, Bool, true, false, List, [], ◌∷◌, Option, none, some, arith,
}
use hypertron_sw01_ros2_brid.Prelude.Int.{ℤ}
use hypertron_sw01_ros2_brid.Prelude.Float.{FloatOps}
use hypertron_sw01_ros2_brid.Queue
use hypertron_sw01_ros2_brid.Queue.{Queue, reject_new}
use hypertron_sw01_ros2_brid.Controller.Data.{Controller, VelocityPayload}
use hypertron_sw01_ros2_brid.Runtime.Types.{
  Vendor, Runtime, RuntimeConfig, Command, is_answered, notify_event, call, deinits,
}
use hypertron_sw01_ros2_brid.Runtime.Requests.{handle_status, submit_velocity, stop}
use hypertron_sw01_ros2_brid.Runtime.Worker.{fail_all_pending, invalidate_session}
use hypertron_sw01_ros2_brid.Runtime.Loop.{begin_session, end_session}
use hypertron_sw01_ros2_brid.Runtime.History.{
  Report, Event, asks_authority, asks_mode, triggers, submits, reports, stops, connects, iterates,
  ends, made, construct, report_all, connect, step, run,
}
use hypertron_sw01_ros2_brid.Runtime.Promises.{
  is_tracked, IsAccounted, Keeps, Keeps-refl, Keeps-trans, Keeps-IsAccounted, Leaves, Leaves-Keeps,
}
use hypertron_sw01_ros2_brid.Runtime.Promises.Stop.{
  fail_all_pending-Keeps, fail_all_pending-answers,
}
use hypertron_sw01_ros2_brid.Runtime.Promises.Iteration.{iterate-Keeps}
use hypertron_sw01_ros2_brid.Runtime.Promises.Issue.{
  request_authority-IsAccounted, request_mode-IsAccounted, trigger_estop-IsAccounted,
}

queue-policy :
    (capacity : ℕ) (q : Queue Command)
    → some q ≡ Queue.construct capacity reject_new
    → q.policy ≡ reject_new
unfolding Queue.construct
queue-policy capacity q h = ground arith

module _ {F : Type 0} ⦃float : FloatOps F⦄ where
  handle_status-Keeps :
      (now : ℕ) (linked authority : Bool) (w : Runtime F)
      → Keeps w (handle_status now linked authority w)
  unfolding handle_status
  handle_status-Keeps now linked authority w = Leaves-Keeps w _ (record {
    engaged = refl;
    estop = refl;
    queue = refl;
    transition = refl;
    answers = refl;
    next = refl;
  })

  report_all-Keeps : (rs : List Report) (w : Runtime F) → Keeps w (report_all rs w)
  report_all-Keeps [] w = Keeps-refl w
  report_all-Keeps ((now, linked, authority) ∷ rs) w =
      Keeps-trans w _ _ (handle_status-Keeps now linked authority w)
        (report_all-Keeps rs (handle_status now linked authority w))

  submit-Leaves :
      (now : ℕ) (v : VelocityPayload F) (w : Runtime F) → Leaves w (submit_velocity now v w)
  unfolding submit_velocity notify_event
  submit-Leaves now v w = record {
    engaged = ground arith;
    estop = ground arith;
    queue = ground arith;
    transition = ground arith;
    answers = ground arith;
    next = ground arith;
  }

  stop-Leaves : (w : Runtime F) → Leaves w (stop w)
  unfolding stop
  stop-Leaves w = record {
    engaged = refl;
    estop = refl;
    queue = refl;
    transition = refl;
    answers = refl;
    next = refl;
  }

  connect-Leaves : (now : ℕ) (w : Runtime F) → Leaves w (connect now w)
  unfolding begin_session
  connect-Leaves now w = record {
    engaged = refl;
    estop = refl;
    queue = refl;
    transition = refl;
    answers = refl;
    next = refl;
  }

  -- The end of a session after its answers.
  torn-Leaves : (now : ℕ) (w : Runtime F) → Leaves w (call deinits (invalidate_session now w))
  unfolding invalidate_session call
  torn-Leaves now w = record {
    engaged = refl;
    estop = refl;
    queue = refl;
    transition = refl;
    answers = refl;
    next = refl;
  }

  disconnected-Leaves : (w : Runtime F) → Leaves w (record w { connected = false })
  disconnected-Leaves w = record {
    engaged = refl;
    estop = refl;
    queue = refl;
    transition = refl;
    answers = refl;
    next = refl;
  }

  pub end_session-Keeps : (now : ℕ) (w : Runtime F) → Keeps w (end_session now w)
  unfolding end_session
  end_session-Keeps now w =
      let d : Runtime F = record w { connected = false } in
      Keeps-trans w d _ (Leaves-Keeps w d (disconnected-Leaves w)) (
        Keeps-trans d (fail_all_pending now d) _ (fail_all_pending-Keeps now d)
          (Leaves-Keeps (fail_all_pending now d) _ (torn-Leaves now (fail_all_pending now d))))

  end_session-answers :
      (now : ℕ) (w : Runtime F) (p : ℕ)
      → IsAccounted w
      → p < w.next_promise
      → is_answered p (end_session now w).answers ≡ true
  unfolding end_session
  end_session-answers now w p a h =
      let d : Runtime F = record w { connected = false } in
      let torn = torn-Leaves now (fail_all_pending now d) in
      ap (is_answered p) torn.answers
      ∙ fail_all_pending-answers now d p
          (Keeps-IsAccounted w d (Leaves-Keeps w d (disconnected-Leaves w)) a) h

  made-IsAccounted :
      (config : RuntimeConfig) (c : Option (Controller F)) (q : Option (Queue Command))
      (w : Runtime F)
      → made config c q ≡ some w
      → (w.estop_promise ≡ none)
        × (w.estop_engaged ≡ false)
        × (w.next_promise ≡ 0)
        × (some w.command_queue ≡ q)
  made-IsAccounted config c q w h = ground arith

  construct-IsAccounted :
      (config : RuntimeConfig) (deadman : ℤ) (capacity : ℕ) {w : Runtime F}
      → construct config deadman capacity ≡ some w
      → IsAccounted w
  unfolding construct
  construct-IsAccounted config deadman capacity {w} h =
      let (no_stop, calm, first, queue) = made-IsAccounted config _ _ w h in
      record {
        estop = ground (arith, no_stop, calm);
        policy = queue-policy capacity w.command_queue queue;
        tracked = λ p l. ground (arith, first, l);
      }

module _ {F : Type 0} ⦃float : FloatOps F⦄ ⦃vendor : Vendor F⦄ where
  step-IsAccounted : (w : Runtime F) (e : Event F) → IsAccounted w → IsAccounted (step w e)
  unfolding step
  step-IsAccounted w (asks_authority sdk) a = request_authority-IsAccounted sdk w a
  step-IsAccounted w (asks_mode now name between) a =
      request_mode-IsAccounted now name (report_all between) w (report_all-Keeps between) a
  step-IsAccounted w (triggers now engage) a = trigger_estop-IsAccounted now engage w a
  step-IsAccounted w (submits now v) a =
      Keeps-IsAccounted w _ (Leaves-Keeps w _ (submit-Leaves now v w)) a
  step-IsAccounted w (reports (now, linked, authority)) a =
      Keeps-IsAccounted w _ (handle_status-Keeps now linked authority w) a
  step-IsAccounted w stops a = Keeps-IsAccounted w _ (Leaves-Keeps w _ (stop-Leaves w)) a
  step-IsAccounted w (connects now) a =
      Keeps-IsAccounted w _ (Leaves-Keeps w _ (connect-Leaves now w)) a
  step-IsAccounted w (iterates now later at s) a =
      Keeps-IsAccounted w _ (iterate-Keeps now later at s w) a
  step-IsAccounted w (ends now) a = Keeps-IsAccounted w _ (end_session-Keeps now w) a

  run-IsAccounted :
      (w : Runtime F) (events : List (Event F)) → IsAccounted w → IsAccounted (run w events)
  unfolding run
  run-IsAccounted w [] a = a
  run-IsAccounted w (e ∷ events) a = run-IsAccounted (step w e) events (step-IsAccounted w e a)

  -- From the constructor on, over any history of requests, status reports and iterations of the
  -- worker: every promise ever issued is answered, or waits in the command queue, in the armed mode
  -- transition or in the pending emergency stop. After the end of a session, every promise issued
  -- until then is answered.
  pub run-no_promise_lost :
      (config : RuntimeConfig) (deadman : ℤ) (capacity : ℕ) (w : Runtime F)
      (events : List (Event F)) (now p : ℕ)
      → construct config deadman capacity ≡ some w
      → p < (run w events).next_promise
      → (is_tracked p (run w events) ≡ true)
        × (is_answered p (end_session now (run w events)).answers ≡ true)
  run-no_promise_lost config deadman capacity w events now p c h =
      let a : IsAccounted (run w events) =
        run-IsAccounted w events (construct-IsAccounted config deadman capacity c) in
      (a.tracked p h, end_session-answers now (run w events) p a h)
