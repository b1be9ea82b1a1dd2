-- ===== src/Runtime/Promises/Stop.antt =====
-- The promises at the end of a session and in an emergency stop.
use hypertron_sw01_ros2_brid.Prelude.{
  arith, ◌<◌, length, ◌⊎◌, inl, inr, sym, ap, ◌∙◌, subst, refl, [], none, Bool, ℕ, ◌≡◌, true, false,
  Option, Bool-cases,
}
use hypertron_sw01_ros2_brid.Prelude.Text.{codes}
use hypertron_sw01_ros2_brid.Queue.{size}
use hypertron_sw01_ros2_brid.Runtime.Types.{
  failure, res_failed, res_not_init, complete_mode, Result, Vendor, Runtime, set_promise,
  notify_event, is_answered, call,
}
use hypertron_sw01_ros2_brid.Runtime.Worker.{
  fail_mode_transition, abort_for_estop, handle_estop_if_requested, fail_all_pending,
  send_zero_and_damping, stop_robot, may_actuate, lost_during_estop, answer_estop,
}
use hypertron_sw01_ros2_brid.Runtime.Promises.{
  is_queued, waits_for, is_some, is_held, is_tracked, IsAccounted, Keeps, Keeps-refl, Keeps-trans,
  Keeps-IsAccounted, Leaves, Leaves-Keeps, fail_mode_transition-Keeps, drain-Keeps, drain-empties,
  drain-Spares,
}
use hypertron_sw01_ros2_brid.Prelude.Float.{FloatOps}

module _ {F : Type 0} ⦃float : FloatOps F⦄ where
  lost-Keeps : (w : Runtime F) → Keeps w (lost_during_estop w)
  unfolding set_promise is_held is_answered
  lost-Keeps w = record {
    estop = λ h. ground arith;
    policy = ground arith;
    next = ground arith;
    tracked = λ p h. ground arith;
  }

  pub fail_all_pending-Keeps : (now : ℕ) (w : Runtime F) → Keeps w (fail_all_pending now w)
  unfolding fail_all_pending
  fail_all_pending-Keeps now w =
      let a : Runtime F = lost_during_estop w in
      Keeps-trans w a (fail_all_pending now w) (lost-Keeps w) (
        Keeps-trans a _ (fail_all_pending now w) (fail_mode_transition-Keeps now _ false a)
          (drain-Keeps _ now _ _))

  -- No promise is held: the transition is idle, no stop is requested and the queue is empty.
  pub record IsSettled (w : Runtime F) : Type 0 where
    pub disarmed : w.mode_transition.active ≡ false
    pub no_estop : w.estop_promise ≡ none
    pub emptied : w.command_queue.items ≡ []

  pub settled-answers :
      (w : Runtime F)
      → IsAccounted w
      → IsSettled w
      → (p : ℕ) → p < w.next_promise
      → is_answered p w.answers ≡ true
  unfolding is_held is_queued
  settled-answers w a s p h =
      ground (arith, a.tracked p h, s.disarmed, s.no_estop, ap (is_queued p) s.emptied)

  pub failed-idle :
      (now : ℕ) (r : Result) (b : Bool) (w : Runtime F)
      → (fail_mode_transition now r b w).mode_transition.active ≡ false
  unfolding fail_mode_transition set_promise
  failed-idle now r b w = ground arith

  pub failed-estop :
      (now : ℕ) (r : Result) (b : Bool) (w : Runtime F)
      → (fail_mode_transition now r b w).estop_promise ≡ w.estop_promise
  unfolding fail_mode_transition set_promise
  failed-estop now r b w = ground arith

  lost-estop :
      (w : Runtime F)
      → w.estop_engaged ≡ is_some w.estop_promise
      → (lost_during_estop w).estop_promise ≡ none
  unfolding set_promise
  lost-estop w e = ground arith

  fail_all_pending-IsSettled :
      (now : ℕ) (w : Runtime F)
      → w.estop_engaged ≡ is_some w.estop_promise
      → IsSettled (fail_all_pending now w)
  unfolding fail_all_pending size
  fail_all_pending-IsSettled now w e =
      let a : Runtime F = lost_during_estop w in
      let r : Result = failure res_not_init (codes "connection lost during a mode transition") in
      let b : Runtime F = fail_mode_transition now r false a in
      let d =
        drain-Spares (length b.command_queue.items) now
          (failure res_not_init (codes "runtime disconnected; command dropped")) b in
      record {
        disarmed = ap (λ t. t.active) d.transition ∙ failed-idle now r false a;
        no_estop = d.estop ∙ failed-estop now r false a ∙ lost-estop w e;
        emptied = drain-empties _ now _ b (omega arith);
      }

  -- When a session ends, every promise ever issued is answered.
  pub fail_all_pending-answers :
      (now : ℕ) (w : Runtime F) (p : ℕ)
      → IsAccounted w
      → p < w.next_promise
      → is_answered p (fail_all_pending now w).answers ≡ true
  fail_all_pending-answers now w p a h =
      let k : Keeps w (fail_all_pending now w) = fail_all_pending-Keeps now w in
      settled-answers (fail_all_pending now w) (Keeps-IsAccounted w _ k a)
        (fail_all_pending-IsSettled now w a.estop) p (ground (arith, k.next))

module _ {F : Type 0} ⦃float : FloatOps F⦄ ⦃vendor : Vendor F⦄ where
  pub send-Leaves : (w : Runtime F) → Leaves w (send_zero_and_damping w).0
  unfolding send_zero_and_damping notify_event call
  send-Leaves w = record {
    engaged = ground arith;
    estop = ground arith;
    queue = ground arith;
    transition = ground arith;
    answers = ground arith;
    next = ground arith;
  }

  -- The answer to the emergency stop.
  answer_estop-Keeps : (o : Option ℕ) (r : Result) (w : Runtime F) → Keeps w (answer_estop o r w)
  unfolding set_promise is_held is_answered
  answer_estop-Keeps o r w = record {
    estop = λ h. ground arith;
    policy = ground arith;
    next = ground arith;
    tracked = λ p h. ground arith;
  }

  answer_estop-answers :
      (o : Option ℕ) (r : Result) (w : Runtime F) (p : ℕ)
      → waits_for p o ≡ true
      → is_answered p (answer_estop o r w).answers ≡ true
  unfolding set_promise is_answered
  answer_estop-answers o r w p h = ground arith

  stop_robot-Keeps : (o : Option ℕ) (w : Runtime F) → Keeps w (stop_robot o w)
  unfolding stop_robot
  stop_robot-Keeps o w = elim (Bool-cases (may_actuate w)) [
    | inr barred ↦ rw (barred, stop_robot) (answer_estop-Keeps o _ w)
    | inl may ↦
        rw (may, stop_robot)
          (Keeps-trans w (send_zero_and_damping w).0 _ (Leaves-Keeps w _ (send-Leaves w))
            (answer_estop-Keeps o _ (send_zero_and_damping w).0))
  ]

  stop_robot-answers :
      (o : Option ℕ) (w : Runtime F) (p : ℕ)
      → waits_for p o ≡ true
      → is_answered p (stop_robot o w).answers ≡ true
  unfolding stop_robot
  stop_robot-answers o w p h = elim (Bool-cases (may_actuate w)) [
    | inr barred ↦ rw (barred, stop_robot) (answer_estop-answers o _ w p h)
    | inl may ↦ rw (may, stop_robot) (answer_estop-answers o _ (send_zero_and_damping w).0 p h)
  ]

  -- The request is taken.
  abbrev pub taken : Runtime F → Runtime F
  taken w = record w { estop_engaged = false; estop_promise = none }

  abbrev pub aborted : ℕ → Runtime F → Runtime F
  aborted now w =
      fail_mode_transition now
        (failure res_failed (codes "mode transition aborted by the emergency stop")) false (taken w)

  pub complete-Keeps : (now : ℕ) (b : Bool) (w : Runtime F) → Keeps w (complete_mode now b w)
  complete-Keeps now b w = Leaves-Keeps w (complete_mode now b w) (record {
    engaged = refl;
    estop = refl;
    queue = refl;
    transition = refl;
    answers = refl;
    next = refl;
  })

  abort_for_estop-Keeps : (now : ℕ) (w : Runtime F) → Keeps (taken w) (abort_for_estop now w)
  unfolding abort_for_estop
  abort_for_estop-Keeps now w =
      Keeps-trans _ _ _ (fail_mode_transition-Keeps now _ false (taken w))
        (Keeps-trans _ _ _ (complete-Keeps now false (aborted now w)) (drain-Keeps _ now _ _))

  estop_pending-tracked :
      (w : Runtime F) (p : ℕ)
      → is_tracked p w ≡ true
      → (is_tracked p (taken w) ≡ true) ⊎ (waits_for p w.estop_promise ≡ true)
  unfolding is_held
  estop_pending-tracked w p h = ground arith

  stopped-Keeps :
      (now : ℕ) (w : Runtime F) → Keeps w (stop_robot w.estop_promise (abort_for_estop now w))
  stopped-Keeps now w =
      let s : Runtime F = abort_for_estop now w in
      let k : Keeps (taken w) (stop_robot w.estop_promise s) =
        Keeps-trans _ _ _ (abort_for_estop-Keeps now w) (stop_robot-Keeps w.estop_promise s) in
      record {
        estop = λ h. k.estop refl;
        policy = k.policy;
        next = k.next;
        tracked = λ p h. elim (estop_pending-tracked w p h) [
          | inl t ↦ k.tracked p t
          | inr waits ↦ ground (arith, stop_robot-answers w.estop_promise s p waits)
        ];
      }

  handle_calm :
      (now : ℕ) (w : Runtime F) → w.estop_engaged ≡ false → handle_estop_if_requested now w ≡ w
  unfolding handle_estop_if_requested
  handle_calm now w e = ground arith

  pub handle_engaged :
      (now : ℕ) (w : Runtime F)
      → w.estop_engaged ≡ true
      → handle_estop_if_requested now w ≡ stop_robot w.estop_promise (abort_for_estop now w)
  unfolding handle_estop_if_requested
  handle_engaged now w e = ground arith

  pub handle_estop-Keeps : (now : ℕ) (w : Runtime F) → Keeps w (handle_estop_if_requested now w)
  unfolding handle_estop_if_requested
  handle_estop-Keeps now w = elim (Bool-cases w.estop_engaged) [
    | inr calm ↦ subst (Keeps w) (sym (handle_calm now w calm)) (Keeps-refl w)
    | inl engaged ↦ subst (Keeps w) (sym (handle_engaged now w engaged)) (stopped-Keeps now w)
  ]
