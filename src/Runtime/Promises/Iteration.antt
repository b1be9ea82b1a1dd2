-- ===== src/Runtime/Promises/Iteration.antt =====
-- An iteration of the worker's loop loses no promise.
use hypertron_sw01_ros2_brid.Prelude.{
  ℕ, ◌≡◌, refl, sym, subst, Bool, true, Option, some, none, List, [], ◌∷◌, arith, Bool-cases,
  List-cases, if_either, ◌||◌, if◌then◌else◌, inl, inr, ◌&&◌, not, leb,
}
use hypertron_sw01_ros2_brid.Prelude.Float.{FloatOps}
use hypertron_sw01_ros2_brid.Queue.{try_pop, pop_locked}
use hypertron_sw01_ros2_brid.Controller.Data.{VelocityPayload}
use hypertron_sw01_ros2_brid.Runtime.Types.{
  Vendor, SdkSnapshot, Runtime, Command, set_promise, notify_event, is_answered, call, polls,
}
use hypertron_sw01_ros2_brid.Runtime.Worker.{
  check_mode_transition, settle_mode_transition_timeout, fail_mode_transition, execute_command,
  actuate_stop_if_authorized, send_zero_and_damping, handle_estop_if_requested, may_actuate,
}
use hypertron_sw01_ros2_brid.Runtime.Loop.{
  Session, settle_orphan, arm_ready, run_command, heartbeat, send_target, motion_tick,
  apply_snapshot, state_poll, periodic, take_refresh, iterate, after_heartbeat,
}
use hypertron_sw01_ros2_brid.Runtime.Promises.{
  is_held, Keeps, Keeps-refl, Keeps-trans, Leaves, Leaves-Keeps, fail_mode_transition-Keeps,
  settle-Keeps,
}
use hypertron_sw01_ros2_brid.Runtime.Promises.Stop.{handle_estop-Keeps, send-Leaves}
use hypertron_sw01_ros2_brid.Runtime.Promises.Commands.{execute_command-Keeps}

module _ {F : Type 0} ⦃float : FloatOps F⦄ where
  check-Keeps :
      (now : ℕ) (s : SdkSnapshot) (w : Runtime F) → Keeps w (check_mode_transition now s w)
  unfolding check_mode_transition settle_mode_transition_timeout fail_mode_transition set_promise
      is_held is_answered
  check-Keeps now s w = record {
    estop = λ h. ground arith;
    policy = ground arith;
    next = ground arith;
    tracked = λ p h. ground arith;
  }

  orphan-Keeps : (now : ℕ) (w : Runtime F) → Keeps w (settle_orphan now w)
  orphan-Keeps now w =
      elim (Bool-cases (w.mode_transition.active && not w.controller.mode_transition_pending)) [
        | inl orphan ↦ rw (orphan) (fail_mode_transition-Keeps now _ true w)
        | inr owned ↦ rw (owned) (Keeps-refl w)
      ]

  arm-Leaves : (now : ℕ) (linked : Bool) (w : Runtime F) → Leaves w (arm_ready now linked w)
  arm-Leaves now linked w = record {
    engaged = ground arith;
    estop = ground arith;
    queue = ground arith;
    transition = ground arith;
    answers = ground arith;
    next = ground arith;
  }

  apply-Leaves : (now : ℕ) (s : SdkSnapshot) (w : Runtime F) → Leaves w (apply_snapshot now s w)
  unfolding apply_snapshot
  apply-Leaves now s w = record {
    engaged = refl;
    estop = refl;
    queue = refl;
    transition = refl;
    answers = refl;
    next = refl;
  }

module _ {F : Type 0} ⦃float : FloatOps F⦄ ⦃vendor : Vendor F⦄ where
  send_target-Leaves : (v : VelocityPayload F) (w : Runtime F) → Leaves w (send_target v w)
  unfolding send_target notify_event call
  send_target-Leaves v w = record {
    engaged = ground arith;
    estop = ground arith;
    queue = ground arith;
    transition = ground arith;
    answers = ground arith;
    next = ground arith;
  }

  heartbeat-Leaves : (now : ℕ) (s : Session) (w : Runtime F) → Leaves w (heartbeat now s w).0
  unfolding heartbeat notify_event call
  heartbeat-Leaves now s w = record {
    engaged = ground arith;
    estop = ground arith;
    queue = ground arith;
    transition = ground arith;
    answers = ground arith;
    next = ground arith;
  }

  motion_tick-Keeps :
      (now at : ℕ) (requested : Bool) (s : Session) (w : Runtime F)
      → Keeps w (motion_tick now at requested s w).0
  unfolding motion_tick
  motion_tick-Keeps now at requested s w =
      elim (Bool-cases (requested || leb s.next_motion_refresh now)) [
        | inl due ↦
            rw (due, motion_tick) (Leaves-Keeps w (send_target _ w) (send_target-Leaves _ w))
        | inr early ↦ rw (early, motion_tick) (Keeps-refl w)
      ]

  polls-Keeps : (w : Runtime F) → Keeps w (call polls w)
  unfolding call
  polls-Keeps w = Leaves-Keeps w (call polls w) (record {
    engaged = refl;
    estop = refl;
    queue = refl;
    transition = refl;
    answers = refl;
    next = refl;
  })

  state_poll-Keeps : (now : ℕ) (s : Session) (w : Runtime F) → Keeps w (state_poll now s w).0
  unfolding state_poll
  state_poll-Keeps now s w = elim (Bool-cases (leb s.next_state_poll now)) [
    | inr early ↦ rw (early, state_poll) (Keeps-refl w)
    | inl due ↦
        let a : Runtime F = call polls w in
        let snapshot = vendor.look a.calls in
        let b : Runtime F = apply_snapshot now snapshot a in
        let c : Runtime F = settle_orphan now b in
        let d : Runtime F = arm_ready now snapshot.sdk_linked c in
        rw (due, state_poll)
          (Keeps-trans w a _ (polls-Keeps w) (
            Keeps-trans a b _ (Leaves-Keeps a b (apply-Leaves now snapshot a)) (
              Keeps-trans b c _ (orphan-Keeps now b) (
                Keeps-trans c d _ (Leaves-Keeps c d (arm-Leaves now snapshot.sdk_linked c))
                  (check-Keeps now snapshot d)))))
  ]

  -- The settlement at the deadline.
  abbrev settled : ℕ → Runtime F → Runtime F
  settled now w =
      if w.mode_transition.active && leb w.mode_transition.deadline now
      then settle_mode_transition_timeout now w
      else w

  settled-Keeps : (now : ℕ) (w : Runtime F) → Keeps w (settled now w)
  settled-Keeps now w =
      elim (Bool-cases (w.mode_transition.active && leb w.mode_transition.deadline now)) [
        | inl over ↦ rw over (settle-Keeps now w (ground arith))
        | inr early ↦ rw early (Keeps-refl w)
      ]

  periodic-Keeps :
      (now at : ℕ) (requested : Bool) (s : Session) (w : Runtime F)
      → Keeps w (periodic now at requested s w).0
  unfolding periodic
  periodic-Keeps now at requested s w =
      let a : Runtime F = (motion_tick now at requested s w).0 in
      Keeps-trans w a _ (motion_tick-Keeps now at requested s w) (
        Keeps-trans a (settled now a) _ (settled-Keeps now a)
          (state_poll-Keeps now (motion_tick now at requested s w).1 (settled now a)))

  run_command-none : (now : ℕ) (w : Runtime F) → w.command_queue.items ≡ [] → run_command now w ≡ w
  unfolding run_command try_pop pop_locked
  run_command-none now w e = rw e refl

  run_command-front :
      (now : ℕ) (c : Command) (cs : List Command) (w : Runtime F)
      → w.command_queue.items ≡ c ∷ cs
      → run_command now w
        ≡ execute_command now c (record w { command_queue = record w.command_queue { items = cs } })
  unfolding run_command try_pop pop_locked
  run_command-front now c cs w e = rw e refl

  run_command-Keeps : (now : ℕ) (w : Runtime F) → Keeps w (run_command now w)
  run_command-Keeps now w = elim (List-cases w.command_queue.items) [
    | inl e ↦ subst (Keeps w) (sym (run_command-none now w e)) (Keeps-refl w)
    | inr (c, cs, e) ↦
        let w' : Runtime F = record w { command_queue = record w.command_queue { items = cs } } in
        subst (Keeps w) (sym (run_command-front now c cs w e)) (
          subst
            (λ l.
              Keeps (record w { command_queue = record w.command_queue { items = l } })
                (execute_command now c w'))
            (sym e) (execute_command-Keeps now c w'))
  ]

  actuate-Keeps : (w : Runtime F) → Keeps w (actuate_stop_if_authorized w)
  unfolding actuate_stop_if_authorized
  actuate-Keeps w = elim (Bool-cases (may_actuate w)) [
    | inr barred ↦ rw (barred, actuate_stop_if_authorized) (Keeps-refl w)
    | inl may ↦
        rw (may, actuate_stop_if_authorized)
          (Leaves-Keeps w (send_zero_and_damping w).0 (send-Leaves w))
  ]

  refresh-Keeps : (w : Runtime F) → Keeps w (take_refresh w)
  refresh-Keeps w = Leaves-Keeps w (take_refresh w) (record {
    engaged = refl;
    estop = refl;
    queue = refl;
    transition = refl;
    answers = refl;
    next = refl;
  })

  after_heartbeat-Keeps :
      (now at : ℕ) (requested : Bool) (w : Runtime F) (beat : Runtime F × Option Session)
      → Keeps w beat.0
      → Keeps w (after_heartbeat now at requested beat).0
  after_heartbeat-Keeps now at requested w (w', none) k = k
  after_heartbeat-Keeps now at requested w (w', some s) k =
      Keeps-trans w w' _ k (periodic-Keeps now at requested s w')

  -- An iteration of the worker's loop, whatever it does, keeps every promise answered or held.
  pub iterate-Keeps :
      (now later at : ℕ) (s : Session) (w : Runtime F) → Keeps w (iterate now later at s w).0
  unfolding iterate
  iterate-Keeps now later at s w =
      let a : Runtime F = handle_estop_if_requested now w in
      let b : Runtime F = settle_orphan now a in
      let c : Runtime F = run_command later b in
      let d : Runtime F = take_refresh c in
      let served : Keeps w d = Keeps-trans w a d (handle_estop-Keeps now w) (
        Keeps-trans a b d (orphan-Keeps now a)
          (Keeps-trans b c d (run_command-Keeps later b) (refresh-Keeps c))) in
      if_either (λ (r : Runtime F × Option Session). Keeps w r.0) w.stop_requested
        (actuate_stop_if_authorized w, none) _ (actuate-Keeps w)
        (if_either (λ (r : Runtime F × Option Session). Keeps w r.0) w.link_drop_latched (w, none) _
          (Keeps-refl w)
          (after_heartbeat-Keeps now at c.motion_refresh_due w (heartbeat now s d) (
            Keeps-trans w d _ served
              (Leaves-Keeps d (heartbeat now s d).0 (heartbeat-Leaves now s d)))))
