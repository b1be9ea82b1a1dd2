-- ===== src/Runtime/Follows.antt =====
-- The flag `last_sent_nonzero_` and the last velocity that the SDK took since the session began: each part
-- of the worker keeps them together.
use hypertron_sw01_ros2_brid.Prelude.{
  ℕ, ◌≤◌, ◌≡◌, refl, ◌∙◌, sym, ap, Bool, true, false, not, List, [], ◌∷◌, Option, none, some, arith,
  length, ltb, if◌then◌else◌, List-cases, inl, inr, if_either, if_cases, subst,
}
use hypertron_sw01_ros2_brid.Prelude.Float.{FloatOps}
use hypertron_sw01_ros2_brid.Queue
use hypertron_sw01_ros2_brid.Prelude.Text.{codes}
use hypertron_sw01_ros2_brid.Controller.Data.{VelocityPayload}
use hypertron_sw01_ros2_brid.Controller.Gate
use hypertron_sw01_ros2_brid.Runtime.Types.{
  failure, res_failed, Vendor, Runtime, SdkCall, Command, SdkSnapshot, inits, deinits, heartbeats,
  takes_authority, subscribes_imu, subscribes_sport, subscribes_lidar, moves, sets_mode, polls,
  success, call, notify_event, set_promise,
}
use hypertron_sw01_ros2_brid.Runtime.Worker.{
  is_mode, fail_mode_transition, fail_all_pending, invalidate_session, send_zero_and_damping,
  actuate_stop_if_authorized, abort_for_estop, stop_robot, handle_estop_if_requested, switch_mode,
  zero_and_switch, execute_command, may_actuate,
}
use hypertron_sw01_ros2_brid.Runtime.Loop.{
  Session, is_nonzero, settle_orphan, arm_ready, apply_snapshot, begin_session, end_session,
  run_command, heartbeat, send_target, motion_tick, state_poll, periodic,
}
use hypertron_sw01_ros2_brid.Runtime.History.{connect}
use hypertron_sw01_ros2_brid.Runtime.Still.{
  Still, fail-Still, settle-Still, check-Still, fail_all-Still, abort_estop-Still, orphan-Still,
}

module _ {F : Type 0} ⦃float : FloatOps F⦄ ⦃vendor : Vendor F⦄ where
  -- Of a call, whether the SDK took it, and what was known before.
  abbrev pub weigh : SdkCall F → Bool → Bool → Bool
  weigh (moves v) true before = is_nonzero v
  weigh (moves v) false before = before
  weigh inits taken before = before
  weigh deinits taken before = before
  weigh heartbeats taken before = before
  weigh (takes_authority sdk) taken before = before
  weigh subscribes_imu taken before = before
  weigh subscribes_sport taken before = before
  weigh subscribes_lidar taken before = before
  weigh (sets_mode mode) taken before = before
  weigh polls taken before = before

  -- Whether the last velocity that the SDK took is not zero, among the calls after the first `n`; they
  -- stand with the newest in front.
  unfoldable pub nonzero_since : ℕ → List (SdkCall F) → Bool
  nonzero_since n [] = false
  nonzero_since n (c ∷ calls) =
      let before = nonzero_since n calls in
      if ltb (length calls) n then false else weigh c (success (vendor.answer (c ∷ calls))) before

  -- The flag says what the SDK last took.
  pub record Follows (n : ℕ) (w : Runtime F) : Type 0 where
    pub begun : n ≤ length w.calls
    pub same : w.last_sent_nonzero ≡ nonzero_since n w.calls

  pub Still-Follows : (n : ℕ) (w w' : Runtime F) → Still w w' → Follows n w → Follows n w'
  Still-Follows n w w' s f = record {
    begun = subst (λ l. n ≤ length l) (sym s.calls) f.begun;
    same = s.sent ∙ f.same ∙ ap (nonzero_since n) (sym s.calls);
  }

  none_since : (calls : List (SdkCall F)) → nonzero_since (length calls) calls ≡ false
  unfolding nonzero_since
  none_since [] = refl
  none_since (c ∷ calls) = ground arith

  pub begin-Follows : (now : ℕ) (w : Runtime F) → Follows (length w.calls) (connect now w)
  unfolding begin_session
  begin-Follows now w = record { begun = omega arith; same = sym (none_since w.calls) }

  pub end-Follows : (n now : ℕ) (w : Runtime F) → Follows n w → Follows n (end_session now w)
  unfolding end_session call invalidate_session nonzero_since
  end-Follows n now w f =
      let ended : Runtime F = record w { connected = false } in
      let g : Follows n (fail_all_pending now ended) =
        Still-Follows n w _
          (record {
            calls = (fail_all-Still now ended).calls;
            sent = (fail_all-Still now ended).sent;
          })
          f in
      record { begun = ground (arith, g.begun); same = ground (arith, g.begun, g.same) }

  module _ (stands : is_nonzero {F = F} Gate.no_velocity ≡ false) where
    pub send_zero-Follows :
        (n : ℕ) (w : Runtime F) → Follows n w → Follows n (send_zero_and_damping w).0
    unfolding send_zero_and_damping call notify_event nonzero_since
    send_zero-Follows n w f = record { begun = ground arith; same = ground arith }

    pub actuate-Follows :
        (n : ℕ) (w : Runtime F) → Follows n w → Follows n (actuate_stop_if_authorized w)
    unfolding actuate_stop_if_authorized
    actuate-Follows n w f =
        if_either (Follows n) (not (may_actuate w)) w (send_zero_and_damping w).0 f
          (send_zero-Follows n w f)

    pub stop_robot-Follows :
        (n : ℕ) (p : Option ℕ) (w : Runtime F) → Follows n w → Follows n (stop_robot p w)
    unfolding stop_robot set_promise
    stop_robot-Follows n none w f =
        if_either (Follows n) (not (may_actuate w)) w (send_zero_and_damping w).0 f
          (send_zero-Follows n w f)
    stop_robot-Follows n (some p) w f =
        let g = send_zero-Follows n w f in
        if_either (Follows n) (not (may_actuate w)) _ _ (record { begun = f.begun; same = f.same })
          (record { begun = g.begun; same = g.same })

    pub handle_estop-Follows :
        (n now : ℕ) (w : Runtime F) → Follows n w → Follows n (handle_estop_if_requested now w)
    unfolding handle_estop_if_requested
    handle_estop-Follows n now w f = if_either (Follows n) (not w.estop_engaged) w _ f (
        stop_robot-Follows n w.estop_promise (abort_for_estop now w)
          (Still-Follows n w _ (abort_estop-Still now w) f))

    pub switch_mode-Follows :
        (n now : ℕ) (c : Command) (w : Runtime F) → Follows n w → Follows n (switch_mode now c w)
    unfolding switch_mode call set_promise nonzero_since
    switch_mode-Follows n now c w f = record { begun = ground arith; same = ground arith }

    pub zero_and_switch-Follows :
        (n now : ℕ) (c : Command) (w : Runtime F)
        → Follows n w
        → Follows n (zero_and_switch now c w)
    unfolding zero_and_switch call set_promise nonzero_since
    zero_and_switch-Follows n now c w f =
        if_cases (Follows n) (not w.last_sent_nonzero) _ _
          (λ still. switch_mode-Follows n now c w f)
          (λ moving.
            if_cases (Follows n) (not (success (vendor.answer (moves Gate.no_velocity ∷ w.calls))))
              _ _ (λ refused. record { begun = ground arith; same = ground arith })
              (λ taken.
                switch_mode-Follows n now c _
                  (record { begun = ground arith; same = ground arith })))

    asked-Follows :
        (n : ℕ) (c : Command) (w : Runtime F)
        → Follows n w
        → Follows n (
            set_promise c.promise
              (vendor.answer (takes_authority c.authority_sdk ∷ w.calls))
              (call (takes_authority c.authority_sdk) w))
    unfolding call set_promise nonzero_since
    asked-Follows n c w f = record { begun = ground arith; same = ground arith }

    pub execute-Follows :
        (n now : ℕ) (c : Command) (w : Runtime F)
        → Follows n w
        → Follows n (execute_command now c w)
    unfolding execute_command call
    execute-Follows n now c w f =
        let r = failure res_failed (codes "mode transition superseded by a newer mode command") in
        let settled : Runtime F = fail_mode_transition now r false w in
        if_either (Follows n) (not (is_mode c.kind)) _ (zero_and_switch now c settled)
          (asked-Follows n c w f)
          (zero_and_switch-Follows n now c settled
            (Still-Follows n w settled (fail-Still now r false w) f))

    pub run_command-Follows :
        (n now : ℕ) (w : Runtime F) → Follows n w → Follows n (run_command now w)
    unfolding run_command Queue.try_pop Queue.pop_locked
    run_command-Follows n now w f = elim (List-cases w.command_queue.items) [
      | inl e ↦ rw e (record { begun = f.begun; same = f.same })
      | inr (c, cs, e) ↦ rw e (
          execute-Follows n now c
            (record w { command_queue = record w.command_queue { items = cs } })
            (record { begun = f.begun; same = f.same }))
    ]

    pub heartbeat-Follows :
        (n now : ℕ) (s : Session) (w : Runtime F) → Follows n w → Follows n (heartbeat now s w).0
    unfolding heartbeat call notify_event nonzero_since
    heartbeat-Follows n now s w f = record { begun = ground arith; same = ground arith }

    pub send_target-Follows :
        (n : ℕ) (v : VelocityPayload F) (w : Runtime F) → Follows n w → Follows n (send_target v w)
    unfolding send_target call notify_event nonzero_since
    send_target-Follows n v w f = record { begun = ground arith; same = ground arith }

    pub motion_tick-Follows :
        (n now at : ℕ) (b : Bool) (s : Session) (w : Runtime F)
        → Follows n w
        → Follows n (motion_tick now at b s w).0
    unfolding motion_tick
    motion_tick-Follows n now at b s w f =
        if_either (λ (r : Runtime F × Session). Follows n r.0) _ (w, s) _ f
          (send_target-Follows n _ w f)

    pub polled-Follows :
        (n now : ℕ) (snapshot : SdkSnapshot) (w : Runtime F)
        → Follows n w
        → Follows n (apply_snapshot now snapshot (call polls w))
    unfolding apply_snapshot call nonzero_since
    polled-Follows n now snapshot w f = record { begun = ground arith; same = ground arith }

    arm-Still : (now : ℕ) (linked : Bool) (w : Runtime F) → Still w (arm_ready now linked w)
    arm-Still now linked w = record { calls = ground arith; sent = ground arith }

    pub state_poll-Follows :
        (n now : ℕ) (s : Session) (w : Runtime F) → Follows n w → Follows n (state_poll now s w).0
    unfolding state_poll call
    state_poll-Follows n now s w f =
        let snapshot = vendor.look (polls ∷ w.calls) in
        let polled : Runtime F = call polls w in
        let seen : Runtime F = apply_snapshot now snapshot polled in
        let owned : Runtime F = settle_orphan now seen in
        let armed : Runtime F = arm_ready now snapshot.sdk_linked owned in
        let g : Follows n seen = polled-Follows n now snapshot w f in
        if_either (λ (r : Runtime F × Session). Follows n r.0) _ (w, s) _ f
          (Still-Follows n armed _ (check-Still now snapshot armed) (
            Still-Follows n owned armed (arm-Still now snapshot.sdk_linked owned)
              (Still-Follows n seen owned (orphan-Still now seen) g)))

    pub periodic-Follows :
        (n now at : ℕ) (b : Bool) (s : Session) (w : Runtime F)
        → Follows n w
        → Follows n (periodic now at b s w).0
    unfolding periodic
    periodic-Follows n now at b s w f =
        let g = motion_tick-Follows n now at b s w f in
        state_poll-Follows n now _ _
          (if_either (Follows n) _ _ _ (Still-Follows n _ _ (settle-Still now _) g) g)
