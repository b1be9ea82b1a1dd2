-- ===== src/Runtime/Sent.antt =====
-- What the SDK last took of the runtime's velocities since a session began, and what it makes the motion
-- tick do.
use hypertron_sw01_ros2_brid.Prelude.{
  ℕ, ◌≡◌, ◌∙◌, sym, Bool, true, false, not, List, [], ◌∷◌, Option, none, some, length, inl, inr,
  if_either, ◌⊎◌, All,
}
use hypertron_sw01_ros2_brid.Prelude.Float.{FloatOps, FloatLaws}
use hypertron_sw01_ros2_brid.Controller.Gate
use hypertron_sw01_ros2_brid.Runtime.Types.{Vendor, Runtime, moves, success}
use hypertron_sw01_ros2_brid.Runtime.Requests.{stop}
use hypertron_sw01_ros2_brid.Runtime.Worker.{actuate_stop_if_authorized, handle_estop_if_requested}
use hypertron_sw01_ros2_brid.Runtime.Loop.{
  Session, is_nonzero, settle_orphan, take_refresh, run_command, heartbeat, motion_tick,
  after_heartbeat, iterate,
}
use hypertron_sw01_ros2_brid.Runtime.History.{
  Event, asks_authority, asks_mode, triggers, submits, reports, stops, connects, iterates, ends,
  connect, step, run,
}
use hypertron_sw01_ros2_brid.Runtime.Motion.{no_velocity-is_zero, send_target-zero}
use hypertron_sw01_ros2_brid.Runtime.Follows.{
  Follows, Still-Follows, begin-Follows, end-Follows, nonzero_since, actuate-Follows,
  handle_estop-Follows, run_command-Follows, heartbeat-Follows, motion_tick-Follows,
  periodic-Follows,
}
use hypertron_sw01_ros2_brid.Runtime.Still.{
  request_authority-Still, handle_status-Still, request_mode-Still, trigger_estop-Still,
  submit-Still, orphan-Still,
}

module _ {F : Type 0} ⦃float : FloatOps F⦄ ⦃vendor : Vendor F⦄ where
  abbrev pub is_connect : Event F → Bool
  is_connect (connects now) = true
  is_connect _ = false

  module _ (stands : is_nonzero {F = F} Gate.no_velocity ≡ false) where
    after_heartbeat-Follows :
        (n now at : ℕ) (b : Bool) (beat : Runtime F × Option Session)
        → Follows n beat.0
        → Follows n (after_heartbeat now at b beat).0
    after_heartbeat-Follows n now at b (w, none) f = f
    after_heartbeat-Follows n now at b (w, some s) f = periodic-Follows stands n now at b s w f

    iterate-Follows :
        (n now later at : ℕ) (s : Session) (w : Runtime F)
        → Follows n w
        → Follows n (iterate now later at s w).0
    unfolding iterate
    iterate-Follows n now later at s w f =
        let a : Runtime F = handle_estop_if_requested now w in
        let b : Runtime F = settle_orphan now a in
        let c : Runtime F = run_command later b in
        let fa : Follows n a = handle_estop-Follows stands n now w f in
        let fc : Follows n c =
          run_command-Follows stands n later b (Still-Follows n a b (orphan-Still now a) fa) in
        let fd : Follows n (take_refresh c) = record { begun = fc.begun; same = fc.same } in
        if_either (λ (r : Runtime F × Option Session). Follows n r.0) w.stop_requested
          (actuate_stop_if_authorized w, none) _ (actuate-Follows stands n w f)
          (if_either (λ (r : Runtime F × Option Session). Follows n r.0) w.link_drop_latched
            (w, none) _ f
            (after_heartbeat-Follows n now at c.motion_refresh_due
              (heartbeat now s (take_refresh c))
              (heartbeat-Follows stands n now s (take_refresh c) fd)))

    step-Follows :
        (n : ℕ) (w : Runtime F) (event : Event F)
        → is_connect event ≡ false
        → Follows n w
        → Follows n (step w event)
    unfolding step stop
    step-Follows n w (asks_authority sdk) h f =
        Still-Follows n w _ (request_authority-Still sdk w) f
    step-Follows n w (asks_mode now name between) h f =
        Still-Follows n w _ (request_mode-Still now name between w) f
    step-Follows n w (triggers now engage) h f =
        Still-Follows n w _ (trigger_estop-Still now engage w) f
    step-Follows n w (submits now v) h f = Still-Follows n w _ (submit-Still now v w) f
    step-Follows n w (reports (now, linked, authority)) h f =
        Still-Follows n w _ (handle_status-Still now linked authority w) f
    step-Follows n w stops h f = record { begun = f.begun; same = f.same }
    step-Follows n w (connects now) h f = cc
    step-Follows n w (iterates now later at s) h f = iterate-Follows n now later at s w f
    step-Follows n w (ends now) h f = end-Follows n now w f

    run-Follows :
        (n : ℕ) (w : Runtime F) (events : List (Event F))
        → All (λ event. is_connect event ≡ false) events
        → Follows n w
        → Follows n (run w events)
    unfolding run
    run-Follows n w [] h f = f
    run-Follows n w (event ∷ events) (h, hs) f =
        run-Follows n (step w event) events hs (step-Follows n w event h f)

  stopped_or_still :
      (now at : ℕ) (s : Session) (u : Runtime F)
      → is_nonzero {F = F} Gate.no_velocity ≡ false
      → (Gate.velocity_for_tick at u.controller).accepted ≡ false
      → let u' = (motion_tick now at true s u).0 in
        ((u.last_sent_nonzero ≡ true)
          × (u'.calls ≡ moves Gate.no_velocity ∷ u.calls)
          × (u'.last_sent_nonzero
              ≡ not (success (vendor.answer (moves Gate.no_velocity ∷ u.calls)))))
        ⊎ ((u.last_sent_nonzero ≡ false) × (u' ≡ u))
  unfolding motion_tick
  stopped_or_still now at s u stands r = rw (r, motion_tick) (send_target-zero u stands)

  -- Under the laws of floating point equality: after a session began and whatever followed but another
  -- session, a motion tick that is due and that the safety gate rejects sends the zero velocity exactly
  -- if the last velocity that the SDK took since the session began is not zero, by a tick, a mode
  -- command or a stop; and then that is so still, for the next tick, exactly if the SDK refused the
  -- zero. Otherwise the tick does nothing.
  pub rejected_tick-stops :
      FloatLaws F float
      → (w : Runtime F) (events : List (Event F)) (start now at : ℕ) (s : Session)
      → All (λ event. is_connect event ≡ false) events
      → (Gate.velocity_for_tick at (run (connect start w) events).controller).accepted ≡ false
      → let n = length w.calls in
        let u = run (connect start w) events in
        let u' = (motion_tick now at true s u).0 in
        ((nonzero_since n u.calls ≡ true)
          × (u'.calls ≡ moves Gate.no_velocity ∷ u.calls)
          × (nonzero_since n u'.calls
              ≡ not (success (vendor.answer (moves Gate.no_velocity ∷ u.calls)))))
        ⊎ ((nonzero_since n u.calls ≡ false) × (u' ≡ u))
  unfolding motion_tick
  rejected_tick-stops laws w events start now at s h r =
      let stands = no_velocity-is_zero laws in
      let n = length w.calls in
      let u : Runtime F = run (connect start w) events in
      let f : Follows n u =
        run-Follows stands n (connect start w) events h (begin-Follows start w) in
      let g : Follows n (motion_tick now at true s u).0 =
        motion_tick-Follows stands n now at true s u f in
      elim (stopped_or_still now at s u stands r) [
        | inl (moving, sent, kept) ↦ inl (sym f.same ∙ moving, sent, sym g.same ∙ kept)
        | inr (still, same) ↦ inr (sym f.same ∙ still, same)
      ]
