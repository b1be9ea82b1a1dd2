-- ===== src/Controller/Invariant.antt =====
-- What holds of a `RobotController` after any history of calls.
use hypertron_sw01_ros2_brid.Prelude.{ℕ, ◌≡◌, true, false, List, [], ◌∷◌, some, arith, ◌⊎◌}
use hypertron_sw01_ros2_brid.Prelude.Int.{ℤ}
use hypertron_sw01_ros2_brid.Prelude.Float.{FloatOps}
use hypertron_sw01_ros2_brid.Controller.Data.{Controller}
use hypertron_sw01_ros2_brid.Controller.Gate.{construct, movement_ready, no_velocity}
use hypertron_sw01_ros2_brid.Controller.Step.{
  Call, accepts, stops, clears, requests, completes, readies, invalidates, updates, step, run,
}

module _ {F : Type 0} ⦃float : FloatOps F⦄ where
  -- A velocity is held only while every motion gate is open, a pending transition closes the motion
  -- gate, and what is not held is zero.
  pub record IsGated (c : Controller F) : Type 0 where
    pub moving : (c.has_velocity ≡ false) ⊎ (movement_ready c ≡ true)
    pub pending : (c.mode_transition_pending ≡ false) ⊎ (c.motion_transition_gate ≡ true)
    pub idle : (c.mode_transition_pending ≡ true) ⊎ (c.pending_mode ≡ 0)
    pub zeroed : (c.has_velocity ≡ true) ⊎ (c.latest_velocity ≡ no_velocity)

  step-IsGated : (c : Controller F) (call : ℕ × Call F) → IsGated c → IsGated (step c call)
  unfolding step
  step-IsGated c (now, accepts v) g = ground arith
  step-IsGated c (now, stops) g = ground arith
  step-IsGated c (now, clears) g = ground arith
  step-IsGated c (now, requests name) g = ground arith
  step-IsGated c (now, completes success) g = ground arith
  step-IsGated c (now, readies ready) g = ground arith
  step-IsGated c (now, invalidates) g = ground arith
  step-IsGated c (now, updates state) g = ground arith

  run-IsGated : (c : Controller F) (calls : List (ℕ × Call F)) → IsGated c → IsGated (run c calls)
  unfolding run
  run-IsGated c [] g = g
  run-IsGated c (call ∷ calls) g = run-IsGated (step c call) calls (step-IsGated c call g)

  construct-IsGated : (deadman : ℤ) {c : Controller F} → construct deadman ≡ some c → IsGated c
  unfolding construct movement_ready
  construct-IsGated deadman h = ground arith

  -- From the constructor on, over any history: a velocity is held only while all motion gates are
  -- open, a pending mode transition keeps the motion gate closed, without one no mode is pending, and
  -- without a held velocity the stored one is zero.
  pub run-construct-IsGated :
      (deadman : ℤ) (c : Controller F) (calls : List (ℕ × Call F))
      → construct deadman ≡ some c
      → IsGated (run c calls)
  run-construct-IsGated deadman c calls h = run-IsGated c calls (construct-IsGated deadman h)
