-- ===== src/Controller/Transition.antt =====
-- What a mode request does to motion, over the history that follows.
use hypertron_sw01_ros2_brid.Prelude.{
  ℕ, ◌≡◌, ◌≢◌, ◌⊎◌, inl, inr, Bool, true, false, List, [], ◌∷◌, arith, sym, ◌∙◌,
}
use hypertron_sw01_ros2_brid.Prelude.Float.{FloatOps}
use hypertron_sw01_ros2_brid.Prelude.Text.{Bytes}
use hypertron_sw01_ros2_brid.Controller.Data.{Controller}
use hypertron_sw01_ros2_brid.Controller.Modes.{mode_move}
use hypertron_sw01_ros2_brid.Controller.Gate.{request_mode, request_normalized, velocity_for_tick}
use hypertron_sw01_ros2_brid.Controller.Step.{
  Call, accepts, stops, clears, requests, completes, readies, invalidates, updates, step, run,
}
use hypertron_sw01_ros2_brid.Controller.Latch.{any_call, is_success, run-closed}

module _ {F : Type 0} ⦃float : FloatOps F⦄ where
  abbrev pub is_request : Call F → Bool
  is_request (requests name) = true
  is_request _ = false

  -- Neither open to motion, nor on the way to it.
  abbrev IsShut : Controller F → Type 0
  IsShut c = (c.motion_transition_gate ≡ true) × (c.pending_mode ≢ mode_move)

  step-IsShut :
      (c : Controller F) (now : ℕ) (call : Call F)
      → is_request call ≡ false
      → IsShut c
      → IsShut (step c (now, call))
  unfolding step
  step-IsShut c now (accepts v) n h = ground arith
  step-IsShut c now stops n h = ground arith
  step-IsShut c now clears n h = ground arith
  step-IsShut c now (requests name) n h = cc
  step-IsShut c now (completes success) n h = ground arith
  step-IsShut c now (readies ready) n h = ground arith
  step-IsShut c now invalidates n h = ground arith
  step-IsShut c now (updates state) n h = ground arith

  run-IsShut :
      (c : Controller F) (calls : List (ℕ × Call F))
      → any_call is_request calls ≡ false
      → IsShut c
      → IsShut (run c calls)
  unfolding run
  run-IsShut c [] n h = h
  run-IsShut c ((now, call) ∷ calls) n h =
      run-IsShut (step c (now, call)) calls (ground arith) (step-IsShut c now call (ground arith) h)

  accepted_mode :
      (now : ℕ) (name : Bytes) (c : Controller F)
      → (request_mode now name c).1.accepted ≡ true
      → ((request_mode now name c).0.motion_transition_gate ≡ true)
        × ((request_mode now name c).0.pending_mode ≡ (request_mode now name c).1.mode)
  unfolding request_mode request_normalized
  accepted_mode now name c h = ground arith

  -- After an accepted mode request no tick sends a velocity as long as no mode transition completes
  -- with success; and if the mode is not the move mode, then, whatever completes, not before a mode is
  -- requested again.
  pub request_mode-stills :
      (c : Controller F) (at now : ℕ) (name : Bytes) (calls : List (ℕ × Call F))
      → (request_mode at name c).1.accepted ≡ true
      → (any_call is_success calls ≡ false)
        ⊎ (((request_mode at name c).1.mode ≢ mode_move) × (any_call is_request calls ≡ false))
      → (velocity_for_tick now (run (request_mode at name c).0 calls)).accepted ≡ false
  unfolding velocity_for_tick
  request_mode-stills c at now name calls h (inl n) =
      ground (arith, run-closed (request_mode at name c).0 calls n (accepted_mode at name c h).0)
  request_mode-stills c at now name calls h (inr (m, n)) =
      let a = accepted_mode at name c h in
      ground (arith, run-IsShut (request_mode at name c).0 calls n (a.0, λ e. m (sym a.1 ∙ e)))
