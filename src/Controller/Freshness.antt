-- ===== src/Controller/Freshness.antt =====
-- How old the velocity that the controller sends may be.
use hypertron_sw01_ros2_brid.Prelude.{
  ℕ, zero, suc, ◌-◌, ◌≤◌, ◌≡◌, refl, true, false, List, [], ◌∷◌, Option, some, none, arith,
}
use hypertron_sw01_ros2_brid.Prelude.Int.{pos}
use hypertron_sw01_ros2_brid.Prelude.Float.{FloatOps}
use hypertron_sw01_ros2_brid.Controller.Data.{Controller, VelocityPayload}
use hypertron_sw01_ros2_brid.Controller.Gate.{
  construct, is_finite_velocity, clamped, velocity_for_tick, accept_velocity,
}
use hypertron_sw01_ros2_brid.Controller.Step.{
  Call, accepts, stops, clears, requests, completes, readies, invalidates, updates, step, run,
}
use hypertron_sw01_ros2_brid.Prelude.{◌∙◌}

module _ {F : Type 0} ⦃float : FloatOps F⦄ where
  abbrev offered : ℕ × Call F → Option (ℕ × VelocityPayload F) → Option (ℕ × VelocityPayload F)
  offered (now, accepts v) before = some (now, v)
  offered (now, stops) before = before
  offered (now, clears) before = before
  offered (now, requests name) before = before
  offered (now, completes success) before = before
  offered (now, readies ready) before = before
  offered (now, invalidates) before = before
  offered (now, updates state) before = before

  -- What is held is the last command offered, clamped, with the time at which it came.
  abbrev Holds : Controller F → Option (ℕ × VelocityPayload F) → Type 0
  Holds c none = c.has_velocity ≡ false
  Holds c (some (at, v)) =
      c.has_velocity ≡ true
      → (c.latest_velocity ≡ clamped v)
        × (c.last_velocity_time ≡ at)
        × (is_finite_velocity v ≡ true)

  -- Only `accept_velocity` stores a velocity; every other call keeps the stored one or zeroes it.
  step-keeps :
      (c : Controller F) (now : ℕ) (call : Call F)
      → offered (now, call) none ≡ none
      → (step c (now, call)).has_velocity ≡ true
      → (c.has_velocity ≡ true)
        × ((step c (now, call)).latest_velocity ≡ c.latest_velocity)
        × ((step c (now, call)).last_velocity_time ≡ c.last_velocity_time)
  unfolding step
  step-keeps c now (accepts v) o h = ground arith
  step-keeps c now stops o h = ground arith
  step-keeps c now clears o h = ground arith
  step-keeps c now (requests name) o h = ground arith
  step-keeps c now (completes success) o h = ground arith
  step-keeps c now (readies ready) o h = ground arith
  step-keeps c now invalidates o h = ground arith
  step-keeps c now (updates state) o h = ground arith

  Holds-keeps :
      (c c' : Controller F) (before : Option (ℕ × VelocityPayload F))
      → (c'.has_velocity ≡ true
          → (c.has_velocity ≡ true)
            × (c'.latest_velocity ≡ c.latest_velocity)
            × (c'.last_velocity_time ≡ c.last_velocity_time))
      → Holds c before
      → Holds c' before
  Holds-keeps c c' none k h = ground arith
  Holds-keeps c c' (some (at, v)) k h = λ held. ground (arith, k held, h (k held).0)

  accept-Holds :
      (c : Controller F) (now : ℕ) (v : VelocityPayload F)
      → Holds (accept_velocity now v c).0 (some (now, v))
  unfolding accept_velocity
  accept-Holds c now v = ground arith

  step-Holds :
      (c : Controller F) (call : ℕ × Call F) (before : Option (ℕ × VelocityPayload F))
      → Holds c before
      → Holds (step c call) (offered call before)
  step-Holds c (now, accepts v) b h = unfold step in accept-Holds c now v
  step-Holds c (now, stops) b h =
      Holds-keeps c (step c (now, stops)) b (step-keeps c now stops refl) h
  step-Holds c (now, clears) b h =
      Holds-keeps c (step c (now, clears)) b (step-keeps c now clears refl) h
  step-Holds c (now, requests name) b h =
      Holds-keeps c (step c (now, requests name)) b (step-keeps c now (requests name) refl) h
  step-Holds c (now, completes x) b h =
      Holds-keeps c (step c (now, completes x)) b (step-keeps c now (completes x) refl) h
  step-Holds c (now, readies x) b h =
      Holds-keeps c (step c (now, readies x)) b (step-keeps c now (readies x) refl) h
  step-Holds c (now, invalidates) b h =
      Holds-keeps c (step c (now, invalidates)) b (step-keeps c now invalidates refl) h
  step-Holds c (now, updates state) b h =
      Holds-keeps c (step c (now, updates state)) b (step-keeps c now (updates state) refl) h

  abbrev latest :
      Option (ℕ × VelocityPayload F) → List (ℕ × Call F) → Option (ℕ × VelocityPayload F)
  latest before [] = before
  latest before (call ∷ calls) = latest (offered call before) calls

  -- The last command of a history that was offered to the controller, and when.
  abbrev pub last_command : List (ℕ × Call F) → Option (ℕ × VelocityPayload F)
  last_command calls = latest none calls

  run-Holds :
      (c : Controller F) (calls : List (ℕ × Call F)) (before : Option (ℕ × VelocityPayload F))
      → Holds c before
      → Holds (run c calls) (latest before calls)
  unfolding run
  run-Holds c [] before h = h
  run-Holds c (call ∷ calls) before h =
      run-Holds (step c call) calls (offered call before) (step-Holds c call before h)

  step-deadman :
      (c : Controller F) (call : ℕ × Call F) → (step c call).command_deadman ≡ c.command_deadman
  unfolding step
  step-deadman c (now, accepts v) = ground arith
  step-deadman c (now, stops) = refl
  step-deadman c (now, clears) = refl
  step-deadman c (now, requests name) = ground arith
  step-deadman c (now, completes x) = refl
  step-deadman c (now, readies x) = ground arith
  step-deadman c (now, invalidates) = refl
  step-deadman c (now, updates state) = ground arith

  run-deadman :
      (c : Controller F) (calls : List (ℕ × Call F))
      → (run c calls).command_deadman ≡ c.command_deadman
  unfolding run
  run-deadman c [] = refl
  run-deadman c (call ∷ calls) = run-deadman (step c call) calls ∙ step-deadman c call

  tick-held :
      (c : Controller F) (now : ℕ) (before : Option (ℕ × VelocityPayload F))
      → Holds c before
      → (velocity_for_tick now c).accepted ≡ true
      → (at : ℕ) × (v : VelocityPayload F) × (before ≡ some (at, v))
        × ((velocity_for_tick now c).value ≡ clamped v)
        × (is_finite_velocity v ≡ true)
        × (now - at ≤ c.command_deadman)
  unfolding velocity_for_tick
  tick-held c now none h a = ground arith
  tick-held c now (some (at, v)) h a =
      let held : c.has_velocity ≡ true = ground arith in
      (at, v, refl, ground (arith, h held), (h held).2, ground (arith, h held))

  -- Over any history from the constructor on: when a tick sends a velocity, that is the last command
  -- offered to the controller, clamped; the command was finite, and it came no longer ago than the
  -- command deadman.
  pub tick-is_fresh :
      (deadman : ℕ) (c : Controller F) (calls : List (ℕ × Call F)) (now : ℕ)
      → construct (pos deadman) ≡ some c
      → (velocity_for_tick now (run c calls)).accepted ≡ true
      → (at : ℕ) × (v : VelocityPayload F) × (last_command calls ≡ some (at, v))
        × ((velocity_for_tick now (run c calls)).value ≡ clamped v)
        × (is_finite_velocity v ≡ true)
        × (now - at ≤ deadman)
  unfolding construct
  tick-is_fresh zero c calls now h a = ground arith
  tick-is_fresh (suc d) c calls now h a =
      let nothing : Holds c none = ground arith in
      let (at, v, e, value, finite, age) =
        tick-held (run c calls) now (last_command calls) (run-Holds c calls none nothing) a in
      (at, v, e, value, finite, ground (arith, age, run-deadman c calls))
