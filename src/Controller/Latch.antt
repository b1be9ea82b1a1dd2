-- ===== src/Controller/Latch.antt =====
-- What a history must contain before the robot can move again after an emergency stop, and after a
-- lost connection.
use hypertron_sw01_ros2_brid.Prelude.{ℕ, ◌≡◌, refl, Bool, true, false, ◌||◌, List, [], ◌∷◌, arith}
use hypertron_sw01_ros2_brid.Prelude.Float.{FloatOps}
use hypertron_sw01_ros2_brid.Controller.Data.{Controller, VelocityPayload}
use hypertron_sw01_ros2_brid.Controller.Gate.{
  velocity_for_tick, accept_velocity, trigger_estop, clear_estop, invalidate_connection,
}
use hypertron_sw01_ros2_brid.Controller.Step.{
  Call, accepts, stops, clears, requests, completes, readies, invalidates, updates, step, run,
}

module _ {F : Type 0} ⦃float : FloatOps F⦄ where
  abbrev pub is_clear : Call F → Bool
  is_clear clears = true
  is_clear _ = false

  abbrev pub is_arming : Call F → Bool
  is_arming (readies ready) = ready
  is_arming _ = false

  abbrev pub is_success : Call F → Bool
  is_success (completes success) = success
  is_success _ = false

  abbrev pub is_accept : Call F → Bool
  is_accept (accepts v) = true
  is_accept _ = false

  -- Some call of the history passes the test.
  abbrev pub any_call : (Call F → Bool) → List (ℕ × Call F) → Bool
  any_call test [] = false
  any_call test ((now, call) ∷ calls) = test call || any_call test calls

  step-latched :
      (c : Controller F) (now : ℕ) (call : Call F)
      → is_clear call ≡ false
      → c.estop_latched ≡ true
      → (step c (now, call)).estop_latched ≡ true
  unfolding step
  step-latched c now (accepts v) n h = ground arith
  step-latched c now stops n h = ground arith
  step-latched c now clears n h = cc
  step-latched c now (requests name) n h = ground arith
  step-latched c now (completes success) n h = ground arith
  step-latched c now (readies ready) n h = ground arith
  step-latched c now invalidates n h = ground arith
  step-latched c now (updates state) n h = ground arith

  run-latched :
      (c : Controller F) (calls : List (ℕ × Call F))
      → any_call is_clear calls ≡ false
      → c.estop_latched ≡ true
      → (run c calls).estop_latched ≡ true
  unfolding run
  run-latched c [] n h = h
  run-latched c ((now, call) ∷ calls) n h =
      run-latched (step c (now, call)) calls (ground arith)
        (step-latched c now call (ground arith) h)

  -- After an emergency stop, as long as nobody clears it, whatever else is called (a lost and restored
  -- connection included), no tick sends a velocity, none is accepted, and the latch stays set.
  pub trigger_estop-holds :
      (c : Controller F) (at now : ℕ) (calls : List (ℕ × Call F)) (v : VelocityPayload F)
      → any_call is_clear calls ≡ false
      → let c' = run (trigger_estop at c).0 calls in
        ((velocity_for_tick now c').accepted ≡ false)
        × ((accept_velocity now v c').1.accepted ≡ false)
        × (c'.estop_latched ≡ true)
  unfolding trigger_estop velocity_for_tick accept_velocity
  trigger_estop-holds c at now calls v n =
      let latched : (run (trigger_estop at c).0 calls).estop_latched ≡ true =
        run-latched (trigger_estop at c).0 calls n refl in
      (ground arith, ground arith, latched)

  step-unheld :
      (c : Controller F) (now : ℕ) (call : Call F)
      → is_accept call ≡ false
      → c.has_velocity ≡ false
      → (step c (now, call)).has_velocity ≡ false
  unfolding step
  step-unheld c now (accepts v) n h = cc
  step-unheld c now stops n h = ground arith
  step-unheld c now clears n h = ground arith
  step-unheld c now (requests name) n h = ground arith
  step-unheld c now (completes success) n h = ground arith
  step-unheld c now (readies ready) n h = ground arith
  step-unheld c now invalidates n h = ground arith
  step-unheld c now (updates state) n h = ground arith

  run-unheld :
      (c : Controller F) (calls : List (ℕ × Call F))
      → any_call is_accept calls ≡ false
      → c.has_velocity ≡ false
      → (run c calls).has_velocity ≡ false
  unfolding run
  run-unheld c [] n h = h
  run-unheld c ((now, call) ∷ calls) n h =
      run-unheld (step c (now, call)) calls (ground arith) (step-unheld c now call (ground arith) h)

  -- Clearing an emergency stop replays nothing: until a new velocity is offered, no tick sends one,
  -- whatever else is called.
  pub clear_estop-replays_nothing :
      (c : Controller F) (at now : ℕ) (calls : List (ℕ × Call F))
      → any_call is_accept calls ≡ false
      → (velocity_for_tick now (run (clear_estop at c).0 calls)).accepted ≡ false
  unfolding velocity_for_tick clear_estop
  clear_estop-replays_nothing c at now calls n =
      ground (arith, run-unheld (clear_estop at c).0 calls n refl)

  step-unready :
      (c : Controller F) (now : ℕ) (call : Call F)
      → is_arming call ≡ false
      → c.driver_ready ≡ false
      → (step c (now, call)).driver_ready ≡ false
  unfolding step
  step-unready c now (accepts v) n h = ground arith
  step-unready c now stops n h = ground arith
  step-unready c now clears n h = ground arith
  step-unready c now (requests name) n h = ground arith
  step-unready c now (completes success) n h = ground arith
  step-unready c now (readies ready) n h = ground arith
  step-unready c now invalidates n h = ground arith
  step-unready c now (updates state) n h = ground arith

  run-unready :
      (c : Controller F) (calls : List (ℕ × Call F))
      → any_call is_arming calls ≡ false
      → c.driver_ready ≡ false
      → (run c calls).driver_ready ≡ false
  unfolding run
  run-unready c [] n h = h
  run-unready c ((now, call) ∷ calls) n h =
      run-unready (step c (now, call)) calls (ground arith)
        (step-unready c now call (ground arith) h)

  step-closed :
      (c : Controller F) (now : ℕ) (call : Call F)
      → is_success call ≡ false
      → c.motion_transition_gate ≡ true
      → (step c (now, call)).motion_transition_gate ≡ true
  unfolding step
  step-closed c now (accepts v) n h = ground arith
  step-closed c now stops n h = ground arith
  step-closed c now clears n h = ground arith
  step-closed c now (requests name) n h = ground arith
  step-closed c now (completes success) n h = ground arith
  step-closed c now (readies ready) n h = ground arith
  step-closed c now invalidates n h = ground arith
  step-closed c now (updates state) n h = ground arith

  pub run-closed :
      (c : Controller F) (calls : List (ℕ × Call F))
      → any_call is_success calls ≡ false
      → c.motion_transition_gate ≡ true
      → (run c calls).motion_transition_gate ≡ true
  unfolding run
  run-closed c [] n h = h
  run-closed c ((now, call) ∷ calls) n h =
      run-closed (step c (now, call)) calls (ground arith) (step-closed c now call (ground arith) h)

  -- After a lost connection a tick sends a velocity only if, since then, the driver was declared ready
  -- again, a mode transition completed with success, and a new velocity was offered.
  pub invalidate-rearms :
      (c : Controller F) (at now : ℕ) (calls : List (ℕ × Call F))
      → (velocity_for_tick now (run (invalidate_connection at c) calls)).accepted ≡ true
      → (any_call is_arming calls ≡ true)
        × (any_call is_success calls ≡ true)
        × (any_call is_accept calls ≡ true)
  unfolding velocity_for_tick invalidate_connection
  invalidate-rearms c at now calls h =
      let c' : Controller F = invalidate_connection at c in
      (
        ground (arith, run-unready c' calls),
        ground (arith, run-closed c' calls),
        ground (arith, run-unheld c' calls),
      )
