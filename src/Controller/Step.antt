-- ===== src/Controller/Step.antt =====
-- The calls of a `RobotController` as one type, and histories of them. The other threads' calls are
-- serialized by the controller's mutex, so a history is any list of calls with their clock readings.
use hypertron_sw01_ros2_brid.Prelude.{ℕ, Bool, List, [], ◌∷◌}
use hypertron_sw01_ros2_brid.Prelude.Float.{FloatOps}
use hypertron_sw01_ros2_brid.Prelude.Text.{Bytes}
use hypertron_sw01_ros2_brid.Controller.Data.{Controller, ControllerStatus, VelocityPayload}
use hypertron_sw01_ros2_brid.Controller.Gate.{
  accept_velocity, trigger_estop, clear_estop, request_mode, complete_mode_transition,
  set_driver_ready, invalidate_connection, update_robot_state,
}

pub data Call (F : Type 0) : Type 0 where
  accepts : VelocityPayload F → Call F
  stops : Call F
  clears : Call F
  requests : Bytes → Call F
  completes : Bool → Call F
  readies : Bool → Call F
  invalidates : Call F
  updates : ControllerStatus → Call F

module _ {F : Type 0} ⦃float : FloatOps F⦄ where
  unfoldable pub step : Controller F → ℕ × Call F → Controller F
  unfolding accept_velocity trigger_estop clear_estop request_mode complete_mode_transition
      set_driver_ready invalidate_connection update_robot_state
  step c (now, accepts v) = (accept_velocity now v c).0
  step c (now, stops) = (trigger_estop now c).0
  step c (now, clears) = (clear_estop now c).0
  step c (now, requests name) = (request_mode now name c).0
  step c (now, completes success) = complete_mode_transition now success c
  step c (now, readies ready) = set_driver_ready now ready c
  step c (now, invalidates) = invalidate_connection now c
  step c (now, updates state) = update_robot_state now state c

  unfoldable pub run : Controller F → List (ℕ × Call F) → Controller F
  run c [] = c
  run c (call ∷ calls) = run (step c call) calls
