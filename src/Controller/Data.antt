-- ===== src/Controller/Data.antt =====
-- The types of robot_controller.hpp, and the state of a `RobotController`.
use hypertron_sw01_ros2_brid.Prelude.{ℕ, Bool, false}
use hypertron_sw01_ros2_brid.Prelude.Text.{Bytes}

pub data BridgeError : Type 0 where
  protocol feature_unavailable invalid_command timeout sdk_disconnected no_control_authority :
      BridgeError
  emergency_stop_latched robot_system_error sdk_call_failed : BridgeError

pub record VelocityPayload (F : Type 0) : Type 0 where
  pub vx : F
  pub vy : F
  pub vyaw : F

pub record ControllerStatus : Type 0 where
  pub sdk_linked : Bool
  pub control_authority : Bool
  pub sport_status : ℕ
  pub error_code : ℕ

abbrev pub no_status : ControllerStatus
no_status = record {
  sdk_linked = false;
  control_authority = false;
  sport_status = 0;
  error_code = 0;
}

pub record VelocityDecision (F : Type 0) : Type 0 where
  pub accepted : Bool
  pub value : VelocityPayload F
  pub error : BridgeError
  pub reason : Bytes

pub record ModeDecision : Type 0 where
  pub accepted : Bool
  pub mode : ℕ
  pub error : BridgeError
  pub reason : Bytes

pub record EstopDecision : Type 0 where
  pub accepted : Bool
  pub latched : Bool
  pub reason : Bytes

-- The members of `RobotController`; the mutex and the clock are not state of their own here.
pub record Controller (F : Type 0) : Type 0 where
  pub command_deadman : ℕ
  pub status : ControllerStatus
  pub latest_velocity : VelocityPayload F
  pub last_velocity_time : ℕ
  pub has_velocity : Bool
  pub estop_latched : Bool
  pub driver_ready : Bool
  pub motion_transition_gate : Bool
  pub mode_transition_pending : Bool
  pub pending_mode : ℕ
