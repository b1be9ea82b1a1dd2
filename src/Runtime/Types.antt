-- ===== src/Runtime/Types.antt =====
-- The runtime's state, and the SDK as it sees it.
use hypertron_sw01_ros2_brid.Prelude.{
  ℕ, Bool, false, not, ◌||◌, List, [], ◌∷◌, Option, ◌==◌, if◌then◌else◌,
}
use hypertron_sw01_ros2_brid.Prelude.Text.{Bytes, codes, contains}
use hypertron_sw01_ros2_brid.Queue.{Queue}
use hypertron_sw01_ros2_brid.Prelude.Float.{FloatOps}
use hypertron_sw01_ros2_brid.Controller.Gate
use hypertron_sw01_ros2_brid.Controller.Data.{
  Controller, VelocityPayload, ModeDecision, BridgeError, invalid_command, sdk_disconnected,
  no_control_authority, protocol, feature_unavailable, timeout, emergency_stop_latched,
  robot_system_error, sdk_call_failed,
}

-- astrall_sdk.hpp: the result codes and `Result`.
abbrev pub res_failed : ℕ
res_failed = 0x8004

abbrev pub res_timeout : ℕ
res_timeout = 0x8005

abbrev pub res_running : ℕ
res_running = 0x8006

abbrev pub res_success : ℕ
res_success = 0x8008

abbrev pub res_invalid_param : ℕ
res_invalid_param = 0x8010

abbrev pub res_not_init : ℕ
res_not_init = 0x8011

abbrev pub res_without_auth : ℕ
res_without_auth = 0x8022

pub record Result : Type 0 where
  pub code : ℕ
  pub message : Bytes

abbrev pub success : Result → Bool
success r = r.code == res_success

abbrev pub ok : Bytes → Result
ok message = record { code = res_success; message = message }

abbrev pub failure : ℕ → Bytes → Result
failure code message = record { code = code; message = message }

-- The fields of a state snapshot that the runtime reads.
pub record SdkSnapshot : Type 0 where
  pub sdk_linked : Bool
  pub sport_status : ℕ
  pub error_code : ℕ

-- The entry points of `IAstrallSdk` that the worker calls.
pub data SdkCall (F : Type 0) : Type 0 where
  inits : SdkCall F
  deinits : SdkCall F
  heartbeats : SdkCall F
  takes_authority : Bool → SdkCall F
  subscribes_imu subscribes_sport subscribes_lidar : SdkCall F
  moves : VelocityPayload F → SdkCall F
  sets_mode : ℕ → SdkCall F
  polls : SdkCall F

-- The SDK is no code of the repository's: its answer to a call may depend on all calls so far, of
-- which the newest stands first.
pub record Vendor (F : Type 0) : Type 0 where
  pub answer : List (SdkCall F) → Result
  pub look : List (SdkCall F) → SdkSnapshot

-- `Command`; a promise is known by its number.
pub data Kind : Type 0 where
  request_authority_kind request_mode_kind : Kind

pub record Command : Type 0 where
  pub kind : Kind
  pub authority_sdk : Bool
  pub mode : ℕ
  pub promise : ℕ

pub record ModeTransition : Type 0 where
  pub active : Bool
  pub stable_status : ℕ
  pub deadline : ℕ
  pub promise : ℕ

pub record RuntimeConfig : Type 0 where
  pub heartbeat_max_failures : ℕ
  pub heartbeat_period : ℕ
  pub motion_refresh_period : ℕ
  pub mode_timeout : ℕ
  pub state_poll_period : ℕ
  pub enable_lidar_stream : Bool
  pub lidar_disabled : Bool
  pub reconnect_initial_delay : ℕ
  pub reconnect_max_delay : ℕ

-- The members of `DirectDriverRuntime`. `answers` holds the promises that are resolved, `next_promise`
-- numbers the next one, `calls` are the SDK calls made (the newest first), `events` what the observer
-- was told.
pub record Runtime (F : Type 0) : Type 0 where
  pub config : RuntimeConfig
  pub controller : Controller F
  pub stop_requested : Bool
  pub sdk_linked : Bool
  pub connected : Bool
  pub link_drop_latched : Bool
  pub control_authority : Bool
  pub last_snapshot_sport_status : ℕ
  pub last_snapshot_error_code : ℕ
  pub motion_refresh_due : Bool
  pub estop_engaged : Bool
  pub estop_promise : Option ℕ
  pub command_queue : Queue Command
  pub mode_transition : ModeTransition
  pub last_sent_nonzero : Bool
  pub driver_ready_armed : Bool
  pub answers : List (ℕ × Result)
  pub next_promise : ℕ
  pub calls : List (SdkCall F)
  pub events : List (ℕ × Bytes)

-- `stable_status_for`.
unfoldable pub stable_status_for : ℕ → ℕ
stable_status_for mode =
    if mode == 0xA101
    then 0xB101
    else if mode == 0xA102
    then 0xB102
    else if mode == 0xA103
    then 0xB103
    else if mode == 0xA104
    then 0xB104
    else if mode == 0xA105
    then 0xB107
    else if mode == 0xA106
    then 0xB10B
    else if mode == 0xA1FF
    then 0xB1FF
    else 0

-- The `switch` of `map_mode_rejection`.
abbrev map_rejection : BridgeError → Bytes → Result
map_rejection invalid_command reason =
    if contains (codes "pending") reason
    then failure res_running reason
    else failure res_invalid_param reason
map_rejection sdk_disconnected reason = failure res_not_init reason
map_rejection no_control_authority reason = failure res_without_auth reason
map_rejection protocol reason = failure res_failed reason
map_rejection feature_unavailable reason = failure res_failed reason
map_rejection timeout reason = failure res_failed reason
map_rejection emergency_stop_latched reason = failure res_failed reason
map_rejection robot_system_error reason = failure res_failed reason
map_rejection sdk_call_failed reason = failure res_failed reason

unfoldable pub map_mode_rejection : ModeDecision → Result
map_mode_rejection d = map_rejection d.error d.reason

-- A promise that is not resolved takes the answer; a second answer is discarded.
unfoldable pub is_answered : ℕ → List (ℕ × Result) → Bool
is_answered p [] = false
is_answered p ((q, r) ∷ rest) = q == p || is_answered p rest

abbrev pub add_answer : ℕ → Result → List (ℕ × Result) → List (ℕ × Result)
add_answer p r answers = if is_answered p answers then answers else (p, r) ∷ answers

module _ {F : Type 0} where
  unfoldable pub set_promise : ℕ → Result → Runtime F → Runtime F
  set_promise p r w = record w { answers = add_answer p r w.answers }

  unfoldable pub notify_event : ℕ → Bytes → Runtime F → Runtime F
  notify_event severity message w = record w { events = (severity, message) ∷ w.events }

  -- Makes an SDK call.
  unfoldable pub call : SdkCall F → Runtime F → Runtime F
  call c w = record w { calls = c ∷ w.calls }

  abbrev pub with_controller : Controller F → Runtime F → Runtime F
  with_controller c w = record w { controller = c }

  -- The result of the last SDK call.
  abbrev pub result : ⦃v : Vendor F⦄ → Runtime F → Result
  result ⦃v⦄ w = v.answer w.calls

  -- The tests that a request starts with.
  abbrev pub is_disconnected : Runtime F → Bool
  is_disconnected w =
      w.stop_requested || (not w.connected || (not w.sdk_linked || w.link_drop_latched))

module _ {F : Type 0} ⦃float : FloatOps F⦄ where
  -- `controller_.complete_mode_transition(success)`.
  abbrev pub complete_mode : ℕ → Bool → Runtime F → Runtime F
  complete_mode now success w =
      with_controller (Gate.complete_mode_transition now success w.controller) w
