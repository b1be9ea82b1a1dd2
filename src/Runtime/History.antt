-- ===== src/Runtime/History.antt =====
-- Whole histories of the runtime: what its clients, the vendor's status callback and the worker do,
-- in any order.
use hypertron_sw01_ros2_brid.Prelude.{ℕ, Bool, true, false, List, [], ◌∷◌, Option, none, some}
use hypertron_sw01_ros2_brid.Prelude.Int.{ℤ}
use hypertron_sw01_ros2_brid.Prelude.Text.{Bytes}
use hypertron_sw01_ros2_brid.Prelude.Float.{FloatOps}
use hypertron_sw01_ros2_brid.Queue
use hypertron_sw01_ros2_brid.Queue.{Queue, reject_new}
use hypertron_sw01_ros2_brid.Controller.Data.{Controller, VelocityPayload}
use hypertron_sw01_ros2_brid.Controller.Gate
use hypertron_sw01_ros2_brid.Runtime.Types.{Vendor, Runtime, RuntimeConfig, Command}
use hypertron_sw01_ros2_brid.Runtime.Requests.{
  request_authority, request_mode, trigger_estop, handle_status, submit_velocity, stop,
}
use hypertron_sw01_ros2_brid.Runtime.Loop.{Session, iterate, begin_session, end_session}

-- A report of the status callback: its time, the link and the authority.
abbrev pub Report : Type 0
Report = ℕ × Bool × Bool

-- One thing that a client, the callback or the worker does; the numbers are clock readings. The local
-- variables of the worker's loop are part of an iteration.
pub data Event (F : Type 0) : Type 0 where
  asks_authority : Bool → Event F
  asks_mode : ℕ → Bytes → List Report → Event F
  triggers : ℕ → Bool → Event F
  submits : ℕ → VelocityPayload F → Event F
  reports : Report → Event F
  stops : Event F
  connects : ℕ → Event F
  iterates : ℕ → ℕ → ℕ → Session → Event F
  ends : ℕ → Event F

module _ {F : Type 0} ⦃float : FloatOps F⦄ where
  -- The constructor, with the deadman and the capacity of its configuration; `none` stands for the
  -- exceptions of its members.
  abbrev pub made :
      RuntimeConfig → Option (Controller F) → Option (Queue Command) → Option (Runtime F)
  made config none q = none
  made config (some c) none = none
  made config (some c) (some q) = some (record {
    config = config;
    controller = c;
    stop_requested = false;
    sdk_linked = false;
    connected = false;
    link_drop_latched = false;
    control_authority = false;
    last_snapshot_sport_status = 0;
    last_snapshot_error_code = 0;
    motion_refresh_due = false;
    estop_engaged = false;
    estop_promise = none;
    command_queue = q;
    mode_transition = record { active = false; stable_status = 0; deadline = 0; promise = 0 };
    last_sent_nonzero = false;
    driver_ready_armed = false;
    answers = [];
    next_promise = 0;
    calls = [];
    events = [];
  })

  unfoldable pub construct : RuntimeConfig → ℤ → ℕ → Option (Runtime F)
  construct config deadman capacity =
      made config (Gate.construct deadman) (Queue.construct capacity reject_new)

  abbrev pub report_all : List Report → Runtime F → Runtime F
  report_all [] w = w
  report_all ((now, linked, authority) ∷ rs) w =
      report_all rs (handle_status now linked authority w)

  -- `connected_ = true`, and the start of the loop.
  abbrev pub connect : ℕ → Runtime F → Runtime F
  connect now w = (begin_session now (record w { connected = true })).0

module _ {F : Type 0} ⦃float : FloatOps F⦄ ⦃vendor : Vendor F⦄ where
  unfoldable pub step : Runtime F → Event F → Runtime F
  step w (asks_authority sdk) = (request_authority sdk w).0
  step w (asks_mode now name between) = (request_mode now name (report_all between) w).0
  step w (triggers now engage) = (trigger_estop now engage w).0
  step w (submits now v) = submit_velocity now v w
  step w (reports (now, linked, authority)) = handle_status now linked authority w
  step w stops = stop w
  step w (connects now) = connect now w
  step w (iterates now later at s) = (iterate now later at s w).0
  step w (ends now) = end_session now w

  unfoldable pub run : Runtime F → List (Event F) → Runtime F
  run w [] = w
  run w (event ∷ events) = run (step w event) events
