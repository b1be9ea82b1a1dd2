-- ===== src/Controller/Gate.antt =====
-- The methods of `RobotController`.
use hypertron_sw01_ros2_brid.Prelude.{
  ℕ, zero, suc, ◌-◌, Bool, true, false, ◌&&◌, ◌||◌, not, Option, none, some, [], ◌++◌,
  if◌then◌else◌, ltb, ◌==◌,
}
use hypertron_sw01_ros2_brid.Prelude.Int.{ℤ, pos, negsuc}
use hypertron_sw01_ros2_brid.Prelude.Float.{FloatOps, clamp}
use hypertron_sw01_ros2_brid.Prelude.Text.{Bytes, codes}
use hypertron_sw01_ros2_brid.Controller.Data.{
  BridgeError, protocol, invalid_command, timeout, sdk_disconnected, no_control_authority,
  emergency_stop_latched, robot_system_error, VelocityPayload, ControllerStatus, no_status,
  VelocityDecision, ModeDecision, EstopDecision, Controller,
}
use hypertron_sw01_ros2_brid.Controller.Modes.{normalized_mode, find_mode, mode_damping, mode_move}

abbrev pub sport_state_move : ℕ
sport_state_move = 0xB104

abbrev refused : ℕ → BridgeError → Bytes → ModeDecision
refused mode e why = record { accepted = false; mode = mode; error = e; reason = why }

module _ {F : Type 0} ⦃float : FloatOps F⦄ where
  abbrev pub no_velocity : VelocityPayload F
  no_velocity = record { vx = float.zero_value; vy = float.zero_value; vyaw = float.zero_value }

  -- The constructor, whose deadman is a signed count of milliseconds; `none` is its
  -- `std::invalid_argument`.
  unfoldable pub construct : ℤ → Option (Controller F)
  construct (negsuc n) = none
  construct (pos zero) = none
  construct (pos (suc n)) = some (record {
    command_deadman = suc n;
    status = no_status;
    latest_velocity = no_velocity;
    last_velocity_time = 0;
    has_velocity = false;
    estop_latched = false;
    driver_ready = false;
    motion_transition_gate = false;
    mode_transition_pending = false;
    pending_mode = 0;
  })

  unfoldable pub movement_ready : Controller F → Bool
  movement_ready c =
      c.driver_ready
      && (not c.motion_transition_gate
          && (not c.mode_transition_pending
              && (c.status.sdk_linked
                  && (c.status.control_authority
                      && (c.status.sport_status == sport_state_move
                          && (c.status.error_code == 0 && not c.estop_latched))))))

  unfoldable pub force_zero : ℕ → Controller F → Controller F
  force_zero now c = record c {
    latest_velocity = no_velocity;
    has_velocity = false;
    last_velocity_time = now;
  }

  abbrev rejected : BridgeError → Bytes → VelocityDecision F
  rejected e why = record { accepted = false; value = no_velocity; error = e; reason = why }

  abbrev accepted_velocity : VelocityPayload F → VelocityDecision F
  accepted_velocity v = record { accepted = true; value = v; error = protocol; reason = [] }

  unfoldable pub rejection : Controller F → VelocityDecision F
  rejection c =
      if not c.driver_ready
      then rejected protocol (codes "driver readiness gate is not armed")
      else if not c.status.sdk_linked
      then rejected sdk_disconnected (codes "ASTRALL SDK is disconnected")
      else if not (c.status.error_code == 0)
      then rejected robot_system_error (codes "robot system error is active")
      else if not c.status.control_authority
      then rejected no_control_authority (codes "ASTRALL control authority is unavailable")
      else if c.estop_latched
      then rejected emergency_stop_latched (codes "software emergency stop is latched")
      else if c.motion_transition_gate || c.mode_transition_pending
      then rejected invalid_command (codes "motion is gated by a mode transition")
      else rejected invalid_command (codes "robot is not in all-terrain Move state")

  abbrev pub is_finite_velocity : VelocityPayload F → Bool
  is_finite_velocity v =
      not
        (not (float.is_finite v.vx) || (not (float.is_finite v.vy) || not (float.is_finite v.vyaw)))

  abbrev pub clamped : VelocityPayload F → VelocityPayload F
  clamped v = record {
    vx = clamp v.vx float.minus_one float.one;
    vy = clamp v.vy float.minus_one float.one;
    vyaw = clamp v.vyaw float.minus_one float.one;
  }

  unfoldable pub accept_velocity :
      ℕ → VelocityPayload F → Controller F → Controller F × VelocityDecision F
  unfolding movement_ready force_zero rejection
  accept_velocity now command c =
      if not (is_finite_velocity command)
      then (
        force_zero now c,
        rejected invalid_command (codes "velocity contains a non-finite value"),
      )
      else if not (movement_ready c)
      then (force_zero now c, rejection (force_zero now c))
      else (
        record c {
          latest_velocity = clamped command;
          last_velocity_time = now;
          has_velocity = true;
        },
        accepted_velocity (clamped command),
      )

  unfoldable pub velocity_for_tick : ℕ → Controller F → VelocityDecision F
  unfolding movement_ready
  velocity_for_tick now c =
      if not (movement_ready c)
        || (not c.has_velocity || ltb c.command_deadman (now - c.last_velocity_time))
      then rejected timeout (codes "velocity deadman or safety gate")
      else accepted_velocity c.latest_velocity

  unfoldable pub trigger_estop : ℕ → Controller F → Controller F × EstopDecision
  unfolding force_zero
  trigger_estop now c = (
    force_zero now (record c { estop_latched = true }),
    record { accepted = true; latched = true; reason = codes "software emergency stop latched" },
  )

  unfoldable pub clear_estop : ℕ → Controller F → Controller F × EstopDecision
  unfolding force_zero
  clear_estop now c = (
    force_zero now (record c { estop_latched = false }),
    record {
      accepted = true;
      latched = false;
      reason = codes "software emergency stop cleared; a new velocity is required";
    },
  )

  -- `request_mode` once the name is found, under the lock.
  unfoldable pub request_known_mode : ℕ → ℕ → Controller F → Controller F × ModeDecision
  unfolding force_zero
  request_known_mode now mode c =
      if not c.driver_ready
      then (c, refused mode protocol (codes "driver readiness gate is not armed"))
      else if c.mode_transition_pending
      then (c, refused mode invalid_command (codes "another mode transition is pending"))
      else if not c.status.sdk_linked
      then (c, refused mode sdk_disconnected (codes "ASTRALL SDK is disconnected"))
      else if not (c.status.error_code == 0)
      then (c, refused mode robot_system_error (codes "robot system error is active"))
      else if not c.status.control_authority
      then (c, refused mode no_control_authority (codes "ASTRALL control authority is unavailable"))
      else if c.estop_latched && not (mode == mode_damping)
      then (c, refused mode emergency_stop_latched (codes "software emergency stop is latched"))
      else (
        force_zero now (record c {
          mode_transition_pending = true;
          pending_mode = mode;
          motion_transition_gate = true;
        }),
        record { accepted = true; mode = mode; error = protocol; reason = [] },
      )

  -- `request_mode` from the lookup of the normalized name on.
  unfoldable pub request_normalized : ℕ → Bytes → Controller F → Controller F × ModeDecision
  unfolding request_known_mode
  request_normalized now normalized c = elim (find_mode normalized) [
    | none ↦ (c, refused 0 invalid_command (codes "unknown robot mode: " ++ normalized))
    | some mode ↦ request_known_mode now mode c
  ]

  unfoldable pub request_mode : ℕ → Bytes → Controller F → Controller F × ModeDecision
  unfolding request_normalized
  request_mode now name c = request_normalized now (normalized_mode name) c

  unfoldable pub complete_mode_transition : ℕ → Bool → Controller F → Controller F
  unfolding force_zero
  complete_mode_transition now success c =
      let entered_move = success && (c.mode_transition_pending && c.pending_mode == mode_move) in
      force_zero now (record c {
        mode_transition_pending = false;
        pending_mode = 0;
        motion_transition_gate = not entered_move;
      })

  abbrev drop_transition : Controller F → Controller F
  drop_transition c = record c {
    mode_transition_pending = false;
    pending_mode = 0;
    motion_transition_gate = true;
  }

  unfoldable pub set_driver_ready : ℕ → Bool → Controller F → Controller F
  unfolding force_zero
  set_driver_ready now ready c =
      let c' : Controller F = record c { driver_ready = ready } in
      if not ready then force_zero now (drop_transition c') else c'

  unfoldable pub invalidate_connection : ℕ → Controller F → Controller F
  unfolding force_zero
  invalidate_connection now c = force_zero now (drop_transition (record c { driver_ready = false }))

  unfoldable pub update_robot_state : ℕ → ControllerStatus → Controller F → Controller F
  unfolding movement_ready force_zero
  update_robot_state now state c =
      let was_ready = movement_ready c in
      let c' : Controller F = record c { status = state } in
      let c'' : Controller F =
        if not state.sdk_linked || (not state.control_authority || not (state.error_code == 0))
        then drop_transition c'
        else c' in
      if (was_ready && not (movement_ready c''))
        || ((not was_ready && movement_ready c'') || not (movement_ready c''))
      then force_zero now c''
      else c''
