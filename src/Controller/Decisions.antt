-- ===== src/Controller/Decisions.antt =====
-- When the safety gate accepts a velocity or a mode, and what it then commands.
use hypertron_sw01_ros2_brid.Prelude.{
  All, ◌++◌, map, subst, ◌∙◌, sym, ℕ, ◌-◌, ◌≡◌, ◌≢◌, ◌↔◌, ap, true, false, some, none, arith, ◌⊎◌,
  inl, inr, Bool-cases, leb,
}
use hypertron_sw01_ros2_brid.Prelude.Float.{FloatOps, FloatLaws, clamp}
use hypertron_sw01_ros2_brid.Prelude.Text.{to_lower, Bytes}
use hypertron_sw01_ros2_brid.Controller.Data.{Controller, VelocityPayload}
use hypertron_sw01_ros2_brid.Controller.Modes.{
  normalized_mode, normalized_mode_idem, normalized_mode-padded, HeadSolid, LastSolid, IsBlank,
  find_mode, mode_damping,
}
use hypertron_sw01_ros2_brid.Controller.Gate.{
  movement_ready, is_finite_velocity, clamped, velocity_for_tick, accept_velocity, request_mode,
  request_normalized, sport_state_move,
}

module _ {F : Type 0} ⦃float : FloatOps F⦄ where
  -- The manual's conditions for motion.
  pub record IsMovable (c : Controller F) : Type 0 where
    pub ready : c.driver_ready ≡ true
    pub gate_open : c.motion_transition_gate ≡ false
    pub settled : c.mode_transition_pending ≡ false
    pub linked : c.status.sdk_linked ≡ true
    pub authorized : c.status.control_authority ≡ true
    pub in_move : c.status.sport_status ≡ sport_state_move
    pub healthy : c.status.error_code ≡ 0
    pub released : c.estop_latched ≡ false

  pub movement_ready-IsMovable : (c : Controller F) → (movement_ready c ≡ true) ↔ IsMovable c
  unfolding movement_ready
  movement_ready-IsMovable c = (λ h. ground arith, λ m. ground arith)

  -- A velocity is accepted exactly when its three components are finite and every condition for
  -- motion holds; then it is stored, clamped, and a later tick sends a velocity exactly while no more
  -- than the deadman has passed. If it is refused, no tick sends anything afterwards.
  pub accept_velocity_iff :
      (c : Controller F) (now later : ℕ) (v : VelocityPayload F)
      → (((accept_velocity now v c).1.accepted ≡ true)
          × (is_finite_velocity v ≡ true)
          × IsMovable c
          × ((velocity_for_tick later (accept_velocity now v c).0).accepted
              ≡ leb (later - now) c.command_deadman)
          × ((accept_velocity now v c).0.latest_velocity ≡ clamped v))
        ⊎ (((accept_velocity now v c).1.accepted ≡ false)
            × ((is_finite_velocity v ≡ false) ⊎ (¬ IsMovable c))
            × ((velocity_for_tick later (accept_velocity now v c).0).accepted ≡ false))
  unfolding accept_velocity velocity_for_tick
  accept_velocity_iff c now later v = elim (Bool-cases (is_finite_velocity v)) [
    | inr bad ↦ inr (ground arith, inl bad, ground arith)
    | inl finite ↦ elim (Bool-cases (movement_ready c)) [
      | inl moving ↦
          inl (
            ground arith,
            finite,
            (movement_ready-IsMovable c).0 moving,
            ground arith,
            ground arith,
          )
      | inr still ↦
          inr (ground arith, inr (λ m. cc ((movement_ready-IsMovable c).1 m)), ground arith)
    ]
  ]

  abbrev pub InRange : F → Type 0
  InRange x =
      (float.is_finite x ≡ true)
      × (float.lt x float.minus_one ≡ false)
      × (float.lt float.one x ≡ false)

  clamp-InRange :
      FloatLaws F float
      → (x : F) → float.is_finite x ≡ true
      → InRange (clamp x float.minus_one float.one)
  clamp-InRange laws x h = ground (
    arith,
    laws.lt_irrefl float.one,
    laws.lt_irrefl float.minus_one,
    laws.not_one_lt_minus_one,
    laws.one_is_finite,
    laws.minus_one_is_finite,
  )

  -- Under the laws of floating point numbers, each component of the velocity that an accepted command
  -- stores and reports is finite, not below -1 and not above 1.
  pub accept_velocity-InRange :
      FloatLaws F float
      → (c : Controller F) (now : ℕ) (v : VelocityPayload F)
      → (accept_velocity now v c).1.accepted ≡ true
      → InRange (accept_velocity now v c).0.latest_velocity.vx
        × InRange (accept_velocity now v c).0.latest_velocity.vy
        × InRange (accept_velocity now v c).0.latest_velocity.vyaw
        × ((accept_velocity now v c).1.value ≡ (accept_velocity now v c).0.latest_velocity)
  unfolding accept_velocity
  accept_velocity-InRange laws c now v h =
      let x : InRange (clamp v.vx float.minus_one float.one) =
        clamp-InRange laws v.vx (ground arith) in
      let y : InRange (clamp v.vy float.minus_one float.one) =
        clamp-InRange laws v.vy (ground arith) in
      let z : InRange (clamp v.vyaw float.minus_one float.one) =
        clamp-InRange laws v.vyaw (ground arith) in
      ground arith

  -- Blanks around the name of a mode and the case of its letters make no difference: with any blanks in
  -- front of and behind a text that neither begins nor ends with one, `request_mode` looks up exactly
  -- that text in lower case, and gives the same result and the same state as for it.
  pub request_mode-padded :
      (now : ℕ) (front text back : Bytes) (c : Controller F)
      → All IsBlank front
      → All IsBlank back
      → HeadSolid text
      → LastSolid text
      → (normalized_mode (front ++ (text ++ back)) ≡ map to_lower text)
        × (request_mode now (front ++ (text ++ back)) c ≡ request_mode now (map to_lower text) c)
  unfolding request_mode
  request_mode-padded now front text back c f b h l =
      let e = normalized_mode-padded front text back f b h l in
      let lower : normalized_mode (map to_lower text) ≡ map to_lower text =
        subst (λ x. normalized_mode x ≡ x) e (normalized_mode_idem (front ++ (text ++ back))) in
      (e, ap (λ x. request_normalized now x c) (e ∙ sym lower))

  -- A mode request is accepted exactly when the name is known, the driver is ready, no transition is
  -- pending, the link and the authority are there, no error is active, and the emergency stop is
  -- released or the mode is damping; then the controller holds no velocity, and its motion gate stays
  -- closed until the transition completes. A refused request changes nothing.
  pub request_mode_iff :
      (now : ℕ) (name : Bytes) (c : Controller F)
      → let (c', d) = request_mode now name c in
        ((d.accepted ≡ true)
          × (find_mode (normalized_mode name) ≡ some d.mode)
          × (c.driver_ready ≡ true)
          × (c.mode_transition_pending ≡ false)
          × (c.status.sdk_linked ≡ true)
          × (c.status.control_authority ≡ true)
          × (c.status.error_code ≡ 0)
          × ((c.estop_latched ≡ false) ⊎ (d.mode ≡ mode_damping))
          × (c'.has_velocity ≡ false)
          × (c'.motion_transition_gate ≡ true)
          × (c'.mode_transition_pending ≡ true)
          × (c'.pending_mode ≡ d.mode))
        ⊎ ((d.accepted ≡ false)
            × (c' ≡ c)
            × ((find_mode (normalized_mode name) ≡ none)
                ⊎ (c.driver_ready ≡ false)
                ⊎ (c.mode_transition_pending ≡ true)
                ⊎ (c.status.sdk_linked ≡ false)
                ⊎ (c.status.control_authority ≡ false)
                ⊎ (c.status.error_code ≢ 0)
                ⊎ ((c.estop_latched ≡ true)
                    × (find_mode (normalized_mode name) ≢ some mode_damping))))
  unfolding request_mode
  request_mode_iff now name c = ground arith
