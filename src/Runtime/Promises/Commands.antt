-- ===== src/Runtime/Promises/Commands.antt =====
-- The promise of a command that is executed.
use hypertron_sw01_ros2_brid.Prelude.{
  ℕ, subst, ◌≡◌, refl, Bool, false, ◌++◌, ◌∷◌, arith, Bool-cases, inl, inr, ◌∙◌, sym, ◌⊎◌,
}
use hypertron_sw01_ros2_brid.Prelude.Float.{FloatOps}
use hypertron_sw01_ros2_brid.Prelude.Text.{codes}
use hypertron_sw01_ros2_brid.Controller.Gate
use hypertron_sw01_ros2_brid.Runtime.Types.{
  Result, Vendor, Command, Runtime, set_promise, is_answered, complete_mode, call, moves, success,
  result, SdkCall, takes_authority, failure, res_failed,
}
use hypertron_sw01_ros2_brid.Runtime.Worker.{
  fail_mode_transition, is_mode, switch_mode, zero_and_switch, execute_command,
}
use hypertron_sw01_ros2_brid.Runtime.Promises.{is_queued, is_held, Keeps, Keeps-trans, Leaves-Keeps}

module _ {F : Type 0} ⦃float : FloatOps F⦄ ⦃vendor : Vendor F⦄ where
  -- The queue before the command was taken from it.
  abbrev pub untaken : Command → Runtime F → Runtime F
  untaken c w = record w {
    command_queue = record w.command_queue { items = c ∷ w.command_queue.items };
  }

  answer-Keeps :
      (now : ℕ) (r : Result) (c : Command) (w : Runtime F)
      → Keeps (untaken c w) (set_promise c.promise r (complete_mode now false w))
  unfolding set_promise is_held is_answered is_queued
  answer-Keeps now r c w = record {
    estop = λ h. ground arith;
    policy = ground arith;
    next = ground arith;
    tracked = λ p h. ground arith;
  }

  switch_mode-Keeps :
      (now : ℕ) (c : Command) (w : Runtime F)
      → w.mode_transition.active ≡ false
      → Keeps (untaken c w) (switch_mode now c w)
  unfolding switch_mode set_promise is_held is_answered is_queued call
  switch_mode-Keeps now c w i = record {
    estop = λ h. ground arith;
    policy = ground arith;
    next = ground arith;
    tracked = λ p h. ground arith;
  }

  -- The explicit zero.
  abbrev zeroed : Runtime F → Runtime F
  zeroed w = call (moves Gate.no_velocity) w

  abbrev unsent : Runtime F → Runtime F
  unsent w = record w { last_sent_nonzero = false }

  zero_and_switch-cases :
      (now : ℕ) (c : Command) (w : Runtime F)
      → (zero_and_switch now c w ≡ switch_mode now c w)
        ⊎ (zero_and_switch now c w ≡ switch_mode now c (unsent (zeroed w)))
        ⊎ ((r : Result) × (zero_and_switch now c w
              ≡ set_promise c.promise r (complete_mode now false (zeroed w))))
  unfolding zero_and_switch
  zero_and_switch-cases now c w = elim (Bool-cases w.last_sent_nonzero) [
    | inr still ↦ inl (ground arith)
    | inl moving ↦ elim (Bool-cases (success (result (zeroed w)))) [
      | inl sure ↦ inr (inl (ground arith))
      | inr refused ↦ inr (
          inr (
            failure (result (zeroed w)).code
                (codes "zero-velocity before mode switch failed: " ++ (result (zeroed w)).message),
            ground arith,
          ))
    ]
  ]

  untaken-zeroed : (c : Command) (w : Runtime F) → Keeps (untaken c w) (untaken c (zeroed w))
  unfolding call
  untaken-zeroed c w = Leaves-Keeps (untaken c w) (untaken c (zeroed w)) (record {
    engaged = refl;
    estop = refl;
    queue = refl;
    transition = refl;
    answers = refl;
    next = refl;
  })

  untaken-unsent : (c : Command) (w : Runtime F) → Keeps (untaken c w) (untaken c (unsent w))
  untaken-unsent c w = Leaves-Keeps (untaken c w) (untaken c (unsent w)) (record {
    engaged = refl;
    estop = refl;
    queue = refl;
    transition = refl;
    answers = refl;
    next = refl;
  })

  zeroed-idle : (w : Runtime F) → (zeroed w).mode_transition.active ≡ w.mode_transition.active
  unfolding call
  zeroed-idle w = refl

  zero_and_switch-Keeps :
      (now : ℕ) (c : Command) (w : Runtime F)
      → w.mode_transition.active ≡ false
      → Keeps (untaken c w) (zero_and_switch now c w)
  zero_and_switch-Keeps now c w i =
      let idle = zeroed-idle w ∙ i in
      elim (zero_and_switch-cases now c w) [
        | inl e ↦ subst (Keeps (untaken c w)) (sym e) (switch_mode-Keeps now c w i)
        | inr (inl e) ↦ subst (Keeps (untaken c w)) (sym e) (
            Keeps-trans _ _ _ (untaken-zeroed c w) (
              Keeps-trans _ _ _ (untaken-unsent c (zeroed w))
                (switch_mode-Keeps now c (unsent (zeroed w)) idle)))
        | inr (inr (r, e)) ↦
            subst (Keeps (untaken c w)) (sym e)
              (Keeps-trans _ _ _ (untaken-zeroed c w) (answer-Keeps now r c (zeroed w)))
      ]

  -- A superseded transition, with the command still in the queue.
  supersede-Keeps :
      (now : ℕ) (r : Result) (c : Command) (w : Runtime F)
      → Keeps (untaken c w) (untaken c (fail_mode_transition now r false w))
  unfolding fail_mode_transition set_promise is_held is_answered is_queued
  supersede-Keeps now r c w = record {
    estop = λ h. ground arith;
    policy = ground arith;
    next = ground arith;
    tracked = λ p h. ground arith;
  }

  failed-idle :
      (now : ℕ) (r : Result) (b : Bool) (w : Runtime F)
      → (fail_mode_transition now r b w).mode_transition.active ≡ false
  unfolding fail_mode_transition set_promise
  failed-idle now r b w = ground arith

  asked-Keeps :
      (c : Command) (r : Result) (s : SdkCall F) (w : Runtime F)
      → Keeps (untaken c w) (set_promise c.promise r (call s w))
  unfolding set_promise is_held is_answered is_queued call
  asked-Keeps c r s w = record {
    estop = λ h. ground arith;
    policy = ground arith;
    next = ground arith;
    tracked = λ p h. ground arith;
  }

  execute_command-cases :
      (now : ℕ) (c : Command) (w : Runtime F)
      → ((r : Result) × (s : SdkCall F) × (execute_command now c w
            ≡ set_promise c.promise r (call s w)))
        ⊎ ((r : Result) × (execute_command now c w
              ≡ zero_and_switch now c (fail_mode_transition now r false w)))
  unfolding execute_command
  execute_command-cases now c w = elim (Bool-cases (is_mode c.kind)) [
    | inl mode ↦ inr (
      failure res_failed (codes "mode transition superseded by a newer mode command"),
      ground arith,
    )
    | inr authority ↦ inl (
      result (call (takes_authority c.authority_sdk) w),
      takes_authority c.authority_sdk,
      ground arith,
    )
  ]

  pub execute_command-Keeps :
      (now : ℕ) (c : Command) (w : Runtime F) → Keeps (untaken c w) (execute_command now c w)
  execute_command-Keeps now c w = elim (execute_command-cases now c w) [
    | inl (r, s, e) ↦ subst (Keeps (untaken c w)) (sym e) (asked-Keeps c r s w)
    | inr (r, e) ↦ subst (Keeps (untaken c w)) (sym e) (
        Keeps-trans _ _ _ (supersede-Keeps now r c w) (
          zero_and_switch-Keeps now c (fail_mode_transition now r false w)
            (failed-idle now r false w)))
  ]
