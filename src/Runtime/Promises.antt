-- ===== src/Runtime/Promises.antt =====
-- Where the promises of the callers are: answered, or held in exactly the places that the worker
-- answers from.
pub mod Stop
pub mod Commands
pub mod Iteration
pub mod Issue
pub mod Estop
use hypertron_sw01_ros2_brid.Prelude.{
  ℕ, zero, suc, ◌+◌, ◌<◌, ◌≤◌, List-cases, subst, ◌≡◌, refl, Bool, true, false, not, ◌||◌, ◌&&◌,
  ◌++◌, Option, none, some, ◌==◌, leb, if◌then◌else◌, List, [], ◌∷◌, arith, Bool-cases,
  Option-cases, inl, inr, length, ◌∙◌, sym, ap, ◌⊎◌,
}
use hypertron_sw01_ros2_brid.Prelude.Float.{FloatOps}
use hypertron_sw01_ros2_brid.Prelude.Text.{codes}
use hypertron_sw01_ros2_brid.Queue
use hypertron_sw01_ros2_brid.Controller.Gate
use hypertron_sw01_ros2_brid.Queue.{Queue, reject_new, try_pop, pop_locked, push, size}
use hypertron_sw01_ros2_brid.Runtime.Types.{
  Result, Vendor, Command, Runtime, SdkSnapshot, set_promise, notify_event, is_answered,
  complete_mode, call, moves, success, result, SdkCall, takes_authority, failure, res_failed,
}
use hypertron_sw01_ros2_brid.Runtime.Worker.{
  fail_mode_transition, settle_mode_transition_timeout, check_mode_transition, fail_all_pending,
  drain, abort_command, invalidate_session, send_zero_and_damping, actuate_stop_if_authorized,
  abort_for_estop, stop_robot, may_actuate, is_mode, lost_during_estop, answer_estop,
  handle_estop_if_requested, switch_mode, zero_and_switch, execute_command,
}

unfoldable pub is_queued : ℕ → List Command → Bool
is_queued p [] = false
is_queued p (c ∷ cs) = c.promise == p || is_queued p cs

abbrev pub waits_for : ℕ → Option ℕ → Bool
waits_for p none = false
waits_for p (some q) = q == p

abbrev pub is_some : {A : Type 0} → Option A → Bool
is_some none = false
is_some (some a) = true

module _ {F : Type 0} where
  -- The promise waits in the queue, in the mode transition or in the emergency stop.
  unfoldable pub is_held : ℕ → Runtime F → Bool
  is_held p w =
      is_queued p w.command_queue.items
      || (w.mode_transition.active && w.mode_transition.promise == p || waits_for p w.estop_promise)

  abbrev pub is_tracked : ℕ → Runtime F → Bool
  is_tracked p w = is_answered p w.answers || is_held p w

  -- The emergency stop's promise is there exactly while the stop is requested, the queue rejects new
  -- commands when it is full, and every promise ever issued is answered or held.
  pub record IsAccounted (w : Runtime F) : Type 0 where
    pub estop : w.estop_engaged ≡ is_some w.estop_promise
    pub policy : w.command_queue.policy ≡ reject_new
    pub tracked : (p : ℕ) → p < w.next_promise → is_tracked p w ≡ true

  -- The step from `w` to `w'` loses no promise and issues none.
  pub record Keeps (w w' : Runtime F) : Type 0 where
    pub estop :
        w.estop_engaged ≡ is_some w.estop_promise → w'.estop_engaged ≡ is_some w'.estop_promise
    pub policy : w'.command_queue.policy ≡ w.command_queue.policy
    pub next : w'.next_promise ≡ w.next_promise
    pub tracked : (p : ℕ) → is_tracked p w ≡ true → is_tracked p w' ≡ true

  pub Keeps-refl : (w : Runtime F) → Keeps w w
  Keeps-refl w = record { estop = λ h. h; policy = refl; next = refl; tracked = λ p h. h }

  pub Keeps-trans : (a b c : Runtime F) → Keeps a b → Keeps b c → Keeps a c
  Keeps-trans a b c k l = record {
    estop = λ h. l.estop (k.estop h);
    policy = l.policy ∙ k.policy;
    next = l.next ∙ k.next;
    tracked = λ p h. l.tracked p (k.tracked p h);
  }

  pub Keeps-IsAccounted : (w w' : Runtime F) → Keeps w w' → IsAccounted w → IsAccounted w'
  Keeps-IsAccounted w w' k a = record {
    estop = k.estop a.estop;
    policy = k.policy ∙ a.policy;
    tracked = λ p h. k.tracked p (a.tracked p (ground (arith, k.next)));
  }

  -- The parts of a step that touch no promise.
  pub record Leaves (w w' : Runtime F) : Type 0 where
    pub engaged : w'.estop_engaged ≡ w.estop_engaged
    pub estop : w'.estop_promise ≡ w.estop_promise
    pub queue : w'.command_queue ≡ w.command_queue
    pub transition : w'.mode_transition ≡ w.mode_transition
    pub answers : w'.answers ≡ w.answers
    pub next : w'.next_promise ≡ w.next_promise

  pub Leaves-Keeps : (w w' : Runtime F) → Leaves w w' → Keeps w w'
  unfolding is_held
  Leaves-Keeps w w' l = record {
    estop = λ h. l.engaged ∙ h ∙ ap is_some (sym l.estop);
    policy = ap (λ q. q.policy) l.queue;
    next = l.next;
    tracked = λ p h. rw (l.answers, l.queue, l.transition, l.estop) h;
  }

module _ {F : Type 0} ⦃float : FloatOps F⦄ where
  pub fail_mode_transition-Keeps :
      (now : ℕ) (r : Result) (b : Bool) (w : Runtime F) → Keeps w (fail_mode_transition now r b w)
  unfolding fail_mode_transition set_promise is_held is_answered
  fail_mode_transition-Keeps now r b w = record {
    estop = λ h. ground arith;
    policy = ground arith;
    next = ground arith;
    tracked = λ p h. ground arith;
  }

  pub settle-Keeps :
      (now : ℕ) (w : Runtime F)
      → w.mode_transition.active ≡ true
      → Keeps w (settle_mode_transition_timeout now w)
  unfolding settle_mode_transition_timeout set_promise is_held is_answered
  settle-Keeps now w a = record {
    estop = λ h. ground arith;
    policy = ground arith;
    next = ground arith;
    tracked = λ p h. ground arith;
  }

  -- Taking the front command and answering its promise.
  abbrev popped : List Command → ℕ → Result → Runtime F → Runtime F
  popped rest now r w = record w { command_queue = record w.command_queue { items = rest } }

  abort_front-Keeps :
      (now : ℕ) (r : Result) (c : Command) (cs : List Command) (w : Runtime F)
      → w.command_queue.items ≡ c ∷ cs
      → Keeps w (abort_command now r c (popped cs now r w))
  unfolding abort_command set_promise is_held is_answered is_queued
  abort_front-Keeps now r c cs w e = record {
    estop = λ h. ground arith;
    policy = ground arith;
    next = ground arith;
    tracked = λ p h. ground arith;
  }

  drain-pop :
      (n now : ℕ) (r : Result) (c : Command) (cs : List Command) (w : Runtime F)
      → w.command_queue.items ≡ c ∷ cs
      → drain (suc n) now r w ≡ drain n now r (abort_command now r c (popped cs now r w))
  unfolding drain try_pop pop_locked
  drain-pop n now r c cs w e = rw e refl

  drain-none :
      (n now : ℕ) (r : Result) (w : Runtime F) → w.command_queue.items ≡ [] → drain n now r w ≡ w
  unfolding drain try_pop pop_locked
  drain-none zero now r w e = refl
  drain-none (suc n) now r w e = rw e refl

  drain-zero : (now : ℕ) (r : Result) (w : Runtime F) → drain zero now r w ≡ w
  unfolding drain
  drain-zero now r w = refl

  abort_front-items :
      (now : ℕ) (r : Result) (c : Command) (cs : List Command) (w : Runtime F)
      → (abort_command now r c (popped cs now r w)).command_queue.items ≡ cs
  unfolding abort_command set_promise
  abort_front-items now r c cs w = ground arith

  pub drain-Keeps : (n now : ℕ) (r : Result) (w : Runtime F) → Keeps w (drain n now r w)
  drain-Keeps zero now r w = subst (Keeps w) (sym (drain-zero now r w)) (Keeps-refl w)
  drain-Keeps (suc n) now r w = elim (List-cases w.command_queue.items) [
    | inl e ↦ subst (Keeps w) (sym (drain-none (suc n) now r w e)) (Keeps-refl w)
    | inr (c, cs, e) ↦
        let w' : Runtime F = abort_command now r c (popped cs now r w) in
        subst (Keeps w) (sym (drain-pop n now r c cs w e)) (
          Keeps-trans w w' (drain n now r w') (abort_front-Keeps now r c cs w e)
            (drain-Keeps n now r w'))
  ]

  -- What emptying the queue leaves as it is.
  pub record Spares (w w' : Runtime F) : Type 0 where
    pub transition : w'.mode_transition ≡ w.mode_transition
    pub estop : w'.estop_promise ≡ w.estop_promise
    pub calls : w'.calls ≡ w.calls
    pub linked : w'.sdk_linked ≡ w.sdk_linked
    pub authority : w'.control_authority ≡ w.control_authority
    pub dropped : w'.link_drop_latched ≡ w.link_drop_latched

  abort_front-Spares :
      (now : ℕ) (r : Result) (c : Command) (cs : List Command) (w : Runtime F)
      → Spares w (abort_command now r c (popped cs now r w))
  unfolding abort_command set_promise
  abort_front-Spares now r c cs w = record {
    transition = ground arith;
    estop = ground arith;
    calls = ground arith;
    linked = ground arith;
    authority = ground arith;
    dropped = ground arith;
  }

  Spares-trans : (a b c : Runtime F) → Spares a b → Spares b c → Spares a c
  Spares-trans a b c k l = record {
    transition = l.transition ∙ k.transition;
    estop = l.estop ∙ k.estop;
    calls = l.calls ∙ k.calls;
    linked = l.linked ∙ k.linked;
    authority = l.authority ∙ k.authority;
    dropped = l.dropped ∙ k.dropped;
  }

  Spares-refl : (w : Runtime F) → Spares w w
  Spares-refl w = record {
    transition = refl;
    estop = refl;
    calls = refl;
    linked = refl;
    authority = refl;
    dropped = refl;
  }

  pub drain-Spares : (n now : ℕ) (r : Result) (w : Runtime F) → Spares w (drain n now r w)
  drain-Spares zero now r w = subst (Spares w) (sym (drain-zero now r w)) (Spares-refl w)
  drain-Spares (suc n) now r w = elim (List-cases w.command_queue.items) [
    | inl e ↦ subst (Spares w) (sym (drain-none (suc n) now r w e)) (Spares-refl w)
    | inr (c, cs, e) ↦
        let w' : Runtime F = abort_command now r c (popped cs now r w) in
        subst (Spares w) (sym (drain-pop n now r c cs w e)) (
          Spares-trans w w' (drain n now r w') (abort_front-Spares now r c cs w)
            (drain-Spares n now r w'))
  ]

  -- With at least the queue's size as fuel, the loop empties the queue.
  pub drain-empties :
      (n now : ℕ) (r : Result) (w : Runtime F)
      → length w.command_queue.items ≤ n
      → (drain n now r w).command_queue.items ≡ []
  drain-empties zero now r w h = elim (List-cases w.command_queue.items) [
    | inl e ↦ ap (λ u. u.command_queue.items) (drain-zero now r w) ∙ e
    | inr (c, cs, e) ↦ ground (arith, ap length e)
  ]
  drain-empties (suc n) now r w h = elim (List-cases w.command_queue.items) [
    | inl e ↦ ap (λ u. u.command_queue.items) (drain-none (suc n) now r w e) ∙ e
    | inr (c, cs, e) ↦
        let w' : Runtime F = abort_command now r c (popped cs now r w) in
        ap (λ u. u.command_queue.items) (drain-pop n now r c cs w e)
        ∙ drain-empties n now r w'
            (omega (arith, h, ap length e, ap length (abort_front-items now r c cs w)))
  ]
