-- ===== src/Runtime/Promises/Issue.antt =====
-- A request issues one promise, and loses none.
use hypertron_sw01_ros2_brid.Prelude.{
  ℕ, suc, ◌<◌, ◌≡◌, refl, sym, ◌∙◌, subst, Bool, true, false, List, [], ◌∷◌, ◌++◌, arith,
  Bool-cases, if_either, ◌||◌, ◌==◌, length, some, none, inl, inr, not, ◌⊎◌,
}
use hypertron_sw01_ros2_brid.Prelude.Text.{Bytes, codes}
use hypertron_sw01_ros2_brid.Controller.Gate
use hypertron_sw01_ros2_brid.Controller.Data.{Controller}
use hypertron_sw01_ros2_brid.Prelude.Float.{FloatOps}
use hypertron_sw01_ros2_brid.Queue.{Queue, push, reject_new}
use hypertron_sw01_ros2_brid.Runtime.Types.{
  failure, res_failed, with_controller, Result, Command, Runtime, set_promise, is_answered,
  complete_mode, is_disconnected,
}
use hypertron_sw01_ros2_brid.Runtime.Requests.{
  take_promise, enqueue, request_authority, request_mode, trigger_estop, supersede,
}
use hypertron_sw01_ros2_brid.Runtime.Promises.{
  is_queued, is_held, is_tracked, IsAccounted, Keeps, Keeps-trans, Keeps-refl, Leaves-Keeps,
}

is_queued-append :
    (p : ℕ) (cs : List Command) (c : Command)
    → is_queued p (cs ++ c ∷ []) ≡ (is_queued p cs || is_queued p (c ∷ []))
unfolding is_queued
is_queued-append p [] c = refl
is_queued-append p (d ∷ cs) c = ground (arith, is_queued-append p cs c)

-- The queue with the command behind the others.
abbrev appended : Command → Queue Command → Queue Command
appended c q = record q { items = q.items ++ c ∷ [] }

push-cases :
    (q : Queue Command) (c : Command)
    → q.policy ≡ reject_new
    → (push q c ≡ (appended c q, true)) ⊎ (push q c ≡ (q, false))
unfolding push
push-cases q c h = elim (Bool-cases q.closed) [
  | inl closed ↦ inr (rw (closed, push) refl)
  | inr running ↦ elim (Bool-cases (length q.items == q.capacity)) [
    | inl full ↦ inr (rw (running, full, h, push) refl)
    | inr room ↦ inl (rw (running, room, push) refl)
  ]
]

module _ {F : Type 0} where
  -- The step answers the promise `p` or holds it.
  pub record Issues (p : ℕ) (w w' : Runtime F) : Type 0 where
    pub kept : Keeps w w'
    pub issued : is_tracked p w' ≡ true

  -- A runtime whose newest promise is the last request's.
  pub Issues-IsAccounted :
      (w w' : Runtime F)
      → Issues w.next_promise (take_promise w) w'
      → IsAccounted w
      → IsAccounted w'
  unfolding is_held
  Issues-IsAccounted w w' i a = record {
    estop = i.kept.estop a.estop;
    policy = i.kept.policy ∙ a.policy;
    tracked = λ p h. elim (newest p w.next_promise (ground (arith, i.kept.next))) [
      | inl e ↦ subst (λ n. is_tracked n w' ≡ true) (sym e) i.issued
      | inr l ↦ i.kept.tracked p (a.tracked p l)
    ];
  }
    where
      newest : (p n : ℕ) → p < suc n → (p ≡ n) ⊎ (p < n)
      newest p n h = omega arith

  set_promise-Issues : (p : ℕ) (r : Result) (w : Runtime F) → Issues p w (set_promise p r w)
  unfolding set_promise is_held is_answered
  set_promise-Issues p r w = record {
    kept = record { estop = λ h. h; policy = refl; next = refl; tracked = λ q h. ground arith };
    issued = ground arith;
  }

  queued-Issues :
      (c : Command) (w : Runtime F)
      → Issues c.promise w (record w {
        command_queue = record w.command_queue { items = w.command_queue.items ++ c ∷ [] };
      })
  unfolding is_held is_queued
  queued-Issues c w = record {
    kept = record {
      estop = λ h. h;
      policy = refl;
      next = refl;
      tracked = λ q h. ground (arith, is_queued-append q w.command_queue.items c);
    };
    issued = ground (arith, is_queued-append c.promise w.command_queue.items c);
  }

  enqueue-cases :
      (c : Command) (undo : Runtime F → Runtime F) (w : Runtime F)
      → w.command_queue.policy ≡ reject_new
      → (enqueue c undo w ≡ record w { command_queue = appended c w.command_queue })
        ⊎ ((r : Result) × (enqueue c undo w ≡ set_promise c.promise r (undo w)))
  unfolding enqueue
  enqueue-cases c undo w h = elim (push-cases w.command_queue c h) [
    | inl e ↦ inl (rw (e, enqueue) refl)
    | inr e ↦ inr (failure res_failed (codes "command queue is full"), rw (e, enqueue) refl)
  ]

  after-Issues : (p : ℕ) (a b c : Runtime F) → Keeps a b → Issues p b c → Issues p a c
  after-Issues p a b c k i = record { kept = Keeps-trans a b c k i.kept; issued = i.issued }

  enqueue-Issues :
      (c : Command) (undo : Runtime F → Runtime F) (w : Runtime F)
      → ((u : Runtime F) → Keeps u (undo u))
      → w.command_queue.policy ≡ reject_new
      → Issues c.promise w (enqueue c undo w)
  enqueue-Issues c undo w k h = elim (enqueue-cases c undo w h) [
    | inl e ↦ subst (Issues c.promise w) (sym e) (queued-Issues c w)
    | inr (r, e) ↦
        subst (Issues c.promise w) (sym e)
          (after-Issues c.promise w (undo w) _ (k w) (set_promise-Issues c.promise r (undo w)))
  ]

  pub request_authority-IsAccounted :
      (sdk : Bool) (w : Runtime F) → IsAccounted w → IsAccounted (request_authority sdk w).0
  unfolding request_authority
  request_authority-IsAccounted sdk w a =
      let t : Runtime F = take_promise w in
      Issues-IsAccounted w (request_authority sdk w).0
        (if_either (Issues w.next_promise t) (is_disconnected t) _ _
          (set_promise-Issues w.next_promise _ t) (enqueue-Issues _ (λ u. u) t Keeps-refl a.policy))
        a

module _ {F : Type 0} ⦃float : FloatOps F⦄ where
  -- The controller is no matter of the promises.
  pub steer-Keeps : (c : Controller F) (w : Runtime F) → Keeps w (with_controller c w)
  steer-Keeps c w = Leaves-Keeps w (with_controller c w) (record {
    engaged = refl;
    estop = refl;
    queue = refl;
    transition = refl;
    answers = refl;
    next = refl;
  })

  pub request_mode-IsAccounted :
      (now : ℕ) (name : Bytes) (between : Runtime F → Runtime F) (w : Runtime F)
      → ((u : Runtime F) → Keeps u (between u))
      → IsAccounted w
      → IsAccounted (request_mode now name between w).0
  unfolding request_mode
  request_mode-IsAccounted now name between w k a =
      let p : ℕ = w.next_promise in
      let t : Runtime F = take_promise w in
      let c : Controller F = (Gate.request_mode now name t.controller).0 in
      let gated : Runtime F = with_controller c t in
      let after : Runtime F = between gated in
      let steered : Keeps t gated = steer-Keeps c t in
      let passed : Keeps t after = Keeps-trans t gated after steered (k gated) in
      Issues-IsAccounted w (request_mode now name between w).0
        (if_either (Issues p t) (is_disconnected t) _ _ (set_promise-Issues p _ t) (
          if_either (Issues p t) (not (Gate.request_mode now name t.controller).1.accepted) _ _
            (after-Issues p t gated _ steered (set_promise-Issues p _ gated))
            (if_either (Issues p t) (is_disconnected after) _ _
              (after-Issues p t after _ passed (
                after-Issues p after (complete_mode now false after) _ (steer-Keeps _ after)
                  (set_promise-Issues p _ (complete_mode now false after))))
              (after-Issues p t after _ passed (
                enqueue-Issues _ (complete_mode now false) after (λ u. steer-Keeps _ u)
                  (passed.policy ∙ a.policy))))))
        a

  -- The older request is answered before its promise is dropped.
  dropped-Keeps :
      (c : Controller F) (t : Runtime F)
      → Keeps t (record (supersede t.estop_promise (with_controller c t)) {
        estop_engaged = false;
        estop_promise = none;
      })
  unfolding set_promise is_held is_answered
  dropped-Keeps c t = record {
    estop = λ h. refl;
    policy = ground arith;
    next = ground arith;
    tracked = λ q h. ground arith;
  }

  replaced-Issues :
      (p : ℕ) (c : Controller F) (t : Runtime F)
      → Issues p t (record (supersede t.estop_promise (with_controller c t)) {
        estop_engaged = true;
        estop_promise = some p;
      })
  unfolding set_promise is_held is_answered
  replaced-Issues p c t = record {
    kept = record {
      estop = λ h. refl;
      policy = ground arith;
      next = ground arith;
      tracked = λ q h. ground arith;
    };
    issued = ground arith;
  }

  pub trigger_estop-IsAccounted :
      (now : ℕ) (engage : Bool) (w : Runtime F)
      → IsAccounted w
      → IsAccounted (trigger_estop now engage w).0
  unfolding trigger_estop
  trigger_estop-IsAccounted now engage w a =
      let p : ℕ = w.next_promise in
      let t : Runtime F = take_promise w in
      let c : Controller F = (Gate.trigger_estop now w.controller).0 in
      let gone : Runtime F = record (supersede t.estop_promise (with_controller c t)) {
        estop_engaged = false;
        estop_promise = none;
      } in
      Issues-IsAccounted w (trigger_estop now engage w).0
        (if_either (Issues p t) (not engage) _ _
          (after-Issues p t _ _ (steer-Keeps _ t) (set_promise-Issues p _ _))
          (if_either (Issues p t) _ _ _
            (after-Issues p t gone _ (dropped-Keeps c t) (set_promise-Issues p _ gone))
            (replaced-Issues p c t)))
        a
