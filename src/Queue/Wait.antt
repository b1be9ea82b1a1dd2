-- ===== src/Queue/Wait.antt =====
-- How a wait on a `ThreadSafeQueue` ends, whatever the other threads do and whenever the waiter gets
-- the mutex.
use hypertron_sw01_ros2_brid.Prelude.{
  ◌≡◌, ◌⊎◌, inl, inr, refl, Bool, true, false, ◌&&◌, ◌||◌, List, [], ◌∷◌, ◌++◌, Option, none, some,
  arith, Bool-cases, map, ap, ◌∙◌,
}
use hypertron_sw01_ros2_brid.Queue.{
  Queue, Op, try_pop, step, wait_for, wait_pop_for, pop_locked, is_due,
}
use hypertron_sw01_ros2_brid.Queue.Bounds.{run}

module _ {ℓ} {A : Type ℓ} where
  abbrev pub operations : List (Op A × Bool) → List (Op A)
  operations others = map (λ o. o.0) others

  -- Some time when the waiter has the mutex, the queue is due.
  abbrev pub is_seen_due : Queue A → List (Op A × Bool) → Bool
  is_seen_due q [] = false
  is_seen_due q ((op, has_mutex) ∷ rest) =
      (has_mutex && is_due (step q op)) || is_seen_due (step q op) rest

  -- How a wait ends, by what it gives: at one moment among the operations it does what `try_pop` does
  -- then. It ends only when the queue is due, or at the
  -- timeout if the waiter never had the mutex while the queue was due.
  pub record Ends (q : Queue A) (others : List (Op A × Bool)) (r : Queue A × Option A)
      : Type ℓ where
    pub before : List (Op A)
    pub after : List (Op A)
    pub splits : operations others ≡ before ++ after
    pub pops : r ≡ try_pop (run q before)
    pub ended : (is_due (run q before) ≡ true) ⊎ ((after ≡ []) × (is_seen_due q others ≡ false))

  wait_for-Ends : (q : Queue A) (others : List (Op A × Bool)) → Ends q others (wait_for q others)
  unfolding wait_for run try_pop
  wait_for-Ends q [] = record {
    before = [];
    after = [];
    splits = refl;
    pops = refl;
    ended = inr (refl, refl);
  }
  wait_for-Ends q ((op, has_mutex) ∷ rest) =
      let ih = wait_for-Ends (step q op) rest in
      elim (Bool-cases (has_mutex && is_due (step q op))) [
        | inl now_due ↦ rw now_due (record {
          before = op ∷ [];
          after = operations rest;
          splits = refl;
          pops = refl;
          ended = inl (and_right has_mutex (is_due (step q op)) now_due);
        })
        | inr not_yet ↦ rw not_yet (record {
          before = op ∷ ih.before;
          after = ih.after;
          splits = ap (λ l. op ∷ l) ih.splits;
          pops = ih.pops;
          ended = elim ih.ended [
            | inl due ↦ inl due
            | inr (over, unseen) ↦ inr (over, both_no not_yet unseen)
          ];
        })
      ]
    where
      both_no : {a b : Bool} → a ≡ false → b ≡ false → (a || b) ≡ false
      both_no h k = ground (arith, h, k)

      and_right : (a b : Bool) → (a && b) ≡ true → b ≡ true
      and_right true b h = h
      and_right false b h = cc

  -- The front of the queue is taken, or there is none.
  try_pop-cases :
      (q : Queue A)
      → ((x : A) × (xs : List A) × (q.items ≡ x ∷ xs)
          × (try_pop q ≡ (record q { items = xs }, some x)))
        ⊎ ((q.items ≡ []) × (try_pop q ≡ (q, none)))
  unfolding try_pop pop_locked
  try_pop-cases q = elim (List-cases q.items) [
    | inl empty ↦ inr (empty, ground (arith, empty))
    | inr (x, xs, full) ↦ inl (x, xs, full, ground (arith, full))
  ]
    where
      List-cases : {A : Type ℓ} (l : List A) → (l ≡ []) ⊎ ((x : A) × (xs : List A) × (l ≡ x ∷ xs))
      List-cases [] = inl refl
      List-cases (x ∷ xs) = inr (x, xs, refl)

  due_empty : (q : Queue A) → q.items ≡ [] → is_due q ≡ true → q.closed ≡ true
  due_empty q e h = ground (arith, e, h)

  settle :
      {U : Type 0} (q : Queue A) (after : List (Op A)) (r : Queue A × Option A)
      → r ≡ try_pop q
      → (is_due q ≡ true) ⊎ ((after ≡ []) × U)
      → ((x : A) × (xs : List A) × (q.items ≡ x ∷ xs)
          × (r.1 ≡ some x)
          × (r.0 ≡ record q { items = xs }))
        ⊎ ((q.items ≡ []) × (r.1 ≡ none) × (r.0 ≡ q) × ((q.closed ≡ true) ⊎ ((after ≡ []) × U)))
  settle q after r p ended = elim (try_pop-cases q) [
    | inl (x, xs, full, e) ↦ inl (x, xs, full, ap (λ u. u.1) (p ∙ e), ap (λ u. u.0) (p ∙ e))
    | inr (empty, e) ↦ inr (
      empty,
      ap (λ u. u.1) (p ∙ e),
      ap (λ u. u.0) (p ∙ e),
      elim ended [ inl due ↦ inl (due_empty q empty due) | inr over ↦ inr over ],
    )
  ]

  -- However the other threads push, pop and close, and whenever the waiter gets the mutex, a wait ends
  -- at one moment among their operations: either it gives and removes what is then the front of the
  -- queue, or it gives nothing, the queue is then empty, and it is closed, or it is the timeout, and the
  -- queue was neither closed nor held a value at any of the times when the waiter had the mutex.
  pub wait_pop_for-ends :
      (q : Queue A) (others : List (Op A × Bool))
      → let (w, given) = wait_pop_for q others in
        (before : List (Op A)) × (after : List (Op A)) × (operations others ≡ before ++ after)
        × (((x : A) × (xs : List A) × ((run q before).items ≡ x ∷ xs)
              × (given ≡ some x)
              × (w ≡ record (run q before) { items = xs }))
            ⊎ (((run q before).items ≡ [])
                × (given ≡ none)
                × (w ≡ run q before)
                × (((run q before).closed ≡ true)
                    ⊎ ((after ≡ []) × ((is_due q || is_seen_due q others) ≡ false)))))
  unfolding wait_pop_for run try_pop
  wait_pop_for-ends q others = elim (Bool-cases (is_due q)) [
    | inl due ↦ rw due ([], operations others, refl, settle q (operations others) _ refl (inl due))
    | inr not_due ↦
        let e = wait_for-Ends q others in
        rw not_due (e.before, e.after, e.splits, settle (run q e.before) e.after _ e.pops e.ended)
  ]
