-- ===== src/Queue/Bounds.antt =====
-- How much a `ThreadSafeQueue` holds, and what a bounded queue keeps of a burst.
use mathlib.Core.List.{append_assoc, append-nil}
use mathlib.Core.Path.{◌≡⟨◌⟩◌, ◌∎}
use hypertron_sw01_ros2_brid.Prelude.{
  ℕ, zero, suc, ◌+◌, ◌-◌, ◌≤◌, ◌<◌, ◌≡◌, ◌⊎◌, refl, ap, ◌∙◌, false, List, [], ◌∷◌, ◌++◌, none, some,
  arith, length, length-append, Bool-cases, ◌==◌, inl, inr,
}
use hypertron_sw01_ros2_brid.Queue.{
  Queue, Op, OverflowPolicy, pushes, pops, closes, drop_oldest, construct, push, try_pop, close,
  step, pop_front, size,
}

pub record IsBounded {ℓ} {A : Type ℓ} (q : Queue A) : Type 0 where
  pub has_room : 0 < q.capacity
  pub within : length q.items ≤ q.capacity

module _ {ℓ} {A : Type ℓ} where
  abbrev pub drop : ℕ → List A → List A
  drop zero xs = xs
  drop (suc n) [] = []
  drop (suc n) (x ∷ xs) = drop n xs

  unfoldable pub run : Queue A → List (Op A) → Queue A
  run q [] = q
  run q (op ∷ ops) = run (step q op) ops

  length-pop_front : (xs : List A) → length (pop_front xs) ≡ length xs - 1
  length-pop_front [] = omega arith
  length-pop_front (x ∷ xs) = omega arith

  push-IsBounded : (q : Queue A) (a : A) → IsBounded q → IsBounded (push q a).0
  unfolding push
  push-IsBounded q a b = ground (
    arith,
    length-append (pop_front q.items) (a ∷ []),
    length-append q.items (a ∷ []),
    length-pop_front q.items,
  )

  pop-IsBounded : (q : Queue A) → IsBounded q → IsBounded (try_pop q).0
  unfolding try_pop
  pop-IsBounded q b = ground arith

  step-IsBounded : (q : Queue A) (op : Op A) → IsBounded q → IsBounded (step q op)
  unfolding step
  step-IsBounded q (pushes a) b = push-IsBounded q a b
  step-IsBounded q pops b = pop-IsBounded q b
  step-IsBounded q closes b = record { has_room = b.has_room; within = b.within }

  run-IsBounded : (q : Queue A) (ops : List (Op A)) → IsBounded q → IsBounded (run q ops)
  unfolding run
  run-IsBounded q [] b = b
  run-IsBounded q (op ∷ ops) b = run-IsBounded (step q op) ops (step-IsBounded q op b)

  run-capacity : (q : Queue A) (ops : List (Op A)) → (run q ops).capacity ≡ q.capacity
  unfolding run step push try_pop close
  run-capacity q [] = refl
  run-capacity q (pushes a ∷ ops) = ground (arith, run-capacity (push q a).0 ops)
  run-capacity q (pops ∷ ops) = ground (arith, run-capacity (try_pop q).0 ops)
  run-capacity q (closes ∷ ops) = run-capacity (close q) ops

  -- A queue that the constructor made never holds more values than the capacity it was given,
  -- whatever operations follow, and a capacity of zero is refused.
  pub construct-run-bounded :
      (capacity : ℕ) (policy : OverflowPolicy) (ops : List (Op A))
      → ((capacity ≡ 0) × (construct {A = A} capacity policy ≡ none))
        ⊎ ((q : Queue A) × (construct capacity policy ≡ some q) × (size (run q ops) ≤ capacity))
  unfolding construct size
  construct-run-bounded zero policy ops = inl (refl, refl)
  construct-run-bounded (suc n) policy ops =
      let q : Queue A = record { capacity = suc n; policy = policy; items = []; closed = false } in
      inr (
        q,
        ground arith,
        omega (
          arith,
          run-IsBounded q ops (record { has_room = omega arith; within = omega arith }),
          run-capacity q ops,
        ),
      )

  unfoldable pub push_all : Queue A → List A → Queue A
  push_all q [] = q
  push_all q (a ∷ xs) = push_all (push q a).0 xs

  drop-all : (xs : List A) → drop (length xs) xs ≡ []
  drop-all [] = refl
  drop-all (x ∷ xs) = drop-all xs

  -- One push of a queue that drops the oldest: its policy and capacity stay, and it holds the newest.
  push-newest :
      (q : Queue A) (a : A) (l : List A)
      → q.items ≡ l
      → IsBounded q
      → q.policy ≡ drop_oldest
      → q.closed ≡ false
      → ((push q a).0.items ≡ drop (length l + 1 - q.capacity) (l ++ a ∷ []))
        × ((push q a).0.policy ≡ drop_oldest)
        × ((push q a).0.closed ≡ false)
        × ((push q a).0.capacity ≡ q.capacity)
  unfolding push
  push-newest q a [] e b p c = ground arith
  push-newest q a (x ∷ r) e b p c = elim (Bool-cases (length q.items == q.capacity)) [
    | inl full ↦
        let n : suc (length r) + 1 - q.capacity ≡ 1 = ground arith in
        (rw n (ground arith), ground arith, ground arith, ground arith)
    | inr room ↦
        let n : suc (length r) + 1 - q.capacity ≡ 0 = ground arith in
        (rw n (ground arith), ground arith, ground arith, ground arith)
  ]

  drop-append : (n : ℕ) (l xs : List A) → n ≤ length l → drop n l ++ xs ≡ drop n (l ++ xs)
  drop-append zero l xs h = refl
  drop-append (suc n) [] xs h = elim h [ ]
  drop-append (suc n) (x ∷ l) xs h = drop-append n l xs (omega arith)

  drop-nil : (m : ℕ) → drop m [] ≡ []
  drop-nil zero = refl
  drop-nil (suc m) = refl

  length-drop : (n : ℕ) (xs : List A) → length (drop n xs) ≡ length xs - n
  length-drop zero xs = omega arith
  length-drop (suc n) [] = omega arith
  length-drop (suc n) (x ∷ xs) = omega (arith, length-drop n xs)

  drop-drop : (m n : ℕ) (l : List A) → drop m (drop n l) ≡ drop (n + m) l
  drop-drop m zero l = let e : 0 + m ≡ m = omega arith in rw e refl
  drop-drop m (suc n) [] = let e : suc n + m ≡ suc (n + m) = omega arith in rw e (drop-nil m)
  drop-drop m (suc n) (x ∷ l) =
      let e : suc n + m ≡ suc (n + m) = omega arith in rw e (drop-drop m n l)

  -- An open queue within its bounds that drops the oldest keeps, after a burst, exactly the newest of
  -- the old and new values, as many as its capacity allows, in order.
  pub push_all-newest :
      (q : Queue A) (xs : List A)
      → IsBounded q
      → q.policy ≡ drop_oldest
      → q.closed ≡ false
      → (push_all q xs).items ≡ drop (length q.items + length xs - q.capacity) (q.items ++ xs)
  unfolding push_all
  push_all-newest q [] b p c =
      let e : length q.items + 0 - q.capacity ≡ 0 = omega (arith, b.within) in
      rw (e, append-nil q.items) refl
  push_all-newest q (a ∷ xs) b p c =
      let q' : Queue A = (push q a).0 in
      let l : List A = q.items ++ a ∷ [] in
      let d : ℕ = length q.items + 1 - q.capacity in
      let one : q'.items ≡ drop d l = (push-newest q a q.items refl b p c).0 in
      let cap : q'.capacity ≡ q.capacity = (push-newest q a q.items refl b p c).3 in
      let long : length l ≡ length q.items + 1 = length-append q.items (a ∷ []) in
      let size' : length q'.items ≡ length l - d = ap length one ∙ length-drop d l in
      let n : d + (length q'.items + length xs - q'.capacity)
          ≡ length q.items + suc (length xs) - q.capacity =
        omega (arith, b.within) in
      (push_all q' xs).items
      ≡⟨ push_all-newest q' xs (push-IsBounded q a b) (push-newest q a q.items refl b p c).1
          (push-newest q a q.items refl b p c).2 ⟩
        drop (length q'.items + length xs - q'.capacity) (q'.items ++ xs)
      ≡⟨ ap (λ ys. drop (length q'.items + length xs - q'.capacity) (ys ++ xs)) one ⟩
        drop (length q'.items + length xs - q'.capacity) (drop d l ++ xs)
      ≡⟨ ap (drop (length q'.items + length xs - q'.capacity))
          (drop-append d l xs (omega (arith, b.within))) ⟩
        drop (length q'.items + length xs - q'.capacity) (drop d (l ++ xs))
      ≡⟨ drop-drop (length q'.items + length xs - q'.capacity) d (l ++ xs) ⟩
        drop (d + (length q'.items + length xs - q'.capacity)) (l ++ xs)
      ≡⟨ ap (λ k. drop k (l ++ xs)) n ⟩
        drop (length q.items + suc (length xs) - q.capacity) (l ++ xs)
      ≡⟨ ap (drop (length q.items + suc (length xs) - q.capacity))
          (append_assoc q.items (a ∷ []) xs) ⟩
        drop (length q.items + suc (length xs) - q.capacity) (q.items ++ a ∷ xs) ∎
