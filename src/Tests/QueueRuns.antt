-- ===== src/Tests/QueueRuns.antt =====
-- `ThreadSafeQueue` at concrete inputs.
use hypertron_sw01_ros2_brid.Prelude.{
  Bool, true, ◌||◌, ℕ, ◌+◌, ◌-◌, ◌≤◌, ◌≡◌, refl, false, List, [], ◌∷◌, ◌++◌, some, none, ◌⊎◌, arith,
}
use hypertron_sw01_ros2_brid.Queue.{
  step, wait_for, pop_locked, is_due, Queue, Op, pushes, pops, closes, reject_new, drop_oldest,
  construct, size, wait_pop_for, push, try_pop, close,
}
use hypertron_sw01_ros2_brid.Queue.Order.{history, history-conserves}
use hypertron_sw01_ros2_brid.Queue.Bounds.{
  IsBounded, run, push_all, drop, construct-run-bounded, push_all-newest,
}
use hypertron_sw01_ros2_brid.Queue.Wait.{operations, is_seen_due, wait_pop_for-ends}

abbrev holding : Queue ℕ
holding = record { capacity = 2; policy = reject_new; items = 1 ∷ []; closed = false }

abbrev ops : List (Op ℕ)
ops = pushes 2 ∷ pushes 3 ∷ pops ∷ pushes 4 ∷ closes ∷ pushes 5 ∷ pops ∷ []

history_test : (history holding ops).popped ≡ 1 ∷ 2 ∷ []
unfolding history push try_pop close
history_test = refl

history-conserves_example :
    (1 ∷ []) ++ (history holding ops).accepted
    ≡ (history holding ops).popped ++ (history holding ops).final.items
history-conserves_example = history-conserves holding ops refl

abbrev sliding : Queue ℕ
sliding = record { capacity = 2; policy = drop_oldest; items = 1 ∷ []; closed = false }

construct-run-bounded_example :
    ((sliding.capacity ≡ 0) × (construct {A = ℕ} 2 drop_oldest ≡ none))
    ⊎ ((q : Queue ℕ) × (construct 2 drop_oldest ≡ some q) × (size (run q ops) ≤ 2))
construct-run-bounded_example = construct-run-bounded 2 drop_oldest ops

sliding-IsBounded : IsBounded sliding
sliding-IsBounded = record { has_room = omega arith; within = omega arith }

push_all-newest_example :
    (push_all sliding (2 ∷ 3 ∷ 4 ∷ [])).items ≡ drop (1 + 3 - 2) (1 ∷ 2 ∷ 3 ∷ 4 ∷ [])
push_all-newest_example = push_all-newest sliding (2 ∷ 3 ∷ 4 ∷ []) sliding-IsBounded refl refl

abbrev waiting : Queue ℕ
waiting = record { capacity = 2; policy = reject_new; items = []; closed = false }

-- Another consumer takes the first value before the waiter has the mutex; it gets the second one.
abbrev others : List (Op ℕ × Bool)
others = (pops, true) ∷ (pushes 7, false) ∷ (pops, true) ∷ (pushes 8, true) ∷ (closes, true) ∷ []

wait_test : (wait_pop_for waiting others).1 ≡ some 8
unfolding wait_pop_for wait_for step push try_pop pop_locked close
wait_test = refl

wait_pop_for-ends_example :
    let (w, given) = wait_pop_for waiting others in
    (before : List (Op ℕ)) × (after : List (Op ℕ)) × (operations others ≡ before ++ after)
    × (((x : ℕ) × (xs : List ℕ) × ((run waiting before).items ≡ x ∷ xs)
          × (given ≡ some x)
          × (w ≡ record (run waiting before) { items = xs }))
        ⊎ (((run waiting before).items ≡ [])
            × (given ≡ none)
            × (w ≡ run waiting before)
            × (((run waiting before).closed ≡ true)
                ⊎ ((after ≡ []) × ((is_due waiting || is_seen_due waiting others) ≡ false)))))
wait_pop_for-ends_example = wait_pop_for-ends waiting others
