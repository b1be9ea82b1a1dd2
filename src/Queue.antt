-- ===== src/Queue.antt =====
-- include/hypertron_ros2_bridge/thread_safe_queue.hpp: `ThreadSafeQueue<T>`. Each method but
-- `wait_pop_for` holds the queue's mutex throughout, so it is one step on the state. The head of `items`
-- is the front.
pub mod Order
pub mod Bounds
pub mod Wait
use hypertron_sw01_ros2_brid.Prelude.{
  ℕ, ◌+◌, ◌≡◌, Bool, true, false, ◌||◌, ◌&&◌, not, List, [], ◌∷◌, ◌++◌, Option, none, some, ◌==◌,
  length, if◌then◌else◌,
}

pub data OverflowPolicy : Type 0 where
  reject_new drop_oldest : OverflowPolicy

abbrev rejects_new : OverflowPolicy → Bool
rejects_new reject_new = true
rejects_new drop_oldest = false

pub record Queue {ℓ} (A : Type ℓ) : Type ℓ where
  pub capacity : ℕ
  pub policy : OverflowPolicy
  pub items : List A
  pub closed : Bool

-- What another thread may do to the queue.
pub data Op {ℓ} (A : Type ℓ) : Type ℓ where
  pushes : A → Op A
  pops : Op A
  closes : Op A

module _ {ℓ} {A : Type ℓ} where
  -- The constructor; `none` is its `std::invalid_argument`.
  unfoldable pub construct : ℕ → OverflowPolicy → Option (Queue A)
  construct capacity policy =
      if capacity == 0
      then none
      else some (record { capacity = capacity; policy = policy; items = []; closed = false })

  abbrev pub pop_front : List A → List A
  pop_front [] = []
  pop_front (x ∷ xs) = xs

  -- Returns whether the value was taken.
  unfoldable pub push : Queue A → A → Queue A × Bool
  push q value =
      if q.closed
      then (q, false)
      else if length q.items == q.capacity
      then (if rejects_new q.policy
          then (q, false)
          else (record q { items = pop_front q.items ++ value ∷ [] }, true))
      else (record q { items = q.items ++ value ∷ [] }, true)

  abbrev split_front : Queue A → List A → Queue A × Option A
  split_front q [] = (q, none)
  split_front q (x ∷ xs) = (record q { items = xs }, some x)

  unfoldable pub pop_locked : Queue A → Queue A × Option A
  pop_locked q = split_front q q.items

  unfoldable pub try_pop : Queue A → Queue A × Option A
  unfolding pop_locked
  try_pop q = pop_locked q

  unfoldable pub close : Queue A → Queue A
  close q = record q { closed = true }

  unfoldable pub size : Queue A → ℕ
  size q = length q.items

  abbrev pub is_empty : List A → Bool
  is_empty [] = true
  is_empty (x ∷ xs) = false

  unfoldable pub step : Queue A → Op A → Queue A
  unfolding push try_pop close
  step q (pushes value) = (push q value).0
  step q pops = (try_pop q).0
  step q closes = close q

  -- The predicate of the wait.
  abbrev pub is_due : Queue A → Bool
  is_due q = q.closed || not (is_empty q.items)

  -- The wait, after the first test of its predicate. The list holds what the other threads complete, in
  -- their order, until the timeout has passed and the waiter has the mutex again; beside each operation
  -- stands whether the waiter gets the mutex before the next one, and so tests its predicate.
  unfoldable pub wait_for : Queue A → List (Op A × Bool) → Queue A × Option A
  unfolding pop_locked step
  wait_for q [] = pop_locked q
  wait_for q ((op, has_mutex) ∷ rest) =
      let later = wait_for (step q op) rest in
      if has_mutex && is_due (step q op) then pop_locked (step q op) else later

  unfoldable pub wait_pop_for : Queue A → List (Op A × Bool) → Queue A × Option A
  unfolding pop_locked wait_for
  wait_pop_for q others = if is_due q then pop_locked q else wait_for q others
