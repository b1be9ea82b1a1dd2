-- ===== src/Queue/Order.antt =====
-- The order of the values in a `ThreadSafeQueue`, over whole histories of operations.
use mathlib.Core.List.{append_assoc, append-nil}
use mathlib.Core.Path.{◌≡⟨◌⟩◌, ◌∎}
use hypertron_sw01_ros2_brid.Prelude.{
  ◌≡◌, refl, sym, ap, ◌∙◌, Bool, true, false, List, [], ◌∷◌, ◌++◌, Option, none, some, arith,
}
use hypertron_sw01_ros2_brid.Queue.{
  Queue, Op, pushes, pops, closes, reject_new, push, try_pop, close,
}

-- What one history took in and gave out, in order.
pub record Ledger {ℓ} (A : Type ℓ) : Type ℓ where
  pub final : Queue A
  pub accepted : List A
  pub popped : List A

module _ {ℓ} {A : Type ℓ} where
  abbrev kept : Bool → A → List A → List A
  kept true a xs = a ∷ xs
  kept false a xs = xs

  abbrev given : Option A → List A → List A
  given none xs = xs
  given (some a) xs = a ∷ xs

  unfoldable pub history : Queue A → List (Op A) → Ledger A
  history q [] = record { final = q; accepted = []; popped = [] }
  history q (pushes a ∷ ops) =
      let (q', taken) = push q a in
      let rest = history q' ops in
      record { final = rest.final; accepted = kept taken a rest.accepted; popped = rest.popped }
  history q (pops ∷ ops) =
      let (q', front) = try_pop q in
      let rest = history q' ops in
      record { final = rest.final; accepted = rest.accepted; popped = given front rest.popped }
  history q (closes ∷ ops) = history (close q) ops

  push-conserves :
      (q : Queue A) (a : A)
      → q.policy ≡ reject_new
      → ((push q a).0.items ≡ q.items ++ kept (push q a).1 a [])
        × ((push q a).0.policy ≡ reject_new)
  unfolding push
  push-conserves q a p = ground (arith, append-nil q.items)

  pop-conserves :
      (q : Queue A)
      → (q.items ≡ given (try_pop q).1 (try_pop q).0.items) × ((try_pop q).0.policy ≡ q.policy)
  unfolding try_pop
  pop-conserves q = ground arith

  kept-append : (b : Bool) (a : A) (xs : List A) → kept b a [] ++ xs ≡ kept b a xs
  kept-append true a xs = refl
  kept-append false a xs = refl

  given-append : (o : Option A) (xs ys : List A) → given o xs ++ ys ≡ given o (xs ++ ys)
  given-append none xs ys = refl
  given-append (some a) xs ys = refl

  -- A queue that rejects new values loses and reorders none: over any history, what it held at first
  -- followed by what it took is what it gave out followed by what it still holds.
  pub history-conserves :
      (q : Queue A) (ops : List (Op A))
      → q.policy ≡ reject_new
      → let h = history q ops in q.items ++ h.accepted ≡ h.popped ++ h.final.items
  unfolding history close
  history-conserves q [] p = append-nil q.items
  history-conserves q (pushes a ∷ ops) p =
      let (q', taken) = push q a in
      let rest = history q' ops in
      q.items ++ kept taken a rest.accepted
      ≡⟨ sym (ap (◌++◌ q.items) (kept-append taken a rest.accepted)) ⟩
        q.items ++ (kept taken a [] ++ rest.accepted)
      ≡⟨ sym (append_assoc q.items (kept taken a []) rest.accepted) ⟩
        (q.items ++ kept taken a []) ++ rest.accepted
      ≡⟨ ap (λ xs. xs ++ rest.accepted) (sym (push-conserves q a p).0) ⟩ q'.items ++ rest.accepted
      ≡⟨ history-conserves q' ops (push-conserves q a p).1 ⟩ rest.popped ++ rest.final.items ∎
  history-conserves q (pops ∷ ops) p =
      let (q', front) = try_pop q in
      let rest = history q' ops in
      q.items ++ rest.accepted
      ≡⟨ ap (λ xs. xs ++ rest.accepted) (pop-conserves q).0 ⟩ given front q'.items ++ rest.accepted
      ≡⟨ given-append front q'.items rest.accepted ⟩ given front (q'.items ++ rest.accepted)
      ≡⟨ ap (given front) (history-conserves q' ops ((pop-conserves q).1 ∙ p)) ⟩
        given front (rest.popped ++ rest.final.items)
      ≡⟨ sym (given-append front rest.popped rest.final.items) ⟩
        given front rest.popped ++ rest.final.items ∎
  history-conserves q (closes ∷ ops) p = history-conserves (close q) ops p
