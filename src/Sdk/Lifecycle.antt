-- ===== src/Sdk/Lifecycle.antt =====
-- The lifecycle of the adapter over any interleaving of its sections.
use hypertron_sw01_ros2_brid.Prelude.{
  ℕ, ◌<◌, ◌≡◌, ◌≢◌, ◌⊎◌, inl, inr, refl, sym, subst, Bool, true, false, ◌&&◌, List, [], ◌∷◌, arith,
  ◌==◌,
}
use hypertron_sw01_ros2_brid.Sdk.{
  State, uninitialized, initializing, initialized, shutting_down, imu, sport, lidar, in_init,
  in_deinit, draining, leaving, Adapter, constructed, accepts, is_uninitialized, deliver_status,
  deliver_imu, deliver_sport, deliver_lidar_discard, finish_delivery, defer_deinit, begin_init,
  InitAnswer, unbound, failed, succeeded, finish_init_locked, finish_init, begin_call, finish_call,
  begin_subscribe, finish_subscribe, enter_teardown, close_gate_locked, close_gate, finish_deinit,
  finish_wait, publish, Event, status_arrives, imu_arrives, lidar_arrives, sport_arrives,
  delivery_ends, deinit_deferred, call_begins, call_ends, init_begins, init_ends, subscribe_begins,
  subscribe_ends, teardown_enters, gate_closes, deinit_ends, wait_ends, teardown_publishes, step,
  run,
}

-- `teardown_impl` finds nothing to tear down and nobody to wait for.
abbrev pub finds_nothing : Adapter → Bool
finds_nothing a = is_uninitialized a.state && a.in_flight == 0

-- Whenever the gate is closed, there is something to tear down or to wait for.
abbrev pub HasWork : Event → Adapter → Type 0
HasWork e a = e ≡ gate_closes → finds_nothing a ≡ false

abbrev pub AllHaveWork : List Event → Adapter → Type 0
AllHaveWork [] a = Unit
AllHaveWork (e ∷ es) a = HasWork e a × AllHaveWork es (step e a)

-- While it shuts down, a teardown is under way; when that leaves, no callback is in flight; and the
-- vendor's library is initialized only while the gate is open or its deinit runs.
abbrev pub IsGuarded : Adapter → Type 0
IsGuarded a =
    (a.state ≡ shutting_down → (a.teardown ≡ draining) ⊎ (a.teardown ≡ leaving))
    × (a.teardown ≡ draining → a.state ≡ shutting_down)
    × (a.teardown ≡ leaving
        → (a.state ≡ shutting_down) × (a.in_flight ≡ 0) × (a.vendor_live ≡ false))
    × (a.lifecycle ≡ in_init → (a.state ≡ initializing) × (a.vendor_live ≡ false))
    × (a.lifecycle ≡ in_deinit → a.teardown ≡ draining)
    × (a.vendor_live ≡ true → (accepts a.state ≡ true) ⊎ (a.lifecycle ≡ in_deinit))

step-IsGuarded : (e : Event) (a : Adapter) → HasWork e a → IsGuarded a → IsGuarded (step e a)
unfolding step deliver_status deliver_imu deliver_sport deliver_lidar_discard finish_delivery
    defer_deinit begin_init finish_init_locked finish_init begin_call finish_call begin_subscribe
    finish_subscribe enter_teardown close_gate_locked close_gate finish_deinit finish_wait publish
step-IsGuarded (status_arrives linked authority) a w h = ground arith
step-IsGuarded imu_arrives a w h = ground arith
step-IsGuarded lidar_arrives a w h = ground arith
step-IsGuarded (sport_arrives sample) a w h = ground arith
step-IsGuarded delivery_ends a w h = ground arith
step-IsGuarded deinit_deferred a w h = ground arith
step-IsGuarded call_begins a w h = ground arith
step-IsGuarded call_ends a w h = ground arith
step-IsGuarded (init_begins callbacks) a w h = ground arith
step-IsGuarded (init_ends unbound) a w h = ground arith
step-IsGuarded (init_ends failed) a w h = ground arith
step-IsGuarded (init_ends succeeded) a w h = ground arith
step-IsGuarded (subscribe_begins imu callback) a w h = ground arith
step-IsGuarded (subscribe_begins sport callback) a w h = ground arith
step-IsGuarded (subscribe_begins lidar callback) a w h = ground arith
step-IsGuarded (subscribe_ends success) a w h = ground arith
step-IsGuarded teardown_enters a w h = ground arith
step-IsGuarded gate_closes a w h = ground (arith, w refl)
step-IsGuarded deinit_ends a w h = ground arith
step-IsGuarded wait_ends a w h = ground arith
step-IsGuarded teardown_publishes a w h = ground arith

-- The abstract lifecycle: the gate is closed, open, or closing.
pub data Phase : Type 0 where
  closed opened closing : Phase

abbrev pub phase : State → Phase
phase uninitialized = closed
phase initializing = opened
phase initialized = opened
phase shutting_down = closing

-- Its moves. It opens when an init begins and closes again only if that init fails; a teardown makes it
-- closing, from open or to wait for callbacks of a failed init; and it is closed by the end of a
-- teardown, with no callback in flight and the vendor's library not initialized.
pub data Moves (a : Adapter) : Event → Phase → Phase → Type 0 where
  stays : (e : Event) (p : Phase) → Moves a e p p
  opens : (callbacks : ℕ) → a.vendor_live ≡ false → Moves a (init_begins callbacks) closed opened
  fails : (answer : InitAnswer) → answer ≢ succeeded → Moves a (init_ends answer) opened closed
  shuts : Moves a gate_closes opened closing
  drains : 0 < a.in_flight → Moves a gate_closes closed closing
  ends : a.in_flight ≡ 0 → a.vendor_live ≡ false → Moves a teardown_publishes closing closed

stay :
    (e : Event) (a : Adapter)
    → phase (step e a).state ≡ phase a.state
    → Moves a e (phase a.state) (phase (step e a).state)
stay e a q = subst (λ p. Moves a e (phase a.state) p) (sym q) (stays e (phase a.state))

move :
    (e : Event) (a : Adapter) (p q : Phase)
    → phase a.state ≡ p
    → phase (step e a).state ≡ q
    → Moves a e p q
    → Moves a e (phase a.state) (phase (step e a).state)
move e a p q h h' m =
    subst (λ x. Moves a e x (phase (step e a).state)) (sym h)
      (subst (λ y. Moves a e p y) (sym h') m)

init_begins-ways :
    (callbacks : ℕ) (a : Adapter)
    → IsGuarded a
    → (phase (step (init_begins callbacks) a).state ≡ phase a.state)
      ⊎ ((phase a.state ≡ closed)
          × (phase (step (init_begins callbacks) a).state ≡ opened)
          × (a.vendor_live ≡ false))
unfolding step begin_init
init_begins-ways callbacks a h = ground arith

init_ends-ways :
    (answer : InitAnswer) (a : Adapter)
    → IsGuarded a
    → (phase (step (init_ends answer) a).state ≡ phase a.state)
      ⊎ ((phase a.state ≡ opened)
          × (phase (step (init_ends answer) a).state ≡ closed)
          × (answer ≢ succeeded))
unfolding step finish_init finish_init_locked
init_ends-ways unbound a h = ground arith
init_ends-ways failed a h = ground arith
init_ends-ways succeeded a h = ground arith

gate_closes-ways :
    (a : Adapter)
    → HasWork gate_closes a
    → IsGuarded a
    → (phase (step gate_closes a).state ≡ phase a.state)
      ⊎ ((phase a.state ≡ opened) × (phase (step gate_closes a).state ≡ closing))
      ⊎ ((phase a.state ≡ closed)
          × (phase (step gate_closes a).state ≡ closing)
          × (0 < a.in_flight))
unfolding step close_gate close_gate_locked
gate_closes-ways a w h = ground (arith, w refl)

teardown_publishes-ways :
    (a : Adapter)
    → IsGuarded a
    → (phase (step teardown_publishes a).state ≡ phase a.state)
      ⊎ ((phase a.state ≡ closing)
          × (phase (step teardown_publishes a).state ≡ closed)
          × (a.in_flight ≡ 0)
          × (a.vendor_live ≡ false))
unfolding step publish
teardown_publishes-ways a h = ground arith

constructed-IsGuarded : IsGuarded constructed
constructed-IsGuarded = ground arith

step-Moves :
    (e : Event) (a : Adapter)
    → HasWork e a
    → IsGuarded a
    → Moves a e (phase a.state) (phase (step e a).state)
unfolding step deliver_status deliver_imu deliver_sport deliver_lidar_discard finish_delivery
    defer_deinit begin_call finish_call begin_subscribe finish_subscribe enter_teardown
    finish_deinit finish_wait
step-Moves (init_begins callbacks) a w h = elim (init_begins-ways callbacks a h) [
  | inl same ↦ stay (init_begins callbacks) a same
  | inr (from, to, dead) ↦
      move (init_begins callbacks) a closed opened from to (opens callbacks dead)
]
step-Moves (init_ends answer) a w h = elim (init_ends-ways answer a h) [
  | inl same ↦ stay (init_ends answer) a same
  | inr (from, to, bad) ↦ move (init_ends answer) a opened closed from to (fails answer bad)
]
step-Moves gate_closes a w h = elim (gate_closes-ways a w h) [
  | inl same ↦ stay gate_closes a same
  | inr (inl (from, to)) ↦ move gate_closes a opened closing from to shuts
  | inr (inr (from, to, busy)) ↦ move gate_closes a closed closing from to (drains busy)
]
step-Moves teardown_publishes a w h = elim (teardown_publishes-ways a h) [
  | inl same ↦ stay teardown_publishes a same
  | inr (from, to, quiet, dead) ↦ move teardown_publishes a closing closed from to (ends quiet dead)
]
step-Moves (status_arrives linked authority) a w h = stay _ a (ground arith)
step-Moves imu_arrives a w h = stay _ a (ground arith)
step-Moves lidar_arrives a w h = stay _ a (ground arith)
step-Moves (sport_arrives sample) a w h = stay _ a (ground arith)
step-Moves delivery_ends a w h = stay _ a (ground arith)
step-Moves deinit_deferred a w h = stay _ a (ground arith)
step-Moves call_begins a w h = stay _ a (ground arith)
step-Moves call_ends a w h = stay _ a (ground arith)
step-Moves (subscribe_begins imu callback) a w h = stay _ a (ground arith)
step-Moves (subscribe_begins sport callback) a w h = stay _ a (ground arith)
step-Moves (subscribe_begins lidar callback) a w h = stay _ a (ground arith)
step-Moves (subscribe_ends success) a w h = stay _ a (ground arith)
step-Moves teardown_enters a w h = stay _ a (ground arith)
step-Moves deinit_ends a w h = stay _ a (ground arith)
step-Moves wait_ends a w h = stay _ a (ground arith)

run-IsGuarded :
    (es : List Event) (a : Adapter) → AllHaveWork es a → IsGuarded a → IsGuarded (run es a)
unfolding run
run-IsGuarded [] a w h = h
run-IsGuarded (e ∷ es) a (w, ws) h = run-IsGuarded es (step e a) ws (step-IsGuarded e a w h)

-- Over any interleaving from the constructor on in which, whenever a teardown closes the gate, there is
-- something to tear down or a callback to wait for: the next section of any thread, if it too has work
-- when it closes the gate, is a move of the abstract lifecycle. So an init begins only while the
-- vendor's library is not initialized, the adapter becomes closed only by a failed init or by the end
-- of a teardown, and that has no callback in flight and the library not initialized.
pub run-Moves :
    (es : List Event) (e : Event)
    → AllHaveWork es constructed
    → HasWork e (run es constructed)
    → let a = run es constructed in IsGuarded a × Moves a e (phase a.state) (phase (step e a).state)
run-Moves es e ws w =
    let h = run-IsGuarded es constructed ws constructed-IsGuarded in
    (h, step-Moves e (run es constructed) w h)
