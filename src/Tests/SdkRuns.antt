-- ===== src/Tests/SdkRuns.antt =====
-- The adapter's lifecycle at concrete interleavings.
use hypertron_sw01_ros2_brid.Prelude.{◌≡◌, refl, true, List, [], ◌∷◌, some}
use hypertron_sw01_ros2_brid.Sdk
use hypertron_sw01_ros2_brid.Sdk.{
  uninitialized, free, idle, entered, Adapter, constructed, failed, succeeded, Event,
  status_arrives, delivery_ends, deinit_deferred, init_begins, init_ends, teardown_enters,
  gate_closes, deinit_ends, wait_ends, teardown_publishes, step, run,
}
use hypertron_sw01_ros2_brid.Sdk.Lifecycle.{AllHaveWork, IsGuarded, Moves, phase, run-Moves}
use hypertron_sw01_ros2_brid.Sdk.Stale.{publish-overwrites}

abbrev session : List Event
session =
    init_begins 1
    ∷ init_ends succeeded
    ∷ status_arrives true true
    ∷ teardown_enters
    ∷ gate_closes
    ∷ deinit_ends
    ∷ delivery_ends
    ∷ wait_ends
    ∷ []

session-work : AllHaveWork session constructed
unfolding Sdk.step Sdk.begin_init Sdk.finish_init Sdk.finish_init_locked Sdk.deliver_status
    Sdk.enter_teardown Sdk.close_gate Sdk.close_gate_locked Sdk.finish_deinit Sdk.finish_delivery
    Sdk.finish_wait
session-work = (
  (λ p. cc),
  (
    (λ p. refl),
    ((λ p. refl), ((λ p. refl), ((λ p. refl), ((λ p. refl), ((λ p. refl), ((λ p. refl), tt)))))),
  ),
)

run-Moves_example :
    let a = run session constructed in
    IsGuarded a
    × Moves a teardown_publishes (phase a.state) (phase (step teardown_publishes a).state)
run-Moves_example = run-Moves session teardown_publishes session-work (λ p. cc)

-- A callback that is still running when its init fails asks for the deinit.
abbrev late_deinit : List Event
late_deinit =
    init_begins 1
    ∷ status_arrives true true
    ∷ init_ends failed
    ∷ deinit_deferred
    ∷ delivery_ends
    ∷ teardown_enters
    ∷ []

abbrev late : Adapter
late = run late_deinit constructed

late-state :
    (late.state ≡ uninitialized)
    × (late.in_flight ≡ 0)
    × (late.lifecycle ≡ free)
    × (late.teardown ≡ entered)
unfolding Sdk.run Sdk.step Sdk.begin_init Sdk.finish_init Sdk.finish_init_locked Sdk.deliver_status
    Sdk.enter_teardown Sdk.defer_deinit Sdk.finish_delivery
late-state = (refl, refl, refl, refl)

publish-overwrites_example :
    let a' =
      run (gate_closes ∷ init_begins 2 ∷ init_ends succeeded ∷ teardown_publishes ∷ []) late in
    (a'.state ≡ uninitialized)
    × (a'.vendor_live ≡ true)
    × (a'.callbacks ≡ some 2)
    × (a'.lifecycle ≡ free)
    × (a'.teardown ≡ idle)
publish-overwrites_example =
    publish-overwrites late 2 late-state.0 late-state.1 late-state.2 late-state.3
