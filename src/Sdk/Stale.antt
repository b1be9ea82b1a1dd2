-- ===== src/Sdk/Stale.antt =====
-- What happens when a teardown finds nothing to do: its last section may overwrite a newer init.
use hypertron_sw01_ros2_brid.Prelude.{ℕ, ◌≡◌, true, [], ◌∷◌, some, arith}
use hypertron_sw01_ros2_brid.Sdk.{
  uninitialized, free, idle, entered, Adapter, begin_init, succeeded, finish_init_locked,
  finish_init, close_gate_locked, close_gate, publish, gate_closes, init_begins, init_ends,
  teardown_publishes, step, run,
}

-- If a teardown is about to close the gate of an adapter that is uninitialized with no callback in
-- flight, and before it publishes its end another thread's init begins and succeeds, then the adapter
-- ends up uninitialized, with neither a teardown nor another call under way, while the vendor's library is initialized and the
-- init's callbacks are installed.
pub publish-overwrites :
    (a : Adapter) (callbacks : ℕ)
    → a.state ≡ uninitialized
    → a.in_flight ≡ 0
    → a.lifecycle ≡ free
    → a.teardown ≡ entered
    → let a' =
        run
          (gate_closes ∷ init_begins callbacks ∷ init_ends succeeded ∷ teardown_publishes ∷ [])
          a in
      (a'.state ≡ uninitialized)
      × (a'.vendor_live ≡ true)
      × (a'.callbacks ≡ some callbacks)
      × (a'.lifecycle ≡ free)
      × (a'.teardown ≡ idle)
unfolding run step close_gate close_gate_locked begin_init finish_init finish_init_locked publish
publish-overwrites a callbacks s f l t = ground arith
