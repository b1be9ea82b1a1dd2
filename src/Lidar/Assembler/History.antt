-- ===== src/Lidar/Assembler/History.antt =====
-- Whole histories of the frame assembler.
use hypertron_sw01_ros2_brid.Prelude.{
  ℕ, ◌≤◌, ◌<◌, max, ◌≡◌, refl, ◌∙◌, List, [], ◌∷◌, length, arith, inl, inr, Bool-cases, ◌==◌,
  replicate, length-replicate,
}
use hypertron_sw01_ros2_brid.Lidar.Types.{PointEq, PointCloudPacket, AssemblerConfig, no_stats}
use hypertron_sw01_ros2_brid.Lidar.Slot.{FrameSlot, empty_slot}
use hypertron_sw01_ros2_brid.Lidar.Assembler.{
  Assembler, construct, add_packet, expire, count_active, in_flight_count,
}
use hypertron_sw01_ros2_brid.Lidar.Assembler.Slots.{All-replicate, Distinct-empty}
use hypertron_sw01_ros2_brid.Lidar.Assembler.Invariant.{
  SlotSound, IsOrderly, add_packet-IsOrderly, expire-IsOrderly,
}
use hypertron_sw01_ros2_brid.Lidar.Assembler.Config.{add_packet-config, expire-config}

-- What the receive loop does to the assembler.
pub data Event (P : Type 0) : Type 0 where
  receives : ℕ → PointCloudPacket P → Event P
  expires : ℕ → Event P

construct-config :
    (P : Type 0) (config : AssemblerConfig)
    → (construct {P = P} config).config.max_parallel_frames ≡ max 1 config.max_parallel_frames
unfolding construct
construct-config P config = ground arith

module _ {P : Type 0} ⦃eq : PointEq P⦄ where
  unfoldable pub run : Assembler P → List (Event P) → Assembler P
  run a [] = a
  run a (receives now packet ∷ events) = run (add_packet now packet a).0 events
  run a (expires now ∷ events) = run (expire now a) events

  run-IsOrderly :
      (a : Assembler P) (events : List (Event P)) → IsOrderly a → IsOrderly (run a events)
  unfolding run
  run-IsOrderly a [] o = o
  run-IsOrderly a (receives now packet ∷ events) o =
      run-IsOrderly (add_packet now packet a).0 events (add_packet-IsOrderly now packet a o)
  run-IsOrderly a (expires now ∷ events) o =
      run-IsOrderly (expire now a) events (expire-IsOrderly now a o)

  construct-IsOrderly : (config : AssemblerConfig) → IsOrderly (construct {P = P} config)
  unfolding construct
  construct-IsOrderly config = elim (Bool-cases (config.max_parallel_frames == 0)) [
    | inl unset ↦
        rw (unset, construct) (fresh (record config { max_parallel_frames = 1 }) (omega arith))
    | inr given ↦ rw (given, construct) (fresh config (ground arith))
  ]
    where
      fresh :
          (c : AssemblerConfig)
          → 0 < c.max_parallel_frames
          → IsOrderly (record {
            slots = replicate c.max_parallel_frames (empty_slot {P = P});
            config = c;
            stats = no_stats;
          })
      fresh c h = record {
        some_slot = omega (arith, length-replicate c.max_parallel_frames (empty_slot {P = P}));
        sized = length-replicate c.max_parallel_frames empty_slot;
        sound = All-replicate (SlotSound c) c.max_parallel_frames empty_slot (λ h. cc);
        distinct = Distinct-empty P c.max_parallel_frames;
      }

  count_active-le : (ss : List (FrameSlot P)) → count_active ss ≤ length ss
  count_active-le [] = omega arith
  count_active-le (s ∷ ss) = ground (arith, count_active-le ss)

  run-config : (a : Assembler P) (events : List (Event P)) → (run a events).config ≡ a.config
  unfolding run
  run-config a [] = refl
  run-config a (receives now packet ∷ events) =
      run-config (add_packet now packet a).0 events ∙ add_packet-config now packet a
  run-config a (expires now ∷ events) = run-config (expire now a) events ∙ expire-config now a

  -- Over any history of packets, valid or not, and of expiries: the assembler keeps its slots, all
  -- active ones sound (ranges in order, disjoint and within the declared total, at most the configured
  -- packets and points) and with different timestamps, and never works on more frames than configured.
  pub run-construct-IsOrderly :
      (config : AssemblerConfig) (events : List (Event P))
      → IsOrderly (run (construct config) events)
        × (in_flight_count (run (construct config) events) ≤ max 1 config.max_parallel_frames)
  unfolding in_flight_count
  run-construct-IsOrderly config events =
      let o : IsOrderly (run (construct config) events) =
        run-IsOrderly (construct config) events (construct-IsOrderly config) in
      (
        o,
        ground (
          arith,
          o.sized,
          count_active-le (run (construct config) events).slots,
          run-config (construct config) events,
          construct-config P config,
        ),
      )
