-- ===== src/Lidar/Slot/Sound.antt =====
-- What holds of an active slot between two packets, and that `add_packet` keeps it.
use hypertron_sw01_ros2_brid.Prelude.{
  ℕ, ◌+◌, ◌≤◌, ◌<◌, ◌≡◌, ◌≢◌, refl, ◌∙◌, sym, subst, false, List, [], ◌∷◌, none, length, arith, ◌⊎◌,
  inl, inr, Bool-cases, ◌==◌,
}
use hypertron_sw01_ros2_brid.Lidar.Types.{
  PointEq, PointCloudPacket, PointCloudFrame, AssemblerConfig,
}
use hypertron_sw01_ros2_brid.Lidar.Slot.{
  FrameSlot, Verdict, conflict, duplicated, too_many, stored, mismatched, complete, find_packet,
  lower_bound, before_bound, emplace, is_complete, overlaps_next, overlaps_prev, store, place, feed,
  all_points,
}
use hypertron_sw01_ros2_brid.Lidar.Slot.Ranges.{
  Ranges, sum_sizes, full-contiguous, length-all_points, emplace-Ranges, length-emplace,
  sum_sizes-emplace,
}

-- The packets' ranges are in order, disjoint and within the frame; the counters count them; and the
-- limits on packets and points hold.
pub record IsSound {P : Type 0} (config : AssemblerConfig) (slot : FrameSlot P) : Type 0 where
  pub ranges : Ranges 0 slot.total slot.packets
  pub counted : slot.unique_indices ≡ length slot.packets
  pub summed : slot.sum_points ≡ sum_sizes slot.packets
  pub few : length slot.packets ≤ config.max_packets_per_frame
  pub small : slot.total ≤ config.max_points_per_frame

-- What `add_packet` has checked before it looks for the slot.
pub record IsWithin {P : Type 0} (config : AssemblerConfig) (packet : PointCloudPacket P)
    : Type 0 where
  pub starts : packet.index < packet.total
  pub ends : packet.index + length packet.points ≤ packet.total
  pub capped : packet.total ≤ config.max_points_per_frame

module _ {P : Type 0} where
  -- The checks of `place` that let a packet through to `store`.
  pub record Passes (config : AssemblerConfig) (packet : PointCloudPacket P) (slot : FrameSlot P)
      : Type 0 where
    pub fresh : find_packet packet.index slot.packets ≡ none
    pub room : length slot.packets < config.max_packets_per_frame
    pub next_clear :
        overlaps_next packet.index (length packet.points) (lower_bound packet.index slot.packets)
        ≡ false
    pub prev_clear :
        overlaps_prev packet.index (before_bound packet.index none slot.packets) ≡ false

  -- The slot with the packet added.
  abbrev pub grown : PointCloudPacket P → FrameSlot P → FrameSlot P
  grown packet slot = record slot {
    packets = emplace packet.index packet.points slot.packets;
    unique_indices = slot.unique_indices + 1;
    sum_points = slot.sum_points + length packet.points;
  }

  -- The frame of a slot.
  abbrev pub frame_of : FrameSlot P → PointCloudFrame P
  frame_of slot = record {
    timestamp_ns = slot.timestamp_ns;
    total_points = slot.total;
    points = all_points slot.packets;
  }

  pub grown-IsSound :
      (config : AssemblerConfig) (packet : PointCloudPacket P) (slot : FrameSlot P)
      → IsSound config slot
      → IsWithin config packet
      → packet.total ≡ slot.total
      → Passes config packet slot
      → IsSound config (grown packet slot)
  grown-IsSound config packet slot s w e p = record {
    ranges =
        emplace-Ranges 0 slot.total packet.index packet.points slot.packets s.ranges (omega arith)
          (omega arith) (omega arith) p.fresh p.next_clear p.prev_clear;
    counted = omega (arith, length-emplace packet.index packet.points slot.packets p.fresh);
    summed = omega (arith, sum_sizes-emplace packet.index packet.points slot.packets p.fresh);
    few = omega (arith, length-emplace packet.index packet.points slot.packets p.fresh);
    small = s.small;
  }

  -- A sound slot is complete exactly when its points add up to the total: no gap is ever found then.
  sound-is_complete :
      (config : AssemblerConfig) (slot : FrameSlot P)
      → IsSound config slot
      → 0 < slot.unique_indices
      → is_complete slot ≡ (slot.sum_points == slot.total)
  unfolding is_complete
  sound-is_complete config slot s u =
      ground (arith, full-contiguous 0 slot.total slot.packets s.ranges)

  -- If the slot with the packet is sound, `store` publishes its frame exactly when the points add up to
  -- the total, and otherwise only stores; it never finds a frame of the wrong size.
  pub store-cases :
      (config : AssemblerConfig) (packet : PointCloudPacket P) (slot : FrameSlot P)
      → IsSound config (grown packet slot)
      → ((slot.sum_points + length packet.points ≡ slot.total)
          × (store packet slot ≡ (grown packet slot, complete (frame_of (grown packet slot)))))
        ⊎ ((slot.sum_points + length packet.points ≢ slot.total)
            × (store packet slot ≡ (grown packet slot, stored)))
  unfolding store
  store-cases config packet slot s = ground (
    arith,
    sound-is_complete config (grown packet slot) s,
    length-all_points (grown packet slot).packets,
  )

  -- The paths that leave the slot's packets as they are.
  abbrev pub KeepsSlot : Verdict P → Type 0
  KeepsSlot conflict = Unit {0}
  KeepsSlot duplicated = Unit {0}
  KeepsSlot too_many = Unit {0}
  KeepsSlot stored = ⊥
  KeepsSlot mismatched = ⊥
  KeepsSlot (complete frame) = ⊥

  pub place-cases :
      ⦃eq : PointEq P⦄ (config : AssemblerConfig) (packet : PointCloudPacket P) (slot : FrameSlot P)
      → (((place config packet slot).0 ≡ slot) × KeepsSlot (place config packet slot).1)
        ⊎ (Passes config packet slot
            × (slot.sum_points + length packet.points ≤ slot.total)
            × (place config packet slot ≡ store packet slot))
  unfolding place
  place-cases config packet slot = ground arith

  place-IsSound :
      ⦃eq : PointEq P⦄ (config : AssemblerConfig) (packet : PointCloudPacket P) (slot : FrameSlot P)
      → IsSound config slot
      → IsWithin config packet
      → packet.total ≡ slot.total
      → IsSound config (place config packet slot).0
  place-IsSound config packet slot s w e = elim (place-cases config packet slot) [
    | inl (same, _) ↦ subst (IsSound config) (sym same) s
    | inr (p, _, same) ↦
        let g : IsSound config (grown packet slot) = grown-IsSound config packet slot s w e p in
        elim (store-cases config packet slot g) [
          | inl (_, e') ↦ subst (λ r. IsSound config r.0) (sym (same ∙ e')) g
          | inr (_, e') ↦ subst (λ r. IsSound config r.0) (sym (same ∙ e')) g
        ]
  ]

  -- A slot without packets is sound for any total within the limit.
  pub retotal-IsSound :
      (config : AssemblerConfig) (slot : FrameSlot P) (total : ℕ)
      → IsSound config slot
      → slot.unique_indices ≡ 0
      → total ≤ config.max_points_per_frame
      → IsSound config (record slot { total = total })
  retotal-IsSound config slot total s e h = retotal slot.packets refl
    where
      retotal :
          (es : List (ℕ × List P))
          → slot.packets ≡ es
          → IsSound config (record slot { total = total })
      retotal [] p = record {
        ranges = subst (Ranges 0 total) (sym p) (omega arith);
        counted = s.counted;
        summed = s.summed;
        few = s.few;
        small = h;
      }
      retotal (x ∷ es) p = absurd (ground (arith, s.counted))

  pub feed-IsSound :
      ⦃eq : PointEq P⦄ (config : AssemblerConfig) (packet : PointCloudPacket P) (slot : FrameSlot P)
      → IsSound config slot
      → IsWithin config packet
      → IsSound config (feed config packet slot).0
  unfolding feed
  feed-IsSound config packet slot s w = elim (Bool-cases (slot.unique_indices == 0)) [
    | inl none_yet ↦
        let zero' : slot.unique_indices ≡ 0 = ground arith in
        rw (none_yet, feed)
          (ground (
            arith,
            place-IsSound config packet (record slot { total = packet.total })
                (retotal-IsSound config slot packet.total s zero' w.capped) w refl,
          ))
    | inr some_yet ↦ ground (arith, place-IsSound config packet slot s w)
  ]

  store-keeps :
      (packet : PointCloudPacket P) (slot : FrameSlot P)
      → ((store packet slot).0.active ≡ slot.active)
        × ((store packet slot).0.timestamp_ns ≡ slot.timestamp_ns)
  unfolding store
  store-keeps packet slot = ground arith

  place-keeps :
      ⦃eq : PointEq P⦄ (config : AssemblerConfig) (packet : PointCloudPacket P) (slot : FrameSlot P)
      → ((place config packet slot).0.active ≡ slot.active)
        × ((place config packet slot).0.timestamp_ns ≡ slot.timestamp_ns)
  unfolding place
  place-keeps config packet slot = ground (arith, store-keeps packet slot)

  -- The slot stays active for its timestamp; only `finalize_slot` frees it.
  pub feed-keeps :
      ⦃eq : PointEq P⦄ (config : AssemblerConfig) (packet : PointCloudPacket P) (slot : FrameSlot P)
      → ((feed config packet slot).0.active ≡ slot.active)
        × ((feed config packet slot).0.timestamp_ns ≡ slot.timestamp_ns)
  unfolding feed
  feed-keeps config packet slot = ground (
    arith,
    place-keeps config packet slot,
    place-keeps config packet (record slot { total = packet.total }),
  )
