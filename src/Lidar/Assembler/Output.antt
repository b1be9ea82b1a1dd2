-- ===== src/Lidar/Assembler/Output.antt =====
-- What `add_packet` hands to its caller.
use hypertron_sw01_ros2_brid.Prelude.{
  ℕ, ◌≤◌, ◌≡◌, refl, ap, ◌∙◌, sym, subst, true, Option, none, some, length, arith, inl, inr,
  Option-cases, get_elem?,
}
use hypertron_sw01_ros2_brid.Lidar.Types.{PointEq, PointCloudPacket, PointCloudFrame}
use hypertron_sw01_ros2_brid.Lidar.Slot.{
  FrameSlot, Verdict, conflict, duplicated, too_many, stored, mismatched, complete, feed,
}
use hypertron_sw01_ros2_brid.Lidar.Slot.Sound.{IsSound, IsWithin}
use hypertron_sw01_ros2_brid.Lidar.Slot.Publish.{Placed, feed-publishes}
use hypertron_sw01_ros2_brid.Lidar.Assembler.{
  Assembler, find_slot, slot_for_timestamp, conclude, add_at, drop_frame, place_packet, add_within,
  add_packet, opened, write_slot,
}
use hypertron_sw01_ros2_brid.Lidar.Assembler.Slots.{All-get, find_slot-found}
use hypertron_sw01_ros2_brid.Lidar.Assembler.Invariant.{
  SlotSound, IsOrderly, add_packet-cases, slot_for_timestamp-IsOrderly,
}
use hypertron_sw01_ros2_brid.Lidar.Assembler.AnyOrder.{slot_for_timestamp-Opens}

module _ {P : Type 0} where
  slot_for_timestamp-found :
      (now timestamp i : ℕ) (a : Assembler P)
      → find_slot timestamp a.slots ≡ some i
      → slot_for_timestamp now timestamp true a ≡ (a, some i)
  unfolding slot_for_timestamp
  slot_for_timestamp-found now timestamp i a f = rw (f, slot_for_timestamp) refl

  -- The slot that `slot_for_timestamp` gives is active and has the timestamp.
  slot_for_timestamp-slot :
      (now timestamp : ℕ) (a : Assembler P)
      → IsOrderly a
      → let (a', place) = slot_for_timestamp now timestamp true a in
        (i : ℕ) × (slot : FrameSlot P) × (place ≡ some i)
        × (get_elem? a'.slots i ≡ some slot)
        × (slot.active ≡ true)
        × (slot.timestamp_ns ≡ timestamp)
  slot_for_timestamp-slot now timestamp a o = elim (Option-cases (find_slot timestamp a.slots)) [
    | inr (i, found) ↦
        let (slot, at, active, stamp) = find_slot-found timestamp i a.slots found in
        let e = slot_for_timestamp-found now timestamp i a found in
        (i, slot, ap (λ r. r.1) e, ap (λ r. get_elem? r.0.slots i) e ∙ at, active, stamp)
    | inl missing ↦
        let (i, a', e, at, found, c) =
          slot_for_timestamp-Opens now timestamp a missing o.some_slot in
        (
          i,
          opened now timestamp,
          ap (λ r. r.1) e,
          ap (λ r. get_elem? r.0.slots i) e ∙ at,
          refl,
          refl,
        )
  ]

  conclude-complete :
      (i : ℕ) (v : Verdict P) (a : Assembler P) (frame : PointCloudFrame P)
      → (conclude i v a).1 ≡ some frame
      → v ≡ complete frame
  unfolding conclude
  conclude-complete i conflict a frame e = cc
  conclude-complete i duplicated a frame e = cc
  conclude-complete i too_many a frame e = cc
  conclude-complete i stored a frame e = cc
  conclude-complete i mismatched a frame e = cc
  conclude-complete i (complete f) a frame e = cc

module _ {P : Type 0} ⦃eq : PointEq P⦄ where
  drop_frame-silent :
      (now : ℕ) (packet : PointCloudPacket P) (a : Assembler P) → (drop_frame now packet a).1 ≡ none
  unfolding drop_frame
  drop_frame-silent now packet a = ground arith

  place_packet-at :
      (packet : PointCloudPacket P) (r : Assembler P × Option ℕ) (i : ℕ)
      → r.1 ≡ some i
      → place_packet packet r ≡ add_at i packet r.0
  place_packet-at packet (a, none) i e = cc
  place_packet-at packet (a, some j) i e = let same : j ≡ i = cc in ap (λ k. add_at k packet a) same

  add_at-verdict :
      (i : ℕ) (packet : PointCloudPacket P) (slot : FrameSlot P) (a : Assembler P)
      (frame : PointCloudFrame P)
      → get_elem? a.slots i ≡ some slot
      → (add_at i packet a).1 ≡ some frame
      → (feed a.config packet slot).1 ≡ complete frame
  unfolding add_at
  add_at-verdict i packet slot a frame at h =
      conclude-complete i (feed a.config packet slot).1
        (write_slot i (feed a.config packet slot).0 a) frame (rw (at, add_at) at h)

  -- In any state that a history can reach, a frame that `add_packet` gives back is the packet's frame:
  -- it has the packet's timestamp and exactly the declared number of points, within the configured
  -- limit, and the packet's points stand at the packet's offset. Only a parsed packet within its frame
  -- brings one.
  pub add_packet-publishes :
      (now : ℕ) (packet : PointCloudPacket P) (a : Assembler P) (frame : PointCloudFrame P)
      → IsOrderly a
      → (add_packet now packet a).1 ≡ some frame
      → (frame.timestamp_ns ≡ packet.timestamp_ns)
        × (frame.total_points ≡ packet.total)
        × (length frame.points ≡ packet.total)
        × (packet.total ≤ a.config.max_points_per_frame)
        × Placed packet.index packet.points frame.points
        × (packet.ok ≡ true)
  unfolding add_within
  add_packet-publishes now packet a frame o h = elim (add_packet-cases now packet a) [
    | inl e ↦ cc (ap (λ r. r.1) e, h)
    | inr (inl e) ↦ cc (ap (λ r. r.1) e, drop_frame-silent now packet a, h)
    | inr (inr (parsed, w, e)) ↦
        let r : Assembler P × Option ℕ = slot_for_timestamp now packet.timestamp_ns true a in
        let (i, slot, place, at, active, stamp) =
          slot_for_timestamp-slot now packet.timestamp_ns a o in
        let (o', c) = slot_for_timestamp-IsOrderly now packet.timestamp_ns true a o in
        let out : (add_at i packet r.0).1 ≡ some frame =
          ap (λ x. x.1) (sym (e ∙ place_packet-at packet r i place)) ∙ h in
        let sound : IsSound r.0.config slot =
          All-get (SlotSound r.0.config) r.0.slots i o'.sound at active in
        let w' = subst (λ g. IsWithin g packet) (sym c) w in
        let (t, n, size, placed, _) =
          feed-publishes r.0.config packet slot frame sound w'
            (add_at-verdict i packet slot r.0 frame at out) in
        (t ∙ stamp, n, size, w.capped, placed, parsed)
  ]
