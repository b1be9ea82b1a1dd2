-- ===== src/Lidar/Slot.antt =====
-- One slot of the frame assembler, and the part of `add_packet` that works on the packet's slot.
-- `packets` is the `std::map` from a packet's first point to its points, in the order of its keys.
-- Sizes of vectors and offsets lie far below 2^64, so their sums are not wrapped.
pub mod Ranges
pub mod Sound
pub mod Publish
use hypertron_sw01_ros2_brid.Prelude.{
  ℕ, ◌+◌, ◌≡◌, Bool, true, false, ◌&&◌, ◌||◌, not, List, [], ◌∷◌, ◌++◌, Option, none, some, length,
  ltb, leb, ◌==◌, if◌then◌else◌,
}
use hypertron_sw01_ros2_brid.Lidar.Types.{
  PointEq, same_points, PointCloudPacket, PointCloudFrame, AssemblerConfig,
}

pub record FrameSlot (P : Type 0) : Type 0 where
  pub active : Bool
  pub timestamp_ns : ℕ
  pub total : ℕ
  pub packets : List (ℕ × List P)
  pub unique_indices : ℕ
  pub sum_points : ℕ
  pub activated_at : ℕ

abbrev pub empty_slot : {P : Type 0} → FrameSlot P
empty_slot = record {
  active = false;
  timestamp_ns = 0;
  total = 0;
  packets = [];
  unique_indices = 0;
  sum_points = 0;
  activated_at = 0;
}

-- What `add_packet` does with the slot after it looked at it: the paths that return.
pub data Verdict (P : Type 0) : Type 0 where
  conflict : Verdict P
  duplicated : Verdict P
  too_many : Verdict P
  stored : Verdict P
  mismatched : Verdict P
  complete : PointCloudFrame P → Verdict P

abbrev pub is_total : Option ℕ → ℕ → Bool
is_total none total = false
is_total (some e) total = e == total

module _ {P : Type 0} where
  -- `packets.find(index)`.
  unfoldable pub find_packet : ℕ → List (ℕ × List P) → Option (List P)
  find_packet index [] = none
  find_packet index ((k, pts) ∷ rest) = if k == index then some pts else find_packet index rest

  -- `packets.lower_bound(index)`: the first entry whose key is not below `index`.
  unfoldable pub lower_bound : ℕ → List (ℕ × List P) → Option (ℕ × List P)
  lower_bound index [] = none
  lower_bound index ((k, pts) ∷ rest) =
      if ltb k index then lower_bound index rest else some (k, pts)

  -- `std::prev` of the lower bound, if that is not the map's beginning.
  unfoldable pub before_bound : ℕ → Option (ℕ × List P) → List (ℕ × List P) → Option (ℕ × List P)
  before_bound index last [] = last
  before_bound index last ((k, pts) ∷ rest) =
      if ltb k index then before_bound index (some (k, pts)) rest else last

  -- `packets.emplace(index, points)`: nothing happens if the key is there.
  unfoldable pub emplace : ℕ → List P → List (ℕ × List P) → List (ℕ × List P)
  emplace index points [] = (index, points) ∷ []
  emplace index points ((k, pts) ∷ rest) =
      if ltb index k
      then (index, points) ∷ (k, pts) ∷ rest
      else if k == index
      then (k, pts) ∷ rest
      else (k, pts) ∷ emplace index points rest

  -- The scan of the completeness check: the end of the ranges, if they follow each other.
  unfoldable pub contiguous_end : ℕ → List (ℕ × List P) → Option ℕ
  contiguous_end expected [] = some expected
  contiguous_end expected ((k, pts) ∷ rest) =
      if k == expected then contiguous_end (expected + length pts) rest else none

  -- The loop that fills `frame.points`.
  unfoldable pub all_points : List (ℕ × List P) → List P
  all_points [] = []
  all_points ((k, pts) ∷ rest) = pts ++ all_points rest

  abbrev pub overlaps_next : ℕ → ℕ → Option (ℕ × List P) → Bool
  overlaps_next index size none = false
  overlaps_next index size (some (k, pts)) = ltb k (index + size)

  abbrev pub overlaps_prev : ℕ → Option (ℕ × List P) → Bool
  overlaps_prev index none = false
  overlaps_prev index (some (k, pts)) = ltb index (k + length pts)

  -- The completeness check.
  unfoldable pub is_complete : FrameSlot P → Bool
  unfolding contiguous_end
  is_complete slot =
      slot.sum_points == slot.total
      && ltb 0 slot.unique_indices
      && is_total (contiguous_end 0 slot.packets) slot.total

  -- From the store of the packet on.
  unfoldable pub store : PointCloudPacket P → FrameSlot P → FrameSlot P × Verdict P
  unfolding emplace is_complete all_points
  store packet slot =
      let slot' : FrameSlot P = record slot {
        packets = emplace packet.index packet.points slot.packets;
        unique_indices = slot.unique_indices + 1;
        sum_points = slot.sum_points + length packet.points;
      } in
      let frame : PointCloudFrame P = record {
        timestamp_ns = slot'.timestamp_ns;
        total_points = slot'.total;
        points = all_points slot'.packets;
      } in
      if not (is_complete slot')
      then (slot', stored)
      else if not (length frame.points == slot'.total)
      then (slot', mismatched)
      else (slot', complete frame)

  -- From the lookup of the starting offset on.
  unfoldable pub place :
      ⦃e : PointEq P⦄ → AssemblerConfig → PointCloudPacket P → FrameSlot P → FrameSlot P × Verdict P
  place config packet slot = elim (find_packet packet.index slot.packets) [
    | some pts ↦ if same_points pts packet.points then (slot, duplicated) else (slot, conflict)
    | none ↦
        if leb config.max_packets_per_frame (length slot.packets)
        then (slot, too_many)
        else if overlaps_next packet.index (length packet.points)
            (lower_bound packet.index slot.packets)
        then (slot, conflict)
        else if overlaps_prev packet.index (before_bound packet.index none slot.packets)
        then (slot, conflict)
        else if ltb slot.total (slot.sum_points + length packet.points)
            || ltb config.max_points_per_frame (slot.sum_points + length packet.points)
        then (slot, conflict)
        else store packet slot
  ]

  -- From the check of the declared total on.
  unfoldable pub feed :
      ⦃e : PointEq P⦄ → AssemblerConfig → PointCloudPacket P → FrameSlot P → FrameSlot P × Verdict P
  feed config packet slot =
      if ltb 0 slot.unique_indices && not (slot.total == packet.total)
      then (slot, conflict)
      else place config packet
          (if slot.unique_indices == 0 then record slot { total = packet.total } else slot)
