-- ===== src/Lidar/Assembler.antt =====
-- `PointCloudFrameAssembler`: its slots, `add_packet` and `expire`. Time is read from a steady clock,
-- whose readings are the arguments `now`, in the ticks of `frame_timeout`.
pub mod Slots
pub mod Invariant
pub mod Config
pub mod History
pub mod Delivery
pub mod AnyOrder
pub mod Output
use hypertron_sw01_ros2_brid.Prelude.{
  ℕ, zero, suc, ◌+◌, ◌-◌, ◌≡◌, Bool, true, false, ◌&&◌, ◌||◌, not, List, [], ◌∷◌, Option, none,
  some, length, get_elem?, set, replicate, ltb, leb, ◌==◌, if◌then◌else◌, map,
}
use hypertron_sw01_ros2_brid.Lidar.Types.{
  PointEq, PointCloudPacket, PointCloudFrame, AssemblerConfig, Stats, no_stats, bump,
}
use hypertron_sw01_ros2_brid.Lidar.Slot.{
  FrameSlot, empty_slot, Verdict, conflict, duplicated, too_many, stored, mismatched, complete,
  feed,
}

pub record Assembler (P : Type 0) : Type 0 where
  pub slots : List (FrameSlot P)
  pub config : AssemblerConfig
  pub stats : Stats

pub data FinalizeReason : Type 0 where
  published timed_out conflicted : FinalizeReason

-- The second loop of `slot_for_timestamp` looks for the first free slot, else for the active one with
-- the earliest activation.
pub data Choice : Type 0 where
  free : ℕ → Choice
  oldest : ℕ → Choice
  nothing : Choice

abbrev pub is_earlier : ℕ → Option (ℕ × ℕ) → Bool
is_earlier t none = true
is_earlier t (some (i, t')) = ltb t t'

abbrev pub choice_of : Option (ℕ × ℕ) → Choice
choice_of none = nothing
choice_of (some (i, t)) = oldest i

abbrev pub shifted : Option ℕ → Option ℕ
shifted none = none
shifted (some i) = some (suc i)

abbrev pub count_drop : FinalizeReason → Stats → Stats
count_drop published s = s
count_drop timed_out s = record s { frames_dropped_timeout = bump s.frames_dropped_timeout }
count_drop conflicted s = record s { frames_dropped_conflict = bump s.frames_dropped_conflict }

module _ {P : Type 0} where
  unfoldable pub construct : AssemblerConfig → Assembler P
  construct config =
      let config' : AssemblerConfig =
        if config.max_parallel_frames == 0
        then record config { max_parallel_frames = 1 }
        else config in
      record {
        slots = replicate config'.max_parallel_frames empty_slot;
        config = config';
        stats = no_stats;
      }

  -- `finalize_slot` on the slot itself.
  abbrev pub cleared : FrameSlot P → FrameSlot P
  cleared slot = record slot { active = false; packets = []; unique_indices = 0; sum_points = 0 }

  unfoldable pub finalize_slot : ℕ → FinalizeReason → Assembler P → Assembler P
  finalize_slot i reason a = elim (get_elem? a.slots i) [
    | none ↦ a
    | some slot ↦
        if not slot.active
        then a
        else record a { slots = set a.slots i (cleared slot); stats = count_drop reason a.stats }
  ]

  -- The first loop of `slot_for_timestamp`: the place of the active slot with this timestamp.
  unfoldable pub find_slot : ℕ → List (FrameSlot P) → Option ℕ
  find_slot timestamp [] = none
  find_slot timestamp (slot ∷ slots) =
      if slot.active && slot.timestamp_ns == timestamp
      then some 0
      else shifted (find_slot timestamp slots)

  -- `best` is the earliest so far with its place; none stands for `time_point::max()`.
  unfoldable pub choose : ℕ → Option (ℕ × ℕ) → List (FrameSlot P) → Choice
  choose i best [] = choice_of best
  choose i best (slot ∷ slots) =
      if not slot.active
      then free i
      else choose (suc i)
          (if is_earlier slot.activated_at best then some (i, slot.activated_at) else best) slots

  -- A slot as it is just after its activation.
  abbrev pub opened : ℕ → ℕ → FrameSlot P
  opened now timestamp = record {
    active = true;
    timestamp_ns = timestamp;
    total = 0;
    packets = [];
    unique_indices = 0;
    sum_points = 0;
    activated_at = now;
  }

  abbrev pub write_slot : ℕ → FrameSlot P → Assembler P → Assembler P
  write_slot i slot a = record a { slots = set a.slots i slot }

  abbrev pub with_stats : Stats → Assembler P → Assembler P
  with_stats s a = record a { stats = s }

  unfoldable pub open_slot : ℕ → ℕ → Choice → Assembler P → Assembler P × Option ℕ
  open_slot now timestamp nothing a = (a, none)
  open_slot now timestamp (free i) a = (write_slot i (opened now timestamp) a, some i)
  open_slot now timestamp (oldest i) a =
      let a' : Assembler P = finalize_slot i published a in
      let s : Stats = record a'.stats {
        frames_dropped_capacity = bump a'.stats.frames_dropped_capacity;
      } in
      (write_slot i (opened now timestamp) (with_stats s a'), some i)

  -- The place of the slot, if there is one.
  unfoldable pub slot_for_timestamp : ℕ → ℕ → Bool → Assembler P → Assembler P × Option ℕ
  slot_for_timestamp now timestamp create a = elim (find_slot timestamp a.slots) [
    | some i ↦ (a, some i)
    | none ↦ if not create then (a, none) else open_slot now timestamp (choose 0 none a.slots) a
  ]

  abbrev pub reject : Assembler P → Assembler P × Option (PointCloudFrame P)
  reject a =
      (with_stats (record a.stats { packets_rejected = bump a.stats.packets_rejected }) a, none)

  abbrev pub accept : Assembler P → Assembler P
  accept a = with_stats (record a.stats { packets_accepted = bump a.stats.packets_accepted }) a

  abbrev pub publish : Assembler P → Assembler P
  publish a = with_stats (record a.stats { frames_published = bump a.stats.frames_published }) a

  -- What `add_packet` does to the counters and the slot on each of its last paths.
  unfoldable pub conclude : ℕ → Verdict P → Assembler P → Assembler P × Option (PointCloudFrame P)
  conclude i conflict a = (finalize_slot i conflicted a, none)
  conclude i duplicated a =
      (with_stats (record a.stats { packets_duplicated = bump a.stats.packets_duplicated }) a, none)
  conclude i too_many a = reject a
  conclude i stored a = (accept a, none)
  conclude i mismatched a = (finalize_slot i conflicted (accept a), none)
  conclude i (complete frame) a = (finalize_slot i published (publish (accept a)), some frame)

  abbrev pub is_out_of_frame : PointCloudPacket P → Bool
  is_out_of_frame packet =
      leb packet.total packet.index || ltb packet.total (packet.index + length packet.points)

  -- `add_packet` once the slot's place is known.
  unfoldable pub add_at :
      ⦃e : PointEq P⦄
      → ℕ
      → PointCloudPacket P
      → Assembler P
      → Assembler P × Option (PointCloudFrame P)
  add_at i packet a = elim (get_elem? a.slots i) [
    | none ↦ reject a
    | some slot ↦
        let (slot', verdict) = feed a.config packet slot in
        conclude i verdict (write_slot i slot' a)
  ]

  -- The case of a packet outside its frame.
  unfoldable pub drop_frame :
      ℕ → PointCloudPacket P → Assembler P → Assembler P × Option (PointCloudFrame P)
  drop_frame now packet a = elim (slot_for_timestamp now packet.timestamp_ns false a).1 [
    | some i ↦ (finalize_slot i conflicted a, none)
    | none ↦ reject a
  ]

  abbrev pub place_packet :
      ⦃e : PointEq P⦄
      → PointCloudPacket P
      → Assembler P × Option ℕ
      → Assembler P × Option (PointCloudFrame P)
  place_packet packet (a, none) = reject a
  place_packet packet (a, some i) = add_at i packet a

  -- The case of a packet within its frame.
  unfoldable pub add_within :
      ⦃e : PointEq P⦄
      → ℕ
      → PointCloudPacket P
      → Assembler P
      → Assembler P × Option (PointCloudFrame P)
  add_within now packet a = place_packet packet (slot_for_timestamp now packet.timestamp_ns true a)

  unfoldable pub add_packet :
      ⦃e : PointEq P⦄
      → ℕ
      → PointCloudPacket P
      → Assembler P
      → Assembler P × Option (PointCloudFrame P)
  add_packet now packet a =
      if not packet.ok
      then reject a
      else if packet.total == 0 || ltb a.config.max_points_per_frame packet.total
      then reject a
      else if is_out_of_frame packet
      then drop_frame now packet a
      else add_within now packet a

  -- The body of the loop of `expire`.
  unfoldable pub expire_at : ℕ → ℕ → Assembler P → Assembler P
  expire_at now i a = elim (get_elem? a.slots i) [
    | none ↦ a
    | some slot ↦
        if not slot.active
        then a
        else if leb a.config.frame_timeout (now - slot.activated_at)
        then finalize_slot i timed_out a
        else a
  ]

  -- The loop from place `i` on, for `n` places.
  unfoldable pub expire_from : ℕ → ℕ → ℕ → Assembler P → Assembler P
  expire_from now i zero a = a
  expire_from now i (suc n) a = expire_from now (suc i) n (expire_at now i a)

  unfoldable pub expire : ℕ → Assembler P → Assembler P
  expire now a = expire_from now 0 (length a.slots) a

  abbrev pub count_active : List (FrameSlot P) → ℕ
  count_active [] = 0
  count_active (slot ∷ slots) = (if slot.active then 1 else 0) + count_active slots

  unfoldable pub in_flight_count : Assembler P → ℕ
  in_flight_count a = count_active a.slots
