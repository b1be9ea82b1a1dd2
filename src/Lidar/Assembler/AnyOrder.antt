-- ===== src/Lidar/Assembler/AnyOrder.antt =====
-- The frame of a timestamp that no slot works on, from its packets in any order.
use hypertron_sw01_ros2_brid.Prelude.{
  ℕ, suc, ◌+◌, ◌≤◌, ◌<◌, ◌≡◌, refl, ap, ◌∙◌, sym, subst, true, List, [], ◌∷◌, Option, none, some,
  length, arith, inl, inr, Bool-cases, Option-cases, All, get_elem?, length-set,
}
use hypertron_sw01_ros2_brid.Lidar.Types.{
  PointEq, PointCloudPacket, PointCloudFrame, AssemblerConfig,
}
use hypertron_sw01_ros2_brid.Lidar.Slot.{FrameSlot, feed}
use hypertron_sw01_ros2_brid.Lidar.Slot.Sound.{IsSound, IsWithin}
use hypertron_sw01_ros2_brid.Lidar.Slot.Publish.{Placed, Apart}
use hypertron_sw01_ros2_brid.Lidar.Assembler.{
  Assembler, FinalizeReason, published, cleared, Choice, free, oldest, nothing, choose, find_slot,
  opened, finalize_slot, open_slot, slot_for_timestamp, conclude, place_packet, add_at, add_within,
  add_packet, write_slot, with_stats,
}
use hypertron_sw01_ros2_brid.Lidar.Assembler.Slots.{
  get_elem?-set_self, get_elem?-lt, set-set, find_slot-set_same, find_slot-set_new, Chosen,
  choose-in_range,
}
use hypertron_sw01_ros2_brid.Lidar.Assembler.Invariant.{IsOrderly}
use hypertron_sw01_ros2_brid.Lidar.Assembler.Delivery.{
  IsReady, IsPart, within-add, ready-add, frames_of, sum_points, AllApart, ready-frames,
  append_frame,
}
use hypertron_sw01_ros2_brid.Lidar.Assembler.Invariant.{finalize_slot-keeps}

module _ {P : Type 0} where
  -- A slot was opened for the timestamp at place `i`.
  abbrev pub Opens : ℕ → ℕ → Assembler P → Assembler P × Option ℕ → Type 0
  Opens now timestamp a r =
      (i : ℕ) × (a' : Assembler P) × (r ≡ (a', some i))
      × (get_elem? a'.slots i ≡ some (opened now timestamp))
      × (find_slot timestamp a'.slots ≡ some i)
      × (a'.config ≡ a.config)

  length-finalize_slot :
      (i : ℕ) (reason : FinalizeReason) (a : Assembler P)
      → length (finalize_slot i reason a).slots ≡ length a.slots
  unfolding finalize_slot
  length-finalize_slot i reason a = elim (Option-cases (get_elem? a.slots i)) [
    | inl out ↦ rw (out, finalize_slot) refl
    | inr (slot, at) ↦ elim (Bool-cases slot.active) [
      | inr idle ↦ rw (at, idle, finalize_slot) refl
      | inl busy ↦ rw (at, busy, finalize_slot) (length-set a.slots i (cleared slot))
    ]
  ]

  open_slot-Opens :
      (now timestamp : ℕ) (choice : Choice) (a : Assembler P)
      → find_slot timestamp a.slots ≡ none
      → Chosen (length a.slots) choice
      → Opens now timestamp a (open_slot now timestamp choice a)
  unfolding open_slot
  open_slot-Opens now timestamp nothing a f c = absurd c
  open_slot-Opens now timestamp (free i) a f c = (
    i,
    write_slot i (opened now timestamp) a,
    refl,
    get_elem?-set_self a.slots i _ c,
    find_slot-set_new timestamp i (opened now timestamp) a.slots f c refl refl,
    refl,
  )
  open_slot-Opens now timestamp (oldest i) a f c =
      let a' : Assembler P = finalize_slot i published a in
      let kept = finalize_slot-keeps i timestamp published a f in
      let c' : i < length a'.slots = omega (arith, length-finalize_slot i published a) in
      (
        i,
        write_slot i (opened now timestamp) (with_stats _ a'),
        refl,
        get_elem?-set_self a'.slots i _ c',
        find_slot-set_new timestamp i (opened now timestamp) a'.slots kept.0 c' refl refl,
        kept.1,
      )

  pub slot_for_timestamp-Opens :
      (now timestamp : ℕ) (a : Assembler P)
      → find_slot timestamp a.slots ≡ none
      → 0 < length a.slots
      → Opens now timestamp a (slot_for_timestamp now timestamp true a)
  unfolding slot_for_timestamp
  slot_for_timestamp-Opens now timestamp a f h =
      rw (f, slot_for_timestamp)
        (open_slot-Opens now timestamp (choose 0 none a.slots) a f (choose-in_range a.slots h))

module _ {P : Type 0} ⦃eq : PointEq P⦄ where
  -- A fresh slot takes its total from the packet.
  feed-fresh :
      (config : AssemblerConfig) (packet : PointCloudPacket P) (now : ℕ)
      → feed config packet (opened now packet.timestamp_ns)
        ≡ feed config packet (record (opened now packet.timestamp_ns) { total = packet.total })
  unfolding feed
  feed-fresh config packet now = refl

  opened-add :
      (now i : ℕ) (packet : PointCloudPacket P) (a a' : Assembler P)
      → packet.ok ≡ true
      → IsWithin a.config packet
      → slot_for_timestamp now packet.timestamp_ns true a ≡ (a', some i)
      → add_packet now packet a ≡ add_at i packet a'
  unfolding add_within
  opened-add now i packet a a' p w e = within-add now packet a p w ∙ ap (place_packet packet) e

  -- Writing the total into the fresh slot first makes no difference.
  fresh-add :
      (now i : ℕ) (packet : PointCloudPacket P) (a : Assembler P)
      → get_elem? a.slots i ≡ some (opened now packet.timestamp_ns)
      → let slot = record (opened {P = P} now packet.timestamp_ns) { total = packet.total } in
        add_at i packet a
        ≡ conclude i
            (feed a.config packet slot).1
            (write_slot i (feed a.config packet slot).0 (write_slot i slot a))
  unfolding add_at
  fresh-add now i packet a g =
      let slot : FrameSlot P = record (opened now packet.timestamp_ns) { total = packet.total } in
      let s' : FrameSlot P = (feed a.config packet slot).0 in
      rw (g, add_at, feed-fresh a.config packet now)
        (ap (λ ss. conclude i (feed a.config packet slot).1 (record a { slots = ss }))
          (sym (set-set a.slots i slot s')))

  -- When every packet of a frame arrives once, in any order, at an orderly assembler in which no slot
  -- works on the timestamp yet, exactly one frame is published. It has the timestamp and the declared
  -- number of points, and the points of every packet stand at the packet's offset. The packets must
  -- be parsed, not empty, within the limits, apart from each other, together fill the frame, and be no
  -- more than the packet limit.
  pub delivers-frame :
      (a : Assembler P) (timestamp total now : ℕ) (packet : PointCloudPacket P)
      (packets : List (ℕ × PointCloudPacket P))
      → IsOrderly a
      → find_slot timestamp a.slots ≡ none
      → IsPart a.config timestamp total packet
      → All (λ q. IsPart a.config timestamp total q.1) packets
      → AllApart ((now, packet) ∷ packets)
      → sum_points ((now, packet) ∷ packets) ≡ total
      → suc (length packets) ≤ a.config.max_packets_per_frame
      → (frame : PointCloudFrame P) × (frames_of a ((now, packet) ∷ packets) ≡ frame ∷ [])
        × (frame.timestamp_ns ≡ timestamp)
        × (frame.total_points ≡ total)
        × (length frame.points ≡ total)
        × All (λ q. Placed q.1.index q.1.points frame.points) ((now, packet) ∷ packets)
  unfolding frames_of
  delivers-frame a timestamp total now packet packets o f p ps d sum room =
      let f' : find_slot packet.timestamp_ns a.slots ≡ none = rw p.stamped f in
      let (i, a', e, at, found, c) =
        slot_for_timestamp-Opens now packet.timestamp_ns a f' o.some_slot in
      let slot : FrameSlot P = record (opened now packet.timestamp_ns) { total = packet.total } in
      let a'' : Assembler P = write_slot i slot a' in
      let sound : IsSound a.config slot = omega (arith, p.within.capped) in
      let ready : IsReady i timestamp total slot a'' = record {
        at = get_elem?-set_self a'.slots i slot (get_elem?-lt a'.slots i at);
        found = rw (← p.stamped) (
            find_slot-set_same packet.timestamp_ns i (opened now packet.timestamp_ns) slot a'.slots
              at refl refl
            ∙ found);
        sound = subst (λ g. IsSound g slot) (sym c) sound;
        stamped = p.stamped;
        totalled = p.totalled;
      } in
      let p' = subst (λ g. IsPart g timestamp total packet) (sym c) p in
      let ps' = subst (λ g. All (λ q. IsPart g timestamp total q.1) packets) (sym c) ps in
      let same : add_packet now packet a ≡ add_packet now packet a'' =
        opened-add now i packet a a' p.parsed p.within e
        ∙ fresh-add now i packet a' at
        ∙ sym (ready-add now i timestamp total slot packet a'' ready p') in
      let (frame, one, whole) =
        ready-frames i timestamp total now slot a'' packet packets ready p' ps' tt
          (none-held slot refl packets) d.0 d.1 (omega arith)
          (subst (λ g. 0 + suc (length packets) ≤ g.max_packets_per_frame) (sym c) (omega arith)) in
      (
        frame,
        ap (λ r. append_frame r.1 (frames_of r.0 packets)) same ∙ one,
        whole.0,
        whole.1,
        whole.2,
        whole.4,
      )
    where
      none-held :
          (slot : FrameSlot P)
          → slot.packets ≡ []
          → (qs : List (ℕ × PointCloudPacket P)) → All (λ q. All (Apart q.1) slot.packets) qs
      none-held slot e [] = tt
      none-held slot e (q ∷ qs) = (rw e tt, none-held slot e qs)
