-- ===== src/Lidar/Assembler/Delivery.antt =====
-- A frame's packets, in whatever order they arrive, give exactly that frame.
use hypertron_sw01_ros2_brid.Prelude.{
  ℕ, suc, ◌+◌, ◌≤◌, ◌<◌, ◌≡◌, ◌≢◌, refl, ap, ◌∙◌, sym, subst, true, List, [], ◌∷◌, Option, none,
  some, length, arith, inl, inr, All, get_elem?,
}
use hypertron_sw01_ros2_brid.Lidar.Types.{
  PointEq, PointCloudPacket, PointCloudFrame, AssemblerConfig,
}
use hypertron_sw01_ros2_brid.Lidar.Slot.{FrameSlot, feed}
use hypertron_sw01_ros2_brid.Lidar.Slot.Sound.{IsSound, IsWithin, grown, frame_of}
use hypertron_sw01_ros2_brid.Lidar.Slot.Publish.{
  Placed, Apart, Apart-feed, grown-All, grown-split, length-grown, frame_of-Placed,
}
use hypertron_sw01_ros2_brid.Lidar.Assembler.{
  Assembler, find_slot, slot_for_timestamp, conclude, add_at, add_within, add_packet, write_slot,
  accept,
}
use hypertron_sw01_ros2_brid.Lidar.Assembler.Slots.{
  get_elem?-set_self, get_elem?-lt, find_slot-set_same,
}

module _ {P : Type 0} ⦃eq : PointEq P⦄ where
  -- The slot at place `i` is the one for `timestamp`, and works on a frame of `total` points.
  pub record IsReady (i timestamp total : ℕ) (slot : FrameSlot P) (a : Assembler P) : Type 0 where
    pub at : get_elem? a.slots i ≡ some slot
    pub found : find_slot timestamp a.slots ≡ some i
    pub sound : IsSound a.config slot
    pub stamped : slot.timestamp_ns ≡ timestamp
    pub totalled : slot.total ≡ total

  -- A parsed, non-empty packet of the frame.
  pub record IsPart (config : AssemblerConfig) (timestamp total : ℕ) (packet : PointCloudPacket P)
      : Type 0 where
    pub parsed : packet.ok ≡ true
    pub stamped : packet.timestamp_ns ≡ timestamp
    pub totalled : packet.total ≡ total
    pub within : IsWithin config packet
    pub filled : 0 < length packet.points

  pub within-add :
      (now : ℕ) (packet : PointCloudPacket P) (a : Assembler P)
      → packet.ok ≡ true
      → IsWithin a.config packet
      → add_packet now packet a ≡ add_within now packet a
  unfolding add_packet
  within-add now packet a o w = ground arith

  found-add :
      (now i : ℕ) (packet : PointCloudPacket P) (a : Assembler P)
      → find_slot packet.timestamp_ns a.slots ≡ some i
      → add_within now packet a ≡ add_at i packet a
  unfolding add_within slot_for_timestamp
  found-add now i packet a f = ground arith

  pub ready-add :
      (now i timestamp total : ℕ) (slot : FrameSlot P) (packet : PointCloudPacket P)
      (a : Assembler P)
      → IsReady i timestamp total slot a
      → IsPart a.config timestamp total packet
      → add_packet now packet a
        ≡ conclude i (feed a.config packet slot).1 (write_slot i (feed a.config packet slot).0 a)
  unfolding add_at
  ready-add now i timestamp total slot packet a r p =
      within-add now packet a p.parsed p.within
      ∙ found-add now i packet a (rw p.stamped r.found)
      ∙ (rw (r.at, add_at) refl)

  -- A packet that does not fill the frame is stored.
  IsReady-stored :
      (now i timestamp total : ℕ) (slot : FrameSlot P) (packet : PointCloudPacket P)
      (a : Assembler P)
      → IsReady i timestamp total slot a
      → IsPart a.config timestamp total packet
      → All (Apart packet) slot.packets
      → length slot.packets < a.config.max_packets_per_frame
      → slot.sum_points + length packet.points ≢ total
      → ((add_packet now packet a).1 ≡ none)
        × IsReady i timestamp total (grown packet slot) (add_packet now packet a).0
        × ((add_packet now packet a).0.config ≡ a.config)
  unfolding conclude
  IsReady-stored now i timestamp total slot packet a r p h m n =
      let e = r.totalled ∙ sym p.totalled in
      let (g, ways) = Apart-feed a.config packet slot r.sound p.within e h m in
      elim ways [
        | inl (sum, _) ↦ absurd (n (sum ∙ r.totalled))
        | inr (_, f) ↦
            let whole : add_packet now packet a
                ≡ (accept (write_slot i (grown packet slot) a), none) =
              ready-add now i timestamp total slot packet a r p ∙ (rw f refl) in
            subst
              (λ x.
                (x.1 ≡ none)
                × IsReady i timestamp total (grown packet slot) x.0
                × (x.0.config ≡ a.config))
              (sym whole)
              (
                refl,
                record {
                  at =
                      get_elem?-set_self a.slots i (grown packet slot)
                        (get_elem?-lt a.slots i r.at);
                  found =
                      find_slot-set_same timestamp i slot (grown packet slot) a.slots r.at refl refl
                      ∙ r.found;
                  sound = g;
                  stamped = r.stamped;
                  totalled = r.totalled;
                },
                refl,
              )
      ]

  IsReady-complete :
      (now i timestamp total : ℕ) (slot : FrameSlot P) (packet : PointCloudPacket P)
      (a : Assembler P)
      → IsReady i timestamp total slot a
      → IsPart a.config timestamp total packet
      → All (Apart packet) slot.packets
      → length slot.packets < a.config.max_packets_per_frame
      → slot.sum_points + length packet.points ≡ total
      → ((add_packet now packet a).1 ≡ some (frame_of (grown packet slot)))
        × IsSound a.config (grown packet slot)
  unfolding conclude
  IsReady-complete now i timestamp total slot packet a r p h m n =
      let e = r.totalled ∙ sym p.totalled in
      let (g, ways) = Apart-feed a.config packet slot r.sound p.within e h m in
      elim ways [
        | inr (less, _) ↦ absurd (less (n ∙ sym r.totalled))
        | inl (_, f) ↦
            (ap (λ x. x.1) (ready-add now i timestamp total slot packet a r p) ∙ (rw f refl), g)
      ]

  -- The frames that a run of packets, each with its time, publishes, in order.
  abbrev pub append_frame :
      Option (PointCloudFrame P) → List (PointCloudFrame P) → List (PointCloudFrame P)
  append_frame none frames = frames
  append_frame (some frame) frames = frame ∷ frames

  unfoldable pub frames_of : Assembler P → List (ℕ × PointCloudPacket P) → List (PointCloudFrame P)
  frames_of a [] = []
  frames_of a ((now, packet) ∷ packets) =
      let (a', out) = add_packet now packet a in append_frame out (frames_of a' packets)

  abbrev pub sum_points : List (ℕ × PointCloudPacket P) → ℕ
  sum_points [] = 0
  sum_points ((now, packet) ∷ packets) = length packet.points + sum_points packets

  -- The range that a packet's points take.
  abbrev pub range_of : PointCloudPacket P → ℕ × List P
  range_of packet = (packet.index, packet.points)

  -- No two packets' ranges meet.
  abbrev pub AllApart : List (ℕ × PointCloudPacket P) → Type 0
  AllApart [] = Unit {0}
  AllApart ((now, packet) ∷ packets) =
      All (λ q. Apart q.1 (range_of packet)) packets × AllApart packets

  -- The frame that the slot's packets and these make.
  abbrev pub Whole :
      ℕ → ℕ → List (ℕ × List P) → List (ℕ × PointCloudPacket P) → PointCloudFrame P → Type 0
  Whole timestamp total held packets frame =
      (frame.timestamp_ns ≡ timestamp)
      × (frame.total_points ≡ total)
      × (length frame.points ≡ total)
      × All (λ e. Placed e.0 e.1 frame.points) held
      × All (λ q. Placed q.1.index q.1.points frame.points) packets

  All-zip :
      (slot : FrameSlot P) (packet : PointCloudPacket P) (packets : List (ℕ × PointCloudPacket P))
      → All (Apart packet) slot.packets
      → All (λ q. All (Apart q.1) slot.packets) packets
      → All (λ q. Apart q.1 (range_of packet)) packets
      → All (λ q. All (Apart q.1) (grown packet slot).packets) packets
  All-zip slot packet [] h a b = tt
  All-zip slot packet (q ∷ packets) h a b =
      (grown-All (Apart q.1) packet slot h a.0 b.0, All-zip slot packet packets h a.1 b.1)

  pub ready-frames :
      (i timestamp total now : ℕ) (slot : FrameSlot P) (a : Assembler P)
      (packet : PointCloudPacket P) (packets : List (ℕ × PointCloudPacket P))
      → IsReady i timestamp total slot a
      → IsPart a.config timestamp total packet
      → All (λ q. IsPart a.config timestamp total q.1) packets
      → All (Apart packet) slot.packets
      → All (λ q. All (Apart q.1) slot.packets) packets
      → All (λ q. Apart q.1 (range_of packet)) packets
      → AllApart packets
      → slot.sum_points + (length packet.points + sum_points packets) ≡ total
      → length slot.packets + suc (length packets) ≤ a.config.max_packets_per_frame
      → (frame : PointCloudFrame P) × (frames_of a ((now, packet) ∷ packets) ≡ frame ∷ [])
        × Whole timestamp total slot.packets ((now, packet) ∷ packets) frame
  unfolding frames_of
  ready-frames i timestamp total now slot a packet [] r p ps h hs b d sum room =
      let full : slot.sum_points + length packet.points ≡ total = omega arith in
      let (out, g) =
        IsReady-complete now i timestamp total slot packet a r p h (omega arith) full in
      let frame = frame_of (grown packet slot) in
      let (size, placed) = frame_of-Placed a.config (grown packet slot) g (full ∙ sym r.totalled) in
      let split = grown-split (λ e. Placed e.0 e.1 frame.points) packet slot h placed in
      (
        frame,
        rw (out, frames_of) refl,
        (r.stamped, r.totalled, size ∙ r.totalled, split.1, (split.0, tt)),
      )
  ready-frames i timestamp total now slot a packet ((later, q) ∷ packets) r p ps h hs b d sum room =
      let part : ¬ (slot.sum_points + length packet.points ≡ total) =
        λ e. absurd (omega (arith, ps.0.filled)) in
      let (out, r', c) =
        IsReady-stored now i timestamp total slot packet a r p h (omega arith) part in
      let a' : Assembler P = (add_packet now packet a).0 in
      let hs' = All-zip slot packet ((later, q) ∷ packets) h hs b in
      let ps' =
        subst (λ c. All (λ q. IsPart c timestamp total q.1) ((later, q) ∷ packets)) (sym c) ps in
      let (frame, e, whole) =
        ready-frames i timestamp total later (grown packet slot) a' q packets r' ps'.0 ps'.1 hs'.0
          hs'.1 d.0 d.1 (omega arith) (ground (arith, c, length-grown packet slot h)) in
      let split = grown-split (λ e. Placed e.0 e.1 frame.points) packet slot h whole.3 in
      (frame, rw (out, frames_of) e, (whole.0, whole.1, whole.2, split.1, (split.0, whole.4)))
