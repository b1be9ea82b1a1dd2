-- ===== src/Lidar/Slot/Publish.antt =====
-- What a published frame holds, and which packets a slot takes.
use mathlib.Core.List.{append_assoc}
use hypertron_sw01_ros2_brid.Prelude.{
  ℕ, ◌+◌, ◌≤◌, ◌<◌, ◌≡◌, ◌≢◌, refl, ◌∙◌, sym, subst, false, List, [], ◌∷◌, ◌++◌, Option, none, some,
  length, length-append, arith, ◌⊎◌, inl, inr, Bool-cases, ltb, ◌==◌, All,
}
use hypertron_sw01_ros2_brid.Lidar.Types.{
  PointEq, PointCloudPacket, PointCloudFrame, AssemblerConfig,
}
use hypertron_sw01_ros2_brid.Lidar.Slot.{
  FrameSlot, Verdict, stored, complete, find_packet, lower_bound, before_bound, emplace,
  overlaps_next, overlaps_prev, store, place, feed, all_points, contiguous_end,
}
use hypertron_sw01_ros2_brid.Lidar.Slot.Ranges.{
  sum_sizes-le, full-contiguous, length-all_points, length-emplace,
}
use hypertron_sw01_ros2_brid.Lidar.Slot.Sound.{
  IsSound, IsWithin, Passes, grown, frame_of, grown-IsSound, store-cases, place-cases, KeepsSlot,
  retotal-IsSound,
}

module _ {P : Type 0} where
  -- The points of a packet stand in the frame from place `k` on.
  abbrev pub Placed : ℕ → List P → List P → Type 0
  Placed k pts whole =
      (front : List P) × (back : List P) × (length front ≡ k) × (whole ≡ front ++ (pts ++ back))

  -- Ranges that follow each other put every packet's points at its own offset.
  contiguous-Placed :
      (front : List P) (hi : ℕ) (es : List (ℕ × List P))
      → contiguous_end (length front) es ≡ some hi
      → All (λ e. Placed e.0 e.1 (front ++ all_points es)) es
  unfolding contiguous_end all_points
  contiguous-Placed front hi [] c = tt
  contiguous-Placed front hi ((k, pts) ∷ rest) c =
      let here : k ≡ length front = ground arith in
      let next : contiguous_end (length (front ++ pts)) rest ≡ some hi =
        ground (arith, length-append front pts) in
      (
        (front, all_points rest, sym here, refl),
        subst (λ whole. All (λ e. Placed e.0 e.1 whole) rest)
            (append_assoc front pts (all_points rest))
            (contiguous-Placed (front ++ pts) hi rest next),
      )

  -- A packet and an entry whose ranges do not meet, neither of them empty.
  abbrev pub Apart : PointCloudPacket P → ℕ × List P → Type 0
  Apart p e =
      (0 < length p.points)
      × (0 < length e.1)
      × ((p.index + length p.points ≤ e.0) ⊎ (e.0 + length e.1 ≤ p.index))

  Apart-fresh :
      (p : PointCloudPacket P) (es : List (ℕ × List P))
      → All (Apart p) es
      → find_packet p.index es ≡ none
  unfolding find_packet
  Apart-fresh p [] h = refl
  Apart-fresh p ((k, pts) ∷ rest) h = ground (arith, Apart-fresh p rest)

  Apart-next :
      (p : PointCloudPacket P) (es : List (ℕ × List P))
      → All (Apart p) es
      → overlaps_next p.index (length p.points) (lower_bound p.index es) ≡ false
  unfolding lower_bound
  Apart-next p [] h = refl
  Apart-next p ((k, pts) ∷ rest) h = ground (arith, Apart-next p rest)

  Apart-prev :
      (p : PointCloudPacket P) (last : Option (ℕ × List P)) (es : List (ℕ × List P))
      → overlaps_prev p.index last ≡ false
      → All (Apart p) es
      → overlaps_prev p.index (before_bound p.index last es) ≡ false
  unfolding before_bound
  Apart-prev p last [] l h = l
  Apart-prev p last ((k, pts) ∷ rest) l h = ground (arith, Apart-prev p (some (k, pts)) rest)

  Apart-Passes :
      (config : AssemblerConfig) (p : PointCloudPacket P) (slot : FrameSlot P)
      → All (Apart p) slot.packets
      → length slot.packets < config.max_packets_per_frame
      → Passes config p slot
  Apart-Passes config p slot h r = record {
    fresh = Apart-fresh p slot.packets h;
    room = r;
    next_clear = Apart-next p slot.packets h;
    prev_clear = Apart-prev p none slot.packets refl h;
  }

  Passes-place :
      ⦃eq : PointEq P⦄ (config : AssemblerConfig) (p : PointCloudPacket P) (slot : FrameSlot P)
      → Passes config p slot
      → IsSound config (grown p slot)
      → place config p slot ≡ store p slot
  unfolding place
  Passes-place config p slot h s =
      ground (arith, sum_sizes-le 0 slot.total (grown p slot).packets s.ranges)

  -- A packet apart from all that a sound slot holds is taken: the frame is published if the points then
  -- add up to its total, and is kept otherwise.
  pub Apart-feed :
      ⦃eq : PointEq P⦄ (config : AssemblerConfig) (p : PointCloudPacket P) (slot : FrameSlot P)
      → IsSound config slot
      → IsWithin config p
      → slot.total ≡ p.total
      → All (Apart p) slot.packets
      → length slot.packets < config.max_packets_per_frame
      → IsSound config (grown p slot)
        × (((slot.sum_points + length p.points ≡ slot.total)
              × (feed config p slot ≡ (grown p slot, complete (frame_of (grown p slot)))))
            ⊎ ((slot.sum_points + length p.points ≢ slot.total)
                × (feed config p slot ≡ (grown p slot, stored))))
  unfolding feed
  Apart-feed config p slot s w e h r =
      let passes : Passes config p slot = Apart-Passes config p slot h r in
      let g : IsSound config (grown p slot) = grown-IsSound config p slot s w (sym e) passes in
      (g, ground (arith, store-cases config p slot g, Passes-place config p slot passes g))

  emplace-All {κ} :
      (Q : ℕ × List P → Type κ) (i : ℕ) (pts : List P) (es : List (ℕ × List P))
      → find_packet i es ≡ none
      → (All Q es → Q (i, pts) → All Q (emplace i pts es))
        × (All Q (emplace i pts es) → Q (i, pts) × All Q es)
  unfolding emplace find_packet
  emplace-All Q i pts [] f = (λ a q. (q, tt), λ a. a)
  emplace-All Q i pts ((k, qts) ∷ rest) f = elim (Bool-cases (ltb i k)) [
    | inl below ↦ rw below ((λ a q. (q, a)), (λ a. a))
    | inr above ↦ elim (Bool-cases (k == i)) [
      | inl equal ↦ absurd (ground arith)
      | inr other ↦
          let f' : find_packet i rest ≡ none = ground arith in
          rw (above, other)
            (
              (λ a q. (a.0, (emplace-All Q i pts rest f').0 a.1 q)),
              (λ a. (
                ((emplace-All Q i pts rest f').1 a.1).0,
                (a.0, ((emplace-All Q i pts rest f').1 a.1).1),
              )),
            )
    ]
  ]

  -- Adding a packet to those that a predicate holds of.
  pub grown-All {κ} :
      (Q : ℕ × List P → Type κ) (p : PointCloudPacket P) (slot : FrameSlot P)
      → All (Apart p) slot.packets
      → All Q slot.packets
      → Q (p.index, p.points)
      → All Q (grown p slot).packets
  grown-All Q p slot h a q =
      (emplace-All Q p.index p.points slot.packets (Apart-fresh p slot.packets h)).0 a q

  pub length-grown :
      (p : PointCloudPacket P) (slot : FrameSlot P)
      → All (Apart p) slot.packets
      → length (grown p slot).packets ≡ length slot.packets + 1
  length-grown p slot h =
      length-emplace p.index p.points slot.packets (Apart-fresh p slot.packets h)

  pub grown-split {κ} :
      (Q : ℕ × List P → Type κ) (p : PointCloudPacket P) (slot : FrameSlot P)
      → All (Apart p) slot.packets
      → All Q (grown p slot).packets
      → Q (p.index, p.points) × All Q slot.packets
  grown-split Q p slot h a =
      (emplace-All Q p.index p.points slot.packets (Apart-fresh p slot.packets h)).1 a

  -- A sound slot whose points add up to its total makes a frame of that size in which every packet's
  -- points stand at its offset.
  pub frame_of-Placed :
      (config : AssemblerConfig) (slot : FrameSlot P)
      → IsSound config slot
      → slot.sum_points ≡ slot.total
      → (length (frame_of slot).points ≡ slot.total)
        × All (λ e. Placed e.0 e.1 (frame_of slot).points) slot.packets
  frame_of-Placed config slot s e =
      let whole : contiguous_end 0 slot.packets ≡ some slot.total =
        full-contiguous 0 slot.total slot.packets s.ranges (omega (arith, s.summed)) in
      (
        omega (arith, length-all_points slot.packets, s.summed),
        contiguous-Placed [] slot.total slot.packets whole,
      )

  abbrev Published : PointCloudPacket P → FrameSlot P → PointCloudFrame P → Type 0
  Published p slot frame =
      (frame.timestamp_ns ≡ slot.timestamp_ns)
      × (frame.total_points ≡ p.total)
      × (length frame.points ≡ p.total)
      × Placed p.index p.points frame.points
      × All (λ e. Placed e.0 e.1 frame.points) slot.packets

  keeps-not-complete :
      (v : Verdict P) (frame : PointCloudFrame P) → KeepsSlot v → v ≢ complete frame
  keeps-not-complete v frame k e = subst KeepsSlot e k

  complete-injective : (f g : PointCloudFrame P) → complete f ≡ complete g → f ≡ g
  complete-injective f g e = cc

  place-publishes :
      ⦃eq : PointEq P⦄ (config : AssemblerConfig) (p : PointCloudPacket P) (slot : FrameSlot P)
      (frame : PointCloudFrame P)
      → IsSound config slot
      → IsWithin config p
      → p.total ≡ slot.total
      → (place config p slot).1 ≡ complete frame
      → Published p slot frame
  place-publishes config p slot frame s w t h = elim (place-cases config p slot) [
    | inl (_, keeps) ↦ absurd (keeps-not-complete _ frame keeps h)
    | inr (passes, _, same) ↦
        let g : IsSound config (grown p slot) = grown-IsSound config p slot s w t passes in
        elim (store-cases config p slot g) [
          | inl (sum, e) ↦
              let (size, placed) = frame_of-Placed config (grown p slot) g sum in
              let split =
                (emplace-All (λ e. Placed e.0 e.1 (frame_of (grown p slot)).points) p.index p.points
                    slot.packets passes.fresh).1
                  placed in
              subst (Published p slot)
                (complete-injective (frame_of (grown p slot)) frame (cc (same, e, h)))
                (refl, sym t, size ∙ sym t, split.0, split.1)
          | inr (_, e) ↦ cc (same, e, h)
        ]
  ]

  -- A frame that `feed` publishes from a sound slot for a packet within its frame has the slot's
  -- timestamp and exactly the declared number of points, and the points of the packet and of every
  -- packet stored before stand at their offsets.
  pub feed-publishes :
      ⦃eq : PointEq P⦄ (config : AssemblerConfig) (p : PointCloudPacket P) (slot : FrameSlot P)
      (frame : PointCloudFrame P)
      → IsSound config slot
      → IsWithin config p
      → (feed config p slot).1 ≡ complete frame
      → (frame.timestamp_ns ≡ slot.timestamp_ns)
        × (frame.total_points ≡ p.total)
        × (length frame.points ≡ p.total)
        × Placed p.index p.points frame.points
        × All (λ e. Placed e.0 e.1 frame.points) slot.packets
  unfolding feed
  feed-publishes config p slot frame s w h = elim (Bool-cases (slot.unique_indices == 0)) [
    | inl none_yet ↦
        let zero' : slot.unique_indices ≡ 0 = ground arith in
        place-publishes config p (record slot { total = p.total }) frame
          (retotal-IsSound config slot p.total s zero' w.capped) w refl (ground arith)
    | inr some_yet ↦ place-publishes config p slot frame s w (ground arith) (ground arith)
  ]
