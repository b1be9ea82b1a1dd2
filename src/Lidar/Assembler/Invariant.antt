-- ===== src/Lidar/Assembler/Invariant.antt =====
-- What holds of the frame assembler after any history of packets and expiries.
use hypertron_sw01_ros2_brid.Prelude.{
  ℕ, zero, suc, ◌-◌, ◌<◌, ◌≡◌, refl, ◌∙◌, sym, subst, Bool, true, false, none, some, length, arith,
  ◌⊎◌, inl, inr, Bool-cases, Option-cases, leb, All, get_elem?, length-set,
}
use hypertron_sw01_ros2_brid.Lidar.Types.{PointEq, PointCloudPacket, AssemblerConfig, Stats}
use hypertron_sw01_ros2_brid.Lidar.Slot.{
  FrameSlot, Verdict, conflict, duplicated, too_many, stored, mismatched, complete, feed,
}
use hypertron_sw01_ros2_brid.Lidar.Slot.Sound.{IsSound, IsWithin, feed-IsSound, feed-keeps}
use hypertron_sw01_ros2_brid.Lidar.Assembler.{
  Assembler, FinalizeReason, published, timed_out, conflicted, Choice, free, oldest, nothing,
  choose, find_slot, cleared, opened, finalize_slot, open_slot, slot_for_timestamp, reject,
  conclude, add_at, drop_frame, add_within, add_packet, expire_at, expire_from, expire, write_slot,
  with_stats,
}
use hypertron_sw01_ros2_brid.Lidar.Assembler.Slots.{
  All-set, All-get, Distinct, Distinct-set_same, Distinct-set_free, Distinct-set_new,
  find_slot-set-none,
}

module _ {P : Type 0} where
  abbrev pub SlotSound : AssemblerConfig → FrameSlot P → Type 0
  SlotSound config slot = slot.active ≡ true → IsSound config slot

  -- The number of slots is the configured one, at least one; every active slot is sound; and no two
  -- active slots have one timestamp.
  pub record IsOrderly (a : Assembler P) : Type 0 where
    pub some_slot : 0 < length a.slots
    pub sized : length a.slots ≡ a.config.max_parallel_frames
    pub sound : All (SlotSound a.config) a.slots
    pub distinct : Distinct a.slots

  -- Freeing a slot keeps order.
  pub finalize_slot-IsOrderly :
      (i : ℕ) (reason : FinalizeReason) (a : Assembler P)
      → IsOrderly a
      → IsOrderly (finalize_slot i reason a)
  unfolding finalize_slot
  finalize_slot-IsOrderly i reason a o = elim (Option-cases (get_elem? a.slots i)) [
    | inl out ↦ rw (out, finalize_slot) o
    | inr (slot, at) ↦ elim (Bool-cases slot.active) [
      | inr idle ↦ rw (at, idle, finalize_slot) o
      | inl busy ↦
          rw (at, busy, finalize_slot)
            (record {
              some_slot = omega (arith, o.some_slot, length-set a.slots i (cleared slot));
              sized = length-set a.slots i (cleared slot) ∙ o.sized;
              sound = All-set (SlotSound a.config) a.slots i (cleared slot) o.sound (λ h. cc);
              distinct = Distinct-set_free i (cleared slot) a.slots refl o.distinct;
            })
    ]
  ]

  -- Writing a sound slot that keeps its timestamp keeps order.
  write_slot-IsOrderly :
      (i : ℕ) (slot slot' : FrameSlot P) (a : Assembler P)
      → get_elem? a.slots i ≡ some slot
      → slot'.active ≡ slot.active
      → slot'.timestamp_ns ≡ slot.timestamp_ns
      → SlotSound a.config slot'
      → IsOrderly a
      → IsOrderly (write_slot i slot' a)
  write_slot-IsOrderly i slot slot' a g e t s o = record {
    some_slot = omega (arith, o.some_slot, length-set a.slots i slot');
    sized = length-set a.slots i slot' ∙ o.sized;
    sound = All-set (SlotSound a.config) a.slots i slot' o.sound s;
    distinct = Distinct-set_same i slot slot' a.slots g e t o.distinct;
  }

  stats-IsOrderly : (s : Stats) (a : Assembler P) → IsOrderly a → IsOrderly (with_stats s a)
  stats-IsOrderly s a o = record {
    some_slot = o.some_slot;
    sized = o.sized;
    sound = o.sound;
    distinct = o.distinct;
  }

  opened-IsSound :
      (config : AssemblerConfig) (now timestamp : ℕ) → IsSound config (opened {P = P} now timestamp)
  opened-IsSound config now timestamp = omega arith

  open_at-IsOrderly :
      (now timestamp i : ℕ) (a : Assembler P)
      → find_slot timestamp a.slots ≡ none
      → IsOrderly a
      → IsOrderly (write_slot i (opened now timestamp) a)
  open_at-IsOrderly now timestamp i a f o = record {
    some_slot = omega (arith, o.some_slot, length-set a.slots i (opened now timestamp));
    sized = length-set a.slots i (opened now timestamp) ∙ o.sized;
    sound =
        All-set (SlotSound a.config) a.slots i (opened now timestamp) o.sound
          (λ h. opened-IsSound a.config now timestamp);
    distinct = Distinct-set_new i (opened now timestamp) a.slots f o.distinct;
  }

  pub finalize_slot-keeps :
      (i t : ℕ) (reason : FinalizeReason) (a : Assembler P)
      → find_slot t a.slots ≡ none
      → (find_slot t (finalize_slot i reason a).slots ≡ none)
        × ((finalize_slot i reason a).config ≡ a.config)
  unfolding finalize_slot
  finalize_slot-keeps i t reason a f = elim (Option-cases (get_elem? a.slots i)) [
    | inl out ↦ ground arith
    | inr (slot, at) ↦ ground (arith, find_slot-set-none t i (cleared slot) a.slots f (λ h. cc))
  ]

  open_slot-IsOrderly :
      (now timestamp : ℕ) (choice : Choice) (a : Assembler P)
      → find_slot timestamp a.slots ≡ none
      → IsOrderly a
      → IsOrderly (open_slot now timestamp choice a).0
        × ((open_slot now timestamp choice a).0.config ≡ a.config)
  unfolding open_slot
  open_slot-IsOrderly now timestamp nothing a f o = (o, refl)
  open_slot-IsOrderly now timestamp (free i) a f o = (open_at-IsOrderly now timestamp i a f o, refl)
  open_slot-IsOrderly now timestamp (oldest i) a f o =
      let a' : Assembler P = finalize_slot i published a in
      let (f', c) = finalize_slot-keeps i timestamp published a f in
      (
        open_at-IsOrderly now timestamp i (with_stats _ a') f'
            (stats-IsOrderly _ a' (finalize_slot-IsOrderly i published a o)),
        c,
      )

  pub slot_for_timestamp-IsOrderly :
      (now timestamp : ℕ) (create : Bool) (a : Assembler P)
      → IsOrderly a
      → IsOrderly (slot_for_timestamp now timestamp create a).0
        × ((slot_for_timestamp now timestamp create a).0.config ≡ a.config)
  unfolding slot_for_timestamp
  slot_for_timestamp-IsOrderly now timestamp create a o =
      elim (Option-cases (find_slot timestamp a.slots)) [
        | inr (i, found) ↦ rw (found, slot_for_timestamp) (o, refl)
        | inl missing ↦ elim (Bool-cases create) [
          | inr no_new ↦ rw (missing, no_new, slot_for_timestamp) (o, refl)
          | inl new ↦
              rw (missing, new, slot_for_timestamp)
                (open_slot-IsOrderly now timestamp (choose 0 none a.slots) a missing o)
        ]
      ]

  conclude-IsOrderly :
      (i : ℕ) (v : Verdict P) (a : Assembler P) → IsOrderly a → IsOrderly (conclude i v a).0
  unfolding conclude
  conclude-IsOrderly i conflict a o = finalize_slot-IsOrderly i conflicted a o
  conclude-IsOrderly i duplicated a o = stats-IsOrderly _ a o
  conclude-IsOrderly i too_many a o = stats-IsOrderly _ a o
  conclude-IsOrderly i stored a o = stats-IsOrderly _ a o
  conclude-IsOrderly i mismatched a o =
      finalize_slot-IsOrderly i conflicted _ (stats-IsOrderly _ a o)
  conclude-IsOrderly i (complete frame) a o =
      finalize_slot-IsOrderly i published _ (stats-IsOrderly _ a o)

  add_at-IsOrderly :
      ⦃eq : PointEq P⦄ (i : ℕ) (packet : PointCloudPacket P) (a : Assembler P)
      → IsOrderly a
      → IsWithin a.config packet
      → IsOrderly (add_at i packet a).0
  unfolding add_at
  add_at-IsOrderly i packet a o w = elim (Option-cases (get_elem? a.slots i)) [
    | inl out ↦ rw (out, add_at) (stats-IsOrderly _ a o)
    | inr (slot, at) ↦
        let sound : SlotSound a.config slot = All-get (SlotSound a.config) a.slots i o.sound at in
        let (active, stamp) = feed-keeps a.config packet slot in
        rw (at, add_at)
          (conclude-IsOrderly i (feed a.config packet slot).1 _ (
            write_slot-IsOrderly i slot (feed a.config packet slot).0 a at active stamp
              (λ h. feed-IsSound a.config packet slot (sound (sym active ∙ h)) w) o))
  ]

  drop_frame-IsOrderly :
      (now : ℕ) (packet : PointCloudPacket P) (a : Assembler P)
      → IsOrderly a
      → IsOrderly (drop_frame now packet a).0
  unfolding drop_frame
  drop_frame-IsOrderly now packet a o =
      elim (Option-cases (slot_for_timestamp now packet.timestamp_ns false a).1) [
        | inl missing ↦ rw (missing, drop_frame) (stats-IsOrderly _ a o)
        | inr (i, found) ↦ rw (found, drop_frame) (finalize_slot-IsOrderly i conflicted a o)
      ]

  add_within-IsOrderly :
      ⦃eq : PointEq P⦄ (now : ℕ) (packet : PointCloudPacket P) (a : Assembler P)
      → IsOrderly a
      → IsWithin a.config packet
      → IsOrderly (add_within now packet a).0
  unfolding add_within
  add_within-IsOrderly now packet a o w =
      let a' : Assembler P = (slot_for_timestamp now packet.timestamp_ns true a).0 in
      let (o', c) = slot_for_timestamp-IsOrderly now packet.timestamp_ns true a o in
      elim (Option-cases (slot_for_timestamp now packet.timestamp_ns true a).1) [
        | inl missing ↦ rw (missing, add_within) (stats-IsOrderly _ a' o')
        | inr (i, found) ↦
            rw (found, add_within)
              (add_at-IsOrderly i packet a' o' (subst (λ c. IsWithin c packet) (sym c) w))
      ]

  -- The three ways of a packet.
  pub add_packet-cases :
      ⦃eq : PointEq P⦄ (now : ℕ) (packet : PointCloudPacket P) (a : Assembler P)
      → (add_packet now packet a ≡ reject a)
        ⊎ (add_packet now packet a ≡ drop_frame now packet a)
        ⊎ ((packet.ok ≡ true)
            × IsWithin a.config packet
            × (add_packet now packet a ≡ add_within now packet a))
  unfolding add_packet
  add_packet-cases now packet a = ground arith

  pub add_packet-IsOrderly :
      ⦃eq : PointEq P⦄ (now : ℕ) (packet : PointCloudPacket P) (a : Assembler P)
      → IsOrderly a
      → IsOrderly (add_packet now packet a).0
  add_packet-IsOrderly now packet a o = elim (add_packet-cases now packet a) [
    | inl e ↦ subst (λ r. IsOrderly r.0) (sym e) (stats-IsOrderly _ a o)
    | inr (inl e) ↦ subst (λ r. IsOrderly r.0) (sym e) (drop_frame-IsOrderly now packet a o)
    | inr (inr (_, w, e)) ↦
        subst (λ r. IsOrderly r.0) (sym e) (add_within-IsOrderly now packet a o w)
  ]

  expire_at-IsOrderly : (now i : ℕ) (a : Assembler P) → IsOrderly a → IsOrderly (expire_at now i a)
  unfolding expire_at
  expire_at-IsOrderly now i a o = elim (Option-cases (get_elem? a.slots i)) [
    | inl out ↦ rw (out, expire_at) o
    | inr (slot, at) ↦ elim (Bool-cases slot.active) [
      | inr idle ↦ rw (at, idle, expire_at) o
      | inl busy ↦ elim (Bool-cases (leb a.config.frame_timeout (now - slot.activated_at))) [
        | inl late ↦ rw (at, busy, late, expire_at) (finalize_slot-IsOrderly i timed_out a o)
        | inr young ↦ rw (at, busy, young, expire_at) o
      ]
    ]
  ]

  expire_from-IsOrderly :
      (now i n : ℕ) (a : Assembler P) → IsOrderly a → IsOrderly (expire_from now i n a)
  unfolding expire_from
  expire_from-IsOrderly now i zero a o = o
  expire_from-IsOrderly now i (suc n) a o =
      expire_from-IsOrderly now (suc i) n (expire_at now i a) (expire_at-IsOrderly now i a o)

  pub expire-IsOrderly : (now : ℕ) (a : Assembler P) → IsOrderly a → IsOrderly (expire now a)
  unfolding expire
  expire-IsOrderly now a o = expire_from-IsOrderly now 0 (length a.slots) a o
