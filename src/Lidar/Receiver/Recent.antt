-- ===== src/Lidar/Receiver/Recent.antt =====
-- The activation times of the assembler's slots, and expiries that come before any frame is due.
use hypertron_sw01_ros2_brid.Prelude.{
  ℕ, zero, suc, ◌+◌, ◌-◌, ◌≤◌, ◌<◌, ◌≡◌, refl, ◌∙◌, sym, subst, ap, Bool, true, false, none, length,
  arith, inl, inr, Bool-cases, Option-cases, leb, All, get_elem?,
}
use hypertron_sw01_ros2_brid.Lidar.Types.{PointEq, PointCloudPacket, AssemblerConfig}
use hypertron_sw01_ros2_brid.Lidar.Slot.{
  FrameSlot, Verdict, conflict, duplicated, too_many, stored, mismatched, complete, feed, place,
  store,
}
use hypertron_sw01_ros2_brid.Lidar.Slot.Sound.{feed-keeps}
use hypertron_sw01_ros2_brid.Lidar.Assembler.{
  Assembler, FinalizeReason, published, conflicted, Choice, free, oldest, nothing, choose,
  find_slot, cleared, opened, finalize_slot, open_slot, slot_for_timestamp, conclude, add_at,
  drop_frame, add_within, add_packet, expire_at, expire_from, expire,
}
use hypertron_sw01_ros2_brid.Lidar.Assembler.Slots.{All-set, All-get}
use hypertron_sw01_ros2_brid.Lidar.Assembler.Invariant.{add_packet-cases}

module _ {P : Type 0} where
  store-activated :
      (packet : PointCloudPacket P) (slot : FrameSlot P)
      → (store packet slot).0.activated_at ≡ slot.activated_at
  unfolding store
  store-activated packet slot = ground arith

  place-activated :
      ⦃eq : PointEq P⦄ (config : AssemblerConfig) (packet : PointCloudPacket P) (slot : FrameSlot P)
      → (place config packet slot).0.activated_at ≡ slot.activated_at
  unfolding place
  place-activated config packet slot = ground (arith, store-activated packet slot)

  feed-activated :
      ⦃eq : PointEq P⦄ (config : AssemblerConfig) (packet : PointCloudPacket P) (slot : FrameSlot P)
      → (feed config packet slot).0.activated_at ≡ slot.activated_at
  unfolding feed
  feed-activated config packet slot = ground (
    arith,
    place-activated config packet slot,
    place-activated config packet (record slot { total = packet.total }),
  )

  -- An active slot was activated at `since` or later.
  abbrev pub IsSince : ℕ → FrameSlot P → Type 0
  IsSince since slot = slot.active ≡ true → since ≤ slot.activated_at

  abbrev pub IsRecent : ℕ → Assembler P → Type 0
  IsRecent since a = All (IsSince since) a.slots

  finalize_slot-IsRecent :
      (since i : ℕ) (reason : FinalizeReason) (a : Assembler P)
      → IsRecent since a
      → IsRecent since (finalize_slot i reason a)
  unfolding finalize_slot
  finalize_slot-IsRecent since i reason a r = elim (Option-cases (get_elem? a.slots i)) [
    | inl out ↦ rw (out, finalize_slot) r
    | inr (slot, at) ↦ elim (Bool-cases slot.active) [
      | inr idle ↦ rw (at, idle, finalize_slot) r
      | inl busy ↦
          rw (at, busy, finalize_slot)
            (All-set (IsSince since) a.slots i (cleared slot) r (λ h. cc))
    ]
  ]

  open_slot-IsRecent :
      (since now timestamp : ℕ) (choice : Choice) (a : Assembler P)
      → since ≤ now
      → IsRecent since a
      → IsRecent since (open_slot now timestamp choice a).0
  unfolding open_slot
  open_slot-IsRecent since now timestamp nothing a le r = r
  open_slot-IsRecent since now timestamp (free i) a le r =
      All-set (IsSince since) a.slots i (opened now timestamp) r (λ h. le)
  open_slot-IsRecent since now timestamp (oldest i) a le r =
      All-set (IsSince since) (finalize_slot i published a).slots i (opened now timestamp)
        (finalize_slot-IsRecent since i published a r) (λ h. le)

  slot_for_timestamp-IsRecent :
      (since now timestamp : ℕ) (create : Bool) (a : Assembler P)
      → since ≤ now
      → IsRecent since a
      → IsRecent since (slot_for_timestamp now timestamp create a).0
  unfolding slot_for_timestamp
  slot_for_timestamp-IsRecent since now timestamp create a le r =
      elim (Option-cases (find_slot timestamp a.slots)) [
        | inr (i, found) ↦ rw (found, slot_for_timestamp) r
        | inl missing ↦ elim (Bool-cases create) [
          | inr no_new ↦ rw (missing, no_new, slot_for_timestamp) r
          | inl new ↦
              rw (missing, new, slot_for_timestamp)
                (open_slot-IsRecent since now timestamp (choose 0 none a.slots) a le r)
        ]
      ]

  conclude-IsRecent :
      (since i : ℕ) (v : Verdict P) (a : Assembler P)
      → IsRecent since a
      → IsRecent since (conclude i v a).0
  unfolding conclude
  conclude-IsRecent since i conflict a r = finalize_slot-IsRecent since i conflicted a r
  conclude-IsRecent since i duplicated a r = r
  conclude-IsRecent since i too_many a r = r
  conclude-IsRecent since i stored a r = r
  conclude-IsRecent since i mismatched a r = finalize_slot-IsRecent since i conflicted _ r
  conclude-IsRecent since i (complete frame) a r = finalize_slot-IsRecent since i published _ r

  add_at-IsRecent :
      ⦃eq : PointEq P⦄ (since i : ℕ) (packet : PointCloudPacket P) (a : Assembler P)
      → IsRecent since a
      → IsRecent since (add_at i packet a).0
  unfolding add_at
  add_at-IsRecent since i packet a r = elim (Option-cases (get_elem? a.slots i)) [
    | inl out ↦ rw (out, add_at) r
    | inr (slot, at) ↦
        let old : IsSince since slot = All-get (IsSince since) a.slots i r at in
        let (active, _) = feed-keeps a.config packet slot in
        let time = feed-activated a.config packet slot in
        rw (at, add_at)
          (conclude-IsRecent since i (feed a.config packet slot).1 _ (
            All-set (IsSince since) a.slots i (feed a.config packet slot).0 r
              (λ h. subst (λ t. since ≤ t) (sym time) (old (sym active ∙ h)))))
  ]

  drop_frame-IsRecent :
      (since now : ℕ) (packet : PointCloudPacket P) (a : Assembler P)
      → IsRecent since a
      → IsRecent since (drop_frame now packet a).0
  unfolding drop_frame
  drop_frame-IsRecent since now packet a r =
      elim (Option-cases (slot_for_timestamp now packet.timestamp_ns false a).1) [
        | inl missing ↦ rw (missing, drop_frame) r
        | inr (i, found) ↦ rw (found, drop_frame) (finalize_slot-IsRecent since i conflicted a r)
      ]

  add_within-IsRecent :
      ⦃eq : PointEq P⦄ (since now : ℕ) (packet : PointCloudPacket P) (a : Assembler P)
      → since ≤ now
      → IsRecent since a
      → IsRecent since (add_within now packet a).0
  unfolding add_within
  add_within-IsRecent since now packet a le r =
      let a' : Assembler P = (slot_for_timestamp now packet.timestamp_ns true a).0 in
      let r' = slot_for_timestamp-IsRecent since now packet.timestamp_ns true a le r in
      elim (Option-cases (slot_for_timestamp now packet.timestamp_ns true a).1) [
        | inl missing ↦ rw (missing, add_within) r'
        | inr (i, found) ↦ rw (found, add_within) (add_at-IsRecent since i packet a' r')
      ]

  -- A packet that is taken later leaves no older slot behind.
  pub add_packet-IsRecent :
      ⦃eq : PointEq P⦄ (since now : ℕ) (packet : PointCloudPacket P) (a : Assembler P)
      → since ≤ now
      → IsRecent since a
      → IsRecent since (add_packet now packet a).0
  add_packet-IsRecent since now packet a le r = elim (add_packet-cases now packet a) [
    | inl e ↦ subst (λ x. IsRecent since x.0) (sym e) r
    | inr (inl e) ↦
        subst (λ x. IsRecent since x.0) (sym e) (drop_frame-IsRecent since now packet a r)
    | inr (inr (_, w, e)) ↦
        subst (λ x. IsRecent since x.0) (sym e) (add_within-IsRecent since now packet a le r)
  ]

  expire_at-idle :
      (since now i : ℕ) (a : Assembler P)
      → IsRecent since a
      → since ≤ now
      → now < since + a.config.frame_timeout
      → expire_at now i a ≡ a
  unfolding expire_at
  expire_at-idle since now i a r le lt = elim (Option-cases (get_elem? a.slots i)) [
    | inl out ↦ rw (out, expire_at) refl
    | inr (slot, at) ↦ elim (Bool-cases slot.active) [
      | inr idle ↦ rw (at, idle, expire_at) refl
      | inl busy ↦
          let old = All-get (IsSince since) a.slots i r at busy in
          let young : leb a.config.frame_timeout (now - slot.activated_at) ≡ false = ground arith in
          rw (at, busy, young, expire_at) refl
    ]
  ]

  expire_from-idle :
      (since now i n : ℕ) (a : Assembler P)
      → IsRecent since a
      → since ≤ now
      → now < since + a.config.frame_timeout
      → expire_from now i n a ≡ a
  unfolding expire_from
  expire_from-idle since now i zero a r le lt = refl
  expire_from-idle since now i (suc n) a r le lt =
      ap (expire_from now (suc i) n) (expire_at-idle since now i a r le lt)
      ∙ expire_from-idle since now (suc i) n a r le lt

  -- An expiry before the earliest activation is due changes nothing.
  pub expire-idle :
      (since now : ℕ) (a : Assembler P)
      → IsRecent since a
      → since ≤ now
      → now < since + a.config.frame_timeout
      → expire now a ≡ a
  unfolding expire
  expire-idle since now a r le lt = expire_from-idle since now 0 (length a.slots) a r le lt
