-- ===== src/Lidar/Assembler/Config.antt =====
-- The assembler's configuration never changes.
use hypertron_sw01_ros2_brid.Prelude.{
  ℕ, zero, suc, ◌≡◌, refl, ◌∙◌, Bool, true, false, none, length, arith, inl, inr, Option-cases,
  get_elem?,
}
use hypertron_sw01_ros2_brid.Lidar.Types.{PointEq, PointCloudPacket}
use hypertron_sw01_ros2_brid.Lidar.Slot.{
  Verdict, conflict, duplicated, too_many, stored, mismatched, complete, feed,
}
use hypertron_sw01_ros2_brid.Lidar.Assembler.{
  Assembler, FinalizeReason, published, timed_out, conflicted, Choice, free, oldest, nothing,
  choose, finalize_slot, open_slot, slot_for_timestamp, conclude, add_at, drop_frame, add_within,
  add_packet, expire_at, expire_from, expire,
}

module _ {P : Type 0} where
  pub finalize_slot-config :
      (i : ℕ) (reason : FinalizeReason) (a : Assembler P)
      → (finalize_slot i reason a).config ≡ a.config
  unfolding finalize_slot
  finalize_slot-config i reason a = ground arith

  open_slot-config :
      (now timestamp : ℕ) (choice : Choice) (a : Assembler P)
      → (open_slot now timestamp choice a).0.config ≡ a.config
  unfolding open_slot
  open_slot-config now timestamp nothing a = refl
  open_slot-config now timestamp (free i) a = refl
  open_slot-config now timestamp (oldest i) a = finalize_slot-config i published a

  pub slot_for_timestamp-config :
      (now timestamp : ℕ) (create : Bool) (a : Assembler P)
      → (slot_for_timestamp now timestamp create a).0.config ≡ a.config
  unfolding slot_for_timestamp
  slot_for_timestamp-config now timestamp create a =
      ground (arith, open_slot-config now timestamp (choose 0 none a.slots) a)

  conclude-config : (i : ℕ) (v : Verdict P) (a : Assembler P) → (conclude i v a).0.config ≡ a.config
  unfolding conclude
  conclude-config i conflict a = finalize_slot-config i conflicted a
  conclude-config i duplicated a = refl
  conclude-config i too_many a = refl
  conclude-config i stored a = refl
  conclude-config i mismatched a = finalize_slot-config i conflicted _
  conclude-config i (complete frame) a = finalize_slot-config i published _

  add_at-config :
      ⦃eq : PointEq P⦄ (i : ℕ) (packet : PointCloudPacket P) (a : Assembler P)
      → (add_at i packet a).0.config ≡ a.config
  unfolding add_at
  add_at-config i packet a = elim (Option-cases (get_elem? a.slots i)) [
    | inl out ↦ rw (out, add_at) refl
    | inr (slot, at) ↦ rw (at, add_at) (conclude-config i (feed a.config packet slot).1 _)
  ]

  drop_frame-config :
      (now : ℕ) (packet : PointCloudPacket P) (a : Assembler P)
      → (drop_frame now packet a).0.config ≡ a.config
  unfolding drop_frame
  drop_frame-config now packet a =
      elim (Option-cases (slot_for_timestamp now packet.timestamp_ns false a).1) [
        | inl missing ↦ rw (missing, drop_frame) refl
        | inr (i, found) ↦ rw (found, drop_frame) (finalize_slot-config i conflicted a)
      ]

  add_within-config :
      ⦃eq : PointEq P⦄ (now : ℕ) (packet : PointCloudPacket P) (a : Assembler P)
      → (add_within now packet a).0.config ≡ a.config
  unfolding add_within
  add_within-config now packet a =
      let a' : Assembler P = (slot_for_timestamp now packet.timestamp_ns true a).0 in
      let c : a'.config ≡ a.config = slot_for_timestamp-config now packet.timestamp_ns true a in
      elim (Option-cases (slot_for_timestamp now packet.timestamp_ns true a).1) [
        | inl missing ↦ rw (missing, add_within) c
        | inr (i, found) ↦ rw (found, add_within) (add_at-config i packet a' ∙ c)
      ]

  pub add_packet-config :
      ⦃eq : PointEq P⦄ (now : ℕ) (packet : PointCloudPacket P) (a : Assembler P)
      → (add_packet now packet a).0.config ≡ a.config
  unfolding add_packet
  add_packet-config now packet a =
      ground (arith, drop_frame-config now packet a, add_within-config now packet a)

  expire_at-config : (now i : ℕ) (a : Assembler P) → (expire_at now i a).config ≡ a.config
  unfolding expire_at
  expire_at-config now i a = ground (arith, finalize_slot-config i timed_out a)

  expire_from-config : (now i n : ℕ) (a : Assembler P) → (expire_from now i n a).config ≡ a.config
  unfolding expire_from
  expire_from-config now i zero a = refl
  expire_from-config now i (suc n) a =
      expire_from-config now (suc i) n (expire_at now i a) ∙ expire_at-config now i a

  pub expire-config : (now : ℕ) (a : Assembler P) → (expire now a).config ≡ a.config
  unfolding expire
  expire-config now a = expire_from-config now 0 (length a.slots) a
