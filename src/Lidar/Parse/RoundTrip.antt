-- ===== src/Lidar/Parse/RoundTrip.antt =====
-- What a sender writes is parsed back, and no datagram fits both layouts.
use hypertron_sw01_ros2_brid.Prelude.{
  ℕ, ◌≡◌, ◌≢◌, inl, inr, refl, Bool, true, false, not, some, arith, length, ltb, ap, ◌∙◌,
  Bool-cases, bind_some, if_no, All,
}
use hypertron_sw01_ros2_brid.Prelude.Double.{DoubleOps, Narrowing}
use hypertron_sw01_ros2_brid.Prelude.Text.{Bytes}
use hypertron_sw01_ros2_brid.Lidar.Wire.{read_u16_le, write_le}
use hypertron_sw01_ros2_brid.Lidar.Parse.{
  LidarParseConfig, PointCloudResult, packed_cloud, aligned_cloud, no_result, packet_of,
  head_marker, parse_point_cloud_with_layout, fall_back, parse_bytes, parse_point_cloud_packet,
  validate_scales,
}
use hypertron_sw01_ros2_brid.Lidar.Parse.Sound.{parse_with_layout-Accepted}
use hypertron_sw01_ros2_brid.Lidar.Parse.InBounds.{parse_with_layout-IsDefined, packed-IsLayout}
use hypertron_sw01_ros2_brid.Lidar.Parse.Message.{
  Message, IsMessage, IsFilling, IsFinitePoint, write_packed, write_aligned, decoded,
}
use hypertron_sw01_ros2_brid.Lidar.Parse.Accepts.{
  Holds, parse_with_layout-Holds, packed-Holds, aligned-Holds,
}

packed-head :
    (m : Message) (filling : Bytes) → read_u16_le (write_packed m filling) ≡ some head_marker
unfolding write_packed write_le read_u16_le
packed-head m filling = refl

aligned-head :
    (pad pad' : ℕ) (m : Message) (filling : Bytes)
    → read_u16_le (write_aligned pad pad' m filling) ≡ some head_marker
unfolding write_aligned write_le read_u16_le
aligned-head pad pad' m filling = refl

-- The datagram is parsed, and the result holds the message's packet.
abbrev pub Parses :
    {D : Type 0} (F : Type 0) ⦃o : DoubleOps D⦄ ⦃c : Narrowing D F⦄
    → LidarParseConfig D
    → Message
    → Bytes
    → Type 0
Parses F config m d =
    (r : PointCloudResult F) × (parse_point_cloud_packet (some d) config ≡ some r)
    × (packet_of r ≡ decoded config.point_position_scale m)
    × (r.pos_num ≡ length m.points)

module _ {D F : Type 0} ⦃o : DoubleOps D⦄ ⦃c : Narrowing D F⦄ where
  -- A datagram that the packed layout accepts is not accepted under the aligned one, whatever the two
  -- configurations are and whatever result either attempt starts from.
  pub layouts_apart :
      (d : Bytes) (config config' : LidarParseConfig D) (first second r r' : PointCloudResult F)
      → parse_point_cloud_with_layout d packed_cloud config first ≡ some (true, r)
      → parse_point_cloud_with_layout d aligned_cloud config' second ≢ some (true, r')
  layouts_apart d config config' first second r r' h h' =
      let a = parse_with_layout-Accepted d packed_cloud config first r h in
      let b = parse_with_layout-Accepted d aligned_cloud config' second r' h' in
      ground (arith, a.measured, a.filled, b.measured, b.filled)

  Parses-packed :
      (config : LidarParseConfig D) (m : Message) (filling : Bytes)
      → validate_scales config ≡ true
      → IsMessage m
      → All (IsFinitePoint config.point_position_scale) m.points
      → IsFilling m.points filling
      → Parses F config m (write_packed m filling)
  unfolding parse_point_cloud_packet parse_bytes
  Parses-packed config m filling valid w f fill =
      let d = write_packed m filling in
      (
        _,
        if_no (not (validate_scales config)) _ _ _ (ap not valid) (
            if_no (ltb (length d) 2) _ _ _ (ground (arith, (packed-Holds m filling w fill).long)) (
              bind_some _ _ _ _ (packed-head m filling) (
                bind_some _ _ _ _
                  (parse_with_layout-Holds config packed_cloud d m no_result w f
                    (packed-Holds m filling w fill))
                  refl))),
        refl,
        refl,
      )

  -- The attempt with the packed layout refuses what the aligned layout accepts.
  packed_refuses :
      (config : LidarParseConfig D) (d : Bytes) (m : Message)
      → IsMessage m
      → All (IsFinitePoint config.point_position_scale) m.points
      → Holds aligned_cloud d m
      → (first : PointCloudResult F) × (parse_point_cloud_with_layout d packed_cloud config
            no_result
          ≡ some (false, first))
  packed_refuses config d m w f h =
      let (first, e) =
        parse_with_layout-IsDefined {F = F} d packed_cloud config no_result packed-IsLayout in
      elim (Bool-cases first.0) [
        | inl yes_e ↦ absurd (
            layouts_apart d config config no_result no_result first.1 _
              (e ∙ ap (λ (b : Bool). some (b, first.1)) yes_e)
              (parse_with_layout-Holds config aligned_cloud d m no_result w f h))
        | inr no_e ↦ (first.1, e ∙ ap (λ (b : Bool). some (b, first.1)) no_e)
      ]

  Parses-aligned :
      (config : LidarParseConfig D) (pad pad' : ℕ) (m : Message) (filling : Bytes)
      → validate_scales config ≡ true
      → IsMessage m
      → All (IsFinitePoint config.point_position_scale) m.points
      → IsFilling m.points filling
      → Parses F config m (write_aligned pad pad' m filling)
  unfolding parse_point_cloud_packet parse_bytes fall_back
  Parses-aligned config pad pad' m filling valid w f fill =
      let d = write_aligned pad pad' m filling in
      let h = aligned-Holds pad pad' m filling w fill in
      let (first, e) = packed_refuses config d m w f h in
      (
        _,
        if_no (not (validate_scales config)) _ _ _ (ap not valid) (
            if_no (ltb (length d) 2) _ _ _ (ground (arith, h.long)) (
              bind_some _ _ _ _ (aligned-head pad pad' m filling) (
                bind_some _ _ _ _ e (
                  bind_some _ _ _ _ (parse_with_layout-Holds config aligned_cloud d m first w f h)
                    refl)))),
        refl,
        refl,
      )

  -- A message of 1 to 50 points whose fields fit their words, and whose scaled coordinates are finite,
  -- is parsed back under valid scales, however it is written: in the packed or in the aligned layout,
  -- with any bytes in the gaps, and with a dynamic tail or with a tail behind 50 points, whatever fills
  -- the array. The result is ok with the message's timestamp, total, index and points.
  pub Parses-written :
      (config : LidarParseConfig D) (m : Message) (filling : Bytes) (pad pad' : ℕ)
      → validate_scales config ≡ true
      → IsMessage m
      → All (IsFinitePoint config.point_position_scale) m.points
      → IsFilling m.points filling
      → Parses F config m (write_packed m filling)
        × Parses F config m (write_aligned pad pad' m filling)
  Parses-written config m filling pad pad' valid w f fill = (
    Parses-packed config m filling valid w f fill,
    Parses-aligned config pad pad' m filling valid w f fill,
  )
