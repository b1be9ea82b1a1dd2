-- ===== src/Lidar/Odometry/RoundTrip.antt =====
-- Odometry that a sender writes is parsed back.
use hypertron_sw01_ros2_brid.Prelude.{
  ℕ, ◌≡◌, refl, ap, true, false, not, some, arith, length, ◌==◌, bind_some, if_no, if_yes,
}
use hypertron_sw01_ros2_brid.Prelude.Double.{DoubleOps}
use hypertron_sw01_ros2_brid.Prelude.Text.{Bytes, codes}
use hypertron_sw01_ros2_brid.Lidar.Wire.{
  write_le, read_u16_le, read_u64_le-write_le, read_i64_le-write_le,
}
use hypertron_sw01_ros2_brid.Lidar.Parse.{LidarParseConfig, validate_scales}
use hypertron_sw01_ros2_brid.Lidar.Odometry.{
  OdometryResult, packed_odom, aligned_odom, no_result, ordered, norm_of, is_good_norm, normalized,
  take_quaternion, take_translation, parse_odom_with_layout, parse_odometry_bytes,
  parse_odometry_packet,
}
use hypertron_sw01_ros2_brid.Lidar.Odometry.Message.{
  WireOdometry, IsWireOdometry, QuaternionOrder, xyzw, wxyz, order_name, write_packed_odom,
  write_aligned_odom, odometry_of, IsUsable, ParsesOdometry,
}

length-aligned :
    (order : QuaternionOrder) (pad pad' : ℕ) (w : WireOdometry)
    → length (write_aligned_odom order pad pad' w) ≡ aligned_odom.len
unfolding write_aligned_odom write_le
length-aligned xyzw pad pad' w = refl
length-aligned wxyz pad pad' w = refl

module _ {D : Type 0} ⦃o : DoubleOps D⦄ where
  not_packed :
      (config : LidarParseConfig D) (d : Bytes)
      → length d ≡ aligned_odom.len
      → parse_odom_with_layout d packed_odom config no_result ≡ some (false, no_result)
  unfolding parse_odom_with_layout
  not_packed config d e = if_yes (not (length d == packed_odom.len)) _ _ _ (ground arith) refl

  read_packed_xyzw :
      (config : LidarParseConfig D) (w : WireOdometry) (r : OdometryResult D)
      → IsWireOdometry w
      → config.odom_quaternion_order ≡ codes "xyzw"
      → IsUsable config w
      → parse_odom_with_layout (write_packed_odom xyzw w) packed_odom config r
        ≡ some (true, record r { odometry = odometry_of config w; ok = true })
  unfolding parse_odom_with_layout take_translation take_quaternion write_packed_odom write_le
      read_u16_le ordered norm_of is_good_norm normalized
  read_packed_xyzw config w r (ht, hx, hy, hz, h0, h1, h2, h3) order (finite, norm) =
      bind_some _ _ _ _ (read_u64_le-write_le w.timestamp_ns _ ht) (
        bind_some _ _ _ _ (read_i64_le-write_le w.position.0 _ hx) (
          bind_some _ _ _ _ (read_i64_le-write_le w.position.1 _ hy) (
            bind_some _ _ _ _ (read_i64_le-write_le w.position.2 _ hz) (
              if_no _ _ _ _ (ap not finite) (
                rw order (
                  bind_some _ _ _ _ (read_i64_le-write_le w.qx _ h0) (
                    bind_some _ _ _ _ (read_i64_le-write_le w.qy _ h1) (
                      bind_some _ _ _ _ (read_i64_le-write_le w.qz _ h2) (
                        bind_some _ _ _ _ (read_i64_le-write_le w.qw _ h3)
                          (if_no _ _ _ _ (ap not norm) refl))))))))))

  read_packed_wxyz :
      (config : LidarParseConfig D) (w : WireOdometry) (r : OdometryResult D)
      → IsWireOdometry w
      → config.odom_quaternion_order ≡ codes "wxyz"
      → IsUsable config w
      → parse_odom_with_layout (write_packed_odom wxyz w) packed_odom config r
        ≡ some (true, record r { odometry = odometry_of config w; ok = true })
  unfolding parse_odom_with_layout take_translation take_quaternion write_packed_odom write_le
      read_u16_le ordered norm_of is_good_norm normalized
  read_packed_wxyz config w r (ht, hx, hy, hz, h0, h1, h2, h3) order (finite, norm) =
      bind_some _ _ _ _ (read_u64_le-write_le w.timestamp_ns _ ht) (
        bind_some _ _ _ _ (read_i64_le-write_le w.position.0 _ hx) (
          bind_some _ _ _ _ (read_i64_le-write_le w.position.1 _ hy) (
            bind_some _ _ _ _ (read_i64_le-write_le w.position.2 _ hz) (
              if_no _ _ _ _ (ap not finite) (
                rw order (
                  bind_some _ _ _ _ (read_i64_le-write_le w.qw _ h3) (
                    bind_some _ _ _ _ (read_i64_le-write_le w.qx _ h0) (
                      bind_some _ _ _ _ (read_i64_le-write_le w.qy _ h1) (
                        bind_some _ _ _ _ (read_i64_le-write_le w.qz _ h2)
                          (if_no _ _ _ _ (ap not norm) refl))))))))))

  read_packed :
      (config : LidarParseConfig D) (order : QuaternionOrder) (w : WireOdometry)
      (r : OdometryResult D)
      → IsWireOdometry w
      → config.odom_quaternion_order ≡ order_name order
      → IsUsable config w
      → parse_odom_with_layout (write_packed_odom order w) packed_odom config r
        ≡ some (true, record r { odometry = odometry_of config w; ok = true })
  read_packed config xyzw w r h e u = read_packed_xyzw config w r h e u
  read_packed config wxyz w r h e u = read_packed_wxyz config w r h e u

  read_aligned_xyzw :
      (config : LidarParseConfig D) (pad pad' : ℕ) (w : WireOdometry) (r : OdometryResult D)
      → IsWireOdometry w
      → config.odom_quaternion_order ≡ codes "xyzw"
      → IsUsable config w
      → parse_odom_with_layout (write_aligned_odom xyzw pad pad' w) aligned_odom config r
        ≡ some (true, record r { odometry = odometry_of config w; ok = true })
  unfolding parse_odom_with_layout take_translation take_quaternion write_aligned_odom write_le
      read_u16_le ordered norm_of is_good_norm normalized
  read_aligned_xyzw config pad pad' w r (ht, hx, hy, hz, h0, h1, h2, h3) order (finite, norm) =
      bind_some _ _ _ _ (read_u64_le-write_le w.timestamp_ns _ ht) (
        bind_some _ _ _ _ (read_i64_le-write_le w.position.0 _ hx) (
          bind_some _ _ _ _ (read_i64_le-write_le w.position.1 _ hy) (
            bind_some _ _ _ _ (read_i64_le-write_le w.position.2 _ hz) (
              if_no _ _ _ _ (ap not finite) (
                rw order (
                  bind_some _ _ _ _ (read_i64_le-write_le w.qx _ h0) (
                    bind_some _ _ _ _ (read_i64_le-write_le w.qy _ h1) (
                      bind_some _ _ _ _ (read_i64_le-write_le w.qz _ h2) (
                        bind_some _ _ _ _ (read_i64_le-write_le w.qw _ h3)
                          (if_no _ _ _ _ (ap not norm) refl))))))))))

  read_aligned_wxyz :
      (config : LidarParseConfig D) (pad pad' : ℕ) (w : WireOdometry) (r : OdometryResult D)
      → IsWireOdometry w
      → config.odom_quaternion_order ≡ codes "wxyz"
      → IsUsable config w
      → parse_odom_with_layout (write_aligned_odom wxyz pad pad' w) aligned_odom config r
        ≡ some (true, record r { odometry = odometry_of config w; ok = true })
  unfolding parse_odom_with_layout take_translation take_quaternion write_aligned_odom write_le
      read_u16_le ordered norm_of is_good_norm normalized
  read_aligned_wxyz config pad pad' w r (ht, hx, hy, hz, h0, h1, h2, h3) order (finite, norm) =
      bind_some _ _ _ _ (read_u64_le-write_le w.timestamp_ns _ ht) (
        bind_some _ _ _ _ (read_i64_le-write_le w.position.0 _ hx) (
          bind_some _ _ _ _ (read_i64_le-write_le w.position.1 _ hy) (
            bind_some _ _ _ _ (read_i64_le-write_le w.position.2 _ hz) (
              if_no _ _ _ _ (ap not finite) (
                rw order (
                  bind_some _ _ _ _ (read_i64_le-write_le w.qw _ h3) (
                    bind_some _ _ _ _ (read_i64_le-write_le w.qx _ h0) (
                      bind_some _ _ _ _ (read_i64_le-write_le w.qy _ h1) (
                        bind_some _ _ _ _ (read_i64_le-write_le w.qz _ h2)
                          (if_no _ _ _ _ (ap not norm) refl))))))))))

  read_aligned :
      (config : LidarParseConfig D) (order : QuaternionOrder) (pad pad' : ℕ) (w : WireOdometry)
      (r : OdometryResult D)
      → IsWireOdometry w
      → config.odom_quaternion_order ≡ order_name order
      → IsUsable config w
      → parse_odom_with_layout (write_aligned_odom order pad pad' w) aligned_odom config r
        ≡ some (true, record r { odometry = odometry_of config w; ok = true })
  read_aligned config xyzw pad pad' w r h e u = read_aligned_xyzw config pad pad' w r h e u
  read_aligned config wxyz pad pad' w r h e u = read_aligned_wxyz config pad pad' w r h e u

  packed_is :
      (config : LidarParseConfig D) (order : QuaternionOrder) (w : WireOdometry)
      {r : OdometryResult D}
      → parse_odom_with_layout (write_packed_odom order w) packed_odom config no_result
        ≡ some (true, r)
      → parse_odometry_bytes (write_packed_odom order w) config ≡ some r
  unfolding parse_odometry_bytes write_packed_odom write_le read_u16_le
  packed_is config xyzw w e = bind_some _ _ _ _ e refl
  packed_is config wxyz w e = bind_some _ _ _ _ e refl

  aligned_is :
      (config : LidarParseConfig D) (order : QuaternionOrder) (pad pad' : ℕ) (w : WireOdometry)
      {r : OdometryResult D}
      → parse_odom_with_layout (write_aligned_odom order pad pad' w) aligned_odom config no_result
        ≡ some (true, r)
      → parse_odometry_bytes (write_aligned_odom order pad pad' w) config ≡ some r
  unfolding parse_odometry_bytes write_aligned_odom write_le read_u16_le
  aligned_is config xyzw pad pad' w e =
      bind_some _ _ _ _ (not_packed config _ (length-aligned xyzw pad pad' w))
        (bind_some _ _ _ _ e refl)
  aligned_is config wxyz pad pad' w e =
      bind_some _ _ _ _ (not_packed config _ (length-aligned wxyz pad pad' w))
        (bind_some _ _ _ _ e refl)

  -- Odometry whose words fit 64 bits, whose scaled position is finite and whose quaternion has a
  -- finite norm that is not zero, is parsed back under valid scales, written in the packed or in the
  -- aligned layout with any bytes in the gaps, with the quaternion's components in the configured order,
  -- x, y, z, w or w, x, y, z: the result is ok, with the timestamp, the scaled position, and each
  -- component of the quaternion, scaled and divided by the root of the sum of the squares of all four.
  pub ParsesOdometry-written :
      (config : LidarParseConfig D) (order : QuaternionOrder) (w : WireOdometry) (pad pad' : ℕ)
      → validate_scales config ≡ true
      → config.odom_quaternion_order ≡ order_name order
      → IsWireOdometry w
      → IsUsable config w
      → ParsesOdometry config w (write_packed_odom order w)
        × ParsesOdometry config w (write_aligned_odom order pad pad' w)
  unfolding parse_odometry_packet parse_odometry_bytes
  ParsesOdometry-written config order w pad pad' valid named h usable = (
    (
      _,
      if_no (not (validate_scales config)) _ _ _ (ap not valid)
          (packed_is config order w (read_packed config order w no_result h named usable)),
      refl,
      refl,
    ),
    (
      _,
      if_no (not (validate_scales config)) _ _ _ (ap not valid) (
          aligned_is config order pad pad' w
            (read_aligned config order pad pad' w no_result h named usable)),
      refl,
      refl,
    ),
  )
