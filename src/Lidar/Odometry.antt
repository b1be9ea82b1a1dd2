-- ===== src/Lidar/Odometry.antt =====
-- `ParseOdometryPacket` of src/lidar_stream.cpp. A datagram is the list of its bytes, a null pointer is
-- `none`; the whole is `none` where the source would read past the datagram's end.
pub mod Message
pub mod RoundTrip
pub mod InBounds
use hypertron_sw01_ros2_brid.Prelude.{
  ℕ, ◌+◌, Bool, true, false, ◌&&◌, ◌||◌, not, List, [], ◌∷◌, Option, none, some, length, ltb, ◌==◌,
  if◌then◌else◌, drop, ◌>>=◌, match_option,
}
use hypertron_sw01_ros2_brid.Prelude.Int.{ℤ}
use hypertron_sw01_ros2_brid.Prelude.Double.{DoubleOps}
use hypertron_sw01_ros2_brid.Prelude.Text.{Bytes, codes, bytes_eq, is_empty}
use hypertron_sw01_ros2_brid.Lidar.Wire.{read_u16_le, read_u64_le, read_i64_le}
use hypertron_sw01_ros2_brid.Lidar.Parse.{
  LidarParseConfig, head_marker, tail_marker, valid_quaternion_order, make_reason, validate_scales,
  scaled,
}

pub record LidarOdometry (D : Type 0) : Type 0 where
  pub timestamp_ns : ℕ
  pub x : D
  pub y : D
  pub z : D
  pub qx : D
  pub qy : D
  pub qz : D
  pub qw : D

pub record OdometryResult (D : Type 0) : Type 0 where
  pub ok : Bool
  pub reason : Bytes
  pub odometry : LidarOdometry D

pub record OdomLayout : Type 0 where
  pub len : ℕ
  pub timestamp_at : ℕ
  pub x_at : ℕ
  pub tail_at : ℕ

abbrev pub packed_odom : OdomLayout
packed_odom = record { len = 68; timestamp_at = 2; x_at = 10; tail_at = 66 }

abbrev pub aligned_odom : OdomLayout
aligned_odom = record { len = 80; timestamp_at = 8; x_at = 16; tail_at = 72 }

abbrev pub refuse : {D : Type 0} → Bytes → OdometryResult D → Bool × OdometryResult D
refuse what result = (false, record result { reason = make_reason what })

module _ {D : Type 0} ⦃o : DoubleOps D⦄ where
  abbrev pub no_result : OdometryResult D
  no_result = record {
    ok = false;
    reason = [];
    odometry = record {
      timestamp_ns = 0;
      x = o.zero_value;
      y = o.zero_value;
      z = o.zero_value;
      qx = o.zero_value;
      qy = o.zero_value;
      qz = o.zero_value;
      qw = o.zero_value;
    };
  }

  -- The components x, y, z, w of a quaternion that came in this order.
  unfoldable pub ordered : Bytes → D → D → D → D → D × D × D × D
  ordered order raw0 raw1 raw2 raw3 =
      if bytes_eq order (codes "wxyz") then (raw1, raw2, raw3, raw0) else (raw0, raw1, raw2, raw3)

  unfoldable pub norm_of : D × D × D × D → D
  norm_of (qx, qy, qz, qw) =
      o.sqrt (o.add (o.add (o.add (o.mul qx qx) (o.mul qy qy)) (o.mul qz qz)) (o.mul qw qw))

  unfoldable pub is_good_norm : D → Bool
  is_good_norm norm = o.is_finite norm && not (o.eq norm o.zero_value)

  unfoldable pub normalized : LidarOdometry D → D × D × D × D → LidarOdometry D
  normalized odom q = record odom {
    qx = o.div q.0 (norm_of q);
    qy = o.div q.1 (norm_of q);
    qz = o.div q.2 (norm_of q);
    qw = o.div q.3 (norm_of q);
  }

  -- From the quaternion on.
  unfoldable pub take_quaternion :
      Bytes
      → OdomLayout
      → LidarParseConfig D
      → LidarOdometry D
      → OdometryResult D
      → Option (Bool × OdometryResult D)
  take_quaternion datagram layout config odom result = do
    let sq = config.odom_quaternion_scale
    raw0 ← read_i64_le (drop (layout.x_at + 24) datagram)
    raw1 ← read_i64_le (drop (layout.x_at + 32) datagram)
    raw2 ← read_i64_le (drop (layout.x_at + 40) datagram)
    raw3 ← read_i64_le (drop (layout.x_at + 48) datagram)
    let q =
        ordered config.odom_quaternion_order (scaled sq raw0) (scaled sq raw1) (scaled sq raw2)
          (scaled sq raw3)
    if not (is_good_norm (norm_of q))
        then some (refuse (codes "odometry quaternion norm is zero") result)
        else some (true, record result { odometry = normalized odom q; ok = true })

  -- From the translation on.
  unfoldable pub take_translation :
      Bytes → OdomLayout → LidarParseConfig D → OdometryResult D → Option (Bool × OdometryResult D)
  take_translation datagram layout config result = do
    let sx = config.odom_position_scale
    timestamp ← read_u64_le (drop layout.timestamp_at datagram)
    x ← read_i64_le (drop layout.x_at datagram)
    y ← read_i64_le (drop (layout.x_at + 8) datagram)
    z ← read_i64_le (drop (layout.x_at + 16) datagram)
    if not (o.is_finite (scaled sx x) && (o.is_finite (scaled sx y) && o.is_finite (scaled sx z)))
        then some (refuse (codes "odometry position scaled to non-finite") result)
        else if not (valid_quaternion_order config.odom_quaternion_order)
        then some (refuse (codes "odom_quaternion_order must be 'xyzw' or 'wxyz'") result)
        else take_quaternion datagram layout config
            (record no_result.odometry {
              timestamp_ns = timestamp;
              x = scaled sx x;
              y = scaled sx y;
              z = scaled sx z;
            })
            result

  unfoldable pub parse_odom_with_layout :
      Bytes → OdomLayout → LidarParseConfig D → OdometryResult D → Option (Bool × OdometryResult D)
  parse_odom_with_layout datagram layout config result =
      if not (length datagram == layout.len) then some (false, result) else do
        head ← read_u16_le datagram
        if not (head == head_marker)
            then some (refuse (codes "head marker is not 0xAA55") result)
            else do
              tail ← read_u16_le (drop layout.tail_at datagram)
              if not (tail == tail_marker)
                  then some (refuse (codes "tail marker is not 0xFF00") result)
                  else take_translation datagram layout config result

  abbrev pub reject : Bytes → Option (OdometryResult D)
  reject what = some (record no_result { reason = make_reason what })

  -- After both attempts.
  abbrev pub conclude : Bool × OdometryResult D → Option (OdometryResult D)
  conclude (true, result) = some result
  conclude (false, result) =
      if is_empty result.reason
      then some
          (record result { reason = make_reason (codes "datagram length matches neither layout") })
      else some result

  unfoldable pub parse_odometry_bytes : Bytes → LidarParseConfig D → Option (OdometryResult D)
  parse_odometry_bytes datagram config =
      if ltb (length datagram) 2
      then reject (codes "datagram too short")
      else if ltb (length datagram) packed_odom.len && ltb (length datagram) aligned_odom.len
      then reject (codes "datagram too short")
      else do
        head ← read_u16_le datagram
        if not (head == head_marker) then reject (codes "head marker is not 0xAA55") else do
          (accepted, result) ← parse_odom_with_layout datagram packed_odom config no_result
          if accepted
              then some result
              else parse_odom_with_layout datagram aligned_odom config result >>= conclude

  unfoldable pub parse_odometry_packet :
      Option Bytes → LidarParseConfig D → Option (OdometryResult D)
  parse_odometry_packet datagram config =
      if not (validate_scales config)
      then reject (codes "invalid scale coefficients")
      else match_option datagram (reject (codes "datagram too short"))
          (λ d. parse_odometry_bytes d config)
