-- ===== src/Lidar/Odometry/Message.antt =====
-- What a sender of odometry writes, apart from the parser, and what its words stand for.
use hypertron_sw01_ros2_brid.Prelude.{ℕ, ◌^◌, ◌<◌, ◌≡◌, true, ◌&&◌, not, [], ◌++◌, some}
use hypertron_sw01_ros2_brid.Prelude.Int.{signed}
use hypertron_sw01_ros2_brid.Prelude.Double.{DoubleOps}
use hypertron_sw01_ros2_brid.Prelude.Text.{Bytes, codes}
use hypertron_sw01_ros2_brid.Lidar.Wire.{write_le}
use hypertron_sw01_ros2_brid.Lidar.Parse.{LidarParseConfig, scaled}
use hypertron_sw01_ros2_brid.Lidar.Odometry.{LidarOdometry, OdometryResult, parse_odometry_packet}

-- The words of an odometry datagram, with the quaternion's components by name.
pub record WireOdometry : Type 0 where
  pub timestamp_ns : ℕ
  pub position : ℕ × ℕ × ℕ
  pub qx : ℕ
  pub qy : ℕ
  pub qz : ℕ
  pub qw : ℕ

abbrev pub IsWireOdometry : WireOdometry → Type 0
IsWireOdometry w =
    (w.timestamp_ns < 2 ^ 64)
    × (w.position.0 < 2 ^ 64)
    × (w.position.1 < 2 ^ 64)
    × (w.position.2 < 2 ^ 64)
    × (w.qx < 2 ^ 64)
    × (w.qy < 2 ^ 64)
    × (w.qz < 2 ^ 64)
    × (w.qw < 2 ^ 64)

-- The order in which a device writes the components.
pub data QuaternionOrder : Type 0 where
  xyzw wxyz : QuaternionOrder

abbrev pub order_name : QuaternionOrder → Bytes
order_name xyzw = codes "xyzw"
order_name wxyz = codes "wxyz"

abbrev pub write_quaternion : QuaternionOrder → WireOdometry → Bytes → Bytes
write_quaternion xyzw w rest =
    write_le 8 w.qx ++ (write_le 8 w.qy ++ (write_le 8 w.qz ++ (write_le 8 w.qw ++ rest)))
write_quaternion wxyz w rest =
    write_le 8 w.qw ++ (write_le 8 w.qx ++ (write_le 8 w.qy ++ (write_le 8 w.qz ++ rest)))

-- The words behind the header, and the tail marker.
abbrev pub write_words : QuaternionOrder → WireOdometry → Bytes → Bytes
write_words order w rest =
    write_le 8 w.timestamp_ns
    ++ (write_le 8 w.position.0
        ++ (write_le 8 w.position.1
            ++ (write_le 8 w.position.2 ++ write_quaternion order w (write_le 2 0xff00 ++ rest))))

unfoldable pub write_packed_odom : QuaternionOrder → WireOdometry → Bytes
write_packed_odom order w = write_le 2 0xaa55 ++ write_words order w []

-- `pad` and `pad'` are the gaps of 6 bytes behind the head and behind the tail marker.
unfoldable pub write_aligned_odom : QuaternionOrder → ℕ → ℕ → WireOdometry → Bytes
write_aligned_odom order pad pad' w =
    write_le 2 0xaa55 ++ (write_le 6 pad ++ write_words order w (write_le 6 pad'))

module _ {D : Type 0} ⦃o : DoubleOps D⦄ where
  -- A component of the quaternion, scaled.
  abbrev pub component : LidarParseConfig D → ℕ → D
  component config v = scaled config.odom_quaternion_scale (signed 64 v)

  -- A coordinate of the position, scaled.
  abbrev pub coordinate : LidarParseConfig D → ℕ → D
  coordinate config v = scaled config.odom_position_scale (signed 64 v)

  -- The root of the sum of the components' squares.
  abbrev pub length_of : LidarParseConfig D → WireOdometry → D
  length_of config w =
      let square = λ (v : ℕ). o.mul (component config v) (component config v) in
      o.sqrt (o.add (o.add (o.add (square w.qx) (square w.qy)) (square w.qz)) (square w.qw))

  -- What the words stand for.
  abbrev pub odometry_of : LidarParseConfig D → WireOdometry → LidarOdometry D
  odometry_of config w = record {
    timestamp_ns = w.timestamp_ns;
    x = coordinate config w.position.0;
    y = coordinate config w.position.1;
    z = coordinate config w.position.2;
    qx = o.div (component config w.qx) (length_of config w);
    qy = o.div (component config w.qy) (length_of config w);
    qz = o.div (component config w.qz) (length_of config w);
    qw = o.div (component config w.qw) (length_of config w);
  }

  -- The scaled position is finite and the quaternion can be normalized.
  abbrev pub IsUsable : LidarParseConfig D → WireOdometry → Type 0
  IsUsable config w =
      (o.is_finite (coordinate config w.position.0)
          && (o.is_finite (coordinate config w.position.1)
              && o.is_finite (coordinate config w.position.2))
        ≡ true)
      × (o.is_finite (length_of config w) && not (o.eq (length_of config w) o.zero_value) ≡ true)

  -- The datagram is parsed, and the result is what the words stand for.
  abbrev pub ParsesOdometry : LidarParseConfig D → WireOdometry → Bytes → Type 0
  ParsesOdometry config w d =
      (r : OdometryResult D) × (parse_odometry_packet (some d) config ≡ some r)
      × (r.ok ≡ true)
      × (r.odometry ≡ odometry_of config w)
