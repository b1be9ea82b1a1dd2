-- ===== src/Lidar/Parse/Message.antt =====
-- A point cloud message as a sender writes it, in both header layouts and with both tails: what
-- lidar_stream.cpp says of the datagrams, written independently of the parser.
use hypertron_sw01_ros2_brid.Prelude.{
  ℕ, ◌+◌, ◌*◌, ◌^◌, ◌≤◌, ◌<◌, ◌≡◌, ◌⊎◌, refl, true, List, [], ◌∷◌, ◌++◌, arith, length, All,
}
use hypertron_sw01_ros2_brid.Prelude.Double.{DoubleOps, Narrowing}
use hypertron_sw01_ros2_brid.Prelude.Int.{signed}
use hypertron_sw01_ros2_brid.Prelude.Text.{Bytes}
use hypertron_sw01_ros2_brid.Lidar.Types.{LidarPoint, PointCloudPacket}
use hypertron_sw01_ros2_brid.Lidar.Wire.{write_le}
use hypertron_sw01_ros2_brid.Lidar.Parse.{is_finite_position, scaled}

-- The words of one point.
pub record WirePoint : Type 0 where
  pub x : ℕ
  pub y : ℕ
  pub z : ℕ
  pub rgba_channels : ℕ × ℕ × ℕ × ℕ

pub record Message : Type 0 where
  pub timestamp_ns : ℕ
  pub total : ℕ
  pub index : ℕ
  pub points : List WirePoint

abbrev pub IsWirePoint : WirePoint → Type 0
IsWirePoint p =
    (p.x < 2 ^ 32)
    × (p.y < 2 ^ 32)
    × (p.z < 2 ^ 32)
    × (p.rgba_channels.0 < 2 ^ 32)
    × (p.rgba_channels.1 < 2 ^ 32)
    × (p.rgba_channels.2 < 2 ^ 32)
    × (p.rgba_channels.3 < 2 ^ 32)

-- The fields fit their words, there are 1 to 50 points, and the frame is not empty.
pub record IsMessage (m : Message) : Type 0 where
  pub stamped : m.timestamp_ns < 2 ^ 64
  pub counted : (0 < m.total) × (m.total < 2 ^ 32)
  pub placed : m.index < 2 ^ 32
  pub filled : (0 < length m.points) × (length m.points ≤ 50)
  pub worded : All IsWirePoint m.points

unfoldable pub write_point : WirePoint → Bytes → Bytes
write_point p rest =
    write_le 4 p.x
    ++ (write_le 4 p.y
        ++ (write_le 4 p.z
            ++ (write_le 4 p.rgba_channels.0
                ++ (write_le 4 p.rgba_channels.1
                    ++ (write_le 4 p.rgba_channels.2 ++ (write_le 4 p.rgba_channels.3 ++ rest))))))

unfoldable pub write_points : List WirePoint → Bytes
write_points [] = []
write_points (p ∷ ps) = write_point p (write_points ps)

-- What stands behind the points: nothing, or what fills the array up to 50 points.
abbrev pub IsFilling : List WirePoint → Bytes → Type 0
IsFilling ps filling = (length filling ≡ 0) ⊎ (28 * length ps + length filling ≡ 28 * 50)

-- The points, the filling and the tail marker.
abbrev pub write_body : List WirePoint → Bytes → Bytes
write_body ps filling = (write_points ps ++ filling) ++ write_le 2 0xff00

abbrev pub packed_header : Message → Bytes
packed_header m =
    write_le 2 0xaa55
    ++ (write_le 8 m.timestamp_ns
        ++ (write_le 4 m.total ++ (write_le 4 m.index ++ write_le 2 (length m.points))))

unfoldable pub write_packed : Message → Bytes → Bytes
write_packed m filling = packed_header m ++ write_body m.points filling

-- `pad` and `pad'` are what stands in the gaps of 6 and 2 bytes.
abbrev pub aligned_header : ℕ → ℕ → Message → Bytes
aligned_header pad pad' m =
    write_le 2 0xaa55
    ++ (write_le 6 pad
        ++ (write_le 8 m.timestamp_ns
            ++ (write_le 4 m.total
                ++ (write_le 4 m.index ++ (write_le 2 (length m.points) ++ write_le 2 pad')))))

unfoldable pub write_aligned : ℕ → ℕ → Message → Bytes → Bytes
write_aligned pad pad' m filling = aligned_header pad pad' m ++ write_body m.points filling

pub length-write_points : (ps : List WirePoint) → length (write_points ps) ≡ 28 * length ps
unfolding write_points write_point write_le
length-write_points [] = refl
length-write_points (p ∷ ps) = omega (arith, length-write_points ps)

module _ {D F : Type 0} ⦃o : DoubleOps D⦄ ⦃c : Narrowing D F⦄ where
  abbrev pub point_of : D → WirePoint → LidarPoint F
  point_of scale p = record {
    x = c.to_float (scaled scale (signed 32 p.x));
    y = c.to_float (scaled scale (signed 32 p.y));
    z = c.to_float (scaled scale (signed 32 p.z));
    rgba = p.rgba_channels.0;
    rgba_channels = p.rgba_channels;
  }

  abbrev pub points_of : D → List WirePoint → List (LidarPoint F)
  points_of scale [] = []
  points_of scale (p ∷ ps) = point_of scale p ∷ points_of scale ps

  -- The packet that a message stands for.
  abbrev pub decoded : D → Message → PointCloudPacket (LidarPoint F)
  decoded scale m = record {
    ok = true;
    timestamp_ns = m.timestamp_ns;
    total = m.total;
    index = m.index;
    points = points_of scale m.points;
  }

module _ {D : Type 0} ⦃o : DoubleOps D⦄ where
  -- The scaled coordinates are finite.
  abbrev pub IsFinitePoint : D → WirePoint → Type 0
  IsFinitePoint scale p =
      is_finite_position scale (signed 32 p.x) (signed 32 p.y) (signed 32 p.z) ≡ true
