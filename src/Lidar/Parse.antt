-- ===== src/Lidar/Parse.antt =====
-- `ParsePointCloudPacket` of src/lidar_stream.cpp, with the configuration and the result of
-- lidar_stream.hpp. A datagram is the list of its bytes, a null pointer is `none`; the whole is
-- `none` where the source would read past the datagram's end.
pub mod InBounds
pub mod Message
pub mod Accepts
pub mod Sound
pub mod Refused
pub mod Outcome
pub mod RoundTrip
use hypertron_sw01_ros2_brid.Prelude.{
  ℕ, zero, suc, ◌+◌, ◌-◌, ◌*◌, Bool, true, false, ◌&&◌, ◌||◌, not, List, [], ◌∷◌, Option, none,
  some, length, ltb, ◌==◌, if◌then◌else◌, drop, ◌>>=◌, ◌++◌, match_option,
}
use hypertron_sw01_ros2_brid.Prelude.Int.{ℤ, pos}
use hypertron_sw01_ros2_brid.Prelude.Double.{DoubleOps, Narrowing}
use hypertron_sw01_ros2_brid.Prelude.Text.{Bytes, codes, bytes_eq, is_empty}
use hypertron_sw01_ros2_brid.Lidar.Types.{LidarPoint, PointCloudPacket}
use hypertron_sw01_ros2_brid.Lidar.Wire.{read_u16_le, read_u32_le, read_u64_le, read_i32_le}

pub record LidarParseConfig (D : Type 0) : Type 0 where
  pub point_position_scale : D
  pub odom_position_scale : D
  pub odom_quaternion_scale : D
  pub odom_quaternion_order : Bytes

pub record PointCloudResult (F : Type 0) : Type 0 where
  pub ok : Bool
  pub reason : Bytes
  pub timestamp_ns : ℕ
  pub total : ℕ
  pub index : ℕ
  pub pos_num : ℕ
  pub points : List (LidarPoint F)

abbrev pub no_result : {F : Type 0} → PointCloudResult F
no_result = record {
  ok = false;
  reason = [];
  timestamp_ns = 0;
  total = 0;
  index = 0;
  pos_num = 0;
  points = [];
}

-- What the assembler reads of a result.
abbrev pub packet_of : {F : Type 0} → PointCloudResult F → PointCloudPacket (LidarPoint F)
packet_of r = record {
  ok = r.ok;
  timestamp_ns = r.timestamp_ns;
  total = r.total;
  index = r.index;
  points = r.points;
}

abbrev pub head_marker : ℕ
head_marker = 0xaa55

abbrev pub tail_marker : ℕ
tail_marker = 0xff00

abbrev pub max_pos_num : ℕ
max_pos_num = 50

abbrev pub point_bytes : ℕ
point_bytes = 28

abbrev pub valid_quaternion_order : Bytes → Bool
valid_quaternion_order order = bytes_eq order (codes "xyzw") || bytes_eq order (codes "wxyz")

unfoldable pub make_reason : Bytes → Bytes
make_reason what = codes "lidar parse failure: " ++ what

pub record CloudLayout : Type 0 where
  pub timestamp_at : ℕ
  pub total_at : ℕ
  pub index_at : ℕ
  pub posnum_at : ℕ
  pub pos_at : ℕ
  pub fixed_len : ℕ

abbrev pub packed_cloud : CloudLayout
packed_cloud = record {
  timestamp_at = 2;
  total_at = 10;
  index_at = 14;
  posnum_at = 18;
  pos_at = 20;
  fixed_len = 20 + 28 * max_pos_num + 2;
}

abbrev pub aligned_cloud : CloudLayout
aligned_cloud = record {
  timestamp_at = 8;
  total_at = 16;
  index_at = 20;
  posnum_at = 24;
  pos_at = 28;
  fixed_len = 28 + 28 * max_pos_num + 2;
}

-- Where the tail marker stands, if the length is that of a dynamic or of a fixed tail.
unfoldable pub find_tail : CloudLayout → ℕ → ℕ → Option ℕ
find_tail layout len pos_num =
    if len == layout.pos_at + point_bytes * pos_num + 2
    then some (layout.pos_at + point_bytes * pos_num)
    else if len == layout.fixed_len
    then some (layout.fixed_len - 2)
    else none

abbrev pub refuse : {F : Type 0} → Bytes → PointCloudResult F → Bool × PointCloudResult F
refuse what result = (false, record result { reason = make_reason what })

-- A message without a datagram's fields.
abbrev pub reject : {F : Type 0} → Bytes → Option (PointCloudResult F)
reject what = some (record no_result { reason = make_reason what })

abbrev pub push_point :
    {F : Type 0} → LidarPoint F → Option (List (LidarPoint F)) → Option (List (LidarPoint F))
push_point p none = none
push_point p (some pts) = some (p ∷ pts)

module _ {D : Type 0} ⦃o : DoubleOps D⦄ where
  -- 1e9 is a whole number that a double holds exactly.
  abbrev pub is_valid_scale : D → Bool
  is_valid_scale v =
      o.is_finite v && (o.lt o.zero_value v && o.le (o.fabs v) (o.of_int (pos 1_000_000_000)))

  unfoldable pub validate_scales : LidarParseConfig D → Bool
  validate_scales config =
      is_valid_scale config.point_position_scale
      && (is_valid_scale config.odom_position_scale && is_valid_scale config.odom_quaternion_scale)

  abbrev pub scaled : D → ℤ → D
  scaled scale v = o.mul (o.of_int v) scale

  unfoldable pub is_finite_position : D → ℤ → ℤ → ℤ → Bool
  is_finite_position scale x y z =
      o.is_finite (scaled scale x) && (o.is_finite (scaled scale y) && o.is_finite (scaled scale z))

module _ {D F : Type 0} ⦃o : DoubleOps D⦄ ⦃c : Narrowing D F⦄ where
  -- One round of the loop over the points: the point, or none if a coordinate is not finite.
  unfoldable pub decode_point : D → Bytes → Option (Option (LidarPoint F))
  decode_point scale p = do
    x ← read_i32_le p
    y ← read_i32_le (drop 4 p)
    z ← read_i32_le (drop 8 p)
    if not (is_finite_position scale x y z) then some none else do
      c0 ← read_u32_le (drop 12 p)
      c1 ← read_u32_le (drop 16 p)
      c2 ← read_u32_le (drop 20 p)
      c3 ← read_u32_le (drop 24 p)
      some (
          some (record {
            x = c.to_float (scaled scale x);
            y = c.to_float (scaled scale y);
            z = c.to_float (scaled scale z);
            rgba = c0;
            rgba_channels = (c0, c1, c2, c3);
          }))

  -- The loop, with `n` points to go, the next of them at `p`. It ends at the first point that is not
  -- finite.
  unfoldable pub decode_points : D → Bytes → ℕ → Option (Option (List (LidarPoint F)))
  decode_points scale p zero = some (some [])
  decode_points scale p (suc n) = decode_point scale p >>= λ r.
      match_option r (some none)
        (λ pt. decode_points scale (drop point_bytes p) n >>= λ pts. some (push_point pt pts))

  -- From the points on.
  unfoldable pub take_points :
      Bytes → CloudLayout → D → PointCloudResult F → Option (Bool × PointCloudResult F)
  take_points datagram layout scale result = do
    decoded ← decode_points scale (drop layout.pos_at datagram) result.pos_num
    some (
        match_option decoded (refuse (codes "point coordinate scaled to non-finite") result)
          (λ pts. (true, record result { points = pts; ok = true })))

  -- From the header's fields on.
  unfoldable pub take_fields :
      Bytes → CloudLayout → D → ℕ → PointCloudResult F → Option (Bool × PointCloudResult F)
  take_fields datagram layout scale pos_num result = do
    timestamp ← read_u64_le (drop layout.timestamp_at datagram)
    total ← read_u32_le (drop layout.total_at datagram)
    index ← read_u32_le (drop layout.index_at datagram)
    let result' = record result {
      timestamp_ns = timestamp;
      total = total;
      index = index;
      pos_num = pos_num;
    }
    if total == 0
        then some (refuse (codes "total point count is zero") result')
        else take_points datagram layout scale result'

  -- From the check of the length on.
  unfoldable pub take_tail :
      Bytes → CloudLayout → D → ℕ → PointCloudResult F → Option (Bool × PointCloudResult F)
  take_tail datagram layout scale pos_num result =
      match_option (find_tail layout (length datagram) pos_num)
        (some (refuse (codes "datagram length matches no valid tail") result))
        (λ tail_at. do
          tail ← read_u16_le (drop tail_at datagram)
          if not (tail == tail_marker)
              then some (refuse (codes "tail marker is not 0xFF00") result)
              else take_fields datagram layout scale pos_num result)

  unfoldable pub parse_point_cloud_with_layout :
      Bytes
      → CloudLayout
      → LidarParseConfig D
      → PointCloudResult F
      → Option (Bool × PointCloudResult F)
  parse_point_cloud_with_layout datagram layout config result =
      if ltb (length datagram) (layout.posnum_at + 2)
      then some (refuse (codes "datagram too short for header") result)
      else do
        pos_num ← read_u16_le (drop layout.posnum_at datagram)
        if pos_num == 0
            then some (refuse (codes "pos_num is zero") result)
            else if ltb max_pos_num pos_num
            then some (refuse (codes "pos_num exceeds the 50-point bound") result)
            else take_tail datagram layout config.point_position_scale pos_num result

  -- The second attempt, on the result that the first one left behind.
  unfoldable pub fall_back :
      Bytes → LidarParseConfig D → PointCloudResult F → Option (PointCloudResult F)
  fall_back datagram config packed = do
    (accepted, result) ← parse_point_cloud_with_layout datagram aligned_cloud config packed
    if accepted
        then some result
        else some (record result {
          reason = if is_empty packed.reason then result.reason else packed.reason;
          ok = false;
        })

  unfoldable pub parse_bytes : Bytes → LidarParseConfig D → Option (PointCloudResult F)
  parse_bytes datagram config =
      if ltb (length datagram) 2 then reject (codes "datagram too short") else do
        head ← read_u16_le datagram
        if not (head == head_marker) then reject (codes "head marker is not 0xAA55") else do
          (accepted, result) ← parse_point_cloud_with_layout datagram packed_cloud config no_result
          if accepted then some result else fall_back datagram config result

  unfoldable pub parse_point_cloud_packet :
      Option Bytes → LidarParseConfig D → Option (PointCloudResult F)
  parse_point_cloud_packet datagram config =
      if not (validate_scales config)
      then reject (codes "invalid scale coefficients")
      else match_option datagram (reject (codes "datagram too short")) (λ d. parse_bytes d config)
