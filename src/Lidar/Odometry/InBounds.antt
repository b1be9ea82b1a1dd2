-- ===== src/Lidar/Odometry/InBounds.antt =====
-- The parser of odometry reads inside the datagram, as the one of point clouds does.
use hypertron_sw01_ros2_brid.Prelude.{
  ℕ, ◌+◌, ◌≤◌, ◌≡◌, refl, Bool, true, false, not, Option, some, arith, length, length-drop, ltb,
  ◌==◌, drop, IsDefined, bind-IsDefined, if_cases, if_either, match_cases,
}
use hypertron_sw01_ros2_brid.Prelude.Double.{DoubleOps, Narrowing}
use hypertron_sw01_ros2_brid.Prelude.Text.{Bytes, is_empty}
use hypertron_sw01_ros2_brid.Lidar.Wire.{
  read_i64_le, read_u16_le-IsDefined, read_u64_le-IsDefined, read_i64_le-IsDefined,
}
use hypertron_sw01_ros2_brid.Lidar.Parse.InBounds.{parse_point_cloud_packet-IsDefined}
use hypertron_sw01_ros2_brid.Lidar.Parse.{
  PointCloudResult, parse_point_cloud_packet, LidarParseConfig, head_marker, tail_marker,
  valid_quaternion_order, validate_scales,
}
use hypertron_sw01_ros2_brid.Lidar.Odometry.{
  LidarOdometry, OdometryResult, OdomLayout, packed_odom, aligned_odom, no_result, take_quaternion,
  take_translation, parse_odom_with_layout, conclude, parse_odometry_bytes, parse_odometry_packet,
}

-- The fields stand inside a datagram of the layout's length.
abbrev IsFitting : OdomLayout → Type 0
IsFitting l =
    (2 ≤ l.len) × (l.timestamp_at + 8 ≤ l.len) × (l.x_at + 56 ≤ l.len) × (l.tail_at + 2 ≤ l.len)

read_i64_at : (d : Bytes) (at : ℕ) → at + 8 ≤ length d → IsDefined (read_i64_le (drop at d))
read_i64_at d at h = read_i64_le-IsDefined (drop at d) (omega (arith, length-drop at d))

module _ {D : Type 0} ⦃o : DoubleOps D⦄ where
  take_quaternion-IsDefined :
      (d : Bytes) (l : OdomLayout) (config : LidarParseConfig D) (odom : LidarOdometry D)
      (r : OdometryResult D)
      → l.x_at + 56 ≤ length d
      → IsDefined (take_quaternion d l config odom r)
  unfolding take_quaternion
  take_quaternion-IsDefined d l config odom r h =
      bind-IsDefined _ _ (read_i64_at d (l.x_at + 24) (omega arith)) (λ raw0 _.
        bind-IsDefined _ _ (read_i64_at d (l.x_at + 32) (omega arith)) (λ raw1 _.
          bind-IsDefined _ _ (read_i64_at d (l.x_at + 40) (omega arith)) (λ raw2 _.
            bind-IsDefined _ _ (read_i64_at d (l.x_at + 48) (omega arith))
              (λ raw3 _. if_either IsDefined _ _ _ (_, refl) (_, refl)))))

  take_translation-IsDefined :
      (d : Bytes) (l : OdomLayout) (config : LidarParseConfig D) (r : OdometryResult D)
      → IsFitting l
      → length d ≡ l.len
      → IsDefined (take_translation d l config r)
  unfolding take_translation
  take_translation-IsDefined d l config r h e =
      bind-IsDefined _ _
        (read_u64_le-IsDefined (drop l.timestamp_at d)
          (omega (arith, length-drop l.timestamp_at d)))
        (λ timestamp _. bind-IsDefined _ _ (read_i64_at d l.x_at (omega arith)) (λ x _.
          bind-IsDefined _ _ (read_i64_at d (l.x_at + 8) (omega arith)) (λ y _.
            bind-IsDefined _ _ (read_i64_at d (l.x_at + 16) (omega arith)) (λ z _.
              if_either IsDefined _ _ _ (_, refl)
                (if_either IsDefined (not (valid_quaternion_order config.odom_quaternion_order)) _ _
                  (_, refl) (take_quaternion-IsDefined d l config _ r (omega arith)))))))

  parse_odom_with_layout-IsDefined :
      (d : Bytes) (l : OdomLayout) (config : LidarParseConfig D) (r : OdometryResult D)
      → IsFitting l
      → IsDefined (parse_odom_with_layout d l config r)
  unfolding parse_odom_with_layout
  parse_odom_with_layout-IsDefined d l config r h =
      if_cases IsDefined (not (length d == l.len)) _ _ (λ _. (_, refl))
        (λ e. bind-IsDefined _ _ (read_u16_le-IsDefined d (ground arith)) (λ head _.
          if_either IsDefined (not (head == head_marker)) _ _ (_, refl)
            (bind-IsDefined _ _
              (read_u16_le-IsDefined (drop l.tail_at d) (ground (arith, length-drop l.tail_at d)))
              (λ tail _.
                if_either IsDefined (not (tail == tail_marker)) _ _ (_, refl)
                  (take_translation-IsDefined d l config r h (ground arith))))))

  conclude-IsDefined : (second : Bool × OdometryResult D) → IsDefined (conclude second)
  conclude-IsDefined (true, r) = (_, refl)
  conclude-IsDefined (false, r) = if_either IsDefined (is_empty r.reason) _ _ (_, refl) (_, refl)

  parse_odometry_packet-IsDefined :
      (datagram : Option Bytes) (config : LidarParseConfig D)
      → (r : OdometryResult D) × (parse_odometry_packet datagram config ≡ some r)
  unfolding parse_odometry_packet parse_odometry_bytes
  parse_odometry_packet-IsDefined datagram config =
      if_either IsDefined (not (validate_scales config)) _ _ (_, refl)
        (match_cases IsDefined datagram _ _ (λ _. (_, refl))
          (λ d _.
            if_cases IsDefined (ltb (length d) 2) _ _ (λ _. (_, refl))
              (λ long.
                if_either IsDefined _ _ _ (_, refl)
                  (bind-IsDefined _ _ (read_u16_le-IsDefined d (ground arith)) (λ head _.
                    if_either IsDefined (not (head == head_marker)) _ _ (_, refl)
                      (bind-IsDefined _ _
                        (parse_odom_with_layout-IsDefined d packed_odom config no_result
                          (omega arith))
                        (λ first _.
                          if_either IsDefined first.0 _ _ (_, refl)
                            (bind-IsDefined _ _
                              (parse_odom_with_layout-IsDefined d aligned_odom config first.1
                                (omega arith))
                              (λ second _. conclude-IsDefined second)))))))))

-- Whatever a datagram holds and however short it is, the null pointer included, both parsers give a
-- result: no read passes the datagram's end.
pub parsers_stay_inside :
    {D F : Type 0} ⦃o : DoubleOps D⦄ ⦃c : Narrowing D F⦄ (datagram : Option Bytes)
    (config : LidarParseConfig D)
    → ((r : PointCloudResult F) × (parse_point_cloud_packet datagram config ≡ some r))
      × ((r : OdometryResult D) × (parse_odometry_packet datagram config ≡ some r))
parsers_stay_inside datagram config = (
  parse_point_cloud_packet-IsDefined datagram config,
  parse_odometry_packet-IsDefined datagram config,
)
