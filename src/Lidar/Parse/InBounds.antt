-- ===== src/Lidar/Parse/InBounds.antt =====
-- The parser of point clouds reads inside the datagram.
use hypertron_sw01_ros2_brid.Prelude.{
  ℕ, zero, suc, ◌+◌, ◌*◌, ◌≤◌, ◌≡◌, refl, not, Option, some, arith, length, ltb, ◌==◌, drop,
  length-drop, IsDefined, bind-IsDefined, if_either, if_cases, match_cases,
}
use hypertron_sw01_ros2_brid.Prelude.Double.{DoubleOps, Narrowing}
use hypertron_sw01_ros2_brid.Prelude.Text.{Bytes}
use hypertron_sw01_ros2_brid.Lidar.Wire.{
  read_u16_le-IsDefined, read_u32_le-IsDefined, read_u64_le-IsDefined, read_i32_le-IsDefined,
}
use hypertron_sw01_ros2_brid.Lidar.Parse.{
  LidarParseConfig, PointCloudResult, CloudLayout, packed_cloud, aligned_cloud, point_bytes,
  find_tail, max_pos_num, tail_marker, head_marker, validate_scales, is_finite_position,
  decode_point, decode_points, take_points, take_fields, take_tail, parse_point_cloud_with_layout,
  fall_back, parse_bytes, parse_point_cloud_packet,
}

-- The fields of a header stand before the points, and the fixed length has room for the marker.
abbrev pub IsLayout : CloudLayout → Type 0
IsLayout l =
    (l.timestamp_at + 8 ≤ l.pos_at)
    × (l.total_at + 4 ≤ l.pos_at)
    × (l.index_at + 4 ≤ l.pos_at)
    × (l.fixed_len ≡ l.pos_at + point_bytes * max_pos_num + 2)

pub packed-IsLayout : IsLayout packed_cloud
packed-IsLayout = omega arith

aligned-IsLayout : IsLayout aligned_cloud
aligned-IsLayout = omega arith

-- A tail stands behind the points that are read.
pub find_tail-fits :
    (l : CloudLayout) (len n : ℕ) (at : ℕ)
    → IsLayout l
    → n ≤ max_pos_num
    → find_tail l len n ≡ some at
    → (at + 2 ≤ len) × (l.pos_at + point_bytes * n ≤ at)
unfolding find_tail
find_tail-fits l len n at h b e = ground arith

module _ {D F : Type 0} ⦃o : DoubleOps D⦄ ⦃c : Narrowing D F⦄ where
  decode_point-IsDefined :
      (scale : D) (p : Bytes) → point_bytes ≤ length p → IsDefined (decode_point {F = F} scale p)
  unfolding decode_point
  decode_point-IsDefined scale p h =
      let room = λ (k : ℕ). length-drop k p in
      bind-IsDefined _ _ (read_i32_le-IsDefined p (omega arith)) (λ x _.
        bind-IsDefined _ _ (read_i32_le-IsDefined (drop 4 p) (omega (arith, room 4))) (λ y _.
          bind-IsDefined _ _ (read_i32_le-IsDefined (drop 8 p) (omega (arith, room 8))) (λ z _.
            if_either IsDefined (not (is_finite_position scale x y z)) _ _ (_, refl)
              (bind-IsDefined _ _ (read_u32_le-IsDefined (drop 12 p) (omega (arith, room 12)))
                (λ c0 _.
                  bind-IsDefined _ _ (read_u32_le-IsDefined (drop 16 p) (omega (arith, room 16)))
                    (λ c1 _.
                      bind-IsDefined _ _
                        (read_u32_le-IsDefined (drop 20 p) (omega (arith, room 20)))
                        (λ c2 _.
                          bind-IsDefined _ _
                            (read_u32_le-IsDefined (drop 24 p) (omega (arith, room 24)))
                            (λ c3 _. (_, refl)))))))))

  decode_points-IsDefined :
      (scale : D) (p : Bytes) (n : ℕ)
      → point_bytes * n ≤ length p
      → IsDefined (decode_points {F = F} scale p n)
  unfolding decode_points
  decode_points-IsDefined scale p zero h = (_, refl)
  decode_points-IsDefined scale p (suc n) h =
      bind-IsDefined _ _ (decode_point-IsDefined scale p (omega arith)) (λ r _.
        match_cases IsDefined r _ _ (λ _. (_, refl))
          (λ pt _.
            bind-IsDefined _ _
              (decode_points-IsDefined scale (drop point_bytes p) n
                (omega (arith, length-drop point_bytes p)))
              (λ pts _. (_, refl))))

  take_points-IsDefined :
      (d : Bytes) (l : CloudLayout) (scale : D) (r : PointCloudResult F)
      → l.pos_at + point_bytes * r.pos_num ≤ length d
      → IsDefined (take_points d l scale r)
  unfolding take_points
  take_points-IsDefined d l scale r h =
      bind-IsDefined _ _
        (decode_points-IsDefined scale (drop l.pos_at d) r.pos_num
          (omega (arith, length-drop l.pos_at d)))
        (λ decoded _. (_, refl))

  take_fields-IsDefined :
      (d : Bytes) (l : CloudLayout) (scale : D) (n : ℕ) (r : PointCloudResult F)
      → IsLayout l
      → l.pos_at + point_bytes * n ≤ length d
      → IsDefined (take_fields d l scale n r)
  unfolding take_fields
  take_fields-IsDefined d l scale n r w h =
      let room = λ (k : ℕ). length-drop k d in
      bind-IsDefined _ _
        (read_u64_le-IsDefined (drop l.timestamp_at d) (omega (arith, room l.timestamp_at)))
        (λ timestamp _.
          bind-IsDefined _ _
            (read_u32_le-IsDefined (drop l.total_at d) (omega (arith, room l.total_at)))
            (λ total _.
              bind-IsDefined _ _
                (read_u32_le-IsDefined (drop l.index_at d) (omega (arith, room l.index_at)))
                (λ index _.
                  if_either IsDefined (total == 0) _ _ (_, refl)
                    (take_points-IsDefined d l scale _ h))))

  take_tail-IsDefined :
      (d : Bytes) (l : CloudLayout) (scale : D) (n : ℕ) (r : PointCloudResult F)
      → IsLayout l
      → n ≤ max_pos_num
      → IsDefined (take_tail d l scale n r)
  unfolding take_tail
  take_tail-IsDefined d l scale n r w b =
      match_cases IsDefined (find_tail l (length d) n) _ _ (λ _. (_, refl))
        (λ at e.
          let (inside, after) = find_tail-fits l (length d) n at w b e in
          bind-IsDefined _ _ (read_u16_le-IsDefined (drop at d) (omega (arith, length-drop at d)))
            (λ tail _.
              if_either IsDefined (not (tail == tail_marker)) _ _ (_, refl)
                (take_fields-IsDefined d l scale n r w (omega arith))))

  pub parse_with_layout-IsDefined :
      (d : Bytes) (l : CloudLayout) (config : LidarParseConfig D) (r : PointCloudResult F)
      → IsLayout l
      → IsDefined (parse_point_cloud_with_layout d l config r)
  unfolding parse_point_cloud_with_layout
  parse_with_layout-IsDefined d l config r w =
      if_cases IsDefined (ltb (length d) (l.posnum_at + 2)) _ _ (λ _. (_, refl))
        (λ long.
          bind-IsDefined _ _
            (read_u16_le-IsDefined (drop l.posnum_at d) (ground (arith, length-drop l.posnum_at d)))
            (λ n _.
              if_either IsDefined (n == 0) _ _ (_, refl)
                (if_cases IsDefined (ltb max_pos_num n) _ _ (λ _. (_, refl))
                  (λ few. take_tail-IsDefined d l _ n r w (ground arith)))))

  pub parse_point_cloud_packet-IsDefined :
      (datagram : Option Bytes) (config : LidarParseConfig D)
      → (r : PointCloudResult F) × (parse_point_cloud_packet datagram config ≡ some r)
  unfolding parse_point_cloud_packet parse_bytes fall_back
  parse_point_cloud_packet-IsDefined datagram config =
      if_either IsDefined (not (validate_scales config)) _ _ (_, refl)
        (match_cases IsDefined datagram _ _ (λ _. (_, refl))
          (λ d _.
            if_cases IsDefined (ltb (length d) 2) _ _ (λ _. (_, refl))
              (λ long. bind-IsDefined _ _ (read_u16_le-IsDefined d (ground arith)) (λ head _.
                if_either IsDefined (not (head == head_marker)) _ _ (_, refl)
                  (bind-IsDefined _ _
                    (parse_with_layout-IsDefined d packed_cloud config _ packed-IsLayout)
                    (λ first _.
                      if_either IsDefined first.0 _ _ (_, refl)
                        (bind-IsDefined _ _
                          (parse_with_layout-IsDefined d aligned_cloud config first.1
                            aligned-IsLayout)
                          (λ second _. if_either IsDefined second.0 _ _ (_, refl) (_, refl)))))))))
