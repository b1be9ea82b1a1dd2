-- ===== src/Lidar/Parse/Refused.antt =====
-- What is left of a refused datagram.
use hypertron_sw01_ros2_brid.Prelude.{
  ◌+◌, ◌≡◌, refl, Bool, true, false, not, List, [], ◌++◌, Option, none, some, length, ltb, ◌==◌,
  drop, bind_split, match_option, if_cases, match_cases, subst,
}
use hypertron_sw01_ros2_brid.Prelude.Double.{DoubleOps, Narrowing}
use hypertron_sw01_ros2_brid.Prelude.Text.{Bytes, codes}
use hypertron_sw01_ros2_brid.Lidar.Types.{LidarPoint}
use hypertron_sw01_ros2_brid.Lidar.Wire.{read_u16_le, read_u32_le, read_u64_le}
use hypertron_sw01_ros2_brid.Lidar.Parse.{
  LidarParseConfig, PointCloudResult, CloudLayout, find_tail, decode_points, take_points,
  take_fields, take_tail, tail_marker, max_pos_num, parse_point_cloud_with_layout, make_reason,
  refuse,
}

-- A readable message, and no points.
abbrev pub HasReason : {F : Type 0} → PointCloudResult F → Type 0
HasReason r =
    ((what : Bytes) × (r.reason ≡ codes "lidar parse failure: " ++ what))
    × (r.ok ≡ false)
    × (r.points ≡ [])

-- An attempt that refuses leaves a reason behind if it was given no points.
abbrev Refuses : {F : Type 0} → Option (Bool × PointCloudResult F) → Type 0
Refuses {F} res = (r : PointCloudResult F) → res ≡ some (false, r) → HasReason r

refused_is :
    {F : Type 0} {a b : PointCloudResult F}
    → ◌≡◌ {A = Option (Bool × PointCloudResult F)} (some (false, a)) (some (false, b))
    → a ≡ b
refused_is e = cc

refuse-HasReason :
    {F : Type 0} (what : Bytes) (r0 r : PointCloudResult F)
    → r0.ok ≡ false
    → r0.points ≡ []
    → some (refuse what r0) ≡ some (false, r)
    → HasReason r
unfolding make_reason
refuse-HasReason what r0 r h h' e = subst HasReason (refused_is e) ((what, refl), h, h')

conclude-Refuses :
    {F : Type 0} (points : Option (List (LidarPoint F))) (what : Bytes)
    (result : PointCloudResult F)
    → result.ok ≡ false
    → result.points ≡ []
    → Refuses (
        some (
          match_option points
            (refuse what result)
            (λ pts. (true, record result { points = pts; ok = true }))))
conclude-Refuses none what result h h' r e = refuse-HasReason what result r h h' e
conclude-Refuses (some pts) what result h h' r e = cc

module _ {D F : Type 0} ⦃o : DoubleOps D⦄ ⦃c : Narrowing D F⦄ where
  pub parse_with_layout-HasReason :
      (d : Bytes) (l : CloudLayout) (config : LidarParseConfig D) (r0 r : PointCloudResult F)
      → r0.ok ≡ false
      → r0.points ≡ []
      → parse_point_cloud_with_layout d l config r0 ≡ some (false, r)
      → HasReason r
  unfolding parse_point_cloud_with_layout take_tail take_fields take_points
  parse_with_layout-HasReason d l config r0 r h h' e =
      let refused = λ (what : Bytes) (r : PointCloudResult F). refuse-HasReason what r0 r h h' in
      if_cases Refuses (ltb (length d) (l.posnum_at + 2)) _ _ (λ _. refused _)
        (λ long r e.
          let (n, _, e) = bind_split (read_u16_le (drop l.posnum_at d)) _ (false, r) e in
          if_cases Refuses (n == 0) _ _ (λ _. refused _)
            (λ some_points.
              if_cases Refuses (ltb max_pos_num n) _ _ (λ _. refused _)
                (λ few.
                  match_cases Refuses (find_tail l (length d) n) _ _ (λ _. refused _)
                    (λ at tailed r e.
                      let (mark, _, e) = bind_split (read_u16_le (drop at d)) _ (false, r) e in
                      if_cases Refuses (not (mark == tail_marker)) _ _ (λ _. refused _)
                        (λ right r e.
                          let (stamp, _, e) =
                            bind_split (read_u64_le (drop l.timestamp_at d)) _ (false, r) e in
                          let (total, _, e) =
                            bind_split (read_u32_le (drop l.total_at d)) _ (false, r) e in
                          let (index, _, e) =
                            bind_split (read_u32_le (drop l.index_at d)) _ (false, r) e in
                          let read : PointCloudResult F = record r0 {
                            timestamp_ns = stamp;
                            total = total;
                            index = index;
                            pos_num = n;
                          } in
                          if_cases Refuses (total == 0) _ _ (λ _ r. refuse-HasReason _ read r h h')
                            (λ not_empty r e.
                              let (points, _, e) =
                                bind_split
                                  (decode_points config.point_position_scale (drop l.pos_at d) n) _
                                  (false, r) e in
                              conclude-Refuses points _ read h h' r e)
                            r e)
                        r e)))
            r e)
        r e
