-- ===== src/Lidar/Parse/Sound.antt =====
-- What an accepted datagram is: for each layout, and for the two attempts together.
use hypertron_sw01_ros2_brid.Prelude.{
  ℕ, zero, suc, ◌+◌, ◌*◌, ◌≤◌, ◌<◌, ◌≡◌, ◌⊎◌, refl, Bool, true, not, List, ◌∷◌, Option, none, some,
  arith, length, ltb, ◌==◌, drop, bind_split, match_option, if_cases, match_cases, subst, sym, ap,
  ◌∙◌,
}
use hypertron_sw01_ros2_brid.Prelude.Double.{DoubleOps, Narrowing}
use hypertron_sw01_ros2_brid.Prelude.Text.{Bytes}
use hypertron_sw01_ros2_brid.Lidar.Types.{LidarPoint}
use hypertron_sw01_ros2_brid.Lidar.Wire.{read_u16_le, read_u32_le, read_u64_le}
use hypertron_sw01_ros2_brid.Lidar.Parse.{
  LidarParseConfig, PointCloudResult, CloudLayout, find_tail, push_point, refuse, decode_point,
  decode_points, take_points, take_fields, take_tail, tail_marker, max_pos_num, point_bytes,
  parse_point_cloud_with_layout,
}

-- The length of a datagram with `n` points in a layout: that of a dynamic or of a fixed tail.
abbrev pub IsLength : CloudLayout → ℕ → ℕ → Type 0
IsLength l n len = (len ≡ l.pos_at + point_bytes * n + 2) ⊎ (len ≡ l.fixed_len)

-- What an accepted datagram and its result have in common.
pub record Accepted {F : Type 0} (l : CloudLayout) (d : Bytes) (r : PointCloudResult F)
    : Type 0 where
  pub parsed : r.ok ≡ true
  pub filled : (0 < r.pos_num) × (r.pos_num ≤ max_pos_num)
  pub decoded : length r.points ≡ r.pos_num
  pub not_empty : 0 < r.total
  pub measured : IsLength l r.pos_num (length d)
  pub stamped : read_u64_le (drop l.timestamp_at d) ≡ some r.timestamp_ns
  pub totalled : read_u32_le (drop l.total_at d) ≡ some r.total
  pub indexed : read_u32_le (drop l.index_at d) ≡ some r.index
  pub counted : read_u16_le (drop l.posnum_at d) ≡ some r.pos_num
  pub tail_at : ℕ
  pub marked : read_u16_le (drop tail_at d) ≡ some tail_marker
  pub tailed : find_tail l (length d) r.pos_num ≡ some tail_at

find_tail-IsLength :
    (l : CloudLayout) (len n at : ℕ) → find_tail l len n ≡ some at → IsLength l n len
unfolding find_tail
find_tail-IsLength l len n at h = ground arith

push_point-some :
    {F : Type 0} (pt : LidarPoint F) (tail : Option (List (LidarPoint F)))
    (pts : List (LidarPoint F))
    → some (push_point pt tail) ≡ some (some pts)
    → (rest : List (LidarPoint F)) × (tail ≡ some rest) × (pts ≡ pt ∷ rest)
push_point-some pt none pts h = cc
push_point-some pt (some rest) pts h = (rest, refl, cc)

conclude_points :
    {F : Type 0} (points : Option (List (LidarPoint F))) (what : Bytes)
    (result r : PointCloudResult F)
    → some (
        match_option points
          (refuse what result)
          (λ pts. (true, record result { points = pts; ok = true })))
      ≡ some (true, r)
    → (pts : List (LidarPoint F)) × (points ≡ some pts)
      × (r ≡ record result { points = pts; ok = true })
conclude_points none what result r h = cc
conclude_points (some pts) what result r h = (pts, refl, cc)

-- If the result is an acceptance.
abbrev Sound : {F : Type 0} → CloudLayout → Bytes → Option (Bool × PointCloudResult F) → Type 0
Sound {F} l d res = (r : PointCloudResult F) → res ≡ some (true, r) → Accepted l d r

module _ {D F : Type 0} ⦃o : DoubleOps D⦄ ⦃c : Narrowing D F⦄ where
  length-decode_points :
      (scale : D) (p : Bytes) (n : ℕ) (pts : List (LidarPoint F))
      → decode_points scale p n ≡ some (some pts)
      → length pts ≡ n
  unfolding decode_points
  length-decode_points scale p zero pts h = ground arith
  length-decode_points scale p (suc n) pts h =
      let (r, _, h) = bind_split (decode_point scale p) _ (some pts) h in
      match_cases (λ res. res ≡ some (some pts) → length pts ≡ suc n) r _ _ (λ _ h. cc)
        (λ pt _ h.
          let (tail, e, h) =
            bind_split (decode_points scale (drop point_bytes p) n) _ (some pts) h in
          let (rest, e', e'') = push_point-some pt tail pts h in
          ground (arith, length-decode_points scale (drop point_bytes p) n rest))
        h

  pub parse_with_layout-Accepted :
      (d : Bytes) (l : CloudLayout) (config : LidarParseConfig D) (r0 r : PointCloudResult F)
      → parse_point_cloud_with_layout d l config r0 ≡ some (true, r)
      → Accepted l d r
  unfolding parse_point_cloud_with_layout take_tail take_fields take_points
  parse_with_layout-Accepted d l config r0 r h =
      if_cases (Sound l d) (ltb (length d) (l.posnum_at + 2)) _ _ (λ _ r e. cc)
        (λ long r e.
          let (n, counted, e) = bind_split (read_u16_le (drop l.posnum_at d)) _ (true, r) e in
          if_cases (Sound l d) (n == 0) _ _ (λ _ r e. cc)
            (λ some_points r e.
              if_cases (Sound l d) (ltb max_pos_num n) _ _ (λ _ r e. cc)
                (λ few r e.
                  match_cases (Sound l d) (find_tail l (length d) n) _ _ (λ _ r e. cc)
                    (λ at tailed r e.
                      let (mark, marked, e) = bind_split (read_u16_le (drop at d)) _ (true, r) e in
                      if_cases (Sound l d) (not (mark == tail_marker)) _ _ (λ _ r e. cc)
                        (λ right r e.
                          let (stamp, stamped, e) =
                            bind_split (read_u64_le (drop l.timestamp_at d)) _ (true, r) e in
                          let (total, totalled, e) =
                            bind_split (read_u32_le (drop l.total_at d)) _ (true, r) e in
                          let (index, indexed, e) =
                            bind_split (read_u32_le (drop l.index_at d)) _ (true, r) e in
                          if_cases (Sound l d) (total == 0) _ _ (λ _ r e. cc)
                            (λ not_empty r e.
                              let (points, decoded, e) =
                                bind_split
                                  (decode_points config.point_position_scale (drop l.pos_at d) n) _
                                  (true, r) e in
                              let (pts, e', made) = conclude_points points _ _ r e in
                              subst (Accepted l d) (sym made) (record {
                                parsed = refl;
                                filled = (ground arith, ground arith);
                                decoded =
                                    length-decode_points config.point_position_scale
                                      (drop l.pos_at d) n pts (decoded ∙ ap some e');
                                not_empty = ground arith;
                                measured = find_tail-IsLength l (length d) n at tailed;
                                stamped = stamped;
                                totalled = totalled;
                                indexed = indexed;
                                counted = counted;
                                tail_at = at;
                                marked = rw marked (ground arith);
                                tailed = tailed;
                              }))
                            r e)
                        r e)
                    r e)
                r e)
            r e)
        r h
