-- ===== src/Lidar/Parse/Accepts.antt =====
-- A datagram that holds a message in a layout is accepted under that layout.
use hypertron_sw01_ros2_brid.Prelude.{
  ℕ, ◌+◌, ◌*◌, ◌≤◌, ◌≡◌, refl, true, List, [], ◌∷◌, ◌++◌, some, arith, length, ltb, ◌==◌, drop, All,
  length-append, drop-append, bind_some, if_no, match_some, sym, ap, subst, ◌∙◌,
}
use mathlib.Core.List.{append_assoc}
use hypertron_sw01_ros2_brid.Prelude.Double.{DoubleOps, Narrowing}
use hypertron_sw01_ros2_brid.Prelude.Text.{Bytes}
use hypertron_sw01_ros2_brid.Lidar.Wire.{
  write_le, length-write_le, read_u16_le, read_u32_le, read_u64_le, read_u16_le-write_le,
  read_u32_le-write_le, read_u64_le-write_le, read_i32_le-write_le,
}
use hypertron_sw01_ros2_brid.Lidar.Parse.{
  LidarParseConfig, PointCloudResult, CloudLayout, packed_cloud, aligned_cloud, find_tail,
  decode_point, decode_points, take_points, take_fields, take_tail, tail_marker,
  parse_point_cloud_with_layout, max_pos_num,
}
use hypertron_sw01_ros2_brid.Lidar.Parse.Message.{
  WirePoint, Message, IsWirePoint, IsMessage, write_point, write_points, IsFilling, write_body,
  length-write_points, write_packed, write_aligned, packed_header, aligned_header, point_of,
  points_of, IsFinitePoint,
}

-- The datagram's bytes are the message's in this layout.
pub record Holds (l : CloudLayout) (d : Bytes) (m : Message) : Type 0 where
  pub long : l.posnum_at + 2 ≤ length d
  pub stamped : read_u64_le (drop l.timestamp_at d) ≡ some m.timestamp_ns
  pub totalled : read_u32_le (drop l.total_at d) ≡ some m.total
  pub indexed : read_u32_le (drop l.index_at d) ≡ some m.index
  pub counted : read_u16_le (drop l.posnum_at d) ≡ some (length m.points)
  pub rest : Bytes
  pub pointed : drop l.pos_at d ≡ write_points m.points ++ rest
  pub tail_at : ℕ
  pub tailed : find_tail l (length d) (length m.points) ≡ some tail_at
  pub marked : read_u16_le (drop tail_at d) ≡ some tail_marker

module _ {D F : Type 0} ⦃o : DoubleOps D⦄ ⦃c : Narrowing D F⦄ where
  decode_point-write_point :
      (scale : D) (p : WirePoint) (rest : Bytes)
      → IsWirePoint p
      → IsFinitePoint scale p
      → decode_point {F = F} scale (write_point p rest) ≡ some (some (point_of scale p))
  unfolding decode_point write_point write_le
  decode_point-write_point scale p rest (hx, hy, hz, h0, h1, h2, h3) finite =
      bind_some _ _ _ _ (read_i32_le-write_le p.x _ hx) (
        bind_some _ _ _ _ (read_i32_le-write_le p.y _ hy) (
          bind_some _ _ _ _ (read_i32_le-write_le p.z _ hz) (
            rw finite (
              bind_some _ _ _ _ (read_u32_le-write_le p.rgba_channels.0 _ h0) (
                bind_some _ _ _ _ (read_u32_le-write_le p.rgba_channels.1 _ h1) (
                  bind_some _ _ _ _ (read_u32_le-write_le p.rgba_channels.2 _ h2)
                    (bind_some _ _ _ _ (read_u32_le-write_le p.rgba_channels.3 rest h3) refl)))))))

  decode_points-write_points :
      (scale : D) (ps : List WirePoint) (rest : Bytes)
      → All IsWirePoint ps
      → All (IsFinitePoint scale) ps
      → decode_points {F = F} scale (write_points ps ++ rest) (length ps)
        ≡ some (some (points_of scale ps))
  unfolding decode_points write_points write_point write_le
  decode_points-write_points scale [] rest h f = refl
  decode_points-write_points scale (p ∷ ps) rest (h, hs) (f, fs) =
      bind_some _ _ _ _ (decode_point-write_point scale p (write_points ps ++ rest) h f)
        (bind_some _ _ _ _ (decode_points-write_points scale ps rest hs fs) refl)

  decode_points_at :
      (scale : D) (ps : List WirePoint) (q rest : Bytes)
      → q ≡ write_points ps ++ rest
      → All IsWirePoint ps
      → All (IsFinitePoint scale) ps
      → decode_points {F = F} scale q (length ps) ≡ some (some (points_of scale ps))
  decode_points_at scale ps q rest e h f = rw e (decode_points-write_points scale ps rest h f)

  -- The result that a message stands for, if the message of an earlier attempt is there.
  abbrev pub result_of : D → Message → Bytes → PointCloudResult F
  result_of scale m reason = record {
    ok = true;
    reason = reason;
    timestamp_ns = m.timestamp_ns;
    total = m.total;
    index = m.index;
    pos_num = length m.points;
    points = points_of scale m.points;
  }

  pub parse_with_layout-Holds :
      (config : LidarParseConfig D) (l : CloudLayout) (d : Bytes) (m : Message)
      (r : PointCloudResult F)
      → IsMessage m
      → All (IsFinitePoint config.point_position_scale) m.points
      → Holds l d m
      → parse_point_cloud_with_layout d l config r
        ≡ some (true, result_of config.point_position_scale m r.reason)
  unfolding parse_point_cloud_with_layout take_tail take_fields take_points
  parse_with_layout-Holds config l d m r w f h =
      if_no (ltb (length d) (l.posnum_at + 2)) _ _ _ (ground (arith, h.long)) (
        bind_some _ _ _ _ h.counted (
          if_no (length m.points == 0) _ _ _ (ground (arith, w.filled)) (
            if_no (ltb max_pos_num (length m.points)) _ _ _ (ground (arith, w.filled)) (
              match_some _ _ _ _ _ h.tailed (
                bind_some _ _ _ _ h.marked (
                  bind_some _ _ _ _ h.stamped (
                    bind_some _ _ _ _ h.totalled (
                      bind_some _ _ _ _ h.indexed (
                        if_no (m.total == 0) _ _ _ (ground (arith, w.counted)) (
                          bind_some _ _ _ _
                            (decode_points_at config.point_position_scale m.points _ h.rest
                              h.pointed w.worded f)
                            refl))))))))))

-- Lengths first: a header of a fixed length, the points, and a tail that fits.
body-tail :
    (l : CloudLayout) (header : Bytes) (ps : List WirePoint) (filling : Bytes)
    → length header ≡ l.pos_at
    → l.fixed_len ≡ l.pos_at + 28 * max_pos_num + 2
    → IsFilling ps filling
    → find_tail l (length (header ++ write_body ps filling)) (length ps)
      ≡ some (length (header ++ (write_points ps ++ filling)))
unfolding find_tail
body-tail l header ps filling e e' f = ground (
  arith,
  length-append {0} header (write_body ps filling),
  length-append {0} (write_points ps ++ filling) (write_le 2 0xff00),
  length-append {0} header (write_points ps ++ filling),
  length-append {0} (write_points ps) filling,
  length-write_points ps,
  length-write_le 2 0xff00,
)

body-mark :
    (header : Bytes) (ps : List WirePoint) (filling : Bytes)
    → read_u16_le
        (drop (length (header ++ (write_points ps ++ filling))) (header ++ write_body ps filling))
      ≡ some tail_marker
unfolding write_le
body-mark header ps filling =
    let front : Bytes = header ++ (write_points ps ++ filling) in
    let e : header ++ write_body ps filling ≡ front ++ write_le 2 0xff00 =
      sym (append_assoc header (write_points ps ++ filling) (write_le 2 0xff00)) in
    subst (λ (p : Bytes). read_u16_le p ≡ some tail_marker)
      (sym (ap (drop (length front)) e ∙ drop-append front (write_le 2 0xff00)))
      (read_u16_le-write_le tail_marker [] (omega arith))

pub packed-Holds :
    (m : Message) (filling : Bytes)
    → IsMessage m
    → IsFilling m.points filling
    → Holds packed_cloud (write_packed m filling) m
unfolding write_packed write_le
packed-Holds m filling w f = record {
  long = omega (arith, length-append {0} (packed_header m) (write_body m.points filling));
  stamped = read_u64_le-write_le m.timestamp_ns _ w.stamped;
  totalled = read_u32_le-write_le m.total _ w.counted.1;
  indexed = read_u32_le-write_le m.index _ w.placed;
  counted = read_u16_le-write_le (length m.points) _ (omega (arith, w.filled));
  rest = filling ++ write_le 2 0xff00;
  pointed = append_assoc (write_points m.points) filling (write_le 2 0xff00);
  tail_at = length (packed_header m ++ (write_points m.points ++ filling));
  tailed = body-tail packed_cloud (packed_header m) m.points filling refl refl f;
  marked = body-mark (packed_header m) m.points filling;
}

pub aligned-Holds :
    (pad pad' : ℕ) (m : Message) (filling : Bytes)
    → IsMessage m
    → IsFilling m.points filling
    → Holds aligned_cloud (write_aligned pad pad' m filling) m
unfolding write_aligned write_le
aligned-Holds pad pad' m filling w f = record {
  long = omega (arith, length-append {0} (aligned_header pad pad' m) (write_body m.points filling));
  stamped = read_u64_le-write_le m.timestamp_ns _ w.stamped;
  totalled = read_u32_le-write_le m.total _ w.counted.1;
  indexed = read_u32_le-write_le m.index _ w.placed;
  counted = read_u16_le-write_le (length m.points) _ (omega (arith, w.filled));
  rest = filling ++ write_le 2 0xff00;
  pointed = append_assoc (write_points m.points) filling (write_le 2 0xff00);
  tail_at = length (aligned_header pad pad' m ++ (write_points m.points ++ filling));
  tailed = body-tail aligned_cloud (aligned_header pad pad' m) m.points filling refl refl f;
  marked = body-mark (aligned_header pad pad' m) m.points filling;
}
