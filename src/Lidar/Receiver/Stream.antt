-- ===== src/Lidar/Receiver/Stream.antt =====
-- From datagrams to frames: the receiver's loop over the datagrams of one frame.
use hypertron_sw01_ros2_brid.Prelude.{
  ℕ, suc, ◌+◌, ◌≤◌, ◌<◌, ◌≡◌, refl, ◌∙◌, sym, subst, ap, true, List, [], ◌∷◌, ◌++◌, Option, none,
  some, length, map, All, bind_some,
}
use hypertron_sw01_ros2_brid.Prelude.Double.{DoubleOps, Narrowing}
use hypertron_sw01_ros2_brid.Prelude.Text.{Bytes}
use hypertron_sw01_ros2_brid.Lidar.Types.{
  LidarPoint, PointEq, PointCloudPacket, PointCloudFrame, AssemblerConfig,
}
use hypertron_sw01_ros2_brid.Lidar.Slot.Publish.{Placed}
use hypertron_sw01_ros2_brid.Lidar.Assembler.{Assembler, find_slot, add_packet, expire}
use hypertron_sw01_ros2_brid.Lidar.Assembler.Config.{add_packet-config}
use hypertron_sw01_ros2_brid.Lidar.Assembler.Invariant.{IsOrderly}
use hypertron_sw01_ros2_brid.Lidar.Assembler.Delivery.{
  IsPart, frames_of, append_frame, AllApart, sum_points,
}
use hypertron_sw01_ros2_brid.Lidar.Assembler.AnyOrder.{delivers-frame}
use hypertron_sw01_ros2_brid.Lidar.Parse.{
  LidarParseConfig, PointCloudResult, parse_point_cloud_packet,
}
use hypertron_sw01_ros2_brid.Lidar.Parse.Message.{Message, decoded}
use hypertron_sw01_ros2_brid.Lidar.Parse.RoundTrip.{Parses}
use hypertron_sw01_ros2_brid.Lidar.Receiver.{
  Readings, LidarSink, Emitted, on_frame, on_odometry, on_parse_warning, LoopState, point_cloud,
  emit_frame, add_parsed, take_packet, expire_pass, pass_point_cloud,
}
use hypertron_sw01_ros2_brid.Lidar.Receiver.Recent.{IsRecent, add_packet-IsRecent, expire-idle}
use hypertron_sw01_ros2_brid.Lidar.Receiver.Throttle.{pass, run}

-- A datagram, the clock's readings in the pass that takes it, and the message that it holds.
pub record Arrival : Type 0 where
  pub readings : Readings
  pub datagram : Bytes
  pub message : Message

-- The frames that the sink is called with.
unfoldable pub frames_called :
    {D F : Type 0} → List (ℕ × Emitted D F) → List (PointCloudFrame (LidarPoint F))
frames_called [] = []
frames_called ((t, on_frame frame) ∷ rest) = frame ∷ frames_called rest
frames_called ((t, on_odometry odom) ∷ rest) = frames_called rest
frames_called ((t, on_parse_warning reason) ∷ rest) = frames_called rest

abbrev pub received : List Arrival → List (Readings × Option Bytes)
received [] = []
received (x ∷ xs) = (x.readings, some x.datagram) ∷ received xs

-- The pass lies between `since` and the time at which a frame begun then is due.
abbrev pub IsTimely : ℕ → ℕ → Arrival → Type 0
IsTimely since timeout x =
    (since ≤ x.readings.at_packet)
    × (since ≤ x.readings.at_expiry)
    × (x.readings.at_expiry < since + timeout)

frames_called-emit :
    {D F : Type 0} ⦃e : PointEq (LidarPoint F)⦄ (sink : LidarSink) (now : ℕ)
    (frame : Option (PointCloudFrame (LidarPoint F))) (more : List (ℕ × Emitted D F))
    → sink.has_on_frame ≡ true
    → frames_called (map (λ x. (now, x)) (emit_frame sink frame) ++ more)
      ≡ append_frame frame (frames_called more)
unfolding frames_called
frames_called-emit sink now none more h = refl
frames_called-emit sink now (some frame) more h = rw h refl

-- What a pass over each of the arrivals needs.
abbrev pub IsArriving :
    {D : Type 0} (F : Type 0) ⦃o : DoubleOps D⦄ ⦃c : Narrowing D F⦄
    → LidarParseConfig D
    → ℕ
    → ℕ
    → Arrival
    → Type 0
IsArriving F config since timeout x =
    Parses F config x.message x.datagram × IsTimely since timeout x

module _ {D F : Type 0} ⦃o : DoubleOps D⦄ ⦃c : Narrowing D F⦄ ⦃e : PointEq (LidarPoint F)⦄ where
  -- The packet of an arrival, with the reading at which it is added.
  abbrev pub packet_at : LidarParseConfig D → Arrival → ℕ × PointCloudPacket (LidarPoint F)
  packet_at config x = (x.readings.at_packet, decoded config.point_position_scale x.message)

  abbrev pub packets_at :
      LidarParseConfig D → List Arrival → List (ℕ × PointCloudPacket (LidarPoint F))
  packets_at config [] = []
  packets_at config (x ∷ xs) = packet_at config x ∷ packets_at config xs

  taken :
      (sink : LidarSink) (t : Readings) (parsed : PointCloudResult F) (s : LoopState F)
      → parsed.ok ≡ true
      → take_packet {D = D} sink t parsed s ≡ add_parsed sink t parsed s
  unfolding take_packet
  taken sink t parsed s h = rw h refl

  -- What the sink of a whole pass over an arrival's datagram sees.
  pass-arrival :
      (sink : LidarSink) (config : LidarParseConfig D) (since : ℕ) (x : Arrival) (s : LoopState F)
      → Parses F config x.message x.datagram
      → IsRecent since s.assembler
      → IsTimely since s.assembler.config.frame_timeout x
      → let r = add_packet (packet_at config x).0 (packet_at config x).1 s.assembler in
        pass {D = D} point_cloud sink config x.readings (some x.datagram) s
        ≡ some (record s { assembler = r.0 }, emit_frame sink r.1)
  unfolding pass pass_point_cloud take_packet add_parsed
  pass-arrival sink config since x s (parsed, read, same, _) recent (early, late, due) =
      let t = x.readings in
      let a = (add_packet t.at_packet (packet_at config x).1 s.assembler).0 in
      let idle : expire t.at_expiry a ≡ a =
        expire-idle since t.at_expiry a
          (add_packet-IsRecent since t.at_packet _ s.assembler early recent) late
          (subst (λ (k : AssemblerConfig). t.at_expiry < since + k.frame_timeout)
            (sym (add_packet-config t.at_packet _ s.assembler)) due) in
      let ok : parsed.ok ≡ true = ap (λ (p : PointCloudPacket (LidarPoint F)). p.ok) same in
      bind_some (parse_point_cloud_packet (some x.datagram) config) _ parsed _ read (
        ap some (
          ap (expire_pass t.at_expiry) (taken sink t parsed s ok)
          ∙ ap
              (λ (p : PointCloudPacket (LidarPoint F)). expire_pass t.at_expiry (
                record s { assembler = (add_packet t.at_packet p s.assembler).0 },
                emit_frame sink (add_packet t.at_packet p s.assembler).1,
              ))
              same
          ∙ ap
              (λ (b : Assembler (LidarPoint F)). (
                record s { assembler = b },
                emit_frame sink (add_packet t.at_packet (packet_at config x).1 s.assembler).1,
              ))
              idle))

  -- The frames that the loop calls the sink with are those that the assembler makes of the packets.
  run-frames :
      (sink : LidarSink) (config : LidarParseConfig D) (since : ℕ) (xs : List Arrival)
      (s : LoopState F)
      → sink.has_on_frame ≡ true
      → IsRecent since s.assembler
      → All (IsArriving F config since s.assembler.config.frame_timeout) xs
      → (r : LoopState F × List (ℕ × Emitted D F)) × (run point_cloud sink config (received xs) s
          ≡ some r)
        × (frames_called r.1 ≡ frames_of s.assembler (packets_at config xs))
  unfolding run frames_of frames_called
  run-frames sink config since [] s h recent hs = ((s, []), refl, refl)
  run-frames sink config since (x ∷ xs) s h recent ((parses, timely), hs) =
      let added = add_packet (packet_at config x).0 (packet_at config x).1 s.assembler in
      let s' : LoopState F = record s { assembler = added.0 } in
      let (r, e', frames) =
        run-frames sink config since xs s' h
          (add_packet-IsRecent since x.readings.at_packet _ s.assembler timely.0 recent)
          (subst (λ (k : AssemblerConfig). All (IsArriving F config since k.frame_timeout) xs)
            (sym (add_packet-config x.readings.at_packet _ s.assembler)) hs) in
      (
        (r.0, map (λ y. (x.readings.at_warning, y)) (emit_frame sink added.1) ++ r.1),
        bind_some _ _ _ _ (pass-arrival sink config since x s parses recent timely)
            (bind_some _ _ _ _ e' refl),
        frames_called-emit sink x.readings.at_warning added.1 r.1 h
            ∙ ap (append_frame added.1) frames,
      )

  -- From datagrams to the frame. A receiver's point cloud loop, with a sink for frames, whose assembler
  -- is orderly, holds nothing of the timestamp and has no slot activated before `since`, receives
  -- datagrams, each of which is parsed to its message, in passes at `since` or later that end before a
  -- frame begun at `since` is due. If the messages' packets are those of one frame (not empty, within
  -- the limits, apart from each other, together as long as the declared total, and no more than the
  -- packet limit), then, in whatever order the datagrams arrive, the loop calls the sink with exactly
  -- one frame; it has the timestamp and the declared number of points, and the points of every packet
  -- stand at the packet's offset.
  pub stream-delivers :
      (sink : LidarSink) (config : LidarParseConfig D) (since : ℕ) (s : LoopState F)
      (timestamp total : ℕ) (x : Arrival) (xs : List Arrival)
      → sink.has_on_frame ≡ true
      → IsOrderly s.assembler
      → find_slot timestamp s.assembler.slots ≡ none
      → IsRecent since s.assembler
      → All (IsArriving F config since s.assembler.config.frame_timeout) (x ∷ xs)
      → IsPart s.assembler.config timestamp total (packet_at config x).1
      → All (λ q. IsPart s.assembler.config timestamp total q.1) (packets_at config xs)
      → AllApart (packets_at config (x ∷ xs))
      → sum_points (packets_at config (x ∷ xs)) ≡ total
      → suc (length (packets_at config xs)) ≤ s.assembler.config.max_packets_per_frame
      → (r : LoopState F × List (ℕ × Emitted D F)) × (frame : PointCloudFrame (LidarPoint F)) × (run
            point_cloud sink config
            (received (x ∷ xs))
            s
          ≡ some r)
        × (frames_called r.1 ≡ frame ∷ [])
        × (frame.timestamp_ns ≡ timestamp)
        × (frame.total_points ≡ total)
        × (length frame.points ≡ total)
        × All (λ q. Placed q.1.index q.1.points frame.points) (packets_at config (x ∷ xs))
  stream-delivers sink config since s timestamp total x xs h o f recent hs p ps apart sum room =
      let (r, ran, frames) = run-frames sink config since (x ∷ xs) s h recent hs in
      let (frame, one, stamp, declared, size, placed) =
        delivers-frame s.assembler timestamp total (packet_at config x).0 (packet_at config x).1
          (packets_at config xs) o f p ps apart sum room in
      (r, frame, ran, frames ∙ one, stamp, declared, size, placed)
