-- ===== src/Tests/ParseRuns.antt =====
-- The parsers and the receiver at concrete inputs: a frame of two points in two datagrams, the second
-- in the aligned layout and first to arrive; a datagram of odometry.
use hypertron_sw01_ros2_brid.Prelude.{
  ℕ, ◌≤◌, ◌≡◌, ◌≢◌, refl, true, false, List, [], ◌∷◌, some, ◌⊎◌, inl, length, arith, All,
}
use hypertron_sw01_ros2_brid.Prelude.Int.{ℤ, pos}
use hypertron_sw01_ros2_brid.Prelude.Float.{Sample, sample_ops}
use hypertron_sw01_ros2_brid.Prelude.Double.{whole_ops, whole_narrowing}
use hypertron_sw01_ros2_brid.Prelude.Text.{codes}
use hypertron_sw01_ros2_brid.Lidar.Types.{
  LidarPoint, lidar_point_eq, PointCloudFrame, default_config,
}
use hypertron_sw01_ros2_brid.Lidar.Slot.Publish.{Placed}
use hypertron_sw01_ros2_brid.Lidar.Assembler.{construct, find_slot}
use hypertron_sw01_ros2_brid.Lidar.Assembler.History
use hypertron_sw01_ros2_brid.Lidar.Assembler.History.{run-construct-IsOrderly}
use hypertron_sw01_ros2_brid.Lidar.Assembler.Invariant.{IsOrderly}
use hypertron_sw01_ros2_brid.Lidar.Assembler.Delivery.{IsPart}
use hypertron_sw01_ros2_brid.Lidar.Parse.{
  LidarParseConfig, PointCloudResult, packed_cloud, aligned_cloud, no_result, validate_scales,
  is_finite_position, parse_point_cloud_packet, parse_point_cloud_with_layout, parse_bytes,
}
use hypertron_sw01_ros2_brid.Lidar.Parse.InBounds.{parse_point_cloud_packet-IsDefined}
use hypertron_sw01_ros2_brid.Lidar.Parse.Message.{
  WirePoint, Message, IsMessage, write_packed, write_aligned,
}
use hypertron_sw01_ros2_brid.Lidar.Parse.Accepts.{parse_with_layout-Holds, packed-Holds}
use hypertron_sw01_ros2_brid.Lidar.Parse.Refused.{HasReason}
use hypertron_sw01_ros2_brid.Lidar.Parse.Outcome.{IsRead, parse_point_cloud_packet-settles}
use hypertron_sw01_ros2_brid.Lidar.Parse.RoundTrip.{Parses, layouts_apart, Parses-written}
use hypertron_sw01_ros2_brid.Lidar.Odometry.{OdometryResult, parse_odometry_packet}
use hypertron_sw01_ros2_brid.Lidar.Odometry.InBounds.{parsers_stay_inside}
use hypertron_sw01_ros2_brid.Lidar.Odometry.Message.{
  WireOdometry, wxyz, write_packed_odom, write_aligned_odom, ParsesOdometry,
}
use hypertron_sw01_ros2_brid.Lidar.Odometry.RoundTrip.{ParsesOdometry-written}
use hypertron_sw01_ros2_brid.Lidar.Receiver.{
  Readings, LidarSink, Emitted, LoopState, point_cloud, is_running, wait, ends, pass_point_cloud,
  take_packet, warn, should_emit_warning,
}
use hypertron_sw01_ros2_brid.Lidar.Receiver.Throttle.{run, pass, warning_times, Spaced, run-Spaced}
use hypertron_sw01_ros2_brid.Lidar.Receiver.Stopped.{starts, stops, call, calls, born, stop-ends}
use hypertron_sw01_ros2_brid.Lidar.Receiver.Stream.{
  Arrival, frames_called, received, packet_at, packets_at, stream-delivers,
}

abbrev config : LidarParseConfig ℤ
config = record {
  point_position_scale = pos 1;
  odom_position_scale = pos 1;
  odom_quaternion_scale = pos 1;
  odom_quaternion_order = codes "wxyz";
}

abbrev wire_point : ℕ → WirePoint
wire_point n = record { x = n; y = 0; z = 0; rgba_channels = (n, 0, 0, 0) }

abbrev front : Message
front = record { timestamp_ns = 7; total = 2; index = 0; points = wire_point 1 ∷ [] }

abbrev back : Message
back = record { timestamp_ns = 7; total = 2; index = 1; points = wire_point 5 ∷ [] }

front-IsMessage : IsMessage front
front-IsMessage = record {
  stamped = omega arith;
  counted = omega arith;
  placed = omega arith;
  filled = omega arith;
  worded = omega arith;
}

back-IsMessage : IsMessage back
back-IsMessage = record {
  stamped = omega arith;
  counted = omega arith;
  placed = omega arith;
  filled = omega arith;
  worded = omega arith;
}

config-valid : validate_scales config ≡ true
unfolding validate_scales
config-valid = refl

front-finite : is_finite_position {D = ℤ} (pos 1) (pos 1) (pos 0) (pos 0) ≡ true
unfolding is_finite_position
front-finite = refl

Parses-written_example :
    Parses Sample config front (write_packed front [])
    × Parses Sample config front (write_aligned 3 4 front [])
unfolding is_finite_position
Parses-written_example =
    Parses-written config front [] 3 4 config-valid front-IsMessage (refl, tt) (inl refl)

back-Parses :
    Parses Sample config back (write_packed back [])
    × Parses Sample config back (write_aligned 0 0 back [])
unfolding is_finite_position
back-Parses = Parses-written config back [] 0 0 config-valid back-IsMessage (refl, tt) (inl refl)

parsers_stay_inside_example :
    ((r : PointCloudResult Sample) × (parse_point_cloud_packet (some (0x55 ∷ 0xaa ∷ 1 ∷ [])) config
        ≡ some r))
    × ((r : OdometryResult ℤ) × (parse_odometry_packet (some (0x55 ∷ 0xaa ∷ 1 ∷ [])) config
          ≡ some r))
parsers_stay_inside_example = parsers_stay_inside (some (0x55 ∷ 0xaa ∷ 1 ∷ [])) config

short-result :
    (r : PointCloudResult Sample) × (parse_point_cloud_packet (some (1 ∷ [])) config ≡ some r)
short-result = parse_point_cloud_packet-IsDefined (some (1 ∷ [])) config

parse_point_cloud_packet-settles_example :
    IsRead (some (1 ∷ [])) short-result.0 ⊎ HasReason short-result.0
parse_point_cloud_packet-settles_example =
    parse_point_cloud_packet-settles (some (1 ∷ [])) config short-result.0 short-result.1

layouts_apart_example :
    parse_point_cloud_with_layout
      (write_packed front [])
      aligned_cloud
      config
      (no_result {F = Sample})
    ≢ some (true, no_result)
unfolding is_finite_position
layouts_apart_example =
    layouts_apart (write_packed front []) config config no_result no_result _ no_result (
      parse_with_layout-Holds config packed_cloud (write_packed front []) front no_result
        front-IsMessage (refl, tt) (packed-Holds front [] front-IsMessage (inl refl)))

abbrev pose : WireOdometry
pose = record { timestamp_ns = 9; position = (1, 2, 3); qx = 0; qy = 3; qz = 0; qw = 4 }

-- The configured order has w in front.
ParsesOdometry-written_example :
    ParsesOdometry config pose (write_packed_odom wxyz pose)
    × ParsesOdometry config pose (write_aligned_odom wxyz 1 2 pose)
ParsesOdometry-written_example =
    ParsesOdometry-written config wxyz pose 1 2 config-valid refl (omega arith) (refl, refl)

abbrev sink : LidarSink
sink = record { has_on_frame = true; has_on_odometry = false; has_on_parse_warning = true }

abbrev at : ℕ → Readings
at t = record { at_packet = t; at_warning = t; at_expiry = t }

abbrev fresh : LoopState Sample
fresh = record { assembler = construct default_config; last_warning = 0 }

abbrev arrival_back : Arrival
arrival_back = record { readings = at 5; datagram = write_aligned 0 0 back []; message = back }

abbrev arrival_front : Arrival
arrival_front = record { readings = at 6; datagram = write_packed front []; message = front }

back-IsPart : IsPart {P = LidarPoint Sample} default_config 7 2 (packet_at config arrival_back).1
back-IsPart = record {
  parsed = refl;
  stamped = refl;
  totalled = refl;
  within = record { starts = omega arith; ends = omega arith; capped = omega arith };
  filled = omega arith;
}

front-IsPart : IsPart {P = LidarPoint Sample} default_config 7 2 (packet_at config arrival_front).1
front-IsPart = record {
  parsed = refl;
  stamped = refl;
  totalled = refl;
  within = record { starts = omega arith; ends = omega arith; capped = omega arith };
  filled = omega arith;
}

fresh-IsOrderly : IsOrderly fresh.assembler
unfolding History.run
fresh-IsOrderly = (run-construct-IsOrderly default_config []).0

stream-delivers_example :
    (r : LoopState Sample × List (ℕ × Emitted ℤ Sample)) × (frame : PointCloudFrame
      (LidarPoint Sample))
    × (run point_cloud sink config (received (arrival_back ∷ arrival_front ∷ [])) fresh ≡ some r)
    × (frames_called r.1 ≡ frame ∷ [])
    × (frame.timestamp_ns ≡ 7)
    × (frame.total_points ≡ 2)
    × (length frame.points ≡ 2)
    × All
        (λ q. Placed q.1.index q.1.points frame.points)
        (packets_at config (arrival_back ∷ arrival_front ∷ []))
unfolding construct find_slot
stream-delivers_example =
    stream-delivers sink config 5 fresh 7 2 arrival_back (arrival_front ∷ []) refl fresh-IsOrderly
      refl ((λ h. cc), ((λ h. cc), ((λ h. cc), ((λ h. cc), tt))))
      ((back-Parses.1, omega arith), ((Parses-written_example.0, omega arith), tt)) back-IsPart
      (front-IsPart, tt) (((omega arith, omega arith, inl (omega arith)), tt), (tt, tt)) refl
      (omega arith)

stop-ends_example :
    let stopped = call (stops true) (calls (starts ∷ []) born) in
    let l = calls (starts ∷ stops false ∷ stops false ∷ []) stopped in
    (l.created ≤ 1)
    × (l.joined ≤ l.created)
    × (l.created ≡ (calls (starts ∷ []) born).created)
    × (is_running l.control ≡ false)
    × (wait l.control ≡ ends)
stop-ends_example = stop-ends (starts ∷ []) (starts ∷ stops false ∷ stops false ∷ []) true

junk_run :
    (r : LoopState Sample × List (ℕ × Emitted ℤ Sample)) × (run point_cloud sink config
        ((at 1000, some (1 ∷ [])) ∷ (at 1500, some []) ∷ (at 2000, some (9 ∷ [])) ∷ [])
        fresh
      ≡ some r)
unfolding run pass pass_point_cloud parse_point_cloud_packet validate_scales parse_bytes take_packet
    warn should_emit_warning
junk_run = (_, refl)

run-Spaced_example : Spaced 0 (warning_times junk_run.0.1)
run-Spaced_example =
    run-Spaced point_cloud sink config
      ((at 1000, some (1 ∷ [])) ∷ (at 1500, some []) ∷ (at 2000, some (9 ∷ [])) ∷ []) fresh
      junk_run.0 junk_run.1

junk_warns : warning_times junk_run.0.1 ≡ 1000 ∷ 2000 ∷ []
unfolding warning_times junk_run
junk_warns = refl
