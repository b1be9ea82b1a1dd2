-- ===== src/Tests/LidarRuns.antt =====
-- The frame assembler at concrete inputs: a frame of three points in two packets.
use hypertron_sw01_ros2_brid.Prelude.{
  ℕ, ◌+◌, ◌≤◌, ◌≡◌, ◌≢◌, refl, true, List, [], ◌∷◌, some, ◌⊎◌, inl, max, length, arith, All,
}
use hypertron_sw01_ros2_brid.Prelude.Int.{pos}
use hypertron_sw01_ros2_brid.Prelude.Float.{Sample, milli, sample_ops}
use hypertron_sw01_ros2_brid.Lidar.Types.{
  LidarPoint, lidar_point_eq, PointCloudPacket, PointCloudFrame, default_config,
}
use hypertron_sw01_ros2_brid.Lidar.Slot.{
  place, find_packet, lower_bound, before_bound, FrameSlot, complete, stored, store, feed, emplace,
}
use hypertron_sw01_ros2_brid.Lidar.Slot.Sound.{IsSound, grown, frame_of, store-cases}
use hypertron_sw01_ros2_brid.Lidar.Slot.Publish.{Placed, feed-publishes}
use hypertron_sw01_ros2_brid.Lidar.Assembler.{
  expire_from, add_within, slot_for_timestamp, open_slot, choose, add_at, conclude, expire_at,
  finalize_slot, construct, opened, find_slot, add_packet, expire, in_flight_count,
}
use hypertron_sw01_ros2_brid.Lidar.Assembler.Invariant.{IsOrderly}
use hypertron_sw01_ros2_brid.Lidar.Assembler.History.{
  Event, receives, expires, run, run-construct-IsOrderly,
}
use hypertron_sw01_ros2_brid.Lidar.Assembler.Delivery.{IsPart, frames_of}
use hypertron_sw01_ros2_brid.Lidar.Assembler.AnyOrder.{delivers-frame}
use hypertron_sw01_ros2_brid.Lidar.Assembler.Output.{add_packet-publishes}

abbrev Point : Type 0
Point = LidarPoint Sample

abbrev point : ℕ → Point
point n = record {
  x = milli (pos n);
  y = milli (pos 0);
  z = milli (pos 0);
  rgba = n;
  rgba_channels = (n, 0, 0, 0);
}

abbrev head_packet : PointCloudPacket Point
head_packet = record {
  ok = true;
  timestamp_ns = 7;
  total = 3;
  index = 0;
  points = point 1 ∷ point 2 ∷ [];
}

abbrev tail_packet : PointCloudPacket Point
tail_packet = record { ok = true; timestamp_ns = 7; total = 3; index = 2; points = point 3 ∷ [] }

abbrev whole : PointCloudFrame Point
whole = record { timestamp_ns = 7; total_points = 3; points = point 1 ∷ point 2 ∷ point 3 ∷ [] }

abbrev events : List (Event Point)
events = receives 5 tail_packet ∷ expires 400 ∷ receives 401 tail_packet ∷ []

run-construct-IsOrderly_example :
    IsOrderly (run (construct default_config) events)
    × (in_flight_count (run (construct default_config) events) ≤ max 1 4)
run-construct-IsOrderly_example = run-construct-IsOrderly default_config events

made-IsOrderly : IsOrderly (construct {P = Point} default_config)
unfolding run
made-IsOrderly = (run-construct-IsOrderly default_config []).0

pending-IsOrderly : IsOrderly (run (construct default_config) events)
pending-IsOrderly = (run-construct-IsOrderly default_config events).0

pending-publishes :
    (add_packet 402 head_packet (run (construct default_config) events)).1 ≡ some whole
unfolding run construct add_packet expire expire_from add_within slot_for_timestamp find_slot
    open_slot choose add_at conclude feed place find_packet lower_bound before_bound store expire_at
    finalize_slot
pending-publishes = refl

add_packet-publishes_example :
    (whole.timestamp_ns ≡ head_packet.timestamp_ns)
    × (whole.total_points ≡ head_packet.total)
    × (length whole.points ≡ head_packet.total)
    × (3 ≤ (run (construct {P = Point} default_config) events).config.max_points_per_frame)
    × Placed 0 head_packet.points whole.points
    × (head_packet.ok ≡ true)
add_packet-publishes_example =
    add_packet-publishes 402 head_packet (run (construct default_config) events) whole
      pending-IsOrderly pending-publishes

head-IsPart : IsPart default_config 7 3 head_packet
head-IsPart = record {
  parsed = refl;
  stamped = refl;
  totalled = refl;
  within = record { starts = omega arith; ends = omega arith; capped = omega arith };
  filled = omega arith;
}

tail-IsPart : IsPart default_config 7 3 tail_packet
tail-IsPart = record {
  parsed = refl;
  stamped = refl;
  totalled = refl;
  within = record { starts = omega arith; ends = omega arith; capped = omega arith };
  filled = omega arith;
}

delivers-frame_example :
    (frame : PointCloudFrame Point) × (frames_of
        (construct default_config)
        ((5, tail_packet) ∷ (6, head_packet) ∷ [])
      ≡ frame ∷ [])
    × (frame.timestamp_ns ≡ 7)
    × (frame.total_points ≡ 3)
    × (length frame.points ≡ 3)
    × All {A = ℕ × PointCloudPacket Point}
        (λ q. Placed q.1.index q.1.points frame.points)
        ((5, tail_packet) ∷ (6, head_packet) ∷ [])
unfolding construct find_slot
delivers-frame_example =
    delivers-frame (construct default_config) 7 3 5 tail_packet ((6, head_packet) ∷ [])
      made-IsOrderly refl tail-IsPart (head-IsPart, tt)
      (((omega arith, omega arith, inl (omega arith)), tt), (tt, tt)) refl (omega arith)

abbrev half : FrameSlot Point
half = record (opened 5 7) {
  total = 3;
  packets = (2, point 3 ∷ []) ∷ [];
  unique_indices = 1;
  sum_points = 1;
}

half-IsSound : IsSound default_config half
half-IsSound = record {
  ranges = (omega arith, omega arith);
  counted = refl;
  summed = refl;
  few = omega arith;
  small = omega arith;
}

grown-IsSound_test : IsSound default_config (grown head_packet half)
unfolding emplace
grown-IsSound_test = record {
  ranges = (omega arith, (omega arith, omega arith));
  counted = refl;
  summed = refl;
  few = omega arith;
  small = omega arith;
}

store-cases_example :
    ((1 + 2 ≡ 3)
      × (store head_packet half
          ≡ (grown head_packet half, complete (frame_of (grown head_packet half)))))
    ⊎ ((1 + 2 ≢ 3) × (store head_packet half ≡ (grown head_packet half, stored)))
store-cases_example = store-cases default_config head_packet half grown-IsSound_test

feed_test : (feed default_config head_packet half).1 ≡ complete whole
unfolding feed place find_packet lower_bound before_bound store
feed_test = refl

feed-publishes_example :
    (whole.timestamp_ns ≡ head_packet.timestamp_ns)
    × (whole.total_points ≡ head_packet.total)
    × (length whole.points ≡ head_packet.total)
    × Placed 0 head_packet.points whole.points
    × All (λ e. Placed e.0 e.1 whole.points) half.packets
feed-publishes_example =
    feed-publishes default_config head_packet half whole half-IsSound head-IsPart.within feed_test
