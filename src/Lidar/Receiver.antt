-- ===== src/Lidar/Receiver.antt =====
-- `LidarStreamReceiver` of src/lidar_stream.cpp: one pass of its two loops, the throttle of warnings, and
-- its start and stop. A callback that throws is caught, so a call of a callback is all that is seen of
-- it. `Readings` are the steady clock's values in milliseconds at the places of a pass that read it.
pub mod Throttle
pub mod Stopped
pub mod Recent
pub mod Stream
use hypertron_sw01_ros2_brid.Prelude.{
  ℕ, ◌+◌, ◌-◌, Bool, true, false, ◌&&◌, ◌||◌, not, List, [], ◌∷◌, Option, none, some, ltb,
  if◌then◌else◌, ◌>>=◌, match_option,
}
use hypertron_sw01_ros2_brid.Prelude.Float.{FloatOps}
use hypertron_sw01_ros2_brid.Prelude.Double.{DoubleOps, Narrowing}
use hypertron_sw01_ros2_brid.Prelude.Text.{Bytes}
use hypertron_sw01_ros2_brid.Lidar.Types.{LidarPoint, PointEq, PointCloudFrame}
use hypertron_sw01_ros2_brid.Lidar.Assembler.{Assembler, add_packet, expire}
use hypertron_sw01_ros2_brid.Lidar.Parse.{
  LidarParseConfig, PointCloudResult, packet_of, parse_point_cloud_packet,
}
use hypertron_sw01_ros2_brid.Lidar.Odometry.{LidarOdometry, OdometryResult, parse_odometry_packet}

pub record Readings : Type 0 where
  pub at_packet : ℕ
  pub at_warning : ℕ
  pub at_expiry : ℕ

-- Which callbacks are set.
pub record LidarSink : Type 0 where
  pub has_on_frame : Bool
  pub has_on_odometry : Bool
  pub has_on_parse_warning : Bool

pub data Emitted (D F : Type 0) : Type 0 where
  on_frame : PointCloudFrame (LidarPoint F) → Emitted D F
  on_odometry : LidarOdometry D → Emitted D F
  on_parse_warning : Bytes → Emitted D F

-- What a loop keeps from pass to pass.
pub record LoopState (F : Type 0) : Type 0 where
  pub assembler : Assembler (LidarPoint F)
  pub last_warning : ℕ

unfoldable pub should_emit_warning : ℕ → ℕ → Bool × ℕ
should_emit_warning now last_warning =
    if ltb (now - last_warning) 1000 then (false, last_warning) else (true, now)

unfoldable pub warn :
    {D F : Type 0} → LidarSink → ℕ → Bytes → LoopState F → LoopState F × List (Emitted D F)
warn sink now reason s =
    if not sink.has_on_parse_warning
    then (s, [])
    else let (emit, last) = should_emit_warning now s.last_warning in
      (record s { last_warning = last }, if emit then on_parse_warning reason ∷ [] else [])

-- The frame of a packet, if it is complete, goes to the sink.
abbrev pub emit_frame :
    {D F : Type 0} → LidarSink → Option (PointCloudFrame (LidarPoint F)) → List (Emitted D F)
emit_frame sink none = []
emit_frame sink (some frame) = if sink.has_on_frame then on_frame frame ∷ [] else []

unfoldable pub add_parsed :
    {D F : Type 0} ⦃e : PointEq (LidarPoint F)⦄
    → LidarSink
    → Readings
    → PointCloudResult F
    → LoopState F
    → LoopState F × List (Emitted D F)
add_parsed sink t parsed s =
    let (a, frame) = add_packet t.at_packet (packet_of parsed) s.assembler in
    (record s { assembler = a }, emit_frame sink frame)

-- What `loop_point_cloud` does with a parsed datagram.
unfoldable pub take_packet :
    {D F : Type 0} ⦃e : PointEq (LidarPoint F)⦄
    → LidarSink
    → Readings
    → PointCloudResult F
    → LoopState F
    → LoopState F × List (Emitted D F)
take_packet sink t parsed s =
    if parsed.ok then add_parsed sink t parsed s else warn sink t.at_warning parsed.reason s

abbrev pub expire_pass :
    {D F : Type 0} → ℕ → LoopState F × List (Emitted D F) → LoopState F × List (Emitted D F)
expire_pass now (s, out) = (record s { assembler = expire now s.assembler }, out)

abbrev pub take_odometry :
    {D F : Type 0}
    → LidarSink
    → Readings
    → OdometryResult D
    → LoopState F
    → LoopState F × List (Emitted D F)
take_odometry sink t parsed s =
    if not parsed.ok
    then warn sink t.at_warning parsed.reason s
    else (s, if sink.has_on_odometry then on_odometry parsed.odometry ∷ [] else [])

module _ {D F : Type 0} ⦃o : DoubleOps D⦄ ⦃c : Narrowing D F⦄ ⦃e : PointEq (LidarPoint F)⦄ where
  -- One pass of `loop_point_cloud`: a datagram if `receive` got one.
  unfoldable pub pass_point_cloud :
      LidarSink
      → LidarParseConfig D
      → Readings
      → Option Bytes
      → LoopState F
      → Option (LoopState F × List (Emitted D F))
  pass_point_cloud sink config t none s = some (expire_pass t.at_expiry (s, []))
  pass_point_cloud sink config t (some buffer) s =
      parse_point_cloud_packet (some buffer) config >>= λ parsed.
      some (expire_pass t.at_expiry (take_packet sink t parsed s))

module _ {D F : Type 0} ⦃o : DoubleOps D⦄ where
  -- One pass of `loop_odometry`.
  unfoldable pub pass_odometry :
      LidarSink
      → LidarParseConfig D
      → Readings
      → Option Bytes
      → LoopState F
      → Option (LoopState F × List (Emitted D F))
  pass_odometry sink config t none s = some (s, [])
  pass_odometry sink config t (some buffer) s =
      parse_odometry_packet (some buffer) config >>= λ parsed. some (take_odometry sink t parsed s)

pub data LidarStreamKind : Type 0 where
  point_cloud odometry : LidarStreamKind

-- The flags under the receiver's mutex, and whether there is a thread to join.
pub record Control : Type 0 where
  pub stop_requested : Bool
  pub running : Bool
  pub start_called : Bool
  pub joinable : Bool

abbrev pub constructed : Control
constructed = record {
  stop_requested = false;
  running = false;
  start_called = false;
  joinable = false;
}

-- Second, whether it creates the thread.
unfoldable pub start : Control → Control × Bool
start c =
    if c.stop_requested || c.start_called
    then (c, false)
    else (record c { start_called = true; running = true; joinable = true }, true)

-- Called on the receive thread itself or on another. Second, whether it joins the thread.
unfoldable pub stop : Bool → Control → Control × Bool
stop on_receive_thread c =
    let c' : Control = record c { stop_requested = true; running = false } in
    if on_receive_thread
    then (c', false)
    else if c'.joinable
    then (record c' { joinable = false }, true)
    else (c', false)

unfoldable pub is_running : Control → Bool
is_running c = c.running && not c.stop_requested

-- Where a loop waits before each pass: it goes on with a pass, ends, or waits on.
pub data Wait : Type 0 where
  passes ends waits : Wait

unfoldable pub wait : Control → Wait
wait c = if c.stop_requested then ends else if c.running then passes else waits
