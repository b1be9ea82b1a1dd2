-- ===== src/Node/Clock.antt =====
-- `LidarDeviceClockMapper` of src/driver_node.cpp: the LiDAR's clock in terms of the ROS clock. Times are
-- whole nanoseconds in 64 bits. Where a sum or a difference overflows, which the language leaves
-- undefined, it wraps here.
pub mod Near
use hypertron_sw01_ros2_brid.Prelude.{
  ℕ, ◌+◌, ◌-◌, ◌/◌, ◌%◌, ◌^◌, Bool, true, false, ◌&&◌, ◌||◌, not, ltb, if◌then◌else◌,
}
use hypertron_sw01_ros2_brid.Prelude.Int.{
  ℤ, pos, pos_part, neg_part, ltb_ℤ, difference, signed, ◌+ℤ◌, ◌-ℤ◌,
}

pub record Mapper : Type 0 where
  pub initialized : Bool
  pub offset_ns : ℤ
  pub last_device_ns : ℤ

abbrev pub constructed : Mapper
constructed = record { initialized = false; offset_ns = pos 0; last_device_ns = pos 0 }

-- The number that a 64-bit word holds instead of `a`.
unfoldable pub wrap : ℤ → ℤ
wrap a = signed 64 (
    (pos_part a % 0x1_0000_0000_0000_0000
      + (0x1_0000_0000_0000_0000 - neg_part a % 0x1_0000_0000_0000_0000))
    % 0x1_0000_0000_0000_0000)

-- `std::llabs`.
abbrev pub size : ℤ → ℕ
size a = pos_part a + neg_part a

-- Division by 64, which cuts off toward zero.
abbrev pub by_64 : ℤ → ℤ
by_64 a = difference (pos_part a / 64) (neg_part a / 64)

unfoldable pub is_discontinuous : ℤ → ℤ → Mapper → Bool
is_discontinuous device observed_offset m =
    not m.initialized
    || (ltb_ℤ (wrap (device +ℤ pos 1_000_000_000)) m.last_device_ns
        || ltb 2_000_000_000 (size (wrap (observed_offset -ℤ m.offset_ns))))

unfoldable pub next_offset : ℤ → ℤ → Mapper → ℤ
next_offset device observed_offset m =
    if is_discontinuous device observed_offset m
    then observed_offset
    else if ltb_ℤ observed_offset m.offset_ns
    then observed_offset
    else wrap (m.offset_ns +ℤ by_64 (wrap (observed_offset -ℤ m.offset_ns)))

-- `std::min` of the mapped and the receive time.
unfoldable pub mapped_time : ℤ → ℤ → ℤ → ℤ
mapped_time device_ns offset_ns receive_ns =
    let mapped = wrap (device_ns +ℤ offset_ns) in
    if ltb_ℤ receive_ns mapped then receive_ns else mapped

abbrev pub is_too_large : ℕ → Bool
is_too_large device_ns = ltb (2 ^ 63 - 1) device_ns

unfoldable pub observe_odometry : ℕ → ℤ → Mapper → Mapper × ℤ
observe_odometry device_ns receive_ns m =
    if is_too_large device_ns
    then (m, receive_ns)
    else let offset = next_offset (pos device_ns) (wrap (receive_ns -ℤ pos device_ns)) m in
      (
        record { initialized = true; offset_ns = offset; last_device_ns = pos device_ns },
        mapped_time (pos device_ns) offset receive_ns,
      )

unfoldable pub map_cloud : ℕ → ℤ → Mapper → ℤ
map_cloud device_ns receive_ns m =
    if not m.initialized || is_too_large device_ns
    then receive_ns
    else mapped_time (pos device_ns) m.offset_ns receive_ns
