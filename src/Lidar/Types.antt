-- ===== src/Lidar/Types.antt =====
-- The payload types of lidar_stream.hpp, and the configuration and counters of the frame assembler.
use hypertron_sw01_ros2_brid.Prelude.{
  ℕ, ◌+◌, ◌%◌, ◌^◌, Bool, true, false, ◌&&◌, List, [], ◌∷◌, ◌==◌,
}
use hypertron_sw01_ros2_brid.Prelude.Float.{FloatOps}

-- `rgba_channels` is an array of four; the first is also `rgba`.
pub record LidarPoint (F : Type 0) : Type 0 where
  pub x : F
  pub y : F
  pub z : F
  pub rgba : ℕ
  pub rgba_channels : ℕ × ℕ × ℕ × ℕ

-- `operator==` of the points that a frame is made of.
pub record PointEq (P : Type 0) : Type 0 where
  pub same : P → P → Bool

abbrev same_channels : ℕ × ℕ × ℕ × ℕ → ℕ × ℕ × ℕ × ℕ → Bool
same_channels a b = a.0 == b.0 && (a.1 == b.1 && (a.2 == b.2 && a.3 == b.3))

abbrev pub same_point : {F : Type 0} ⦃o : FloatOps F⦄ → LidarPoint F → LidarPoint F → Bool
same_point ⦃o⦄ a b =
    o.eq a.x b.x
    && (o.eq a.y b.y
        && (o.eq a.z b.z && (a.rgba == b.rgba && same_channels a.rgba_channels b.rgba_channels)))

instance abbrev pub lidar_point_eq : {F : Type 0} ⦃o : FloatOps F⦄ → PointEq (LidarPoint F)
lidar_point_eq = record { same = same_point }

-- `operator==` of vectors of points.
abbrev pub same_points : {P : Type 0} ⦃e : PointEq P⦄ → List P → List P → Bool
same_points [] [] = true
same_points [] (y ∷ ys) = false
same_points (x ∷ xs) [] = false
same_points ⦃e⦄ (x ∷ xs) (y ∷ ys) = e.same x y && same_points xs ys

-- `PointCloudPacketResult`, less its message: the assembler does not read it.
pub record PointCloudPacket (P : Type 0) : Type 0 where
  pub ok : Bool
  pub timestamp_ns : ℕ
  pub total : ℕ
  pub index : ℕ
  pub points : List P

pub record PointCloudFrame (P : Type 0) : Type 0 where
  pub timestamp_ns : ℕ
  pub total_points : ℕ
  pub points : List P

pub record AssemblerConfig : Type 0 where
  pub max_parallel_frames : ℕ
  pub frame_timeout : ℕ
  pub max_points_per_frame : ℕ
  pub max_packets_per_frame : ℕ

abbrev pub default_config : AssemblerConfig
default_config = record {
  max_parallel_frames = 4;
  frame_timeout = 300;
  max_points_per_frame = 2_000_000;
  max_packets_per_frame = 40_000;
}

pub record Stats : Type 0 where
  pub packets_accepted : ℕ
  pub packets_duplicated : ℕ
  pub packets_rejected : ℕ
  pub frames_published : ℕ
  pub frames_dropped_timeout : ℕ
  pub frames_dropped_conflict : ℕ
  pub frames_dropped_capacity : ℕ

abbrev pub no_stats : Stats
no_stats = record {
  packets_accepted = 0;
  packets_duplicated = 0;
  packets_rejected = 0;
  frames_published = 0;
  frames_dropped_timeout = 0;
  frames_dropped_conflict = 0;
  frames_dropped_capacity = 0;
}

-- `++n` on a `uint64_t`.
abbrev pub bump : ℕ → ℕ
bump n = (n + 1) % 2 ^ 64
