-- ===== src/Lidar.antt =====
-- src/lidar_stream.cpp and include/hypertron_ros2_bridge/lidar_stream.hpp: the LiDAR stream.
pub mod Types
pub mod Slot
pub mod Assembler
pub mod Wire
pub mod Parse
pub mod Odometry
pub mod Receiver
pub mod Source
