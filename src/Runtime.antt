-- ===== src/Runtime.antt =====
-- src/direct_driver_runtime.cpp and include/hypertron_ros2_bridge/direct_driver_runtime.hpp: the
-- worker that owns the SDK, with the calls of its clients and of the vendor's threads.
pub mod Types
pub mod Requests
pub mod Worker
pub mod Loop
pub mod Connect
pub mod Promises
pub mod History
pub mod Answered
pub mod Motion
pub mod Still
pub mod Follows
pub mod Sent
pub mod Rejections
