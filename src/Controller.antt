-- ===== src/Controller.antt =====
-- src/robot_controller.cpp and include/hypertron_ros2_bridge/robot_controller.hpp: the safety gate.
-- Every method of `RobotController` holds the controller's mutex throughout, so it is one step on the
-- state; it reads the clock at most once, and that reading is the argument `now`, in ticks.
pub mod Data
pub mod Modes
pub mod Gate
pub mod Step
pub mod Invariant
pub mod Freshness
pub mod Decisions
pub mod Latch
pub mod Transition
