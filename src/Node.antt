-- ===== src/Node.antt =====
-- src/driver_node.cpp: parts of the ROS node.
pub mod Clock
pub mod Commands
