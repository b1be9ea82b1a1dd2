-- ===== src/Lib.antt =====
-- Verification of the bridge between the SW01 robot and ROS 2: the safety gate, the queue, the LiDAR
-- stream from datagrams to frames and its clock, the direct driver runtime, the network preflight, and
-- the lifecycle of the adapter of the vendor's SDK.
--
-- How the program's parts work together. A ROS node (src/driver_node.cpp) hands velocities, modes and
-- emergency stops to a `DirectDriverRuntime` (src/direct_driver_runtime.cpp). The runtime asks the
-- safety gate, a `RobotController` (src/robot_controller.cpp), and queues commands in a
-- `ThreadSafeQueue` (include/hypertron_ros2_bridge/thread_safe_queue.hpp); its worker thread alone
-- calls the SDK, through the adapter `DirectAstrallSdk` (src/direct_astrall_sdk.cpp), and before it
-- connects it asks the preflight (src/network_preflight.cpp). Beside it a receiver parses UDP datagrams
-- and feeds the packets of point clouds to a `PointCloudFrameAssembler` (src/lidar_stream.cpp).
--
-- Prelude: names of the libraries; Prelude.Tests: Boolean tests on ℕ; Prelude.Lists: lists over the
--   native ℕ; Prelude.Options: chains of steps that may have no result; Prelude.Int: signed numbers;
--   Prelude.Float, Prelude.Double: floating point numbers as a parameter, with named laws, and small
--   systems to run with; Prelude.Text: byte strings.
-- Queue: `ThreadSafeQueue`, one function per method; a wait takes what the other
--   threads do until its timeout, and after which of their operations the waiter gets the mutex.
--   Queue.Order, Queue.Bounds, Queue.Wait: its theorems.
-- Controller: `RobotController`. Controller.Data: the types and the state; Controller.Modes: the mode
--   table and the normalization of names; Controller.Gate: one function per method;
--   Controller.Step: a call as data, and histories. Each method holds the mutex throughout (in
--   `request_mode` from the first read of the state on), so every interleaving of threads is a list
--   of calls. Controller.Invariant, Controller.Freshness, Controller.Decisions, Controller.Latch,
--   Controller.Transition: theorems.
-- Lidar: Lidar.Types: the payload types; Lidar.Slot: the part of `add_packet` that works on one slot,
--   split at its early returns into `feed`, `place` and `store`; Lidar.Assembler: the slots, the rest
--   of `add_packet`, `expire`. The `std::map` of a slot is a list in the order of the keys. The
--   modules below these two hold the theorems.
--   Lidar.Wire: the little-endian reads; Lidar.Parse: `ParsePointCloudPacket`; Lidar.Odometry:
--   `ParseOdometryPacket`. A pointer into a datagram is the list of the bytes from there on, and a read
--   past its end is `none`. Lidar.Parse.Message and Lidar.Odometry.Message define, apart from the
--   parsers, what a sender writes. Lidar.Source: `UdpLidarDatagramSource`, with the
--   answers of the system's calls as arguments. Lidar.Receiver: one pass of the receiver's loops, the
--   throttle of warnings, start and stop; the modules below it: theorems, in Lidar.Receiver.Stream the
--   one from datagrams to frames.
-- Runtime: `DirectDriverRuntime`. Runtime.Types: its state, with promises as numbers and the SDK
--   calls made as a list; the SDK is the parameter `Vendor`, whose answer to a call may depend on all
--   calls so far. Runtime.Requests: what clients and the status callback do; Runtime.Worker: what the
--   worker does; Runtime.Loop: one iteration of `run_connected_loop`, split at its blocks, and the end
--   of a session; Runtime.Connect: one connection attempt of `worker_main`, with its theorem;
--   Runtime.History: the constructor, and histories of all these, in which a session may begin at any
--   time. Runtime.Promises and the modules below it, Runtime.Answered, Runtime.Motion,
--   Runtime.Rejections, Runtime.Still, Runtime.Follows and Runtime.Sent: theorems.
-- Preflight: the evaluation of network facts, the parsers of the output of `ip`, and `check`, with the
--   command runner, `std::stoi`, `std::to_string` and `inet_pton` as parameters; Preflight.Texts: the
--   splitting into lines and words. Preflight.Ready, Preflight.Tokens, Preflight.Check: theorems.
-- Sdk: the lifecycle of `DirectAstrallSdk`, one function for each critical section under its gate mutex,
--   so that an interleaving of threads is a list of sections. Sdk.Lifecycle: the invariant, and the
--   refinement of an abstract lifecycle; Sdk.Stale: an interleaving that breaks it.
-- Node.Clock: `LidarDeviceClockMapper` of the ROS node; Node.Clock.Near: its theorem. Node.Commands:
--   `on_cmd_vel` and `on_robot_mode` up to the call of the runtime, whose argument is their result, and
--   `frequency_from_hz`, where what is thrown is `none`.
-- Tests: runs at concrete inputs.
--
-- Conventions. A clock reading is an argument, in milliseconds or in the ticks of the configured
-- periods; readings need not grow, and a difference of readings stops at 0, so an age computed from a
-- reading older than the start is 0, where the source has a negative duration: both are below every
-- positive limit. Counters of statistics wrap at 2^64. Sizes and offsets are far below 2^64, and
-- their sums are not wrapped; the times of the clock mapper wrap at 64 bits. An exception of a
-- constructor is `none`. Loops are structural recursions on the list or the count that they run over;
-- only the loops that empty the command queue (`drain`) have fuel, the queue's size, with which they
-- empty it.
-- A step of the runtime is atomic: what other threads do while the worker is inside an SDK call is
-- taken to happen before or after the worker's step, except in `request_mode`, whose gap between its
-- two critical sections is a parameter. An iteration takes any values of the loop's local variables
-- and any clock readings (one for the iteration, one for a command's deadline, one for the motion
-- tick's velocity), so its theorems do not depend on how long the wait before it lasted.
--
-- Not modelled: what the system does with the sockets of the UDP source; the threads of the receiver;
-- the execution of the preflight's commands (fork, pipes, poll); in the adapter the snapshot, the
-- conversion of samples and result codes, and the messages of refused calls; the ROS node but for what
-- is named above; and in the runtime the loop of `worker_main` around its attempts, `start` and the
-- destructor, the dispatch to the observer beyond the events, telemetry samples, and exceptions thrown
-- by an SDK.
pub mod Prelude
pub mod Queue
pub mod Controller
pub mod Lidar
pub mod Runtime
pub mod Preflight
pub mod Sdk
pub mod Node
pub mod Tests
