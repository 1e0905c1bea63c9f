-- ===== src/Lib.antt =====
-- Verification of Robot Harness, the execution foundation between agents and robot skills.
--
-- The program. A host (the Runtime, an example or a ROS 2 integration) owns an authority gate
-- (include/robot_harness/authority_gate.hpp, src/core/authority_gate.cpp) and asks it three
-- questions: may this action run, may its result be used, is the previous work settled enough to
-- go on. Adapters report what they observe as evidence; the gate grants and revokes authority.
--
-- Files.
-- - Base.antt: shared names, Boolean tests and small lemmas.
-- - Gate/Types.antt, Gate/Receipt.antt, Gate/State.antt: the data of authority_gate.hpp, the
--   receipt of an operation and AuthorityGate::Implementation. A handler that reads or writes the
--   current receipt is a function of that receipt (`..._reply`); `reply` runs it at the gate.
-- - Gate/Disposition.antt: closure, authority disposition and `revoke`.
-- - Gate/Startup.antt, Gate/Capabilities.antt, Gate/Admission.antt, Gate/Control.antt,
--   Gate/Native.antt, Gate/Output.antt, Gate/Binding.antt, Gate/Rebind.antt, Gate/Readiness.antt:
--   the public operations, named as in the class; an operation returns the new gate and what the
--   member function returns.
-- - Gate/Calls.antt: the operations as data, and `run`, a history of calls.
-- - Gate/Validity.antt and below: what holds of a receipt between calls, and how a call moves it on.
-- - Gate/Invariant.antt and below: the same for the gate, for every operation and every history.
-- - Gate/Promises.antt and below: what a host may rely on.
-- - Gate/Lifecycle.antt and below: the abstract state machine of the work in the effect domain, and
--   the gate's refinement of it.
-- - Action.antt, Action/Rules.antt: functions that change an object and may throw, and their rules.
-- - Sample/Types.antt, Sample/Host.antt: the data of include/robot_harness/sample_execution.hpp and
--   of src/sample/sample_execution.cpp, the host's members, its clock and its calls of the gate
--   (`ask`, `tell`, through Gate/Answers.antt). Sample/Worker.antt is DeterministicSampleAdapter,
--   Sample/Control.antt, Sample/Events.antt and Sample/Rebind.antt are
--   SampleExecutionHost::Implementation, Sample/Commands.antt the public functions and the
--   destructor; a function is an action on the host, its name that of the code.
-- - Sample/Built.antt and below: the basic actions that each function is built from;
--   Sample/Moves.antt, Sample/Delivered.antt, Sample/Steady.antt: what follows of them. Sample/Lessens.antt and
--   Sample/Queue.antt: the work that the event loop has left. Sample/Promises.antt and below: what
--   a client may rely on.
-- - Compute/Types.antt, Compute/Host.antt: the data of include/robot_harness/compute_execution.hpp and
--   of src/compute/compute_process.hpp, and the members of ComputeExecutionHost::Implementation.
--   Compute/Control.antt, Compute/Reports.antt, Compute/Finish.antt and Compute/Rebind.antt are the
--   functions of Implementation in src/compute/compute_execution.cpp, Compute/Prepare.antt and
--   Compute/Polling.antt the public functions, Compute/Commands.antt a client's calls as data. The
--   class ComputeProcess is a record of functions on the state of a process.
-- - Compute/Worker.antt: run of src/compute/compute_worker.cpp, and the frames and constants of
--   src/compute/compute_protocol.hpp; what its reads and its sends answer is a parameter.
--   Compute/Arguments.antt and below: its parse_iterations and main, and what launch passes to it.
--   Compute/Sending.antt: its send_frame.
-- - Compute/Process.antt and below: ComputeProcess::Impl of src/compute/compute_process.cpp, with what
--   the system calls answer as a parameter (`System`), and what is shown of it.
-- - Compute/Proceeds.antt and below: how the gate and the result of a compute host after an action
--   relate to those before, for each function. Compute/Promises.antt and below: what a client may
--   rely on.
-- - Drive/Permission.antt and below: MotionPermission and write_current of
--   integrations/ros2/simulation/native_drive/motion_permission.hpp (`open_permission` is its open).
--   Its clock is the time that it returns, its writers are the call that is made.
-- - Navigation/Watch.antt, Navigation/Obstacle.antt, Navigation/Closure.antt and below:
--   RuntimeObservationWatch, ObstacleWatch and ClosureObservations of
--   integrations/ros2/nav2_observation (runtime_observation_watch.hpp, obstacle_watch.hpp,
--   closure_observations.hpp). The JSON library is a parameter, `JsonLibrary`; an observer returns
--   the new observations and whether it returned rather than threw.
-- - Navigation/Leaf.antt and below: LeafRecord of
--   integrations/ros2/simulation/native_worker/native_leaf_evidence.hpp.
-- - Integer.antt, Double.antt, HexText.antt, Decimal.antt: signed numbers, doubles, hexadecimal
--   identifiers and std::to_string.
-- - Tests: fixtures, runs and the theorems at concrete inputs.
--
-- Choices. Strings are the native texts; the gate only compares them and tests them for
-- emptiness. Where other code tests a length, it counts the bytes in UTF-8 (`byte_size`). Times,
-- sequence numbers and identities are natural numbers: the code compares them, and the two that
-- it increments are bounded by their 64 bits (`increment` wraps, the generation is tested first).
-- A host's clock is a function of the number of its readings, and so is what can_launch answers
-- of the number of its calls. An adapter's callback stages an event at the host, so the adapter
-- is a part of the host's state; an action keeps what was written before it threw. `while
-- (process_next())` runs on fuel, one round more than there are events and, for a prepared
-- operation, three more; out of fuel it is `unfinished`, an outcome of its own, so a theorem that
-- a function returns says that the rounds are enough. The loop of the compute worker runs on one
-- round more than there are iterations, and the loop of drain_events on one round for each byte
-- of the frames that a poll takes; both are shown to be enough. That of send_frame takes its fuel
-- as an argument, and enough is as many rounds as the clock needs to show the deadline over. The
-- gate has no loop that could run on; its loops over fixed arrays are written out or are
-- recursions on a list, so no fuel is needed. `*optional` reads `value_or` where the code reads
-- without a test; the invariant shows that the value is there. Enumerations hold their declared
-- values only, so the `default` labels of the switches are not reached; FrameKind, which is read
-- from a pipe, may hold another.
--
-- Doubles are exact: a finite one is a multiple of 2 ^ -1074. Sums of signed 64-bit times are
-- taken where they do not overflow, sums of unsigned ones wrap.
--
-- Not modelled: allocation failure (so the handlers in both rebind_provider), the gate's
-- destructor, threads (a gate is confined to its host), the signal set-up of the compute worker,
-- the set-up of a child's channels (one answer of `System`), which are system calls, and the
-- other components that call the gate through processes, sockets, ROS 2 or Python.
mod Base
pub mod HexText
pub mod Integer
pub mod Double
pub mod Decimal
pub mod Action
pub mod Gate
pub mod Sample
pub mod Compute
pub mod Drive
pub mod Navigation
mod Tests
