-- ===== src/Lib.antt =====
-- KohakuRiver is a cluster manager: a host schedules containers and virtual machines on runners.
-- This library models the core of the host in src/kohakuriver/ and proves what makes it correct.
--
-- The parts and how they meet:
--   * Tunnel (src/kohakuriver/tunnel/protocol.py): the frames between a runner and the tunnel
--     client in a container. `build_message`, `parse_header` and `get_payload` keep their names;
--     the packing of `struct` is written out byte by byte.
--   * Overlay/Subnet (src/kohakuriver/models/overlay_subnet.py): the address plan of an overlay
--     network, which the two managers below ask for subnets, gateways and ranges. Addresses are
--     numbers; an operation that `ipaddress` would refuse returns a `ValueError`.
--   * Overlay/Manager (src/kohakuriver/host/services/overlay/manager.py and models.py): the tables
--     `_allocations` and `_id_to_runner` of `OverlayNetworkManager`. The kernel's devices are the
--     interface of Overlay/Links, a section parameter: any of its calls may raise.
--   * Reservation (src/kohakuriver/host/services/ip_reservation.py): the tables of
--     `IPReservationManager`, its tokens, and every method that changes them. A call takes the
--     network's plan and allocations from the two parts above. Hashing and base64 are the interface
--     `Signer` of Reservation/Token, whose documented property is `IsFaithful`.
--   * Tasks (src/kohakuriver/db/task.py and src/kohakuriver/host/services/task_scheduler.py): the
--     status of a task under the reports of the runners and under kills. `releases` records the
--     tasks for which `schedule_ip_release` was called.
--   * Tasks/Control (src/kohakuriver/host/endpoints/task_control.py): the kill, the pause and the
--     resume of a task by a user. A pause is two steps, since it waits for the runner between them.
--   * Tasks/Heartbeat (src/kohakuriver/host/services/task_scheduler.py, host/endpoints/nodes.py): the
--     heartbeat of a node, and how it settles the tasks that the host has sent to the node.
--   * Tasks/Registration (src/kohakuriver/host/endpoints/nodes.py): the registration of a node.
--   * Tasks/Ports (src/kohakuriver/host/endpoints/task_submission.py): the SSH ports of the VPSs.
--   * Tasks/Approval (src/kohakuriver/host/endpoints/task_approval.py): the approval and rejection.
--   * Tasks/Monitor (src/kohakuriver/host/background/runner_monitor.py): a round of
--     `check_dead_runners` over nodes, tasks and the overlay managers above.
--   * Overlay/Names and Overlay/Recovery (src/kohakuriver/host/services/overlay/manager.py and
--     recovery.py): the names of the devices, and the tables that a restarted host rebuilds from them.
--   * Overlay/Networks (src/kohakuriver/host/services/overlay/): the managers of several overlays.
--   * Nodes (src/kohakuriver/host/services/node_manager.py): what a node has left, given the task rows,
--     and the choice of a node for a task or a virtual machine.
--   * Auth (src/kohakuriver/host/auth/, src/kohakuriver/db/auth.py): users, sessions, tokens,
--     invitations, the roles, and the guards of the endpoints. Hashing is a parameter.
--   * Submission (src/kohakuriver/host/endpoints/task_submission.py): the submission of a task to one
--     target, over the nodes, the task rows and the reservations.
--
-- The managers' methods run under a lock, and most handlers do not wait between reading and writing
-- the rows: each is one step, a function from the state to a result and a state. Times are arguments
-- of the calls, in microseconds, and a random choice takes the number of its draw. Exceptions are
-- values of `Common.Result`; the state behind an exception is the one that the source leaves behind.
-- A Python dictionary is an association list in the order of insertion (`Common.Dicts`), and so is a
-- table of the database. Loops are over lists, but for the search of a free port (`next_free` of
-- Tasks/Ports), whose fuel is one more than the number of ports in use: one of as many ports is free;
-- and for the digits of a number (`digits_loop`), whose fuel is the number: each round divides it.
--
-- Not modelled: the text form of addresses and targets, the NUMA node a target names beyond its
-- check, the listing of nodes, the life of a VPS after its creation, groups, other calls that run while
-- a submission waits, logging, the runner and the command line.
pub mod Common
pub mod Tunnel
pub mod Overlay
pub mod Reservation
pub mod Tasks
pub mod Nodes
pub mod Auth
pub mod Submission
