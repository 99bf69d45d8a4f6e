-- ===== src/Lib.antt =====
-- The core of spinbox, a containerd shim that runs each container in a QEMU virtual machine: the
-- logic of the shim on the host and of `vminitd` in the guest that keeps state.
--
-- The parts and their files:
--   Common        numbers, lists, integers and tests that the parts share. Common/Int has signed
--                 integers over the native numbers.
--   Lifecycle     internal/shim/lifecycle. State is state.go, the shim's state machine: one function
--                 per method, a call as a value (`Call`), and any interleaving of goroutines as a
--                 list of calls (`run`). Cleanup is cleanup.go and the result type of errors.go: the
--                 orchestrator is its list of phases, and a cleanup function acts on a world and
--                 returns an error or none. Vm is the manager of vm.go.
--   Hotplug       Monitor is internal/shim/hotplug/monitor.go: the counters and cooldowns over a
--                 scaler, which is an interface (`ResourceScaler`), a round of the loop
--                 (`check_and_adjust`) and the loop over a list of rounds (`run_ticks`);
--                 Monitor/Lifecycle is its start and stop. Cpu is internal/shim/cpuhotplug/controller.go
--                 and Memory is internal/shim/memhotplug/controller.go; each gives a scaler
--                 (`cpu_scaler`, `memory_scaler`) that the monitor runs. Monitor/Invariant is the
--                 induction rule for its loop.
--   Task          ExitTracker is internal/guest/vminit/task/exit_tracker.go: the early exit detector,
--                 the exit coordinator and the process registry. Events is events.go of the same
--                 directory with `Start` of lifecycle.go for execs: it uses the tracker to publish
--                 exits.
--   Process       internal/guest/vminit/process: the state machines of state.go with what their
--                 operations do to the fields of an `Init` (init.go) and an `execProcess` (exec.go).
--   Supervisor    internal/guest/vminit/supervisor/monitor.go: the restart loop.
--   Vsock         internal/vsock/allocator.go: the lock files, `Allocate` and `Release`. Leases has the
--                 steps of `Allocate` between those of other processes.
--   Resources     internal/shim/resources/config.go: the size of the machine from the specification of
--                 the container and the host.
--   Shim          internal/shim/task, over Lifecycle. Service is the state of `service` and what its
--                 handlers share; Connection is connmanager.go; Rpc counts the RPCs in flight; Events is
--                 the events channel, and Stream the loop that fills it; Create is create.go; Teardown,
--                 Delete, Exec, Pause, Query and PassOn are the other handlers of service.go. Tokens
--                 counts the VMs and the mounts over any sequence of `Create`, `Delete` and `Shutdown`.
--   Qemu          internal/host/vm/qemu: the state of an instance with its start, rollback and shutdown.
--   Mounts        internal/host/mountutil/mount.go: the mounts of a root filesystem and their options.
--   Images        internal/host/erofs/vmdk.go: the descriptor of a VMDK image.
--   Runc          internal/guest/vminit/runc/container.go: a container of the guest and its processes,
--                 with `Exec` of internal/guest/vminit/task/exec.go in Exclusion.
--   Disks         internal/shim/platform/mounts/linux.go: the mounts of a root filesystem as disks of the
--                 VM (Devices, with the manifest of Layers), its overlays (Overlay) and `Setup` (Transform).
--
-- Conventions. An `error` that is returned is an `Option` or a sum, with nil as `none`. A method that
-- holds its mutex is one step, and a handler of the shim is one step unless its comment says more; where a method is several steps, what other goroutines do in between
-- is a parameter (`try_start_deleting_during`, `handle_start_during`). Times are readings of the
-- monotonic clock in natural numbers, the zero time is `none`, and a duration or a stability
-- setting that is not positive is 0. Containers and processes are compared by pointer, which is a
-- number here. A map from PIDs to slices is one list of entries in their order. Subscription
-- identities wrap at 2^64. A channel that is only closed is a number and the list of closed
-- ones, or a flag. Logging is left out. What an operation does
-- outside its state is a list: in Shim `effects`, newest first; in Mounts `log`, oldest first.
--
-- Parameters. QEMU, the cgroup statistics and the guest agent are the operations of `Providers` and
-- `Devices` over an arbitrary world; `IsAsynchronous` and `IsVirtioMem` say what is relied on of
-- them, which leaves open when a removal or a resize that was asked for takes place.
-- Floating-point numbers are an interface without laws (Hotplug/Float). What the OCI runtime, the
-- kernel and the clock answer are arguments.
--
-- Bounds. The loops are structural recursions over lists: the phases, the rounds of a monitor, the
-- exits. The search for a free CPU counts down from the maximum, and the doubling of the backoff from
-- the number of restarts; the reconnection of the event stream and the dialling of a client recurse on
-- the attempts that are left. Two loops have fuel. The search for a CID has one more than the range
-- has numbers: each round takes one number, and a range that ends before the last `uint32` does not
-- wrap. The split of a device into extents has as many rounds as the device has sectors: each round
-- takes at least one.
--
-- Not modelled: in the shim's task service the forwarders that copy bytes (internal/shim/task/io.go),
-- labels and restore; QEMU's command line, its QMP protocol, templates and snapshots (the rest of
-- internal/host/vm/qemu), since they are calls of QEMU; networks, volumes and bundles (internal/host,
-- internal/shim/bundle), since they are calls of CNI and of the file system; the guest's boot, system
-- services and the copying of process I/O (internal/guest); configuration, commands and generated
-- code. Of the mount utilities, the rewriting by regular expressions and the look-up of serial numbers
-- are arguments.
pub mod Common
pub mod Lifecycle
pub mod Disks
pub mod Hotplug
pub mod Task
pub mod Process
pub mod Shim
pub mod Resources
pub mod Vsock
pub mod Images
pub mod Mounts
pub mod Qemu
pub mod Runc
pub mod Supervisor
