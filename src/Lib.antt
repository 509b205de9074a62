-- ===== src/Lib.antt =====
-- The containerd CRI plugin: the part of containerd that serves the kubelet's container runtime
-- interface. The model covers the plugin's own state and the code that changes it. What the code
-- calls outside the repository (containerd, the snapshotter, JSON, SELinux, the prefix index, the
-- clock, randomness) is an argument of the definitions or an interface record.
--
-- Registrar      pkg/registrar/registrar.go: names of containers and sandboxes, one to one with ids.
-- Label          pkg/store/label/label.go: reference counts of SELinux levels.
-- IdStore        pkg/store/container/container.go and pkg/store/sandbox/sandbox.go: the stores of
--                containers and of sandboxes, over the element, with the label store and the index.
-- Snapshot       pkg/store/snapshot/snapshot.go and `sync` of pkg/server/snapshots.go.
-- Container      Status: pkg/store/container/status.go, the status, its state and its checkpoint.
--                Transitions: the functions that handlers pass to Update and UpdateSync.
--                Start, Stop, Remove, Exit: StartContainer, stopContainer, RemoveContainer and
--                handleContainerExit of pkg/server/container_start.go, container_stop.go,
--                container_remove.go and events.go, each as a function of what containerd returns.
--                Concurrency: the same transactions as steps in any order.
--                Load: loadContainer of pkg/server/restart.go.
--                Create, Update: CreateContainer of container_create.go and UpdateContainerResources of
--                container_update_resources_unix.go.
-- Sandbox        the status of a sandbox (pkg/store/sandbox/status.go), handleSandboxExit, loadSandbox,
--                stopPodSandbox and RemovePodSandbox (pkg/server/events.go, restart.go,
--                sandbox_stop.go, sandbox_remove.go). Run: RunPodSandbox of pkg/server/sandbox_run.go,
--                with Network, setupPodNetwork and the CNI options and addresses, and Runtime, the
--                choice of the runtime.
-- Defers         Go's deferred functions that undo what a handler took when it fails.
-- Creation       what RunPodSandbox and CreateContainer share: the resources, and the frame of a
--                reserved name and an addition to a store.
-- Names          makeSandboxName and makeContainerName of pkg/server/helpers.go.
-- Recovery       recover, loadImages and cleanupOrphanedIDDirs of pkg/server/restart.go.
-- Listing        the filters of pkg/server/container_list.go, sandbox_list.go and
--                container_stats_list.go.
-- Mounts         WithMounts of pkg/containerd/opts/spec_unix.go: the mounts of a specification.
-- Image          pkg/store/image/image.go with the string slices of pkg/util/strings.go. Handlers:
--                localResolve of pkg/server/helpers.go and RemoveImage of image_remove.go.
-- WriterGroup    pkg/ioutil/writer_group.go: one writer for the outputs of a container.
-- Logger         pkg/server/io/logger.go: readLine and redirectLogs.
-- Events         handleEvent of pkg/server/events.go: which item of which store an event changes.
-- BackOff        pkg/server/events.go: the back-off queues and the loop of the event monitor.
-- RequestCache   pkg/streaming/request_cache.go: the tokens of exec, attach and port-forward.
-- Base           maps, errors, lists, numbers and tests that the parts share.
-- Scenarios      concrete runs, with concrete services for those that are arguments.
--
-- The handlers use the parts thus: RemoveContainer ends with the removal from the container store
-- and the release of the name; Add and Delete of the stores reserve and release labels; the event
-- monitor calls the handler of a container's exit, and a stop waits for that handler to close the
-- stop channel of the container. RunPodSandbox and CreateContainer reserve a name of the registrar
-- first and add to a store last; the recovery at a start does both for each item that it loads.
--
-- A method that holds its lock is one step, a function from a state to the next. A map is an
-- association list and `range` visits it in the order of the list. Times are nanoseconds on the
-- natural numbers; Go's `int` counters that cannot be negative are natural numbers too. `uniqueToken`
-- has the source's own bound of 10 tries. The loop of the log writer runs on fuel, one round more than
-- there are bytes to read, which is enough as each round but the last reads one. The other loops
-- recurse on the list that they range over.
--
-- Not modelled: HTTP and gRPC glue, logging, goroutines that only repeat a modelled step, the
-- construction of OCI specifications beyond their mounts, the CNI configuration,
-- the pull of images, and the copies of Kubernetes code in pkg/server/bandwidth and pkg/streaming.
pub mod Base
pub mod BackOff
pub mod Container
pub mod Creation
pub mod Defers
pub mod Events
pub mod IdStore
pub mod Image
pub mod Label
pub mod Listing
pub mod Logger
pub mod Mounts
pub mod Names
pub mod Recovery
pub mod Registrar
pub mod RequestCache
pub mod Sandbox
pub mod Snapshot
pub mod WriterGroup
pub mod Scenarios
