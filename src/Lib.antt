-- ===== src/Lib.antt =====
-- The Volcano vGPU device plugin: a kubelet device plugin that shares GPUs, with a monitor of the
-- containers that use them. The scheduler writes what a pod was given into annotations; the plugin
-- reads them when the kubelet asks for an allocation, answers with environment and mounts, and
-- releases the node lock that the scheduler took. Each part is a file of this library, with its proofs
-- in files below it.
--
-- Util (pkg/util/types.go, pkg/util/util.go): Types holds the records; Codec the text forms of device
-- lists (EncodePodDevices and DecodePodDevices are encode_pod_devices and decode_pod_devices, and so
-- on); Pods the pending pod of a node and the queue of its device requests (GetPendingPod,
-- GetNextDeviceRequest, EraseNextDeviceTypeFromAnnotation); Allocation the end of an allocation
-- (PodAllocationTrySuccess and the two functions below it); Smi the UUID of a MIG instance
-- (GetMigUUIDFromIndex and the output of nvidia-smi); CdiSpec the test of a CDI specification
-- (checkCDISpec).
--
-- NodeLock (pkg/util/nodelock/nodelock.go): setNodeLock, ReleaseNodeLock and LockNode over a world
-- that a Client of Kube changes. A call may fail at any time. What the proofs use of the server
-- is the record IsServer of NodeLock/Server; RFC 3339 texts and the clock are the record Clock. A
-- function is cut into its parts behind each call, with the name of the function in the names of
-- the parts; an outcome is done, failed or panicked. Times are seconds.
--
-- Rm (pkg/rm): AnnotatedId and Devices (devices.go), Allocate (allocate.go, getPreferredAllocation of
-- nvml_manager.go, ValidateRequest of rm.go), DeviceMap (device_map.go) with its builder in
-- DeviceMap/Build, whose visits of GPUs and MIG devices are lists with the driver's answers,
-- NvmlDevice (nvml_devices.go) what a device is to that map. A Go map is an association
-- list in Kube/Dict, whose order stands for the order in which the runtime visits it; sort.Slice
-- and the order of candidates are parameters.
--
-- Config (pkg/config/config.go, LoadNvidiaConfig and readFromConfigFile of pkg/util/util.go): the
-- configuration as loaded from flags, config map and file, and the filter of devices. The parsed file
-- and config map are arguments.
--
-- Health (pkg/rm/health.go): Xids holds the ignored XIDs, Events the run of checkHealth over what Wait
-- answers until the stop: its early returns, the placement of devices, their registration and the
-- verdict on an event, with the answers of NVML as arguments.
--
-- Monitor (cmd/vgpu-monitor/feedback.go): one round of Observe with CheckBlocking and CheckPriority. The
-- containers that it visits twice are one list. Lister (pkg/monitor/nvidia/cudevshr.go) is the lister's
-- Update with isValidPod and loadCache, over what the operating system answers.
--
-- Spec (api/config/v1): Strategy (strategy.go), Replicas (replicas.go), and Resources (resources.go) with
-- Matches and wildCardToRegexp. uuid.Parse is a parameter.
--
-- Plugin (pkg/plugin/server.go, pkg/plugin/mps.go): Entries holds apiDevices and the unique ids of a
-- request, Mig the MIG configurations (processMigConfigs) with Mig/Template (GenerateMigTemplate, and
-- ExtractMigTemplatesFromUUID of pkg/util/util.go), Response the answer of getAllocateResponse. The CDI
-- library, paths and files are parameters. Allocate holds the handler Allocate, written as Actions: an
-- Action reads and writes the MIG configuration that the plugin keeps and the world, which holds the
-- server of the node lock and the machine, and it returns, fails with one of the handler's errors, or
-- ends the process by a panic or klog.Fatal. Prepare holds GetContainerDeviceStrArray, with the commands,
-- files and the driver as the record Host. Watch is ListAndWatch as a run over the messages of its
-- channels: a message says which device is unhealthy, for which devices the driver then answers, and
-- whether Send succeeds. Register holds ConvertDeviceInfo and RegisterInAnnotation (pkg/plugin/register.go)
-- and a round of WatchAndRegister; sort.Slice is any sort by the minor number.
--
-- Vgpu (pkg/vgpu): the PCI capability chain (pciutil.go) and the vGPU records (vgpu.go).
--
-- Prelude, GoText and GoNum are shared: tests, lists and integers over the native numbers, Go strings
-- as lists of bytes with the functions of package strings, the expressions of package regexp that
-- patterns need (GoText/Regexp), and the parts of package strconv. Tests holds the theorems at concrete
-- inputs.
--
-- Bounds and fuel: an int32 wraps at 2 ^ 31 where the source converts, a uint8 position at 256, and the
-- number in the warning about entries at 2 ^ 64. The chain of capabilities runs on 257 steps,
-- which is enough since each step visits a new position of 256. The loop over vGPU records takes its
-- fuel as an argument, since it need not end. The loop that writes the CDI specification has at most
-- five tries, as in the source. All other loops are structural.
--
-- Not modelled: the gRPC server and its sockets, the parsers of configuration files, the
-- memory-mapped region of a container, metrics and commands, the CDI and MPS daemons, the label and
-- resource packages, and the CUDA and MIG bindings: mostly input and output and calls of libraries.
pub mod Prelude
pub mod GoText
pub mod GoNum
pub mod Kube
pub mod Util
pub mod NodeLock
pub mod Rm
pub mod Config
pub mod Health
pub mod Monitor
pub mod Spec
pub mod Plugin
pub mod Vgpu
pub mod Tests
