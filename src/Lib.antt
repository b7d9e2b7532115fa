-- ===== src/Lib.antt =====
-- rktlet, the Kubernetes container runtime interface on top of rkt: a model of its Go packages.
--
-- Host is what rktlet asks of the operating system and of programs, a parameter; Errors the
-- errors; Base what the modules share. Cli is rktlet/cli (how rkt is run, its flags, systemd),
-- Image is rktlet/image and rktlet/util, Runtime is rktlet/runtime: AppName, Annotations, Filter,
-- Network, Status, Seccomp, AppAdd and Sandbox model helpers.go, Containers and Service
-- rkt_runtime.go and stage1.go, Pods pod_sandbox.go and Exec exec.go. Server is rktlet/rktlet.go
-- and the defaults of cmd/server/options, and Server/Daemon is cmd/server/main.go, with the
-- flags. A handler is a function from the state of the host to a result and a state. A map of Go
-- is an association list in the order in which Go happens to visit it. The loop that waits for a
-- UUID has the hundred rounds of the source as fuel.
--
-- Runtime/Lifecycle composes the calls about containers: runs of creations, starts, stops and
-- removals that succeed, as a step relation, on a rkt whose documented behaviour is a record of
-- hypotheses (IsRkt), against the table of IDs that a client keeps. Lifecycle/Listing adds what
-- is relied on of rkt's reports (IsReporting), and says what ListContainers gives on such a rkt.
-- Image/Store/Table does the same for the image service: what is relied on of `rkt image` is the
-- record IsImageRkt, Effects follows a pull and a removal into rkt's table, and Runs is a run of
-- calls as a step relation, against the set of IDs that a client keeps. Pods/Rkt is the same for
-- sandboxes, on a rkt that keeps its pods (IsPodRkt), and Pods/Started and Pods/Listed follow a
-- sandbox from the request through the file of its UUID to the list. Pods/Keeps and Pods/Leaves
-- say which calls leave the pods there, and Pods/Runs composes the calls, those that fail
-- included, as a step relation against the sandboxes that a client expects. Runtime/Terminal is
-- execWithTty of exec.go: the call and its three goroutines as steps that come in any order, of
-- which one that cannot happen changes nothing. UserArgs reads the annotations and labels in the
-- arguments of a command as rkt is documented to take them, a later one over an earlier one, and
-- none behind `--`; AppAdd/RoundTrip and Sandbox/RoundTrip follow a request through the command
-- to the status. Examples holds small instances of rkt that have this behaviour.
--
-- A panic is an error of its own (a nil pointer, an index out of range, a value that reflection
-- cannot set). Integers of 64 and 32 bits wrap around as in Go; a uint32 is a number with a
-- bound.
--
-- Not modelled: logging, tests and mocks, the goroutine in which the streaming server serves, and
-- third-party packages, which are parameters.
pub mod Base
pub mod Errors
pub mod Host
pub mod Cli
pub mod Image
pub mod Runtime
pub mod Server
mod Examples
