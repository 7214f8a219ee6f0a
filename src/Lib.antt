-- ===== src/Lib.antt =====
-- gokube is a small Kubernetes: an API server keeps pods, nodes and replica sets in etcd, a scheduler
-- puts pending pods on nodes, a controller creates the pods of replica sets, and a kubelet on each node
-- runs pods in Docker and reports their status.
--
-- Parts, and the files that model them:
--   Api            pkg/api/types.go, pod.go, node.go: the objects, Validate, IsActive, IsOwnedBy.
--   Storage        pkg/storage/storage.go: the interface Storage as a record of operations, and Lawful,
--                  the abstract store that a client relies on: a slot for each key.
--   Storage.Etcd   pkg/storage/etcd_storage.go: Create, Get, Update, Delete, List and DeletePrefix over
--                  a client of etcd. The client is a parameter with IsEtcd, what etcd documents of it:
--                  a call may fail, and a write that failed may have been carried out. The JSON coding
--                  of pkg/runtime/object.go is a parameter with no hypothesis; where a theorem needs
--                  that an object reads back as it was written, that is its hypothesis.
--   Storage.Watch  the watch of the same file: convertToWatchEvent, processWatchResponse and the loop of
--                  handleWatchEvents. Which selects take the case of the context is an argument.
--   Registry       pkg/registry: Pods (PodRegistry), Nodes (NodeRegistry) and ReplicaSets
--                  (ReplicaSetRegistry), with the error of each branch. PathJoin is path.Join of the
--                  standard library as generateKey of nodes calls it.
--   Names          pkg/registry/names/generate.go: GenerateName and the loop of String. math/rand is a
--                  stream of numbers. The loop's fuel is the number of digits it looks at: twelve for
--                  each number drawn are enough as soon as the numbers drawn hold enough letters.
--   Handlers       pkg/api/response.go and pkg/api/handlers: Pods, Nodes and ReplicaSets. A handler gives
--                  the list of its writes to the response, so a second answer shows. A route is its
--                  filter (LoadPodIntoRequest and the like) followed by its handler.
--   ApiServer      pkg/api/server/server.go and the functions Register…Routes: which handler a request
--                  reaches. go-restful's choice among the routes that match is a parameter.
--   Scheduler      pkg/scheduler/scheduler.go: schedulePendingPods, with rand.Intn as a stream, and
--                  Start, over the ticks before its context is done.
--   Controller     pkg/controller/replica_set_controller.go: Reconcile, Run and Start.
--   Kubelet        pkg/kubelet/kubelet.go: runNewPods, the names of containers, getPodStatus and
--                  determinePodStatus, and in Kubelet.Docker ListContainers and CleanupContainers. What
--                  Docker answers to an inspection is a function of the container's name; a removal is
--                  a parameter with IsDocker, what Docker documents of it. Kubelet.Running: runPod and
--                  StartContainer, with Docker's calls as a parameter. Kubelet.Server: Start,
--                  registerNode, watchPods and updatePodStatuses, as a client of Handlers; whether a
--                  request and its answer arrive is a parameter.
--   Retry          pkg/retry/retry.go: WithRetries and WithExponentialBackoff. An operation acts on a
--                  state; a wait ends with the delay over or the context done. Fuel of the second loop
--                  is the number of attempts, and one for each attempt made is enough.
--   ListWatch      pkg/listwatch/listwatch.go: events, validate, List and the goroutine of Watch. In
--                  ListWatch.Session the loop of ListAndWatch over a state: the channel, the client, the
--                  gauge, the context and the monitor goroutines. A clock counts the moments at which the
--                  loop waits or makes a call, and the record World says what happens at each: what the
--                  reader takes, whether the context is cancelled, which ready case a select takes, what
--                  etcd answers. Fuel is the number of attempts: two more than the moment of the
--                  cancellation are enough. A send or a watch that blocks ends with its event or with the
--                  context; one that blocks for ever is not modelled.
--   EmbeddedEtcd   pkg/storage/etcd.go, and runAPIServer of cmd/apiserver/apiserver.go. A host is its data
--                  directories and its etcd servers; the answers of the system and of etcd's embed
--                  package are a parameter.
--   Cluster        the processes of cmd over one store, as a relation of steps; a step is a whole call.
--   Exec           methods that act on a store and may return an error: the state comes back with the
--                  error too, since a Go method keeps the writes that it made before it fails.
--   Memory         an etcd in memory, a validator, a name generator and objects, on which the examples
--                  run; the modules called Examples hold those runs.
--   Prelude        shared names, lists, texts (bytes as natural numbers), tests and integers.
--
-- State: the store's state is a type `S` that the operations pass on. The mutex of a registry is the
-- order of its calls, and calls of different processes do not overlap: a pass of the scheduler or a
-- reconciliation is one step, so an update lost between its reads and its writes does not show in
-- Cluster; Scheduler.Interleaving is about one.
-- Strings of a fixed set (PodStatus, NodeStatus) are data types with a constructor for other strings.
--
-- Not modelled: flags and signals of cmd; counters, histograms and logs; the JSON of objects; escapes of
-- names in URLs; mocks, examples and helpers of tests. They are I/O, or are built on the parts above.
pub mod Api
pub mod ApiServer
pub mod Cluster
pub mod Controller
pub mod EmbeddedEtcd
pub mod Exec
pub mod Handlers
pub mod Kubelet
pub mod ListWatch
pub mod Memory
pub mod Names
pub mod Prelude
pub mod Registry
pub mod Retry
pub mod Scheduler
pub mod Storage
