-- ===== src/Lib.antt =====
-- A scheduler extender for Kubernetes: the scheduler posts a pod and nodes, and the extender
-- answers which nodes the pod can run on (predicates) and how good they are (priorities). It does
-- so from the annotations by which the hostpath CSI plugin records, for each volume, its
-- directories on the nodes and, for each node, its quota disks.
--
-- The parts, and the files that model them:
--   pkg/algorithm/common.go: the queries over the pods of the lister. Algorithm/PodInfo.antt has
--     `isPodReady`, `isPodUsePVC`, `FilterByNodeAndPVC`, `FilterByNode` and `List`.
--   pkg/algorithm/hostpathpv.go: the queries about hostpath volumes. Algorithm/HostPath/Kinds.antt has
--     the kinds of volumes and `GetHostPathPVMountInfoList`, Usage.antt the nodes and pods that use a
--     volume, `IsHostPathPVHasEmptyItemForNode` and `GetPodVolumePV`, Capacity.antt the capacity and
--     `GetNodeDiskInfo`, NodeMountInfo.antt `GetNodeHostPathPVMountInfo`.
--   pkg/algorithm/predicate/predicate.go and pkg/algorithm/prioritize/prioritize.go: Registry.antt has
--     `Regist`, `Init`, `Ready` and `InstallHttpServer` of both, over an interface of a plug-in.
--     Predicate/Handler.antt and Prioritize/Handler.antt have the handlers and routes.
--     Informers.antt has the state that the five plug-ins run over, with their `Init` and `Ready`,
--     and Predicate/Plugins.antt and Prioritize/Plugins.antt have the plug-ins and the `init`
--     functions that register them. Predicate/Routes.antt, Predicate/SelectorRoute.antt and
--     Prioritize/Routes.antt are about the answers of the routes.
--   pkg/main.go: Main.antt, with the flags and client-go in Environment.antt and the functions up to
--     `main` in Start.antt. Relied.antt has what `main` relies on of client-go.
--   pkg/algorithm/predicate/hostpathpv_affinity.go: Predicate/Affinity.antt.
--   pkg/algorithm/predicate/hostpathpv_disk_pressure.go: Predicate/DiskPressure.antt, with
--     `getPodHostpathOfNodeDiskInfos` in Requests.antt, `getNodeDiskInfos` in Disks.antt, `Less` and the
--     sorting in Sort.antt and `canRequestMatch` in Greedy.antt.
--   pkg/algorithm/predicate/namespaces_nodeselector.go: Predicate/NodeSelector.antt, with `InsertValue`
--     and `GetNsConfigByConfigMap` in Config.antt and `getConfigCM` in Cache.antt.
--   pkg/algorithm/predicate/namespaces_nodeselector_httpserver.go: Predicate/ConfigServer.antt, with the
--     change of a configuration in Change.antt, `NsNodeSelectorRefresh` and
--     `CheckNamespaceSchedulerNodes` in Refresh.antt, `NsNodeSelectorAddUpdateOrDelete` and
--     `getNsNodeSelectorConfigMap` in Update.antt, `NsNodeSelectorNodeLabels`, `NsNodeSelectorGet` and
--     `WithAuthentication` in Listing.antt, the handlers over the shared variables in Requests.antt
--     and `StartPolicyHttpServer` in Policy.antt.
--   pkg/algorithm/prioritize/hostpathpv_spread.go and hostpathpv_diskuse.go: Prioritize/Spread.antt and
--     Prioritize/DiskUse.antt have `mapScoringNode` and `reduceScoringNode`, Prioritize/Scoring.antt
--     has `NodesScoring` of both, with the relation of its steps and the run in which the goroutines go
--     one after another.
-- The two hostpath predicates and both priorities call the queries about hostpath volumes, those
-- the queries over pods. A handler calls the plug-ins of its registry. The configuration server
-- writes what the node selector reads. `main` initialises the packages, waits for the informers and
-- installs the routes. Cluster.antt has what all of them are given.
--
-- State and errors. The answers of the listers, of the API server and of the JSON decoder are
-- fields of the record `Cluster`, so a query is a function of it. The two package variables of a
-- registry are the record `Registry`, and an operation that holds the mutex is one step. A
-- plug-in's methods run over a state that is a parameter. `NodesScoring` starts a goroutine for
-- each node: `Step` is one step of one of them, an error that is added under the mutex or the
-- write of its slot, and `Steps` are steps in any order. The mutex is the reason why adding an
-- error is one step; its `Lock` and `Unlock`, and the `Add`, `Done` and `Wait` of the wait group,
-- are not modelled: `finish` is what follows `Wait`, on a state in which no goroutine is left. An
-- `error` value is a constructor of `Error`, with the values that its message prints; a panic at
-- a nil pointer is a result of its own. Times are in nanoseconds. The selectors of `apimachinery`
-- are the record `Selectors`, and the theorems assume that requirements with valid names are
-- parsed into the selector that they describe. The config map that the package and the server
-- share is a place in a list of config maps, and a pointer is its number. A map that is iterated
-- is a list, in any order; a map of which only the keys are used is a list of keys.
--
-- Numbers. `int64` and `int` values are integers whose sums and differences wrap around at 64 bits
-- (Prelude/Int.antt). `float64` is a parameter (Prioritize/Float.antt), for which the theorems
-- assume that whole numbers up to 2^53 are exact, that a result which is such a number is not rounded,
-- and that rounding is monotone. All loops are
-- structural recursion, over the lists that the code's loops run through, so there is no fuel.
--
-- Time. `main` waits for the informers by `cache.WaitForCacheSync`, which is a field of the record
-- `ClientGo`; the record `IsClient` says what is relied on: `HasSynced` stays true, informers that are
-- started have the objects some time, and the wait returns then. An informer that no plug-in asked
-- the factory for is not started. A call of the configuration server or of the node selector is given
-- the times that it reads and the answers that it gets.
--
-- Not modelled: what follows the call of `ListenAndServe`, so neither the end of `main` when the server
-- ends nor the `glog.Fatal` of the configuration server when it cannot listen; the route that
-- go-restful takes where the paths of two routes match; the file with the users. In the state that the
-- plug-ins run over, the node selector has the package's variables to itself; the runs in which the
-- configuration server shares them are those of Predicate/ConfigServer/Runs.antt. Requests of the
-- configuration server and calls of the predicate that run at the same time are not interleaved: each
-- is one step. JSON, the informers, go-restful and logging are third-party code.
-- `strings.ToLower` is modelled on ASCII letters; `sort.Sort` is an insertion sort, which differs
-- from Go's at most in the order of entries that `Less` does not tell apart. Quantities have their
-- `Value`.
pub mod Prelude
pub mod Cluster
pub mod Algorithm
pub mod Registry
pub mod Predicate
pub mod Prioritize
pub mod Informers
pub mod Main
pub mod Tests
