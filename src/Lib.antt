-- ===== src/Lib.antt =====
-- draino: a verification library for the node drainer of this repository.
--
-- The program drains the nodes of a Kubernetes cluster that show bad conditions. Nodes are put in
-- drain groups by a key (internal/groups/key.go). For each group one candidate runner
-- (internal/candidate_runner/runner.go) filters the nodes, orders them with a lazy sorting tree and
-- taints the first as drain candidates; one drain runner (internal/drain_runner/runner.go) takes the
-- candidates through the preprocessors and the drain. A failed drain raises the retry wall of the
-- node (internal/kubernetes/drain/retry_wall.go), and every drain closes the group for a while
-- through the drain buffer (internal/drain_buffer/drain_buffer.go).
--
-- Files and the code they model, each file with its children:
-- - Prelude: tests, lists, dictionaries, signed integers and texts over the native numbers.
-- - K8s: the fields of nodes, taints, conditions and pods that the code reads. Times and durations
--   are nanoseconds in a signed integer.
-- - Scheduler: internal/scheduler/tree.go. `next` descends and climbs on fuel; `Order.cost` is the
--   fuel that a whole walk needs, and Delivery shows that it is enough. sort.Slice is a parameter
--   that permutes and sorts by a strict weak order.
-- - Retry: internal/kubernetes/drain/retry_wall.go and retry_strategies.go, and
--   GetNodeRetryMaxAttempt of internal/kubernetes/drainer.go. Message is the text of the condition,
--   Strategy the delays with the wrap-around of an int64, Wall the conditions of the node.
-- - DrainBuffer: internal/drain_buffer. The JSON codec and the config map client are parameters;
--   Persistence is the life of a process and of the one after it as a step relation.
-- - Taints: internal/kubernetes/k8sclient/taints.go. The package taints of Kubernetes is a record
--   of functions with the laws that it documents; Sample is an instance to run the code on.
-- - Filters: internal/candidate_runner/filters, with the offending conditions of
--   internal/kubernetes/conditions.go. Collaborators that are not modelled are arguments.
-- - Drainer: internal/kubernetes/drainer.go and failure_cause.go. Sequence is the eviction of one pod,
--   a turn of the loop at a time with the waits and deletions that it asks for; its fuel is one unit
--   for each turn, and Sequence/Deadline shows that a turn for each nanosecond of the timeout is
--   enough. Volumes is the cleanup of claims and volumes, Endpoint the two ways to evict, Node the
--   pods of a node in the order in which they end, Marks the condition that a drain leaves,
--   Replacement the requests for another node and the reset of the retry annotation.
--   wait.PollImmediate and the backoff are parameters.
-- - Pods: internal/kubernetes/podfilters.go, the controller of a pod of internal/kubernetes/util.go,
--   and the two chains of filters of cmd/draino/draino.go.
-- - Stability: internal/kubernetes/analyser/stability_period.go.
-- - Metadata: internal/kubernetes/metadata_search.go.
-- - Blocker: internal/kubernetes/blocker.go, with the readiness of a node of
--   internal/kubernetes/util.go.
-- - Conditions: the texts of the conditions in internal/kubernetes/conditions.go and the rate limits
--   that they carry. The JSON parser, ParseDuration and the conversion of statuses are parameters.
-- - Options: the validation of the options in cmd/draino/options.go, with ParseMaxInParameter of
--   internal/kubernetes/limiter.go. strconv.Atoi and sort.Strings are arguments.
-- - Labels: ConvertLabelsToFilterExpr and NodeProcessed of internal/kubernetes/nodefilters.go. The
--   library that evaluates the expression is not modelled.
-- - ApiResources: the API resources that the options name, of internal/kubernetes/util.go. The
--   discovery client and the parsers of the package schema are parameters.
-- - Budgets: internal/kubernetes/index/pdb.go. The lists of the client and the selectors are
--   arguments; the order of a Go map is any permutation.
-- - Patches: internal/kubernetes/k8sclient/kube_patch.go, the contents of each patch.
-- - ScopeObserver: internal/observability/observability.go, the label that the configurations share;
--   the deletion of all labels at a start of the program and the gauges are left out.
--   sort.Strings is an argument; TextOrder is an insertion sort that has what is relied on of it.
-- - Utils: internal/kubernetes/utils/error.go and datamap.go.
-- - BoundPods: GetUnscheduledPodsBoundToNodeByPV of internal/kubernetes/nodefilters.go.
-- - RateLimiters: internal/limit/rate_limiter.go.
-- - WarmUp: the warm-up of pods and BlockingPodsOnNode of
--   internal/kubernetes/analyser/pdb_analyser.go.
-- - DrainRunner: internal/drain_runner/runner.go. handle_candidate gives the list of its actions on
--   the world in order; what the API server and the drainer answer is the record Calls.
-- - PreProcessors: internal/drain_runner/pre_processor; Reset is the reset of the pre-activities.
-- - Simulator: internal/kubernetes/drain/simulator.go with internal/kubernetes/utils/cache.go, at
--   one time; what the API server answers for a pod is the record PodAnswers.
-- - Sorters: internal/candidate_runner/sorters and CompareNode of
--   internal/kubernetes/analyser/pdb_analyser.go.
-- - CandidateRunner: internal/candidate_runner/runner.go, one evaluation, and the
--   retry flag with the errors of its calls.
-- - Groups: internal/groups/key.go, runner.go, reconciler.go and group_from_pod.go;
--   a run of RunForGroup or the end of a goroutine holds the lock and is one step.
-- In each, Tests holds concrete instances.
--
-- Not modelled: logs, metrics, traces and events but for their reasons; the informers and watches
-- of client-go; the constructors and the declaration of flags; the command line tools and
-- diagnostics, which only read. Time formats, duration parsing and the conversion of large floats
-- are parameters of the standard library of Go.
pub mod Prelude
pub mod K8s
pub mod Utils
pub mod Scheduler
pub mod Retry
pub mod DrainBuffer
pub mod Taints
pub mod Filters
pub mod Drainer
pub mod Pods
pub mod Stability
pub mod Metadata
pub mod Blocker
pub mod BoundPods
pub mod RateLimiters
pub mod WarmUp
pub mod Budgets
pub mod Patches
pub mod Conditions
pub mod Options
pub mod Labels
pub mod ApiResources
pub mod ScopeObserver
pub mod DrainRunner
pub mod PreProcessors
pub mod Simulator
pub mod Sorters
pub mod CandidateRunner
pub mod Groups
