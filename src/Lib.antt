-- ===== src/Lib.antt =====
-- The Dragonfly operator: its controllers as functions over a history of calls, with properties of
-- the election of a master, of the roles of pods, of a rolling update, and of the Kubernetes objects
-- that are generated for an instance.
--
-- The program. Two controllers look after each custom resource `Dragonfly`. The pod lifecycle controller
-- (internal/controller/dragonfly_pod_lifecycle_controller.go) is called for a pod: it finds the master
-- of the pod's instance, elects one where there is none, gives roles to pods, and keeps the readiness
-- condition of pods. The Dragonfly controller (internal/controller/dragonfly_controller.go) is called
-- for an instance: it generates the Kubernetes objects of the instance (internal/resources/resources.go)
-- and creates or patches them; then it detects a rolling update and takes one step of it: the replicas
-- first, one at a time, then the master by a takeover. Both work by the methods of `DragonflyInstance`
-- (internal/controller/dragonfly_instance.go) and the helpers of internal/controller/util.go. The
-- entry point (cmd/main.go) chooses the namespaces that are watched.
--
-- The files, by the code that they model:
--   * Kube: the Kubernetes objects as far as the controllers read them, the custom resource
--     (api/v1alpha1/dragonfly_types.go), and the names of internal/resources/const.go. Kube/Objects has
--     the objects that are generated, Kube/Equality Go's deep equality of them; Kube/Equality/Laws
--     and Kube/Equality/Maps have its laws.
--   * Pods: the tests on pods of internal/controller/util.go (`isHealthy`, `isTerminating`,
--     `isPodOnLatestVersion`, `needRollingUpdate` and the others).
--   * Election: `getOrdinal`, `isBetterCandidate`, `selectMasterCandidate`. Election/Order has the laws
--     of the comparison, Election/Best those of the loop, Election/Preference and
--     Election/Determined those of its outcome, and Election/Ordinal and Election/Bounds are about
--     `getOrdinal`.
--   * Info: `parseInfoToMap`. Text: the functions of `strings` and `strconv` that the code calls, with
--     their laws in Text/Laws and Text/Trimming; Text/Decimal is the printing of numbers.
--   * Effects: the outside. Effects/Errors has Go's errors and `errors.Is`; Effects/Calls the calls,
--     the answers and the monad; Effects/Actions one action per call, and `getRedisClient` and
--     `Close`; Effects/Clients the open Redis clients; Effects/Within the footprints of actions;
--     Effects/Changes the part of a history that changes something, Effects/Scripts sequences of calls
--     that stop at the first one that is refused; Effects/Outcome what an answer
--     says of the parts of a block, and Effects/Returns that an action answers, with a footprint.
--   * Instance: the methods of `DragonflyInstance`. Instance/Queries asks (`getPods`, `isPodReady`,
--     `isReplicaStable`, `checkReplicaRole`, `getMasterCandidate` and the others), Instance/Roles changes
--     one pod (`replicaOf`, `replicaOfNoOne`, `replTakeover`, `disconnectClients`,
--     `patchReplicationReadyCondition`), Instance/Status has `patchStatus`, `detectRollingUpdate` and
--     `getMaster`, Instance/Replication gives roles to all pods (`configureReplication`,
--     `checkAndConfigureReplicas`, `deleteMasterRoleLabel`), and Instance/Rollout is for a rolling
--     update (`allPodsHealthyAndHaveRole`, `verifyUpdatedReplicas`, `updateReplicas`, `updatedMaster`,
--     `detectOldMasters`). Instance/Objects compares generated objects with existing ones and keeps the
--     fields that cannot be changed (`resourceSpecsEqual`, `volumeClaimTemplatesEqual`,
--     `copyDesiredPayload` and the blocks of `reconcileResources`), and Instance/Resources is
--     `reconcileResources`. Instance/Footprint says which calls these methods make, and the modules
--     below Instance/Roles, Instance/Status, Instance/Queries, Instance/Rollout, Instance/Objects and
--     Instance/Resources what they leave. Instance/Resources/Store is an API server that holds the
--     objects, with the hypotheses on it, Instance/Resources/Applied what the loop of
--     `reconcileResources` leaves in it, Instance/Resources/Keys the names of the objects,
--     Instance/Resources/Refinement the comparison with the wanted state, and
--     Instance/Resources/Idle a run that finds nothing to do. Instance/Resources/Quiet and
--     Instance/Resources/Footprint say which calls are made.
--   * Reconcile: Reconcile/Base is `getDragonflyInstance` with the deferred `Close`,
--     Reconcile/Lifecycle the `Reconcile` of the pod lifecycle controller, Reconcile/Dragonfly that of
--     the Dragonfly controller, and Reconcile/Rollout its part from the status on. The modules below
--     them have the proofs: Reconcile/Rollout/Safety, Reconcile/Rollout/Order and
--     Reconcile/Rollout/Completion are about one step of a rolling update, and
--     Reconcile/Rollout/Calm is an outside where nothing goes wrong. Reconcile/Rollout/Path and
--     Reconcile/Rollout/Steps go through a reconciliation there, Reconcile/Rollout/Takeover through
--     the takeover, Reconcile/Rollout/Deleting is about actions that delete one pod,
--     Reconcile/Rollout/Standing about the pods after it, and Reconcile/Rollout/Liveness about all
--     reconciliations of a rolling update.
--   * Resources: the checks of labels, the labels and annotations of the generated objects, and
--     `mergeNamedSlices` (internal/resources/resources.go), with their laws in Resources/Safety and
--     Resources/Merge. `GenerateDragonflyResources` is in Resources/Generate: it takes a draft of the
--     stateful set (Resources/Draft) through one function for each block of the code, in the code's
--     order (Resources/Features, Resources/Storage, Resources/Probes), and adds the service and the
--     disruption budget (Resources/Service). Resources/Names has the constants. Resources/Kept says
--     what a predicate of the draft has to allow so that all blocks keep it, and Resources/Mounts,
--     Resources/Selector, Resources/Ownership, Resources/Validity and Resources/Outcome what the
--     generated objects are like; Resources/Backing is about mounts and volumes, and Resources/Status
--     about the status, on which nothing that is generated depends.
--   * Manager: the namespaces that are watched and the pods that are cached (cmd/main.go).
--     Manager/Watched puts these together with the event filter of Reconcile/Lifecycle/Events.
--     Manager/Entry is `main` itself, with `SetupWithManager` of both controllers, and
--     Manager/Entry/Started is about how it ends.
--   * Prelude: the shared names, lists, Go's maps as association lists, and signed integers. Tests: the
--     theorems at concrete inputs.
--
-- State and calls. A method of `DragonflyInstance` is a function of the instance (the custom resource,
-- the addresses with an open Redis client, and the history of the calls made so far) that answers with
-- a result or an error, and the instance after it. The answers of the API server, of the Dragonfly pods
-- and of the clock are an `Env`: functions of the whole history, so that the outside may answer in any
-- way, and differently at each call; no theorem assumes more of it than its statement says. Pods are
-- passed by value, and a method that patches a pod answers with the pod that the API server sent back,
-- since the client writes that over the object. Reconciliation ends with a number of seconds after
-- which the request is queued again, where 0 stands for `ctrl.Result{}`. Each loop of the code is a
-- structural recursion over its list, one function for a round, so that no fuel is needed.
--
-- Numbers. Ordinals and replication offsets are signed 64-bit integers, read by `parse_int`, which
-- refuses what is out of range. Texts are sequences of code points.
--
-- A field of an object that the operator copies or compares and does not look into is one text
-- (`Payload`), and `others` stands for the fields that the operator leaves unset. In the generated
-- objects a nil slice or map is told from an empty one, which `reflect.DeepEqual` does too.
--
-- Parameters. `net.ParseIP` is `is_ipv4`, which says whether a text is an address of IPv4. The scripts
-- of the probes, which scripts.go embeds, the default image, and `SetControllerReference` of
-- controller-runtime are the record `Setup`. What the entry point reads at its start (a flag, two
-- environment variables, a file, the kubeconfig) is the record `Start`, its other flags are `Flags`,
-- and whether a call of `main` answers with an error is `refuses`. The record `IsReferring` states that
-- `SetControllerReference` changes only the references to owners. `is_cached` reads the default
-- namespaces as controller-runtime does, where an empty one stands for all. The record `Serves` states what
-- two theorems ask of the API server: it answers a request for an object by the earlier requests to
-- create, patch and delete, writes what it is sent with changes of its own, and refuses nothing. The
-- record `IsCalm` states what the theorem on the end of a rolling update asks of the outside during one
-- reconciliation: the pods are all there, healthy and answering, and no request is refused. `Rounds`
-- is a sequence of such reconciliations, between which each deleted pod comes back under its name on
-- the update revision, as the controller of the stateful set makes it.
--
-- Simplifications. In the pods and in the custom resource a nil map and an empty one are the same; the
-- map with no value that Go cannot write to does not occur, since the pods are found by their labels.
-- `strings.Split(line, ":")[1]` panics in Go on a line with no colon, and is the empty text here.
-- `sort.Slice` is an insertion sort: names differ, so the sorted list is the same. Redis clients are
-- known by their address. The order in which `Close` closes the clients is one of those that Go's map
-- may take. The API server answers a request for an object with one of the kind that was asked for, as
-- Go's types have it; what the functions do with another kind is not used. The payload of a claim is
-- compared as a text where the code compares quantities by their value. Numbers are printed with fuel
-- for 20 digits, more than a 64-bit integer has.
--
-- Not modelled: log lines, contexts and their timeouts, the options of the Redis clients, the parsing of
-- the flags, and what the manager does once it is started; generated code, charts, manifests, the tools
-- and the tests.
pub mod Prelude
pub mod Text
pub mod Kube
pub mod Pods
pub mod Election
pub mod Effects
pub mod Info
pub mod Instance
pub mod Reconcile
pub mod Resources
pub mod Manager
pub mod Tests
