-- ===== src/Lib.antt =====
-- Verification library of the GEM REST API (api/gem_api): the Python service that builds and tears
-- down emulated clusters, an admin workstation and an edge router by running Terraform and Ansible in
-- the background, and changes their workloads through kubectl.
--
-- The parts and how they interact. A request is validated (api/gem_api/models), a handler
-- (api/gem_api/routers) registers an operation with the manager (api/gem_api/services/operations.py)
-- and starts a task, and the task runs a pipeline of the runner (api/gem_api/services/runner.py), which
-- starts commands, logs their output line by line through the manager and brings the operation to its
-- end. For a resource with an active operation the manager refuses another one with 409.
--
-- Files:
-- - Validators: models/validators.py. Patterns holds the six regular expressions, Sanitize
--   sanitize_optional_str and the runner's _clean_str, Names the validators of names, Zone
--   validate_zone_and_region, Errors the ValueErrors. Addresses is the part of Python's ipaddress that
--   models/clusters.py calls, Networks its validators of names, blocks and gateways. Zone/Shape,
--   Zone/Consistency, Names/Accepted, Addresses/Ranges, Addresses/RoundTrip and Networks/Accepted are
--   about what is accepted.
-- - Regex: regular expressions by derivatives, and the languages they stand for.
-- - Requests: the validated request models of models/clusters.py, workstation.py and edge_router.py.
--   Fields is how pydantic validates the fields of a body, with Fields/Ensures on what that establishes,
--   and Clusters the bodies of cluster requests; Clusters/Networks and Clusters/Accepted are about what
--   is accepted.
-- - Manifest: manifest.py, the group variables of Ansible as the API reads them; Manifest/Defaults is
--   about its defaults.
-- - Config: the names that Settings of config.py derives; Config/Resolving is how it finds the default
--   project and zone. Json: json.dumps with its defaults.
-- - Exceptions: what a call may raise, and Outcome, how it ends.
-- - Operations: services/operations.py and models/operations.py. Model holds the record and the
--   responses, Subscribers _publish, World the state with the log files, Manager the methods:
--   register_operation, update_operation, append_log, attach_task, finalize_task for _finalize_task,
--   get_operation, list_operations, cancel_operation and reset. Logs is get_logs, Streams stream_logs;
--   Logs/Lines and Logs/Mirror are about the log that a file and a buffer represent, Streams/Account and
--   Streams/Ends about what a client gets. Under Manager, Views is about what a
--   method leaves alone, Exclusion about the operations active on a resource, Changes, Steps and
--   Steps/Invariants about the manager as a state machine, Lifecycle about the end of an operation and
--   Refusals about the error branches.
-- - Runner: services/runner.py. Location and Context prepare a request, Decoding and Output turn the
--   bytes of a command into lines, Machine and Execute are _execute_command, _mock_step,
--   _finalize_pipeline and _fail_pipeline, Pipelines the six run_* methods. Along and Keeps are about
--   what an action does to the record of the operation, Leads about
--   a pipeline as steps of the manager, Ends about the end of a pipeline, Success about
--   its commands, Execute/Chunking about the reads of output.
-- - Routers: the handlers that start, read and cancel operations; Accepted is about their answers,
--   SafeIds about the names of resources as operation ids, and Logs is get_operation_logs.
-- - Kubernetes: services/k8s_client.py, running kubectl and translating its failures. Models holds
--   models/vms.py and pods.py, Actions the five operations that change a cluster, and their handlers in
--   routers/cluster_operations.py; Failures is about how they end. Values is the JSON that kubectl prints,
--   Lists list_pods and list_vms, Status get_cluster_status and Syncs list_rootsyncs; Lists/Reads,
--   Lists/Items and Lists/Listed, Status/Connected and Syncs/Commits are about what they show.
-- - Gcp: services/gcp_client.py; Gcp/Reports is about a membership, and
--   Gcp/Discovered about the clusters that it lists.
-- - Prelude: shared helpers; Tests: runs at fixed inputs.
--
-- How the code is modelled. Text is the list of code points. The state of the manager is World: the dict
-- of records in insertion order, the content of the log files, how often the clock was read and a log
-- file was opened, and the effects asked of the system. The readings of the clock, the failures of
-- open(), whether a process runs and whether a task is done are functions in Environment. Methods that
-- hold the manager's lock are single steps; the methods without a lock contain no await and are steps
-- too. A failure is a value: Outcome is returned or raised, with the state behind it, since an exception
-- does not undo what was changed before.
-- A pipeline is an action on Machine: the world, what the coming subprocesses print and return, and the
-- commands started so far. A user may cancel while the pipeline waits for output or sleeps in a mock
-- step, which is an event in these inputs; if a task is attached, the wait then ends in CancelledError.
-- A pipeline reads its record anew at its id, where the code keeps a reference: the two agree while no
-- registration replaces the record during the pipeline. get_abm_version, os.environ and the settings are
-- parameters in Setup. A requested path is a text joined with /.
-- stream_logs is an asynchronous generator: a turn of it runs to the next line for the client, to an
-- empty queue or to its end. A stream carries its own queue, which stands for its entry among the
-- subscribers of the record; a publication offers to each entry on its own. A closed stream has left
-- them.
-- A body for a request holds values of the types that its model declares; a number below 0 is not
-- represented. The catalog of variants and versions is what the manifest functions return. The content
-- of the YAML file, the variables and the files of the host and what becomes of a call of kubectl are
-- inputs: Source, Host and Gcloud. So are json.loads and the way in which pydantic reads an int or a bool;
-- an exception that the code catches is told from one that it does not. In the model the JSON of kubectl
-- and of gcloud has natural numbers only, json.loads raises nothing but JSONDecodeError, and the keys of the
-- YAML mappings are texts.
-- register_operation waits for a thread that writes the first line of the log file. What other methods do
-- meanwhile is not modelled: a stream that is opened then misses this line, which is not published.
-- The regular expressions end in $, which in Python also matches before a final newline; the validators
-- apply them to stripped texts, which have none. str.lower and str.strip are modelled on the code points
-- that the comparisons here can see, as the comments in Prelude/Strings say.
--
-- Fuel. The loop of _publish has one round more than the queue has items, which is enough: each round
-- but the last takes one item out. Decimal digits have as much fuel as the number.
--
-- The turns of a stream are bounded by the number of lines in its snapshot and its queue, and the zero
-- bits of a mask by its 32 bits.
--
-- Not modelled: list_secondary_networks of services/k8s_client.py, which needs IPv6 addresses; the
-- timeout of services/process.py; the handlers that only pass a list on; the bodies of
-- models/workstation.py and edge_router.py; the cache of load_group_vars and
-- get_default_secondary_networks; main.py, which wires the application; the logging module. The SIGKILL two seconds behind a cancellation is an effect that is asked for, not a
-- later step. Ansible, Terraform, the shell scripts, the policies and the Go operator are other programs.
mod Prelude
pub mod Manifest
pub mod Regex
pub mod Validators
pub mod Exceptions
pub mod Operations
pub mod Config
pub mod Requests
pub mod Json
pub mod Runner
pub mod Kubernetes
pub mod Gcp
pub mod Routers
mod Tests
