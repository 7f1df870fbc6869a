-- ===== src/Lib.antt =====
-- k8ssandra-client: a kubectl plugin for Cassandra clusters, and the config builder that runs in the
-- pods of a node.
--
-- The parts, and the files that model them:
-- * pkg/config (types.go, builder.go): the builder reads CONFIG_FILE_DATA and the environment of a
--   pod and writes the configuration files of Cassandra, or sidecar.yaml. Config.Types has the types,
--   Config.Node parseNodeInfo, Config.Overrides the overrides of a pod, Config.Jvm with its children
--   the JVM options (Merging the merge with a base file, Options the pod over the node, Version the
--   version of a file, Collectors which options name a garbage collector), Config.Gc the tables of garbage collectors, Config.Yaml the YAML documents,
--   Config.Files each file that is written, and Config.Build the run of a builder from its start.
-- * pkg/helmutil (recursiveMerge of release.go, crds.go, parse.go): Helm.Nodes has the YAML nodes and
--   Helm.Values recursiveMerge and nodesEqual, which merge a release's values into those of the
--   chart. Helm.Charts has findCRDDirs and FilterCharts, Helm.Docs parseYamlDocs, and Helm.Crds the
--   loop of Upgrade over the custom resource definitions of a chart.
-- * pkg/scheduler (fit.go): Scheduler.Fit has TryScheduling and createNodeInfos.
--   Scheduler.Trace, Skips and Capacity have the proofs.
-- * pkg/tasks (create.go, cluster.go, createName of tools.go) and RandomKubeCompatibleText of
--   pkg/util/random.go: Tasks.Names has the names, Tasks.Create the tasks of a datacenter, and
--   Tasks.Cluster those of a cluster. Tasks.Compactions is about the compactions of both.
-- * cmd/kubectl-k8ssandra/tools (estimate.go): Scheduler.Estimate has the command over TryScheduling,
--   and Scheduler.Promise what it promises.
-- * pkg/registration (kubeconfig.go, token_to_kubeconfig.go, sanitize_strings.go) and
--   cmd/kubectl-k8ssandra/register (registration.go, command.go): Register.Kubeconfig,
--   Register.Names, Register.Cluster and Register.Retry. Register.Labels, Cleaned and Again are about
--   the names.
-- * pkg/cassdcutil (fetcher.go, manage.go, config.go, secrets.go), WaitForCompletion of pkg/tasks
--   (tools.go) and the commands cmd/kubectl-k8ssandra/operate and nodetool: Datacenter.Fetch,
--   Datacenter.Manage and Datacenter.Auth have the manager, Tasks.Wait the wait for a task, and
--   Datacenter.Operate and Datacenter.Nodetool the commands. Datacenter.Laws, Waiting, Commands and
--   Tls have the proofs.
-- * pkg/ui (prompt.go): Ui.Prompter has the prompts, Ui.Focus which input takes the keys, and Ui.Runs
--   the ends of a run.
-- * pkg/secrets (mount.go), pkg/users (users.go) and cmd/kubectl-k8ssandra/users (add.go):
--   Users.Secrets, Users.Roles and Users.Add, which runs the prompts of Ui.Prompter and finds its
--   pods by Datacenter.Fetch. Users.RoundTrip, Created and Credentials have the proofs.
-- * pkg/helmutil (fetch.go, the rest of release.go and crds.go), pkg/util (fs.go) and
--   cmd/kubectl-k8ssandra/helm (crds.go): Helm.Cache, Helm.Fetch, Helm.Release and Helm.Upgrade.
-- * pkg/kubernetes (client.go, nodes.go) and pkg/mgmtapi (client.go): Kube. Kube.Lock is
--   leaderelection.go: WaitForLock as a step relation of its WaitGroup and its context beside the
--   elector. Kube.Lock.Waits and Lease have the proofs.
-- * pkg/util (exec.go): Datacenter.ExecOptions, which Datacenter.Nodetool runs. Datacenter.Executed
--   is about what is executed in a pod.
-- * cmd/kubectl-k8ssandra/config (builder.go): Config.Command.
-- * cmd/kubectl-k8ssandra (main.go, k8ssandra/k8ssandra.go and the New...Cmd of each command):
--   Cli.Flags has the flags, Cli.Commands the commands, Cli.Groups the tree and main, and Cli.Runs
--   what a command runs with the values of its flags. Cli.Declared, Made, Grown and Reads have the
--   proofs.
-- * internal/envtest (kind.go, envtest.go, multi_envtest.go): Envtest.Kind the manager of a kind
--   cluster, Envtest.Environment the environments over Kube, and Envtest.Multi RunMultiKind, whose
--   goroutines are a list of moves in any order. Envtest.Clients, Stopped, Interleaved, Created and
--   Finished have the proofs.
--
-- A Go function that returns a value and an error is a `Result`, which has a third case for a panic
-- (Common.Results); one that changes files or an API server also returns the state that it leaves,
-- after an error too (Common.Exec). The files are a map from paths to contents whose operations may
-- fail (Common.Disk). A Go map is a list of entries in the order in which `range` meets them
-- (Common.Maps), so a theorem about every list holds for every order. Texts are lists of characters;
-- names that are cut are ASCII.
--
-- Parameters stand for code outside of the repository: the JSON decoder, net.ParseIP, the YAML
-- libraries and the merge of maps, the tables of the definitions parser, the scheduler framework with
-- its plugins, clientcmd, the clients of the API servers, Helm, the text inputs of a terminal, the
-- management API, cobra and pflag, the elector of client-go, kind, the clock and the random numbers.
-- What a theorem asks of them stands among its hypotheses.
--
-- Loops are recursion on a list or a node, or on a number of attempts. There are two fuels: that of a
-- decimal print, which is one more than the number and so more than its digits, and that of
-- Helm.Docs, the loop of parseYamlDocs, which is one more than the bytes that a reader has left, each
-- document taking at least one of them.
--
-- A terminal program is the sequence of the messages that it gets, a poll is what its condition is
-- asked in the end, and the walk of a directory is the list of its visits.
--
-- Not modelled: the help texts of the commands and cobra's parsing of a command line; root_dir.go of
-- internal/envtest, which asks the Go runtime for a path; and
-- cmd/kubectl-k8ssandra/register/errors.go, the type of an error with its text, which is a
-- constructor of the errors of the model.
pub mod Common
pub mod Config
pub mod Helm
pub mod Scheduler
pub mod Tasks
pub mod Register
pub mod Ui
pub mod Datacenter
pub mod Users
pub mod Kube
pub mod Cli
pub mod Envtest
