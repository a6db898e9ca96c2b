-- ===== src/Lib.antt =====
-- A model of cilium-cli: how `cilium connectivity test` runs its tests and decides whether an action
-- did what its test expects, how an installation finds its parameters, and how files are copied.
--
-- The program's parts, and the files that model them:
--   * Flow: the flow events that Hubble reports (the messages of vendor/github.com/cilium/cilium/
--     api/v1/flow/flow.pb.go), as far as the filters read them. A nil message is the one whose fields
--     are zero.
--   * Filters (connectivity/filters/filters.go): `Filter` has a constructor for each struct behind
--     FlowFilterImplementation and `match` is its Match, which threads the FlowContext. The children
--     hold the context, the matches on one packet, the functions that build filters, and the proofs;
--     Meaning says what a filter stands for as a condition on a flow's fields.
--   * Matching (matchFlowRequirements in connectivity/check/action.go, flowsSet.Contains in
--     connectivity/check/check.go): one requirement set against the flows. `attempt` is the closure
--     `match`, `run_round` one pass of the loop, `rounds` the loop.
--   * Validation (matchAllFlowRequirements, validateFlowsForPeer and ValidateFlows in
--     connectivity/check/action.go, Merge in connectivity/check/check.go): the sets of a peer are
--     matched at every tick until they are met or the context ends. The `select` is a list of the
--     events that it receives.
--   * Expectations (connectivity/check/policy.go, expectedExitCode in connectivity/check/action.go):
--     the results that a test expects, the drop reasons, and the judgement of an exit code.
--   * Requirements (GetEgressRequirements and GetIngressRequirements in connectivity/check/action.go):
--     the requirement sets that an action's expectations come to, which Matching then matches.
--   * Execution (ExecInPod and extractExitCode in connectivity/check/action.go): the command of an
--     action, its attempts, and how its outcome is judged by Expectations.
--   * Policies (connectivity/check/policy.go): Registry is addCNPs, addKNPs and addCEGPs; Cluster the
--     creation, update and deletion of one policy; Revisions the agents' policy revisions; Apply
--     applyPolicies and deletePolicies; the other children hold the proofs.
--   * Runner (connectivity/check/test.go, context.go, testEnabled in check.go): Suite's `run_suite` is Run of the
--     suite, Testing's `run_test` Run of a test. Scenarios, the setup's steps and finalizers change an abstract
--     world, which also tells whether the context is cancelled; Execution and Policies are among what
--     they do. `exited` is a goroutine that Fatal ends, after which the finalizers still run. Passing
--     says what a suite that passes has run; Success and Complete prove that success means just that.
--     Junit is the suite that writeJunit makes.
--   * Logging (connectivity/check/logging.go): the buffer of a test and what reaches the suite's writer,
--     in pieces of text; a call carries the time as it would be printed.
--   * Features (connectivity/check/features.go, WithFeatureRequirements in test.go): the requirements,
--     which Runner tests, and their detection (Detect the sources, Detection the loop over the pods).
--   * Copy (k8s/pipe.go, k8s/copy.go): Read of the pipe that resumes, and the loop of io.Copy over what
--     its reads meet; the stream is what the running command has still to write to its output.
--   * Deployments (connectivity/check/deployment.go, CheckDeploymentStatus in k8s/client.go): `deploy`,
--     which creates what is missing through either client, deploymentList, and the wait for it. Without
--     several clusters both clients reach the same one. Kept and Made follow the deployments that
--     `deploy` makes, Listed compares them with the list, Waiting is the wait.
--   * Install (install/autodetect.go, install/azure.go): an operation of the installer is an `Act` on its
--     parameters. Autodetect is autodetectAndValidate and what it calls, Azure what is asked of `az`.
--   * Install, its later children (install/install.go, rbac.go, node_init.go, certs.go, encryption.go):
--     Objects is the Kubernetes API as the installer uses it (an object that is being deleted counts as
--     gone), Manifests the objects that the rendered
--     chart describes, Steps the installer's state with its rollback steps, Cluster, Requests and
--     Installation are Install, request for request, and `install_command` is the command, which
--     rolls back where Install fails. A step is data: it deletes an object, or what the variable of a
--     loop holds. Traced to Covered follow one object through the installation, Restored through the
--     rollback.
--   * Status (status/status.go, status/k8s.go): the errors and warnings of each deployment's pods,
--     Collect what is read of the cluster, Tasks the tasks of `status`, whose sections run in the order
--     of a schedule, Ready the readiness and the loop that waits for it. The other children count the errors.
--   * Prelude: shared names, Boolean tests, maps as association lists, Go's int, and what code comes
--     to (`Run`, with panics, and `Act`, with a service's state and errors).
--   * Tests: sample inputs and runs.
--
-- Bounds and fuel: `rounds` counts its rounds. It is given one more than there are flows and a first
-- one, and never runs out, since each further round starts after the first flow that the last one
-- found. Ports and codes are 32-bit numbers, and a UDP filter's Go int is cut to 32 bits where it is
-- compared. Indices and failure counts are integers that do not overflow, as there is one for a flow
-- or a requirement.
--
-- Not modelled: the printing of flows and filters, except that the printing of a nil filter panics;
-- the reception of the flows (followFlows, waitForRelay), so the flows of a tick are an input;
-- locks and the interleaving of goroutines, except in Status; in Execution and Validation the mark of the test, which
-- is set wherever that of its action is. Go's library and regular expressions, the Kubernetes API,
-- `az` and the agents' command line are parameters (GoLibrary, CommandLibrary, Cluster,
-- DetectLibrary, Environment, Surroundings, Api, Chart, Setup, Client). Where Go ranges over a map, the order is that of the
-- list. What is done for a failed test's Cilium logs is a change of the world, without a Fatal inside
-- it. A scenario that panics ends the program and has no end in the model. The scenarios
-- themselves, the contents of what the tests deploy, the writing of the JUnit file, the detection of the kind
-- of cluster, the contents of the objects that are installed, the installation with Helm, the text of
-- the status, and the other commands (clustermesh, hubble, sysdump) are outside the model.
pub mod Prelude
pub mod Flow
pub mod Filters
pub mod Matching
pub mod Validation
pub mod Expectations
pub mod Requirements
pub mod Execution
pub mod Policies
pub mod Copy
pub mod Deployments
pub mod Features
pub mod Runner
pub mod Status
pub mod Install
pub mod Logging
mod Tests
