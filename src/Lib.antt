-- ===== src/Lib.antt =====
-- A model of the Zelyo operator (Go), a Kubernetes operator that scans workloads and cloud accounts,
-- correlates the findings into incidents, and drafts fixes as pull requests.
--
-- The parts, and how they meet:
-- * Llm models internal/llm. Llm.Breaker is circuit_breaker.go (allowRequest, recordResult,
--   Complete), Llm.Fallback fallback.go, Llm.Budget budget.go, Llm.Construct the constructors of
--   client.go, and Llm.Retry the client of provider.go (executeWithRetry, doRequest from the reply on,
--   parseRetryAfter), over a parameter for the transport. A client is a function over the state of the
--   world, so that a breaker wraps any client and a fallback wraps a breaker. Concurrent calls are
--   sequences of steps under the lock.
-- * Correlator models internal/correlator/engine.go: Ingest, ResolveIncident, GetOpenIncidents and
--   their helpers, over a record of the engine's fields.
-- * Remediation models internal/remediation/engine.go and the names of internal/gitops/engine.go.
--   Remediation.Paths and Remediation.Json are the checks and the parsing of what an LLM answers,
--   Remediation.Fixes builds a plan of it, Remediation.Branch names the pull request, and
--   Remediation.Apply is the Engine with its registry, GeneratePlan and ApplyPlan.
-- * RemediationPolicy models internal/controller/remediationpolicy_controller.go: parseRepoURL, the
--   scope and the finding of an incident, and in RemediationPolicy.Cycle remediateIncident and
--   processIncidents, which take open incidents from the Correlator, ask the Remediation engine for
--   a plan, submit it, and resolve the incident. Cycle.Ways lists the ways that remediateIncident can
--   go, and Cycle.Induction lifts what each way keeps to the cycle; the other children use these two.
--   RemediationPolicy.Reconcile is the controller around the cycle: it reads the repository and the
--   target policies, runs the cycle, and writes the status.
-- * GitHub models internal/github/engine.go, the GitOps engine that Remediation.Apply calls:
--   GitHub.Paths is safeRepoPath, GitHub.Engine is CreatePullRequest and ListOpenPRs over a record of
--   the HTTP requests they make, with `url.PathEscape` a parameter.
-- * Events models internal/events/events.go, the bus with its bounded buffer and its subscribers, and
--   in Events.Remediations internal/events/remediations.go, the store of the proposed remediations,
--   its slice of keys and its map being two fields; its List is left out.
-- * Notifier models internal/notifier/notifier.go: Send with deduplication and rate limits, over a
--   parameter for the HTTP post to a channel. Notifier.Fresh is about a notifier that has sent nothing.
-- * Scanner models internal/scanner: Scanner.Pod holds the fields of a pod that a scanner reads, the
--   children of Scanner one scanner each, and Scanner.Registry the registry that serves
--   them by rule type.
-- * SecurityPolicy models internal/controller/securitypolicy_controller.go: Scan runs the registry's
--   scanners over the pods and sorts what they report, Targets selects the pods, Ingest hands
--   findings to the Correlator, Notify hands them to the Notifier, and Reconcile composes these as
--   the controller does.
-- * ClusterScan models internal/controller/clusterscan_controller.go: Execute runs the registry's
--   scanners, counts what they find and evaluates Compliance, Targets resolves the pods, History
--   deletes the reports of a scan, Names holds its names and intervals, and Reconcile composes these.
--   What the API answers in a run is a parameter, and the run is the list of its writes. Phases
--   compares the phases that the two controllers write with those that api/v1alpha1 accepts.
-- * Webhook models internal/webhook/v1alpha1/securitypolicy_webhook.go, validate and Default: what the
--   API server asks before a policy reaches the controller.
-- * Compliance models internal/compliance/framework.go: the controls of the frameworks and the
--   evaluation of a scanner's findings against them.
-- * Drift models internal/drift: diffObjects, which compares a live object with its manifest in Git, and
--   compareResource, with the Git file and the parser as parameters.
-- * Conditions models internal/conditions/conditions.go, the conditions that controllers write into
--   a status.
--
-- What belongs to Kubernetes is a parameter: the pods that a client lists, the match of a label
-- selector, the delivery of a message and the clock, whose readings an operation takes.
--
-- Representation. A string is a list of bytes. A time or duration is a number of nanoseconds, 0 for
-- the zero time; an operation is given the time at which it runs. An `int` that the code only
-- counts with is a natural number, and an int32 its bit pattern. A map is a list, and sort.Slice an
-- insertion sort. Each loop walks a list, or counts up to a constant of the code or of its
-- configuration; only decimal printing runs on fuel, 20 digits, which a number of 64 bits does not
-- exceed.
--
-- Not modelled: the body and headers of HTTP requests, logging, metrics, the recorder's events of
-- the remediation policy controller and most of those of the cluster scan controller, Kubernetes
-- clients and the dashboard's pages and presets, which have little logic of their own or belong to
-- libraries; the wording of prompts and of the text of a pull request, which people or the LLM
-- read; the cloud scanners, checks over AWS clients, with their controller, and the supply chain,
-- threat, cost and monitoring scanners, which read other services; the sources, the discovery and
-- the adapters of internal/gitops, which run git and Helm; the controllers of the configuration
-- resources; and the anomaly detector, which computes with floating-point numbers.
pub mod Prelude
pub mod Llm
pub mod Correlator
pub mod Remediation
pub mod RemediationPolicy
pub mod GitHub
pub mod Events
pub mod Notifier
pub mod Conditions
pub mod Scanner
pub mod SecurityPolicy
pub mod ClusterScan
pub mod Compliance
pub mod Drift
pub mod Webhook
