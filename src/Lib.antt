-- ===== src/Lib.antt =====
-- A model of the investigation platform's core: what it records as evidence and on what grounds it
-- writes findings, how it plans and runs an investigation and how many at once, how it routes a prompt
-- to a language model, how it detects attacks in logs, how it scores the risk, how it limits the rate
-- of requests, how it fetches from the network and takes in files, and how it builds the graph of
-- entities and searches it.
--
-- An investigation that is started waits for a slot of the runner. Then it is planned by a planner,
-- run task by task by the orchestrator, and each agent of a task writes through the evidence store:
-- drafts from tools become evidence rows, and findings and hypotheses that cite them are written only
-- if they are grounded. At the end the findings are rolled up into a risk assessment. Evidence comes
-- from artifacts, which are fetched or uploaded and then stored under their digest, and the correlation
-- agent reads the evidence to write the graph. Paths below are from the repository's root.
--
-- Files and the code they are about:
--   Prelude, Prelude/*    lists, sorting, texts, results and tests that the parts share
--   Types                 src/acip/types.py, a data type for each enumeration
--   Evidence/Contracts    src/acip/core/evidence/contracts.py: drafts, normalisation, content_hash
--   Evidence/Rows         src/acip/db/models.py: the rows; a Session is the tables, and `drawn` counts
--                         the ids that are given out
--   Evidence/Store        src/acip/core/evidence/store.py: add_evidence and count_evidence
--   Evidence/Findings     the rest of its writing half: add_finding with the grounding gate,
--                         add_hypothesis, add_hypothesis_gap, record_model_execution
--   Evidence/Paging       src/acip/core/pagination.py and the store's reading half: list_evidence,
--                         all_evidence
--   Evidence/Grounding, Evidence/Dedupe, Evidence/Writes, Evidence/History, Evidence/Paging/*
--                         the theorems about them, and Evidence/Examples their runs on small tables
--   Risk                  src/acip/core/risk.py: weights and bands; Risk/Assess its assess and
--                         assess_with_model_opinion; Risk/Bounds, Risk/Bands and Risk/Examples the
--                         theorems and runs
--   Orchestration/Registry  src/acip/agents/registry.py and the tasks and plans of planner.py
--   Orchestration/Planner   src/acip/core/orchestration/planner.py and adaptive_planner.py
--   Orchestration/Runs      src/acip/core/orchestration/orchestrator.py: _run_task, _skip, _open_run,
--                           _close_run
--   Orchestration/Execute   the same file: interpret_triage_result, _fallback_tasks, _derive_status;
--                           Orchestration/Execute/Turns its execute, _begin and _finish
--   Orchestration/Runner    src/acip/core/orchestration/runner.py, and start, retry, cancel and
--                           delete of src/acip/api/routers/investigations.py: slots, tasks and rows;
--                           Laws and Tracked what agrees between them, Reachable the step relation write
--                           by write, Settles how tasks come to an end, Halted and Ends cancellation and
--                           restart
--   Orchestration/*/Laws, Orchestration/Execute/Trail, Orchestration/Examples
--                           their theorems and runs
--   Llm/Contracts, Llm/Policy  src/acip/core/llm/contracts.py, errors.py and policy.py
--   Llm/Router            src/acip/core/llm/router.py: _execute_candidate; Llm/Router/Complete its
--                         complete and _record_trace; Fallback, Calls and Accounting the theorems
--   Llm/Replay            src/acip/core/llm/providers/replay.py, the provider of Llm/Examples
--   Detection/Window      the sliding window of src/acip/core/detection/auth_rules.py, Longest its theorem
--   Detection/AuthEvents, Detection/AuthRules
--                         src/acip/core/detection/auth_rules.py: events and bursts, and the rules
--   Detection/WebRules    src/acip/core/detection/web_rules.py; Detection/Examples the runs of both
--   Security/RateLimit    src/acip/core/security/ratelimit.py: check, reset; Security/RateLimit/Window
--                         and Security/Examples its theorems and runs
--   Tools/Runner          src/acip/tools/runner.py, base.py and registry.py: _check_containment and
--                         _finalize; Tools/Runner/Run its run; Audit and Provenance the theorems
--   Security/Ssrf         src/acip/core/security/ssrf.py: is_ip_forbidden; Security/Ssrf/Urls its
--                         validate_url_ssrf_safe, Security/Ssrf/Fetch its SafeHTTPFetcher;
--                         Security/Ssrf/Ranges, Security/Ssrf/Resolve and Security/Ssrf/Fetch/Hops the
--                         theorems
--   Security/Files        src/acip/core/security/files.py: sanitize_filename; Security/Files/Kinds its
--                         detect_artifact_kind and Security/Files/Intake its store_stream;
--                         Security/Files/Names and Security/Files/Intake/Outcome the theorems
--   Agents/Validation     src/acip/agents/validation.py; Agents/Validation/Returns its theorem
--   Agents/Correlation    src/acip/agents/correlation.py: the references of a row of evidence;
--                         Agents/Correlation/Links the edges that are derived from it,
--                         Agents/Correlation/Upserts the tables that are written, Agents/Correlation/Run
--                         the agent; Links/Joined, Upserts/Known, Upserts/Again and
--                         Upserts/Closure the theorems
--   Graph                 src/acip/core/graph/traversal.py: neighbours; Graph/Paths its paths_between and
--                         Graph/Queries its get_full_graph and subgraph_for_finding; Graph/Scan,
--                         Graph/Bounds, Graph/Paths/Routes, Graph/Paths/Weights, Graph/Paths/Search and
--                         Graph/Examples the theorems and runs
--
-- Tables are lists of rows, and a method of the store takes the store and returns it. A method that
-- raises returns an error and no store, since the source raises before it adds a row. Ids and times
-- are numbers. SHA-256, JSON, base64, ipaddress and urlsplit are parameters (Platform, Codec), and so are
-- the resolver and the HTTP client (Net), and of an intake UTF-8, NFKD and paths (Files); of the cursor codec the paging theorems assume that a decoded token gives back the encoded cells and that
-- a printed number or time is read back. Floats are a parameter (FloatOps) of which nothing is
-- assumed. The agents and the clock are parameters of the orchestrator: an agent returns a result and
-- what it wrote, runs out of its time, or raises. A provider of a language model is a function from a
-- request and the state of the world, and so is the execution of a tool; a schema is the text that asks
-- for it and its validation. The runner's step relation has the writes of a request
-- and of a task one by one, so that others come between; Settles, Halted and Ends take the end of a task
-- and a cancellation with nothing in between. The clock of the rate limiter is an argument of each check,
-- and that the checks come in its order is a hypothesis. A commit may fail behind an agent's run; the other
-- commits are taken to succeed.
--
-- Fuel: all_evidence reads at most cap + 1 pages, as each page but the last adds a row. The loop of
-- execute has fuel for the larger of 1 and the task limit, as every turn adds an outcome and no plan
-- is longer than that. The search of neighbours has fuel for its cap and two rounds more, as each edge
-- that it collects queues at most one entity. paths_between has fuel for the walks of at most its depth
-- bound in edges, each of which is queued once at most. The fetcher has a round more than the redirects
-- it may follow, and the last round never leads on. The inner loop of the sliding window has fuel for the
-- index of its end and one more, as it never passes that index.
--
-- Not modelled: texts for a reader (rationales, logs, audit entries), the field limits that pydantic
-- checks, the call of the intake in _begin, the timeline query of the graph, the prose of a detection
-- hit, time limits of a connection, and the parts of the repository that no file above names: the rest of
-- the API, the other agents, the parsers of the tools, URL rules, model providers, the checks of targets
-- and roles, passwords and tokens, migrations, command line, experiments and front end.
pub mod Prelude
pub mod Types
pub mod Evidence
pub mod Risk
pub mod Security
pub mod Orchestration
pub mod Llm
pub mod Detection
pub mod Tools
pub mod Agents
pub mod Graph
