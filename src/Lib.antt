-- ===== src/Lib.antt =====
-- NEXUS: contracts that agents in the roles of a company carry out.
--
-- The program's core is nexus/orchestrator. A contract is a state (state.py) that a LangGraph graph
-- (graph.py) takes from node to node: the CEO issues it, the manager plans it, a worker accepts or
-- refuses it and works, QA judges the work, and the CEO, an AI or a human, approves or refuses the
-- result. Nodes write mail (mail.py), which permissions.py restricts to the chain of command, call
-- the tools of their role (tools/), which ask a language model, and the last one keeps its decision
-- in the approval store (approval.py).
--
-- Prelude holds the shared names, Prelude.Text the methods of Python's `str`, Prelude.Dict the
-- dict; Effects the exceptions and the actions that may raise. Under Orchestrator:
--   Permissions    permissions.py: ROLE_PERMISSIONS, ALLOWED_MAIL_ROUTES and the four checks
--   State          state.py: NexusContractState, the mail records, MAX_RETRIES
--   System         what a node uses besides its state: `World` answers for litellm, the clock,
--                  uuid4, `hash` and `repr`; `System` counts the calls and holds the approval store
--   Mail           mail.py: _PHASE_TO_ROLE, resolve_from_role, send_mail, the formats of the logs
--   Approval       approval.py: ApprovalRequest.approve and reject, ApprovalStore and its table
--   Tools          tools/: Llm is _llm_helper.py, the others are the tools of a role
--   Nodes          nodes/: a module per file; Nodes.Ceo also has approval_ai.py
--   Graph          graph.py and the routing functions of nodes/: `next` has the edges, `execute`
--                  the nodes, `run` the run of the compiled graph
-- Gateway.RateLimiter is the in-memory window of gateway/rate_limiter.py, which limits the requests
-- of a client of the HTTP gateway when Redis is away: is_allowed and cleanup, with the clock's
-- reading as an argument. RedisSlidingWindow and the middleware are not modelled.
-- Gateway.ApprovalWebhook is the handler of gateway/approval_webhook.py, which takes a human's
-- decision from a Telegram bot to the approval store; `telegram_webhook` is the handler on a state
-- of the store, the rejections that wait for a note and the runs that were resumed.
-- Gateway.ContractRoutes is gateway/orchestrator_routes.py, the HTTP routes of the contracts: the
-- contract's creation, its run in the background (`run_graph_sync`, with `Stream` for the steps that
-- the graph reports), the list, the query and the cancellation.
-- Gateway.AgentRouter is gateway/agent_router.py, which picks the agent of a task from the parsed
-- registry of agents, and Gateway.SkillRegistry has the queries of gateway/skill_registry.py on the
-- skills that were loaded.
-- Heartbeat is heartbeat: Monitor is monitor.py on what its probes bring, Alerts is alerts.py,
-- Recovery is recovery.py with the deletions in Recovery.Cleanup, and Service is the loop of
-- service.py. `Pulse` is what they keep and what they did, `Beat` the settings and the answers of
-- the clock, of systemctl and of the file system.
-- Equipment is equipment/manager.py, the registry of scripts and the jobs of its scheduler; what yaml
-- reads of a file and leaves in it are arguments.
-- NexusV1 is nexus_v1: Config is config.py, ModelRouter is model_router.py, Admin is admin.py, which
-- makes a work order of a request (Signals and Compress have the words it looks for and the context
-- it keeps). Agents.Execution is agents/execution: executor.py, and under it Escalation for
-- escalation.py and Pipeline for pipeline.py, which puts the admin agent and the escalation together.
-- The agents act on `Calls`, which counts the questions asked, and `Env` answers for litellm, the
-- environment variables, the clock, the pattern of file names, json.loads and str() of an exception.
-- The other modules under these prove properties; Effects.Ensures, Effects.Yields and Effects.Spends
-- have the rules for what an action's result satisfies if it returns, that it returns and what the
-- result satisfies then, and how much it adds to a count. `Graph.Frames` says what each node does to
-- the state, `Graph.Posts` what it does to the logs of the mail, and `Graph.Induction` is the
-- induction over the steps of a run. Samples and Tests have the inputs and the concrete runs.
--
-- A node of the program returns the keys it changes, and LangGraph merges them; here a node returns
-- the whole new state, and the two mail logs are appended to, as their reducers say. A run starts
-- at a node, so a resumed run is a run from the node that it waits in front of, with the human's
-- answer for that node. `limit` is LangGraph's recursion limit, which the caller sets; it is the
-- only fuel, and `Graph.Termination.bound` counts the steps that may still come from a node on,
-- which is how large it has to be. A label that a path map lacks is a KeyError. A node whose
-- `interrupt` has no answer raises; when it is resumed it runs again from its first line.
--
-- Each read of the clock or of a random id asks `World` anew. An action may ask for the time a few
-- lines before the code does. Numbers are unbounded, as Python's are. Times are in microseconds,
-- temperatures in hundredths.
--
-- Not modelled: logging; the text of PermissionError; the messages to Telegram but the answer to a
-- click; errors of the database other than an id that is taken; checkpoint.py, which picks a saver
-- of a library; demo.py; the semaphore that lets only some contracts run at a time, which is
-- asyncio's; the file of the skills; the answers of the routes as JSON; the recovery's count of
-- attempts in Redis, which the service does not set up. The rest of gateway, and the packages
-- pipeline, agentoffice, qa, tools, db, dashboard and interfaces are not part of this library.
pub mod Agents
pub mod Effects
pub mod Equipment
pub mod Gateway
pub mod Heartbeat
pub mod NexusV1
pub mod Orchestrator
pub mod Prelude
