-- ===== src/Lib.antt =====
-- Verification of the core of the ThinkLocal daemon, packages/daemon/src: a mesh of local nodes that
-- offer skills to each other. A message arrives signed, passes the replay cache and the rate limiter,
-- and asks for a skill; approval rules, human decisions and activated capabilities say whether it may
-- run; queue, task manager, circuit breaker and execution store carry it out; tokens bring new nodes
-- in, and versions say whether two nodes understand each other. Nodes share their MCP servers: a call
-- of a shared server enters through the ingress, which finds who serves it, derives how dangerous the
-- tool is, asks an operator's channel if need be, and runs the call here or forwards it.
--
-- The parts:
--   Ledger      order-ledger-protocol.ts: nextLedgerState, mayDispatch, isFinal; one order row.
--   Breaker     circuit-breaker.ts: CircuitBreaker. Circuit treats one circuit, Frame many skills.
--   Replay      replay.ts: ReplayGuard; the lifetime test of messages.ts (decodeAndVerify) and the end
--               of the message handler of agent-card.ts, which calls both.
--   Semver      semver.ts: parseSemVer, compareSemVer, satisfiesRange and the others.
--   Version     version-compat.ts: checkCompatibility, isFeatureAvailable, on top of Semver.
--   Queue       task-queue.ts: TaskQueue. A call of the executor that is awaited is an element of
--               `in_flight`; `settle` resumes one, in any order.
--   Tokens      token-store.ts: TokenStore.
--   Tasks       tasks.ts: TaskManager.
--   Execution   execution-state.ts: ExecutionStateStore. `stale` is the write of a transition that read
--               the row earlier, as when two processes share the database.
--   Approvals   approvals.ts: ApprovalService; approval-gates.ts: ApprovalGates, whose
--               patterns are in Patterns.
--   Capability  capability-activation.ts: CapabilityActivationStore.
--   RateLimit   ratelimit.ts: RateLimiter.
--   Matrix      freigabe-matrix.ts: parseFreigabeMatrix, resolveEntry, isRoutable. Routing is what a parsed
--               matrix holds, Resolution which calls it routes, Specific which entry decides.
--   Tiers       mcp-service-registry.ts, first half: deriveExecutionTier, deriveToolTierForServer and
--               classifyGateReason; Words holds its word lists. Permissions is about the tier of a
--               capability, by what Asking says of each permission; Allowlist about that of a tool call.
--   Services    mcp-service-registry.ts, second half: buildMcpCapability, resolveMcp; mcp-routing.ts:
--               planMcpRoute.
--   Forward     mcp-forward.ts: buildMcpForwardSpec; mcp-forward-dispatch.ts.
--   Channels    meldekanal.ts: MeldekanalRegistry, normalizeDecision; approval-router.ts:
--               requestApprovalViaMatrix, on top of Matrix.
--   Ingress     mcp-ingress.ts: handleMcpIngress, on top of Tiers, Services, Forward and Channels.
--   SkillDeps   skill-deps.ts: checkDependencies, on top of Semver, and resolveInstallOrder.
--   Spiffe      spiffe-uri.ts: parseSpiffeUri, normalizeAgentId, buildInstanceUri.
--   Agents      agent-registry.ts: AgentRegistry.
--   PeerSelection  peer-selection.ts: pickLeastLoaded, chooseTargetAgent.
--   TaskChain   task-chain.ts: executeChain.
--   SkillLifecycle  skill-lifecycle.ts: SkillLifecycleManager.
--   Base        shared helpers: Boolean tests, lists, texts, and Dict for JavaScript's Map.
--
-- Conventions. The state of a class is a record, a table of SQLite a map from its primary key or a list
-- of rows in the order of insertion; a method takes the state and returns it with its result. Names are
-- the source's in snake case. Clock, random ids and random bytes are arguments, times are natural
-- numbers of milliseconds. A thrown error is a value. Timers are the callers of the periodic methods,
-- and a history is a list of calls in any order. JSON that is only handed on is a text. Texts
-- of notes and errors are shortened or are their reason. Every function is by structural recursion but
-- `visit` of SkillDeps: its fuel is one more than the number of keys of the map, and since every skill on
-- the stack of the search but the last is a key, and none stands on it twice, it is never used up.
--
-- Parameters: the hash of a token (`hash`, SHA-256 of the runtime), and how an identifier of a version
-- reads as a number (`number`: none for NaN, else the place of the double in the order of the doubles);
-- `toLowerCase`, the URL parser and `encodeURIComponent` of the runtime; the peer list, the approval
-- resolver, the channels and the executor of a chain. No hypothesis is made on any of them.
--
-- Not modelled: logging, audit callbacks, JSON and CBOR codecs, certificates and keys, libp2p and HTTP,
-- the Automerge registry, configuration files, the command line and the user interfaces. Counters
-- and times are natural numbers; they stay far below 2^53. The rate limiter counts tokens exactly, in
-- thousandths and at whole rates, where the source adds doubles that round.
pub mod Base
pub mod Ledger
pub mod Breaker
pub mod Replay
pub mod Semver
pub mod Version
pub mod Queue
pub mod Tokens
pub mod Tasks
pub mod Execution
pub mod Approvals
pub mod Capability
pub mod RateLimit
pub mod Matrix
pub mod Tiers
pub mod Services
pub mod Forward
pub mod Channels
pub mod Ingress
pub mod SkillDeps
pub mod Spiffe
pub mod Agents
pub mod PeerSelection
pub mod TaskChain
pub mod SkillLifecycle
