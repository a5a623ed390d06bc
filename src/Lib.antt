-- ===== src/Lib.antt =====
-- meshezia: a control server for AmneziaWG mesh networks and its agents.
--
-- The server (packages/server/src) keeps networks, peers and links in SQLite, relays binary frames
-- between agents over WebSockets, and negotiates for every pair of peers whether its tunnel goes
-- direct or over the relay: health reports feed streaks, streaks start TCP probes of the mesh, a
-- sweep starts UDP probes of the direct path, and the results become verdicts. A reaper deletes
-- peers that were not seen for their TTL. Agents register through a REST API, poll it for their
-- configuration, set up one tunnel for each peer and a local relay socket beside it.
--
-- Files and what they model:
--   Common       strings as lists of UTF-16 code units, JavaScript's Map as an association list,
--                Boolean tests and list lemmas.
--   Shared       packages/shared/src: types.ts (Shared/Types for messages, Shared/Entities for what the
--                REST API and the agents exchange), protocol.ts (Shared/Protocol).
--   Server/Db    packages/server/src/db.ts: the tables, with the deletions that cascade.
--   Server/State the module state of negotiate.ts and relay.ts as one record: the health of pairs, the
--                negotiations, the timers that wait, the connections and what was sent.
--   Server/Negotiate
--                packages/server/src/negotiate.ts: Keys (pairKey, parsePairKey), Timers (setTimeout,
--                clearTimeout and the map of negotiations), Lifecycle (health, finishNegotiation,
--                abortNegotiation, abortPeerNegotiations, cleanupPeerHealth), RelayProbe, DirectProbe,
--                Health (handleHealthReport and the guards of a probe), Force (handleForceMode), Router
--                (handleNegotiateMessage, the sweep and the timer callbacks); the other children hold
--                proofs.
--   Server/Relay, Server/Reaper
--                packages/server/src/relay.ts and reaper.ts.
--   Server/Subnet
--                packages/server/src/subnet.ts: the next free address of a network, from the octets and the
--                prefix of its CIDR on.
--   Server/Api   packages/server/src/api.ts: Values (what JSON and the platform give), Validate (the tests
--                of fields), Reply (formatters, tokens and responses), Tables (the statements that write),
--                Networks, Peers, Ports and Links (the handlers), Routes (createApi as one function of a
--                request); the other children hold proofs. A handler takes the server and gives the
--                response and the server after it.
--   Server/RateLimit, Server/Upgrade
--                the fixed window and the upgrade of WebSockets of packages/server/src/index.ts.
--   Server/Steps the whole as a step relation: sockets open, send and close, timers go off at or after
--                the time that they are due, the intervals run, an administrator forces a mode, and a
--                request may leave any database at all. Reach is its closure; the invariants are by
--                induction on it.
--   Agent/Monitor
--                packages/agent/src/monitor.ts, with ifIndex and getTableForIf of awg.ts: the states of
--                peers and their freezing; Steps is the monitor as a step relation, in which the two parts
--                of a tick, before and after it waits, are two steps.
--   Agent/Reconciler
--                packages/agent/src/reconciler.ts: interfaces and ports of peers. The search for an index
--                runs on as much fuel as there are mapped peers, since every round but the last passes a used
--                index; the search for a port has the 1000 tries of the code.
--   Agent/Negotiate
--                packages/agent/src/negotiate.ts: the handlers, up to what they wait for; Events has what
--                goes on after that, datagrams, the probe server's answers and the reset, and the whole as a
--                step relation.
--   Agent/RelayProxy, Agent/Poll
--                packages/agent/src/relay-proxy.ts, and poll of index.ts from the configuration on.
--   Agent/Stats  getAllPeerStats of packages/agent/src/awg.ts.
--   System       the server and two agents: a datagram over the relay (Relayed), the credentials of a relay
--                probe (Probed).
--
-- Conventions. `Date.now()` is an argument of each operation and does not change within one call. A
-- timer is a number that stands for its callback; the health object that a callback captures is the
-- entry of the map under the pair's key. Messages are values, where the program sends their JSON.
-- A socket accepts what it is given. Loops are structural recursion.
-- TextEncoder and TextDecoder are the parameter Utf8; what a theorem needs of them is IsWireId, that
-- an id encodes to 36 bytes and decodes to itself. Whether SQLite commits the reaper's transaction is
-- an argument.
--
-- A request is one function of the server; the draws of random ids, tokens and parameters, Number,
-- trim, String and new URL are arguments. An asynchronous handler of the agent is cut at its await,
-- and what waits may go on in any order. The platform gives no handle twice at a time, and refuses a
-- port that is held where a theorem says so.
--
-- Not modelled: generateToken and generateAwgParams, the static files of packages/server/src/index.ts,
-- the commands that set up interfaces, the start-up of the agent, its HTTP client, subprocesses and
-- observer, the Vue frontend, and what is logged. These are input and output, or calls of other
-- programs.
pub mod Agent
pub mod Common
pub mod Server
pub mod Shared
pub mod System
