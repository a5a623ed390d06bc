-- ===== src/Server/State.antt =====
-- The state of the control plane: the database, the maps of negotiate.ts with the timers that it
-- sets, and the connections of relay.ts. Times are milliseconds; `Date.now()` is an argument of
-- each operation, the same throughout one of its calls.
use meshezia.Common.{none, [], ℕ, Text, Bool, Option, List, ◌∷◌, if◌then◌else◌}
use meshezia.Common.Dict.{Dict, has}
use meshezia.Shared.Types.{ForcedMode, RelayControlMessage, negotiate, NegotiateMessage}
use meshezia.Server.Db.{Db}

pub record PairHealth : Type 0 where
  pub streak_ab : ℕ
  pub streak_ba : ℕ
  pub last_direct_probe_at : ℕ
  pub direct_probe_backoff : ℕ
  pub forced_mode : Option ForcedMode
  pub joined_at_a : Option ℕ
  pub joined_at_b : Option ℕ

pub data NegotiationType : Type 0 where
  relay_probe direct_probe : NegotiationType

-- `{ udpPort, nonce }` of a direct-ready message.
pub record Ready : Type 0 where
  pub udp_port : ℕ
  pub nonce : Text

pub record NegotiationState : Type 0 where
  pub type : NegotiationType
  pub pair_key : Text
  pub peer_a : Text
  pub peer_b : Text
  pub started_at : ℕ
  pub timeout_id : Option ℕ
  pub server_node : Option Text
  pub client_node : Option Text
  pub ready_a : Option Ready
  pub ready_b : Option Ready
  pub result_a : Option Bool
  pub result_b : Option Bool

-- The three callbacks that the module hands to `setTimeout`, with the pair key that each captures.
pub data Callback : Type 0 where
  relay_timeout direct_ready_timeout direct_result_timeout : Text → Callback

pub record Timer : Type 0 where
  pub due : ℕ
  pub callback : Callback

-- `activeNegotiations`, and the timers that wait; a timer's id is its number.
pub record Probes : Type 0 where
  pub negotiations : Dict NegotiationState
  pub timers : ℕ → Option Timer
  pub next_timer : ℕ

-- The constants that the environment may set.
pub record Settings : Type 0 where
  pub grace_period_ms : ℕ
  pub direct_probe_backoff_init_ms : ℕ

-- `connections` holds the number of each peer's socket. `outbox` lists what was handed to
-- `ws.sendText`, and `frames` to `ws.sendBinary`, the newest first.
pub record Server : Type 0 where
  pub settings : Settings
  pub db : Db
  pub pair_health : Dict PairHealth
  pub probes : Probes
  pub connections : Dict ℕ
  pub outbox : List (Text × RelayControlMessage)
  pub frames : List (Text × List ℕ)

-- The module state when the program starts: every map is empty.
unfoldable pub initial : Settings → Db → Server
initial settings db = record {
  settings = settings;
  db = db;
  pair_health = [];
  probes = record { negotiations = []; timers = λ i. none; next_timer = 0 };
  connections = [];
  outbox = [];
  frames = [];
}

-- `isPeerConnected` of relay.ts, which `initNegotiator` is given as `isConnected`
unfoldable pub is_peer_connected : Server → Text → Bool
unfolding has
is_peer_connected s peer_id = has s.connections peer_id

-- `sendTextToPeer` of relay.ts, given as `sendText`. The callers do not read its result.
unfoldable pub send_text_to_peer : Server → Text → RelayControlMessage → Server
unfolding is_peer_connected
send_text_to_peer s peer_id message = record s {
  outbox = if is_peer_connected s peer_id then (peer_id, message) ∷ s.outbox else s.outbox;
}

-- `sendMsg` of negotiate.ts
unfoldable pub send_msg : Server → Text → NegotiateMessage → Server
unfolding send_text_to_peer
send_msg s peer_id msg = send_text_to_peer s peer_id (negotiate msg)
