-- ===== src/Server/Api/Reply.antt =====
-- "Formatters" and "Auth helpers" of packages/server/src/api.ts, and the responses.
use Prim.Native.String.{String}
use meshezia.Common.{
  ℕ, Text, codes, text_eq, Bool, false, ◌&&◌, ◌||◌, not, Option, none, some, List, [], ◌∷◌, take,
  drop, find, is_some, ◌==◌, if◌then◌else◌,
}
use meshezia.Shared.Entities.{AwgParams, Network, Peer, PeerLink, PeerConfig}
use meshezia.Server.Db.{NetworkRow, PeerRow, LinkRow, Db}
use meshezia.Server.State.{Server}

-- `!!n` of a flag column.
abbrev pub flag : ℕ → Bool
flag n = not (n == 0)

abbrev pub awg_of : NetworkRow → AwgParams
awg_of row = record {
  jc = row.jc;
  jmin = row.jmin;
  jmax = row.jmax;
  s1 = row.s1;
  s2 = row.s2;
  h1 = row.h1;
  h2 = row.h2;
  h3 = row.h3;
  h4 = row.h4;
}

abbrev pub format_network : NetworkRow → Network
format_network row = record {
  id = row.id;
  name = row.name;
  subnet = row.subnet;
  listen_port = row.listen_port;
  relay_enabled = flag row.relay_enabled;
  awg = awg_of row;
}

abbrev pub format_link : (from_name to_name : Text) → LinkRow → PeerLink
format_link from_name to_name row = record {
  from_peer_id = row.from_peer_id;
  from_name = from_name;
  to_peer_id = row.to_peer_id;
  to_name = to_name;
  mode = row.mode;
  direct_alive = flag row.direct_alive;
  relay_alive = flag row.relay_alive;
  probing_direct = flag row.probing_direct;
  rx_bytes = row.rx_bytes;
  tx_bytes = row.tx_bytes;
  last_handshake = row.last_handshake;
  endpoint = row.endpoint;
  if_name = row.if_name;
  routing_table = row.routing_table;
  updated_at = row.updated_at;
}

abbrev pub format_peer : PeerRow → Peer
format_peer row = record {
  id = row.id;
  network_id = row.network_id;
  name = row.name;
  public_ipv4 = row.public_ip;
  pubkey = row.pubkey;
  mesh_ipv4 = row.ipv4;
  last_seen = row.last_seen;
  is_relay_eligible = flag row.is_relay_eligible;
  ttl_seconds = row.ttl_seconds;
  memo = row.memo;
  agent_version = row.agent_version;
}

pub data Payload : Type 0 where
  error : String → Payload
  ok : Payload
  token : Text → Payload
  network : Network → Payload
  network_with_token : Network → (token : Text) → Payload
  networks : List Network → Payload
  peer : Peer → Payload
  peers : List Peer → Payload
  config : PeerConfig → Payload
  links : List PeerLink → Payload

pub record Response : Type 0 where
  pub status : ℕ
  pub payload : Payload

-- What a handler leaves: its response, and the server.
abbrev pub Reply : Type 0
Reply = Response × Server

abbrev pub fail : ℕ → String → Server → Reply
fail status message s = (record { status = status; payload = error message }, s)

abbrev pub succeed : Payload → Server → Reply
succeed payload s = (record { status = 200; payload = payload }, s)

abbrev pub created : Payload → Server → Reply
created payload s = (record { status = 201; payload = payload }, s)

-- An error that no handler catches, which the framework answers.
abbrev pub uncaught : Server → Reply
uncaught s = fail 500 "Internal Server Error" s

-- The token that the server was started with, and the header `Authorization` of the request.
pub record Caller : Type 0 where
  pub admin_token : Text
  pub authorization : Option Text

-- `auth.slice(7)` behind 'Bearer '.
unfoldable pub get_bearer : Caller → Option Text
get_bearer c = elim c.authorization [
  | none ↦ none
  | some auth ↦ if text_eq (take 7 auth) (codes "Bearer ") then some (drop 7 auth) else none
]

abbrev pub is_the : Text → Option Text → Bool
is_the t none = false
is_the t (some u) = text_eq u t

unfoldable pub is_admin : Caller → Bool
is_admin c = is_the c.admin_token (get_bearer c)

-- SELECT id FROM networks WHERE id = ? AND token = ?, for a token that is not empty
unfoldable pub is_network_token : Caller → Text → Db → Bool
is_network_token c network_id db = elim (get_bearer c) [
  | none ↦ false
  | some [] ↦ false
  | some (t ∷ ts) ↦
      is_some
        (find (λ (n : NetworkRow). text_eq n.id network_id && text_eq n.token (t ∷ ts)) db.networks)
]

-- The rest of the handler is for the admin alone.
abbrev pub require_admin : Caller → Server → Reply → Reply
require_admin c s rest = if is_admin c then rest else fail 401 "Unauthorized" s

-- The rest of the handler is for the admin or a bearer of the network's token.
abbrev pub require_admin_or_network : Caller → Text → Server → Reply → Reply
require_admin_or_network c network_id s rest =
    if is_admin c || is_network_token c network_id s.db then rest else fail 401 "Unauthorized" s
