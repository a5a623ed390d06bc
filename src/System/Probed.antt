-- ===== src/System/Probed.antt =====
-- The credentials of a relay probe, from the agent that serves it over the server to the other agent.
use meshezia.Common.{
  ℕ, Text, codes, text_eq_refl, text_eq_iff, true, some, List, [], ◌∷◌, ◌≡◌, ◌≢◌, ◌↔◌, refl, arith,
}
use meshezia.Common.Dict.{get}
use meshezia.Shared.Types.{
  NegotiateMessage, probe_relay_serve, probe_relay_ready, probe_relay_check,
}
use meshezia.Server.State.{send_msg, Server, NegotiationState, relay_probe}
use meshezia.Server.Negotiate.Keys.{pair_key}
use meshezia.Server.Negotiate.Lifecycle.{lookup_peer, PeerInfo}
use meshezia.Server.Negotiate.RelayProbe.{relay_ready_found, handle_probe_relay_ready}
use meshezia.Agent.Negotiate.{
  freeze, handle_probe_relay_serve, Agent, Platform, bound, handle_negotiate_message,
}
use meshezia.Agent.Negotiate.Events.{ProbeRequest, credentials, answer_probe}

-- The request of `handleProbeRelayCheck`.
abbrev pub client_request : (client_pubkey server_pubkey nonce : Text) → ProbeRequest
client_request client_pubkey server_pubkey nonce = record {
  is_post = true;
  pathname = codes "/probe";
  body = credentials (some client_pubkey) (some server_pubkey) (some nonce);
}

-- The probe server answers a client's request with 200 just if it names the server's nonce, the
-- server's own key and some key of the client.
pub answer_probe-client_request :
    (nonce self client server n : Text)
    → (answer_probe nonce self (client_request client server n) ≡ 200)
      ↔ ((n ≡ nonce) × (server ≡ self) × (client ≢ []))
unfolding answer_probe
answer_probe-client_request nonce self [] server n = ground (arith, text_eq_refl (codes "/probe"))
answer_probe-client_request nonce self (c ∷ cs) server n =
    ground (arith, text_eq_refl (codes "/probe"), text_eq_iff n nonce, text_eq_iff server self)

-- What the check asks the client to present.
pub record IsForwarded (served : Agent) (server_id client_id : Text) (s : Server) (nonce ip : Text)
    (port : ℕ) (client server : Text) : Type 0 where
  pub announced :
      (rest : List NegotiateMessage) × (served.outbox
        ≡ probe_relay_ready client_id ip port nonce ∷ rest)
  pub asked :
      handle_probe_relay_ready server_id client_id ip port nonce s
      ≡ send_msg s client_id (probe_relay_check server_id ip port nonce client server)
  pub accepted : answer_probe nonce served.self_pubkey (client_request client server nonce) ≡ 200

-- In a relay probe between two peers that the database knows, where the client's key is not empty, the
-- serving agent runs with the key that the database has of it and opens its socket, what the agent
-- announces makes the server ask the client for exactly the credentials that the agent's probe
-- server accepts.
pub serve-IsForwarded :
    (o : Platform) (a : Agent) (handle port : ℕ) (server_id client_id : Text) (s : Server)
    (neg : NegotiationState) (client server : PeerInfo)
    → o.bind ≡ bound handle port
    → get s.probes.negotiations (pair_key server_id client_id) ≡ some neg
    → neg.type ≡ relay_probe
    → neg.server_node ≡ some server_id
    → neg.client_node ≡ some client_id
    → lookup_peer s client_id ≡ some client
    → lookup_peer s server_id ≡ some server
    → server.pubkey ≡ a.self_pubkey
    → client.pubkey ≢ []
    → IsForwarded
        (handle_negotiate_message o (probe_relay_serve client_id) a)
        server_id
        client_id
        s
        o.nonce
        a.self_mesh_ipv4
        port
        client.pubkey
        server.pubkey
unfolding handle_negotiate_message handle_probe_relay_serve freeze meshezia.Agent.Negotiate.send_msg
    handle_probe_relay_ready relay_ready_found
serve-IsForwarded o a handle port server_id client_id s neg client server bind found kind serves
      checks c r key given =
    record {
      announced = (a.outbox, rw bind refl);
      asked = ground (arith, found, kind, serves, checks, c, r, text_eq_refl server_id);
      accepted = rw bind (
          (answer_probe-client_request o.nonce a.self_pubkey client.pubkey server.pubkey o.nonce).1
            (refl, key, given));
    }
