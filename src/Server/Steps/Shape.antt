-- ===== src/Server/Steps/Shape.antt =====
-- What a negotiation in the map looks like.
use meshezia.Server.Steps.Everywhere.Reached.{Reach-Holds}
use meshezia.Server.Steps.{Reach}
use meshezia.Server.Db.{Db}
use meshezia.Server.Steps.Everywhere.{Rules}
use meshezia.Server.Negotiate.Keys.{parse_pair_key}
use meshezia.Server.Negotiate.RelayProbe.{client_node_of, server_node_of, new_relay_probe}
use meshezia.Server.Negotiate.DirectProbe.{new_direct_probe, set_ready, set_result}
use meshezia.Shared.Protocol.{Utf8}
use meshezia.Server.State.{
  direct_probe, initial, PairHealth, Server, relay_probe, Settings, Ready, NegotiationType,
  NegotiationState,
}
use meshezia.Common.{ℕ, Text, text_eq_iff, Bool, none, some, ◌≡◌, refl, ◌⊎◌, arith}
use meshezia.Common.Dict.{get}

-- The two nodes of a relay probe are the two peers; a direct probe has none.
abbrev pub HasNodes : NegotiationType → NegotiationState → Type 0
HasNodes relay_probe n =
    ((n.server_node ≡ some n.peer_a) × (n.client_node ≡ some n.peer_b))
    ⊎ ((n.server_node ≡ some n.peer_b) × (n.client_node ≡ some n.peer_a))
HasNodes direct_probe n = (n.server_node ≡ none) × (n.client_node ≡ none)

-- A negotiation under a key is about the pair of the key.
pub record HasShape (key : Text) (n : NegotiationState) : Type 0 where
  pub keyed : n.pair_key ≡ key
  pub first : n.peer_a ≡ (parse_pair_key key).0
  pub second : n.peer_b ≡ (parse_pair_key key).1
  pub nodes : HasNodes n.type n

relay_nodes :
    (now : ℕ) (key : Text) (h : PairHealth) → HasNodes relay_probe (new_relay_probe now key h)
unfolding new_relay_probe server_node_of client_node_of
relay_nodes now key h = ground (
  arith,
  text_eq_iff (parse_pair_key key).0 (parse_pair_key key).0,
  text_eq_iff (parse_pair_key key).1 (parse_pair_key key).0,
)

retime_nodes :
    (t : NegotiationType) (n : NegotiationState) (i : ℕ)
    → HasNodes t n
    → HasNodes t (record n { timeout_id = some i })
retime_nodes relay_probe n i v = v
retime_nodes direct_probe n i v = v

ready_nodes :
    (t : NegotiationType) (n : NegotiationState) (b : Bool) (r : Ready)
    → HasNodes t n
    → HasNodes t (set_ready b r n)
unfolding set_ready
ready_nodes relay_probe n b r v = v
ready_nodes direct_probe n b r v = v

result_nodes :
    (t : NegotiationType) (n : NegotiationState) (b ok : Bool)
    → HasNodes t n
    → HasNodes t (set_result b ok n)
unfolding set_result
result_nodes relay_probe n b ok v = v
result_nodes direct_probe n b ok v = v

shape_rules : (st : Settings) → Rules st HasShape (λ k h. Unit {0})
unfolding new_relay_probe new_direct_probe set_ready set_result
shape_rules st = record {
  relay = λ now k h i. record {
    keyed = refl;
    first = refl;
    second = refl;
    nodes = relay_nodes now k h;
  };
  direct = λ now k i. record { keyed = refl; first = refl; second = refl; nodes = (refl, refl) };
  retimed = λ k n i p. record {
    keyed = p.keyed;
    first = p.first;
    second = p.second;
    nodes = retime_nodes n.type n i p.nodes;
  };
  ready = λ k n b r p. record {
    keyed = p.keyed;
    first = p.first;
    second = p.second;
    nodes = ready_nodes n.type n b r p.nodes;
  };
  result = λ k n b ok p. record {
    keyed = p.keyed;
    first = p.first;
    second = p.second;
    nodes = result_nodes n.type n b ok p.nodes;
  };
  fresh = λ k s e. tt;
  backed = λ k h q. tt;
  restored = λ k h q. tt;
  reset = λ k h q. tt;
  imposed = λ k h mode q. tt;
  synced = λ k h mode q. tt;
  marked = λ k h now q. tt;
  joined = λ k h b now q. tt;
  streaked = λ k h b alive q. tt;
}

-- In every reachable state, a negotiation under a key names that key and the two peers that the
-- key parses to; one of the two is the server node of a relay probe and the other its client node,
-- and a direct probe has neither.
pub Reach-HasShape :
    (utf8 : Utf8) (st : Settings) (db : Db) {t : Server} (key : Text) (n : NegotiationState)
    → Reach utf8 (initial st db) t
    → get t.probes.negotiations key ≡ some n
    → HasShape key n
Reach-HasShape utf8 st db key n reached found =
    (Reach-Holds st HasShape _ (shape_rules st) utf8 db reached).negs key n found
