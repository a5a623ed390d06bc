-- ===== src/Agent/Tests/Interfaces.antt =====
-- A configuration of two peers where another one had an interface.
use meshezia.Common.{
  ℕ, Text, codes, text_eq, text_eq_iff, true, false, none, some, List, [], ◌∷◌, ◌≡◌, ◌≢◌, refl,
  arith,
}
use meshezia.Common.Dict.{get, set, delete, keys}
use meshezia.Agent.Monitor.{empty}
use meshezia.Shared.Entities.{PeerEndpoint}
use meshezia.Agent.Reconciler.{Mappings, System, reconcile, is_desired, free_index}
use meshezia.Agent.Reconciler.Distinct.{
  AreDistinct, free_index-unused, reconcile-AreDistinct, reconcile-is_desired,
}

abbrev endpoint : Text → ℕ → PeerEndpoint
endpoint id port = record {
  id = id;
  name = id;
  pubkey = codes "k";
  mesh_ipv4 = codes "10.100.0.2";
  endpoint = [];
  listen_port = port;
}

abbrev config : List PeerEndpoint
config = endpoint (codes "a") 51820 ∷ endpoint (codes "b") 51821 ∷ []

abbrev before : Mappings
before = record {
  peer_to_if = (codes "z", 0) ∷ [];
  peer_to_port = [];
  port_range_start = 51820;
  port_range_end = 52819;
  dirty = false;
}

abbrev system : System
system = record { existing_interfaces = 0 ∷ []; ensures = λ id. true; draw = λ id i. i }

free_index-unused_example : get before.peer_to_if (codes "z") ≢ some (free_index before.peer_to_if)
free_index-unused_example = free_index-unused before.peer_to_if (codes "z")

before_distinct : AreDistinct before.peer_to_if
unfolding get
before_distinct p q i hp hq = ground (arith, text_eq_iff (codes "z") p, text_eq_iff (codes "z") q)

reconcile-AreDistinct_example :
    AreDistinct (reconcile system empty config before).mappings.peer_to_if
reconcile-AreDistinct_example = reconcile-AreDistinct system empty config before before_distinct

ran : (reconcile system empty config before).threw ≡ false
unfolding reconcile get set delete text_eq empty
ran = refl

b_mapped : get (reconcile system empty config before).mappings.peer_to_if (codes "b") ≡ some 2
unfolding reconcile get set delete text_eq empty keys
b_mapped = refl

z_gone : get (reconcile system empty config before).mappings.peer_to_if (codes "z") ≡ none
unfolding reconcile get set delete text_eq empty keys
z_gone = refl

reconcile-is_desired_example : is_desired config (codes "b") ≡ true
reconcile-is_desired_example =
    reconcile-is_desired system empty config before (codes "b") 2 ran b_mapped
