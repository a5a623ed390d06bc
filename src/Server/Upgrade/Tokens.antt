-- ===== src/Server/Upgrade/Tokens.antt =====
-- Who may open a peer's socket.
use meshezia.Common.{
  ℕ, Text, codes, text_eq, text_eq_iff, text_eq_sym, Bool, true, false, not, ◌&&◌, ◌||◌, none, some,
  List, [], ◌∷◌, ◌++◌, ◌≡◌, ◌↔◌, refl, arith, inl, inr, Option-cases, every, find, is_some,
}
use meshezia.Server.Db.{Db, NetworkRow, PeerRow, peer_by_id}
use meshezia.Server.Api.Apart.{are_apart, is_apart}
use meshezia.Server.Api.Reply.{Caller, is_admin, is_network_token, get_bearer}
use meshezia.Server.Api.Touched.{may}
use meshezia.Server.Upgrade.{admitted, network_by_token, is_peer_of, access_by, ws_access}

-- No two networks have one token.
abbrev pub tokens_differ : List NetworkRow → Bool
tokens_differ [] = true
tokens_differ (n ∷ ns) =
    every (λ (m : NetworkRow). not (text_eq n.token m.token)) ns && tokens_differ ns

-- The request of the REST API with the token.
abbrev pub bearer : (admin_token token : Text) → Caller
bearer admin_token token = record {
  admin_token = admin_token;
  authorization = some (codes "Bearer " ++ token);
}

abbrev has_both : (network_id token : Text) → NetworkRow → Bool
has_both network_id token n = text_eq n.id network_id && text_eq n.token token

no_token :
    (network_id token : Text) (ns : List NetworkRow)
    → find (λ (n : NetworkRow). text_eq n.token token) ns ≡ none
    → is_some (find (has_both network_id token) ns) ≡ false
no_token network_id token [] e = refl
no_token network_id token (n ∷ ns) e = ground (arith, no_token network_id token ns)

other_token :
    (network_id token : Text) (m : NetworkRow) (ns : List NetworkRow)
    → text_eq m.token token ≡ true
    → every (λ (n : NetworkRow). not (text_eq m.token n.token)) ns ≡ true
    → is_some (find (has_both network_id token) ns) ≡ false
other_token network_id token m [] e h = refl
other_token network_id token m (n ∷ ns) e h = ground (
  arith,
  other_token network_id token m ns,
  text_eq_iff m.token token,
  text_eq_iff n.token token,
  text_eq_iff m.token n.token,
)

-- The network with a token is the only one with it.
its_token :
    (network_id token : Text) (ns : List NetworkRow) (network : NetworkRow)
    → tokens_differ ns ≡ true
    → find (λ (n : NetworkRow). text_eq n.token token) ns ≡ some network
    → is_some (find (has_both network_id token) ns) ≡ text_eq network.id network_id
its_token network_id token [] network d e = cc
its_token network_id token (n ∷ ns) network d e =
    ground (arith, its_token network_id token ns network, other_token network_id token n ns)

abbrev is_row : (peer_id network_id : Text) → PeerRow → Bool
is_row peer_id network_id p = text_eq p.id peer_id && text_eq p.network_id network_id

other_peer :
    (peer_id network_id : Text) (p : PeerRow) (ps : List PeerRow)
    → text_eq p.id peer_id ≡ true
    → every (is_apart p) ps ≡ true
    → is_some (find (is_row peer_id network_id) ps) ≡ false
other_peer peer_id network_id p [] e h = refl
other_peer peer_id network_id p (q ∷ qs) e h = ground (
  arith,
  other_peer peer_id network_id p qs,
  text_eq_iff p.id peer_id,
  text_eq_iff q.id peer_id,
  text_eq_iff p.id q.id,
)

its_network :
    (peer_id network_id : Text) (ps : List PeerRow) (row : PeerRow)
    → are_apart ps ≡ true
    → find (λ (p : PeerRow). text_eq p.id peer_id) ps ≡ some row
    → is_some (find (is_row peer_id network_id) ps) ≡ text_eq row.network_id network_id
its_network peer_id network_id [] row a e = cc
its_network peer_id network_id (p ∷ ps) row a e =
    ground (arith, its_network peer_id network_id ps row, other_peer peer_id network_id p ps)

access_by-network :
    (admin_token token peer_id : Text) (db : Db) (row : PeerRow)
    → tokens_differ db.networks ≡ true
    → are_apart db.peers ≡ true
    → peer_by_id db peer_id ≡ some row
    → (access_by admin_token token peer_id db ≡ admitted peer_id) ↔ (
        (text_eq token admin_token || is_some (find (has_both row.network_id token) db.networks))
        ≡ true)
unfolding access_by network_by_token is_peer_of peer_by_id
access_by-network admin_token token peer_id db row d a e =
    elim (Option-cases (network_by_token db token)) [
      | inl unknown ↦ ground (arith, unknown, no_token row.network_id token db.networks unknown)
      | inr (network, found) ↦ ground (
        arith,
        found,
        its_token row.network_id token db.networks network d found,
        its_network peer_id network.id db.peers row a e,
        text_eq_sym row.network_id network.id,
      )
    ]

-- Where ids, addresses and tokens are not shared, a token opens the socket of a peer just if it may
-- act for the peer over the REST API: it is the admin's, or that of the peer's network.
pub ws_access-may :
    (admin_token : Text) (t : ℕ) (ts : Text) (i : ℕ) (is : Text) (db : Db) (row : PeerRow)
    → tokens_differ db.networks ≡ true
    → are_apart db.peers ≡ true
    → peer_by_id db (i ∷ is) ≡ some row
    → (ws_access admin_token (some (t ∷ ts)) (some (i ∷ is)) db ≡ admitted (i ∷ is))
      ↔ (may (bearer admin_token (t ∷ ts)) db row.network_id ≡ true)
unfolding ws_access is_admin is_network_token get_bearer text_eq
ws_access-may admin_token t ts i is db row d a e =
    access_by-network admin_token (t ∷ ts) (i ∷ is) db row d a e
