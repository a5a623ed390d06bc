-- ===== src/Server/Reaper/Exact.antt =====
-- What the reaper leaves: nothing of the peers that it deletes, and all else.
use meshezia.Common.{
  ℕ, Text, text_eq, Bool, true, false, not, ◌&&◌, ◌||◌, none, some, List, [], ◌∷◌, ◌≡◌, refl, ◌∙◌,
  sym, subst, ap, arith, filter, any, All, if◌then◌else◌,
}
use meshezia.Common.Dict.{Dict, get}
use meshezia.Shared.Types.{Reason}
use meshezia.Server.Db.{PeerRow, PortRow, LinkRow, Db, delete_peer}
use meshezia.Server.State.{NegotiationState, Server, send_msg}
use meshezia.Server.Negotiate.Lifecycle.{
  abort_parties, abort_if_party, abort_peer_negotiations, cleanup_peer_health, is_party,
}
use meshezia.Server.Negotiate.Endings.{
  is_party_of, abort_peer_negotiations-no_party, get-cleanup_peer_health,
}
use meshezia.Server.Reaper.{
  is_expired, forget_peers, delete_peers, group_by_network, reap_expired, reap,
}
use meshezia.Server.Reaper.Notices.{notify_networks-OnlySends}

-- Is the id that of one of the rows?
abbrev pub is_gone : List PeerRow → Text → Bool
is_gone rows id = any (λ (row : PeerRow). text_eq id row.id) rows

filter-filter :
    {A : Type 0} (p q r : A → Bool) (xs : List A)
    → ((x : A) → r x ≡ (p x && q x))
    → filter q (filter p xs) ≡ filter r xs
filter-filter p q r [] h = refl
filter-filter p q r (x ∷ xs) h = ground (arith, h x, filter-filter p q r xs h)

filter_all : {A : Type 0} (p : A → Bool) (xs : List A) → ((x : A) → p x ≡ true) → filter p xs ≡ xs
filter_all p [] h = refl
filter_all p (x ∷ xs) h = ground (arith, h x, filter_all p xs h)

-- A row that names two peers stays if neither is gone.
abbrev pub stays : List PeerRow → Text → Text → Bool
stays rows from to = not (is_gone rows from || is_gone rows to)

peers-delete_peers :
    (rows : List PeerRow) (db : Db)
    → (delete_peers rows db).peers ≡ filter (λ (p : PeerRow). not (is_gone rows p.id)) db.peers
unfolding delete_peers delete_peer
peers-delete_peers [] db = sym (filter_all _ db.peers (λ p. refl))
peers-delete_peers (row ∷ rows) db =
    peers-delete_peers rows (delete_peer db row.id)
    ∙ filter-filter _ _ _ db.peers (λ p. ground arith)

links-delete_peers :
    (rows : List PeerRow) (db : Db)
    → (delete_peers rows db).peer_links
      ≡ filter (λ (l : LinkRow). stays rows l.from_peer_id l.to_peer_id) db.peer_links
unfolding delete_peers delete_peer
links-delete_peers [] db = sym (filter_all _ db.peer_links (λ l. refl))
links-delete_peers (row ∷ rows) db =
    links-delete_peers rows (delete_peer db row.id)
    ∙ filter-filter _ _ _ db.peer_links (λ l. ground arith)

ports-delete_peers :
    (rows : List PeerRow) (db : Db)
    → (delete_peers rows db).peer_ports
      ≡ filter (λ (r : PortRow). stays rows r.from_peer_id r.to_peer_id) db.peer_ports
unfolding delete_peers delete_peer
ports-delete_peers [] db = sym (filter_all _ db.peer_ports (λ r. refl))
ports-delete_peers (row ∷ rows) db =
    ports-delete_peers rows (delete_peer db row.id)
    ∙ filter-filter _ _ _ db.peer_ports (λ r. ground arith)

health-abort_parties :
    (id : Text) (reason : Reason) (entries : Dict NegotiationState) (s : Server)
    → ((abort_parties id reason entries s).pair_health ≡ s.pair_health)
      × ((abort_parties id reason entries s).db ≡ s.db)
unfolding abort_parties abort_if_party send_msg
health-abort_parties id reason [] s = (refl, refl)
health-abort_parties id reason (e ∷ rest) s =
    let (health, db) = health-abort_parties id reason rest (abort_if_party id reason e s) in
    (health ∙ ground arith, db ∙ ground arith)

-- One expired peer is forgotten.
abbrev forget_peer : PeerRow → Server → Server
forget_peer row s =
    cleanup_peer_health row.id (abort_peer_negotiations row.id Reason.peer_removed s)

db-forget_peer : (row : PeerRow) (s : Server) → (forget_peer row s).db ≡ s.db
unfolding cleanup_peer_health abort_peer_negotiations
db-forget_peer row s = (health-abort_parties row.id Reason.peer_removed s.probes.negotiations s).1

db-forget_peers : (rows : List PeerRow) (s : Server) → (forget_peers rows s).db ≡ s.db
unfolding forget_peers
db-forget_peers [] s = refl
db-forget_peers (row ∷ rows) s = db-forget_peers rows (forget_peer row s) ∙ db-forget_peer row s

-- Is one of the rows a peer of the key?
abbrev pub names_one : List PeerRow → Text → Bool
names_one rows key = any (λ (row : PeerRow). is_party row.id key) rows

health-forget_peer :
    (row : PeerRow) (s : Server) (k : Text)
    → get (forget_peer row s).pair_health k
      ≡ (if is_party row.id k then none else get s.pair_health k)
unfolding abort_peer_negotiations
health-forget_peer row s k =
    let (health, db) = health-abort_parties row.id Reason.peer_removed s.probes.negotiations s in
    get-cleanup_peer_health row.id (abort_peer_negotiations row.id Reason.peer_removed s) k
    ∙ ap (λ m. if is_party row.id k then none else get m k) health

health-forget_peers :
    (rows : List PeerRow) (s : Server) (k : Text)
    → get (forget_peers rows s).pair_health k
      ≡ (if names_one rows k then none else get s.pair_health k)
unfolding forget_peers
health-forget_peers [] s k = refl
health-forget_peers (row ∷ rows) s k =
    health-forget_peers rows (forget_peer row s) k ∙ ground (arith, health-forget_peer row s k)

negotiations-forget_peers :
    (rows : List PeerRow) (s : Server) (k : Text) (n : NegotiationState)
    → get (forget_peers rows s).probes.negotiations k ≡ some n
    → (get s.probes.negotiations k ≡ some n)
      × All (λ (row : PeerRow). is_party_of row.id n ≡ false) rows
unfolding forget_peers cleanup_peer_health
negotiations-forget_peers [] s k n h = (h, tt)
negotiations-forget_peers (row ∷ rows) s k n h =
    let (there, rest) = negotiations-forget_peers rows (forget_peer row s) k n h in
    let (before, apart) = abort_peer_negotiations-no_party row.id Reason.peer_removed s k n there in
    (before, (apart, rest))

-- The rows of `expired` are gone from every table and every map, and only what names one of them.
pub record IsReaped (expired : List PeerRow) (s t : Server) : Type 0 where
  pub peers : t.db.peers ≡ filter (λ (p : PeerRow). not (is_gone expired p.id)) s.db.peers
  pub links :
      t.db.peer_links
      ≡ filter (λ (l : LinkRow). stays expired l.from_peer_id l.to_peer_id) s.db.peer_links
  pub ports :
      t.db.peer_ports
      ≡ filter (λ (r : PortRow). stays expired r.from_peer_id r.to_peer_id) s.db.peer_ports
  pub health :
      (k : Text) → get t.pair_health k ≡ (if names_one expired k then none else get s.pair_health k)
  pub negotiations :
      (k : Text) (n : NegotiationState)
      → get t.probes.negotiations k ≡ some n
      → (get s.probes.negotiations k ≡ some n)
        × All (λ (row : PeerRow). is_party_of row.id n ≡ false) expired

reap_expired-IsReaped :
    (rows : List PeerRow) (s : Server) → IsReaped rows s (reap_expired rows true s)
unfolding reap_expired
reap_expired-IsReaped rows s =
    let forgotten = forget_peers rows s in
    let deleted = record forgotten { db = delete_peers rows forgotten.db } in
    let db = db-forget_peers rows s in
    subst (λ t. IsReaped rows s t)
      (sym (notify_networks-OnlySends (group_by_network rows []) deleted))
      (record {
        peers = rw db (peers-delete_peers rows s.db);
        links = rw db (links-delete_peers rows s.db);
        ports = rw db (ports-delete_peers rows s.db);
        health = λ k. health-forget_peers rows s k;
        negotiations = λ k n h. negotiations-forget_peers rows s k n h;
      })

-- A round of the reaper whose transaction commits deletes exactly the rows of peers, ports and links
-- that name a peer whose TTL is over, and the health of the pairs that name one; every negotiation
-- that is left was there before and has no such peer.
pub reap-IsReaped :
    (now : ℕ) (s : Server) → IsReaped (filter (is_expired now) s.db.peers) s (reap now true s)
unfolding reap
reap-IsReaped now s = reap_expired-IsReaped (filter (is_expired now) s.db.peers) s
