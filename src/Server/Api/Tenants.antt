-- ===== src/Server/Api/Tenants.antt =====
-- What each handler does to the table of peers.
use meshezia.Server.Api.Validate.{
  is_valid_name, is_valid_ipv4, is_valid_pubkey, is_bad_or_empty, is_valid_ttl, is_valid_port,
  is_valid_memo, is_bad, is_valid_uuid,
}
use meshezia.Server.Api.Values.{number_or, text_of, Value, Platform}
use meshezia.Server.Api.Reply.{require_admin_or_network, Reply, Caller}
use meshezia.Server.Api.Peers.{remove_peer, create_peer}
use meshezia.Server.Api.Ports.{
  no_array, invalid, port_of, peer_id_of, entries, PortsBody, send_config, save_entries, get_config,
  put_ports,
}
use meshezia.Common.{
  find_passes, length, ltb, text_eq_iff, ℕ, Text, codes, text_eq, true, not, Option, none, some,
  List, [], ◌∷◌, ◌++◌, ◌≡◌, refl, sym, subst, arith, inl, inr, Option-cases, every,
}
use meshezia.Server.Api.Ports.{invalid}
use meshezia.Common.Dict.{Dict, get}
use meshezia.Server.Db.{Db, PeerRow, PortRow, peer_by_id, delete_peer}
use meshezia.Server.State.{Server}
use meshezia.Server.Api.Apart.{Change, kept, removed, updated, IsKept, is_mine, are_apart}
use meshezia.Server.Api.Touched.{
  Touches, may, register_peer-Touches, token-Touches, guarded-Touches, found-Touches, found-is_mine,
}
use meshezia.Server.Api.Tables.{upsert_port, upsert_ports, change_peer}

pub create_peer-Touches :
    (platform : Platform) (uuid : Text) (now : ℕ) (c : Caller) (body : Dict Value) (s : Server)
    → Touches c s (create_peer platform uuid now c body s)
unfolding create_peer
create_peer-Touches platform uuid now c body s =
    let network_id = get body (codes "networkId") in
    let rest =
      token-Touches c (text_of network_id) s _ (register_peer-Touches platform uuid now c body s) in
    let g6 =
      guarded-Touches c s (is_bad is_valid_memo (get body (codes "memo")))
        "Invalid memo (max 1024 chars)" _ rest in
    let g5 =
      guarded-Touches c s (is_bad is_valid_ttl (get body (codes "ttlSeconds")))
        "Invalid ttlSeconds (0-31536000)" _ g6 in
    let g4 =
      guarded-Touches c s (is_bad_or_empty is_valid_pubkey (get body (codes "pubkey")))
        "Invalid pubkey (base64, 44 chars)" _ g5 in
    let g3 =
      guarded-Touches c s (is_bad_or_empty is_valid_ipv4 (get body (codes "publicIpv4")))
        "Invalid publicIpv4" _ g4 in
    let g2 =
      guarded-Touches c s (not (is_valid_name (get body (codes "name"))))
        "Invalid name (1-255 chars)" _ g3 in
    guarded-Touches c s (not (is_valid_uuid network_id)) "Invalid networkId" _ g2

-- The rest of a handler about one peer, for a caller with the token of its network.
pub owned-Touches :
    (c : Caller) (id : Text) (s : Server) (x : Reply) (f : PeerRow → Reply)
    → are_apart s.db.peers ≡ true
    → Touches c s x
    → ((row : PeerRow)
        → row.id ≡ id
        → every (is_mine (may c s.db) id) s.db.peers ≡ true
        → Touches c s (f row))
    → Touches c s (elim (peer_by_id s.db id) [
      | none ↦ x
      | some row ↦ require_admin_or_network c row.network_id s (f row)
    ])
unfolding peer_by_id
owned-Touches c id s x f h p q = found-Touches c s (peer_by_id s.db id) _ _ p λ row found.
    token-Touches c row.network_id s _ λ allowed.
      q row
        ((text_eq_iff row.id id).0
          (find_passes (λ (n : PeerRow). text_eq n.id id) s.db.peers row found))
        (found-is_mine (may c s.db) id s.db.peers row h found allowed)

pub remove_peer-Touches :
    (c : Caller) (id : Text) (s : Server)
    → are_apart s.db.peers ≡ true
    → Touches c s (remove_peer c id s)
unfolding remove_peer delete_peer
remove_peer-Touches c id s h =
    owned-Touches c id s _ _ h (kept s.db.peers) λ row same mine. removed id s.db.peers mine

upsert_port-peers :
    (row : PortRow) (db db' : Db) → upsert_port row db ≡ some db' → db'.peers ≡ db.peers
unfolding upsert_port
upsert_port-peers row db db' e = ground arith

upsert_ports-peers :
    (rows : List PortRow) (db db' : Db) → upsert_ports rows db ≡ some db' → db'.peers ≡ db.peers
unfolding upsert_ports
upsert_ports-peers [] db db' e = ground arith
upsert_ports-peers (row ∷ rows) db db' e = elim (Option-cases (upsert_port row db)) [
  | inl failed ↦ ground arith
  | inr (saved, first) ↦
      ground (arith, upsert_ports-peers rows saved db', upsert_port-peers row db saved first)
]

save_entries-Touches :
    (c : Caller) (id : Text) (rows : List PortRow) (es : List (Option (Dict Value))) (s : Server)
    → Touches c s (save_entries id rows es s)
unfolding save_entries
save_entries-Touches c id rows [] s =
    found-Touches c s (upsert_ports rows s.db) _ _ (kept s.db.peers) λ db saved.
      subst (λ ps. Change (may c s.db) s.db.peers ps) (sym (upsert_ports-peers rows s.db db saved))
        (kept s.db.peers)
save_entries-Touches c id rows (none ∷ es) s = kept s.db.peers
save_entries-Touches c id rows (some entry ∷ es) s =
    guarded-Touches c s (not (is_valid_uuid (peer_id_of entry))) "Invalid peerId in port entry" _ (
      guarded-Touches c s (not (is_valid_port (port_of entry))) "Invalid port number (1-65535)" _ (
        save_entries-Touches c id
          (rows
            ++ record {
              from_peer_id = id;
              to_peer_id = text_of (peer_id_of entry);
              port = number_or 0 (port_of entry);
            }
              ∷ [])
          es s))

pub put_ports-Touches :
    (c : Caller) (id : Text) (body : PortsBody) (s : Server)
    → are_apart s.db.peers ≡ true
    → Touches c s (put_ports c id body s)
unfolding put_ports
put_ports-Touches c id invalid s h =
    owned-Touches c id s _ _ h (kept s.db.peers) λ row same mine. kept s.db.peers
put_ports-Touches c id no_array s h =
    owned-Touches c id s _ _ h (kept s.db.peers) λ row same mine. kept s.db.peers
put_ports-Touches c id (entries es) s h =
    owned-Touches c id s _ _ h (kept s.db.peers) λ row same mine.
      guarded-Touches c s (ltb 100 (length es)) "Invalid ports (array, max 100 entries)" _
        (save_entries-Touches c id [] es s)

last_seen-IsKept : (now : ℕ) → IsKept (λ (p : PeerRow). record p { last_seen = now })
last_seen-IsKept now = record {
  id = λ p. refl;
  network_id = λ p. refl;
  ipv4 = λ p. refl;
  name = λ p. refl;
}

pub get_config-Touches :
    (decimal : ℕ → Text) (now : ℕ) (c : Caller) (id : Text) (s : Server)
    → are_apart s.db.peers ≡ true
    → Touches c s (get_config decimal now c id s)
unfolding get_config send_config change_peer
get_config-Touches decimal now c id s h =
    owned-Touches c id s _ _ h (kept s.db.peers) λ row same mine.
      let seen =
        updated row.id _ s.db.peers (last_seen-IsKept now)
          (subst (λ i. every (is_mine (may c s.db) i) s.db.peers ≡ true) (sym same) mine) in
      found-Touches c s _ _ _ seen λ network found. seen
