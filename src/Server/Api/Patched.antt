-- ===== src/Server/Api/Patched.antt =====
-- What PATCH /api/peers/:id does to the table of peers.
use meshezia.Server.Api.Validate.{
  is_valid_memo, is_valid_ttl, is_bad, is_valid_ipv4, is_valid_pubkey, is_bad_or_empty,
}
use meshezia.Server.Api.Peers.{
  update_version, update_ttl, update_memo, update_ip, is_version, patch_peer, is_there, finish_peer,
  update_peer, patch_field,
}
use meshezia.Server.Api.Reply.{Reply, Caller}
use meshezia.Common.{
  Text, codes, Bool, true, false, List, [], ◌∷◌, ◌≡◌, refl, arith, inl, inr, Option-cases, map,
  every,
}
use Prim.Native.String.{String}
use meshezia.Common.Dict.{Dict, get}
use meshezia.Server.Db.{PeerRow, peer_by_id}
use meshezia.Server.State.{Server}
use meshezia.Server.Api.Values.{number_or, text_of, Value, Body, invalid, nothing, fields}
use meshezia.Server.Api.Apart.{
  key-IsKept, at_id, Change, kept, updated, followed, IsKept, is_mine, are_apart,
}
use meshezia.Server.Api.Touched.{Touches, may}
use meshezia.Server.Api.Tenants.{owned-Touches}
use meshezia.Server.Api.Tables.{change_peer}

mine-updated :
    (mine : Text → Bool) (id : Text) (f : PeerRow → PeerRow) (ps : List PeerRow)
    → IsKept f
    → every (is_mine mine id) ps ≡ true
    → every (is_mine mine id) (map (at_id id f) ps) ≡ true
mine-updated mine id f [] v h = refl
mine-updated mine id f (p ∷ ps) v h =
    ground (arith, mine-updated mine id f ps v, v.id p, v.network_id p)

-- A server on the way through the fields of a request.
record IsPatched (mine : Text → Bool) (id : Text) (ps : List PeerRow) (t : Server) : Type 0 where
  change : Change mine ps t.db.peers
  own : every (is_mine mine id) t.db.peers ≡ true

-- What a handler leaves changes only the peers with the id.
record IsDone (mine : Text → Bool) (ps : List PeerRow) (reply : Reply) : Type 0 where
  done : Change mine ps reply.1.db.peers

patch_field-IsDone :
    (mine : Text → Bool) (id : Text) (ps : List PeerRow) (is_bad_field : Bool) (message : String)
    (is_there : Bool) (f : PeerRow → PeerRow) (t : Server) (rest : Server → Reply)
    → IsKept f
    → IsPatched mine id ps t
    → ((u : Server) → IsPatched mine id ps u → IsDone mine ps (rest u))
    → IsDone mine ps (patch_field is_bad_field message is_there f id t rest)
unfolding patch_field change_peer
patch_field-IsDone mine id ps true message is_there f t rest v p q = record { done = p.change }
patch_field-IsDone mine id ps false message false f t rest v p q = q t p
patch_field-IsDone mine id ps false message true f t rest v p q =
    q (record t { db = change_peer f id t.db })
      (record {
        change = followed ps _ _ p.change (updated id f t.db.peers v p.own);
        own = mine-updated mine id f t.db.peers v p.own;
      })

finish_peer-IsDone :
    (mine : Text → Bool) (id : Text) (ps : List PeerRow) (s : Server)
    → IsPatched mine id ps s
    → IsDone mine ps (finish_peer id s)
unfolding finish_peer
finish_peer-IsDone mine id ps s p = elim (Option-cases (peer_by_id s.db id)) [
  | inl none_left ↦ rw (finish_peer, none_left) (record { done = p.change })
  | inr (row, found) ↦ rw (finish_peer, found) (record { done = p.change })
]

update_version-IsDone :
    (mine : Text → Bool) (id : Text) (ps : List PeerRow) (body : Dict Value) (s : Server)
    → IsPatched mine id ps s
    → IsDone mine ps (update_version body id s)
unfolding update_version
update_version-IsDone mine id ps body s p =
    let v = get body (codes "agentVersion") in
    patch_field-IsDone mine id ps (false) "" (is_version v)
      (λ r. record r { agent_version = text_of v }) s (finish_peer id) (key-IsKept _ λ r. refl) p
      (finish_peer-IsDone mine id ps)

update_memo-IsDone :
    (mine : Text → Bool) (id : Text) (ps : List PeerRow) (body : Dict Value) (s : Server)
    → IsPatched mine id ps s
    → IsDone mine ps (update_memo body id s)
unfolding update_memo
update_memo-IsDone mine id ps body s p =
    let v = get body (codes "memo") in
    patch_field-IsDone mine id ps (is_bad is_valid_memo v) "Invalid memo (max 1024 chars)"
      (is_there v) (λ r. record r { memo = text_of v }) s (update_version body id)
      (key-IsKept _ λ r. refl) p (λ u q. update_version-IsDone mine id ps body u q)

update_ttl-IsDone :
    (mine : Text → Bool) (id : Text) (ps : List PeerRow) (body : Dict Value) (s : Server)
    → IsPatched mine id ps s
    → IsDone mine ps (update_ttl body id s)
unfolding update_ttl
update_ttl-IsDone mine id ps body s p =
    let v = get body (codes "ttlSeconds") in
    patch_field-IsDone mine id ps (is_bad is_valid_ttl v) "Invalid ttlSeconds (0-31536000)"
      (is_there v) (λ r. record r { ttl_seconds = number_or 0 v }) s (update_memo body id)
      (key-IsKept _ λ r. refl) p (λ u q. update_memo-IsDone mine id ps body u q)

update_ip-IsDone :
    (mine : Text → Bool) (id : Text) (ps : List PeerRow) (body : Dict Value) (s : Server)
    → IsPatched mine id ps s
    → IsDone mine ps (update_ip body id s)
unfolding update_ip
update_ip-IsDone mine id ps body s p =
    let v = get body (codes "publicIpv4") in
    patch_field-IsDone mine id ps (is_bad_or_empty is_valid_ipv4 v) "Invalid publicIpv4"
      (is_there v) (λ r. record r { public_ip = text_of v }) s (update_ttl body id)
      (key-IsKept _ λ r. refl) p (λ u q. update_ttl-IsDone mine id ps body u q)

update_peer-IsDone :
    (mine : Text → Bool) (id : Text) (ps : List PeerRow) (body : Dict Value) (s : Server)
    → IsPatched mine id ps s
    → IsDone mine ps (update_peer body id s)
unfolding update_peer
update_peer-IsDone mine id ps body s p =
    let v = get body (codes "pubkey") in
    patch_field-IsDone mine id ps (is_bad_or_empty is_valid_pubkey v)
      "Invalid pubkey (base64, 44 chars)" (is_there v) (λ r. record r { pubkey = text_of v }) s
      (update_ip body id) (key-IsKept _ λ r. refl) p (λ u q. update_ip-IsDone mine id ps body u q)

pub patch_peer-Touches :
    (c : Caller) (id : Text) (body : Body) (s : Server)
    → are_apart s.db.peers ≡ true
    → Touches c s (patch_peer c id body s)
unfolding patch_peer
patch_peer-Touches c id invalid s h = kept s.db.peers
patch_peer-Touches c id nothing s h =
    owned-Touches c id s _ _ h (kept s.db.peers) λ row same mine. kept s.db.peers
patch_peer-Touches c id (fields m) s h =
    owned-Touches c id s _ _ h (kept s.db.peers) λ row same mine.
      (update_peer-IsDone (may c s.db) id s.db.peers m s
        (record { change = kept s.db.peers; own = mine })).done
