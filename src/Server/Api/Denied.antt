-- ===== src/Server/Api/Denied.antt =====
-- Requests without a token that counts.
use meshezia.Server.Api.Validate.{
  is_valid_uuid, is_valid_name, is_valid_ipv4, is_valid_pubkey, is_bad_or_empty, is_valid_ttl,
  is_valid_memo, is_bad,
}
use Prim.Native.String.{String}
use meshezia.Common.{
  not, codes, ℕ, ◌≤◌, Text, Bool, true, false, Option, none, some, [], ◌∷◌, ◌≡◌, refl, arith,
  if◌then◌else◌,
}
use meshezia.Common.Dict.{get, Dict}
use meshezia.Server.Db.{Db, PeerRow, peer_by_id}
use meshezia.Server.State.{Server}
use meshezia.Server.Api.Values.{text_of, Value, Platform, invalid, nothing, fields}
use meshezia.Server.Api.Reply.{
  Reply, fail, Caller, is_admin, is_network_token, require_admin, require_admin_or_network,
}
use meshezia.Server.Api.Networks.{
  post_networks, get_networks, get_network, get_network_token, remove_network, patch_network,
}
use meshezia.Server.Api.Peers.{
  register_peer, create_peer, post_peers, get_peers, remove_peer, patch_peer,
}
use meshezia.Server.Api.Ports.{put_ports, get_config}
use meshezia.Server.Api.Links.{get_links, post_force_mode, post_update}
use meshezia.Server.Api.Routes.{
  Request, network_create, network_list, network_read, network_token, network_delete,
  network_update, peer_create, peer_list, peer_delete, ports_save, config_read, link_list,
  mode_force, peer_update, agent_push, Outside, handle,
}

-- The caller is not the admin and no network has its token.
pub record IsStranger (c : Caller) (db : Db) : Type 0 where
  pub no_admin : is_admin c ≡ false
  pub no_token : (network_id : Text) → is_network_token c network_id db ≡ false

-- An error status, and the server as it was.
pub record IsRefusal (s : Server) (reply : Reply) : Type 0 where
  pub unchanged : reply.1 ≡ s
  pub failed : 400 ≤ reply.0.status

failed-IsRefusal :
    (status : ℕ) (message : String) (s : Server)
    → 400 ≤ status
    → IsRefusal s (fail status message s)
failed-IsRefusal status message s h = record { unchanged = refl; failed = h }

admin_only :
    (c : Caller) (s : Server) (rest : Reply)
    → IsStranger c s.db
    → IsRefusal s (require_admin c s rest)
admin_only c s rest v = rw (v.no_admin) (failed-IsRefusal 401 "Unauthorized" s (omega arith))

token_only :
    (c : Caller) (network_id : Text) (s : Server) (rest : Reply)
    → IsStranger c s.db
    → IsRefusal s (require_admin_or_network c network_id s rest)
token_only c network_id s rest v =
    rw (v.no_admin, v.no_token network_id) (failed-IsRefusal 401 "Unauthorized" s (omega arith))

-- A test that refuses before the rest of the handler.
guarded-IsRefusal :
    (s : Server) (is_bad : Bool) (message : String) (rest : Reply)
    → IsRefusal s rest
    → IsRefusal s (if is_bad then fail 400 message s else rest)
guarded-IsRefusal s true message rest p = failed-IsRefusal 400 message s (omega arith)
guarded-IsRefusal s false message rest p = p

-- What follows a look-up of a peer.
found-IsRefusal :
    (s : Server) (found : Option PeerRow) (x : Reply) (f : PeerRow → Reply)
    → IsRefusal s x
    → ((row : PeerRow) → IsRefusal s (f row))
    → IsRefusal s (elim found [ none ↦ x | some row ↦ f row ])
found-IsRefusal s none x f p q = p
found-IsRefusal s (some row) x f p q = q row

create_peer-IsRefusal :
    (platform : Platform) (uuid : Text) (now : ℕ) (c : Caller) (body : Dict Value) (s : Server)
    → IsStranger c s.db
    → IsRefusal s (create_peer platform uuid now c body s)
unfolding create_peer
create_peer-IsRefusal platform uuid now c body s v =
    let network_id = get body (codes "networkId") in
    let rest = token_only c (text_of network_id) s (register_peer platform uuid now body s) v in
    let g6 =
      guarded-IsRefusal s (is_bad is_valid_memo (get body (codes "memo")))
        "Invalid memo (max 1024 chars)" _ rest in
    let g5 =
      guarded-IsRefusal s (is_bad is_valid_ttl (get body (codes "ttlSeconds")))
        "Invalid ttlSeconds (0-31536000)" _ g6 in
    let g4 =
      guarded-IsRefusal s (is_bad_or_empty is_valid_pubkey (get body (codes "pubkey")))
        "Invalid pubkey (base64, 44 chars)" _ g5 in
    let g3 =
      guarded-IsRefusal s (is_bad_or_empty is_valid_ipv4 (get body (codes "publicIpv4")))
        "Invalid publicIpv4" _ g4 in
    let g2 =
      guarded-IsRefusal s (not (is_valid_name (get body (codes "name"))))
        "Invalid name (1-255 chars)" _ g3 in
    guarded-IsRefusal s (not (is_valid_uuid network_id)) "Invalid networkId" _ g2

-- A request from a caller who has neither the admin's token nor any network's is answered with an
-- error, whatever it asks for, and changes nothing.
pub handle-IsRefusal :
    (o : Outside) (c : Caller) (r : Request) (s : Server)
    → IsStranger c s.db
    → IsRefusal s (handle o c r s)
unfolding handle remove_peer put_ports get_config patch_peer post_networks get_networks get_network
    get_network_token remove_network patch_network get_peers post_peers get_links post_force_mode
    post_update
handle-IsRefusal o c (network_create body) s v = admin_only c s _ v
handle-IsRefusal o c network_list s v = admin_only c s _ v
handle-IsRefusal o c (network_read id) s v = admin_only c s _ v
handle-IsRefusal o c (network_token id) s v = admin_only c s _ v
handle-IsRefusal o c (network_delete id) s v = admin_only c s _ v
handle-IsRefusal o c (network_update id body) s v = admin_only c s _ v
handle-IsRefusal o c (peer_create invalid) s v = (failed-IsRefusal _ _ s (omega arith))
handle-IsRefusal o c (peer_create nothing) s v = (failed-IsRefusal _ _ s (omega arith))
handle-IsRefusal o c (peer_create (fields m)) s v =
    create_peer-IsRefusal o.platform o.fresh.uuid o.now c m s v
handle-IsRefusal o c (peer_list none) s v = admin_only c s _ v
handle-IsRefusal o c (peer_list (some [])) s v = admin_only c s _ v
handle-IsRefusal o c (peer_list (some (t ∷ ts))) s v = token_only c (t ∷ ts) s _ v
handle-IsRefusal o c (peer_delete id) s v =
    found-IsRefusal s (peer_by_id s.db id) _ _ (failed-IsRefusal _ _ s (omega arith))
      (λ row. token_only c row.network_id s _ v)
handle-IsRefusal o c (ports_save id body) s v =
    found-IsRefusal s (peer_by_id s.db id) _ _ (failed-IsRefusal _ _ s (omega arith))
      (λ row. token_only c row.network_id s _ v)
handle-IsRefusal o c (config_read id) s v =
    found-IsRefusal s (peer_by_id s.db id) _ _ (failed-IsRefusal _ _ s (omega arith))
      (λ row. token_only c row.network_id s _ v)
handle-IsRefusal o c (link_list none) s v = (failed-IsRefusal _ _ s (omega arith))
handle-IsRefusal o c (link_list (some [])) s v = (failed-IsRefusal _ _ s (omega arith))
handle-IsRefusal o c (link_list (some (t ∷ ts))) s v = token_only c (t ∷ ts) s _ v
handle-IsRefusal o c (mode_force body) s v = admin_only c s _ v
handle-IsRefusal o c (peer_update id invalid) s v = (failed-IsRefusal _ _ s (omega arith))
handle-IsRefusal o c (peer_update id nothing) s v =
    found-IsRefusal s (peer_by_id s.db id) _ _ (failed-IsRefusal _ _ s (omega arith))
      (λ row. token_only c row.network_id s _ v)
handle-IsRefusal o c (peer_update id (fields m)) s v =
    found-IsRefusal s (peer_by_id s.db id) _ _ (failed-IsRefusal _ _ s (omega arith))
      (λ row. token_only c row.network_id s _ v)
handle-IsRefusal o c (agent_push id body) s v = admin_only c s _ v
