-- ===== src/Server/Api/Confined.antt =====
-- What a request may do to the table of peers, whatever it asks for.
use meshezia.Server.Api.Routes.{
  network_list, agent_push, peer_update, mode_force, link_list, config_read, ports_save,
  peer_delete, peer_list, peer_create, network_update, network_delete, network_token, network_read,
  network_create, Request, Outside, handle,
}
use meshezia.Shared.Types.{ForceMode}
use meshezia.Server.Negotiate.Lifecycle.{get_or_create_health, finish_negotiation, put_health}
use meshezia.Server.Negotiate.Force.{
  force_health, set_forced_mode, abort_for_force, handle_force_mode,
}
use meshezia.Server.Api.Peers.{get_peers, post_peers}
use meshezia.Server.Api.Reply.{is_network_token, is_admin, Reply, Caller}
use meshezia.Server.Api.Networks.{
  get_network_token, get_network, get_networks, switch_relay, Fresh, finish_network, rename_then,
  save_network, create_network, update_network, post_networks, remove_network, patch_network,
}
use meshezia.Server.Api.Links.{
  get_links, push_update, post_update, force_pair, force_by, post_force_mode,
}
use meshezia.Common.{Text, Bool, true, false, List, [], ◌∷◌, ◌≡◌, sym, subst, arith}
use meshezia.Server.Db.{Db, PeerRow, delete_peer}
use meshezia.Server.State.{send_msg, send_text_to_peer, Server}
use meshezia.Server.Api.Values.{Platform, Body, invalid, nothing, fields}
use meshezia.Server.Api.Apart.{Change-peers_of, Change, kept, removed, followed, are_apart}
use meshezia.Server.Api.Touched.{Touches, may, admin-Touches, all-is_mine}
use meshezia.Server.Api.Patched.{patch_peer-Touches}
use meshezia.Server.Api.Tenants.{
  get_config-Touches, put_ports-Touches, remove_peer-Touches, create_peer-Touches,
}
use meshezia.Server.Api.Tables.{
  change_network, rename_network, insert_network, delete_peers_of, delete_network, peers_of,
}

-- Where the rows of peers are the same ones.
same-Touches :
    (c : Caller) (s : Server) (reply : Reply) → reply.1.db.peers ≡ s.db.peers → Touches c s reply
same-Touches c s reply e = subst (λ ps. Change (may c s.db) s.db.peers ps) (sym e) (kept s.db.peers)

delete_peers_of-Change :
    (mine : Text → Bool) (rows : List PeerRow) (db : Db)
    → ((n : Text) → mine n ≡ true)
    → Change mine db.peers (delete_peers_of rows db).peers
unfolding delete_peers_of delete_peer
delete_peers_of-Change mine [] db h = kept db.peers
delete_peers_of-Change mine (row ∷ rows) db h =
    followed db.peers _ _ (removed row.id db.peers (all-is_mine mine row.id db.peers h))
      (delete_peers_of-Change mine rows (delete_peer db row.id) h)

remove_network-Touches : (c : Caller) (id : Text) (s : Server) → Touches c s (remove_network c id s)
unfolding remove_network delete_network
remove_network-Touches c id s =
    admin-Touches c s _
      λ admin. delete_peers_of-Change (may c s.db) (peers_of id s.db.peers) _ λ n. ground arith

post_networks-Touches :
    (platform : Platform) (fresh : Fresh) (c : Caller) (body : Body) (s : Server)
    → Touches c s (post_networks platform fresh c body s)
unfolding post_networks create_network save_network insert_network
post_networks-Touches platform fresh c body s =
    same-Touches c s (post_networks platform fresh c body s) (ground arith)

patch_network-Touches :
    (platform : Platform) (c : Caller) (id : Text) (body : Body) (s : Server)
    → Touches c s (patch_network platform c id body s)
unfolding patch_network update_network rename_then finish_network switch_relay rename_network
    change_network
patch_network-Touches platform c id body s =
    same-Touches c s (patch_network platform c id body s) (ground arith)

force_peers-db :
    (a b : Text) (mode : ForceMode) (s : Server)
    → (handle_force_mode a b mode s).db.peers ≡ s.db.peers
unfolding handle_force_mode abort_for_force set_forced_mode put_health finish_negotiation
    get_or_create_health send_msg force_health
force_peers-db a b mode s = ground arith

force_pair-peers :
    (a b : Text) (mode : ForceMode) (s : Server) → (force_pair a b mode s).1.db.peers ≡ s.db.peers
unfolding force_pair
force_pair-peers a b mode s = ground (arith, force_peers-db a b mode s)

post_force_mode-Touches :
    (c : Caller) (body : Body) (s : Server) → Touches c s (post_force_mode c body s)
unfolding post_force_mode force_by
post_force_mode-Touches c body s =
    same-Touches c s (post_force_mode c body s) (grind (arith, force_pair-peers))

post_update-Touches :
    (platform : Platform) (c : Caller) (id : Text) (body : Body) (s : Server)
    → Touches c s (post_update platform c id body s)
unfolding post_update push_update send_text_to_peer send_msg
post_update-Touches platform c id body s =
    same-Touches c s (post_update platform c id body s) (ground arith)

pub handle-Touches :
    (o : Outside) (c : Caller) (r : Request) (s : Server)
    → are_apart s.db.peers ≡ true
    → Touches c s (handle o c r s)
unfolding handle get_networks get_network get_network_token post_peers get_peers get_links
handle-Touches o c (network_create body) s h = post_networks-Touches o.platform o.fresh c body s
handle-Touches o c network_list s h = admin-Touches c s _ λ admin. kept s.db.peers
handle-Touches o c (network_read id) s h = same-Touches c s (get_network c id s) (ground arith)
handle-Touches o c (network_token id) s h =
    same-Touches c s (get_network_token c id s) (ground arith)
handle-Touches o c (network_delete id) s h = remove_network-Touches c id s
handle-Touches o c (network_update id body) s h = patch_network-Touches o.platform c id body s
handle-Touches o c (peer_create invalid) s h = kept s.db.peers
handle-Touches o c (peer_create nothing) s h = kept s.db.peers
handle-Touches o c (peer_create (fields m)) s h =
    create_peer-Touches o.platform o.fresh.uuid o.now c m s
handle-Touches o c (peer_list network_id) s h =
    same-Touches c s (get_peers c network_id s) (ground arith)
handle-Touches o c (peer_delete id) s h = remove_peer-Touches c id s h
handle-Touches o c (ports_save id body) s h = put_ports-Touches c id body s h
handle-Touches o c (config_read id) s h = get_config-Touches o.decimal o.now c id s h
handle-Touches o c (link_list network_id) s h =
    same-Touches c s (get_links c network_id s) (ground arith)
handle-Touches o c (mode_force body) s h = post_force_mode-Touches c body s
handle-Touches o c (peer_update id body) s h = patch_peer-Touches c id body s h
handle-Touches o c (agent_push id body) s h = post_update-Touches o.platform c id body s

-- Where no two peers share an id, an address in their network or a name in it, a request whose caller
-- is neither the admin nor has the token of a network leaves every peer of that network as it was,
-- whatever it asks for and whichever other network's token it comes with.
pub handle-peers_of :
    (o : Outside) (c : Caller) (r : Request) (s : Server) (network_id : Text)
    → are_apart s.db.peers ≡ true
    → is_admin c ≡ false
    → is_network_token c network_id s.db ≡ false
    → peers_of network_id (handle o c r s).1.db.peers ≡ peers_of network_id s.db.peers
handle-peers_of o c r s network_id h no_admin no_token =
    Change-peers_of (may c s.db) network_id _ _ (handle-Touches o c r s h)
      (ground (arith, no_admin, no_token))
