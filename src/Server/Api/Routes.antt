-- ===== src/Server/Api/Routes.antt =====
-- `createApi` of packages/server/src/api.ts: every route with its handler.
use meshezia.Common.{ℕ, Text, Option}
use meshezia.Server.State.{Server}
use meshezia.Server.Api.Values.{Body, Platform}
use meshezia.Server.Api.Reply.{Reply, Caller}
use meshezia.Server.Api.Networks.{
  Fresh, post_networks, get_networks, get_network, get_network_token, remove_network, patch_network,
}
use meshezia.Server.Api.Peers.{post_peers, get_peers, remove_peer, patch_peer}
use meshezia.Server.Api.Ports.{PortsBody, put_ports, get_config}
use meshezia.Server.Api.Links.{get_links, post_force_mode, post_update}

-- A request, by its method and path: what it is about, and what it asks for.
pub data Request : Type 0 where
  network_create : Body → Request
  network_list : Request
  network_read network_token network_delete : (id : Text) → Request
  network_update : (id : Text) → Body → Request
  peer_create : Body → Request
  peer_list : (network_id : Option Text) → Request
  peer_delete : (id : Text) → Request
  ports_save : (id : Text) → PortsBody → Request
  config_read : (id : Text) → Request
  link_list : (network_id : Option Text) → Request
  mode_force : Body → Request
  peer_update : (id : Text) → Body → Request
  agent_push : (id : Text) → Body → Request

-- What the handlers take from outside: the platform, the printing of numbers, what the request draws
-- at random and the time.
pub record Outside : Type 0 where
  pub platform : Platform
  pub decimal : ℕ → Text
  pub fresh : Fresh
  pub now : ℕ

unfoldable pub handle : Outside → Caller → Request → Server → Reply
handle o c (network_create body) s = post_networks o.platform o.fresh c body s
handle o c network_list s = get_networks c s
handle o c (network_read id) s = get_network c id s
handle o c (network_token id) s = get_network_token c id s
handle o c (network_delete id) s = remove_network c id s
handle o c (network_update id body) s = patch_network o.platform c id body s
handle o c (peer_create body) s = post_peers o.platform o.fresh.uuid o.now c body s
handle o c (peer_list network_id) s = get_peers c network_id s
handle o c (peer_delete id) s = remove_peer c id s
handle o c (ports_save id body) s = put_ports c id body s
handle o c (config_read id) s = get_config o.decimal o.now c id s
handle o c (link_list network_id) s = get_links c network_id s
handle o c (mode_force body) s = post_force_mode c body s
handle o c (peer_update id body) s = patch_peer c id body s
handle o c (agent_push id body) s = post_update o.platform c id body s
