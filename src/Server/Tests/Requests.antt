-- ===== src/Server/Tests/Requests.antt =====
-- Requests with no token, with the token of another network, and from the admin on.
use meshezia.Server.Subnet.{
  octet_text, address_text, first_free_address, used_addresses, total_hosts, octets_to_int,
  allocate_ip,
}
use meshezia.Server.Api.Validate.{
  is_ipv4, is_octet, is_valid_port, is_cidr, is_valid_cidr, is_valid_ttl, is_valid_memo,
  is_valid_pubkey, is_valid_ipv4, is_valid_name, matches, is_valid_uuid, at_slash,
}
use meshezia.Server.Api.Peers.{
  parse_cidr, allocate_in, new_peer, save_peer, register_peer, create_peer, post_peers,
}
use meshezia.Common.{
  split, ℕ, Text, codes, text_eq, true, false, Option, none, some, [], ◌∷◌, ◌≡◌, refl, arith,
  number_of,
}
use meshezia.Common.Dict.{get}
use meshezia.Server.Db.{peer_by_id, network_by_id, Db, PeerRow}
use meshezia.Server.State.{Server, initial}
use meshezia.Server.Tests.{db, settings, peer, a}
use meshezia.Server.Api.Values.{Number, natural, other, Platform, text, Body, fields}
use meshezia.Server.Api.Reply.{Caller, is_admin, get_bearer, is_network_token}
use meshezia.Server.Api.Networks.{save_network, new_network, create_network, post_networks}
use meshezia.Server.Api.Routes.{Outside, network_create, peer_delete, peer_create, handle}
use meshezia.Server.Api.Denied.{IsStranger, IsRefusal, handle-IsRefusal}
use meshezia.Server.Api.Apart.{are_apart}
use meshezia.Server.Api.Tables.{insert_network, insert_peer, peers_of}
use meshezia.Server.Api.Confined.{handle-peers_of}
use meshezia.Server.Api.Written.{Written, empty, after, served, Written-are_apart}
use meshezia.Server.Upgrade.{ws_access, admitted}
use meshezia.Server.Upgrade.Tokens.{tokens_differ, bearer, ws_access-may}
use meshezia.Server.Api.Touched.{may}
use meshezia.Common.{drop, ◌↔◌}
use meshezia.Server.Api.Addresses.{IsReadBack, address_text-IsReadBack}

abbrev number_in : Option ℕ → Number
number_in none = other
number_in (some n) = natural n

abbrev digits_of : Text → Number
digits_of t = number_in (number_of 0 t)

abbrev platform : Platform
platform = record {
  to_number = digits_of;
  to_text = λ v. [];
  trim = λ t. t;
  is_url = λ t. true;
  integer_column = λ v. 0;
  text_column = λ v. [];
}

abbrev outside : Outside
outside = record {
  platform = platform;
  decimal = λ n. n ∷ [];
  fresh = record {
    uuid = codes "5d3b9a70-0d0b-4a34-9a1c-3f6f8e2b7c11";
    secret = codes "f00d";
    defaults = record {
      jc = 4;
      jmin = 60;
      jmax = 200;
      s1 = 20;
      s2 = 30;
      h1 = 5;
      h2 = 6;
      h3 = 7;
      h4 = 8;
    };
  };
  now = 1000;
}

abbrev admin : Caller
admin = record { admin_token = codes "s3cret"; authorization = some (codes "Bearer s3cret") }

abbrev guesser : Caller
guesser = record { admin_token = codes "s3cret"; authorization = some (codes "Bearer guess") }

abbrev server : Server
server = initial settings db

guesser-IsStranger : IsStranger guesser server.db
unfolding is_admin get_bearer text_eq is_network_token initial
guesser-IsStranger = record { no_admin = refl; no_token = λ id. ground arith }

handle-IsRefusal_example : IsRefusal server (handle outside guesser (peer_delete a) server)
handle-IsRefusal_example =
    handle-IsRefusal outside guesser (peer_delete a) server guesser-IsStranger

-- A second network with a peer.
abbrev guest : PeerRow
guest = record (peer (codes "c")) { network_id = codes "m"; ipv4 = codes "10.200.0.1" }

abbrev two_networks : Db
two_networks = record db { peers = record (peer a) { ipv4 = codes "10.100.0.2" } ∷ guest ∷ [] }

abbrev shared : Server
shared = initial settings two_networks

-- The token of network `n`.
abbrev member : Caller
member = record { admin_token = codes "s3cret"; authorization = some (codes "Bearer t") }

shared_apart : are_apart shared.db.peers ≡ true
unfolding text_eq initial
shared_apart = refl

member_no_admin : is_admin member ≡ false
unfolding is_admin get_bearer text_eq
member_no_admin = refl

member_no_guest : is_network_token member (codes "m") shared.db ≡ false
unfolding is_network_token get_bearer text_eq initial
member_no_guest = refl

handle-peers_of_example :
    peers_of (codes "m") (handle outside member (peer_delete a) shared).1.db.peers
    ≡ peers_of (codes "m") shared.db.peers
handle-peers_of_example =
    handle-peers_of outside member (peer_delete a) shared (codes "m") shared_apart member_no_admin
      member_no_guest

abbrev nothing_yet : Server
nothing_yet =
    initial settings (record { networks = []; peers = []; peer_ports = []; peer_links = [] })

abbrev home : Body
home =
    fields
      ((codes "name", text (codes "home")) ∷ (codes "subnet", text (codes "10.100.0.0/24")) ∷ [])

abbrev with_network : Server
with_network = (handle outside admin (network_create home) nothing_yet).1

abbrev first_peer : Body
first_peer = fields (
    (codes "networkId", text (codes "5d3b9a70-0d0b-4a34-9a1c-3f6f8e2b7c11"))
    ∷ (codes "name", text (codes "one"))
    ∷ [])

abbrev with_peer : Server
with_peer = (handle outside admin (peer_create first_peer) with_network).1

with_peer-Written : Written with_peer.db
unfolding initial
with_peer-Written =
    after with_network.db with_peer.db
      (after nothing_yet.db with_network.db empty
        (served outside admin (network_create home) nothing_yet refl))
      (served outside admin (peer_create first_peer) with_network refl)

Written-are_apart_example : are_apart with_peer.db.peers ≡ true
Written-are_apart_example = Written-are_apart with_peer.db with_peer-Written

to_24 : platform.to_number (codes "24") ≡ natural 24
unfolding number_of
to_24 = refl

address_text-IsReadBack_example : IsReadBack platform 174325761 (codes "24") 24
address_text-IsReadBack_example =
    address_text-IsReadBack platform 174325761 (codes "24") 24 (omega arith) to_24 (omega arith)
      (omega arith)

-- The peer is registered, and the second one gets the next address.
first_registered : (handle outside admin (peer_create first_peer) with_network).0.status ≡ 201
unfolding handle post_peers create_peer register_peer save_peer new_peer allocate_in parse_cidr
    at_slash split number_of insert_peer is_valid_uuid matches is_valid_name is_valid_ipv4
    is_valid_pubkey is_valid_ttl is_valid_memo get text_eq initial is_admin get_bearer
    is_network_token network_by_id allocate_ip octets_to_int total_hosts used_addresses
    first_free_address address_text octet_text post_networks create_network new_network save_network
    insert_network is_valid_cidr is_cidr is_ipv4 is_octet is_valid_port
first_registered = refl

tokens_apart : tokens_differ shared.db.networks ≡ true
unfolding initial
tokens_apart = refl

a_row : peer_by_id shared.db a ≡ some (record (peer a) { ipv4 = codes "10.100.0.2" })
unfolding peer_by_id initial text_eq
a_row = refl

ws_access-may_example :
    (ws_access (codes "s3cret") (some (codes "t")) (some a) shared.db ≡ admitted a)
    ↔ (may (bearer (codes "s3cret") (codes "t")) shared.db (codes "n") ≡ true)
ws_access-may_example =
    ws_access-may (codes "s3cret") b't' [] b'0' (drop 1 a) shared.db
      (record (peer a) { ipv4 = codes "10.100.0.2" }) tokens_apart shared_apart a_row
