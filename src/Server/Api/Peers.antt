-- ===== src/Server/Api/Peers.antt =====
-- "Peers" and "Peer update" of packages/server/src/api.ts.
use Prim.Native.String.{String}
use meshezia.Common.{
  ℕ, Text, codes, split, Bool, true, false, not, Option, none, some, List, [], ◌∷◌, map, length,
  leb, if◌then◌else◌, number_of,
}
use meshezia.Common.Dict.{Dict, get}
use meshezia.Server.Db.{NetworkRow, PeerRow, Db, network_by_id, peer_by_id, delete_peer}
use meshezia.Server.State.{Server}
use meshezia.Server.Subnet.{Cidr, allocate_ip}
use meshezia.Server.Api.Values.{
  Number, natural, Value, text, Body, invalid, nothing, fields, Platform, or_default, text_of,
  number_or,
}
use meshezia.Server.Api.Validate.{
  is_valid_uuid, is_valid_name, is_valid_ipv4, is_valid_pubkey, is_valid_ttl, is_valid_memo, is_bad,
  is_bad_or_empty, at_slash,
}
use meshezia.Server.Api.Reply.{
  Reply, fail, succeed, created, uncaught, Caller, require_admin, require_admin_or_network, ok,
  peer, peers, format_peer,
}
use meshezia.Server.Api.Tables.{peers_of, insert_peer, change_peer}

-- The four octets that a text splits into, each by `Number`.
abbrev pub octets : List Text → Option (ℕ × ℕ × ℕ × ℕ)
octets (a ∷ b ∷ c ∷ d ∷ []) = elim (number_of 0 a) [
  | none ↦ none
  | some n0 ↦ elim (number_of 0 b) [
    | none ↦ none
    | some n1 ↦ elim (number_of 0 c) [
      | none ↦ none
      | some n2 ↦ elim (number_of 0 d) [ none ↦ none | some n3 ↦ some (n0, n1, n2, n3) ]
    ]
  ]
]
octets _ = none

abbrev cidr_of : Option (ℕ × ℕ × ℕ × ℕ) → Number → Option Cidr
cidr_of (some (n0, n1, n2, n3)) (natural prefix) =
    some (record { o0 = n0; o1 = n1; o2 = n2; o3 = n3; prefix = prefix })
cidr_of _ _ = none

-- `parseCidr` of packages/server/src/subnet.ts, for a text that has passed `isValidCIDR`, as those in
-- the database have: it has one slash, and other texts give `none`.
unfoldable pub parse_cidr : Platform → Text → Option Cidr
parse_cidr platform cidr = elim (at_slash cidr) [
  | none ↦ none
  | some (ip, prefix) ↦ cidr_of (octets (split b'.' ip)) (platform.to_number prefix)
]

-- `allocateIp` on the text of the subnet.
unfoldable pub allocate_in : Platform → NetworkRow → Db → Option Text
unfolding parse_cidr
allocate_in platform row db = elim (parse_cidr platform row.subnet) [
  | none ↦ none
  | some cidr ↦ allocate_ip row.id cidr db
]

-- The row of POST /api/peers; `is_relay_eligible` has its default.
unfoldable pub new_peer : Platform → (uuid : Text) → ℕ → (ipv4 : Text) → Dict Value → PeerRow
new_peer platform uuid now ipv4 body = record {
  id = uuid;
  network_id = text_of (get body (codes "networkId"));
  name = text_of (get body (codes "name"));
  public_ip = text_of (get body (codes "publicIpv4"));
  pubkey = text_of (get body (codes "pubkey"));
  ipv4 = ipv4;
  last_seen = now;
  is_relay_eligible = 0;
  ttl_seconds = number_or 0 (get body (codes "ttlSeconds"));
  memo = text_of (get body (codes "memo"));
  agent_version = or_default platform.text_column (get body (codes "agentVersion")) [];
}

unfoldable pub save_peer : PeerRow → Server → Reply
unfolding insert_peer
save_peer row s = elim (insert_peer row s.db) [
  | none ↦ fail 409 "Peer name already exists in this network" s
  | some db ↦ created (peer (format_peer row)) (record s { db = db })
]

-- The handler behind the tests of the body and of the token.
unfoldable pub register_peer : Platform → (uuid : Text) → ℕ → Dict Value → Server → Reply
unfolding new_peer save_peer
register_peer platform uuid now body s =
    elim (network_by_id s.db (text_of (get body (codes "networkId")))) [
      | none ↦ fail 404 "Network not found" s
      | some row ↦ elim (allocate_in platform row s.db) [
        | none ↦ fail 409 "No free IPs available" s
        | some ipv4 ↦ save_peer (new_peer platform uuid now ipv4 body) s
      ]
    ]

unfoldable pub create_peer : Platform → (uuid : Text) → ℕ → Caller → Dict Value → Server → Reply
unfolding register_peer
create_peer platform uuid now c body s =
    if not (is_valid_uuid (get body (codes "networkId")))
    then fail 400 "Invalid networkId" s
    else if not (is_valid_name (get body (codes "name")))
    then fail 400 "Invalid name (1-255 chars)" s
    else if is_bad_or_empty is_valid_ipv4 (get body (codes "publicIpv4"))
    then fail 400 "Invalid publicIpv4" s
    else if is_bad_or_empty is_valid_pubkey (get body (codes "pubkey"))
    then fail 400 "Invalid pubkey (base64, 44 chars)" s
    else if is_bad is_valid_ttl (get body (codes "ttlSeconds"))
    then fail 400 "Invalid ttlSeconds (0-31536000)" s
    else if is_bad is_valid_memo (get body (codes "memo"))
    then fail 400 "Invalid memo (max 1024 chars)" s
    else require_admin_or_network c (text_of (get body (codes "networkId"))) s
        (register_peer platform uuid now body s)

-- POST /api/peers
unfoldable pub post_peers : Platform → (uuid : Text) → ℕ → Caller → Body → Server → Reply
unfolding create_peer
post_peers platform uuid now c invalid s = fail 400 "Invalid JSON" s
post_peers platform uuid now c nothing s = uncaught s
post_peers platform uuid now c (fields m) s = create_peer platform uuid now c m s

-- GET /api/peers, for one network where the query names one that is not empty.
unfoldable pub get_peers : Caller → (network_id : Option Text) → Server → Reply
get_peers c (some (t ∷ ts)) s =
    require_admin_or_network c (t ∷ ts) s
      (succeed (peers (map format_peer (peers_of (t ∷ ts) s.db.peers))) s)
get_peers c _ s = require_admin c s (succeed (peers (map format_peer s.db.peers)) s)

-- DELETE /api/peers/:id
unfoldable pub remove_peer : Caller → Text → Server → Reply
unfolding delete_peer
remove_peer c id s = elim (peer_by_id s.db id) [
  | none ↦ fail 404 "Not found" s
  | some row ↦
      require_admin_or_network c row.network_id s
        (succeed ok (record s { db = delete_peer s.db id }))
]

-- One field of PATCH /api/peers/:id: `is_bad_field` says that it is there and not valid. What was
-- written for the fields before it stays.
unfoldable pub patch_field :
    (is_bad_field : Bool)
    → String
    → (is_there : Bool) → (PeerRow → PeerRow)
    → Text
    → Server
    → (Server → Reply)
    → Reply
unfolding change_peer
patch_field is_bad_field message is_there f id s rest =
    if is_bad_field
    then fail 400 message s
    else rest (if is_there then record s { db = change_peer f id s.db } else s)

abbrev pub is_there : Option Value → Bool
is_there none = false
is_there (some v) = true

-- A text of at most 64 units.
abbrev pub is_version : Option Value → Bool
is_version (some (text t)) = leb (length t) 64
is_version _ = false

unfoldable pub finish_peer : Text → Server → Reply
finish_peer id s = elim (peer_by_id s.db id) [
  | none ↦ uncaught s
  | some row ↦ succeed (peer (format_peer row)) s
]

-- The fields of PATCH /api/peers/:id, the last first.
unfoldable pub update_version : Dict Value → Text → Server → Reply
unfolding patch_field finish_peer
update_version body id s =
    let v = get body (codes "agentVersion") in
    patch_field (false) "" (is_version v) (λ p. record p { agent_version = text_of v }) id s
      (finish_peer id)

unfoldable pub update_memo : Dict Value → Text → Server → Reply
unfolding patch_field update_version
update_memo body id s =
    let v = get body (codes "memo") in
    patch_field (is_bad is_valid_memo v) "Invalid memo (max 1024 chars)" (is_there v)
      (λ p. record p { memo = text_of v }) id s (update_version body id)

unfoldable pub update_ttl : Dict Value → Text → Server → Reply
unfolding patch_field update_memo
update_ttl body id s =
    let v = get body (codes "ttlSeconds") in
    patch_field (is_bad is_valid_ttl v) "Invalid ttlSeconds (0-31536000)" (is_there v)
      (λ p. record p { ttl_seconds = number_or 0 v }) id s (update_memo body id)

unfoldable pub update_ip : Dict Value → Text → Server → Reply
unfolding patch_field update_ttl
update_ip body id s =
    let v = get body (codes "publicIpv4") in
    patch_field (is_bad_or_empty is_valid_ipv4 v) "Invalid publicIpv4" (is_there v)
      (λ p. record p { public_ip = text_of v }) id s (update_ttl body id)

unfoldable pub update_peer : Dict Value → Text → Server → Reply
unfolding patch_field update_ip
update_peer body id s =
    let v = get body (codes "pubkey") in
    patch_field (is_bad_or_empty is_valid_pubkey v) "Invalid pubkey (base64, 44 chars)" (is_there v)
      (λ p. record p { pubkey = text_of v }) id s (update_ip body id)

-- `body.pubkey` of `null` throws only behind the test of the token.
abbrev patch_body : Body → Text → Server → Reply
patch_body (fields m) id s = update_peer m id s
patch_body _ id s = uncaught s

-- PATCH /api/peers/:id
unfoldable pub patch_peer : Caller → Text → Body → Server → Reply
unfolding update_peer
patch_peer c id invalid s = fail 400 "Invalid JSON" s
patch_peer c id body s = elim (peer_by_id s.db id) [
  | none ↦ fail 404 "Not found" s
  | some row ↦ require_admin_or_network c row.network_id s (patch_body body id s)
]
