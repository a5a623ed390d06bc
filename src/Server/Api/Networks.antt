-- ===== src/Server/Api/Networks.antt =====
-- "Networks" of packages/server/src/api.ts.
use meshezia.Common.{
  Text, codes, Bool, ◌||◌, not, Option, none, some, map, length, leb, ltb, if◌then◌else◌,
}
use meshezia.Common.Dict.{Dict, get}
use meshezia.Shared.Entities.{AwgParams}
use meshezia.Server.Db.{NetworkRow, network_by_id}
use meshezia.Server.State.{Server}
use meshezia.Server.Api.Values.{
  Value, Body, invalid, nothing, fields, Platform, or_default, is_truthy, text_of, number_or,
}
use meshezia.Server.Api.Validate.{is_valid_name, is_valid_cidr, is_valid_port, is_bad}
use meshezia.Server.Api.Reply.{
  Reply, fail, succeed, created, uncaught, Caller, require_admin, ok, token, network,
  network_with_token, networks, format_network,
}
use meshezia.Server.Api.Tables.{insert_network, delete_network, change_network, rename_network}

-- What a request draws at random: `crypto.randomUUID()`, `generateToken()` and
-- `generateAwgParams()`.
pub record Fresh : Type 0 where
  pub uuid : Text
  pub secret : Text
  pub defaults : AwgParams

-- The row of POST /api/networks; `relay_enabled` has its default.
unfoldable pub new_network : Platform → Fresh → Dict Value → NetworkRow
new_network platform fresh body =
    let column = platform.integer_column in
    record {
      id = fresh.uuid;
      name = text_of (get body (codes "name"));
      token = fresh.secret;
      subnet = text_of (get body (codes "subnet"));
      listen_port = number_or 51820 (get body (codes "listenPort"));
      jc = or_default column (get body (codes "jc")) fresh.defaults.jc;
      jmin = or_default column (get body (codes "jmin")) fresh.defaults.jmin;
      jmax = or_default column (get body (codes "jmax")) fresh.defaults.jmax;
      s1 = or_default column (get body (codes "s1")) fresh.defaults.s1;
      s2 = or_default column (get body (codes "s2")) fresh.defaults.s2;
      h1 = or_default column (get body (codes "h1")) fresh.defaults.h1;
      h2 = or_default column (get body (codes "h2")) fresh.defaults.h2;
      h3 = or_default column (get body (codes "h3")) fresh.defaults.h3;
      h4 = or_default column (get body (codes "h4")) fresh.defaults.h4;
      relay_enabled = 1;
    }

unfoldable pub save_network : NetworkRow → Server → Reply
unfolding insert_network
save_network row s = elim (insert_network row s.db) [
  | none ↦ fail 409 "Network name already exists" s
  | some db ↦ created (network_with_token (format_network row) row.token) (record s { db = db })
]

unfoldable pub create_network : Platform → Fresh → Dict Value → Server → Reply
unfolding new_network save_network
create_network platform fresh body s =
    if not (is_valid_name (get body (codes "name")))
    then fail 400 "Invalid name (1-255 chars, no control chars)" s
    else if not (is_valid_cidr platform (get body (codes "subnet")))
    then fail 400 "Invalid subnet (CIDR /8-/30)" s
    else if is_bad is_valid_port (get body (codes "listenPort"))
    then fail 400 "Invalid listenPort (1-65535)" s
    else save_network (new_network platform fresh body) s

-- POST /api/networks
unfoldable pub post_networks : Platform → Fresh → Caller → Body → Server → Reply
unfolding create_network
post_networks platform fresh c body s = require_admin c s (elim body [
  | invalid ↦ fail 400 "Invalid JSON" s
  | nothing ↦ uncaught s
  | fields m ↦ create_network platform fresh m s
])

-- GET /api/networks
unfoldable pub get_networks : Caller → Server → Reply
get_networks c s = require_admin c s (succeed (networks (map format_network s.db.networks)) s)

-- GET /api/networks/:id
unfoldable pub get_network : Caller → Text → Server → Reply
get_network c id s = require_admin c s (elim (network_by_id s.db id) [
  | none ↦ fail 404 "Not found" s
  | some row ↦ succeed (network (format_network row)) s
])

-- GET /api/networks/:id/token
unfoldable pub get_network_token : Caller → Text → Server → Reply
get_network_token c id s = require_admin c s (elim (network_by_id s.db id) [
  | none ↦ fail 404 "Not found" s
  | some row ↦ succeed (token row.token) s
])

-- DELETE /api/networks/:id
unfoldable pub remove_network : Caller → Text → Server → Reply
unfolding delete_network
remove_network c id s = require_admin c s (succeed ok (record s { db = delete_network id s.db }))

-- `!name || name.length > 100`
abbrev pub is_bad_title : Text → Bool
is_bad_title name = not (leb 1 (length name)) || ltb 100 (length name)

-- `body.relayEnabled`, if it is there, and the response.
unfoldable pub switch_relay : Option Value → Text → Server → Server
unfolding change_network
switch_relay none id s = s
switch_relay (some v) id s = record s {
  db = change_network (λ n. record n { relay_enabled = if is_truthy v then 1 else 0 }) id s.db;
}

unfoldable pub finish_network : Option Value → Text → Server → Reply
unfolding switch_relay
finish_network relay_enabled id s =
    let switched = switch_relay relay_enabled id s in
    elim (network_by_id switched.db id) [
      | none ↦ fail 404 "Not found" switched
      | some row ↦ succeed (network (format_network row)) switched
    ]

unfoldable pub rename_then : Text → Option Value → Text → Server → Reply
unfolding rename_network finish_network
rename_then name relay_enabled id s =
    if is_bad_title name
    then fail 400 "Name must be 1-100 chars" s
    else elim (rename_network name id s.db) [
      | none ↦ uncaught s
      | some db ↦ finish_network relay_enabled id (record s { db = db })
    ]

unfoldable pub update_network : Platform → Dict Value → Text → Server → Reply
unfolding rename_then
update_network platform body id s = elim (get body (codes "name")) [
  | none ↦ finish_network (get body (codes "relayEnabled")) id s
  | some v ↦ rename_then (platform.trim (platform.to_text v)) (get body (codes "relayEnabled")) id s
]

-- PATCH /api/networks/:id
unfoldable pub patch_network : Platform → Caller → Text → Body → Server → Reply
unfolding update_network
patch_network platform c id body s = require_admin c s (elim body [
  | invalid ↦ fail 400 "Invalid JSON" s
  | nothing ↦ uncaught s
  | fields m ↦ update_network platform m id s
])
