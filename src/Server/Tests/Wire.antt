-- ===== src/Server/Tests/Wire.antt =====
-- Keys, frames, sockets and the rate limit at concrete values.
use meshezia.Common.{
  ℕ, Text, codes, text_eq, List, [], ◌∷◌, ◌-◌, ◌≤◌, ◌≡◌, refl, All, arith, some, false,
}
use meshezia.Server.Relay.Channels.{Sent, Implements, relay_all, send_all, relay_all-Implements}
use meshezia.Server.Relay.Laws.{ws_close-ws_open}
use meshezia.Server.RateLimit.Window.{let_through_bound, let_through}
use meshezia.Common.Dict.{has, set, get}
use meshezia.Server.RateLimit.{check_rate_limit, RateEntry, RateSettings}
use meshezia.Server.State.{initial, is_peer_connected}
use meshezia.Server.Negotiate.Keys.Laws.{parse_pair_key-pair_key, ordered, HasNoColon}
use meshezia.Server.Relay.{ws_close, ws_open}
use meshezia.Server.Negotiate.Keys.{pair_key, parse_pair_key}
use meshezia.Shared.Protocol.RoundTrip.{IsWireId}
use meshezia.Server.Tests.{a, b, bytes, both_open}

abbrev x : Text
x = codes "x"

abbrev y : Text
y = codes "y"

x_plain : HasNoColon x
x_plain = ((λ e. ground arith), tt)

y_plain : HasNoColon y
y_plain = ((λ e. ground arith), tt)

parse_pair_key-pair_key_example : parse_pair_key (pair_key y x) ≡ ordered y x
parse_pair_key-pair_key_example = parse_pair_key-pair_key y x y_plain x_plain

pub wire_a : IsWireId bytes a
wire_a = record { fits = refl; decodes = refl }

pub wire_b : IsWireId bytes b
wire_b = record { fits = refl; decodes = refl }

abbrev pub payload : List ℕ
payload = 1 ∷ 2 ∷ 3 ∷ []

pub b_open : get both_open.connections b ≡ some 2
unfolding ws_open initial get set text_eq
b_open = refl

ws_close-ws_open_example : is_peer_connected (ws_close a 1 (ws_open a 3 both_open)) a ≡ false
ws_close-ws_open_example = ws_close-ws_open a 1 3 both_open

abbrev limits : RateSettings
limits = record { rate_window_ms = 60000; rate_max_requests = 60 }

abbrev entry : RateEntry
entry = record { count = 58; reset_at = 60000 }

abbrev requests : List (ℕ × Text)
requests = (1, x) ∷ (2, y) ∷ (3, x) ∷ (4, x) ∷ []

entry_found : get ((x, entry) ∷ []) x ≡ some entry
unfolding get text_eq
entry_found = refl

in_window : All (λ (event : ℕ × Text). event.0 ≤ entry.reset_at) requests
in_window = (omega arith, (omega arith, (omega arith, (omega arith, tt))))

let_through_bound_example :
    let_through limits x requests ((x, entry) ∷ []) ≤ limits.rate_max_requests - entry.count
let_through_bound_example =
    let_through_bound limits x requests ((x, entry) ∷ []) entry entry_found in_window

run_passes : let_through limits x requests ((x, entry) ∷ []) ≡ 2
unfolding let_through check_rate_limit get set text_eq
run_passes = refl

-- Three payloads between the two peers.
abbrev mail : List Sent
mail =
    record { source = a; dest = b; payload = 1 ∷ [] }
    ∷ record { source = b; dest = a; payload = 2 ∷ [] }
    ∷ record { source = a; dest = b; payload = 3 ∷ [] }
    ∷ []

both_open-Implements : Implements bytes both_open (λ d. [])
unfolding ws_open initial
both_open-Implements d = refl

relay_all-Implements_example :
    Implements bytes
      (relay_all bytes mail both_open)
      (send_all (is_peer_connected both_open) mail (λ d. []))
relay_all-Implements_example =
    relay_all-Implements bytes mail both_open (λ d. [])
      ((wire_a, wire_b), ((wire_b, wire_a), ((wire_a, wire_b), tt))) both_open-Implements

-- Peer `b` has the payloads of `a`, the last first.
inbox_of_b :
    send_all (is_peer_connected both_open) mail (λ d. []) b ≡ (a, 3 ∷ []) ∷ (a, 1 ∷ []) ∷ []
unfolding is_peer_connected ws_open initial has get set text_eq
inbox_of_b = refl
