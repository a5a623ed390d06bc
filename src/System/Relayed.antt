-- ===== src/System/Relayed.antt =====
-- A datagram on its way from one agent over the server to another.
use meshezia.Common.{
  ℕ, Text, text_eq_refl, true, false, some, List, ◌∷◌, ◌≡◌, refl, arith, length, ltb,
}
use meshezia.Common.Dict.{get, has, get-set}
use meshezia.Server.State.{Server}
use meshezia.Server.Relay.{ws_binary}
use meshezia.Server.Relay.Laws.{ws_binary-encode_relay_frame}
use meshezia.Shared.Protocol.{Utf8, encode_relay_frame, decode_relay_frame}
use meshezia.Shared.Protocol.RoundTrip.{IsWireId}
use meshezia.Agent.RelayProxy.{Proxy, RelayEntry, udp_data, on_binary, forward}

on_binary-forward :
    (utf8 : Utf8) (now : ℕ) (source : Text) (frame buf : List ℕ) (entry : RelayEntry) (p : Proxy)
    → decode_relay_frame utf8 frame ≡ (source, buf)
    → get p.relays source ≡ some entry
    → has p.probing_peers source ≡ false
    → ltb 0 (length buf) ≡ true
    → ((on_binary utf8 now frame p).datagrams ≡ (entry.awg_listen_port, buf) ∷ p.datagrams)
      × (has (on_binary utf8 now frame p).relay_forwarded_peers source ≡ true)
unfolding on_binary forward has
on_binary-forward utf8 now source frame buf entry p e known free full = ground (
  arith,
  e,
  known,
  free,
  full,
  get-set p.relay_forwarded_peers source source tt,
  text_eq_refl source,
)

-- Where the ids of both peers are wire ids (they encode to 36 bytes that decode to them), the sending
-- agent's socket to the server is open, the destination is connected, and its agent has a relay for
-- the sender and is not probing it, a datagram that is not empty and reaches the sending agent's
-- relay socket for the destination is sent as one frame, which the server hands to the destination,
-- whose agent sends the same bytes to the port of its tunnel for the sender and notes that they came
-- over the relay.
pub udp_data-on_binary :
    (utf8 : Utf8) (now : ℕ) (source dest : Text) (buf : List ℕ) (ws : ℕ) (entry : RelayEntry)
    (s : Server) (p q : Proxy)
    → IsWireId utf8 source
    → IsWireId utf8 dest
    → p.is_open ≡ true
    → get s.connections dest ≡ some ws
    → get q.relays source ≡ some entry
    → has q.probing_peers source ≡ false
    → ltb 0 (length buf) ≡ true
    → ((frame : List ℕ) × (bytes : List ℕ) × ((udp_data utf8 dest buf p).frames ≡ frame ∷ p.frames)
        × ((ws_binary utf8 source frame s).frames ≡ (dest, bytes) ∷ s.frames)
        × ((on_binary utf8 now bytes q).datagrams ≡ (entry.awg_listen_port, buf) ∷ q.datagrams)
        × (has (on_binary utf8 now bytes q).relay_forwarded_peers source ≡ true))
unfolding udp_data
udp_data-on_binary utf8 now source dest buf ws entry s p q src dst opened connected known free
      full =
    let frame = encode_relay_frame utf8 dest buf in
    let sent = ws_binary-encode_relay_frame utf8 source dest buf ws s src dst connected in
    let received = on_binary-forward utf8 now source sent.0 buf entry q sent.2 known free full in
    (frame, sent.0, rw opened refl, sent.1, received.0, received.1)
