-- ===== src/Server/Relay/Channels.antt =====
-- The relay as channels: for each peer, what it was sent.
use meshezia.Common.{
  ℕ, Text, text_eq, Bool, ◌&&◌, List, [], ◌∷◌, ◌≡◌, ap, subst, ◌∙◌, arith, inl, inr, Option-cases,
  if◌then◌else◌, is_some, All,
}
use meshezia.Common.Dict.{get, has}
use meshezia.Shared.Protocol.{Utf8, encode_relay_frame, decode_relay_frame}
use meshezia.Shared.Protocol.RoundTrip.{IsWireId, decode_relay_frame-encode_relay_frame}
use meshezia.Server.State.{Server, is_peer_connected}
use meshezia.Server.Relay.{ws_binary}
use meshezia.Server.Relay.Laws.{ws_binary-encode_relay_frame, ws_binary_unknown}

-- A payload that a peer sends to another.
pub record Sent : Type 0 where
  pub source : Text
  pub dest : Text
  pub payload : List ℕ

-- The specification: a channel to each peer, with the sender of each payload, the last first.
abbrev pub Channels : Type 0
Channels = Text → List (Text × List ℕ)

-- A payload goes to the end of its channel if the peer is connected, and nowhere if not.
abbrev pub send : (is_connected : Text → Bool) → Sent → Channels → Channels
send is_connected e channels d =
    if text_eq e.dest d && is_connected e.dest
    then (e.source, e.payload) ∷ channels d
    else channels d

abbrev pub send_all : (is_connected : Text → Bool) → List Sent → Channels → Channels
send_all is_connected [] channels = channels
send_all is_connected (e ∷ rest) channels =
    send_all is_connected rest (send is_connected e channels)

-- The relay: each payload is framed by its sender's agent.
abbrev pub relay_all : Utf8 → List Sent → Server → Server
relay_all utf8 [] s = s
relay_all utf8 (e ∷ rest) s =
    relay_all utf8 rest (ws_binary utf8 e.source (encode_relay_frame utf8 e.dest e.payload) s)

abbrev is_to : Text → Text × List ℕ → Bool
is_to d f = text_eq f.0 d

-- What the frames to a peer decode to.
abbrev pub received : Utf8 → Text → List (Text × List ℕ) → List (Text × List ℕ)
received utf8 d [] = []
received utf8 d (f ∷ fs) =
    let rest = received utf8 d fs in
    if text_eq f.0 d then decode_relay_frame utf8 f.1 ∷ rest else rest

-- The frames of a server hold what the channels hold.
abbrev pub Implements : Utf8 → Server → Channels → Type 0
Implements utf8 s channels = (d : Text) → received utf8 d s.frames ≡ channels d

ws_binary-connections :
    (utf8 : Utf8) (source : Text) (msg : List ℕ) (s : Server)
    → (ws_binary utf8 source msg s).connections ≡ s.connections
unfolding ws_binary
ws_binary-connections utf8 source msg s = ground arith

sent-Implements :
    (utf8 : Utf8) (e : Sent) (s : Server) (channels : Channels)
    → IsWireId utf8 e.source
    → IsWireId utf8 e.dest
    → Implements utf8 s channels
    → Implements utf8
        (ws_binary utf8 e.source (encode_relay_frame utf8 e.dest e.payload) s)
        (send (is_peer_connected s) e channels)
unfolding is_peer_connected has
sent-Implements utf8 e s channels src dst h d = elim (Option-cases (get s.connections e.dest)) [
  | inl gone ↦
      let same = ws_binary_unknown utf8 e.source (encode_relay_frame utf8 e.dest e.payload) s (
        ap (λ (r : Text × List ℕ). get s.connections r.0)
          (decode_relay_frame-encode_relay_frame utf8 e.dest e.payload dst)
        ∙ gone) in
      ap (λ (t : Server). received utf8 d t.frames) same ∙ ground (arith, h d, gone)
  | inr (ws, there) ↦
      let out = ws_binary-encode_relay_frame utf8 e.source e.dest e.payload ws s src dst there in
      ap (received utf8 d) out.1 ∙ ground (arith, h d, there, out.2)
]

-- Whatever peers send to whichever peers, each connected peer gets exactly the payloads that were
-- sent to it, with their senders, in the order in which they were sent and each once, and a peer that
-- is not connected gets nothing: the relay implements a channel to each peer.
pub relay_all-Implements :
    (utf8 : Utf8) (sent : List Sent) (s : Server) (channels : Channels)
    → All (λ (e : Sent). IsWireId utf8 e.source × IsWireId utf8 e.dest) sent
    → Implements utf8 s channels
    → Implements utf8 (relay_all utf8 sent s) (send_all (is_peer_connected s) sent channels)
unfolding is_peer_connected has
relay_all-Implements utf8 [] s channels ids h = h
relay_all-Implements utf8 (e ∷ rest) s channels ((src, dst), ids) h =
    let t = ws_binary utf8 e.source (encode_relay_frame utf8 e.dest e.payload) s in
    let later =
      relay_all-Implements utf8 rest t (send (is_peer_connected s) e channels) ids
        (sent-Implements utf8 e s channels src dst h) in
    subst
      (λ conns.
        Implements utf8 (relay_all utf8 rest t)
          (send_all (λ id. is_some (get conns id)) rest (send (is_peer_connected s) e channels)))
      (ws_binary-connections utf8 e.source (encode_relay_frame utf8 e.dest e.payload) s) later
