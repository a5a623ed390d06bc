-- ===== src/Server/Relay/Laws.antt =====
-- What the relay hands on, and what a closing socket leaves.
use meshezia.Common.{
  List, [], text_eq_refl, ◌≡◌, ℕ, Text, refl, arith, some, none, false, take, drop, ap, ◌∙◌, ltb,
  ◌++◌, ◌∷◌, length, replicate, length-append,
}
use meshezia.Common.Dict.{get, set, has, Dict, get-delete}
use meshezia.Server.State.{Server, NegotiationState, is_peer_connected, send_msg}
use meshezia.Shared.Types.{Reason, ws_reset}
use meshezia.Server.Negotiate.Lifecycle.{abort_parties, abort_if_party, abort_peer_negotiations}
use meshezia.Server.Relay.{relayed, ws_binary, ws_open, ws_close}
use meshezia.Shared.Protocol.{Utf8, relay_peer_id_len, encode_relay_frame, decode_relay_frame}
use meshezia.Shared.Protocol.RoundTrip.{
  IsWireId, take-header, drop-header, decode_relay_frame-encode_relay_frame,
}

relayed_wire :
    (src payload : List ℕ) → length src ≡ relay_peer_id_len → relayed src payload ≡ src ++ payload
unfolding relayed
relayed_wire src payload h = rw (take-header src (replicate relay_peer_id_len 0) h) refl

long_enough :
    (header payload : List ℕ)
    → length header ≡ relay_peer_id_len
    → ltb (length (header ++ payload)) relay_peer_id_len ≡ false
long_enough header payload h = ground (arith, length-append header payload)

ws_binary_known :
    (utf8 : Utf8) (source dest : Text) (msg payload : List ℕ) (ws : ℕ) (s : Server)
    → ltb (length msg) relay_peer_id_len ≡ false
    → utf8.decode (take relay_peer_id_len msg) ≡ dest
    → drop relay_peer_id_len msg ≡ payload
    → length (utf8.encode source) ≡ relay_peer_id_len
    → get s.connections dest ≡ some ws
    → (ws_binary utf8 source msg s).frames ≡ (dest, utf8.encode source ++ payload) ∷ s.frames
unfolding ws_binary
ws_binary_known utf8 source dest msg payload ws s long to rest fits known =
    ground (arith, relayed_wire (utf8.encode source) payload fits)

-- A frame that a peer encodes for a connected peer reaches that peer's socket, once, and decodes
-- there to the sender's id and the payload; no other frame is sent.
pub ws_binary-encode_relay_frame :
    (utf8 : Utf8) (source dest : Text) (payload : List ℕ) (ws : ℕ) (s : Server)
    → IsWireId utf8 source
    → IsWireId utf8 dest
    → get s.connections dest ≡ some ws
    → ((bytes : List ℕ) × ((ws_binary utf8 source (encode_relay_frame utf8 dest payload) s).frames
          ≡ (dest, bytes) ∷ s.frames)
        × (decode_relay_frame utf8 bytes ≡ (source, payload)))
unfolding encode_relay_frame
ws_binary-encode_relay_frame utf8 source dest payload ws s src dst known =
    let header = utf8.encode dest in
    (
      encode_relay_frame utf8 source payload,
      ws_binary_known utf8 source dest (header ++ payload) payload ws s
          (long_enough header payload dst.fits)
          (ap utf8.decode (take-header header payload dst.fits) ∙ dst.decodes)
          (drop-header header payload dst.fits) src.fits known,
      decode_relay_frame-encode_relay_frame utf8 source payload src,
    )

-- A binary message for a peer that has no socket is dropped: nothing changes.
pub ws_binary_unknown :
    (utf8 : Utf8) (source : Text) (msg : List ℕ) (s : Server)
    → get s.connections (decode_relay_frame utf8 msg).0 ≡ none
    → ws_binary utf8 source msg s ≡ s
unfolding ws_binary decode_relay_frame
ws_binary_unknown utf8 source msg s e = ground arith

connections-abort_parties :
    (peer_id : Text) (reason : Reason) (entries : Dict NegotiationState) (s : Server)
    → (abort_parties peer_id reason entries s).connections ≡ s.connections
unfolding abort_parties abort_if_party send_msg
connections-abort_parties peer_id reason [] s = refl
connections-abort_parties peer_id reason (e ∷ rest) s =
    connections-abort_parties peer_id reason rest (abort_if_party peer_id reason e s) ∙ ground arith

-- When a socket of a peer closes, the peer counts as not connected, also where a newer socket of
-- the peer was opened before and is still open.
pub ws_close-ws_open :
    (peer_id : Text) (old new : ℕ) (s : Server)
    → is_peer_connected (ws_close peer_id old (ws_open peer_id new s)) peer_id ≡ false
unfolding ws_close ws_open is_peer_connected has abort_peer_negotiations
ws_close-ws_open peer_id old new s =
    rw (connections-abort_parties peer_id ws_reset s.probes.negotiations _) (
      ground
        (arith, get-delete (set s.connections peer_id new) peer_id peer_id, text_eq_refl peer_id))
