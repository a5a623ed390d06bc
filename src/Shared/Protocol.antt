-- ===== src/Shared/Protocol.antt =====
-- packages/shared/src/protocol.ts: relay frames, `[36-byte peer id][payload]`.
pub mod RoundTrip
use meshezia.Common.{ℕ, List, Text, ◌++◌, ◌≡◌, take, drop}

-- `TextEncoder` and `TextDecoder`, which are the platform's: every text that has no lone surrogate
-- decodes from its encoding.
pub record Utf8 : Type 0 where
  pub encode : Text → List ℕ
  pub decode : List ℕ → Text

abbrev pub relay_peer_id_len : ℕ
relay_peer_id_len = 36

-- `frame.set(header, 0); frame.set(payload, header.length)` on a frame of just their lengths
unfoldable pub encode_relay_frame : Utf8 → Text → List ℕ → List ℕ
encode_relay_frame utf8 dest_peer_id payload = utf8.encode dest_peer_id ++ payload

unfoldable pub decode_relay_frame : Utf8 → List ℕ → Text × List ℕ
decode_relay_frame utf8 frame =
    (utf8.decode (take relay_peer_id_len frame), drop relay_peer_id_len frame)
