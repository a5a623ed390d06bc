-- ===== src/Shared/Protocol/RoundTrip.antt =====
-- Decoding undoes encoding.
use meshezia.Common.{
  ℕ, Text, ◌≡◌, List, ◌++◌, length, take, drop, take-append, drop-append, subst, ap,
}
use meshezia.Shared.Protocol.{Utf8, encode_relay_frame, decode_relay_frame, relay_peer_id_len}

-- The id of a peer as the wire needs it: 36 bytes, which decode to the id again.
pub record IsWireId (utf8 : Utf8) (id : Text) : Type 0 where
  pub fits : length (utf8.encode id) ≡ relay_peer_id_len
  pub decodes : utf8.decode (utf8.encode id) ≡ id

pub take-header :
    (header payload : List ℕ)
    → length header ≡ relay_peer_id_len
    → take relay_peer_id_len (header ++ payload) ≡ header
take-header header payload h =
    subst (λ n. take n (header ++ payload) ≡ header) h (take-append header payload)

pub drop-header :
    (header payload : List ℕ)
    → length header ≡ relay_peer_id_len
    → drop relay_peer_id_len (header ++ payload) ≡ payload
drop-header header payload h =
    subst (λ n. drop n (header ++ payload) ≡ payload) h (drop-append header payload)

-- A frame that is encoded for a peer id of 36 bytes decodes to that id and to the payload, whatever
-- the payload.
pub decode_relay_frame-encode_relay_frame :
    (utf8 : Utf8) (id : Text) (payload : List ℕ)
    → IsWireId utf8 id
    → decode_relay_frame utf8 (encode_relay_frame utf8 id payload) ≡ (id, payload)
unfolding decode_relay_frame encode_relay_frame
decode_relay_frame-encode_relay_frame utf8 id payload w = cc (
  ap utf8.decode (take-header (utf8.encode id) payload w.fits),
  w.decodes,
  drop-header (utf8.encode id) payload w.fits,
)
