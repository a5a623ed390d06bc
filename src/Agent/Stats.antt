-- ===== src/Agent/Stats.antt =====
-- `getAllPeerStats` of packages/agent/src/awg.ts: the output of `awg show all dump`. `trim` and
-- `to_number` are the platform's, the latter where it gives a natural number.
pub mod RoundTrip
use meshezia.Common.{ℕ, Text, split, Bool, true, false, ◌||◌, List, [], ◌∷◌, ◌++◌, if◌then◌else◌}
use meshezia.Common.Dict.{Dict, set}
use meshezia.Agent.Monitor.{PeerStats}

abbrev pub is_empty : Text → Bool
is_empty [] = true
is_empty (c ∷ cs) = false

-- `${ifName}\t${pubkey}`
abbrev pub key_of : Text → Text → Text
key_of if_name pubkey = if_name ++ (9 ∷ pubkey)

module _ (trim : Text → Text) (to_number : Text → ℕ) where
  -- A line with at least eight parts.
  unfoldable pub add_peer :
      (if_name pubkey endpoint handshake rx tx : Text) → Dict PeerStats → Dict PeerStats
  add_peer if_name pubkey endpoint handshake rx tx result =
      if is_empty if_name || is_empty pubkey
      then result
      else set result (key_of if_name pubkey) (record {
        if_name = if_name;
        pubkey = pubkey;
        rx_bytes = to_number rx;
        tx_bytes = to_number tx;
        latest_handshake = to_number handshake;
        endpoint = endpoint;
      })

  unfoldable pub add_parts : List Text → Dict PeerStats → Dict PeerStats
  unfolding add_peer
  add_parts (p0 ∷ p1 ∷ p2 ∷ p3 ∷ p4 ∷ p5 ∷ p6 ∷ p7 ∷ rest) result =
      add_peer (trim p0) (trim p1) (trim p3) (trim p5) (trim p6) (trim p7) result
  add_parts _ result = result

  unfoldable pub add_lines : List Text → Dict PeerStats → Dict PeerStats
  unfolding add_parts
  add_lines [] result = result
  add_lines (line ∷ rest) result = add_lines rest (add_parts (split 9 line) result)

  unfoldable pub get_all_peer_stats : (out : Text) → Dict PeerStats
  unfolding add_lines
  get_all_peer_stats out = if is_empty out then [] else add_lines (split 10 out) []
