-- ===== src/Agent/Stats/RoundTrip.antt =====
-- What is read from a dump is what was printed.
use meshezia.Common.{
  ℕ, Text, lacks, join, all_lack, split-join, true, false, List, [], ◌∷◌, ◌++◌, ◌≡◌, refl, ap, ◌∙◌,
  arith, map, All,
}
use meshezia.Common.Dict.{set, Dict}
use meshezia.Agent.Monitor.{PeerStats}
use meshezia.Agent.Stats.{add_peer, add_parts, add_lines, get_all_peer_stats, is_empty}

-- A line of `awg show all dump`: of an interface, or of a peer at one.
pub data DumpLine : Type 0 where
  interface : (if_name private_key public_key listen_port fwmark : Text) → DumpLine
  peer :
      (if_name public_key preshared_key endpoint allowed_ips handshake rx tx keepalive : Text)
      → DumpLine

abbrev pub first_field : DumpLine → Text
first_field (interface i k p l f) = i
first_field (peer i k s e a h r t v) = i

abbrev pub other_fields : DumpLine → List Text
other_fields (interface i k p l f) = k ∷ p ∷ l ∷ f ∷ []
other_fields (peer i k s e a h r t v) = k ∷ s ∷ e ∷ a ∷ h ∷ r ∷ t ∷ v ∷ []

abbrev pub print_line : DumpLine → Text
print_line line = join 9 (first_field line ∷ other_fields line)

abbrev pub print_dump : List DumpLine → Text
print_dump lines = join 10 (map print_line lines)

append_given : (t rest : Text) (c : ℕ) → is_empty (t ++ c ∷ rest) ≡ false
append_given [] rest c = refl
append_given (d ∷ ds) rest c = refl

line_given : (line : DumpLine) → is_empty (print_line line) ≡ false
line_given (interface i k p l f) = append_given i _ 9
line_given (peer i k s e a h r t v) = append_given i _ 9

dump_given : (line : DumpLine) (rest : List DumpLine) → is_empty (print_dump (line ∷ rest)) ≡ false
dump_given line [] = line_given line
dump_given line (next ∷ rest) = append_given (print_line line) _ 10

module _ (trim : Text → Text) (to_number : Text → ℕ) where
  -- Fields without tabs, and nothing at their ends that `trim` takes off; lines without line breaks.
  pub record IsPlain (line : DumpLine) : Type 0 where
    pub no_tab : all_lack 9 (first_field line ∷ other_fields line) ≡ true
    pub no_break : lacks 10 (print_line line) ≡ true
    pub trimmed : All (λ t. trim t ≡ t) (first_field line ∷ other_fields line)

  -- The statistics that a line holds.
  abbrev pub with_line : DumpLine → Dict PeerStats → Dict PeerStats
  with_line (interface i k p l f) result = result
  with_line (peer [] k s e a h r t v) result = result
  with_line (peer (c ∷ cs) [] s e a h r t v) result = result
  with_line (peer (c ∷ cs) (d ∷ ds) s e a h r t v) result =
      set result ((c ∷ cs) ++ 9 ∷ d ∷ ds) (record {
        if_name = c ∷ cs;
        pubkey = d ∷ ds;
        rx_bytes = to_number r;
        tx_bytes = to_number t;
        latest_handshake = to_number h;
        endpoint = e;
      })

  add_peer-with_line :
      (i k s e a h r t v : Text) (result : Dict PeerStats)
      → add_peer trim to_number i k e h r t result ≡ with_line (peer i k s e a h r t v) result
  unfolding add_peer
  add_peer-with_line [] k s e a h r t v result = refl
  add_peer-with_line (c ∷ cs) [] s e a h r t v result = refl
  add_peer-with_line (c ∷ cs) (d ∷ ds) s e a h r t v result = refl

  abbrev pub with_lines : List DumpLine → Dict PeerStats → Dict PeerStats
  with_lines [] result = result
  with_lines (line ∷ rest) result = with_lines rest (with_line line result)

  add_parts-with_line :
      (line : DumpLine) (result : Dict PeerStats)
      → All (λ t. trim t ≡ t) (first_field line ∷ other_fields line)
      → add_parts trim to_number (first_field line ∷ other_fields line) result
        ≡ with_line line result
  unfolding add_parts
  add_parts-with_line (interface i k p l f) result h = refl
  add_parts-with_line (peer i k s e a hs r t v) result
        (e0, (e1, (e2, (e3, (e4, (e5, (e6, (e7, e8)))))))) =
      rw (e0, e1, e3, e5, e6, e7) (add_peer-with_line i k s e a hs r t v result)

  add_lines-with_lines :
      (lines : List DumpLine) (result : Dict PeerStats)
      → All IsPlain lines
      → add_lines trim to_number (map print_line lines) result ≡ with_lines lines result
  unfolding add_lines
  add_lines-with_lines [] result h = refl
  add_lines-with_lines (line ∷ rest) result (v, vs) =
      let go : Dict PeerStats → Dict PeerStats = add_lines trim to_number (map print_line rest) in
      ap (λ (parts : List Text). go (add_parts trim to_number parts result))
        (split-join 9 (first_field line) (other_fields line) v.no_tab)
      ∙ ap go (add_parts-with_line line result v.trimmed)
      ∙ add_lines-with_lines rest (with_line line result) vs

  no_breaks :
      (lines : List DumpLine) → All IsPlain lines → all_lack 10 (map print_line lines) ≡ true
  no_breaks [] h = refl
  no_breaks (line ∷ rest) (v, vs) = ground (arith, v.no_break, no_breaks rest vs)

  -- A dump of lines whose fields have no tabs, line breaks or blanks at their ends is read line by
  -- line: a line of a peer with an interface and a key sets the entry under the interface, a tab and
  -- the key, with the numbers of the received and sent bytes and the last handshake and with the
  -- endpoint, in the order of the lines; lines of interfaces, or without an interface or a key, set
  -- nothing.
  pub get_all_peer_stats-print_dump :
      (line : DumpLine) (rest : List DumpLine)
      → All IsPlain (line ∷ rest)
      → get_all_peer_stats trim to_number (print_dump (line ∷ rest)) ≡ with_lines (line ∷ rest) []
  unfolding get_all_peer_stats
  get_all_peer_stats-print_dump line rest h =
      rw
        (
          dump_given line rest,
          split-join 10 (print_line line) (map print_line rest) (no_breaks (line ∷ rest) h),
        )
        (add_lines-with_lines (line ∷ rest) [] h)
