-- ===== src/Agent/Tests/Polls.antt =====
-- Polls of a configuration of two peers, and a dump of one.
use meshezia.Common.{
  ap, In, ℕ, Text, codes, text_eq, true, Option, none, some, List, [], ◌∷◌, ◌≡◌, refl, arith, inl,
  inr, ◌==◌, if◌then◌else◌,
}
use meshezia.Common.Dict.{keys, get, set}
use meshezia.Shared.Entities.{PeerEndpoint}
use meshezia.Agent.Tests.Probes.{idle}
use meshezia.Agent.Monitor.{init_peer_state, empty}
use meshezia.Agent.RelayProxy.{Proxy, RelayEntry, ensure_relay_proxy}
use meshezia.Agent.Poll.{is_active, is_empty, remove_inactive, Known, poll_peers, poll_relays}
use meshezia.Agent.Poll.Active.{poll_relays-IsRelayed, poll_relays-IsGone, IsGone}
use meshezia.Agent.Poll.Relays.{IsRelayed}
use meshezia.Agent.Poll.Collision.{IsExclusive, IsReady, poll_relays-collision}
use meshezia.Agent.Stats.{get_all_peer_stats}
use meshezia.Agent.Stats.RoundTrip.{
  DumpLine, interface, peer, IsPlain, print_dump, with_lines, get_all_peer_stats-print_dump,
}

abbrev pub peer_of : Text → PeerEndpoint
peer_of id = record {
  id = id;
  name = id;
  pubkey = codes "k";
  mesh_ipv4 = codes "10.100.0.2";
  endpoint = [];
  listen_port = 0;
}

abbrev pub quiet : Proxy
quiet = record {
  relays = [];
  probing_peers = [];
  relay_forwarded_peers = [];
  is_open = true;
  last_ws_data_at = 0;
  agent = idle;
  frames = [];
  datagrams = [];
  removed_peers = [];
  updates = [];
}

abbrev known : Known
known = record {
  get_if_name_for_peer = λ id. some (codes "mza0");
  get_port_for_peer = λ id. none;
  listen_port = 51820;
}

abbrev peers : List PeerEndpoint
peers = peer_of (codes "p") ∷ peer_of (codes "q") ∷ []

abbrev any_port : ℕ → Option ℕ
any_port port = some port

polled : (poll_peers any_port known 0 peers quiet).0 ≡ true
unfolding poll_peers ensure_relay_proxy get set text_eq
polled = refl

poll_relays-IsRelayed_example : IsRelayed (poll_relays any_port known peers quiet) (codes "q")
poll_relays-IsRelayed_example =
    poll_relays-IsRelayed any_port known peers quiet (peer_of (codes "q")) (codes "mza0")
      (inr (inl refl)) refl refl polled

-- A later poll, of a configuration that peer `q` has left.
abbrev left : List PeerEndpoint
left = peer_of (codes "p") ∷ []

abbrev both_relayed : Proxy
both_relayed = poll_relays any_port known peers quiet

polled_again : (poll_peers any_port known 0 left both_relayed).0 ≡ true
unfolding poll_relays poll_peers ensure_relay_proxy get set text_eq remove_inactive is_active keys
    init_peer_state empty
polled_again = refl

q_absent : (end : PeerEndpoint) → In end left → end.id ≡ codes "q" → is_empty end.pubkey ≡ true
unfolding text_eq
q_absent end (inl e) same = absurd (
    ground (
      arith,
      ap (λ (x : PeerEndpoint). text_eq x.id (codes "q")) e,
      ap (λ t. text_eq t (codes "q")) same,
    ))
q_absent end (inr i) same = absurd i

q-IsRelayed : IsRelayed both_relayed (codes "q")
q-IsRelayed =
    poll_relays-IsRelayed any_port known peers quiet (peer_of (codes "q")) (codes "mza0")
      (inr (inl refl)) refl refl polled

poll_relays-IsGone_example : IsGone (poll_relays any_port known left both_relayed) (codes "q")
poll_relays-IsGone_example =
    poll_relays-IsGone any_port known left both_relayed (codes "q") q-IsRelayed q_absent
      polled_again

-- The relay that peer `p` got while a peer that is now gone stood before it.
abbrev kept_entry : RelayEntry
kept_entry = record {
  peer_id = codes "p";
  local_port = 41821;
  udp_socket = 1;
  awg_listen_port = 51820;
}

abbrev moved : Proxy
moved = record quiet { relays = (codes "p", kept_entry) ∷ [] }

abbrev but_one : ℕ → Option ℕ
but_one port = if port == 41821 then none else some port

moved-IsExclusive : IsExclusive but_one moved
unfolding get
moved-IsExclusive id entry e = ground arith

ready : (id : Text) → IsReady known (peer_of id)
ready id = record { keyed = refl; if_name = codes "mza0"; named = refl }

p_held : get moved.relays (codes "p") ≡ some kept_entry
unfolding get text_eq
p_held = refl

q_new : get moved.relays (codes "q") ≡ none
unfolding get text_eq
q_new = refl

poll_relays-collision_example :
    (poll_relays but_one known (peer_of (codes "p") ∷ peer_of (codes "q") ∷ []) moved).relays
    ≡ moved.relays
poll_relays-collision_example =
    poll_relays-collision but_one known (peer_of (codes "p")) (peer_of (codes "q")) [] moved
      kept_entry moved-IsExclusive (ready (codes "p")) (ready (codes "q")) p_held refl q_new

abbrev tunnel : DumpLine
tunnel = interface (codes "mza0") (codes "key") (codes "k1") (codes "51820") (codes "off")

abbrev other_end : DumpLine
other_end =
    peer (codes "mza0") (codes "k2") (codes "(none)") (codes "192.0.2.1:51820") (codes "0.0.0.0/0")
      (codes "17") (codes "100") (codes "200") (codes "3")

abbrev as_it_is : Text → Text
as_it_is t = t

abbrev first_unit : Text → ℕ
first_unit [] = 0
first_unit (c ∷ cs) = c

tunnel-IsPlain : IsPlain as_it_is first_unit tunnel
tunnel-IsPlain = record {
  no_tab = refl;
  no_break = refl;
  trimmed = (refl, (refl, (refl, (refl, (refl, tt)))));
}

other_end-IsPlain : IsPlain as_it_is first_unit other_end
other_end-IsPlain = record {
  no_tab = refl;
  no_break = refl;
  trimmed = (refl, (refl, (refl, (refl, (refl, (refl, (refl, (refl, (refl, tt)))))))));
}

get_all_peer_stats-print_dump_example :
    get_all_peer_stats as_it_is first_unit (print_dump (tunnel ∷ other_end ∷ []))
    ≡ with_lines as_it_is first_unit (tunnel ∷ other_end ∷ []) []
get_all_peer_stats-print_dump_example =
    get_all_peer_stats-print_dump as_it_is first_unit tunnel (other_end ∷ [])
      (tunnel-IsPlain, (other_end-IsPlain, tt))
