-- ===== src/Server/Api/Touched.antt =====
-- Whose peers the handlers change.
use meshezia.Common.{
  ◌+◌, ◌-◌, find_passes, ℕ, Text, codes, text_eq, text_eq_iff, Bool, true, false, ◌&&◌, ◌||◌,
  Option, none, some, List, [], ◌∷◌, ◌≡◌, refl, subst, arith, inl, inr, Bool-cases, map, filter,
  any, every, find, if◌then◌else◌,
}
use Prim.Native.String.{String}
use meshezia.Common.Dict.{Dict, get}
use meshezia.Server.Db.{NetworkRow, network_by_id, Db, PeerRow}
use meshezia.Server.State.{Server}
use meshezia.Server.Subnet.{octets_to_int, total_hosts, is_taken, used_addresses, Cidr, allocate_ip}
use meshezia.Server.Subnet.Laws.{IsAllocated, allocate_ip_lem}
use meshezia.Server.Api.Values.{text_of, Value, Platform}
use meshezia.Server.Api.Reply.{
  Reply, Caller, is_admin, is_network_token, require_admin, require_admin_or_network, fail,
}
use meshezia.Server.Api.Apart.{Change, kept, added, is_mine, is_apart, are_apart}
use meshezia.Server.Api.Tables.{insert_peer}
use meshezia.Server.Api.Peers.{parse_cidr, allocate_in, save_peer, new_peer, register_peer}

-- The networks whose peers a caller may change.
abbrev pub may : Caller → Db → Text → Bool
may c db network_id = is_admin c || is_network_token c network_id db

-- What a handler does to the table of peers.
abbrev pub Touches : Caller → Server → Reply → Type 0
Touches c s reply = Change (may c s.db) s.db.peers reply.1.db.peers

pub all-is_mine :
    (mine : Text → Bool) (id : Text) (ps : List PeerRow)
    → ((n : Text) → mine n ≡ true)
    → every (is_mine mine id) ps ≡ true
all-is_mine mine id [] h = refl
all-is_mine mine id (p ∷ ps) h = ground (arith, h p.network_id, all-is_mine mine id ps h)

none-is_mine :
    (mine : Text → Bool) (id : Text) (p : PeerRow) (ps : List PeerRow)
    → text_eq p.id id ≡ true
    → every (is_apart p) ps ≡ true
    → every (is_mine mine id) ps ≡ true
none-is_mine mine id p [] e h = refl
none-is_mine mine id p (q ∷ qs) e h = ground (
  arith,
  none-is_mine mine id p qs e,
  text_eq_iff p.id id,
  text_eq_iff q.id id,
  text_eq_iff p.id q.id,
)

-- If the first peer with an id is in one of the networks, all are: no other has the id.
pub found-is_mine :
    (mine : Text → Bool) (id : Text) (ps : List PeerRow) (row : PeerRow)
    → are_apart ps ≡ true
    → find (λ (p : PeerRow). text_eq p.id id) ps ≡ some row
    → mine row.network_id ≡ true
    → every (is_mine mine id) ps ≡ true
found-is_mine mine id [] row h e m = refl
found-is_mine mine id (p ∷ ps) row h e m =
    ground (arith, found-is_mine mine id ps row, none-is_mine mine id p ps)

free-is_apart :
    (row : PeerRow) (ps : List PeerRow)
    → any
        (λ (p : PeerRow).
          text_eq p.id row.id || text_eq p.network_id row.network_id && text_eq p.name row.name)
        ps
      ≡ false
    → is_taken
        (map (λ (p : PeerRow). p.ipv4) (filter (λ p. text_eq p.network_id row.network_id) ps))
        row.ipv4
      ≡ false
    → every (λ q. is_apart q row) ps ≡ true
free-is_apart row [] h k = refl
free-is_apart row (p ∷ ps) h k = ground (arith, free-is_apart row ps)

save_peer-Touches :
    (c : Caller) (row : PeerRow) (s : Server)
    → may c s.db row.network_id ≡ true
    → is_taken (used_addresses row.network_id s.db) row.ipv4 ≡ false
    → Touches c s (save_peer row s)
unfolding save_peer insert_peer used_addresses
save_peer-Touches c row s m free =
    elim (Bool-cases (
      any
        (λ (p : PeerRow).
          text_eq p.id row.id || text_eq p.network_id row.network_id && text_eq p.name row.name)
        s.db.peers)) [
          | inl clash ↦ rw (save_peer, insert_peer, clash) (kept s.db.peers)
          | inr new ↦
              rw (save_peer, insert_peer, new)
                (added row s.db.peers m (free-is_apart row s.db.peers new free))
        ]

IsAllocated-free :
    (count ip : ℕ) (used : Text → Bool) (o : Option Text) (t : Text)
    → IsAllocated count ip used o
    → o ≡ some t
    → used t ≡ false
IsAllocated-free count ip used none t v e = cc
IsAllocated-free count ip used (some u) t v e = ground (arith, v.free)

cidr-free :
    (network_id : Text) (o : Option Cidr) (db : Db) (t : Text)
    → elim o [ none ↦ none | some cidr ↦ allocate_ip network_id cidr db ] ≡ some t
    → is_taken (used_addresses network_id db) t ≡ false
cidr-free network_id none db t e = cc
cidr-free network_id (some cidr) db t e =
    IsAllocated-free (total_hosts cidr - 2) (octets_to_int cidr + 1)
      (is_taken (used_addresses network_id db)) (allocate_ip network_id cidr db) t
      (allocate_ip_lem network_id cidr db) e

pub admin-Touches :
    (c : Caller) (s : Server) (rest : Reply)
    → (is_admin c ≡ true → Touches c s rest)
    → Touches c s (require_admin c s rest)
admin-Touches c s rest f = elim (Bool-cases (is_admin c)) [
  | inl allowed ↦ rw allowed (f allowed)
  | inr denied ↦ rw denied (kept s.db.peers)
]

pub token-Touches :
    (c : Caller) (network_id : Text) (s : Server) (rest : Reply)
    → (may c s.db network_id ≡ true → Touches c s rest)
    → Touches c s (require_admin_or_network c network_id s rest)
token-Touches c network_id s rest f = elim (Bool-cases (may c s.db network_id)) [
  | inl allowed ↦ rw allowed (f allowed)
  | inr denied ↦ rw denied (kept s.db.peers)
]

pub guarded-Touches :
    (c : Caller) (s : Server) (is_bad : Bool) (message : String) (rest : Reply)
    → Touches c s rest
    → Touches c s (if is_bad then fail 400 message s else rest)
guarded-Touches c s true message rest p = kept s.db.peers
guarded-Touches c s false message rest p = p

-- What follows a look-up.
pub found-Touches :
    {A : Type 0} (c : Caller) (s : Server) (found : Option A) (x : Reply) (f : A → Reply)
    → Touches c s x
    → ((row : A) → found ≡ some row → Touches c s (f row))
    → Touches c s (elim found [ none ↦ x | some row ↦ f row ])
found-Touches c s none x f p q = p
found-Touches c s (some row) x f p q = q row refl

network_by_id-id :
    (db : Db) (id : Text) (row : NetworkRow) → network_by_id db id ≡ some row → row.id ≡ id
unfolding network_by_id
network_by_id-id db id row e =
    (text_eq_iff row.id id).0 (find_passes (λ (n : NetworkRow). text_eq n.id id) db.networks row e)

pub register_peer-Touches :
    (platform : Platform) (uuid : Text) (now : ℕ) (c : Caller) (body : Dict Value) (s : Server)
    → may c s.db (text_of (get body (codes "networkId"))) ≡ true
    → Touches c s (register_peer platform uuid now body s)
unfolding register_peer new_peer allocate_in
register_peer-Touches platform uuid now c body s m =
    found-Touches c s (network_by_id s.db (text_of (get body (codes "networkId")))) _ _
      (kept s.db.peers)
      λ row found.
        found-Touches c s (allocate_in platform row s.db) _ _ (kept s.db.peers) λ ipv4 allocated.
          save_peer-Touches c (new_peer platform uuid now ipv4 body) s m (
            subst (λ n. is_taken (used_addresses n s.db) ipv4 ≡ false)
              (network_by_id-id s.db _ row found)
              (cidr-free row.id (parse_cidr platform row.subnet) s.db ipv4 allocated))
