-- ===== src/Server/Subnet/Laws.antt =====
-- Allocated addresses are new and the first in the range.
use meshezia.Common.{
  [], ◌%◌, refl, map, ◌^◌, ◌∷◌, ◌&&◌, text_eq, filter, sym, any, ◌*◌, Bool, ◌≤◌, subst, ap, ◌∙◌, ℕ,
  zero, suc, ◌+◌, ◌-◌, ◌<◌, Text, true, false, Option, none, some, List, ◌≡◌, arith, inl, inr,
  Bool-cases,
}
use meshezia.Server.Db.{PeerRow, Db}
use meshezia.Server.Subnet.{
  two_32, Cidr, octets_to_int, total_hosts, used_addresses, is_taken, first_free_address,
  address_text, allocate_ip,
}

-- What the loop from an address on finds, of a number of candidates: the first that is not used.
pub record IsFirst (count ip : ℕ) (used : Text → Bool) (t : Text) : Type 0 where
  pub at : ℕ
  pub below : at < count
  pub printed : t ≡ address_text (ip + at)
  pub free : used t ≡ false
  pub taken : (i : ℕ) → i < at → used (address_text (ip + i)) ≡ true

-- The answer of an allocation: the first free candidate, or none where all are taken.
abbrev pub IsAllocated : ℕ → ℕ → (Text → Bool) → Option Text → Type 0
IsAllocated count ip used (some t) = IsFirst count ip used t
IsAllocated count ip used none = (i : ℕ) → i < count → used (address_text (ip + i)) ≡ true

taken_later :
    (n ip : ℕ) (used : Text → Bool)
    → used (address_text ip) ≡ true
    → ((i : ℕ) → i < n → used (address_text (suc ip + i)) ≡ true)
    → (i : ℕ) → i < suc n
    → used (address_text (ip + i)) ≡ true
taken_later n ip used first rest zero h =
    subst (λ k. used (address_text k) ≡ true) (omega arith) first
taken_later n ip used first rest (suc i) h =
    subst (λ k. used (address_text k) ≡ true) (omega arith) (rest i (omega arith))

later-IsAllocated :
    (count ip : ℕ) (used : Text → Bool) (o : Option Text)
    → used (address_text ip) ≡ true
    → IsAllocated count (suc ip) used o
    → IsAllocated (suc count) ip used o
later-IsAllocated count ip used none first h = taken_later count ip used first h
later-IsAllocated count ip used (some t) first h = record {
  at = suc h.at;
  below = omega (arith, h.below);
  printed = h.printed ∙ ap address_text (omega arith);
  free = h.free;
  taken = taken_later h.at ip used first h.taken;
}

address_text-IsFirst :
    (count ip : ℕ) (used : Text → Bool)
    → used (address_text ip) ≡ false
    → IsFirst (suc count) ip used (address_text ip)
address_text-IsFirst count ip used free = record {
  at = 0;
  below = omega arith;
  printed = ap address_text (omega arith);
  free = free;
  taken = λ i h. absurd (omega (arith, h));
}

first_free_address-IsAllocated :
    (count ip : ℕ) (used : List Text)
    → IsAllocated count ip (is_taken used) (first_free_address count ip used)
unfolding first_free_address
first_free_address-IsAllocated zero ip used = λ i h. absurd (omega (arith, h))
first_free_address-IsAllocated (suc count) ip used =
    elim (Bool-cases (is_taken used (address_text ip))) [
      | inl taken ↦ rw taken (
          later-IsAllocated count ip (is_taken used) _ taken
            (first_free_address-IsAllocated count (suc ip) used))
      | inr free ↦ rw free (address_text-IsFirst count ip (is_taken used) free)
    ]

-- The answer in the code's own terms, for every CIDR.
pub allocate_ip_lem :
    (network_id : Text) (subnet : Cidr) (db : Db)
    → IsAllocated
        (total_hosts subnet - 2)
        (octets_to_int subnet + 1)
        (is_taken (used_addresses network_id db))
        (allocate_ip network_id subnet db)
unfolding allocate_ip
allocate_ip_lem network_id subnet db =
    first_free_address-IsAllocated (total_hosts subnet - 2) (octets_to_int subnet + 1)
      (used_addresses network_id db)

-- Does a peer of the network have the address?
abbrev pub in_use : Text → Db → Text → Bool
in_use network_id db t =
    any (λ (p : PeerRow). text_eq p.network_id network_id && text_eq p.ipv4 t) db.peers

is_taken_lem :
    (network_id : Text) (peers : List PeerRow) (t : Text)
    → is_taken
        (map (λ (p : PeerRow). p.ipv4) (filter (λ p. text_eq p.network_id network_id) peers))
        t
      ≡ any (λ (p : PeerRow). text_eq p.network_id network_id && text_eq p.ipv4 t) peers
is_taken_lem network_id [] t = refl
is_taken_lem network_id (p ∷ ps) t = ground (arith, is_taken_lem network_id ps t)

is_taken-in_use :
    (network_id : Text) (db : Db) (t : Text)
    → is_taken (used_addresses network_id db) t ≡ in_use network_id db t
unfolding used_addresses
is_taken-in_use network_id db t = is_taken_lem network_id db.peers t

same-IsAllocated :
    (count ip : ℕ) (p q : Text → Bool) (o : Option Text)
    → ((t : Text) → p t ≡ q t)
    → IsAllocated count ip p o
    → IsAllocated count ip q o
same-IsAllocated count ip p q none same h = λ i below. sym (same _) ∙ h i below
same-IsAllocated count ip p q (some t) same h = record {
  at = h.at;
  below = h.below;
  printed = h.printed;
  free = sym (same t) ∙ h.free;
  taken = λ i below. sym (same _) ∙ h.taken i below;
}

-- The block of a CIDR whose host bits are 0: the address is a multiple of the block's length.
pub record IsBlock (subnet : Cidr) (block : ℕ) : Type 0 where
  pub some_prefix : 1 ≤ subnet.prefix
  pub fits : block * 2 ^ (32 - subnet.prefix) < 2 ^ 32
  pub begins :
      subnet.o0 * 2 ^ 24 + subnet.o1 * 2 ^ 16 + subnet.o2 * 2 ^ 8 + subnet.o3
      ≡ block * 2 ^ (32 - subnet.prefix)

total_hosts_lem :
    (subnet : Cidr) → 1 ≤ subnet.prefix → total_hosts subnet ≡ 2 ^ (32 - subnet.prefix)
unfolding total_hosts
total_hosts_lem subnet h = ap (λ n. 2 ^ n) (omega (arith, h))

octets_to_int_lem :
    (subnet : Cidr) (block : ℕ)
    → IsBlock subnet block
    → octets_to_int subnet ≡ block * 2 ^ (32 - subnet.prefix)
unfolding octets_to_int
octets_to_int_lem subnet block v =
    mod_below _ _ (omega (arith, v.begins, v.fits)) (omega (arith, v.begins))
  where
    mod_below : (n m : ℕ) → m < two_32 → n ≡ m → n % two_32 ≡ m
    mod_below n m below same = omega (arith, below, same)

-- Where the host bits of a network's CIDR are 0, the address that its next peer gets is the first
-- that no peer of the network has, among those between the first and the last address of the
-- CIDR's block, these two left out; where all of them are taken, the allocation fails.
pub allocate_ip-IsAllocated :
    (network_id : Text) (subnet : Cidr) (db : Db) (block : ℕ)
    → IsBlock subnet block
    → IsAllocated
        (2 ^ (32 - subnet.prefix) - 2)
        (block * 2 ^ (32 - subnet.prefix) + 1)
        (in_use network_id db)
        (allocate_ip network_id subnet db)
allocate_ip-IsAllocated network_id subnet db block v = rw (← octets_to_int_lem subnet block v) (
    rw (← total_hosts_lem subnet v.some_prefix) (
      same-IsAllocated _ _ (is_taken (used_addresses network_id db)) (in_use network_id db) _
        (is_taken-in_use network_id db) (allocate_ip_lem network_id subnet db)))
