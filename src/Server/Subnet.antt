-- ===== src/Server/Subnet.antt =====
-- packages/server/src/subnet.ts: the next free address of a network.
pub mod Laws
use meshezia.Common.{
  ℕ, zero, suc, ◌+◌, ◌-◌, ◌*◌, ◌/◌, ◌%◌, ◌^◌, Text, text_eq, codes, Bool, Option, none, some, List,
  [], ◌∷◌, ◌++◌, map, filter, any, ltb, if◌then◌else◌,
}
use meshezia.Server.Db.{Db, PeerRow}

-- What `parseCidr` reads: four octets and the prefix. Splitting the text and `Number` are not part of
-- the model; octets are below 256 and a prefix is at most 32.
pub record Cidr : Type 0 where
  pub o0 : ℕ
  pub o1 : ℕ
  pub o2 : ℕ
  pub o3 : ℕ
  pub prefix : ℕ

-- `>>> 0` keeps 32 bits.
abbrev pub two_32 : ℕ
two_32 = 4294967296

unfoldable pub octets_to_int : Cidr → ℕ
octets_to_int c = (c.o0 * 16777216 + c.o1 * 65536 + c.o2 * 256 + c.o3) % two_32

-- The decimal digits of a number below 1000.
unfoldable pub octet_text : ℕ → Text
octet_text n =
    if ltb n 10
    then (48 + n) ∷ []
    else (if ltb n 100
        then (48 + n / 10) ∷ (48 + n % 10) ∷ []
        else (48 + n / 100) ∷ (48 + n / 10 % 10) ∷ (48 + n % 10) ∷ [])

-- `octetsToString(intToOctets(n))`
unfoldable pub address_text : ℕ → Text
unfolding octet_text
address_text n =
    octet_text (n / 16777216 % 256)
    ++ codes "."
    ++ octet_text (n / 65536 % 256)
    ++ codes "."
    ++ octet_text (n / 256 % 256)
    ++ codes "."
    ++ octet_text (n % 256)

-- `(1 << hostBits) >>> 0`: the shift is by the count modulo 32.
unfoldable pub total_hosts : Cidr → ℕ
total_hosts c = 2 ^ ((32 - c.prefix) % 32)

unfoldable pub used_addresses : Text → Db → List Text
used_addresses network_id db =
    map (λ (p : PeerRow). p.ipv4) (filter (λ p. text_eq p.network_id network_id) db.peers)

abbrev pub is_taken : List Text → Text → Bool
is_taken used candidate = any (λ t. text_eq t candidate) used

-- The loop over the candidates from `ip` on.
unfoldable pub first_free_address : (count ip : ℕ) → List Text → Option Text
unfolding address_text
first_free_address zero ip used = none
first_free_address (suc count) ip used =
    let later = first_free_address count (suc ip) used in
    if is_taken used (address_text ip) then later else some (address_text ip)

-- The candidates go from `base + 1` to `base + totalHosts - 2`, none if that is less. `none` is the
-- error that no address is free.
unfoldable pub allocate_ip : Text → Cidr → Db → Option Text
unfolding octets_to_int total_hosts used_addresses first_free_address
allocate_ip network_id subnet db =
    first_free_address (total_hosts subnet - 2) (octets_to_int subnet + 1)
      (used_addresses network_id db)
