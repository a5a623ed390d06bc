-- ===== src/Server/Api/Addresses.antt =====
-- Addresses as texts: what is printed is valid, and is read back.
use meshezia.Common.{
  codes, ℕ, ◌/◌, ◌%◌, ◌≤◌, ◌<◌, Text, text_eq_refl, split, number_of, lacks, join, split-join, true,
  ◌&&◌, List, some, [], ◌∷◌, ◌++◌, ◌≡◌, refl, ap, ◌∙◌, arith, length, every, ◌==◌,
}
use mathlib.Core.List.{append_assoc}
use meshezia.Server.Subnet.{Cidr, octets_to_int, octet_text, address_text, two_32}
use meshezia.Server.Api.Values.{natural, Platform}
use meshezia.Server.Api.Validate.{is_cidr, is_octet, is_ipv4, at_slash}
use meshezia.Server.Api.Peers.{octets, parse_cidr}

number_of-octet_text : (n : ℕ) → n < 256 → number_of 0 (octet_text n) ≡ some n
unfolding number_of octet_text
number_of-octet_text n h = ground arith

octet_text-lacks : (n : ℕ) → n < 256 → lacks b'.' (octet_text n) ≡ true
unfolding octet_text
octet_text-lacks n h = ground arith

octet_text-no_slash : (n : ℕ) → n < 256 → lacks b'/' (octet_text n) ≡ true
unfolding octet_text
octet_text-no_slash n h = ground arith

is_octet-octet_text : (n : ℕ) → n < 256 → is_octet (octet_text n) ≡ true
unfolding is_octet
is_octet-octet_text n h = ground (arith, number_of-octet_text n h, text_eq_refl (octet_text n))

-- The four octets of an address.
abbrev o0 : ℕ → ℕ
o0 n = n / 16777216 % 256

abbrev o1 : ℕ → ℕ
o1 n = n / 65536 % 256

abbrev o2 : ℕ → ℕ
o2 n = n / 256 % 256

abbrev o3 : ℕ → ℕ
o3 n = n % 256

abbrev parts : ℕ → List Text
parts n = octet_text (o0 n) ∷ octet_text (o1 n) ∷ octet_text (o2 n) ∷ octet_text (o3 n) ∷ []

dotted :
    (a b c d : Text)
    → a ++ codes "." ++ b ++ codes "." ++ c ++ codes "." ++ d ≡ join b'.' (a ∷ b ∷ c ∷ d ∷ [])
dotted a b c d = simp (append_assoc)

address_text-join : (n : ℕ) → address_text n ≡ join b'.' (parts n)
unfolding address_text
address_text-join n =
    dotted (octet_text (o0 n)) (octet_text (o1 n)) (octet_text (o2 n)) (octet_text (o3 n))

split-address_text : (n : ℕ) → split b'.' (address_text n) ≡ parts n
split-address_text n =
    ap (split b'.') (address_text-join n)
    ∙ split-join b'.' (octet_text (o0 n))
        (octet_text (o1 n) ∷ octet_text (o2 n) ∷ octet_text (o3 n) ∷ [])
        (ground (
          arith,
          octet_text-lacks (o0 n) (omega arith),
          octet_text-lacks (o1 n) (omega arith),
          octet_text-lacks (o2 n) (omega arith),
          octet_text-lacks (o3 n) (omega arith),
        ))

four-octets : (n : ℕ) → every is_octet (parts n) ≡ true
four-octets n = ground (
  arith,
  is_octet-octet_text (o0 n) (omega arith),
  is_octet-octet_text (o1 n) (omega arith),
  is_octet-octet_text (o2 n) (omega arith),
  is_octet-octet_text (o3 n) (omega arith),
)

is_ipv4-address_text : (n : ℕ) → is_ipv4 (address_text n) ≡ true
unfolding is_ipv4
is_ipv4-address_text n =
    ap (λ (ps : List Text). length ps == 4 && every is_octet ps) (split-address_text n)
    ∙ four-octets n

at_slash-append :
    (t rest : Text) → lacks b'/' t ≡ true → at_slash (t ++ b'/' ∷ rest) ≡ some (t, rest)
unfolding at_slash
at_slash-append [] rest h = ground arith
at_slash-append (c ∷ cs) rest h = ground (arith, at_slash-append cs rest)

lacks-append :
    (sep : ℕ) (a b : Text) → lacks sep a ≡ true → lacks sep b ≡ true → lacks sep (a ++ b) ≡ true
lacks-append sep [] b h k = k
lacks-append sep (c ∷ cs) b h k = ground (arith, lacks-append sep cs b)

address_text-no_slash : (n : ℕ) → lacks b'/' (address_text n) ≡ true
address_text-no_slash n =
    let no = lacks-append b'/' in
    let d = octet_text-no_slash in
    ap (lacks b'/') (address_text-join n)
    ∙ no (octet_text (o0 n)) _ (d (o0 n) (omega arith)) (
        no (octet_text (o1 n)) _ (d (o1 n) (omega arith))
          (no (octet_text (o2 n)) _ (d (o2 n) (omega arith)) (d (o3 n) (omega arith))))

octets-parts : (n : ℕ) → octets (parts n) ≡ some (o0 n, o1 n, o2 n, o3 n)
octets-parts n = ground (
  arith,
  number_of-octet_text (o0 n) (omega arith),
  number_of-octet_text (o1 n) (omega arith),
  number_of-octet_text (o2 n) (omega arith),
  number_of-octet_text (o3 n) (omega arith),
)

-- An address of 32 bits that is printed is a valid address; behind it a slash and the text of a prefix
-- from 8 to 30, it is a valid subnet, which is read back as the same address and prefix.
pub record IsReadBack (platform : Platform) (n : ℕ) (t : Text) (prefix : ℕ) : Type 0 where
  pub valid : is_ipv4 (address_text n) ≡ true
  pub valid_cidr : is_cidr platform (address_text n ++ b'/' ∷ t) ≡ true
  pub cidr : Cidr
  pub read : parse_cidr platform (address_text n ++ b'/' ∷ t) ≡ some cidr
  pub same_address : octets_to_int cidr ≡ n
  pub same_prefix : cidr.prefix ≡ prefix

pub address_text-IsReadBack :
    (platform : Platform) (n : ℕ) (t : Text) (prefix : ℕ)
    → n < two_32
    → platform.to_number t ≡ natural prefix
    → 8 ≤ prefix
    → prefix ≤ 30
    → IsReadBack platform n t prefix
unfolding is_cidr parse_cidr octets_to_int
address_text-IsReadBack platform n t prefix small number low high =
    let slash = at_slash-append (address_text n) t (address_text-no_slash n) in
    record {
      valid = is_ipv4-address_text n;
      valid_cidr = ground (arith, slash, number, is_ipv4-address_text n, low, high);
      cidr = record { o0 = o0 n; o1 = o1 n; o2 = o2 n; o3 = o3 n; prefix = prefix };
      read = ground (arith, slash, number, ap octets (split-address_text n) ∙ octets-parts n);
      same_address = omega (arith, small);
      same_prefix = refl;
    }
