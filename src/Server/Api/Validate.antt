-- ===== src/Server/Api/Validate.antt =====
-- "Validation helpers" of packages/server/src/api.ts.
use meshezia.Common.{
  ℕ, Text, text_eq, split, Bool, true, false, ◌&&◌, ◌||◌, not, Option, none, some, List, [], ◌∷◌,
  ◌++◌, length, replicate, leb, ◌==◌, if◌then◌else◌, every, number_of,
}
use meshezia.Server.Api.Values.{Number, natural, other, Value, number, text, Platform}
use meshezia.Server.Subnet.{octet_text}

abbrev is_between : ℕ → ℕ → ℕ → Bool
is_between a b c = leb a c && leb c b

-- [0-9a-f] where case does not count
abbrev is_hex : ℕ → Bool
is_hex c = is_between b'0' b'9' c || is_between b'a' b'f' c || is_between b'A' b'F' c

-- [A-Za-z0-9+/]
abbrev is_base64 : ℕ → Bool
is_base64 c =
    is_between b'A' b'Z' c
    || is_between b'a' b'z' c
    || is_between b'0' b'9' c
    || c == b'+'
    || c == b'/'

-- A regular expression that is a sequence of classes of units, from the start to the end.
unfoldable pub matches : List (ℕ → Bool) → Text → Bool
matches [] [] = true
matches [] (c ∷ cs) = false
matches (p ∷ ps) [] = false
matches (p ∷ ps) (c ∷ cs) = p c && matches ps cs

abbrev dash : ℕ → Bool
dash c = c == b'-'

abbrev pub uuid_re : List (ℕ → Bool)
uuid_re =
    replicate 8 is_hex
    ++ (dash ∷ replicate 4 is_hex)
    ++ (dash ∷ replicate 4 is_hex)
    ++ (dash ∷ replicate 4 is_hex)
    ++ (dash ∷ replicate 12 is_hex)

abbrev pub pubkey_re : List (ℕ → Bool)
pubkey_re = replicate 43 is_base64 ++ ((λ c. c == b'=') ∷ [])

-- A test of strings, for a value that may be missing.
abbrev is_text : (Text → Bool) → Option Value → Bool
is_text p (some (text t)) = p t
is_text p _ = false

-- A test of integers that no integer below 0 passes.
abbrev is_natural : (ℕ → Bool) → Option Value → Bool
is_natural p (some (number (natural n))) = p n
is_natural p _ = false

unfoldable pub is_valid_uuid : Option Value → Bool
unfolding matches
is_valid_uuid = is_text (matches uuid_re)

-- `p === String(n)` for an integer `n` from 0 to 255. A text that `Number` reads but that is not
-- all digits is not `String(n)`.
unfoldable pub is_octet : Text → Bool
unfolding octet_text
is_octet p = elim (number_of 0 p) [ none ↦ false | some n ↦ leb n 255 && text_eq p (octet_text n) ]

unfoldable pub is_ipv4 : Text → Bool
unfolding is_octet
is_ipv4 v = length (split b'.' v) == 4 && every is_octet (split b'.' v)

unfoldable pub is_valid_ipv4 : Option Value → Bool
unfolding is_ipv4
is_valid_ipv4 = is_text is_ipv4

-- The text up to the first slash and the text behind it; `none` if there is no slash.
unfoldable pub at_slash : Text → Option (Text × Text)
at_slash [] = none
at_slash (c ∷ cs) =
    let rest = at_slash cs in
    if c == b'/' then some ([], cs) else elim rest [ none ↦ none | some (a, b) ↦ some (c ∷ a, b) ]

abbrev pub is_prefix : Number → Bool
is_prefix (natural n) = leb 8 n && leb n 30
is_prefix other = false

unfoldable pub is_cidr : Platform → Text → Bool
unfolding is_ipv4 at_slash
is_cidr platform v = elim (at_slash v) [
  | none ↦ false
  | some (ip, prefix) ↦ is_prefix (platform.to_number prefix) && is_ipv4 ip
]

unfoldable pub is_valid_cidr : Platform → Option Value → Bool
unfolding is_cidr
is_valid_cidr platform = is_text (is_cidr platform)

-- No unit is a control character.
abbrev is_printable : ℕ → Bool
is_printable c = leb 32 c && not (c == 127)

unfoldable pub is_valid_name : Option Value → Bool
is_valid_name = is_text (λ v. leb 1 (length v) && leb (length v) 255 && every is_printable v)

unfoldable pub is_valid_port : Option Value → Bool
is_valid_port = is_natural (λ n. leb 1 n && leb n 65535)

unfoldable pub is_valid_pubkey : Option Value → Bool
unfolding matches
is_valid_pubkey = is_text (matches pubkey_re)

unfoldable pub is_valid_memo : Option Value → Bool
is_valid_memo = is_text (λ v. leb (length v) 1024)

unfoldable pub is_valid_ttl : Option Value → Bool
is_valid_ttl = is_natural (λ n. leb n 31536000)

-- `v === ''`
abbrev pub is_empty_text : Option Value → Bool
is_empty_text (some (text [])) = true
is_empty_text _ = false

-- `v !== undefined && !valid(v)`, and the same where '' passes too.
abbrev pub is_bad : (Option Value → Bool) → Option Value → Bool
is_bad valid none = false
is_bad valid (some v) = not (valid (some v))

abbrev pub is_bad_or_empty : (Option Value → Bool) → Option Value → Bool
is_bad_or_empty valid none = false
is_bad_or_empty valid (some v) = not (is_empty_text (some v)) && not (valid (some v))
