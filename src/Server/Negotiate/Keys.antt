-- ===== src/Server/Negotiate/Keys.antt =====
-- The key of a pair of peers: `pairKey` and `parsePairKey`.
pub mod Laws
use meshezia.Common.{ℕ, Text, text_lt, Bool, true, false, List, [], ◌∷◌, ◌++◌, ◌==◌, if◌then◌else◌}

abbrev pub colon : ℕ
colon = b':'

unfoldable pub pair_key : Text → Text → Text
pair_key a b = if text_lt a b then a ++ (colon ∷ b) else b ++ (colon ∷ a)

-- The text up to the first colon.
unfoldable pub before_colon : Text → Text
before_colon [] = []
before_colon (c ∷ cs) = let rest = before_colon cs in if c == colon then [] else c ∷ rest

-- The text behind the first colon, empty if there is none.
unfoldable pub after_colon : Text → Text
after_colon [] = []
after_colon (c ∷ cs) = let rest = after_colon cs in if c == colon then cs else rest

-- `const [a, b] = key.split(':')`. Each key holds a colon, since `pairKey` made it.
unfoldable pub parse_pair_key : Text → Text × Text
unfolding before_colon after_colon
parse_pair_key key = (before_colon key, before_colon (after_colon key))
