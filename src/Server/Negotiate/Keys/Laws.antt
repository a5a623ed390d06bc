-- ===== src/Server/Negotiate/Keys/Laws.antt =====
-- A pair's key does not depend on the order of the peers and determines them both.
use meshezia.Common.{
  Text, text_lt, text_lt_asym, text_lt_total, ◌≡◌, ◌≢◌, refl, sym, ◌⊎◌, inl, inr, [], ◌∷◌, ◌++◌,
  All, if◌then◌else◌, arith, Bool-cases, ap, ◌∙◌,
}
use meshezia.Server.Negotiate.Keys.{colon, pair_key, before_colon, after_colon, parse_pair_key}

-- No colon stands in the text, as in every UUID.
abbrev pub HasNoColon : Text → Type 0
HasNoColon = All (λ c. c ≢ colon)

before_colon-append : (a b : Text) → HasNoColon a → before_colon (a ++ (colon ∷ b)) ≡ a
unfolding before_colon
before_colon-append [] b h = refl
before_colon-append (c ∷ cs) b h = ground (arith, before_colon-append cs b h.1)

after_colon-append : (a b : Text) → HasNoColon a → after_colon (a ++ (colon ∷ b)) ≡ b
unfolding after_colon
after_colon-append [] b h = refl
after_colon-append (c ∷ cs) b h = ground (arith, after_colon-append cs b h.1)

before_colon_self : (a : Text) → HasNoColon a → before_colon a ≡ a
unfolding before_colon
before_colon_self [] h = refl
before_colon_self (c ∷ cs) h = ground (arith, before_colon_self cs h.1)

parse_pair_key-append :
    (a b : Text) → HasNoColon a → HasNoColon b → parse_pair_key (a ++ (colon ∷ b)) ≡ (a, b)
unfolding parse_pair_key
parse_pair_key-append a b ha hb =
    rw (before_colon-append a b ha, after_colon-append a b ha, before_colon_self b hb)

-- The two peers, the smaller id first.
abbrev pub ordered : Text → Text → Text × Text
ordered a b = if text_lt a b then (a, b) else (b, a)

-- Parsing the key of two ids without a colon gives them back, the smaller first.
pub parse_pair_key-pair_key :
    (a b : Text) → HasNoColon a → HasNoColon b → parse_pair_key (pair_key a b) ≡ ordered a b
unfolding pair_key
parse_pair_key-pair_key a b ha hb = elim (Bool-cases (text_lt a b)) [
  | inl e ↦ rw e (parse_pair_key-append a b ha hb)
  | inr e ↦ rw e (parse_pair_key-append b a hb ha)
]

-- The key does not depend on the order in which the two ids are given.
pair_key_comm : (a b : Text) → pair_key a b ≡ pair_key b a
unfolding pair_key
pair_key_comm a b = ground (arith, text_lt_asym a b, text_lt_asym b a, text_lt_total a b)

-- Two pairs of ids without colons have the same key only if they are the same pair.
pub pair_key_injective :
    (a b c d : Text)
    → HasNoColon a
    → HasNoColon b
    → HasNoColon c
    → HasNoColon d
    → pair_key a b ≡ pair_key c d
    → ((a ≡ c) × (b ≡ d)) ⊎ ((a ≡ d) × (b ≡ c))
pair_key_injective a b c d ha hb hc hd e = ground (
  arith,
  sym (parse_pair_key-pair_key a b ha hb)
      ∙ (ap parse_pair_key e ∙ parse_pair_key-pair_key c d hc hd),
)
