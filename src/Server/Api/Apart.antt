-- ===== src/Server/Api/Apart.antt =====
-- Peers that do not get in each other's way, and what the handlers may do to the table of peers.
use meshezia.Common.{
  text_ne, Text, text_eq, text_eq_iff, Bool, true, false, not, ◌&&◌, ◌||◌, List, [], ◌∷◌, ◌++◌, ◌≡◌,
  refl, ap, ◌∙◌, arith, map, filter, every, if◌then◌else◌,
}
use meshezia.Server.Db.{PeerRow}
use meshezia.Server.Api.Tables.{peers_of}

-- Different ids; and in one network, different addresses and different names.
abbrev pub is_apart : PeerRow → PeerRow → Bool
is_apart p q =
    not (text_eq p.id q.id)
    && not (text_eq p.network_id q.network_id && (text_eq p.ipv4 q.ipv4 || text_eq p.name q.name))

abbrev pub are_apart : List PeerRow → Bool
are_apart [] = true
are_apart (p ∷ ps) = every (is_apart p) ps && are_apart ps

-- Every peer with the id is in a network that is one of `mine`.
abbrev pub is_mine : (mine : Text → Bool) → Text → PeerRow → Bool
is_mine mine id p = not (text_eq p.id id) || mine p.network_id

-- The change of the row with an id, as of UPDATE.
abbrev pub at_id : Text → (PeerRow → PeerRow) → PeerRow → PeerRow
at_id id f p = if text_eq p.id id then f p else p

-- An update that leaves what tells peers apart.
pub record IsKept (f : PeerRow → PeerRow) : Type 0 where
  pub id : (p : PeerRow) → (f p).id ≡ p.id
  pub network_id : (p : PeerRow) → (f p).network_id ≡ p.network_id
  pub ipv4 : (p : PeerRow) → (f p).ipv4 ≡ p.ipv4
  pub name : (p : PeerRow) → (f p).name ≡ p.name

-- What tells peers apart.
abbrev pub key_of : PeerRow → Text × Text × Text × Text
key_of p = (p.id, p.network_id, p.ipv4, p.name)

pub key-IsKept : (f : PeerRow → PeerRow) → ((p : PeerRow) → key_of (f p) ≡ key_of p) → IsKept f
key-IsKept f h = record {
  id = λ p. ap (λ (k : Text × Text × Text × Text). k.0) (h p);
  network_id = λ p. ap (λ (k : Text × Text × Text × Text). k.1) (h p);
  ipv4 = λ p. ap (λ (k : Text × Text × Text × Text). k.2) (h p);
  name = λ p. ap (λ (k : Text × Text × Text × Text). k.3) (h p);
}

-- What becomes of the table of peers where only the networks in `mine` may be touched.
pub data Change (mine : Text → Bool) : List PeerRow → List PeerRow → Type 0 where
  kept : (ps : List PeerRow) → Change mine ps ps
  removed :
      (id : Text) (ps : List PeerRow)
      → every (is_mine mine id) ps ≡ true
      → Change mine ps (filter (λ (p : PeerRow). not (text_eq p.id id)) ps)
  updated :
      (id : Text) (f : PeerRow → PeerRow) (ps : List PeerRow)
      → IsKept f
      → every (is_mine mine id) ps ≡ true
      → Change mine ps (map (at_id id f) ps)
  added :
      (row : PeerRow) (ps : List PeerRow)
      → mine row.network_id ≡ true
      → every (λ q. is_apart q row) ps ≡ true
      → Change mine ps (ps ++ row ∷ [])
  followed : (ps qs rs : List PeerRow) → Change mine ps qs → Change mine qs rs → Change mine ps rs

every-filter :
    (p q : PeerRow → Bool) (ps : List PeerRow) → every p ps ≡ true → every p (filter q ps) ≡ true
every-filter p q [] h = refl
every-filter p q (x ∷ xs) h = ground (arith, every-filter p q xs)

pub filter-are_apart :
    (q : PeerRow → Bool) (ps : List PeerRow) → are_apart ps ≡ true → are_apart (filter q ps) ≡ true
filter-are_apart q [] h = refl
filter-are_apart q (x ∷ xs) h =
    ground (arith, filter-are_apart q xs, every-filter (is_apart x) q xs)

at_id-IsKept : (id : Text) (f : PeerRow → PeerRow) → IsKept f → IsKept (at_id id f)
at_id-IsKept id f v = record {
  id = λ p. ground (arith, v.id p);
  network_id = λ p. ground (arith, v.network_id p);
  ipv4 = λ p. ground (arith, v.ipv4 p);
  name = λ p. ground (arith, v.name p);
}

is_apart-kept :
    (f : PeerRow → PeerRow) → IsKept f → (p q : PeerRow) → is_apart (f p) (f q) ≡ is_apart p q
is_apart-kept f v p q =
    rw (v.id p, v.id q, v.network_id p, v.network_id q, v.ipv4 p, v.ipv4 q, v.name p, v.name q)

every-kept :
    (f : PeerRow → PeerRow)
    → IsKept f
    → (p : PeerRow) (qs : List PeerRow) → every (is_apart (f p)) (map f qs) ≡ every (is_apart p) qs
every-kept f v p [] = refl
every-kept f v p (q ∷ qs) = rw (is_apart-kept f v p q, every-kept f v p qs)

map-are_apart :
    (f : PeerRow → PeerRow) → IsKept f → (ps : List PeerRow) → are_apart (map f ps) ≡ are_apart ps
map-are_apart f v [] = refl
map-are_apart f v (p ∷ ps) = rw (every-kept f v p ps, map-are_apart f v ps)

every-append :
    (p : PeerRow → Bool) (ps : List PeerRow) (row : PeerRow)
    → every p ps ≡ true
    → p row ≡ true
    → every p (ps ++ row ∷ []) ≡ true
every-append p [] row h k = ground arith
every-append p (x ∷ xs) row h k = ground (arith, every-append p xs row)

append-are_apart :
    (ps : List PeerRow) (row : PeerRow)
    → are_apart ps ≡ true
    → every (λ q. is_apart q row) ps ≡ true
    → are_apart (ps ++ row ∷ []) ≡ true
append-are_apart [] row h k = refl
append-are_apart (p ∷ ps) row h k =
    ground (arith, append-are_apart ps row, every-append (is_apart p) ps row)

pub Change-are_apart :
    (mine : Text → Bool) (ps qs : List PeerRow)
    → Change mine ps qs
    → are_apart ps ≡ true
    → are_apart qs ≡ true
Change-are_apart mine _ _ (kept ps) h = h
Change-are_apart mine _ _ (removed id ps m) h = filter-are_apart _ ps h
Change-are_apart mine _ _ (updated id f ps v m) h =
    map-are_apart (at_id id f) (at_id-IsKept id f v) ps ∙ h
Change-are_apart mine _ _ (added row ps m k) h = append-are_apart ps row h k
Change-are_apart mine _ _ (followed ps qs rs c d) h =
    Change-are_apart mine qs rs d (Change-are_apart mine ps qs c h)

-- A peer of a network that is not one of `mine` is not one of those with the id.
not_mine :
    (mine : Text → Bool) (n id : Text) (p : PeerRow)
    → mine n ≡ false
    → is_mine mine id p ≡ true
    → text_eq p.network_id n ≡ true
    → text_eq p.id id ≡ false
not_mine mine n id p e h same =
    let other : mine p.network_id ≡ false = ap mine ((text_eq_iff p.network_id n).0 same) ∙ e in
    ground arith

removed-peers_of :
    (mine : Text → Bool) (n id : Text) (ps : List PeerRow)
    → mine n ≡ false
    → every (is_mine mine id) ps ≡ true
    → peers_of n (filter (λ (p : PeerRow). not (text_eq p.id id)) ps) ≡ peers_of n ps
removed-peers_of mine n id [] e h = refl
removed-peers_of mine n id (p ∷ ps) e h =
    ground (arith, removed-peers_of mine n id ps e, not_mine mine n id p e)

updated-peers_of :
    (mine : Text → Bool) (n id : Text) (f : PeerRow → PeerRow) (ps : List PeerRow)
    → IsKept f
    → mine n ≡ false
    → every (is_mine mine id) ps ≡ true
    → peers_of n (map (at_id id f) ps) ≡ peers_of n ps
updated-peers_of mine n id f [] v e h = refl
updated-peers_of mine n id f (p ∷ ps) v e h =
    ground (arith, updated-peers_of mine n id f ps v e, not_mine mine n id p e, v.network_id p)

added-peers_of :
    (n : Text) (row : PeerRow) (ps : List PeerRow)
    → text_eq row.network_id n ≡ false
    → peers_of n (ps ++ row ∷ []) ≡ peers_of n ps
added-peers_of n row [] e = ground arith
added-peers_of n row (p ∷ ps) e = ground (arith, added-peers_of n row ps e)

not_added : (mine : Text → Bool) (n m : Text) → mine n ≡ false → mine m ≡ true → text_eq m n ≡ false
not_added mine n m e h = text_ne m n λ same. ground (arith, ap mine same)

-- The peers of a network that is not one of `mine` are as they were.
pub Change-peers_of :
    (mine : Text → Bool) (n : Text) (ps qs : List PeerRow)
    → Change mine ps qs
    → mine n ≡ false
    → peers_of n qs ≡ peers_of n ps
Change-peers_of mine n _ _ (kept ps) e = refl
Change-peers_of mine n _ _ (removed id ps m) e = removed-peers_of mine n id ps e m
Change-peers_of mine n _ _ (updated id f ps v m) e = updated-peers_of mine n id f ps v e m
Change-peers_of mine n _ _ (added row ps m k) e =
    added-peers_of n row ps (not_added mine n row.network_id e m)
Change-peers_of mine n _ _ (followed ps qs rs c d) e =
    Change-peers_of mine n qs rs d e ∙ Change-peers_of mine n ps qs c e
