-- ===== src/Common/Dict.antt =====
-- JavaScript's `Map` with string keys: the entries in the order of their first insertion.
use mathlib.Core.Path.{◌≡◌}
use mathlib.Core.Bool.{Bool}
use mathlib.Core.Option.{Option, none, some}
use mathlib.Core.List.{List, [], ◌∷◌}
use native.Mathlib.Omega.{arith}
use meshezia.Common.Tests.{if◌then◌else◌, is_some}
use meshezia.Common.Lists.{In}
use meshezia.Common.Texts.{Text, text_eq, text_eq_iff}

abbrev pub Dict {ℓ} : Type ℓ → Type ℓ
Dict V = List (Text × V)

module _ {ℓ} {V : Type ℓ} where
  -- `m.get(k)`
  unfoldable pub get : Dict V → Text → Option V
  get [] k = none
  get ((j, v) ∷ m) k = if text_eq j k then some v else get m k

  -- `m.set(k, v)`: a key that is there keeps its place.
  unfoldable pub set : Dict V → Text → V → Dict V
  set [] k v = (k, v) ∷ []
  set ((j, w) ∷ m) k v = let rest = set m k v in if text_eq j k then (k, v) ∷ m else (j, w) ∷ rest

  -- `m.delete(k)`
  unfoldable pub delete : Dict V → Text → Dict V
  delete [] k = []
  delete ((j, w) ∷ m) k = let rest = delete m k in if text_eq j k then rest else (j, w) ∷ rest

  -- `m.keys()`
  unfoldable pub keys : Dict V → List Text
  keys [] = []
  keys ((j, v) ∷ m) = j ∷ keys m

  -- `m.has(k)`
  unfoldable pub has : Dict V → Text → Bool
  has m k = is_some (get m k)

  pub get-set :
      (m : Dict V) (k j : Text) (v : V)
      → get (set m k v) j ≡ (if text_eq k j then some v else get m j)
  unfolding get set
  get-set [] k j v = ground arith
  get-set ((i, w) ∷ m) k j v =
      ground (arith, text_eq_iff k j, text_eq_iff i k, text_eq_iff i j, get-set m k j v)

  pub get-delete :
      (m : Dict V) (k j : Text) → get (delete m k) j ≡ (if text_eq k j then none else get m j)
  unfolding get delete
  get-delete [] k j = ground arith
  get-delete ((i, w) ∷ m) k j =
      ground (arith, text_eq_iff k j, text_eq_iff i k, text_eq_iff i j, get-delete m k j)

module _ {V : Type 0} where
  -- What a look-up finds is among the entries, and its key among the keys.
  pub In-get : (m : Dict V) (k : Text) (v : V) → get m k ≡ some v → In (k, v) m
  unfolding get
  In-get [] k v h = cc
  In-get ((i, w) ∷ m) k v h = ground (arith, text_eq_iff i k, In-get m k v)

  pub In-keys : (m : Dict V) (k : Text) (v : V) → get m k ≡ some v → In k (keys m)
  unfolding get keys
  In-keys [] k v h = cc
  In-keys ((i, w) ∷ m) k v h = ground (arith, text_eq_iff i k, In-keys m k v)

pub ruleset dict_laws = (get-set, get-delete)
