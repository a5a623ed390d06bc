-- ===== src/Server/Api/Values.antt =====
-- What `c.req.json()` gives to packages/server/src/api.ts, and the platform's conversions.
use meshezia.Common.{ℕ, Text, Bool, true, false, Option, none, some, [], ◌∷◌, ◌==◌, not}
use meshezia.Common.Dict.{Dict}

-- A JavaScript number, apart only where it is a natural number.
pub data Number : Type 0 where
  natural : ℕ → Number
  other : Number

-- A JSON value, with arrays and objects left closed.
pub data Value : Type 0 where
  null : Value
  bool : Bool → Value
  number : Number → Value
  text : Text → Value
  composite : Value

-- A request's body: no JSON, the JSON `null`, or a value with these fields, of which any but an object
-- has none.
pub data Body : Type 0 where
  invalid : Body
  nothing : Body
  fields : Dict Value → Body

-- What JavaScript and SQLite do: `Number(s)`, `String(v)`, `s.trim()`, whether `new URL(s)` is made,
-- and what a column holds for an argument that no code has tested.
pub record Platform : Type 0 where
  pub to_number : Text → Number
  pub to_text : Value → Text
  pub trim : Text → Text
  pub is_url : Text → Bool
  pub integer_column : Value → ℕ
  pub text_column : Value → Text

-- `v ?? d` where what is there goes into a column.
abbrev pub or_default {ℓ} : {A : Type ℓ} → (Value → A) → Option Value → A → A
or_default column none d = d
or_default column (some null) d = d
or_default column (some v) d = column v

-- `v ? … : …`
abbrev pub is_truthy : Value → Bool
is_truthy null = false
is_truthy (bool b) = b
is_truthy (number (natural n)) = not (n == 0)
is_truthy (number other) = true
is_truthy (text []) = false
is_truthy (text (c ∷ cs)) = true
is_truthy composite = true

-- The text of a value that has passed a test for being one.
abbrev pub text_of : Option Value → Text
text_of (some (text t)) = t
text_of _ = []

-- The number of a value that has passed a test for being one.
abbrev pub number_or : ℕ → Option Value → ℕ
number_or d (some (number (natural n))) = n
number_or d _ = d
