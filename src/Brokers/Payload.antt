-- ===== src/Brokers/Payload.antt =====
-- Payloads, as json.loads gives them, and what of Python's dict the broker backends use.
use redis_rate_limiter.Prelude.{Bool, true, false, not, Option, none, some, [], ◌∷◌, if◌then◌else◌}
use redis_rate_limiter.Prelude.Int.{ℤ, pos, eqb_ℤ}
use redis_rate_limiter.Prelude.Text.{Text, codes, same}

mutual
  pub data Value : Type 0 where
    null : Value
    boolean : Bool → Value
    number : ℤ → Value
    text : Text → Value
    items : Items → Value
    dict : Fields → Value

  pub data Items : Type 0 where
    nil : Items
    cons : Value → Items → Items

  pub data Fields : Type 0 where
    end : Fields
    field : Text → Value → Fields → Fields

-- fields.get(key, default)
unfoldable pub find : Text → Value → Fields → Value
find key default end = default
find key default (field name value rest) = if same key name then value else find key default rest

-- value.get(key, default); `none` is the AttributeError of a value that is no dict
unfoldable pub get : Text → Value → Value → Option Value
unfolding find
get key default (dict fields) = some (find key default fields)
get key default _ = none

-- bool(value)
unfoldable pub is_truthy : Value → Bool
is_truthy null = false
is_truthy (boolean b) = b
is_truthy (number n) = not (eqb_ℤ n (pos 0))
is_truthy (text []) = false
is_truthy (text (c ∷ cs)) = true
is_truthy (items nil) = false
is_truthy (items (cons v vs)) = true
is_truthy (dict end) = false
is_truthy (dict (field k v rest)) = true

-- build_enhanced_payload of core/limiters.py
unfoldable pub build_enhanced_payload : Value → Bool → Value
build_enhanced_payload payload use_executor = dict (
    field (codes "data") payload
      (field (codes "meta") (dict (field (codes "use_executor") (boolean use_executor) end)) end))

-- payload.get("meta", {}).get("use_executor", True), and payload.get("data", {})
unfoldable pub use_executor_of : Value → Option Bool
unfolding get is_truthy
use_executor_of payload = elim (get (codes "meta") (dict end) payload) [
  | none ↦ none
  | some meta ↦ elim (get (codes "use_executor") (boolean true) meta) [
    | none ↦ none
    | some flag ↦ some (is_truthy flag)
  ]
]

unfoldable pub data_of : Value → Option Value
unfolding get
data_of payload = get (codes "data") (dict end) payload
