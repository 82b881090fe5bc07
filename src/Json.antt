-- ===== src/Json.antt =====
-- encoding/json: the values of JSON documents and the tokens that a decoder reads.
pub mod Walk
use aladdin_solver_engine.Prelude.{Bool, List, Option, Text, [], map_put, ◌++◌, ◌∷◌}

mutual
  pub data Json : Type 0 where
    null : Json
    bool : Bool → Json
    num : Text → Json
    str : Text → Json
    arr : Items → Json
    obj : Fields → Json

  pub data Items : Type 0 where
    no_items : Items
    item : Json → Items → Items

  pub data Fields : Type 0 where
    no_fields : Fields
    field : Text → Json → Fields → Fields

-- A `json.RawMessage`: the value that its bytes denote, if they denote one; a nil message, such as
-- that of a missing key, denotes none.
abbrev pub Raw : Type 0
Raw = Option Json

-- What `Decoder.Token` returns: a delimiter, a string, or another scalar.
pub data Token : Type 0 where
  open_object close_object open_array close_array : Token
  text : Text → Token
  scalar : Token

unfoldable mutual
  pub tokens_of : Json → List Token
  tokens_of null = scalar ∷ []
  tokens_of (bool b) = scalar ∷ []
  tokens_of (num n) = scalar ∷ []
  tokens_of (str s) = text s ∷ []
  tokens_of (arr xs) = open_array ∷ item_tokens xs
  tokens_of (obj fs) = open_object ∷ field_tokens fs

  -- With the closing delimiter.
  pub item_tokens : Items → List Token
  item_tokens no_items = close_array ∷ []
  item_tokens (item x xs) = tokens_of x ++ item_tokens xs

  pub field_tokens : Fields → List Token
  field_tokens no_fields = close_object ∷ []
  field_tokens (field k v fs) = text k ∷ (tokens_of v ++ field_tokens fs)

-- Elements of an array.
unfoldable pub items_of : Items → List Json
items_of no_items = []
items_of (item x xs) = x ∷ items_of xs

-- An object as a Go map: of two fields with one name, the later one stays.
unfoldable pub add_fields : Fields → List (Text × Json) → List (Text × Json)
add_fields no_fields m = m
add_fields (field k v fs) m = add_fields fs (map_put m k v)

abbrev pub map_of : Fields → List (Text × Json)
map_of fs = add_fields fs []
