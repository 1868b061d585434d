-- ===== src/Value.antt =====
-- The data that the program passes on: what `json` and the SDK give, as one type. Keys are strings.
-- An object keeps the order of its entries; a float is its text.
pub mod Entries
pub mod Names
use prisma_sdwan_mcp.Prelude.{
  if◌then◌else◌, is_empty, zero, suc, String, Bool, true, false, not, ◌||◌, Option, none, some,
  List, [], ◌∷◌, str_eq,
}
use prisma_sdwan_mcp.Prelude.Text.{Text, codes, text_eq}
use prisma_sdwan_mcp.Prelude.Int.{ℤ, pos, negsuc}

mutual
  pub data Value : Type 0 where
    null : Value
    bool : Bool → Value
    int : ℤ → Value
    real : Text → Value
    str : Text → Value
    list : Items → Value
    dict : Fields → Value

  pub data Fields : Type 0 where
    end : Fields
    field : String → Value → Fields → Fields

  pub data Items : Type 0 where
    nil : Items
    cons : Value → Items → Items

abbrev pub items : Items → List Value
items nil = []
items (cons v vs) = v ∷ items vs

abbrev pub of_items : List Value → Items
of_items [] = nil
of_items (v ∷ vs) = cons v (of_items vs)

abbrev pub is_null : Value → Bool
is_null null = true
is_null _ = false

-- `d.get(key)`, with `none` for a missing key.
unfoldable pub get : String → Fields → Option Value
get k end = none
get k (field j v fs) = if str_eq j k then some v else get k fs

-- `d.get(key)`, with the code's `None` for a missing key.
unfoldable pub get_or_null : String → Fields → Value
unfolding get
get_or_null k fs = elim (get k fs) [ none ↦ null | some v ↦ v ]

-- `key in d`
unfoldable pub has : String → Fields → Bool
unfolding get
has k fs = elim (get k fs) [ none ↦ false | some v ↦ true ]

-- `d[key] = value`: an old entry keeps its place.
unfoldable pub set : String → Value → Fields → Fields
set k v end = field k v end
set k v (field j w fs) = if str_eq j k then field j v fs else field j w (set k v fs)

abbrev pub keys : Fields → List String
keys end = []
keys (field k v fs) = k ∷ keys fs

-- Python's truth of a value.
unfoldable pub truthy : Value → Bool
truthy null = false
truthy (bool b) = b
truthy (int (pos zero)) = false
truthy (int (pos (suc n))) = true
truthy (int (negsuc n)) = true
truthy (real t) = not (text_eq t (codes "0.0") || text_eq t (codes "-0.0"))
truthy (str s) = not (is_empty s)
truthy (list nil) = false
truthy (list (cons v vs)) = true
truthy (dict end) = false
truthy (dict (field k v fs)) = true

-- The records among the elements of a list: `[x for x in value if isinstance(x, dict)]`.
unfoldable pub dicts : Items → List Fields
dicts nil = []
dicts (cons (dict fs) vs) = fs ∷ dicts vs
dicts (cons _ vs) = dicts vs
