-- ===== src/Resolver/Records.antt =====
-- resolver.py: the records of an answer, their projection, and the text of a value.
use prisma_sdwan_mcp.Prelude.{
  ltb, if◌then◌else◌, ℕ, zero, suc, ◌+◌, ◌/◌, ◌%◌, String, true, false, Option, none, some, List,
  [], ◌∷◌,
}
use prisma_sdwan_mcp.Prelude.Text.{Text, codes}
use prisma_sdwan_mcp.Prelude.Int.{pos, negsuc}
use prisma_sdwan_mcp.Value.{
  Value, null, bool, int, real, str, list, dict, Fields, end, Items, is_null, get, get_or_null, has,
  set, dicts,
}

unfoldable pub list_at : String → Fields → Option Items
unfolding get
list_at key fs = elim (get key fs) [ some (list vs) ↦ some vs | _ ↦ none ]

-- `_records` for an object: the first of the three keys that holds a list.
wrapped : Fields → Option Items
unfolding list_at
wrapped fs = elim (list_at "items" fs) [
  | some vs ↦ some vs
  | none ↦ elim (list_at "data" fs) [ some vs ↦ some vs | none ↦ list_at "results" fs ]
]

unfoldable pub records : Value → List Fields
unfolding wrapped dicts has
records (list vs) = dicts vs
records (dict fs) = elim (wrapped fs) [
  | some vs ↦ dicts vs
  | none ↦ if has "error" fs then [] else fs ∷ []
]
records null = []
records (bool b) = []
records (int n) = []
records (real t) = []
records (str s) = []

project_from : List String → Fields → Fields → Fields
unfolding get_or_null set
project_from [] item out = out
project_from (f ∷ fs) item out =
    project_from fs item
      (if is_null (get_or_null f item) then out else set f (get_or_null f item) out)

-- `{field: item[field] for field in fields if item.get(field) is not None}`
unfoldable pub project : List String → Fields → Fields
unfolding project_from
project fields item = project_from fields item end

unfoldable pub digits_from : ℕ → ℕ → Text → Text
digits_from zero n out = out
digits_from (suc fuel) n out =
    let more = digits_from fuel (n / 10) ((b'0' + n % 10) ∷ out) in
    if ltb n 10 then (b'0' + n) ∷ out else more

-- The decimal digits of a number; one round for each digit, of which there are at most `n + 1`.
unfoldable pub decimal : ℕ → Text
unfolding digits_from
decimal n = digits_from (suc n) n []

-- `str(value)`
unfoldable pub to_text : (Value → Text) → Value → Text
unfolding decimal codes
to_text repr null = codes "None"
to_text repr (bool true) = codes "True"
to_text repr (bool false) = codes "False"
to_text repr (int (pos n)) = decimal n
to_text repr (int (negsuc n)) = b'-' ∷ decimal (suc n)
to_text repr (real t) = t
to_text repr (str s) = s
to_text repr (list vs) = repr (list vs)
to_text repr (dict fs) = repr (dict fs)
