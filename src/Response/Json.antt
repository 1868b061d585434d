-- ===== src/Response/Json.antt =====
-- response.py: `compact_json`, the JSON text of a value without spaces, as json.dumps writes it with
-- ensure_ascii=False.
use prisma_sdwan_mcp.Prelude.{
  ltb, ◌==◌, if◌then◌else◌, ℕ, suc, ◌+◌, ◌-◌, ◌/◌, ◌%◌, true, false, [], ◌∷◌, ◌++◌,
}
use prisma_sdwan_mcp.Value.{
  Value, null, bool, int, real, str, list, dict, Fields, end, field, Items, nil, cons,
}
use prisma_sdwan_mcp.Prelude.Text.{Text, codes}
use prisma_sdwan_mcp.Prelude.Int.{ℤ, pos, negsuc}
use prisma_sdwan_mcp.Resolver.Records.{decimal}

unfoldable pub hex_digit : ℕ → ℕ
hex_digit n = if ltb n 10 then b'0' + n else b'a' + (n - 10)

unfoldable pub json_char : ℕ → Text
unfolding hex_digit codes
json_char c =
    if c == 34
    then 92 ∷ 34 ∷ []
    else if c == 92
    then 92 ∷ 92 ∷ []
    else if c == 10
    then codes "\\n"
    else if c == 13
    then codes "\\r"
    else if c == 9
    then codes "\\t"
    else if c == 8
    then codes "\\b"
    else if c == 12
    then codes "\\f"
    else if ltb c 32
    then codes "\\u00" ++ (hex_digit (c / 16) ∷ hex_digit (c % 16) ∷ [])
    else c ∷ []

unfoldable pub json_chars : Text → Text
unfolding json_char
json_chars [] = []
json_chars (c ∷ s) = json_char c ++ json_chars s

unfoldable pub json_string : Text → Text
unfolding json_chars
json_string s = 34 ∷ (json_chars s ++ 34 ∷ [])

unfoldable pub json_int : ℤ → Text
unfolding decimal
json_int (pos n) = decimal n
json_int (negsuc n) = b'-' ∷ decimal (suc n)

-- The entries of an object and the elements of a list, each with the comma in front of it.
unfoldable mutual
  unfolding json_string json_int codes

  pub compact_json : Value → Text
  compact_json null = codes "null"
  compact_json (bool true) = codes "true"
  compact_json (bool false) = codes "false"
  compact_json (int n) = json_int n
  compact_json (real t) = t
  compact_json (str s) = json_string s
  compact_json (list nil) = codes "[]"
  compact_json (list (cons v vs)) = b'[' ∷ (compact_json v ++ more_items vs)
  compact_json (dict end) = codes "{}"
  compact_json (dict (field k v fs)) =
      b'{' ∷ (json_string (codes k) ++ (b':' ∷ (compact_json v ++ more_fields fs)))

  pub more_items : Items → Text
  more_items nil = b']' ∷ []
  more_items (cons v vs) = b',' ∷ (compact_json v ++ more_items vs)

  pub more_fields : Fields → Text
  more_fields end = b'}' ∷ []
  more_fields (field k v fs) =
      b',' ∷ (json_string (codes k) ++ (b':' ∷ (compact_json v ++ more_fields fs)))
