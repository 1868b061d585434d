-- ===== src/Response/Cursor.antt =====
-- response.py: `_encode_cursor` and `_decode_cursor`.
pub mod Tests
pub mod Padding
pub mod RoundTrip
use prisma_sdwan_mcp.Prelude.{
  ltb, leb, ◌==◌, if◌then◌else◌, length, all, is_empty, ℕ, ◌%◌, Bool, false, ◌&&◌, Option, none,
  some, [], ◌∷◌, ◌++◌,
}
use prisma_sdwan_mcp.Prelude.Text.{Text, codes, text_eq}
use prisma_sdwan_mcp.Prelude.Int.{ℤ, pos}
use prisma_sdwan_mcp.Value.{Value, int, str, dict, end, field}
use prisma_sdwan_mcp.Cli.Ssh.{encode}
use prisma_sdwan_mcp.Response.Json.{compact_json}
use prisma_sdwan_mcp.Response.Base64.{encode64, decode64}
use prisma_sdwan_mcp.Response.Loads.{Json, number, text, object, loads, lookup}

-- `text.rstrip("=")`
unfoldable pub strip_pads : Text → Text
strip_pads [] = []
strip_pads (c ∷ s) = let rest = strip_pads s in if is_empty rest && c == b'=' then [] else c ∷ rest

unfoldable pub cursor_value : ℕ → Text → Value
unfolding codes
cursor_value offset tool =
    dict (field "v" (int (pos 3)) (field "offset" (int (pos offset)) (field "t" (str tool) end)))

-- `_encode_cursor`
unfoldable pub encode_cursor : ℕ → Text → Text
encode_cursor offset tool = strip_pads (encode64 (encode (compact_json (cursor_value offset tool))))

-- `"=" * (-n % 4)`, for a number of characters.
unfoldable pub pads_for : ℕ → Text
pads_for n =
    if n % 4 == 1
    then b'=' ∷ b'=' ∷ b'=' ∷ []
    else if n % 4 == 2
    then b'=' ∷ b'=' ∷ []
    else if n % 4 == 3
    then b'=' ∷ []
    else []

unfoldable pub is_ascii : Text → Bool
is_ascii s = all (λ c. ltb c 128) s

is_number : ℤ → Option Json → Bool
is_number (pos m) (some (number (pos n))) = m == n
is_number z o = false

is_text : Text → Option Json → Bool
unfolding text_eq
is_text s (some (text t)) = text_eq t s
is_text s o = false

-- The offset of a cursor's object: the version is 3, the tool is the one that asks, and the offset is
-- an integer from 0 to the total. A version that is a float (3.0, which equals 3) is taken for another.
unfoldable pub offset_in : ℕ → Text → Json → Option ℕ
unfolding lookup is_number is_text codes text_eq
offset_in total tool (object ms) = elim (lookup (codes "offset") ms) [
  | some (number (pos n)) ↦
      if is_number (pos 3) (lookup (codes "v") ms)
        && is_text tool (lookup (codes "t") ms)
        && leb n total
      then some n
      else none
  | _ ↦ none
]
offset_in total tool _ = none

-- `_decode_cursor`: `none` is its ValueError, and None or an empty cursor starts at 0.
unfoldable pub decode_cursor : Option Text → ℕ → Text → Option ℕ
unfolding is_ascii decode64 pads_for loads offset_in
decode_cursor none total tool = some 0
decode_cursor (some []) total tool = some 0
decode_cursor (some (c ∷ s)) total tool =
    elim (if is_ascii (c ∷ s) then decode64 ((c ∷ s) ++ pads_for (length (c ∷ s))) else none) [
      | none ↦ none
      | some bytes ↦ elim (loads bytes) [ none ↦ none | some json ↦ offset_in total tool json ]
    ]
