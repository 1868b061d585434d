-- ===== src/Response/Cursor/RoundTrip.antt =====
-- response.py: a cursor is read back by the tool that it was made for.
use prisma_sdwan_mcp.Response.Cursor.Padding.{decode_filled}
use prisma_sdwan_mcp.Prelude.{
  leb, if◌then◌else◌, length, All-append, ℕ, suc, ◌+◌, ◌-◌, ◌≤◌, ◌<◌, ◌≡◌, refl, ◌∙◌, ◌&&◌, none,
  some, [], ◌∷◌, ◌++◌, append_assoc, arith,
}
use prisma_sdwan_mcp.Prelude.Text.{Text, codes, in_range, is_digit, text_eq}
use prisma_sdwan_mcp.Prelude.Int.{pos}
use prisma_sdwan_mcp.Resolver.Records.{decimal}
use prisma_sdwan_mcp.Cli.Ssh.{utf8, encode}
use prisma_sdwan_mcp.Response.Json.{hex_digit, json_char, json_chars, json_string, compact_json}
use prisma_sdwan_mcp.Response.Base64.{encode64, AreBytes}
use prisma_sdwan_mcp.Response.Loads.Strings.{skip, parse_chars}
use prisma_sdwan_mcp.Response.Loads.{
  number, text, object, Members, no_member, member, parse_unsigned, parse_scalar, expect, next_or,
  parse_value, loads, lookup,
}
use prisma_sdwan_mcp.Response.Loads.Objects.{
  AreDigits-decimal, parse_value-decimal, parse_value-json_string, more_members, last_member,
  whole_object, expect-decimal,
}
use prisma_sdwan_mcp.Response.Loads.Reads.{chars_of-encode, AreDigits}
use prisma_sdwan_mcp.Cli.Ssh.Truncate.{AreScalars}
use prisma_sdwan_mcp.Response.Cursor.{
  strip_pads, cursor_value, encode_cursor, offset_in, decode_cursor,
}

-- The text of a cursor's object.
cursor_text : ℕ → Text → Text
unfolding codes
cursor_text n tool =
    codes "{\"v\":3,\"offset\":"
    ++ (decimal n ++ (b',' ∷ (codes "\"t\":\"" ++ (json_chars tool ++ codes "\"}"))))

compact_json-cursor_value :
    (n : ℕ) (tool : Text) → compact_json (cursor_value n tool) ≡ cursor_text n tool
unfolding compact_json cursor_value cursor_text codes json_string json_chars
compact_json-cursor_value n tool = rw (append_assoc (json_chars tool) (34 ∷ []) (125 ∷ [])) refl

utf8-AreBytes : (c : ℕ) → c < 0x110000 → AreBytes (utf8 c)
unfolding utf8
utf8-AreBytes c h = ground arith

encode-AreBytes : (s : Text) → AreScalars s → AreBytes (encode s)
unfolding encode
encode-AreBytes [] h = tt
encode-AreBytes (c ∷ s) (hc, h) =
    All-append _ (utf8 c) (encode s) (utf8-AreBytes c hc) (encode-AreBytes s h)

digits-AreScalars : (s : Text) → AreDigits s → AreScalars s
unfolding is_digit in_range
digits-AreScalars [] h = tt
digits-AreScalars (c ∷ s) (hc, h) = (ground arith, digits-AreScalars s h)

char-AreScalars : (c : ℕ) → c < 0x110000 → AreScalars (json_char c)
unfolding json_char hex_digit codes
char-AreScalars c h = ground arith

chars-AreScalars : (s : Text) → AreScalars s → AreScalars (json_chars s)
unfolding json_chars
chars-AreScalars [] h = tt
chars-AreScalars (c ∷ s) (hc, h) =
    All-append _ (json_char c) (json_chars s) (char-AreScalars c hc) (chars-AreScalars s h)

cursor_text-AreScalars : (n : ℕ) (tool : Text) → AreScalars tool → AreScalars (cursor_text n tool)
unfolding cursor_text codes
cursor_text-AreScalars n tool h = All-append _ (codes "{\"v\":3,\"offset\":") _ (omega arith) (
    All-append _ (decimal n) _ (digits-AreScalars (decimal n) (AreDigits-decimal n)) (
      All-append _ (codes ",\"t\":\"") _ (omega arith)
        (All-append _ (json_chars tool) (codes "\"}") (chars-AreScalars tool h) (omega arith))))

members_of : ℕ → Text → Members
unfolding codes
members_of n tool =
    member (codes "v") (number (pos 3))
      (member (codes "offset") (number (pos n)) (member (codes "t") (text tool) no_member))

cursor_text-parsed :
    (fuel n : ℕ) (tool : Text)
    → length (decimal n) ≤ 4300
    → parse_value (suc (suc (suc (suc (suc fuel))))) (cursor_text n tool)
      ≡ some (object (members_of n tool), [])
unfolding cursor_text members_of codes
cursor_text-parsed fuel n tool h =
    let close : Text = json_chars tool ++ codes "\"}" in
    let third : Text = codes "t\":\"" ++ close in
    let second : Text = codes "offset\":" ++ (decimal n ++ (b',' ∷ 34 ∷ third)) in
    let last =
      last_member (suc fuel) third (codes "t") (codes ":\"" ++ close) (34 ∷ close) (codes "}") []
        (text tool) (unfold parse_chars in refl) (unfold expect skip in refl)
        (parse_value-json_string tool fuel (codes "}")) (unfold next_or skip in refl) in
    let middle =
      more_members (suc (suc fuel)) second (codes "offset")
        (b':' ∷ (decimal n ++ (b',' ∷ 34 ∷ third))) (decimal n ++ (b',' ∷ 34 ∷ third))
        (b',' ∷ 34 ∷ third) (34 ∷ third) [] (number (pos n)) _ (unfold parse_chars in refl)
        (expect-decimal n (b',' ∷ 34 ∷ third)) (parse_value-decimal n (suc fuel) (34 ∷ third) h)
        (unfold next_or skip in refl) last in
    whole_object (suc (suc (suc (suc fuel)))) (codes "v\":3,\"" ++ second) [] _ (
      more_members (suc (suc (suc fuel))) (codes "v\":3,\"" ++ second) (codes "v")
        (codes ":3,\"" ++ second) (codes "3,\"" ++ second) (codes ",\"" ++ second) (34 ∷ second) []
        (number (pos 3)) _ (unfold parse_chars in refl) (unfold expect skip in refl)
        (unfold parse_value parse_scalar parse_unsigned is_digit in_range in refl)
        (unfold next_or skip in refl) middle)

loads-cursor_text :
    (n : ℕ) (tool : Text)
    → AreScalars tool
    → length (decimal n) ≤ 4300
    → loads (encode (cursor_text n tool)) ≡ some (object (members_of n tool))
unfolding loads
loads-cursor_text n tool h k =
    let s : Text = cursor_text n tool in
    let fuel : length s + length s + 1 ≡ suc (suc (suc (suc (suc (length s + length s - 4))))) =
      unfold cursor_text codes in omega arith in
    let unspaced : skip s ≡ s = unfold skip cursor_text codes in refl in
    rw
      (
        chars_of-encode (length (encode s)) s (cursor_text-AreScalars n tool h) (omega arith),
        unspaced,
        fuel,
        cursor_text-parsed (length s + length s - 4) n tool k,
      )
      (unfold skip in refl)

offset_in-members_of :
    (n total : ℕ) (tool asking : Text)
    → offset_in total asking (object (members_of n tool))
      ≡ (if text_eq tool asking && leb n total then some n else none)
unfolding offset_in members_of codes lookup text_eq
offset_in-members_of n total tool asking = refl

-- A cursor that was made for an offset and a tool is read back as this offset exactly if the same
-- tool asks and the offset is at most the number of its records; or else it is refused.
pub decode_cursor-encode_cursor :
    (n total : ℕ) (tool asking : Text)
    → AreScalars tool
    → length (decimal n) ≤ 4300
    → decode_cursor (some (encode_cursor n tool)) total asking
      ≡ (if text_eq tool asking && leb n total then some n else none)
decode_cursor-encode_cursor n total tool asking h k =
    encode_cursor-text n tool total asking
    ∙ decode_filled (encode (cursor_text n tool)) total asking
        (unfold encode utf8 cursor_text codes in refl)
        (encode-AreBytes (cursor_text n tool) (cursor_text-AreScalars n tool h))
    ∙ rw (loads-cursor_text n tool h k) (offset_in-members_of n total tool asking)
  where
    encode_cursor-text :
        (n : ℕ) (tool : Text) (total : ℕ) (asking : Text)
        → decode_cursor (some (encode_cursor n tool)) total asking
          ≡ decode_cursor (some (strip_pads (encode64 (encode (cursor_text n tool))))) total asking
    encode_cursor-text n tool total asking =
        unfold encode_cursor in rw (compact_json-cursor_value n tool) refl
