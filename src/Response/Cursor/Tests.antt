-- ===== src/Response/Cursor/Tests.antt =====
-- A cursor of response.py that is made and read.
use prisma_sdwan_mcp.Prelude.{◌≡◌, some, arith}
use prisma_sdwan_mcp.Prelude.Text.{Text, codes, text_eq}
use prisma_sdwan_mcp.Resolver.Records.{decimal}
use prisma_sdwan_mcp.Response.Cursor.{encode_cursor, decode_cursor}
use prisma_sdwan_mcp.Response.Cursor.RoundTrip.{decode_cursor-encode_cursor}

abbrev sites_tool : Text
unfolding codes
sites_tool = codes "ab"

decode_cursor-encode_cursor_example :
    decode_cursor (some (encode_cursor 5 sites_tool)) 9 sites_tool ≡ some 5
unfolding decimal codes text_eq
decode_cursor-encode_cursor_example =
    decode_cursor-encode_cursor 5 9 sites_tool sites_tool (omega arith, (omega arith, tt))
      (omega arith)
