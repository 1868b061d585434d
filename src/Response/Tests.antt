-- ===== src/Response/Tests.antt =====
-- Two records that share a field, and what trimming keeps of them.
use prisma_sdwan_mcp.Response.Outline.{outline_fields, IsOutlined, outline_fields-get}
use prisma_sdwan_mcp.Prelude.{String, ◌≡◌, refl, inl, true, false, some, List, [], ◌∷◌}
use prisma_sdwan_mcp.Value.{Value, str, list, dict, Fields, end, field, nil, get, get_or_null}
use prisma_sdwan_mcp.Prelude.Text.{codes, text_eq}
use prisma_sdwan_mcp.Response.Json.{json_char, json_string, compact_json}
use prisma_sdwan_mcp.Response.Compact.{
  is_condition, is_identity, keep_field, in_keys, add_keys, all_keys, is_void, is_empty_key,
  is_shared_key, keep_keys, trim_record, trim, shared_from, shared_fields,
}
use prisma_sdwan_mcp.Response.Kept.{IsKept, trim-IsKept}

compaction : Unit {0}
unfolding compact_json trim trim_record is_empty_key is_shared_key shared_fields shared_from
    all_keys add_keys in_keys keep_keys get get_or_null is_void codes text_eq keep_field
    is_condition is_identity json_string json_char
compaction = tt

abbrev peer : String → Fields
peer name =
    field "name" (str (codes name)) (field "role" (str (codes "HUB")) (field "tags" (list nil) end))

abbrev peers : List Fields
peers = peer "a" ∷ peer "b\"" ∷ []

json_of_peer :
    compact_json (dict (peer "b\"")) ≡ codes "{\"name\":\"b\\\"\",\"role\":\"HUB\",\"tags\":[]}"
unfolding compaction
json_of_peer = refl

trimmed_peers :
    trim peers ≡ field "name" (str (codes "a")) end ∷ field "name" (str (codes "b\"")) end ∷ []
unfolding compaction
trimmed_peers = refl

kept_fields :
    (keep_field "site_id" ≡ true)
    × (keep_field "Operational_State" ≡ true)
    × (keep_field "link_up" ≡ true)
    × (keep_field "mtu" ≡ false)
unfolding compaction
kept_fields = (refl, refl, refl, refl)

trim-IsKept_example : IsKept peers (peer "a") "role" (str (codes "HUB"))
unfolding compaction
trim-IsKept_example = trim-IsKept peers (peer "a") "role" (str (codes "HUB")) (inl refl) refl refl

tags_held : get "tags" (peer "a") ≡ some (list nil)
unfolding compaction
tags_held = refl

outline_fields-get_test :
    (w : Value) × (get "tags" (outline_fields (peer "a")) ≡ some w) × IsOutlined (list nil) w
outline_fields-get_test = outline_fields-get "tags" (list nil) (peer "a") tags_held
