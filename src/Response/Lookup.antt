-- ===== src/Response/Lookup.antt =====
-- response.py: the entries of the replies of `collection_json`: the records and the next cursor.
use prisma_sdwan_mcp.Prelude.Text.{Text}
use prisma_sdwan_mcp.Prelude.{
  ltb, if◌then◌else◌, Bool-cases, ℕ, String, ◌≡◌, refl, ◌∙◌, inl, inr, false, Option, none, some,
  List, [], ◌∷◌, arith, str_eq, eq_iff,
}
use prisma_sdwan_mcp.Value.{
  Value, str, list, dict, Fields, end, field, of_items, is_null, get, has, set,
}
use prisma_sdwan_mcp.Value.Entries.{get-set}
use prisma_sdwan_mcp.Response.Compact.{in_keys}
use prisma_sdwan_mcp.Response.Envelope.{Page, update_given, own_entries, payload, identity}
use prisma_sdwan_mcp.Response.Cursor.{encode_cursor}
use prisma_sdwan_mcp.Response.Collection.{stub, final_payload}

-- The keys that a payload has besides the records.
abbrev pub payload_keys : List String
payload_keys =
    "next_cursor" ∷ "retrieved_at" ∷ "returned_count" ∷ "total_count" ∷ "truncated" ∷ "warning"
    ∷ "summary" ∷ []

-- The key of the records is none of these, and the extra entries have neither it nor a cursor.
pub record IsFresh (key : String) (extra : Fields) : Type 0 where
  pub own : in_keys key payload_keys ≡ false
  pub not_extra : has key extra ≡ false
  pub no_cursor : has "next_cursor" extra ≡ false

pub get-set_other :
    (k j : String) (v : Value) (fs : Fields) → str_eq k j ≡ false → get j (set k v fs) ≡ get j fs
get-set_other k j v fs e = rw (get-set k j v fs, e) refl

pub get-set_same : (k : String) (v : Value) (fs : Fields) → get k (set k v fs) ≡ some v
get-set_same k v fs = rw (get-set k k v fs) (ground (arith, eq_iff k k))

-- Extra entries under other keys change nothing.
pub get-update_given :
    (k : String) (extra out : Fields)
    → has k extra ≡ false
    → get k (update_given extra out) ≡ get k out
unfolding update_given
get-update_given k end out h = refl
get-update_given k (field j v fs) out h =
    let (other, later) = not_first k j v fs h in
    elim (Bool-cases (is_null v)) [
      | inl e ↦ rw (update_given, e) (get-update_given k fs out later)
      | inr e ↦
          rw (update_given, e)
            (get-update_given k fs (set j v out) later ∙ get-set_other j k v out other)
    ]
  where
    not_first :
        (k j : String) (v : Value) (fs : Fields)
        → has k (field j v fs) ≡ false
        → (str_eq j k ≡ false) × (has k fs ≡ false)
    not_first k j v fs h = unfold has get in (ground arith)

differs : (k j : String) → str_eq j k ≡ false → str_eq k j ≡ false
differs k j h = ground (arith, eq_iff j k, eq_iff k j)

pub other_keys :
    (key : String)
    → in_keys key payload_keys ≡ false
    → (str_eq "next_cursor" key ≡ false)
      × (str_eq "retrieved_at" key ≡ false)
      × (str_eq "returned_count" key ≡ false)
      × (str_eq "total_count" key ≡ false)
      × (str_eq "truncated" key ≡ false)
      × (str_eq "warning" key ≡ false)
      × (str_eq "summary" key ≡ false)
unfolding in_keys
other_keys key h = ground arith

module _ (p : Page) (extra : Fields) (fresh : IsFresh p.key extra) where
  get-own_entries :
      (vs : List Value) (next_offset : ℕ)
      → (get p.key (own_entries p vs next_offset) ≡ some (list (of_items vs)))
        × (get "next_cursor" (own_entries p vs next_offset) ≡ none)
  unfolding own_entries
  get-own_entries vs next_offset =
      let (cursor, retrieved, returned, total, truncated, _, _) = other_keys p.key fresh.own in
      (
        rw
            (
              get-set "retrieved_at" p.key,
              retrieved,
              get-set "returned_count" p.key,
              returned,
              get-set "total_count" p.key,
              total,
              get-set "truncated" p.key,
              truncated,
              get-set_same p.key,
            )
            refl,
        rw
            (
              get-set "retrieved_at" "next_cursor",
              get-set "returned_count" "next_cursor",
              get-set "total_count" "next_cursor",
              get-set "truncated" "next_cursor",
              get-set p.key "next_cursor",
              differs p.key "next_cursor" cursor,
            )
            (unfold get in refl),
      )

  abbrev pub cursor_entry : ℕ → Option Value
  cursor_entry next_offset =
      if ltb next_offset p.total then some (str (encode_cursor next_offset p.tool)) else none

  get-payload :
      (vs : List Value) (next_offset : ℕ)
      → (get p.key (payload p vs next_offset extra) ≡ some (list (of_items vs)))
        × (get "next_cursor" (payload p vs next_offset extra) ≡ cursor_entry next_offset)
  unfolding payload
  get-payload vs next_offset =
      let (cursor, _, _, _, _, _, _) = other_keys p.key fresh.own in
      let (own_items, own_cursor) = get-own_entries vs next_offset in
      elim (Bool-cases (ltb next_offset p.total)) [
        | inl e ↦
            rw
              (
                payload,
                e,
                get-update_given p.key extra _ fresh.not_extra,
                get-update_given "next_cursor" extra _ fresh.no_cursor,
              )
              (
                get-set_other "next_cursor" p.key _ _ cursor ∙ own_items,
                get-set_same "next_cursor" _ _,
              )
        | inr e ↦
            rw
              (
                payload,
                e,
                get-update_given p.key extra _ fresh.not_extra,
                get-update_given "next_cursor" extra _ fresh.no_cursor,
              )
              (own_items, own_cursor)
      ]

  pub get-stub :
      (repr : Value → Text) (r : Value) (next_offset : ℕ)
      → (get p.key (stub repr p extra r next_offset)
          ≡ some (list (of_items (dict (identity repr r) ∷ []))))
        × (get "next_cursor" (stub repr p extra r next_offset) ≡ cursor_entry next_offset)
  unfolding stub
  get-stub repr r next_offset =
      let (_, _, returned, _, truncated, warning, _) = other_keys p.key fresh.own in
      let (its_items, its_cursor) = get-payload (dict (identity repr r) ∷ []) next_offset in
      (
        get-set_other "warning" p.key _ _ warning
            ∙ get-set_other "returned_count" p.key _ _ returned
            ∙ get-set_other "truncated" p.key _ _ truncated
            ∙ its_items,
        get-set "warning" "next_cursor" _ _
            ∙ get-set "returned_count" "next_cursor" _ _
            ∙ get-set "truncated" "next_cursor" _ _
            ∙ its_cursor,
      )

  pub get-final_payload :
      (vs : List Value) (next_offset : ℕ)
      → (get p.key (final_payload p extra vs next_offset) ≡ some (list (of_items vs)))
        × (get "next_cursor" (final_payload p extra vs next_offset) ≡ cursor_entry next_offset)
  unfolding final_payload
  get-final_payload vs next_offset =
      let (_, _, _, _, _, _, summary) = other_keys p.key fresh.own in
      let (its_items, its_cursor) = get-payload vs next_offset in
      elim (Bool-cases (ltb next_offset p.total)) [
        | inl e ↦
            rw (final_payload, e)
              (
                get-set_other "summary" p.key _ _ summary ∙ its_items,
                get-set "summary" "next_cursor" _ _ ∙ (rw e at its_cursor),
              )
        | inr e ↦ rw (final_payload, e) (its_items, rw e at its_cursor)
      ]
