-- ===== src/Response/Errors.antt =====
-- response.py: the details of an error.
use prisma_sdwan_mcp.Value.Entries.{get-set}
use prisma_sdwan_mcp.Value.{Value, Fields, end, field, is_null, get, has, set}
use prisma_sdwan_mcp.Prelude.{
  Bool-cases, String, ◌≡◌, refl, ◌∙◌, inl, inr, true, false, ◌||◌, str_eq, eq_iff,
}
use prisma_sdwan_mcp.Prelude.Text.{Text}
use prisma_sdwan_mcp.Response.{own_fields, add_details, structured_error}

set_other :
    (k j : String) (v : Value) (reserved out : Fields)
    → has k reserved ≡ true
    → (has j reserved || is_null v) ≡ false
    → get k (set j v out) ≡ get k out
set_other k j v reserved out h e = elim (Bool-cases (str_eq j k)) [
  | inl f ↦ let same : j ≡ k = (eq_iff j k).0 f in cc (rw (same, h) at e)
  | inr f ↦ get-set j k v out ∙ rw f refl
]

add_details-get :
    (reserved details out : Fields) (k : String)
    → has k reserved ≡ true
    → get k (add_details reserved details out) ≡ get k out
unfolding add_details
add_details-get reserved end out k h = refl
add_details-get reserved (field j v fs) out k h = elim (Bool-cases (has j reserved || is_null v)) [
  | inl e ↦ rw (add_details, e) (add_details-get reserved fs out k h)
  | inr e ↦
      rw (add_details, e)
        (add_details-get reserved fs (set j v out) k h ∙ set_other k j v reserved out h e)
]

-- Whatever the details, each key that the error sets itself has its own value in the result.
pub structured_error-get :
    (code message tool : Text) (status_code : Value) (details : Fields) (k : String)
    → has k (own_fields code message tool status_code) ≡ true
    → get k (structured_error code message tool status_code details)
      ≡ get k (own_fields code message tool status_code)
unfolding structured_error
structured_error-get code message tool status_code details k h =
    add_details-get (own_fields code message tool status_code) details
      (own_fields code message tool status_code) k h
