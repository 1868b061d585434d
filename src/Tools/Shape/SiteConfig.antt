-- ===== src/Tools/Shape/SiteConfig.antt =====
-- tools/config_gen.py: the reply of `generate_site_config`.
use prisma_sdwan_mcp.Prelude.{
  Option-cases, if_kept, is_empty, ◌≡◌, refl, subst, inl, inr, Option, none, some, List, [],
}
use prisma_sdwan_mcp.Prelude.Text.{Text, codes, strip}
use prisma_sdwan_mcp.Prelude.Result.{ok, returned_eq, Result-cases}
use prisma_sdwan_mcp.Errors.{Failure}
use prisma_sdwan_mcp.Value.{Value, str, Fields, end, field, get, has}
use prisma_sdwan_mcp.Response.Envelope.{count}
use prisma_sdwan_mcp.Response.Shape.{IsError, IsReply, structured_error-IsError}
use prisma_sdwan_mcp.Tools.{Toolbox}
use prisma_sdwan_mcp.Tools.Shape.{refusal-IsError, apart, single-Yields}
use prisma_sdwan_mcp.Tools.SiteConfig.{
  tool, element_rows, site_config, class_name, validated, config_reply, failed,
  generate_site_config,
}

module _ (b : Toolbox) (violation : Fields → Option Text) (yaml : Fields → Text) where
  validated-IsReply :
      (site_id : Text) (config reply : Fields)
      → validated b violation yaml site_id config ≡ ok reply
      → IsReply tool reply
  unfolding validated has get
  validated-IsReply site_id config reply e =
      (single-Yields b tool _ "result" _ end (apart refl refl refl refl)).yielded [] reply e

  config_reply-IsReply :
      (site_id : Text) (rows : Option (List Fields)) (reply : Fields)
      → config_reply b violation yaml site_id rows ≡ ok reply
      → IsReply tool reply
  unfolding config_reply
  config_reply-IsReply site_id none reply e =
      subst (IsReply tool) (returned_eq e)
        (inr (refusal-IsError "invalid_element" "each element must contain serial_number" tool 400))
  config_reply-IsReply site_id (some rows) reply e =
      elim (Option-cases (violation (site_config (strip site_id) rows))) [
        | inl f ↦ validated-IsReply site_id _ reply (rw (config_reply, f) at e)
        | inr (message, f) ↦ subst (IsReply tool) (returned_eq (rw (config_reply, f) at e)) (
            inr (
              structured_error-IsError (codes "schema_validation_failed") message tool (count 400)
                end))
      ]

  failed-IsError : (e : Failure) → IsError tool (failed b violation yaml e)
  unfolding failed
  failed-IsError e =
      structured_error-IsError (codes "internal_error")
        (codes "failed to generate site configuration") tool (count 500)
        (field "exception" (str (class_name e)) end)

  pub generate_site_config-IsReply :
      (site_id : Text) (elements : List Value)
      → IsReply
          (codes "generate_site_config")
          (generate_site_config b violation yaml site_id elements)
  unfolding generate_site_config
  generate_site_config-IsReply site_id elements =
      if_kept (IsReply tool) (is_empty (strip site_id)) _ _
        (inr (refusal-IsError "invalid_argument" "site_id is required" tool 400))
        (if_kept (IsReply tool) (is_empty elements) _ _
          (inr (refusal-IsError "invalid_argument" "elements must be a non-empty list" tool 400))
          (elim (Result-cases (config_reply b violation yaml site_id (element_rows elements))) [
            | inl (f, e) ↦ rw e (inr (failed-IsError f))
            | inr (reply, e) ↦ rw e (config_reply-IsReply site_id _ reply e)
          ]))
