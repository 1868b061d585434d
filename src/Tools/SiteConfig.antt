-- ===== src/Tools/SiteConfig.antt =====
-- tools/config_gen.py: `generate_site_config`. The schema, its validator and the YAML writer are
-- parameters: `violation` is the message of a ValidationError.
use prisma_sdwan_mcp.Prelude.{
  if◌then◌else◌, is_empty, String, false, Option, none, some, List, [], ◌∷◌, ◌++◌, map,
}
use prisma_sdwan_mcp.Prelude.Text.{Text, codes, strip}
use prisma_sdwan_mcp.Prelude.Result.{Result, err, ok}
use prisma_sdwan_mcp.Errors.{Failure, resolution, capability, registry, unexpected}
use prisma_sdwan_mcp.Value.{
  Value, bool, str, list, dict, Fields, end, field, of_items, get_or_null, truthy,
}
use prisma_sdwan_mcp.Response.{structured_error}
use prisma_sdwan_mcp.Response.Envelope.{count}
use prisma_sdwan_mcp.Tools.{Toolbox}
use prisma_sdwan_mcp.Tools.Replies.{refusal, invalid_argument, quoted, single}

abbrev pub tool : Text
tool = codes "generate_site_config"

-- The optional keys of an element that have a true value.
optional_keys : List String → Fields → Fields
unfolding get_or_null truthy
optional_keys [] element = end
optional_keys (k ∷ ks) element =
    let rest = optional_keys ks element in
    if truthy (get_or_null k element) then field k (get_or_null k element) rest else rest

element_row : Fields → Fields
unfolding optional_keys get_or_null
element_row element =
    field "serial_number" (get_or_null "serial_number" element)
      (optional_keys ("model_name" ∷ "device_variables" ∷ "policy_variables" ∷ []) element)

-- The rows of the elements, if each is an object with a serial number.
unfoldable pub element_rows : List Value → Option (List Fields)
unfolding element_row
element_rows [] = some []
element_rows (dict fs ∷ vs) =
    if truthy (get_or_null "serial_number" fs)
    then elim (element_rows vs) [ none ↦ none | some rows ↦ some (element_row fs ∷ rows) ]
    else none
element_rows (v ∷ vs) = none

unfoldable pub site_config : Text → List Fields → Fields
site_config site_id rows =
    field "prisma_sdwan"
      (dict (
        field "sites"
          (list (
            of_items (
              dict (
                field "site_id" (str site_id)
                  (field "elements" (list (of_items (map dict rows))) end))
              ∷ [])))
          end))
      end

-- The name of an exception's class.
unfoldable pub class_name : Failure → Text
unfolding codes
class_name (unexpected name) = name
class_name (resolution m cs) = codes "ResolutionError"
class_name (capability m) = codes "CapabilityExecutionError"
class_name (registry m) = codes "RegistryError"

module _ (b : Toolbox) (violation : Fields → Option Text) (yaml : Fields → Text) where
  unfoldable pub validated : Text → Fields → Result Failure Fields
  unfolding codes quoted
  validated site_id config = first (
      single b tool (codes "Site " ++ (quoted site_id ++ codes " configuration validated")) "result"
        (dict (
          field "config" (dict config) (
            field "yaml" (str (codes "---\n# Prisma SD-WAN Sites\n" ++ yaml config))
              (field "network_changed" (bool false) end))))
        end [])
    where
      first : {A B : Type 0} → A × B → A
      first p = p.0

  unfoldable pub config_reply : Text → Option (List Fields) → Result Failure Fields
  unfolding validated structured_error strip codes
  config_reply site_id none =
      ok (refusal "invalid_element" "each element must contain serial_number" tool 400)
  config_reply site_id (some rows) =
      let config = site_config (strip site_id) rows in
      elim (violation config) [
        | some message ↦
            ok (structured_error (codes "schema_validation_failed") message tool (count 400) end)
        | none ↦ validated site_id config
      ]

  unfoldable pub failed : Failure → Fields
  unfolding structured_error class_name codes
  failed e =
      structured_error (codes "internal_error") (codes "failed to generate site configuration") tool
        (count 500) (field "exception" (str (class_name e)) end)

  unfoldable pub generate_site_config : Text → List Value → Fields
  unfolding config_reply failed strip
  generate_site_config site_id elements =
      if is_empty (strip site_id)
      then invalid_argument "site_id is required" tool
      else if is_empty elements
      then invalid_argument "elements must be a non-empty list" tool
      else elim (config_reply site_id (element_rows elements)) [
        | ok reply ↦ reply
        | err e ↦ failed e
      ]
