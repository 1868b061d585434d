-- ===== src/Tools/Core/Health.antt =====
-- tools/core.py: `get_device_health`.
use prisma_sdwan_mcp.Prelude.{
  ltb, if◌then◌else◌, length, take, ℕ, String, ◌⊎◌, inl, inr, Bool, true, false, not, ◌||◌, Option,
  none, some, List, [], ◌∷◌, ◌++◌,
}
use prisma_sdwan_mcp.Prelude.Text.{Text, codes}
use prisma_sdwan_mcp.Prelude.Int.{ℤ, below, to_nat}
use prisma_sdwan_mcp.Value.{
  Value, null, bool, str, list, dict, Fields, end, field, of_items, set, truthy, dicts,
}
use prisma_sdwan_mcp.Resolver.Records.{records, decimal}
use prisma_sdwan_mcp.Resolver.{SiteElement}
use prisma_sdwan_mcp.Common.{fail_from_upstream, merge_fields, summarize_states}
use prisma_sdwan_mcp.Response.{structured_error}
use prisma_sdwan_mcp.Response.Envelope.{count}
use prisma_sdwan_mcp.Tools.{
  Log, Toolbox, Step, return, ◌>>=◌, execute, ids_of, try_tool, max_fanout, gather, first_truthy,
  counts_value,
}
use prisma_sdwan_mcp.Tools.Replies.{refusal, quoted, single, unless_failed}
use prisma_sdwan_mcp.Tools.Domains.{element_paths, id_paths}

abbrev pub tool : Text
tool = codes "get_device_health"

-- The view that is built up, and the errors of its parts.
pub record Health : Type 0 where
  pub result : Fields
  pub errors : Fields

abbrev state_fields : List String
state_fields = "state" ∷ "status" ∷ "operational_state" ∷ []

module _ (b : Toolbox) where
  -- A part of the view: an error of the controller goes to the errors.
  unfoldable pub add_part : String → Value → Health → Health
  unfolding set fail_from_upstream
  add_part key data_ h = elim (fail_from_upstream b.repr tool data_) [
    | some error ↦ record { result = h.result; errors = set key data_ h.errors }
    | none ↦ record { result = set key data_ h.result; errors = h.errors }
  ]

  unfoldable pub add_software : Bool → SiteElement → Health → Step Health
  unfolding add_part
  add_software false ids h = return h
  add_software true ids h = do
    sw_state ← execute b "software_upgrades.software_state" (element_paths ids) none
    sw_status ← execute b "software_upgrades.software_status" (element_paths ids) none
    return (add_part "software_status" sw_status (add_part "software_state" sw_state h))

  -- `{"interface_id": interface_id, **status}`, if the status is an object.
  tagged_status : Value → Value → Value
  unfolding merge_fields
  tagged_status interface_id (dict fs) =
      dict (merge_fields (field "interface_id" interface_id end) fs)
  tagged_status interface_id v = v

  -- The status of one interface; one without an id is passed over.
  unfoldable pub interface_status : SiteElement → Fields → Step (List Value)
  unfolding first_truthy truthy tagged_status
  interface_status ids interface =
      let interface_id = first_truthy ("id" ∷ "interface_id" ∷ []) interface in
      if truthy interface_id
      then (do
        status ←
            execute b "sites_devices.interfaces_status"
              (field "site_id" ids.site_id
                (field "element_id" ids.element_id (field "interface_id" interface_id end)))
              none
        return (tagged_status interface_id status ∷ []))
      else return []

  unfoldable pub with_interfaces : ℕ → List Fields → List Value → Health → Health
  unfolding set summarize_states counts_value
  with_interfaces limit configs statuses h = record {
    result =
        set "interface_summary"
          (dict (
            field "enumerated" (count (length configs)) (
              field "checked" (count (length statuses)) (
                field "capped" (bool (ltb limit (length configs))) (
                  field "states"
                    (dict (
                      counts_value
                        (summarize_states b.repr state_fields (dicts (of_items statuses)))))
                    end)))))
          (set "interfaces" (list (of_items statuses)) h.result);
    errors = h.errors;
  }

  unfoldable pub read_interfaces : ℕ → SiteElement → Health → Step Health
  unfolding with_interfaces
  read_interfaces limit ids h = do
    data_ ← execute b "sites_devices.interfaces" (id_paths ids) none
    statuses ← gather (interface_status ids) (take limit (records data_))
    return (with_interfaces limit (records data_) statuses h)

  unfoldable pub invalid_limit_reply : ℕ → Fields
  unfolding structured_error codes decimal
  invalid_limit_reply most =
      structured_error (codes "invalid_limit")
        (codes "interface_limit must be between 1 and " ++ decimal most) tool (count 400) end

  -- The interfaces, or an early reply for a limit that is not allowed.
  unfoldable pub add_interfaces : Bool → ℤ → SiteElement → Health → Step (Fields ⊎ Health)
  unfolding read_interfaces invalid_limit_reply set truthy codes
  add_interfaces false limit ids h = return (inr h)
  add_interfaces true limit ids h =
      if not (truthy ids.site_id)
      then return (
          inr (record {
            result = h.result;
            errors =
                set "interfaces"
                  (dict
                    (field "error" (str (codes "site_id unavailable for resolved element")) end))
                  h.errors;
          }))
      else (do
        most ← max_fanout b
        if below limit 1 || ltb most (to_nat limit)
            then return (inl (invalid_limit_reply most))
            else (do h' ← read_interfaces (to_nat limit) ids h; return (inr h')))

  unfoldable pub reply_health : Text → SiteElement → Fields ⊎ Health → Step Fields
  unfolding set truthy quoted codes
  reply_health element ids (inl reply) = return reply
  reply_health element ids (inr h) =
      single b tool (codes "Health view for element " ++ quoted element) "health"
        (dict (
          if truthy (dict h.errors)
          then set "partial_errors" (dict h.errors) h.result
          else h.result))
        (id_paths ids)

  unfoldable pub element_value : Option Fields → Value
  element_value none = null
  element_value (some r) = dict r

  unfoldable pub get_device_health : Text → Option Text → Bool → Bool → ℤ → Log → Fields × Log
  unfolding add_software reply_health element_value truthy
  get_device_health element site include_software include_interfaces interface_limit =
      try_tool b tool (do
        ids ← ids_of b site (some element)
        if not (truthy ids.element_id)
            then return (refusal "not_found" "element could not be resolved" tool 404)
            else (do
              health ← execute b "sites_devices.element_status" (element_paths ids) none
              unless_failed b tool health (do
                h ← add_software include_software ids (record {
                  result =
                      field "identity" (element_value ids.element_record)
                        (field "element_status" health end);
                  errors = end;
                })
                outcome ← add_interfaces include_interfaces interface_limit ids h
                reply_health element ids outcome)))
