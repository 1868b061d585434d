-- ===== src/Tools/Core/Interfaces.antt =====
-- tools/core.py: `get_interfaces`.
use prisma_sdwan_mcp.Prelude.{
  ltb, if◌then◌else◌, length, take, ℕ, String, ◌⊎◌, inl, inr, false, not, ◌&&◌, Option, none, some,
  List, [], ◌∷◌, ◌++◌, map,
}
use prisma_sdwan_mcp.Prelude.Text.{Text, codes}
use prisma_sdwan_mcp.Value.{
  Value, bool, str, list, dict, Fields, end, field, of_items, get_or_null, truthy,
}
use prisma_sdwan_mcp.Resolver.Records.{records, project, decimal}
use prisma_sdwan_mcp.Resolver.{given, SiteElement}
use prisma_sdwan_mcp.Common.{match_named}
use prisma_sdwan_mcp.Response.{structured_error}
use prisma_sdwan_mcp.Response.Envelope.{count}
use prisma_sdwan_mcp.Tools.{
  Log, Toolbox, Step, return, ◌>>=◌, execute, ids_of, try_tool, max_fanout, gather, first_truthy,
}
use prisma_sdwan_mcp.Tools.Replies.{Paging, invalid_argument, quoted, listing}
use prisma_sdwan_mcp.Tools.Domains.{id_paths}

abbrev pub tool : Text
tool = codes "get_interfaces"

-- `InterfaceMode`
pub data Mode : Type 0 where
  config status both : Mode

unfoldable pub mode_name : Mode → String
mode_name config = "config"
mode_name status = "status"
mode_name both = "both"

unfoldable pub ambiguous_interfaces : Text → List Fields → Fields
unfolding structured_error codes decimal project quoted
ambiguous_interfaces interface matches =
    structured_error (codes "ambiguous_match")
      (decimal (length matches) ++ (codes " interfaces match " ++ quoted interface)) tool
      (count 409)
      (field "candidates"
        (list (of_items (map (λ x. dict (project ("id" ∷ "name" ∷ "type" ∷ []) x)) matches))) end)

unfoldable pub no_interface : Text → Fields
unfolding structured_error codes quoted
no_interface interface =
    structured_error (codes "not_found") (codes "no interface matches " ++ quoted interface) tool
      (count 404) end

-- The matches of a name, if there is exactly one.
unfoldable pub only_match : Text → List Fields → Fields ⊎ List Fields
unfolding no_interface ambiguous_interfaces
only_match interface [] = inl (no_interface interface)
only_match interface (m ∷ []) = inr (m ∷ [])
only_match interface (m ∷ m' ∷ ms) = inl (ambiguous_interfaces interface (m ∷ m' ∷ ms))

-- The interfaces that are asked for, or an early reply.
unfoldable pub chosen : (Value → Text) → List Fields → Option Text → Fields ⊎ List Fields
unfolding only_match
chosen repr configs interface = elim (given interface) [
  | none ↦ inr configs
  | some name ↦ only_match name (match_named repr ("name" ∷ []) name configs)
]

module _ (b : Toolbox) where
  -- The row of one interface with its status.
  row : Mode → Value → Fields → Value → Fields
  unfolding get_or_null
  row status interface_id interface state =
      field "interface_id" interface_id
        (field "name" (get_or_null "name" interface) (field "status" state end))
  row mode interface_id interface state = field "interface_id" interface_id (
      field "name" (get_or_null "name" interface)
        (field "config" (dict interface) (field "status" state end)))

  unfoldable pub combine : SiteElement → Mode → Fields → Step (List Fields)
  unfolding row codes
  combine ids mode interface =
      let interface_id = first_truthy ("id" ∷ "interface_id" ∷ []) interface in
      if truthy interface_id
      then (do
        state ←
            execute b "sites_devices.interfaces_status"
              (field "site_id" ids.site_id
                (field "element_id" ids.element_id (field "interface_id" interface_id end)))
              none
        return (row mode interface_id interface state ∷ []))
      else return (
          field "config" (dict interface)
            (field "error" (str (codes "interface record has no id")) end)
          ∷ [])

  unfoldable pub reply_combined :
      SiteElement → Mode → Text → Paging → List Fields → ℕ → List Fields → Step Fields
  unfolding codes quoted
  reply_combined ids mode element paging configs most combined =
      listing b tool
        (codes "Interface " ++ (codes (mode_name mode) ++ (codes " for " ++ quoted element)))
        "interfaces" paging
        (field "site_id" ids.site_id (
          field "element_id" ids.element_id (
            field "enumerated" (count (length configs)) (
              field "checked" (count (length (take most configs)))
                (field "fanout_capped" (bool (ltb most (length configs))) end)))))
        none false (map dict combined)

  -- The reply for the interfaces that were chosen.
  unfoldable pub reply_chosen :
      SiteElement → Mode → Text → Paging → Fields ⊎ List Fields → Step Fields
  unfolding reply_combined codes quoted
  reply_chosen ids mode element paging (inl reply) = return reply
  reply_chosen ids config element paging (inr configs) =
      listing b tool (codes "Interface configuration for " ++ quoted element) "interfaces" paging
        (id_paths ids) none false (map dict configs)
  reply_chosen ids mode element paging (inr configs) = do
    most ← max_fanout b
    combined ← gather (combine ids mode) (take most configs)
    reply_combined ids mode element paging configs most combined

  unfoldable pub get_interfaces :
      Text → Option Text → Mode → Option Text → Paging → Log → Fields × Log
  get_interfaces element site mode interface paging = try_tool b tool (do
    ids ← ids_of b site (some element)
    if not (truthy ids.site_id && truthy ids.element_id)
        then return
            (invalid_argument "both site_id and element_id are required after resolution" tool)
        else (do
          data_ ← execute b "sites_devices.interfaces" (id_paths ids) none
          reply_chosen ids mode element paging (chosen b.repr (records data_) interface)))
