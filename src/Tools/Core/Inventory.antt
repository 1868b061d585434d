-- ===== src/Tools/Core/Inventory.antt =====
-- tools/core.py: `_filter_search` and `get_inventory`.
use prisma_sdwan_mcp.Prelude.{
  if◌then◌else◌, length, any, keep, is_empty, String, Bool, false, not, Option, none, some, List,
  [], ◌∷◌, ◌++◌, map,
}
use prisma_sdwan_mcp.Prelude.Text.{Text, codes, contains, strip, lower}
use prisma_sdwan_mcp.Value.{Value, str, dict, Fields, end, field}
use prisma_sdwan_mcp.Resolver.Records.{records, project, decimal}
use prisma_sdwan_mcp.Resolver.{given}
use prisma_sdwan_mcp.Common.{Counts, count_one, sort_counts}
use prisma_sdwan_mcp.Response.Envelope.{count}
use prisma_sdwan_mcp.Tools.{
  Log, Toolbox, Step, ◌>>=◌, execute, try_tool, as_value, counts_value, text_at,
}
use prisma_sdwan_mcp.Tools.Replies.{Paging, listing, single, unless_failed}

-- `InventoryKind`
pub data Inventory : Type 0 where
  sites elements machines applications : Inventory

unfoldable pub inventory_name : Inventory → String
inventory_name sites = "sites"
inventory_name elements = "elements"
inventory_name machines = "machines"
inventory_name applications = "applications"

unfoldable pub inventory_action : Inventory → String
inventory_action sites = "sites_devices.sites"
inventory_action elements = "sites_devices.elements"
inventory_action machines = "platform_specialized.machines"
inventory_action applications = "security_policies.appdefs"

unfoldable pub inventory_fields : Inventory → List String
inventory_fields sites =
    "id" ∷ "name" ∷ "description" ∷ "admin_state" ∷ "element_cluster_role" ∷ "address" ∷ "location"
    ∷ "network_policysetstack_id" ∷ "priority_policysetstack_id" ∷ "nat_policysetstack_id"
    ∷ "perfmgmt_policysetstack_id" ∷ "app_acceleration_enabled" ∷ "branch_gateway" ∷ []
inventory_fields elements =
    "id" ∷ "name" ∷ "description" ∷ "site_id" ∷ "serial_number" ∷ "hw_id" ∷ "model_name"
    ∷ "software_version" ∷ "role" ∷ "state" ∷ "connected" ∷ []
inventory_fields machines =
    "id" ∷ "name" ∷ "hw_id" ∷ "sl_no" ∷ "serial_number" ∷ "model_name" ∷ "image_version"
    ∷ "machine_state" ∷ "ship_state" ∷ "suspend_state" ∷ "connected" ∷ "em_element_id" ∷ []
inventory_fields applications = "id" ∷ "display_name" ∷ "name" ∷ "category" ∷ "description" ∷ []

abbrev search_fields : List String
search_fields = "name" ∷ "display_name" ∷ "description" ∷ "id" ∷ "serial_number" ∷ "hw_id" ∷ []

module _ (repr : Value → Text) where
  -- Whether a field's text holds the text that is looked for, in lower case.
  unfoldable pub mentions : Text → Fields → Bool
  mentions needle item = any (λ f. contains (lower (text_at repr f [] item)) needle) search_fields

  -- `_filter_search`
  unfoldable pub filter_search : List Fields → Option Text → List Fields
  filter_search items_ search = elim (given search) [
    | none ↦ items_
    | some s ↦
        let needle = lower (strip s) in
        if is_empty needle then items_ else keep (mentions needle) items_
  ]

  -- `Counter(str(item.get("category", "uncategorized")) for item in items)`, sorted.
  unfoldable pub count_texts : String → Text → List Fields → Counts → Counts
  count_texts key default [] counts = counts
  count_texts key default (item ∷ rest) counts =
      count_texts key default rest (count_one (text_at repr key default item) counts)

module _ (b : Toolbox) where
  unfoldable pub application_summary : List Fields → Step Fields
  unfolding codes
  application_summary items_ =
      single b (codes "get_inventory")
        (codes "Application catalog summarized; use search for individual applications")
        "application_summary"
        (dict (
          field "total_applications" (count (length items_)) (
            field "categories"
              (dict (
                counts_value
                  (sort_counts (count_texts b.repr "category" (codes "uncategorized") items_ []))))
              end)))
        end

  unfoldable pub inventory_page :
      Inventory → Option Text → Bool → Paging → List Fields → Step Fields
  unfolding codes decimal
  inventory_page kind search full paging items_ =
      let result = if full then items_ else map (project (inventory_fields kind)) items_ in
      listing b (codes "get_inventory")
        (codes "Retrieved " ++ (decimal (length result) ++ (32 ∷ codes (inventory_name kind))))
        (inventory_name kind) paging
        (field "detail" (str (codes (if full then "full" else "summary")))
          (field "search" (as_value search) end))
        none false (map dict result)

  unfoldable pub is_summary : Inventory → Option Text → Bool → Bool
  unfolding given
  is_summary applications search full = elim (given search) [ none ↦ not full | some s ↦ false ]
  is_summary kind search full = false

  -- `full` says that `detail` is "full".
  unfoldable pub get_inventory : Inventory → Option Text → Bool → Paging → Log → Fields × Log
  unfolding application_summary inventory_page is_summary codes
  get_inventory kind search full paging = try_tool b (codes "get_inventory") (do
    data_ ← execute b (inventory_action kind) end none
    unless_failed b (codes "get_inventory") data_ (
        if is_summary kind search full
        then application_summary (filter_search b.repr (records data_) search)
        else inventory_page kind search full paging (filter_search b.repr (records data_) search)))
