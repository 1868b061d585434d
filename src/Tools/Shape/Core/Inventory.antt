-- ===== src/Tools/Shape/Core/Inventory.antt =====
-- tools/core.py: the reply of `get_inventory`.
use prisma_sdwan_mcp.Prelude.{if_kept, refl, Bool, false, Option, none, List}
use prisma_sdwan_mcp.Prelude.Text.{Text, codes}
use prisma_sdwan_mcp.Value.{Value, Fields, end, field, get, has}
use prisma_sdwan_mcp.Resolver.Records.{records}
use prisma_sdwan_mcp.Response.Shape.{IsReply, IsApart}
use prisma_sdwan_mcp.Tools.{Log, Toolbox, Step, execute}
use prisma_sdwan_mcp.Tools.Replies.{Paging}
use prisma_sdwan_mcp.Tools.Shape.{
  apart, Yields, bind-Yields, try_tool-IsReply, listing-Yields, single-Yields, unless_failed-Yields,
}
use prisma_sdwan_mcp.Tools.Core.Inventory.{
  Inventory, sites, elements, machines, applications, inventory_name, inventory_action,
  filter_search, application_summary, inventory_page, is_summary, get_inventory,
}

-- The records stand under the name of their kind.
inventory-IsApart :
    (kind : Inventory) (detail search_text : Value)
    → IsApart (inventory_name kind) (field "detail" detail (field "search" search_text end))
unfolding inventory_name has get
inventory-IsApart sites detail search_text = apart refl refl refl refl
inventory-IsApart elements detail search_text = apart refl refl refl refl
inventory-IsApart machines detail search_text = apart refl refl refl refl
inventory-IsApart applications detail search_text = apart refl refl refl refl

module _ (b : Toolbox) where
  application_summary-Yields :
      (items_ : List Fields)
      → Yields (IsReply (codes "get_inventory")) (application_summary b items_)
  unfolding application_summary has get
  application_summary-Yields items_ =
      single-Yields b (codes "get_inventory") _ "application_summary" _ end
        (apart refl refl refl refl)

  inventory_page-Yields :
      (kind : Inventory) (wanted : Option Text) (full : Bool) (paging : Paging)
      (items_ : List Fields)
      → Yields (IsReply (codes "get_inventory")) (inventory_page b kind wanted full paging items_)
  unfolding inventory_page
  inventory_page-Yields kind wanted full paging items_ =
      listing-Yields b (codes "get_inventory") _ (inventory_name kind) paging _ none false _
        (inventory-IsApart kind _ _)

  pub get_inventory-IsReply :
      (kind : Inventory) (wanted : Option Text) (full : Bool) (paging : Paging) (log : Log)
      → IsReply (codes "get_inventory") (get_inventory b kind wanted full paging log).0
  unfolding get_inventory
  get_inventory-IsReply kind wanted full paging log =
      let Replies : Step Fields → Type 0 = Yields (IsReply (codes "get_inventory")) in
      try_tool-IsReply b (codes "get_inventory") _
        (bind-Yields (IsReply (codes "get_inventory")) (execute b (inventory_action kind) end none)
          _
          (λ data_. unless_failed-Yields b (codes "get_inventory") data_ _ (
            if_kept Replies (is_summary b kind wanted full) _ _
              (application_summary-Yields (filter_search b.repr (records data_) wanted))
              (inventory_page-Yields kind wanted full paging
                (filter_search b.repr (records data_) wanted)))))
        log
