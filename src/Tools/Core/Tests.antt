-- ===== src/Tools/Core/Tests.antt =====
-- The links of a site at a topology of one node and one link.
use prisma_sdwan_mcp.Prelude.{In, ◌↔◌, [], ◌∷◌}
use prisma_sdwan_mcp.Prelude.Text.{Text, codes}
use prisma_sdwan_mcp.Value.{Value, str, dict, Fields, end, field, dicts}
use prisma_sdwan_mcp.Resolver.Records.{to_text}
use prisma_sdwan_mcp.Tools.Core.Topology.Links.{site_links}
use prisma_sdwan_mcp.Tools.Core.Topology.Sites.{IsLinkOf, site_links_iff}

abbrev no_repr : Value → Text
no_repr v = []

-- The site "s" is the node "n".
abbrev node_of_s : Fields
node_of_s = field "id" (str (codes "n")) (field "site_id" (str (codes "s")) end)

abbrev link_of_n : Fields
link_of_n = field "source_node_id" (str (codes "n")) end

site_links_iff_example :
    In
      (dict link_of_n)
      (site_links no_repr (str (codes "s")) (dict node_of_s ∷ []) (dict link_of_n ∷ []))
    ↔ (In link_of_n (link_of_n ∷ [])
        × IsLinkOf no_repr (to_text no_repr (str (codes "s"))) (node_of_s ∷ []) link_of_n)
unfolding dicts
site_links_iff_example =
    site_links_iff no_repr (str (codes "s")) (dict node_of_s ∷ []) (dict link_of_n ∷ []) link_of_n
