-- ===== src/Tools/Shape/Core/Every.antt =====
-- tools/core.py: the replies of all its tools.
use prisma_sdwan_mcp.Prelude.{Bool, Option}
use prisma_sdwan_mcp.Prelude.Int.{ℤ}
use prisma_sdwan_mcp.Prelude.Text.{Text, codes}
use prisma_sdwan_mcp.Response.Shape.{IsReply}
use prisma_sdwan_mcp.Tools.{Log, Toolbox}
use prisma_sdwan_mcp.Tools.Replies.{Paging}
use prisma_sdwan_mcp.Tools.Core.Inventory.{Inventory, get_inventory}
use prisma_sdwan_mcp.Tools.Core.Health.{get_device_health}
use prisma_sdwan_mcp.Tools.Core.Interfaces.{Mode, get_interfaces}
use prisma_sdwan_mcp.Tools.Core.Topology.{Query, get_topology}
use prisma_sdwan_mcp.Tools.Core.Wan.{Wan, get_wan}
use prisma_sdwan_mcp.Tools.Shape.Core.Inventory.{get_inventory-IsReply}
use prisma_sdwan_mcp.Tools.Shape.Core.Health.{get_device_health-IsReply}
use prisma_sdwan_mcp.Tools.Shape.Core.Interfaces.{get_interfaces-IsReply}
use prisma_sdwan_mcp.Tools.Shape.Core.Topology.{get_topology-IsReply}
use prisma_sdwan_mcp.Tools.Shape.Core.Wan.{get_wan-IsReply}

-- Each tool replies in its own name.
abbrev pub CoreReplies : Toolbox → Type 0
CoreReplies b =
    ((kind : Inventory) (wanted : Option Text) (full : Bool) (paging : Paging) (log : Log)
      → IsReply (codes "get_inventory") (get_inventory b kind wanted full paging log).0)
    × ((element : Text) (site : Option Text) (software each_interface : Bool) (limit : ℤ)
          (log : Log)
        → IsReply (codes "get_device_health")
            (get_device_health b element site software each_interface limit log).0)
    × ((element : Text) (site : Option Text) (mode : Mode) (interface : Option Text)
          (paging : Paging) (log : Log)
        → IsReply (codes "get_interfaces")
            (get_interfaces b element site mode interface paging log).0)
    × ((q : Query) (paging : Paging) (log : Log)
        → IsReply (codes "get_topology") (get_topology b q paging log).0)
    × ((operation : Wan) (site element object_id : Option Text) (paging : Paging) (log : Log)
        → IsReply (codes "get_wan") (get_wan b operation site element object_id paging log).0)

pub core_tools-IsReply : (b : Toolbox) → CoreReplies b
core_tools-IsReply b = (
  get_inventory-IsReply b,
  get_device_health-IsReply b,
  get_interfaces-IsReply b,
  get_topology-IsReply b,
  get_wan-IsReply b,
)
