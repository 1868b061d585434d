-- ===== src/Tools/Core/Topology/Links.antt =====
-- tools/core.py: the links of a site in `get_topology`, and their VPN legs.
use prisma_sdwan_mcp.Prelude.{
  if◌then◌else◌, any, keep, String, Bool, Option, none, some, List, [], ◌∷◌, ◌++◌, map,
}
use prisma_sdwan_mcp.Prelude.Text.{Text, codes, text_eq, strip, lower}
use prisma_sdwan_mcp.Prelude.Result.{Result, err, ok}
use prisma_sdwan_mcp.Errors.{Failure, unexpected}
use prisma_sdwan_mcp.Value.{
  Value, null, str, dict, Fields, items, of_items, is_null, get_or_null, truthy, dicts,
}
use prisma_sdwan_mcp.Resolver.Records.{list_at, to_text}
use prisma_sdwan_mcp.Resolver.{given}
use prisma_sdwan_mcp.Tools.{first_truthy, text_at, iterate_or_empty}

-- `topology.get(key, [])` if that is a list, and no elements otherwise.
unfoldable pub elements_at : String → Value → List Value
elements_at key (dict fs) = elim (list_at key fs) [ some vs ↦ items vs | none ↦ [] ]
elements_at key v = []

module _ (repr : Value → Text) where
  -- `{str(item.get(k)) for k in keys if item.get(k) is not None}`
  unfoldable pub texts_at : List String → Fields → List Text
  texts_at [] item = []
  texts_at (k ∷ ks) item =
      let rest = texts_at ks item in
      if is_null (get_or_null k item) then rest else to_text repr (get_or_null k item) ∷ rest

  unfoldable pub is_member : Text → List Text → Bool
  is_member t ts = any (λ u. text_eq u t) ts

  -- The names of a site: its id and the ids of each node that has this id.
  unfoldable pub aliases_from : Text → List Fields → List Text → List Text
  aliases_from site_id [] aliases = aliases
  aliases_from site_id (node ∷ nodes) aliases =
      let values = texts_at ("id" ∷ "site_id" ∷ "node_id" ∷ []) node in
      aliases_from site_id nodes (if is_member site_id values then aliases ++ values else aliases)

  abbrev pub endpoint_fields : List String
  endpoint_fields =
      "source_site_id" ∷ "target_site_id" ∷ "source_node_id" ∷ "target_node_id" ∷ "source"
      ∷ "target" ∷ []

  unfoldable pub link_matches : List Text → Fields → Bool
  link_matches aliases link = any (λ t. is_member t aliases) (texts_at endpoint_fields link)

  -- The links of a site.
  unfoldable pub site_links : Value → List Value → List Value → List Value
  site_links site_id nodes links =
      let site = to_text repr site_id in
      let aliases = aliases_from site (dicts (of_items nodes)) (site ∷ []) in
      map dict (keep (link_matches aliases) (dicts (of_items links)))

  -- The links with a status; what has no `get` raises AttributeError.
  unfoldable pub status_links : Text → List Value → Result Failure (List Value)
  unfolding codes
  status_links wanted [] = ok []
  status_links wanted (dict fs ∷ links) = elim (status_links wanted links) [
    | err e ↦ err e
    | ok rest ↦
        ok (if text_eq (lower (text_at repr "status" [] fs)) wanted then dict fs ∷ rest else rest)
  ]
  status_links wanted (link ∷ links) = err (unexpected (codes "AttributeError"))

  unfoldable pub with_status : Option Text → List Value → Result Failure (List Value)
  with_status status links = elim (given status) [
    | none ↦ ok links
    | some s ↦ status_links (lower (strip s)) links
  ]

-- A VPN leg: the ids of the link that it belongs to, and its own.
pub record Leg : Type 0 where
  pub parent : Value
  pub anynet_link_id : Value
  pub leg_id : Text

leg_value : Value → Value
leg_value (str s) = str s
leg_value (dict fs) = first_truthy ("vpnlink_id" ∷ "id" ∷ []) fs
leg_value v = null

module _ (repr : Value → Text) where
  legs_among : Value → Value → List Value → List Leg
  unfolding leg_value to_text
  legs_among parent anynet_link_id [] = []
  legs_among parent anynet_link_id (leg ∷ legs) =
      let rest = legs_among parent anynet_link_id legs in
      if is_null (leg_value leg)
      then rest
      else record {
        parent = parent;
        anynet_link_id = anynet_link_id;
        leg_id = to_text repr (leg_value leg);
      }
        ∷ rest

  link_legs : Fields → Result Failure (List Leg)
  unfolding legs_among
  link_legs link =
      let parent = first_truthy ("path_id" ∷ "id" ∷ []) link in
      let own = get_or_null "anynet_link_id" link in
      elim (iterate_or_empty (get_or_null "vpnlinks" link)) [
        | err e ↦ err e
        | ok legs ↦ ok (legs_among parent (if truthy own then own else parent) legs)
      ]

  -- The legs of all links, in their order.
  unfoldable pub all_legs : List Fields → Result Failure (List Leg)
  unfolding link_legs
  all_legs [] = ok []
  all_legs (link ∷ links) = elim (link_legs link) [
    | err e ↦ err e
    | ok legs ↦ elim (all_legs links) [ err e ↦ err e | ok more ↦ ok (legs ++ more) ]
  ]
