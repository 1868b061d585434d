-- ===== src/Tools/Discovery/Path.antt =====
-- tools/discovery.py: `_first`, `_transport` and `resolve_path`.
use prisma_sdwan_mcp.Tools.Core.Topology.Links.{elements_at}
use prisma_sdwan_mcp.Prelude.{
  if◌then◌else◌, is_empty, String, Bool, true, false, not, ◌&&◌, Option, none, some, List, [], ◌∷◌,
  ◌++◌,
}
use prisma_sdwan_mcp.Prelude.Text.{Text, codes, text_eq, strip}
use prisma_sdwan_mcp.Prelude.Result.{Result, err, ok}
use prisma_sdwan_mcp.Errors.{Failure}
use prisma_sdwan_mcp.Value.{
  Value, null, bool, str, dict, Fields, end, field, of_items, is_null, get_or_null, dicts,
}
use prisma_sdwan_mcp.Resolver.Records.{records, to_text}
use prisma_sdwan_mcp.Resolver.{found}
use prisma_sdwan_mcp.Common.{fail_from_upstream}
use prisma_sdwan_mcp.Response.Envelope.{count}
use prisma_sdwan_mcp.Tools.{
  Log, Toolbox, Step, return, raising, ◌>>=◌, execute, id_of_named, try_tool, iterate_or_empty,
}
use prisma_sdwan_mcp.Tools.Replies.{invalid_argument, quoted, listing}

abbrev pub tool : Text
tool = codes "resolve_path"

-- `_first`
unfoldable pub first_given : List String → Fields → Value
first_given [] item = null
first_given (k ∷ ks) item =
    let later = first_given ks item in
    if is_null (get_or_null k item) then later else get_or_null k item

module _ (repr : Value → Text) where
  -- `_transport`
  unfoldable pub transport : Fields → Text
  unfolding codes
  transport item =
      let v = first_given ("transport" ∷ "link_type" ∷ "type" ∷ []) item in
      if is_null v then codes "unknown" else to_text repr v

  -- Whether a value that is not None is the id that is looked for.
  unfoldable pub is_id : Text → Value → Bool
  is_id path_id v = not (is_null v) && text_eq (to_text repr v) path_id

  resolved_as : String → Text → Fields → Fields → Fields
  unfolding codes
  resolved_as kind path_id item rest = field "path_id" (str path_id) (
      field "resolved" (bool true)
        (field "kind" (str (codes kind)) (field "transport" (str (transport item)) rest)))

  wan_interface : Text → Value → Fields → Fields
  unfolding resolved_as
  wan_interface path_id site_id item = resolved_as "wan_interface" path_id item (
      field "name" (first_given ("name" ∷ "interface_name" ∷ []) item)
        (field "site_id" site_id (field "element_id" (get_or_null "element_id" item) end)))

  -- The first WAN interface with the id.
  unfoldable pub find_interface : Text → Value → List Fields → Option Fields
  unfolding wan_interface
  find_interface path_id site_id [] = none
  find_interface path_id site_id (item ∷ rest) =
      let later = find_interface path_id site_id rest in
      if is_id path_id (first_given ("id" ∷ "interface_id" ∷ []) item)
      then some (wan_interface path_id site_id item)
      else later

  anynet_link : Text → Fields → Fields
  unfolding resolved_as
  anynet_link path_id link = resolved_as "anynet_link" path_id link (
      field "source"
        (first_given ("source_site_name" ∷ "source_site_id" ∷ "source_node_id" ∷ []) link)
        (field "target"
          (first_given ("target_site_name" ∷ "target_site_id" ∷ "target_node_id" ∷ []) link)
          (field "status" (get_or_null "status" link) end)))

  endpoint : List String → List String → List String → Fields → Value
  endpoint sites elements interfaces leg = dict (
      field "site_id" (first_given sites leg) (
        field "element_id" (first_given elements leg)
          (field "interface_id" (first_given interfaces leg) end)))

  leg_ends : Fields → Fields
  unfolding endpoint
  leg_ends leg =
      field "ep1"
        (endpoint ("ep1_site_id" ∷ "source_site_id" ∷ [])
          ("ep1_element_id" ∷ "source_element_id" ∷ "source_node_id" ∷ [])
          ("ep1_interface_id" ∷ "source_interface_id" ∷ []) leg)
        (field "ep2"
          (endpoint ("ep2_site_id" ∷ "target_site_id" ∷ "destination_site_id" ∷ [])
            ("ep2_element_id" ∷ "target_element_id" ∷ "target_node_id" ∷ [])
            ("ep2_interface_id" ∷ "target_interface_id" ∷ "destination_interface_id" ∷ []) leg)
          end)

  leg_match : Text → Fields → Value → Option Fields
  unfolding resolved_as leg_ends
  leg_match path_id link (str s) =
      if text_eq s path_id
      then some (
          resolved_as "vpnlink_leg" path_id link
            (field "parent_path_id" (first_given ("path_id" ∷ "id" ∷ []) link) end))
      else none
  leg_match path_id link (dict leg) =
      if is_id path_id (first_given ("vpnlink_id" ∷ "id" ∷ []) leg)
      then some (
          resolved_as "vpnlink_leg" path_id link
            (field "parent_path_id" (first_given ("path_id" ∷ "id" ∷ []) link) (leg_ends leg)))
      else none
  leg_match path_id link v = none

  find_leg : Text → Fields → List Value → Option Fields
  unfolding leg_match
  find_leg path_id link [] = none
  find_leg path_id link (leg ∷ legs) = elim (leg_match path_id link leg) [
    | some found ↦ some found
    | none ↦ find_leg path_id link legs
  ]

  link_match : Text → Fields → Result Failure (Option Fields)
  unfolding anynet_link find_leg
  link_match path_id link =
      if is_id path_id (first_given ("path_id" ∷ "id" ∷ []) link)
      then ok (some (anynet_link path_id link))
      else elim (iterate_or_empty (get_or_null "vpnlinks" link)) [
        | err e ↦ err e
        | ok legs ↦ ok (find_leg path_id link legs)
      ]

  -- The first link with the id, or with a leg that has it.
  unfoldable pub find_link : Text → List Fields → Result Failure (Option Fields)
  unfolding link_match
  find_link path_id [] = ok none
  find_link path_id (link ∷ links) = elim (link_match path_id link) [
    | err e ↦ err e
    | ok (some found) ↦ ok (some found)
    | ok none ↦ find_link path_id links
  ]

  -- The interfaces come first; the links are looked at if none of them has the id.
  unfoldable pub find_path :
      Text → Value → List Fields → List Value → Result Failure (Option Fields)
  find_path path_id site_id interfaces links = elim (find_interface path_id site_id interfaces) [
    | some found ↦ ok (some found)
    | none ↦ find_link path_id (dicts (of_items links))
  ]

module _ (b : Toolbox) where
  unfoldable pub unresolved : Text → Fields
  unfolding codes
  unresolved path_id = field "path_id" (str path_id) (
      field "resolved" (bool false) (
        field "reason" (str (codes "no WAN interface, AnyNet link, or VPN leg matched this ID"))
          end))

  unfoldable pub path_reply : Text → Value → Option Fields → Step Fields
  unfolding unresolved codes quoted
  path_reply path_id site_id found =
      listing b tool
        (elim found [
          | some f ↦ codes "Resolved path " ++ quoted path_id
          | none ↦ codes "Path " ++ (quoted path_id ++ codes " is unresolved")
        ])
        "paths" (record { cursor = none; limit = count 1 }) (field "site_id" site_id end) none false
        (dict (elim found [ some f ↦ f | none ↦ unresolved path_id ]) ∷ [])

  -- The records of the WAN interfaces, unless the read failed.
  unfoldable pub interfaces_of : Value → List Fields
  unfolding fail_from_upstream
  interfaces_of wan = elim (fail_from_upstream b.repr tool wan) [ some e ↦ [] | none ↦ records wan ]

  unfoldable pub look_up : Text → Value → Step Fields
  unfolding path_reply interfaces_of codes
  look_up path_id site_id = do
    wan ← execute b "vpn_wan.waninterfaces" (field "site_id" site_id end) none
    topology ← execute b "compat.topology" end (some (field "type" (str (codes "anynet")) end))
    found ←
        raising
          (find_path b.repr path_id site_id (interfaces_of wan) (elements_at "links" topology))
    path_reply path_id site_id found

  unfoldable pub resolve_path : Text → Text → Log → Fields × Log
  unfolding look_up strip to_text
  resolve_path site path_id = try_tool b tool (do
    site_id ← id_of_named b "site" site
    if is_empty (strip path_id)
        then return (invalid_argument "path_id is required" tool)
        else look_up (strip path_id) (str (to_text b.repr site_id)))
