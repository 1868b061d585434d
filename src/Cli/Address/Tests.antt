-- ===== src/Cli/Address/Tests.antt =====
-- An element with one address that is up and one in the shared space, and the theorems at it.
use prisma_sdwan_mcp.Prelude.{if◌then◌else◌, ◌≡◌, refl, ◌↔◌, true, false, none, [], ◌∷◌, str_eq}
use prisma_sdwan_mcp.Prelude.Result.{ok}
use prisma_sdwan_mcp.Value.{
  str, list, dict, Fields, end, field, Items, nil, cons, get, get_or_null, has, set, truthy, dicts,
}
use prisma_sdwan_mcp.Prelude.Text.{
  codes, in_range, is_space, is_digit, text_eq, starts_with, contains, strip, lower,
}
use prisma_sdwan_mcp.Prelude.Int.{decimal_from, parse_int}
use prisma_sdwan_mcp.Resolver.Records.{list_at, records, project, decimal, to_text}
use prisma_sdwan_mcp.Resolver.{
  Services, has_id, has_name, holds_name, select, find, site_of, given, site_element,
}
use prisma_sdwan_mcp.Cli.Address.{
  split_on, head_part, octet, in_network, octets_shared, parts_shared, is_shared_address_space,
  live_addresses, is_text, usable, role_candidates, Address, address_at, choose, in_roles,
  address_of, resolve_device_address,
}
use prisma_sdwan_mcp.Cli.Address.Shared.{IsSharedText, is_shared_address_space_iff}
use prisma_sdwan_mcp.Cli.Address.Chosen.{IsResolved, resolve_device_address-IsResolved}

addressing : Unit {0}
unfolding resolve_device_address address_of in_roles choose role_candidates usable live_addresses
    is_text address_at is_shared_address_space parts_shared split_on head_part octet octets_shared
    in_network parse_int decimal_from is_digit in_range strip is_space codes site_element find
    select has_id has_name holds_name records get get_or_null has project to_text lower text_eq
    contains starts_with site_of given truthy dicts list_at set decimal
addressing = tt

abbrev element_row : Fields
element_row =
    field "id" (str (codes "e1"))
      (field "name" (str (codes "edge")) (field "site_id" (str (codes "s1")) end))

abbrev interface_rows : Items
interface_rows =
    cons
      (dict (
        field "id" (str (codes "i1"))
          (field "used_for" (str (codes "lan")) (field "name" (str (codes "1")) end))))
      nil

abbrev status_row : Fields
status_row = field "operational_state" (str (codes "up")) (
    field "ipv4_addresses"
      (list (cons (str (codes "100.65.96.1/24")) (cons (str (codes "10.64.167.4/24")) nil))) end)

abbrev pub one_element : Services
one_element = record {
  resource_alias = λ kind. ok (record {
    action_id = kind;
    match_fields = "name" ∷ [];
    projection = "id" ∷ "name" ∷ "site_id" ∷ [];
  });
  execute = λ action paths.
      if str_eq action "element"
      then ok (list (cons (dict element_row) nil))
      else if str_eq action "sites_devices.interfaces"
      then ok (list interface_rows)
      else ok (dict status_row);
  repr = λ v. [];
}

abbrev edge_address : Address
edge_address = record {
  host = codes "10.64.167.4";
  element_id = str (codes "e1");
  element_name = str (codes "edge");
  site_id = str (codes "s1");
  interface_id = str (codes "i1");
  interface_name = str (codes "1");
  used_for = "lan";
}

edge_found : resolve_device_address one_element (codes "edge") none ≡ ok edge_address
unfolding addressing
edge_found = refl

resolve_device_address-IsResolved_example : IsResolved one_element (codes "edge") none edge_address
resolve_device_address-IsResolved_example =
    resolve_device_address-IsResolved one_element (codes "edge") none edge_address edge_found

is_shared_address_space_iff_example :
    (is_shared_address_space (codes "100.65.96.1") ≡ true)
    ↔ IsSharedText (split_on b'.' (codes "100.65.96.1"))
is_shared_address_space_iff_example = is_shared_address_space_iff (codes "100.65.96.1")

tunnel_is_shared : is_shared_address_space (codes "100.65.96.1") ≡ true
unfolding addressing
tunnel_is_shared = refl

device_is_not : is_shared_address_space (codes "10.64.167.4") ≡ false
unfolding addressing
device_is_not = refl
