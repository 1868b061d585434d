-- ===== src/Cli/Address.antt =====
-- cli/address.py: from an element's name to the one address that SSH can reach.
pub mod Chosen
pub mod Shared
pub mod Tests
use prisma_sdwan_mcp.Prelude.{
  leb, ◌==◌, if◌then◌else◌, length, keep, ℕ, ◌+◌, ◌-◌, ◌*◌, ◌/◌, ◌^◌, String, Bool, true, false,
  not, ◌&&◌, Option, none, some, List, [], ◌∷◌, ◌++◌, map,
}
use prisma_sdwan_mcp.Prelude.Text.{Text, codes, text_eq}
use prisma_sdwan_mcp.Prelude.Result.{Result, err, ok, ◌>>=◌}
use prisma_sdwan_mcp.Errors.{no_element, many_addresses, no_address, Failure, resolution}
use prisma_sdwan_mcp.Value.{
  Value, null, bool, str, list, dict, Fields, end, field, nil, cons, items, get_or_null, truthy,
}
use prisma_sdwan_mcp.Resolver.Records.{list_at, records, to_text}
use prisma_sdwan_mcp.Resolver.{found, Services, SiteElement, site_element}
use prisma_sdwan_mcp.Prelude.Int.{pos, negsuc, parse_int}

-- `text.split(mark)`, with the part read so far.
split_from : ℕ → Text → Text → List Text
split_from mark part [] = part ∷ []
split_from mark part (c ∷ s) =
    let rest = split_from mark (if c == mark then [] else part ++ c ∷ []) s in
    if c == mark then part ∷ rest else rest

unfoldable pub split_on : ℕ → Text → List Text
unfolding split_from
split_on mark s = split_from mark [] s

-- `parts[0]` of a split, which is never empty.
unfoldable pub head_part : List Text → Text
head_part [] = []
head_part (p ∷ ps) = p

-- `int(part)`, if it is from 0 to 255.
unfoldable pub octet : Text → Option ℕ
unfolding parse_int
octet part = elim (parse_int part) [
  | none ↦ none
  | some (negsuc n) ↦ none
  | some (pos n) ↦ if leb n 255 then some n else none
]

abbrev pub shared_network : ℕ
shared_network = 100 * 2 ^ 24 + 64 * 2 ^ 16

-- The value of the four octets; its upper 10 bits are what the mask leaves.
unfoldable pub in_network : ℕ → ℕ → ℕ → ℕ → Bool
in_network a b c d =
    (a * 2 ^ 24 + b * 2 ^ 16 + c * 2 ^ 8 + d) / 2 ^ (32 - 10) == shared_network / 2 ^ (32 - 10)

unfoldable pub octets_shared : Option ℕ → Option ℕ → Option ℕ → Option ℕ → Bool
unfolding in_network
octets_shared (some a) (some b) (some c) (some d) = in_network a b c d
octets_shared _ _ _ _ = false

unfoldable pub parts_shared : List Text → Bool
unfolding octet octets_shared
parts_shared (p ∷ q ∷ r ∷ t ∷ []) = octets_shared (octet p) (octet q) (octet r) (octet t)
parts_shared _ = false

-- `_is_shared_address_space`
unfoldable pub is_shared_address_space : Text → Bool
unfolding parts_shared split_on
is_shared_address_space address = parts_shared (split_on b'.' address)

abbrev path_fields : Value → Value → Fields → Fields
path_fields site_id element_id more = field "site_id" site_id (field "element_id" element_id more)

-- `[str(a).split("/")[0] for a in addresses if a]`
address_texts : (Value → Text) → List Value → List Text
unfolding to_text split_on head_part truthy
address_texts repr [] = []
address_texts repr (v ∷ vs) =
    let rest = address_texts repr vs in
    if truthy v then head_part (split_on b'/' (to_text repr v)) ∷ rest else rest

-- The addresses and the state, out of a status record.
status_of : (Value → Text) → Fields → List Text × Value
unfolding address_texts list_at get_or_null
status_of repr fs = (
  elim (list_at "ipv4_addresses" fs) [ none ↦ [] | some vs ↦ address_texts repr (items vs) ],
  get_or_null "operational_state" fs,
)

first_status : (Value → Text) → Value → List Text × Value
unfolding status_of
first_status repr (dict fs) = status_of repr fs
first_status repr (list (cons (dict fs) vs)) = status_of repr fs
first_status repr (list nil) = status_of repr end
first_status repr _ = ([], null)

-- `_live_addresses`
unfoldable pub live_addresses :
    Services → Value → Value → Value → Result Failure (List Text × Value)
unfolding first_status
live_addresses s site_id element_id interface_id = do
  status ←
      s.execute "sites_devices.interfaces_status"
        (path_fields site_id element_id (field "interface_id" interface_id end))
  ok (first_status s.repr status)

pub record Candidate : Type 0 where
  pub interface_id : Value
  pub interface_name : Value
  pub used_for : String
  pub address : Text
  pub operational_state : Value
  pub shared_address_space : Bool

candidate_fields : Candidate → Fields
unfolding codes
candidate_fields c = field "interface_id" c.interface_id (
    field "interface_name" c.interface_name (
      field "used_for" (str (codes c.used_for)) (
        field "address" (str c.address) (
          field "operational_state" c.operational_state
            (field "shared_address_space" (bool c.shared_address_space) end)))))

-- `value == text`
unfoldable pub is_text : Value → Text → Bool
unfolding text_eq
is_text (str s) t = text_eq s t
is_text _ t = false

-- `operational_state == "up" and not candidate["shared_address_space"]`
unfoldable pub usable : Candidate → Bool
unfolding is_text codes
usable c = is_text c.operational_state (codes "up") && not c.shared_address_space

candidate_of : Fields → String → Value → Text → Candidate
unfolding get_or_null is_shared_address_space
candidate_of interface role state address = record {
  interface_id = get_or_null "id" interface;
  interface_name = get_or_null "name" interface;
  used_for = role;
  address = address;
  operational_state = state;
  shared_address_space = is_shared_address_space address;
}

-- The candidates of one role, in the order of the interfaces and of their addresses.
unfoldable pub role_candidates :
    Services → Value → Value → String → List Fields → Result Failure (List Candidate)
unfolding is_text live_addresses candidate_of get_or_null codes
role_candidates s site_id element_id role [] = ok []
role_candidates s site_id element_id role (interface ∷ rest) =
    elim (is_text (get_or_null "used_for" interface) (codes role)) [
      | false ↦ role_candidates s site_id element_id role rest
      | true ↦ live_addresses s site_id element_id (get_or_null "id" interface) >>= λ live.
          role_candidates s site_id element_id role rest >>= λ later.
          ok (map (candidate_of interface role live.1) live.0 ++ later)
    ]

pub record Address : Type 0 where
  pub host : Text
  pub element_id : Value
  pub element_name : Value
  pub site_id : Value
  pub interface_id : Value
  pub interface_name : Value
  pub used_for : String

-- What the code returns for the only candidate of a role.
unfoldable pub address_at : SiteElement → Candidate → Address
unfolding get_or_null
address_at e c = record {
  host = c.address;
  element_id = e.element_id;
  element_name = elim e.element_record [ none ↦ null | some r ↦ get_or_null "name" r ];
  site_id = e.site_id;
  interface_id = c.interface_id;
  interface_name = c.interface_name;
  used_for = c.used_for;
}

abbrev pub management_roles : List String
management_roles = "controller" ∷ "lan" ∷ []

module _ (s : Services) (element : Text) (e : SiteElement) (interfaces : List Fields) where
  unfoldable pub choose : String → List Candidate → Result Failure Address → Result Failure Address
  unfolding candidate_fields address_at
  choose role [] next = next
  choose role (c ∷ []) next = ok (address_at e c)
  choose role (c ∷ c' ∷ cs) next = err (
      resolution (many_addresses (length (c ∷ c' ∷ cs)) role element)
        (map candidate_fields (c ∷ c' ∷ cs)))

  -- The loop over the roles, with the candidates seen so far.
  unfoldable pub in_roles : List String → List Candidate → Result Failure Address
  unfolding choose role_candidates usable candidate_fields
  in_roles [] seen = err (resolution (no_address element) (map candidate_fields seen))
  in_roles (role ∷ roles) seen =
      role_candidates s e.site_id e.element_id role interfaces >>= λ found.
      choose role (keep usable found) (in_roles roles (seen ++ found))

unfoldable pub address_of : Services → Text → SiteElement → Result Failure Address
unfolding in_roles truthy records
address_of s element e =
    if not (truthy e.element_id) then err (resolution (no_element element none) []) else do
      found ← s.execute "sites_devices.interfaces" (path_fields e.site_id e.element_id end)
      in_roles s element e (records found) management_roles []

unfoldable pub resolve_device_address : Services → Text → Option Text → Result Failure Address
unfolding address_of site_element
resolve_device_address s element site = do
  e ← site_element s site (some element)
  address_of s element e
