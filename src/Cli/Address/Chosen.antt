-- ===== src/Cli/Address/Chosen.antt =====
-- cli/address.py: how an address is chosen.
use prisma_sdwan_mcp.Prelude.{
  Bool-cases, keep, String, ◌≡◌, refl, ◌⊎◌, inl, inr, true, Option, some, List, [], ◌∷◌, ◌++◌,
}
use prisma_sdwan_mcp.Prelude.Text.{Text}
use prisma_sdwan_mcp.Errors.{Failure}
use prisma_sdwan_mcp.Cli.Address.{
  Candidate, usable, role_candidates, Address, address_at, management_roles, choose, in_roles,
  address_of, resolve_device_address,
}
use prisma_sdwan_mcp.Value.{Value, Fields, end, field, truthy}
use prisma_sdwan_mcp.Resolver.Records.{records}
use prisma_sdwan_mcp.Resolver.{found, Services, SiteElement, site_element}
use prisma_sdwan_mcp.Prelude.Result.{Result, ok, chain_parts}

-- The usable candidates of a role are exactly the ones listed.
abbrev pub Usable : Services → SiteElement → List Fields → String → List Candidate → Type 0
Usable s e interfaces role cs =
    (found : List Candidate) × (role_candidates s e.site_id e.element_id role interfaces ≡ ok found)
    × (keep usable found ≡ cs)

-- The address is that of the only usable candidate of a role, and the roles in front have none.
pub IsChosen : Services → SiteElement → List Fields → List String → Address → Type 0
IsChosen s e interfaces [] a = ⊥
IsChosen s e interfaces (role ∷ roles) a =
    ((c : Candidate) × Usable s e interfaces role (c ∷ []) × (a ≡ address_at e c))
    ⊎ (Usable s e interfaces role [] × IsChosen s e interfaces roles a)

module _ (s : Services) (element : Text) (e : SiteElement) (interfaces : List Fields) where
  choose-cases :
      (role : String) (cs : List Candidate) (next : Result Failure Address) (a : Address)
      → choose s element e interfaces role cs next ≡ ok a
      → ((c : Candidate) × (cs ≡ c ∷ []) × (a ≡ address_at e c)) ⊎ ((cs ≡ []) × (next ≡ ok a))
  unfolding choose
  choose-cases role [] next a h = inr (refl, h)
  choose-cases role (c ∷ []) next a h = inl (c, refl, cc)
  choose-cases role (c ∷ c' ∷ cs) next a h = cc

  in_roles-IsChosen :
      (roles : List String) (seen : List Candidate) (a : Address)
      → in_roles s element e interfaces roles seen ≡ ok a
      → IsChosen s e interfaces roles a
  unfolding in_roles IsChosen
  in_roles-IsChosen [] seen a h = cc
  in_roles-IsChosen (role ∷ roles) seen a h =
      let (found, f, g) =
        chain_parts (role_candidates s e.site_id e.element_id role interfaces)
          (λ found.
            choose s element e interfaces role (keep usable found)
              (in_roles s element e interfaces roles (seen ++ found)))
          h in
      elim (choose-cases role (keep usable found)
        (in_roles s element e interfaces roles (seen ++ found)) a g) [
          | inl (c, k, l) ↦ inl (c, (found, f, k), l)
          | inr (k, l) ↦ inr ((found, f, k), in_roles-IsChosen roles (seen ++ found) a l)
        ]

-- How an address was found.
pub record IsResolved (s : Services) (element : Text) (site : Option Text) (a : Address)
    : Type 0 where
  pub target : SiteElement
  pub resolved : site_element s site (some element) ≡ ok target
  pub known : truthy target.element_id ≡ true
  pub answer : Value
  pub asked :
      s.execute "sites_devices.interfaces"
        (field "site_id" target.site_id (field "element_id" target.element_id end))
      ≡ ok answer
  pub chosen : IsChosen s target (records answer) management_roles a

address_of-IsResolved :
    (s : Services) (element : Text) (site : Option Text) (e : SiteElement) (a : Address)
    → site_element s site (some element) ≡ ok e
    → address_of s element e ≡ ok a
    → IsResolved s element site a
unfolding address_of
address_of-IsResolved s element site e a k h = elim (Bool-cases (truthy e.element_id)) [
  | inr f ↦ cc (rw f at h)
  | inl f ↦
      let (v, g, l) =
        chain_parts
          (s.execute "sites_devices.interfaces"
            (field "site_id" e.site_id (field "element_id" e.element_id end)))
          (λ v. in_roles s element e (records v) management_roles []) (rw f at h) in
      record {
        target = e;
        resolved = k;
        known = f;
        answer = v;
        asked = g;
        chosen = in_roles-IsChosen s element e (records v) management_roles [] a l;
      }
]

-- An address that is returned belongs to the only usable candidate, up and outside the shared
-- space, among the interfaces of the element that are used for the controller, or, if there is none
-- of these, for the LAN.
pub resolve_device_address-IsResolved :
    (s : Services) (element : Text) (site : Option Text) (a : Address)
    → resolve_device_address s element site ≡ ok a
    → IsResolved s element site a
unfolding resolve_device_address
resolve_device_address-IsResolved s element site a h =
    let (e, k, l) =
      chain_parts (site_element s site (some element)) (λ e. address_of s element e) h in
    address_of-IsResolved s element site e a k l
