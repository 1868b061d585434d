-- ===== src/Resolver/Sites.antt =====
-- resolver.py: the site of the element that `site_element` returns.
use prisma_sdwan_mcp.Errors.{Failure}
use prisma_sdwan_mcp.Prelude.{
  Bool-cases, keep, is_empty, In, All-at, keep_sound, keep-In, ◌≡◌, refl, sym, ap, subst, inl, inr,
  true, false, not, ◌&&◌, Option, some, List, [], ◌∷◌, arith,
}
use prisma_sdwan_mcp.Prelude.Text.{Text}
use prisma_sdwan_mcp.Prelude.Result.{Result, ok, chain_parts}
use prisma_sdwan_mcp.Value.{Value, Fields, end, is_null, get_or_null}
use prisma_sdwan_mcp.Resolver.{
  Services, find, require_one, at_site, in_scope, narrow, pick_element, site_label, site_of, given,
  element_at, SiteElement, finish, site_record_of, element_record_of, site_element,
}

pick_element-ok :
    (element : Text) (where_ : Option Value) (rs : List Fields) (r : Fields)
    → pick_element element where_ rs ≡ ok r
    → rs ≡ r ∷ []
unfolding pick_element
pick_element-ok element where_ [] r h = cc
pick_element-ok element where_ (x ∷ []) r h = ground arith
pick_element-ok element where_ (x ∷ y ∷ rs) r h = cc

ok-inj : {a b : List Fields} → ◌≡◌ {A = Result Failure (List Fields)} (ok a) (ok b) → a ≡ b
ok-inj e = cc

narrow-in_scope :
    (element : Text) (site_id label : Value) (matches left : List Fields) (r : Fields)
    → narrow element site_id label matches ≡ ok left
    → In r left
    → (in_scope site_id r ≡ true) × In r matches
unfolding narrow
narrow-in_scope element site_id label matches left r h m =
    let scoped = keep (in_scope site_id) matches in
    let inside : In r scoped → (in_scope site_id r ≡ true) × In r matches = λ k. (
      All-at (λ x. in_scope site_id x ≡ true) r scoped (keep_sound (in_scope site_id) matches) k,
      keep-In (in_scope site_id) r matches k,
    ) in
    elim (Bool-cases (is_empty scoped && not (is_empty matches))) [
      | inl e ↦ cc (rw e at h)
      | inr e ↦ elim (Bool-cases (is_empty (keep (at_site site_id) scoped))) [
        | inl f ↦ inside (subst (λ l. In r l) (sym (ok-inj (rw (e, f) at h))) m)
        | inr f ↦ inside (
            keep-In (at_site site_id) r scoped
              (subst (λ l. In r l) (sym (ok-inj (rw (e, f) at h))) m))
      ]
    ]

-- With a site whose id is known, the element that is returned is one of the matches, and stands at
-- that site or names none.
element_at-in_scope :
    (element : Text) (site_id label : Value) (matches : List Fields) (r : Fields)
    → element_at element (some (site_id, label)) matches ≡ ok r
    → (in_scope site_id r ≡ true) × In r matches
unfolding element_at
element_at-in_scope element site_id label matches r h =
    let (left, n, k) = chain_parts (narrow element site_id label matches) _ h in
    let only = pick_element-ok element (some site_id) left r k in
    narrow-in_scope element site_id label matches left r n (rw only (inl refl))

-- If both a site and an element are given, the site's record has an id, and `site_element`
-- succeeds, then the site's record is the only one that matches, the element's record stands at the
-- site or names none, and the result has the site's id and the element's id.
pub site_element-in_scope :
    (s : Services) (site element : Text) (sr : Fields) (out : SiteElement)
    → is_empty site ≡ false
    → is_empty element ≡ false
    → require_one s "site" site end ≡ ok sr
    → is_null (get_or_null "id" sr) ≡ false
    → site_element s (some site) (some element) ≡ ok out
    → (r : Fields) × (out.element_record ≡ some r)
      × (out.element_id ≡ get_or_null "id" r)
      × (out.site_id ≡ get_or_null "id" sr)
      × (in_scope (get_or_null "id" sr) r ≡ true)
unfolding site_element site_record_of element_record_of finish site_of given
site_element-in_scope s [] element sr out a b f g h = cc
site_element-in_scope s (c ∷ site) [] sr out a b f g h = cc
site_element-in_scope s (c ∷ site) (d ∷ element) sr out a b f g h =
    let site_id = get_or_null "id" sr in
    let label = site_label sr site_id in
    let (o, k, l) =
      chain_parts (element_record_of s (some (d ∷ element)) (some (site_id, label))) _
        (rw (f, g) at h) in
    let (res, fe, m) = chain_parts (find s "element" (d ∷ element) end) _ k in
    let (r, n, e) =
      chain_parts (element_at (d ∷ element) (some (site_id, label)) res.matches) _ m in
    let (scope, inside) = element_at-in_scope (d ∷ element) site_id label res.matches r n in
    let held : o ≡ some r = cc in
    let made : finish (some (site_id, label)) (some r) ≡ out = cc (rw held at l) in
    let back = sym made in
    (
      r,
      ap (λ (x : SiteElement). x.element_record) back,
      ap (λ (x : SiteElement). x.element_id) back,
      ap (λ (x : SiteElement). x.site_id) back,
      scope,
    )
