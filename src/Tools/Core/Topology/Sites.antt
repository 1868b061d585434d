-- ===== src/Tools/Core/Topology/Sites.antt =====
-- tools/core.py: which links of a topology are those of a site.
use prisma_sdwan_mcp.Prelude.{
  Bool-cases, any, In, In-append_left, In-append_right, In-append_cases, All-at, keep_sound,
  In-keep, keep-In, ◌≡◌, refl, ap, subst, ◌↔◌, ◌⊎◌, inl, inr, Bool, true, List, [], ◌∷◌, map, arith,
}
use prisma_sdwan_mcp.Prelude.Text.{Text, text_eq, text_eq→eq, text_eq_refl}
use prisma_sdwan_mcp.Value.{Value, dict, Fields, of_items, dicts}
use prisma_sdwan_mcp.Tools.Core.Topology.Links.{
  texts_at, is_member, aliases_from, endpoint_fields, link_matches, site_links,
}
use prisma_sdwan_mcp.Resolver.Records.{to_text}

module _ {A : Type 0} where
  any_In : (p : A → Bool) (xs : List A) → any p xs ≡ true → (x : A) × In x xs × (p x ≡ true)
  any_In p [] h = absurd (ground arith)
  any_In p (x ∷ xs) h = elim (Bool-cases (p x)) [
    | inl e ↦ (x, inl refl, e)
    | inr e ↦ let (y, m, k) = any_In p xs (rw e at h) in (y, inr m, k)
  ]

  In-any : (p : A → Bool) (x : A) (xs : List A) → In x xs → p x ≡ true → any p xs ≡ true
  In-any p x [] m h = absurd m
  In-any p x (y ∷ ys) (inl e) h = rw (← e, h) refl
  In-any p x (y ∷ ys) (inr m) h = elim (Bool-cases (p y)) [
    | inl k ↦ rw k refl
    | inr k ↦ rw k (In-any p x ys m h)
  ]

In-map_dict : (fs : Fields) (l : List Fields) → In (dict fs) (map dict l) → In fs l
In-map_dict fs [] m = absurd m
In-map_dict fs (r ∷ rs) (inl e) = inl cc
In-map_dict fs (r ∷ rs) (inr m) = inr (In-map_dict fs rs m)

map-In_dict : (fs : Fields) (l : List Fields) → In fs l → In (dict fs) (map dict l)
map-In_dict fs [] m = absurd m
map-In_dict fs (r ∷ rs) (inl e) = inl (ap (λ x. dict x) e)
map-In_dict fs (r ∷ rs) (inr m) = inr (map-In_dict fs rs m)

module _ (repr : Value → Text) where
  is_member-In : (t : Text) (ts : List Text) → is_member repr t ts ≡ true → In t ts
  unfolding is_member
  is_member-In t ts h =
      let (u, m, e) = any_In (λ u. text_eq u t) ts h in subst (λ w. In w ts) (text_eq→eq u t e) m

  In-is_member : (t : Text) (ts : List Text) → In t ts → is_member repr t ts ≡ true
  unfolding is_member
  In-is_member t ts m = In-any (λ u. text_eq u t) t ts m (text_eq_refl t)

  -- The ids of a node.
  abbrev pub node_ids : Fields → List Text
  node_ids node = texts_at repr ("id" ∷ "site_id" ∷ "node_id" ∷ []) node

  -- A text is a name of the site: one of the aliases before, or an id of a node with the site's id.
  abbrev pub IsAlias : Text → List Fields → List Text → Text → Type 0
  IsAlias site nodes before t =
      In t before
      ⊎ ((node : Fields) × In node nodes × In site (node_ids node) × In t (node_ids node))

  aliases-kept :
      (site : Text) (nodes : List Fields) (before : List Text) (t : Text)
      → In t before
      → In t (aliases_from repr site nodes before)
  unfolding aliases_from
  aliases-kept site [] before t m = m
  aliases-kept site (node ∷ nodes) before t m =
      elim (Bool-cases (is_member repr site (node_ids node))) [
        | inl e ↦ rw e (aliases-kept site nodes _ t (In-append_left t before (node_ids node) m))
        | inr e ↦ rw e (aliases-kept site nodes before t m)
      ]

  aliases-found :
      (site : Text) (nodes : List Fields) (before : List Text) (t : Text) (node : Fields)
      → In node nodes
      → In site (node_ids node)
      → In t (node_ids node)
      → In t (aliases_from repr site nodes before)
  unfolding aliases_from
  aliases-found site [] before t node m h k = absurd m
  aliases-found site (n ∷ nodes) before t node (inl e) h k =
      let same : is_member repr site (node_ids n) ≡ true =
        In-is_member site (node_ids n) (rw e at h) in
      rw same (aliases-kept site nodes _ t (In-append_right t before (node_ids n) (rw e at k)))
  aliases-found site (n ∷ nodes) before t node (inr m) h k = aliases-found site nodes _ t node m h k

  aliases-IsAlias :
      (site : Text) (nodes : List Fields) (before : List Text) (t : Text)
      → In t (aliases_from repr site nodes before)
      → IsAlias site nodes before t
  unfolding aliases_from
  aliases-IsAlias site [] before t m = inl m
  aliases-IsAlias site (n ∷ nodes) before t m =
      elim (Bool-cases (is_member repr site (node_ids n))) [
        | inl e ↦ elim (aliases-IsAlias site nodes _ t (rw e at m)) [
          | inl h ↦ elim (In-append_cases t before (node_ids n) h) [
            | inl k ↦ inl k
            | inr k ↦ inr (n, inl refl, is_member-In site (node_ids n) e, k)
          ]
          | inr (node, k, l, o) ↦ inr (node, inr k, l, o)
        ]
        | inr e ↦ elim (aliases-IsAlias site nodes before t (rw e at m)) [
          | inl h ↦ inl h
          | inr (node, k, l, o) ↦ inr (node, inr k, l, o)
        ]
      ]

  -- An end of the link is the site's id or an id of a node that has the site's id.
  abbrev pub IsLinkOf : Text → List Fields → Fields → Type 0
  IsLinkOf site nodes link =
      (t : Text) × In t (texts_at repr (endpoint_fields repr) link)
      × IsAlias site nodes (site ∷ []) t

  -- The links of a site are exactly the objects among the links that have an end which is the site's
  -- id or an id of a node that has the site's id.
  pub site_links_iff :
      (site_id : Value) (nodes links : List Value) (link : Fields)
      → In (dict link) (site_links repr site_id nodes links) ↔ (
          In link (dicts (of_items links))
          × IsLinkOf (to_text repr site_id) (dicts (of_items nodes)) link)
  unfolding site_links link_matches
  site_links_iff site_id nodes links link =
      let site = to_text repr site_id in
      let ns = dicts (of_items nodes) in
      let aliases = aliases_from repr site ns (site ∷ []) in
      let matches = link_matches repr aliases in
      (
        λ m.
            let kept = In-map_dict link _ m in
            let test =
              All-at (λ x. matches x ≡ true) link _ (keep_sound matches (dicts (of_items links)))
                kept in
            let (t, h, k) = any_In (λ t. is_member repr t aliases) _ test in
            (
              keep-In matches link (dicts (of_items links)) kept,
              (t, h, aliases-IsAlias site ns (site ∷ []) t (is_member-In t aliases k)),
            ),
        λ (m, (t, h, k)).
            let known : In t aliases = elim k [
              | inl l ↦ aliases-kept site ns (site ∷ []) t l
              | inr (node, l, o, p) ↦ aliases-found site ns (site ∷ []) t node l o p
            ] in
            map-In_dict link _ (
              In-keep matches link (dicts (of_items links)) m
                (In-any (λ t. is_member repr t aliases) t _ h (In-is_member t aliases known))),
      )
