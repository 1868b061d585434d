-- ===== src/Catalog/Listing.antt =====
-- catalog.py: the order and the content of a listing.
use prisma_sdwan_mcp.Catalog.Wanted.{IsUpTo, text_before-IsUpTo, IsWanted, is_listed_iff}
use prisma_sdwan_mcp.Prelude.{
  Bool-cases, keep, All, In, All-at, keep_sound, In-keep, keep-In, ◌≡◌, refl, ◌↔◌, inl, inr, true,
  false, Option, List, [], ◌∷◌, arith,
}
use prisma_sdwan_mcp.Prelude.Text.{Text}
use prisma_sdwan_mcp.Catalog.{
  ActionSpec, holds, text_before, insert_action, sort_actions, is_listed, list_actions,
}
use prisma_sdwan_mcp.Prelude.Result.{ok}

-- No id stands behind one that it is before.
abbrev pub AreSorted : List ActionSpec → Type 0
AreSorted [] = Unit
AreSorted (a ∷ rest) = All (λ b. text_before b.action_id a.action_id ≡ false) rest × AreSorted rest

text_before_trans :
    (s t u : Text) → text_before t s ≡ false → text_before u t ≡ false → text_before u s ≡ false
unfolding text_before
text_before_trans [] [] [] h k = refl
text_before_trans [] [] (e ∷ u) h k = refl
text_before_trans [] (d ∷ t) [] h k = refl
text_before_trans [] (d ∷ t) (e ∷ u) h k = refl
text_before_trans (c ∷ s) [] u h k = cc
text_before_trans (c ∷ s) (d ∷ t) [] h k = cc
text_before_trans (c ∷ s) (d ∷ t) (e ∷ u) h k = ground (arith, text_before_trans s t u)

text_before_asym : (s t : Text) → text_before s t ≡ true → text_before t s ≡ false
unfolding text_before
text_before_asym [] [] h = refl
text_before_asym [] (d ∷ t) h = refl
text_before_asym (c ∷ s) [] h = cc
text_before_asym (c ∷ s) (d ∷ t) h = ground (arith, text_before_asym s t)

All-insert_action :
    (P : ActionSpec → Type 0) (a : ActionSpec) (bs : List ActionSpec)
    → P a
    → All P bs
    → All P (insert_action a bs)
unfolding insert_action
All-insert_action P a [] p h = (p, tt)
All-insert_action P a (b ∷ bs) p (q, h) = elim (Bool-cases (text_before b.action_id a.action_id)) [
  | inl e ↦ rw e (q, All-insert_action P a bs p h)
  | inr e ↦ rw e (p, (q, h))
]

All-behind :
    (a b : ActionSpec) (bs : List ActionSpec)
    → text_before b.action_id a.action_id ≡ false
    → All (λ c. text_before c.action_id b.action_id ≡ false) bs
    → All (λ c. text_before c.action_id a.action_id ≡ false) bs
All-behind a b [] e h = tt
All-behind a b (c ∷ cs) e (k, h) =
    (text_before_trans a.action_id b.action_id c.action_id e k, All-behind a b cs e h)

insert_action-AreSorted :
    (a : ActionSpec) (bs : List ActionSpec) → AreSorted bs → AreSorted (insert_action a bs)
unfolding insert_action
insert_action-AreSorted a [] h = (tt, tt)
insert_action-AreSorted a (b ∷ bs) (k, h) =
    elim (Bool-cases (text_before b.action_id a.action_id)) [
      | inl e ↦ rw e (
        All-insert_action (λ c. text_before c.action_id b.action_id ≡ false) a bs
            (text_before_asym b.action_id a.action_id e) k,
        insert_action-AreSorted a bs h,
      )
      | inr e ↦ rw e ((e, All-behind a b bs e k), (k, h))
    ]

sort_actions-AreSorted : (actions : List ActionSpec) → AreSorted (sort_actions actions)
unfolding sort_actions
sort_actions-AreSorted [] = tt
sort_actions-AreSorted (a ∷ rest) =
    insert_action-AreSorted a (sort_actions rest) (sort_actions-AreSorted rest)

In-insert_action :
    (x a : ActionSpec) (bs : List ActionSpec) → In x (a ∷ bs) ↔ In x (insert_action a bs)
unfolding insert_action
In-insert_action x a [] = (λ m. m, λ m. m)
In-insert_action x a (b ∷ bs) = elim (Bool-cases (text_before b.action_id a.action_id)) [
  | inr e ↦ rw e (λ m. m, λ m. m)
  | inl e ↦
      let (to, from) = In-insert_action x a bs in
      rw e (
        λ m. elim m [
          | inl p ↦ inr (to (inl p))
          | inr (inl p) ↦ inl p
          | inr (inr p) ↦ inr (to (inr p))
        ],
        λ m. elim m [
          | inl p ↦ inr (inl p)
          | inr p ↦ elim (from p) [ inl q ↦ inl q | inr q ↦ inr (inr q) ]
        ],
      )
]

In-sort_actions :
    (x : ActionSpec) (actions : List ActionSpec) → In x actions ↔ In x (sort_actions actions)
unfolding sort_actions
In-sort_actions x [] = (λ m. m, λ m. m)
In-sort_actions x (a ∷ rest) =
    let (to, from) = In-sort_actions x rest in
    let (there, back) = In-insert_action x a (sort_actions rest) in
    (
      λ m. there (elim m [ inl p ↦ inl p | inr p ↦ inr (to p) ]),
      λ m. elim (back m) [ inl p ↦ inl p | inr p ↦ inr (from p) ],
    )

-- Each id is up to the ids behind it.
abbrev pub AreInOrder : List ActionSpec → Type 0
AreInOrder [] = Unit
AreInOrder (a ∷ rest) = All (λ b. IsUpTo a.action_id b.action_id) rest × AreInOrder rest

AreSorted-AreInOrder : (listed : List ActionSpec) → AreSorted listed → AreInOrder listed
AreSorted-AreInOrder [] h = tt
AreSorted-AreInOrder (a ∷ rest) (k, h) = (go rest k, AreSorted-AreInOrder rest h)
  where
    go :
        (bs : List ActionSpec)
        → All (λ b. text_before b.action_id a.action_id ≡ false) bs
        → All (λ b. IsUpTo a.action_id b.action_id) bs
    go [] k = tt
    go (b ∷ bs) (e, k) = (text_before-IsUpTo a.action_id b.action_id e, go bs k)

-- What `list_actions` lists: the actions that are wanted, in the order of their ids.
abbrev pub IsListing : List ActionSpec → Text → Option Text → List ActionSpec → Type 0
IsListing actions domain method listed =
    AreInOrder listed × ((a : ActionSpec) → In a listed ↔ (In a actions × IsWanted domain method a))

-- For a domain of the catalog, `list_actions` returns exactly the actions whose domain it is and whose
-- method is the upper case of the one asked for, if any is asked for; and each id is a beginning of the
-- ids behind it or has the smaller character where they first differ.
pub list_actions-IsListing :
    (domains : List Text) (actions : List ActionSpec) (domain : Text) (method : Option Text)
    → holds domain domains ≡ true
    → (listed : List ActionSpec) × (list_actions domains actions domain method ≡ ok listed)
      × IsListing actions domain method listed
unfolding list_actions
list_actions-IsListing domains actions domain method h =
    let kept = keep (is_listed domain method) actions in
    (
      sort_actions kept,
      rw h refl,
      (
        AreSorted-AreInOrder (sort_actions kept) (sort_actions-AreSorted kept),
        λ a.
            let (to, from) = In-sort_actions a kept in
            let (wanted, passes) = is_listed_iff domain method a in
            (
              λ m. (
                keep-In (is_listed domain method) a actions (from m),
                wanted (
                    All-at (λ b. is_listed domain method b ≡ true) a kept
                      (keep_sound (is_listed domain method) actions) (from m)),
              ),
              λ (m, e). to (In-keep (is_listed domain method) a actions m (passes e)),
            ),
      ),
    )
