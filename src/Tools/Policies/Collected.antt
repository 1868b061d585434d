-- ===== src/Tools/Policies/Collected.antt =====
-- tools/policies_security.py: what one answer adds to the view of all families.
use prisma_sdwan_mcp.Prelude.{
  Option-cases, String, ◌≡◌, refl, sym, ◌∙◌, ◌⊎◌, inl, inr, false, Option, none, some, List, [],
  ◌∷◌, ◌++◌, map, append-nil, str_eq,
}
use prisma_sdwan_mcp.Prelude.Text.{codes}
use prisma_sdwan_mcp.Prelude.Result.{ok}
use prisma_sdwan_mcp.Value.{Value, null, bool, int, real, str, list, dict, Fields, end, get, set}
use prisma_sdwan_mcp.Resolver.Records.{records}
use prisma_sdwan_mcp.Tools.{Call, Log, Toolbox}
use prisma_sdwan_mcp.Tools.Policies.{
  Family, family_name, Collection, sets, stacks, with_family, Scan, add_family,
}
use prisma_sdwan_mcp.Response.Lookup.{get-set_other, get-set_same}

-- The name of each family and the action that lists its policy sets or its stacks.
abbrev pub asked_of : Collection → List (String × String)
asked_of sets =
    ("network", "network_priority_policies.networkpolicysets")
    ∷ ("priority", "network_priority_policies.prioritypolicysets")
    ∷ ("nat", "nat_policies.natpolicysets")
    ∷ ("security", "security_policies.ngfwsecuritypolicysets")
    ∷ ("performance", "performance_management.perfmgmtpolicysets")
    ∷ []
asked_of stacks =
    ("network", "network_priority_policies.networkpolicysetstacks")
    ∷ ("priority", "network_priority_policies.prioritypolicysetstacks")
    ∷ ("nat", "nat_policies.natpolicysetstacks")
    ∷ ("security", "security_policies.ngfwsecuritypolicysetstacks")
    ∷ ("performance", "performance_management.perfmgmtpolicysetstacks")
    ∷ []

abbrev pub call_of : String × String → Call
call_of (name, action) = record { action = action; paths = end; body = none }

-- The error that an answer holds.
abbrev pub error_of : Value → Option Value
error_of (dict fs) = get "error" fs
error_of _ = none

-- The same entries, but for the name of the family.
abbrev pub IsTagged : String → Fields → Fields → Type 0
IsTagged name x y =
    (get "policy_family" y ≡ some (str (codes name)))
    × ((k : String) → str_eq "policy_family" k ≡ false → get k y ≡ get k x)

abbrev pub AreTagged : String → List Fields → List Fields → Type 0
AreTagged name [] [] = Unit
AreTagged name (x ∷ xs) (y ∷ ys) = IsTagged name x y × AreTagged name xs ys
AreTagged name [] (y ∷ ys) = ⊥
AreTagged name (x ∷ xs) [] = ⊥

-- What is collected of one answer: its records with the name of the family, or nothing of an error.
abbrev pub IsPart : String → Value → List Fields → Type 0
IsPart name v part =
    ((error_of v ≡ none) × AreTagged name (records v) part)
    ⊎ ((e : Value) × (error_of v ≡ some e) × (part ≡ []))

-- What is collected for the families that are asked for from a log on: for each the part of its own
-- answer, one behind the other, and its answer's error under its name.
abbrev pub IsCollected : Toolbox → Log → List (String × String) → List Fields → Fields → Type 0
IsCollected b log [] items_ errors = items_ ≡ []
IsCollected b log (p ∷ ps) items_ errors =
    (v : Value) × (b.answer log (call_of p) ≡ ok v)
    × (get p.0 errors ≡ error_of v)
    × (part : List Fields) × (rest : List Fields) × (items_ ≡ part ++ rest)
    × IsPart p.0 v part
    × IsCollected b (log ++ call_of p ∷ []) ps rest errors

pub with_family-AreTagged :
    (f : Family) (xs : List Fields) → AreTagged (family_name f) xs (map (with_family f) xs)
unfolding with_family
with_family-AreTagged f [] = tt
with_family-AreTagged f (x ∷ xs) = (
  (get-set_same "policy_family" _ x, λ k apart. get-set_other "policy_family" k _ x apart),
  with_family-AreTagged f xs,
)

-- The loop's step: the records of the answer are put behind the others, or its error is noted.
abbrev pub IsAdded : Family → Value → Scan → Scan → Type 0
IsAdded f v scan next =
    ((error_of v ≡ none)
      × (next.combined ≡ scan.combined ++ map (with_family f) (records v))
      × (next.family_errors ≡ scan.family_errors))
    ⊎ ((e : Value) × (error_of v ≡ some e)
        × (next.combined ≡ scan.combined)
        × (next.family_errors ≡ set (family_name f) e scan.family_errors))

pub add_family-IsAdded :
    (f : Family) (v : Value) (scan : Scan) → IsAdded f v scan (add_family f v scan)
unfolding add_family
add_family-IsAdded f (dict fs) scan = elim (Option-cases (get "error" fs)) [
  | inl e ↦ rw (add_family, e) (inl (refl, refl, refl))
  | inr (error, e) ↦ rw (add_family, e) (inr (error, refl, refl, refl))
]
add_family-IsAdded f null scan = inl (refl, refl, refl)
add_family-IsAdded f (bool v) scan = inl (refl, refl, refl)
add_family-IsAdded f (int z) scan = inl (refl, refl, refl)
add_family-IsAdded f (real t) scan = inl (refl, refl, refl)
add_family-IsAdded f (str s) scan = inl (refl, refl, refl)
add_family-IsAdded f (list vs) scan = inl (refl, refl, refl)

pub add_family-IsPart :
    (f : Family) (v : Value) (scan : Scan)
    → (part : List Fields) × ((add_family f v scan).combined ≡ scan.combined ++ part)
      × IsPart (family_name f) v part
add_family-IsPart f v scan = elim (add_family-IsAdded f v scan) [
  | inl (e, whole, same) ↦
      (map (with_family f) (records v), whole, inl (e, with_family-AreTagged f (records v)))
  | inr (error, e, same, noted) ↦ ([], same ∙ sym (append-nil scan.combined), inr (error, e, refl))
]

pub add_family-own_error :
    (f : Family) (v : Value) (scan : Scan)
    → get (family_name f) scan.family_errors ≡ none
    → get (family_name f) (add_family f v scan).family_errors ≡ error_of v
add_family-own_error f v scan h = elim (add_family-IsAdded f v scan) [
  | inl (e, whole, same) ↦ rw same (h ∙ sym e)
  | inr (error, e, same, noted) ↦
      rw noted (get-set_same (family_name f) error scan.family_errors ∙ sym e)
]

pub add_family-other_error :
    (f : Family) (v : Value) (scan : Scan) (k : String)
    → str_eq (family_name f) k ≡ false
    → get k (add_family f v scan).family_errors ≡ get k scan.family_errors
add_family-other_error f v scan k apart = elim (add_family-IsAdded f v scan) [
  | inl (e, whole, same) ↦ rw same refl
  | inr (error, e, same, noted) ↦
      rw noted (get-set_other (family_name f) k error scan.family_errors apart)
]
