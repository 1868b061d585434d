-- ===== src/Tools/Policies/Families.antt =====
-- tools/policies_security.py: the loop over the families of `get_policies`.
use prisma_sdwan_mcp.Tools.Policies.Collected.{
  asked_of, call_of, IsCollected, add_family-IsPart, add_family-own_error, add_family-other_error,
}
use prisma_sdwan_mcp.Prelude.{
  All, String, ◌≡◌, refl, sym, ap, ◌∙◌, subst, false, none, List, [], ◌∷◌, ◌++◌, map, append-nil,
  append_assoc, arith, str_eq,
}
use prisma_sdwan_mcp.Prelude.Result.{Result, err, ok}
use prisma_sdwan_mcp.Errors.{Failure}
use prisma_sdwan_mcp.Value.{Value, Fields, end, get}
use prisma_sdwan_mcp.Tools.{Log, Toolbox, continue, ◌>>=◌, execute}
use prisma_sdwan_mcp.Tools.Policies.{
  Family, families, family_name, Collection, sets, stacks, collection_action, Scan, add_family,
  scan_families,
}

abbrev asked_for : Collection → Family → String × String
asked_for c f = (family_name f, collection_action f c)

-- No name occurs twice.
abbrev AreApart : List Family → Type 0
AreApart [] = Unit
AreApart (f ∷ fs) =
    All
      (λ g.
        (str_eq (family_name g) (family_name f) ≡ false)
        × (str_eq (family_name f) (family_name g) ≡ false))
      fs
    × AreApart fs

-- No error is noted for the families that are left.
abbrev AreUnnoted : List Family → Fields → Type 0
AreUnnoted fs errors = All (λ f. get (family_name f) errors ≡ none) fs

-- What a loop without an exception has done.
abbrev IsScanned :
    Toolbox → Collection → List Family → Scan → Log → Result Failure Scan × Log → Type 0
IsScanned b c fs start log r =
    (scan : Scan)
    → r.0 ≡ ok scan
    → (r.1 ≡ log ++ map call_of (map (asked_for c) fs))
      × ((k : String)
          → All (λ g. str_eq (family_name g) k ≡ false) fs
          → get k scan.family_errors ≡ get k start.family_errors)
      × (items_ : List Fields) × (scan.combined ≡ start.combined ++ items_)
      × IsCollected b log (map (asked_for c) fs) items_ scan.family_errors

the_scan : (x y : Scan) → ◌≡◌ {A = Result Failure Scan} (ok x) (ok y) → x ≡ y
the_scan x y e = cc

fronts :
    (f : Family) (fs : List Family)
    → All
        (λ g.
          (str_eq (family_name g) (family_name f) ≡ false)
          × (str_eq (family_name f) (family_name g) ≡ false))
        fs
    → All (λ g. str_eq (family_name g) (family_name f) ≡ false) fs
fronts f [] h = tt
fronts f (g ∷ gs) ((p, q), h) = (p, fronts f gs h)

unnoted_behind :
    (f : Family) (v : Value) (scan : Scan) (fs : List Family)
    → All
        (λ g.
          (str_eq (family_name g) (family_name f) ≡ false)
          × (str_eq (family_name f) (family_name g) ≡ false))
        fs
    → AreUnnoted fs scan.family_errors
    → AreUnnoted fs (add_family f v scan).family_errors
unnoted_behind f v scan [] h k = tt
unnoted_behind f v scan (g ∷ gs) ((p, q), h) (e, k) =
    (add_family-other_error f v scan (family_name g) q ∙ e, unnoted_behind f v scan gs h k)

module _ (b : Toolbox) (c : Collection) where
  scan_families-from :
      (fs : List Family) (start : Scan) (log : Log)
      → AreApart fs
      → AreUnnoted fs start.family_errors
      → IsScanned b c fs start log (scan_families b c fs start log)
  unfolding scan_families ◌>>=◌ continue execute
  scan_families-from [] start log apart unnoted = λ scan e.
      let same = the_scan start scan e in
      (
        sym (append-nil log),
        λ k h. rw same refl,
        [],
        rw same (sym (append-nil scan.combined)),
        refl,
      )
  scan_families-from (f ∷ fs) start log (own, apart) (first, unnoted) =
      go (b.answer log (call_of (asked_for c f))) refl (λ v.
        scan_families-from fs (add_family f v start) (log ++ call_of (asked_for c f) ∷ []) apart
          (unnoted_behind f v start fs own unnoted))
    where
      go :
          (r : Result Failure Value)
          → b.answer log (call_of (asked_for c f)) ≡ r
          → ((v : Value)
              → IsScanned b c fs (add_family f v start) (log ++ call_of (asked_for c f) ∷ []) (
                  scan_families b c fs
                    (add_family f v start)
                    (log ++ call_of (asked_for c f) ∷ [])))
          → IsScanned b c (f ∷ fs) start log (
              continue
                (r, log ++ call_of (asked_for c f) ∷ [])
                (λ result. scan_families b c fs (add_family f result start)))
      go (err m) answer next scan e = cc
      go (ok v) answer next scan e =
          let (whole, others, items_, parts, collected) = next v scan e in
          let (part, added, is_part) = add_family-IsPart f v start in
          (
            whole ∙ append_assoc log (call_of (asked_for c f) ∷ []) _,
            λ k (p, h). others k h ∙ add_family-other_error f v start k p,
            part ++ items_,
            parts ∙ ap (λ xs. xs ++ items_) added ∙ append_assoc start.combined part items_,
            (
              v,
              answer,
              others (family_name f) (fronts f fs own) ∙ add_family-own_error f v start first,
              part,
              items_,
              refl,
              is_part,
              collected,
            ),
          )

abbrev pub nothing_yet : Scan
nothing_yet = record { combined = []; family_errors = end }

abbrev pub IsScan : Toolbox → Collection → Log → Scan → Log → Type 0
IsScan b c log scan after =
    (after ≡ log ++ map call_of (asked_of c))
    × IsCollected b log (asked_of c) scan.combined scan.family_errors

families_apart : AreApart families
unfolding family_name
families_apart = ground arith

none_noted : AreUnnoted families end
unfolding get
none_noted = ground arith

families_asked : (c : Collection) → map (asked_for c) families ≡ asked_of c
unfolding family_name collection_action
families_asked sets = refl
families_asked stacks = refl

-- Without an exception the view of all families calls the executor once for each of the five families,
-- in order, and collects for each family the records of its own answer, with the name of the family
-- and else unchanged, one family behind the other; or notes its answer's error under the name of the
-- family, and no error for a family whose answer has none.
pub scan_families-IsScan :
    (b : Toolbox) (c : Collection) (log : Log) (scan : Scan)
    → (scan_families b c families nothing_yet log).0 ≡ ok scan
    → IsScan b c log scan (scan_families b c families nothing_yet log).1
scan_families-IsScan b c log scan h =
    let (whole, others, items_, parts, collected) =
      scan_families-from b c families nothing_yet log families_apart none_noted scan h in
    subst
      (λ ps.
        ((scan_families b c families nothing_yet log).1 ≡ log ++ map call_of ps)
        × IsCollected b log ps scan.combined scan.family_errors)
      (families_asked c)
      (
        whole,
        subst (λ xs. IsCollected b log (map (asked_for c) families) xs scan.family_errors)
            (sym parts) collected,
      )
