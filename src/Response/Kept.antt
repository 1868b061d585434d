-- ===== src/Response/Kept.antt =====
-- response.py: what the trimming of records keeps.
use prisma_sdwan_mcp.Prelude.Text.{text_eq, text_eq→eq}
use prisma_sdwan_mcp.Response.Json.{compact_json}
use prisma_sdwan_mcp.Value.{Value, Fields, end, field, get, get_or_null}
use prisma_sdwan_mcp.Prelude.{
  Bool-cases, and_parts, or_parts, all, In, In-append_left, In-append_right, All-at, all_sound,
  String, ◌≡◌, refl, sym, ap, ◌∙◌, ◌⊎◌, inl, inr, Bool, true, false, not, ◌&&◌, some, List, [], ◌∷◌,
  ◌++◌, str_eq, eq_iff,
}
use prisma_sdwan_mcp.Response.Compact.{
  in_keys, add_keys, all_keys, is_void, is_empty_key, same_as, is_shared_key, keep_keys,
  trim_record, shared_from, shared_fields,
}

keep_keys-get :
    (test : String → Bool) (k : String) (fs : Fields)
    → test k ≡ true
    → get k (keep_keys test fs) ≡ get k fs
unfolding keep_keys get
keep_keys-get test k end h = refl
keep_keys-get test k (field j v fs) h = elim (Bool-cases (str_eq j k)) [
  | inl e ↦
      let same : j ≡ k = (eq_iff j k).0 e in
      let own : test j ≡ true = rw same h in rw (keep_keys, own) (rw e refl)
  | inr e ↦ elim (Bool-cases (test j)) [
    | inl f ↦ rw (keep_keys, f) (rw e (keep_keys-get test k fs h))
    | inr f ↦ rw (keep_keys, f, e) (keep_keys-get test k fs h)
  ]
]

in_keys-In : (k : String) (ks : List String) → in_keys k ks ≡ true → In k ks
unfolding in_keys
in_keys-In k [] h = cc
in_keys-In k (j ∷ ks) h = elim (or_parts (str_eq j k) (in_keys k ks) h) [
  | inl e ↦ inl (sym ((eq_iff j k).0 e))
  | inr e ↦ inr (in_keys-In k ks e)
]

In-add_keys : (k : String) (ks : List String) (fs : Fields) → In k ks → In k (add_keys ks fs)
unfolding add_keys
In-add_keys k ks end m = m
In-add_keys k ks (field j v fs) m = elim (Bool-cases (in_keys j ks)) [
  | inl e ↦ rw (add_keys, e) (In-add_keys k ks fs m)
  | inr e ↦ rw (add_keys, e) (In-add_keys k (ks ++ j ∷ []) fs (In-append_left k ks (j ∷ []) m))
]

get-add_keys :
    (k : String) (v : Value) (ks : List String) (fs : Fields)
    → get k fs ≡ some v
    → In k (add_keys ks fs)
unfolding add_keys get
get-add_keys k v ks end h = cc
get-add_keys k v ks (field j w fs) h = elim (Bool-cases (str_eq j k)) [
  | inl e ↦
      let same : j ≡ k = (eq_iff j k).0 e in
      elim (Bool-cases (in_keys j ks)) [
        | inl f ↦ rw (add_keys, f) (In-add_keys k ks fs (rw (← same) (in_keys-In j ks f)))
        | inr f ↦
            rw (add_keys, f)
              (In-add_keys k (ks ++ j ∷ []) fs (In-append_right k ks (j ∷ []) (inl (sym same))))
      ]
  | inr e ↦ elim (Bool-cases (in_keys j ks)) [
    | inl f ↦ rw (add_keys, f) (get-add_keys k v ks fs (rw (get, e) at h))
    | inr f ↦ rw (add_keys, f) (get-add_keys k v (ks ++ j ∷ []) fs (rw (get, e) at h))
  ]
]

In-all_keys : (k : String) (ks : List String) (rs : List Fields) → In k ks → In k (all_keys ks rs)
unfolding all_keys
In-all_keys k ks [] m = m
In-all_keys k ks (r ∷ rs) m = In-all_keys k (add_keys ks r) rs (In-add_keys k ks r m)

get-all_keys :
    (k : String) (v : Value) (ks : List String) (r : Fields) (rs : List Fields)
    → In r rs
    → get k r ≡ some v
    → In k (all_keys ks rs)
unfolding all_keys
get-all_keys k v ks r [] m h = absurd m
get-all_keys k v ks r (q ∷ rs) (inl e) h =
    In-all_keys k (add_keys ks q) rs (get-add_keys k v ks q (rw (← e) h))
get-all_keys k v ks r (q ∷ rs) (inr m) h = get-all_keys k v (add_keys ks q) r rs m h

tail_of : (k j : String) (ks : List String) → In k (j ∷ ks) → str_eq j k ≡ false → In k ks
tail_of k j ks (inl e) h = cc (rw ((eq_iff j k).1 (sym e)) at h)
tail_of k j ks (inr m) h = m

shared_from-get :
    (rs : List Fields) (first : Fields) (k : String) (ks : List String)
    → In k ks
    → is_shared_key rs k ≡ true
    → get k (shared_from rs first ks) ≡ some (get_or_null k first)
unfolding shared_from get
shared_from-get rs first k [] m h = absurd m
shared_from-get rs first k (j ∷ ks) m h = elim (Bool-cases (str_eq j k)) [
  | inl e ↦
      let same : j ≡ k = (eq_iff j k).0 e in
      let own : is_shared_key rs j ≡ true = rw same h in
      rw (shared_from, own, e) (ap (λ i. some (get_or_null i first)) same)
  | inr e ↦
      let rest = shared_from-get rs first k ks (tail_of k j ks m e) h in
      elim (Bool-cases (is_shared_key rs j)) [
        | inl f ↦ rw (shared_from, f, e) rest
        | inr f ↦ rw (shared_from, f) rest
      ]
]

-- A key that all records share has in each record the value that it has in the first.
is_shared_key-same :
    (first : Fields) (rest : List Fields) (r : Fields) (k : String)
    → In r (first ∷ rest)
    → is_shared_key (first ∷ rest) k ≡ true
    → compact_json (get_or_null k r) ≡ compact_json (get_or_null k first)
unfolding is_shared_key same_as
is_shared_key-same first [] r k m h = cc
is_shared_key-same first (q ∷ rs) r k (inl e) h = rw e refl
is_shared_key-same first (q ∷ rs) r k (inr m) h =
    let p : Fields → Bool =
      λ x. text_eq (compact_json (get_or_null k x)) (compact_json (get_or_null k first)) in
    let (a, b) = and_parts _ (all p (q ∷ rs)) h in
    text_eq→eq (compact_json (get_or_null k r)) (compact_json (get_or_null k first))
      (All-at (λ x. p x ≡ true) r (q ∷ rs) (all_sound p (q ∷ rs) b) m)

-- The field is in the trimmed record, or among the shared ones with the same JSON text.
abbrev pub IsKept : List Fields → Fields → String → Value → Type 0
IsKept rs r k v =
    (get k (trim_record rs r) ≡ some v)
    ⊎ ((w : Value) × (get k (shared_fields rs) ≡ some w) × (compact_json v ≡ compact_json w))

get_or_null-some : (k : String) (fs : Fields) (v : Value) → get k fs ≡ some v → get_or_null k fs ≡ v
unfolding get_or_null
get_or_null-some k fs v h = rw (get_or_null, h) refl

is_empty_key-void :
    (rs : List Fields) (r : Fields) (k : String) (v : Value)
    → In r rs
    → get k r ≡ some v
    → is_empty_key rs k ≡ true
    → is_void v ≡ true
unfolding is_empty_key
is_empty_key-void rs r k v m g h =
    let found =
      All-at (λ x. is_void (get_or_null k x) ≡ true) r rs
        (all_sound (λ x. is_void (get_or_null k x)) rs h) m in
    rw (← get_or_null-some k r v g) found

shared-IsKept :
    (rs : List Fields) (r : Fields) (k : String) (v : Value)
    → In r rs
    → get k r ≡ some v
    → is_shared_key rs k ≡ true
    → (w : Value) × (get k (shared_fields rs) ≡ some w) × (compact_json v ≡ compact_json w)
unfolding shared_fields
shared-IsKept [] r k v m g h = absurd m
shared-IsKept (q ∷ rs) r k v m g h = (
  get_or_null k q,
  shared_from-get (q ∷ rs) q k (all_keys [] (q ∷ rs)) (get-all_keys k v [] r (q ∷ rs) m g) h,
  rw (← get_or_null-some k r v g) (is_shared_key-same q rs r k m h),
)

-- The passes that trim the records lose nothing: each field of a record that is not None, an empty
-- text, an empty list or an empty object stands in the trimmed record with its value, or among the
-- shared fields with a value of the same JSON text.
pub trim-IsKept :
    (rs : List Fields) (r : Fields) (k : String) (v : Value)
    → In r rs
    → get k r ≡ some v
    → is_void v ≡ false
    → IsKept rs r k v
unfolding trim_record
trim-IsKept rs r k v m g n = elim (Bool-cases (is_empty_key rs k)) [
  | inl e ↦ cc (rw (is_empty_key-void rs r k v m g e) at n)
  | inr e ↦ elim (Bool-cases (is_shared_key rs k)) [
    | inl f ↦ inr (shared-IsKept rs r k v m g f)
    | inr f ↦
        let test : String → Bool = λ j. not (is_empty_key rs j) && not (is_shared_key rs j) in
        let passes : test k ≡ true = rw (e, f) refl in inl (keep_keys-get test k r passes ∙ g)
  ]
]
