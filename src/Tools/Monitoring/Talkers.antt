-- ===== src/Tools/Monitoring/Talkers.antt =====
-- tools/monitoring.py: the traffic between two ends in `_flow_digest`.
use prisma_sdwan_mcp.Prelude.{
  if◌then◌else◌, Bool-cases, and_parts, ◌≡◌, refl, sym, ap, ◌∙◌, inl, inr, true, false, ◌&&◌, List,
  [], ◌∷◌, arith,
}
use prisma_sdwan_mcp.Prelude.Text.{Text, text_eq, text_eq→eq, text_eq_refl}
use prisma_sdwan_mcp.Prelude.Int.{ℤ, pos, negsuc}
use prisma_sdwan_mcp.Value.{Value, Fields}
use prisma_sdwan_mcp.Tools.Monitoring.Flows.{
  add_int, Talker, add_traffic, label, traffic, talkers_from,
}

-- The total of the entry of two ends; 0 if there is none.
unfoldable pub total_of : Text → Text → List Talker → ℤ
total_of src dst [] = pos 0
total_of src dst (t ∷ ts) =
    let later = total_of src dst ts in
    if text_eq t.src_ip src && text_eq t.dst_ip dst then t.total_bytes else later

module _ (repr : Value → Text) (truncate : Text → ℤ) where
  -- The ends of a row.
  unfoldable pub source_of : Fields → Text
  source_of row = label repr truncate ("src_ip" ∷ "source_ip" ∷ []) row

  unfoldable pub destination_of : Fields → Text
  destination_of row = label repr truncate ("dst_ip" ∷ "destination_ip" ∷ []) row

  -- What is added to a sum by the rows between two ends, in their order.
  unfoldable pub exchanged : Text → Text → List Fields → ℤ → ℤ
  exchanged src dst [] sum = sum
  exchanged src dst (row ∷ rows) sum = exchanged src dst rows (
      if text_eq (source_of row) src && text_eq (destination_of row) dst
      then add_int sum (add_int (traffic repr truncate row).0 (traffic repr truncate row).1)
      else sum)

add_int_zero : (z : ℤ) → add_int (pos 0) z ≡ z
unfolding add_int
add_int_zero (pos n) = ap pos (omega arith)
add_int_zero (negsuc n) = ground arith

-- The ends of an entry and of a row are the same for all ends, if they are for each other.
same_ends :
    (a b src dst s d : Text)
    → (text_eq a src && text_eq b dst) ≡ true
    → (text_eq a s && text_eq b d) ≡ (text_eq src s && text_eq dst d)
same_ends a b src dst s d e =
    let (first, second) = and_parts _ _ e in
    rw (text_eq→eq a src first, text_eq→eq b dst second) refl

-- Two pairs that differ are not both the same as a third one.
other_ends :
    (a b src dst s d : Text)
    → (text_eq a src && text_eq b dst) ≡ false
    → (text_eq a s && text_eq b d) ≡ true
    → (text_eq src s && text_eq dst d) ≡ false
other_ends a b src dst s d e k =
    let (first, second) = and_parts _ _ k in
    elim (Bool-cases (text_eq src s && text_eq dst d)) [
      | inr h ↦ h
      | inl h ↦
          let (third, fourth) = and_parts _ _ h in
          let back : (text_eq a src && text_eq b dst) ≡ true =
            rw
              (
                text_eq→eq a s first,
                text_eq→eq b d second,
                text_eq→eq src s third,
                text_eq→eq dst d fourth,
                text_eq_refl s,
                text_eq_refl d,
              )
              refl in
          cc
    ]

-- One row changes the total of its own two ends only.
total_of-add_traffic :
    (src dst s d : Text) (c2s s2c : ℤ) (ts : List Talker)
    → total_of s d (add_traffic src dst c2s s2c ts) ≡ (
        if text_eq src s && text_eq dst d
        then add_int (total_of s d ts) (add_int c2s s2c)
        else total_of s d ts)
unfolding total_of add_traffic
total_of-add_traffic src dst s d c2s s2c [] = elim (Bool-cases (text_eq src s && text_eq dst d)) [
  | inl e ↦ rw e (sym (add_int_zero _))
  | inr e ↦ rw e refl
]
total_of-add_traffic src dst s d c2s s2c (t ∷ ts) =
    elim (Bool-cases (text_eq t.src_ip src && text_eq t.dst_ip dst)) [
      | inl e ↦
          let same = same_ends t.src_ip t.dst_ip src dst s d e in
          elim (Bool-cases (text_eq src s && text_eq dst d)) [
            | inl k ↦ rw (e, same, k) refl
            | inr k ↦ rw (e, same, k) refl
          ]
      | inr e ↦ elim (Bool-cases (text_eq t.src_ip s && text_eq t.dst_ip d)) [
        | inl k ↦ rw (e, k, other_ends t.src_ip t.dst_ip src dst s d e k) refl
        | inr k ↦ rw (e, k) (total_of-add_traffic src dst s d c2s s2c ts)
      ]
    ]

module _ (repr : Value → Text) (truncate : Text → ℤ) (src dst : Text) where
  total_of-talkers_from :
      (rows : List Fields) (ts : List Talker)
      → total_of src dst (talkers_from repr truncate rows ts)
        ≡ exchanged repr truncate src dst rows (total_of src dst ts)
  unfolding talkers_from exchanged source_of destination_of
  total_of-talkers_from [] ts = refl
  total_of-talkers_from (row ∷ rows) ts =
      total_of-talkers_from rows _
      ∙ ap (exchanged repr truncate src dst rows) (total_of-add_traffic _ _ src dst _ _ ts)

  -- The talkers of a digest implement the table of the traffic between any two ends: the total of
  -- their entry, 0 if there is none, is the sum of the bytes of the rows between them.
  pub total_of-talkers :
      (rows : List Fields)
      → total_of src dst (talkers_from repr truncate rows [])
        ≡ exchanged repr truncate src dst rows (pos 0)
  unfolding total_of
  total_of-talkers rows = total_of-talkers_from rows []
