-- ===== src/Cli/Address/Shared.antt =====
-- cli/address.py: the shared address space 100.64.0.0/10, by its octets.
use prisma_sdwan_mcp.Prelude.{
  leb, leb→le, ==→eq, Bool-cases, Option-cases, ℕ, ◌≤◌, ◌≡◌, refl, ap, ◌↔◌, inl, inr, true, Option,
  none, some, List, [], ◌∷◌, arith,
}
use prisma_sdwan_mcp.Prelude.Text.{Text}
use prisma_sdwan_mcp.Cli.Address.{
  split_on, octet, in_network, octets_shared, parts_shared, is_shared_address_space,
}
use prisma_sdwan_mcp.Prelude.Int.{pos, negsuc, parse_int}

octet-bound : (p : Text) (a : ℕ) → octet p ≡ some a → a ≤ 255
unfolding octet
octet-bound p a h = elim (Option-cases (parse_int p)) [
  | inl e ↦ cc (rw (octet, e) at h)
  | inr (negsuc n, e) ↦ cc (rw (octet, e) at h)
  | inr (pos n, e) ↦ elim (Bool-cases (leb n 255)) [
    | inl f ↦ let same : n ≡ a = cc (rw (octet, e, f) at h) in omega (arith, leb→le n 255 f, same)
    | inr f ↦ cc (rw (octet, e, f) at h)
  ]
]

in_network_iff :
    (a b c d : ℕ)
    → a ≤ 255
    → b ≤ 255
    → c ≤ 255
    → d ≤ 255
    → (in_network a b c d ≡ true) ↔ ((a ≡ 100) × (64 ≤ b) × (b ≤ 127))
unfolding in_network
in_network_iff a b c d ha hb hc hd = (
  λ h.
      let e = ==→eq _ _ h in
      (
        omega (arith, e, ha, hb, hc, hd),
        omega (arith, e, ha, hb, hc, hd),
        omega (arith, e, ha, hb, hc, hd),
      ),
  λ h. let (x, y, z) = h in ground arith,
)

abbrev IsOctet : Option ℕ → Type 0
IsOctet o = (a : ℕ) → o ≡ some a → a ≤ 255

abbrev pub AreSharedOctets : Option ℕ → Option ℕ → Option ℕ → Option ℕ → Type 0
AreSharedOctets o1 o2 o3 o4 =
    (o1 ≡ some 100)
    × ((b : ℕ) × (o2 ≡ some b) × (64 ≤ b) × (b ≤ 127))
    × ((c : ℕ) × (o3 ≡ some c))
    × ((d : ℕ) × (o4 ≡ some d))

octets_shared_sound :
    (o1 o2 o3 o4 : Option ℕ)
    → IsOctet o1
    → IsOctet o2
    → IsOctet o3
    → IsOctet o4
    → octets_shared o1 o2 o3 o4 ≡ true
    → AreSharedOctets o1 o2 o3 o4
unfolding octets_shared
octets_shared_sound (some a) (some b) (some c) (some d) i j k l h =
    let (e, lo, hi) = (in_network_iff a b c d (i a refl) (j b refl) (k c refl) (l d refl)).0 h in
    (ap some e, (b, refl, lo, hi), (c, refl), (d, refl))
octets_shared_sound none o2 o3 o4 i j k l h = cc
octets_shared_sound (some a) none o3 o4 i j k l h = cc
octets_shared_sound (some a) (some b) none o4 i j k l h = cc
octets_shared_sound (some a) (some b) (some c) none i j k l h = cc

octets_shared_complete :
    (o1 o2 o3 o4 : Option ℕ)
    → IsOctet o3
    → IsOctet o4
    → AreSharedOctets o1 o2 o3 o4
    → octets_shared o1 o2 o3 o4 ≡ true
unfolding octets_shared
octets_shared_complete o1 o2 o3 o4 k l (e, (b, f, lo, hi), (c, g), (d, h)) =
    rw (e, f, g, h)
      ((in_network_iff 100 b c d (omega arith) (omega arith) (k c g) (l d h)).1 (refl, lo, hi))

-- The four parts of a text at its dots.
abbrev pub IsSharedText : List Text → Type 0
IsSharedText parts =
    (p q r t : Text) × (parts ≡ p ∷ q ∷ r ∷ t ∷ [])
    × AreSharedOctets (octet p) (octet q) (octet r) (octet t)

parts_shared_sound : (parts : List Text) → parts_shared parts ≡ true → IsSharedText parts
unfolding parts_shared
parts_shared_sound (p ∷ q ∷ r ∷ t ∷ []) h = (
  p,
  q,
  r,
  t,
  refl,
  octets_shared_sound (octet p) (octet q) (octet r) (octet t) (octet-bound p) (octet-bound q)
      (octet-bound r) (octet-bound t) h,
)
parts_shared_sound [] h = cc
parts_shared_sound (p ∷ []) h = cc
parts_shared_sound (p ∷ q ∷ []) h = cc
parts_shared_sound (p ∷ q ∷ r ∷ []) h = cc
parts_shared_sound (p ∷ q ∷ r ∷ t ∷ u ∷ rest) h = cc

-- An address is in the shared space exactly when it has four parts at its dots that are integers
-- from 0 to 255, the first of them 100 and the second from 64 to 127.
pub is_shared_address_space_iff :
    (address : Text)
    → (is_shared_address_space address ≡ true) ↔ IsSharedText (split_on b'.' address)
unfolding is_shared_address_space parts_shared
is_shared_address_space_iff address = (
  λ h. parts_shared_sound (split_on b'.' address) h,
  λ x.
      let (p, q, r, t, e, k) = x in
      rw e (
        octets_shared_complete (octet p) (octet q) (octet r) (octet t) (octet-bound r)
          (octet-bound t) k),
)
