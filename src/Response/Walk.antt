-- ===== src/Response/Walk.antt =====
-- response.py: a client that follows the cursors of `collection_json`.
pub mod Tests
pub mod Complete
use prisma_sdwan_mcp.Prelude.{
  ltb, Bool-cases, length, ℕ, zero, suc, ◌+◌, ◌/◌, ◌%◌, ◌^◌, ◌≤◌, ◌<◌, String, ◌≡◌, refl, ap, ◌⊎◌,
  inl, inr, true, Option, none, some, List, [], ◌∷◌, ◌++◌, arith,
}
use prisma_sdwan_mcp.Prelude.Text.{Text}
use prisma_sdwan_mcp.Prelude.Result.{err, ok}
use prisma_sdwan_mcp.Config.{Env, get_max_page_size}
use prisma_sdwan_mcp.Value.{Value, str, list, dict, Fields, items, of_items, get}
use prisma_sdwan_mcp.Resolver.Records.{records, digits_from, decimal}
use prisma_sdwan_mcp.Cli.Ssh.Truncate.{AreScalars}
use prisma_sdwan_mcp.Response.Outline.{json_bytes}
use prisma_sdwan_mcp.Response.Envelope.{identity}
use prisma_sdwan_mcp.Response.Collection.{
  Listing, setting, page_limit, budget_exceeded, final_payload, page_of, response_budget,
  asked_limit, collection_json,
}

-- The records that a reply lists under a key.
unfoldable pub listed : String → Fields → List Value
unfolding get
listed key fs = elim (get key fs) [ some (list vs) ↦ items vs | _ ↦ [] ]

-- The next cursor of a reply.
unfoldable pub next_cursor : Fields → Option Text
unfolding get
next_cursor fs = elim (get "next_cursor" fs) [ some (str c) ↦ some c | _ ↦ none ]

abbrev pub at_cursor : Listing → Option Text → Listing
at_cursor l c = record {
  tool = l.tool;
  summary = l.summary;
  key = l.key;
  cursor = c;
  limit = l.limit;
  extra = l.extra;
  budget = l.budget;
  full = l.full;
}

module _ (repr : Value → Text) (env : Env) (now : Text) (l : Listing) (records : List Value) where
  -- All that the replies list, from a cursor on, one reply for each round.
  unfoldable pub walk : ℕ → Option Text → Option (List Value)
  walk zero c = none
  walk (suc fuel) c = elim (collection_json repr env now (at_cursor l c) records) [
    | err e ↦ none
    | ok fs ↦ elim (next_cursor fs) [
      | none ↦ some (listed l.key fs)
      | some c' ↦ elim (walk fuel (some c')) [
        | none ↦ none
        | some more ↦ some (listed l.key fs ++ more)
      ]
    ]
  ]

-- From one cursor to another, by the next cursor of each reply, with all that these replies list.
pub data Follows (repr : Value → Text) (env : Env) (now : Text) (l : Listing) (records : List Value)
    : Option Text → List Value → Option Text → Type 0 where
  here : {c : Option Text} → Follows repr env now l records c [] c
  next :
      {c d : Option Text} {vs : List Value} (fs : Fields) (c' : Text)
      → collection_json repr env now (at_cursor l c) records ≡ ok fs
      → next_cursor fs ≡ some c'
      → Follows repr env now l records (some c') vs d
      → Follows repr env now l records c (listed l.key fs ++ vs) d

-- What stands for the records: each of them, or what identifies it.
abbrev pub AreShown : (Value → Text) → List Value → List Value → Type 0
AreShown repr [] [] = Unit
AreShown repr (r ∷ rs) (v ∷ vs) = ((v ≡ r) ⊎ (v ≡ dict (identity repr r))) × AreShown repr rs vs
AreShown repr [] (v ∷ vs) = ⊥
AreShown repr (r ∷ rs) [] = ⊥

pub AreShown-append :
    (repr : Value → Text) (xs rs vs : List Value)
    → AreShown repr rs vs
    → AreShown repr (xs ++ rs) (xs ++ vs)
AreShown-append repr [] rs vs h = h
AreShown-append repr (x ∷ xs) rs vs h = (inl refl, AreShown-append repr xs rs vs h)

digits_length :
    (k fuel n : ℕ) (out : Text)
    → n < 10 ^ suc k
    → length (digits_from fuel n out) ≤ suc k + length out
unfolding digits_from
digits_length k zero n out h = omega arith
digits_length zero (suc fuel) n out h =
    let one : ltb n 10 ≡ true = ground arith in rw (digits_from, one) (omega arith)
digits_length (suc k) (suc fuel) n out h = elim (Bool-cases (ltb n 10)) [
  | inl e ↦ rw (digits_from, e) (omega arith)
  | inr e ↦
      let fewer : n / 10 < 10 ^ suc k = (omega arith) in
      rw (digits_from, e)
        (omega (arith, digits_length k fuel (n / 10) ((b'0' + n % 10) ∷ out) fewer))
]

pub length-decimal : (k n : ℕ) → n < 10 ^ suc k → length (decimal n) ≤ suc k
unfolding decimal
length-decimal k n h =
    let bound : length (digits_from (suc n) n []) ≤ suc k + 0 = digits_length k (suc n) n [] h in
    omega arith

less : (a b c : ℕ) → a < b → b < c → a < c
less a b c h k = omega arith

pub items-of_items : (vs : List Value) → items (of_items vs) ≡ vs
items-of_items [] = refl
items-of_items (v ∷ vs) = ap (λ l. v ∷ l) (items-of_items vs)

-- The settings of a call that lists every detail: the limit and the budget are read, the limit is
-- one that is allowed, and the tool's name is a text of Unicode code points.
pub record IsReadable (env : Env) (l : Listing) (limit budget : ℕ) : Type 0 where
  pub most : ℕ
  pub asked : Value
  pub largest : setting (get_max_page_size env) ≡ ok most
  pub wanted : asked_limit env l.limit ≡ ok asked
  pub allowed : page_limit most asked ≡ some limit
  pub bytes : response_budget env l.budget ≡ ok budget
  pub scalars : AreScalars l.tool
  pub every_detail : l.full ≡ true

-- The walk from a cursor on stops: the replies that follow from it show the first of the records that
-- are left, and the next reply is the error for a page, of records behind these, that is over the budget
-- with the text about its cursor.
pub record IsStopped (repr : Value → Text) (env : Env) (now : Text) (l : Listing)
    (records : List Value) (budget : ℕ) (c : Option Text) (left : List Value) : Type 0 where
  pub seen : List Value
  pub rest : List Value
  pub parts : left ≡ seen ++ rest
  pub shown : List Value
  pub stop : Option Text
  pub follows : Follows repr env now l records c shown stop
  pub shows : AreShown repr seen shown
  pub exceeded :
      collection_json repr env now (at_cursor l stop) records ≡ ok (budget_exceeded l.tool)
  pub page : List Value
  pub behind : List Value
  pub page_left : rest ≡ page ++ behind
  pub offset : ℕ
  pub at : offset + length behind ≡ length records
  pub over : budget < json_bytes (dict (final_payload (page_of now l records) l.extra page offset))
