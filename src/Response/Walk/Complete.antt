-- ===== src/Response/Walk/Complete.antt =====
-- response.py: following the cursors of `collection_json` leaves no record out.
use prisma_sdwan_mcp.Prelude.Text.{Text, text_eq_refl}
use prisma_sdwan_mcp.Prelude.Int.{pos, negsuc}
use prisma_sdwan_mcp.Prelude.Result.{ok}
use prisma_sdwan_mcp.Prelude.{
  ltb, leb, if◌then◌else◌, le→leb, ltb→lt, Bool-cases, length, take, drop, length-append,
  drop-length, length-nil, take-drop, ℕ, zero, suc, ◌^◌, ◌≤◌, ◌<◌, ◌≡◌, refl, sym, ap, ◌∙◌, ◌⊎◌,
  inl, inr, Option, none, some, List, [], ◌∷◌, ◌++◌, append-nil, append_assoc, arith,
}
use prisma_sdwan_mcp.Config.{Env}
use prisma_sdwan_mcp.Resolver.Records.{decimal}
use prisma_sdwan_mcp.Response.Collection.{
  Listing, page_limit, stub, final_payload, reply_for, page_at, taken_at, page_of, listing_from,
  from_start, with_limit, collection_json,
}
use prisma_sdwan_mcp.Response.Cursor.{encode_cursor, decode_cursor}
use prisma_sdwan_mcp.Response.Cursor.RoundTrip.{decode_cursor-encode_cursor}
use prisma_sdwan_mcp.Response.Envelope.{identity, Taken, fitting, oversized, take_fitting}
use prisma_sdwan_mcp.Response.Lookup.{IsFresh, get-stub, get-final_payload}
use prisma_sdwan_mcp.Response.Outline.{json_bytes}
use prisma_sdwan_mcp.Response.Pages.{IsTaken, take_fitting-IsTaken}
use prisma_sdwan_mcp.Value.{Value, null, bool, int, real, str, list, dict, Fields, of_items, get}
use prisma_sdwan_mcp.Response.Walk.{
  listed, next_cursor, at_cursor, walk, here, next, AreShown, AreShown-append, length-decimal, less,
  items-of_items, IsReadable, IsStopped,
}

module _ (repr : Value → Text) (env : Env) (now : Text) (l : Listing) (rows : List Value)
    (limit budget : ℕ) (readable : IsReadable env l limit budget)
    (countable : length rows < 10 ^ 4300) (fresh : IsFresh l.key l.extra) where
  -- A call with a cursor that is read as an offset.
  pub collection_json-at :
      (c : Option Text) (start : ℕ)
      → decode_cursor c (length rows) l.tool ≡ some start
      → collection_json repr env now (at_cursor l c) rows
        ≡ ok (
            reply_for repr (page_of now l rows) l.extra budget (
              take_fitting
                (page_of now l rows)
                l.extra
                budget
                (take limit (drop start rows))
                []
                start))
  unfolding collection_json with_limit from_start listing_from taken_at page_at
  collection_json-at c start h =
      let largest = readable.largest in
      let wanted = readable.wanted in
      let allowed = readable.allowed in
      let bytes = readable.bytes in
      let every = readable.every_detail in
      rw (collection_json, largest, wanted, allowed, h, bytes, taken_at, page_at, every) refl

  -- The tool reads its own cursors.
  own_cursor :
      (n : ℕ)
      → n < length rows
      → decode_cursor (some (encode_cursor n l.tool)) (length rows) l.tool ≡ some n
  own_cursor n lt =
      let short : length (decimal n) ≤ 4300 =
        length-decimal 4299 n (less n (length rows) (10 ^ 4300) lt countable) in
      decode_cursor-encode_cursor n (length rows) l.tool l.tool readable.scalars short
      ∙ rw (text_eq_refl l.tool, le→leb n (length rows) (omega arith)) refl

  -- What a walk from a cursor on gives, if some records are left.
  abbrev Walked : ℕ → Option Text → List Value → Type 0
  Walked fuel c left =
      ((shown : List Value) × (walk repr env now l rows fuel c ≡ some shown)
        × AreShown repr left shown)
      ⊎ IsStopped repr env now l rows budget c left

  -- What stops the walk behind a reply stops the walk from that reply on.
  IsStopped-behind :
      (c : Option Text) (left taken rest vs : List Value) (fs : Fields) (c' : Text)
      → collection_json repr env now (at_cursor l c) rows ≡ ok fs
      → next_cursor fs ≡ some c'
      → listed l.key fs ≡ vs
      → left ≡ taken ++ rest
      → ((xs us : List Value) → AreShown repr xs us → AreShown repr (taken ++ xs) (vs ++ us))
      → IsStopped repr env now l rows budget (some c') rest
      → IsStopped repr env now l rows budget c left
  IsStopped-behind c left taken rest vs fs c' reply cursor_is listed_is parts shows s = record {
    seen = taken ++ s.seen;
    rest = s.rest;
    parts = parts ∙ ap (λ xs. taken ++ xs) s.parts ∙ sym (append_assoc taken s.seen s.rest);
    shown = vs ++ s.shown;
    stop = s.stop;
    follows = rw listed_is at (next fs c' reply cursor_is s.follows);
    shows = shows s.seen s.shown s.shows;
    exceeded = s.exceeded;
    page = s.page;
    behind = s.behind;
    page_left = s.page_left;
    offset = s.offset;
    at = s.at;
    over = s.over;
  }

  -- A reply that lists some of the records that are left, and what the walk behind it gives.
  after_reply :
      (fuel : ℕ) (c : Option Text) (seen left taken rest vs : List Value) (n : ℕ) (fs : Fields)
      → collection_json repr env now (at_cursor l c) rows ≡ ok fs
      → get l.key fs ≡ some (list (of_items vs))
      → get "next_cursor" fs
        ≡ (if ltb n (length rows) then some (str (encode_cursor n l.tool)) else none)
      → rows ≡ seen ++ left
      → left ≡ taken ++ rest
      → n ≡ length (seen ++ taken)
      → ((xs us : List Value) → AreShown repr xs us → AreShown repr (taken ++ xs) (vs ++ us))
      → (n < length rows
          → decode_cursor (some (encode_cursor n l.tool)) (length rows) l.tool ≡ some n
          → Walked fuel (some (encode_cursor n l.tool)) rest)
      → Walked (suc fuel) c left
  unfolding walk listed next_cursor
  after_reply fuel c seen left taken rest vs n fs reply its_items its_cursor whole parts offset
        shows later =
      elim (Bool-cases (ltb n (length rows))) [
        | inl e ↦
            let lt : n < length rows = ltb→lt _ _ e in
            let cursor_is : next_cursor fs ≡ some (encode_cursor n l.tool) =
              rw (next_cursor, its_cursor, e) refl in
            elim (later lt (own_cursor n lt)) [
              | inl (us, walked, shown) ↦ inl (
                vs ++ us,
                rw (walk, reply, cursor_is, walked, listed_is) refl,
                rw parts (shows rest us shown),
              )
              | inr stopped ↦ inr (
                  IsStopped-behind c left taken rest vs fs (encode_cursor n l.tool) reply cursor_is
                    listed_is parts shows stopped)
            ]
        | inr e ↦
            let none_left : length rest ≡ 0 = ground (
              arith,
              ap length whole,
              ap length parts,
              length-append seen left,
              length-append taken rest,
              length-append seen taken,
            ) in
            let cursor_is : next_cursor fs ≡ none = rw (next_cursor, its_cursor, e) refl in
            inl (
              vs,
              rw (walk, reply, cursor_is, listed_is) refl,
              rw (append-nil vs, ← length-nil rest none_left, ← parts) at (shows [] [] tt),
            )
      ]
    where
      listed_is : listed l.key fs ≡ vs
      listed_is = rw (listed, its_items) (items-of_items vs)

  positive_limit : 1 ≤ limit
  unfolding page_limit
  positive_limit = go readable.asked readable.allowed
    where
      go : (v : Value) → page_limit readable.most v ≡ some limit → 1 ≤ limit
      go (int (pos n)) h = ground arith
      go (int (negsuc n)) h = cc
      go null h = cc
      go (bool b) h = cc
      go (real t) h = cc
      go (str t) h = cc
      go (list vs) h = cc
      go (dict fs) h = cc

  -- The walk behind a reply that took some of the records that are left.
  resume :
      (fuel : ℕ) (seen left taken rest : List Value) (n : ℕ)
      → rows ≡ seen ++ left
      → left ≡ taken ++ rest
      → n ≡ length (seen ++ taken)
      → length left < suc fuel
      → (left ≡ []) ⊎ (length seen < n)
      → ((c' : Option Text) (seen' left' : List Value)
          → rows ≡ seen' ++ left'
          → decode_cursor c' (length rows) l.tool ≡ some (length seen')
          → length left' < fuel
          → Walked fuel c' left')
      → n < length rows
      → decode_cursor (some (encode_cursor n l.tool)) (length rows) l.tool ≡ some n
      → Walked fuel (some (encode_cursor n l.tool)) rest
  resume fuel seen left taken rest n whole parts offset enough progress later lt own =
      later (some (encode_cursor n l.tool)) (seen ++ taken) rest
        (whole ∙ ap (λ xs. seen ++ xs) parts ∙ sym (append_assoc seen taken rest))
        (own ∙ ap some offset) (fewer progress)
    where
      fewer : (left ≡ []) ⊎ (length seen < n) → length rest < fuel
      fewer (inl e) = absurd (
          omega (
            arith,
            ap length e,
            ap length whole,
            length-append seen left,
            length-append seen taken,
          ))
      fewer (inr p) =
          omega (arith, ap length parts, length-append taken rest, length-append seen taken)

  page_parts :
      (left front more : List Value)
      → take limit left ≡ front ++ more
      → left ≡ front ++ (more ++ drop limit left)
  page_parts left front more e =
      sym (take-drop limit left)
      ∙ ap (λ xs. xs ++ drop limit left) e
      ∙ append_assoc front more (drop limit left)

  empty_page : (left : List Value) → take limit left ≡ [] → left ≡ []
  empty_page left h = go limit left positive_limit h
    where
      go : (k : ℕ) (left : List Value) → 1 ≤ k → take k left ≡ [] → left ≡ []
      go k [] h e = refl
      go zero (v ∷ vs) h e = absurd (omega arith)
      go (suc k) (v ∷ vs) h e = cc

  -- One reply, for what the loop took of the records that are left.
  one_reply :
      (fuel : ℕ) (c : Option Text) (seen left : List Value) (t : Taken)
      → IsTaken (take limit left) (length seen) t
      → collection_json repr env now (at_cursor l c) rows
        ≡ ok (reply_for repr (page_of now l rows) l.extra budget t)
      → rows ≡ seen ++ left
      → length left < suc fuel
      → ((c' : Option Text) (seen' left' : List Value)
          → rows ≡ seen' ++ left'
          → decode_cursor c' (length rows) l.tool ≡ some (length seen')
          → length left' < fuel
          → Walked fuel c' left')
      → Walked (suc fuel) c left
  unfolding reply_for
  one_reply fuel c seen left (oversized r n) (more, page_is, offset) reply whole enough later =
      let p = page_of now l rows in
      let rest = more ++ drop limit left in
      let parts : left ≡ (r ∷ []) ++ rest = page_parts left (r ∷ []) more page_is in
      let at : n ≡ length (seen ++ r ∷ []) = omega (arith, length-append seen (r ∷ [])) in
      let (its_items, its_cursor) = get-stub p l.extra fresh repr r n in
      after_reply fuel c seen left (r ∷ []) rest (dict (identity repr r) ∷ []) n
        (stub repr p l.extra r n) reply its_items its_cursor whole parts at
        (λ xs us h. (inr refl, h))
        (resume fuel seen left (r ∷ []) rest n whole parts at enough (inr (omega arith)) later)
  one_reply fuel c seen left (fitting selected n) (more, page_is, offset, progress) reply whole
        enough later =
      let p = page_of now l rows in
      let rest = more ++ drop limit left in
      let parts : left ≡ selected ++ rest = page_parts left selected more page_is in
      let at : n ≡ length (seen ++ selected) = omega (arith, length-append seen selected) in
      let (its_items, its_cursor) = get-final_payload p l.extra fresh selected n in
      elim (Bool-cases (leb (json_bytes (dict (final_payload p l.extra selected n))) budget)) [
        | inl e ↦
            after_reply fuel c seen left selected rest selected n
              (final_payload p l.extra selected n) (rw (reply_for, e) at reply) its_items its_cursor
              whole parts at (λ xs us h. AreShown-append repr selected xs us h)
              (resume fuel seen left selected rest n whole parts at enough
                (elim progress [ inl none_left ↦ inl (empty_page left none_left) | inr q ↦ inr q ])
                later)
        | inr e ↦ inr (record {
          seen = [];
          rest = left;
          parts = refl;
          shown = [];
          stop = c;
          follows = here;
          shows = tt;
          exceeded = rw (reply_for, e) at reply;
          page = selected;
          behind = rest;
          page_left = parts;
          offset = n;
          at = ground (
            arith,
            ap length whole,
            ap length parts,
            length-append seen left,
            length-append selected rest,
          );
          over = ground (arith, e);
        })
      ]

  walk_from :
      (fuel : ℕ) (c : Option Text) (seen left : List Value)
      → rows ≡ seen ++ left
      → decode_cursor c (length rows) l.tool ≡ some (length seen)
      → length left < fuel
      → Walked fuel c left
  walk_from zero c seen left whole read enough = absurd (omega arith)
  walk_from (suc fuel) c seen left whole read enough =
      let behind : drop (length seen) rows ≡ left = rw whole (drop-length seen left) in
      let page = take limit left in
      let t = take_fitting (page_of now l rows) l.extra budget page [] (length seen) in
      one_reply fuel c seen left t
        (take_fitting-IsTaken (page_of now l rows) l.extra budget (length seen) page)
        (rw behind at (collection_json-at c (length seen) read)) whole enough (walk_from fuel)

  -- A client that follows the cursors of a listing with every detail, over at most as many replies
  -- as there are records and one more, is shown each record exactly once and in order, itself or by
  -- its identity; or the client comes, by the cursors of the replies, which show the records up to there
  -- in the same way, to the error for a page of the next records that is over the budget with the text
  -- about its cursor. The settings and the limit can be read, and the records' key and the extra
  -- entries do not hide the entries of the reply.
  pub walk-AreShown :
      ((shown : List Value) × (walk repr env now l rows (suc (length rows)) none ≡ some shown)
        × AreShown repr rows shown)
      ⊎ IsStopped repr env now l rows budget none rows
  walk-AreShown =
      walk_from (suc (length rows)) none [] rows refl (unfold decode_cursor in refl) (omega arith)
