-- ===== src/Tools/Shape.antt =====
-- tools/common.py and tools/domains.py: the shape of the replies of the tools.
pub mod Domains
pub mod Core
pub mod Policies
pub mod Security
pub mod Diagnostics
pub mod Routing
pub mod Monitoring
pub mod SiteConfig
pub mod Commands
pub mod Every
pub mod Tests
pub mod Find
pub mod Capabilities
use prisma_sdwan_mcp.Prelude.Int.{pos}
use prisma_sdwan_mcp.Prelude.{
  if◌then◌else◌, Option-cases, is_empty, ℕ, String, ◌≡◌, refl, subst, inl, inr, Bool, false, not,
  Option, none, some, List, [], ◌∷◌, str_eq,
}
use prisma_sdwan_mcp.Prelude.Text.{Text, codes}
use prisma_sdwan_mcp.Prelude.Result.{
  Result, err, ok, raise_absurd, returned_eq, Result-cases, none_absurd,
}
use prisma_sdwan_mcp.Errors.{Failure, resolution, capability, registry, unexpected}
use prisma_sdwan_mcp.Value.{
  Value, null, bool, int, real, str, list, dict, Fields, end, field, get, get_or_null, has,
}
use prisma_sdwan_mcp.Common.{
  pick_details, is_429, upstream_error, fail_from_upstream, merge_fields, candidates_value,
  handle_error,
}
use prisma_sdwan_mcp.Response.Shape.{IsError, IsReply, structured_error-IsError, IsApart}
use prisma_sdwan_mcp.Response.Shape.Replies.{collection_json-IsReply, single_json-IsReply}
use prisma_sdwan_mcp.Tools.{Log, Toolbox, Step, return, raising, continue, ◌>>=◌, try_tool}
use prisma_sdwan_mcp.Tools.Replies.{Paging, refusal, listing, single, unless_failed}
use prisma_sdwan_mcp.Resolver.Records.{to_text}

pub handle_error-IsError :
    (text : Failure → Text) (tool : Text) (e : Failure) (extra : Fields)
    → IsError tool (handle_error text tool e extra)
unfolding handle_error
handle_error-IsError text tool (resolution m candidates) extra =
    let several = not (is_empty candidates) in
    structured_error-IsError (if several then codes "ambiguous_match" else codes "not_found")
      (text (resolution m candidates)) tool (int (pos (if several then 409 else 404)))
      (merge_fields (field "candidates" (candidates_value candidates) end) extra)
handle_error-IsError text tool (capability m) extra =
    structured_error-IsError (codes "invalid_capability_request") (text (capability m)) tool
      (int (pos 400)) extra
handle_error-IsError text tool (registry m) extra =
    structured_error-IsError (codes "invalid_argument") (text (registry m)) tool (int (pos 400))
      extra
handle_error-IsError text tool (unexpected name) extra =
    structured_error-IsError (codes "internal_error") (codes "unexpected server error") tool
      (int (pos 500)) (merge_fields (field "exception" (str name) end) extra)

pub refusal-IsError :
    (code message : String) (tool : Text) (status : ℕ)
    → IsError tool (refusal code message tool status)
unfolding refusal
refusal-IsError code message tool status = structured_error-IsError _ _ tool _ end

-- Extra entries whose keys are known are apart.
pub apart :
    {key : String} {extra : Fields}
    → str_eq key "tool" ≡ false
    → str_eq key "contract_version" ≡ false
    → has "tool" extra ≡ false
    → has "contract_version" extra ≡ false
    → IsApart key extra
apart h k l m = record { not_tool = h; not_version = k; no_tool = l; no_version = m }

-- What holds of whatever a step returns.
pub record Yields {A : Type 0} (P : A → Type 0) (m : Step A) : Type 0 where
  pub yielded : (log : Log) (a : A) → (m log).0 ≡ ok a → P a

module _ {A : Type 0} (P : A → Type 0) where
  pub return-Yields : (a : A) → P a → Yields P (return a)
  return-Yields a p = record { yielded = λ log b e. subst P (returned_eq e) p }

  pub raising-Yields : (r : Result Failure A) → ((a : A) → r ≡ ok a → P a) → Yields P (raising r)
  raising-Yields r each = record { yielded = λ log a e. each a e }

  pub bind-Yields :
      {B : Type 0} (m : Step B) (next : B → Step A)
      → ((x : B) → Yields P (next x))
      → Yields P (m >>= next)
  unfolding ◌>>=◌ continue
  bind-Yields {B} m next each = record { yielded = λ log a e. go (m log) a e }
    where
      go : (r : Result Failure B × Log) (a : A) → (continue r next).0 ≡ ok a → P a
      go (ok x, log) a e = (each x).yielded log a e
      go (err f, log) a e = raise_absurd e

-- The same with what the first step yields.
pub chain-Yields :
    {A B : Type 0} (Q : B → Type 0) (P : A → Type 0) (m : Step B) (next : B → Step A)
    → Yields Q m
    → ((x : B) → Q x → Yields P (next x))
    → Yields P (m >>= next)
unfolding ◌>>=◌ continue
chain-Yields {A} {B} Q P m next first each = record {
  yielded = λ log a e. go (m log) (first.yielded log) a e;
}
  where
    go :
        (r : Result Failure B × Log)
        → ((x : B) → r.0 ≡ ok x → Q x)
        → (a : A) → (continue r next).0 ≡ ok a
        → P a
    go (ok x, log) h a e = (each x (h x refl)).yielded log a e
    go (err f, log) h a e = raise_absurd e

pub refused-Yields :
    (code message : String) (tool : Text) (status : ℕ)
    → Yields (IsReply tool) (return (refusal code message tool status))
refused-Yields code message tool status =
    return-Yields (IsReply tool) _ (inr (refusal-IsError code message tool status))

module _ (b : Toolbox) where
  pub try_tool-IsReply :
      (tool : Text) (m : Step Fields)
      → Yields (IsReply tool) m
      → (log : Log) → IsReply tool (try_tool b tool m log).0
  unfolding try_tool
  try_tool-IsReply tool m replies log = elim (Result-cases ((m log).0)) [
    | inl (e, f) ↦ rw (try_tool, f) (inr (handle_error-IsError b.text tool e end))
    | inr (reply, f) ↦ rw (try_tool, f) (replies.yielded log reply f)
  ]

  pub listing-Yields :
      (tool summary : Text) (key : String) (paging : Paging) (extra : Fields) (budget : Option ℕ)
      (full : Bool) (items_ : List Value)
      → IsApart key extra
      → Yields (IsReply tool) (listing b tool summary key paging extra budget full items_)
  unfolding listing
  listing-Yields tool summary key paging extra budget full items_ apart =
      raising-Yields (IsReply tool) _
        (λ fs e. collection_json-IsReply b.repr b.env b.now _ items_ apart fs e)

  pub single-Yields :
      (tool summary : Text) (key : String) (item : Value) (extra : Fields)
      → IsApart key extra
      → Yields (IsReply tool) (single b tool summary key item extra)
  unfolding single
  single-Yields tool summary key item extra apart =
      raising-Yields (IsReply tool) _
        (λ fs e. single_json-IsReply b.repr b.env b.now tool summary key item extra apart fs e)

  fail_from_upstream-IsError :
      (tool : Text) (v : Value) (error : Fields)
      → fail_from_upstream b.repr tool v ≡ some error
      → IsError tool error
  unfolding fail_from_upstream upstream_error
  fail_from_upstream-IsError tool (dict fs) error e = elim (Option-cases (get "error" fs)) [
    | inl none_ ↦ let no : none ≡ some error = rw (fail_from_upstream, none_) at e in none_absurd no
    | inr (v, f) ↦
        let same : upstream_error b.repr tool v fs ≡ error = cc (rw (fail_from_upstream, f) at e) in
        subst (IsError tool) same (
          structured_error-IsError
            (if is_429 (get_or_null "status_code" fs)
              then codes "rate_limited"
              else codes "upstream_error")
            (to_text b.repr v) tool (get_or_null "status_code" fs)
            (pick_details ("retry_count" ∷ "elapsed_seconds" ∷ []) fs))
  ]
  fail_from_upstream-IsError tool null error e = none_absurd e
  fail_from_upstream-IsError tool (bool x) error e = none_absurd e
  fail_from_upstream-IsError tool (int z) error e = none_absurd e
  fail_from_upstream-IsError tool (real t) error e = none_absurd e
  fail_from_upstream-IsError tool (str t) error e = none_absurd e
  fail_from_upstream-IsError tool (list vs) error e = none_absurd e

  pub unless_failed-Yields :
      (tool : Text) (data_ : Value) (next : Step Fields)
      → Yields (IsReply tool) next
      → Yields (IsReply tool) (unless_failed b tool data_ next)
  unfolding unless_failed
  unless_failed-Yields tool data_ next replies =
      elim (Option-cases (fail_from_upstream b.repr tool data_)) [
        | inl e ↦ rw (unless_failed, e) replies
        | inr (error, e) ↦
            rw (unless_failed, e)
              (return-Yields (IsReply tool) error
                (inr (fail_from_upstream-IsError tool data_ error e)))
      ]
