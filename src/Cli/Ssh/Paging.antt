-- ===== src/Cli/Ssh/Paging.antt =====
-- cli/ssh.py: the pager's marks in an output that was read.
use prisma_sdwan_mcp.Prelude.{Bool-cases, ℕ, zero, suc, ◌≡◌, inl, inr, false}
use prisma_sdwan_mcp.Prelude.Text.{Text}
use prisma_sdwan_mcp.Prelude.Result.{ok}
use prisma_sdwan_mcp.Cli.Ssh.Output.{
  Device, then_run, then_run_parts, max_pagination_pages, has_pagination_marker, completion_prompt,
  next_page, pages, send_command_with_pagination,
}

module _ {S : Type 0} (d : Device S) where
  pages-unmarked :
      (left : ℕ) (expect output t : Text) (s s' : S)
      → pages d left expect output s ≡ (ok t, s')
      → has_pagination_marker t ≡ false
  unfolding pages
  pages-unmarked zero expect output t s s' h = elim (Bool-cases (has_pagination_marker output)) [
    | inl e ↦ cc (rw (pages, e) at h)
    | inr e ↦ let same : output ≡ t = cc (rw (pages, e) at h) in rw (← same) e
  ]
  pages-unmarked (suc left) expect output t s s' h =
      elim (Bool-cases (has_pagination_marker output)) [
        | inl e ↦
            let (more, s1, k1, h1) =
              then_run_parts (next_page d expect output) (pages d left expect) s
                (rw (pages, e) at h) in
            pages-unmarked left expect more t s1 s' h1
        | inr e ↦ let same : output ≡ t = cc (rw (pages, e) at h) in rw (← same) e
      ]

  -- A command that is answered, with the prompt first, is answered by a text that holds none of
  -- the pager's marks.
  pub send_command_with_pagination-unmarked :
      (command t : Text) (s s' : S)
      → send_command_with_pagination d command s ≡ (ok t, s')
      → has_pagination_marker t ≡ false
  unfolding send_command_with_pagination
  send_command_with_pagination-unmarked command t s s' h =
      let (expect, s1, k1, h1) =
        then_run_parts (completion_prompt d)
          (λ expect. then_run (d.send_command command expect) (pages d max_pagination_pages expect))
          s h in
      let (output, s2, k2, h2) =
        then_run_parts (d.send_command command expect) (pages d max_pagination_pages expect) s1
          h1 in
      pages-unmarked max_pagination_pages expect output t s2 s' h2
