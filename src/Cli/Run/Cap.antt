-- ===== src/Cli/Run/Cap.antt =====
-- tools/cli.py: the cap on each command's output.
use prisma_sdwan_mcp.Prelude.{
  leb, leb→le, Bool-cases, ℕ, ◌*◌, ◌/◌, ◌≤◌, min, max, ◌≡◌, inl, inr, arith, mul-div-le, mul-le-mul,
}
use prisma_sdwan_mcp.Cli.Run.{per_command_cap}

-- A cap that is no more than each command's part of the budget.
share_bound : (n k mr : ℕ) → k ≤ mr / max 1 n → n * k ≤ mr
share_bound n k mr h =
    omega (arith, mul-le-mul {n₁ = n} {n₂ = max 1 n} (omega arith) h, mul-div-le mr (max 1 n))

all_caps : (n mo mr : ℕ) → n * max 1024 (min mo (mr / max 1 n)) ≤ max (n * 1024) mr
all_caps n mo mr = elim (Bool-cases (leb 1025 (min mo (mr / max 1 n)))) [
  | inl e ↦
      let big = leb→le 1025 (min mo (mr / max 1 n)) e in
      let is : max 1024 (min mo (mr / max 1 n)) ≡ min mo (mr / max 1 n) = omega (arith, big) in
      rw is (omega (arith, share_bound n (min mo (mr / max 1 n)) mr (omega arith)))
  | inr e ↦
      let small : min mo (mr / max 1 n) ≤ 1024 = ground arith in
      let is : max 1024 (min mo (mr / max 1 n)) ≡ 1024 = omega (arith, small) in rw is (omega arith)
]

-- The cap is at least 1024 and at most the configured one, if that is not less; and for a batch of
-- one or more commands all caps together are no more than the budget of the response, or than 1024
-- for each command if that is more.
pub per_command_cap_bounds :
    (max_output max_response count : ℕ)
    → (1024 ≤ per_command_cap max_output max_response count)
      × (per_command_cap max_output max_response count ≤ max 1024 max_output)
      × (count * per_command_cap max_output max_response count ≤ max (count * 1024) max_response)
unfolding per_command_cap
per_command_cap_bounds mo mr n = (omega arith, omega arith, all_caps n mo mr)
