-- ===== src/Cli/Run/Approved.antt =====
-- tools/cli.py: what a call of the tool sends to a device.
use prisma_sdwan_mcp.Prelude.{◌≡◌, true, Option}
use prisma_sdwan_mcp.Prelude.Text.{Text}
use prisma_sdwan_mcp.Prelude.Result.{Result}
use prisma_sdwan_mcp.Config.{Env}
use prisma_sdwan_mcp.Cli.Policy.{text, validate_command}
use prisma_sdwan_mcp.Cli.Address.{Address}
use prisma_sdwan_mcp.Cli.Ssh.Sent.{Records, SendsOnly}
use prisma_sdwan_mcp.Cli.Run.{Server}

-- A text that the policy accepts.
abbrev pub IsApproved : Text → Type 0
IsApproved t = (validate_command (text t)).allowed ≡ true

module _ {S Key : Type 0} (v : Server S Key) (env : Env) (r : Records v.net)
    (kept : (e : Text) (site : Option Text) (s : S)
      → r.sent (v.after_resolution e site s) ≡ r.sent s) where
  -- Every text that was sent between the two states is one that the policy accepts.
  abbrev pub OnlyApproved : S → S → Type 0
  OnlyApproved s s' = SendsOnly v.is_word v.net r IsApproved s s'
