-- ===== src/Cli/Ssh.antt =====
-- cli/ssh.py: one SSH session with a device. The connection (Netmiko), its factory and the probe are
-- parameters over a state of the world; an exception is its class and its text.
pub mod Truncate
pub mod Output
pub mod Paging
pub mod Verdict
pub mod Session
pub mod Execute
pub mod Order
pub mod Results
pub mod Watched
pub mod Sent
pub mod Credentials
pub mod Tests
use prisma_sdwan_mcp.Prelude.Text.{Text}
use prisma_sdwan_mcp.Prelude.{
  ltb, leb, ◌==◌, if◌then◌else◌, length, take, ℕ, suc, ◌+◌, ◌-◌, ◌*◌, ◌/◌, ◌%◌, max, Bool, true,
  false, Option, none, some, List, [], ◌∷◌, ◌++◌,
}

-- The UTF-8 bytes of one code point.
unfoldable pub utf8 : ℕ → List ℕ
utf8 c =
    if ltb c 0x80
    then c ∷ []
    else if ltb c 0x800
    then (0xc0 + c / 0x40) ∷ (0x80 + c % 0x40) ∷ []
    else if ltb c 0x10000
    then (0xe0 + c / 0x1000) ∷ (0x80 + c / 0x40 % 0x40) ∷ (0x80 + c % 0x40) ∷ []
    else (0xf0 + c / 0x40000)
      ∷ (0x80 + c / 0x1000 % 0x40)
      ∷ (0x80 + c / 0x40 % 0x40)
      ∷ (0x80 + c % 0x40)
      ∷ []

unfoldable pub encode : Text → List ℕ
unfolding utf8
encode [] = []
encode (c ∷ s) = utf8 c ++ encode s

-- `decode("utf-8", errors="ignore")` on the beginning of an encoded text: a sequence that the end
-- cuts off is left out.
unfoldable pub decode : List ℕ → Text
decode [] = []
decode (a ∷ []) = if ltb a 0x80 then a ∷ [] else []
decode (a ∷ b ∷ []) =
    if ltb a 0x80
    then a ∷ decode (b ∷ [])
    else if ltb a 0xe0
    then ((a - 0xc0) * 0x40 + (b - 0x80)) ∷ []
    else []
decode (a ∷ b ∷ c ∷ []) = elim (ltb a 0x80) [
  | true ↦ a ∷ decode (b ∷ c ∷ [])
  | false ↦ elim (ltb a 0xe0) [
    | true ↦ ((a - 0xc0) * 0x40 + (b - 0x80)) ∷ decode (c ∷ [])
    | false ↦ if ltb a 0xf0 then ((a - 0xe0) * 0x1000 + (b - 0x80) * 0x40 + (c - 0x80)) ∷ [] else []
  ]
]
decode (a ∷ b ∷ c ∷ d ∷ s) = elim (ltb a 0x80) [
  | true ↦ a ∷ decode (b ∷ c ∷ d ∷ s)
  | false ↦ elim (ltb a 0xe0) [
    | true ↦ ((a - 0xc0) * 0x40 + (b - 0x80)) ∷ decode (c ∷ d ∷ s)
    | false ↦ elim (ltb a 0xf0) [
      | true ↦ ((a - 0xe0) * 0x1000 + (b - 0x80) * 0x40 + (c - 0x80)) ∷ decode (d ∷ s)
      | false ↦
          ((a - 0xf0) * 0x40000 + (b - 0x80) * 0x1000 + (c - 0x80) * 0x40 + (d - 0x80)) ∷ decode s
    ]
  ]
]

-- `bytes.rfind(b"\n")`; `none` for -1.
unfoldable pub last_newline : List ℕ → Option ℕ
last_newline [] = none
last_newline (b ∷ s) =
    let later = last_newline s in
    elim later [ some i ↦ some (suc i) | none ↦ if b == 10 then some 0 else none ]

-- The head that is kept: cut at the last line end, if that is close to the cap.
cut_at_line : ℕ → List ℕ → List ℕ
unfolding last_newline
cut_at_line max_bytes head = elim (last_newline head) [
  | none ↦ head
  | some i ↦ if leb (max_bytes - max 1 (max_bytes / 10)) i then take i head else head
]

pub record Truncated : Type 0 where
  pub kept : Text
  pub total_bytes : ℕ
  pub truncated : Bool

-- `_truncate_output`
unfoldable pub truncate_output : Text → ℕ → Truncated
unfolding encode decode cut_at_line
truncate_output output max_bytes =
    let total = length (encode output) in
    if leb total max_bytes
    then record { kept = output; total_bytes = total; truncated = false }
    else record {
      kept = decode (cut_at_line max_bytes (take max_bytes (encode output)));
      total_bytes = total;
      truncated = true;
    }
