-- ===== src/Dashboard/Tailscale.antt =====
-- internal/dashboard/tailscale.go, and the bind address of cmd/pi-dashboard/main.go.
pub mod Bound
use Prim.Native.Char.{code}
use Prim.Native.String
use pi_mcp.Prelude.{
  ℕ, ◌*◌, ◌/◌, Bool, ◌&&◌, String, Option, none, some, List, [], ◌∷◌, ◌==◌, same, if◌then◌else◌,
}
use pi_mcp.Prelude.Text.{joined}
use pi_mcp.Worktree.{trim_space}

-- The bytes of an IPv4 address.
pub record Ip4 : Type 0 where
  pub first : ℕ
  pub second : ℕ
  pub third : ℕ
  pub fourth : ℕ

-- The test of the network 100.64.0.0/10: its mask keeps the first byte and two bits of the second.
unfoldable pub in_cgnat : Ip4 → Bool
in_cgnat ip = ip.first == 100 && (ip.second / 64) * 64 == 64

-- `strings.Split(s, "\n")`: the first line, and the lines behind it.
unfoldable pub split_line : String → String × List String
split_line Prim.Native.String.[] = (Prim.Native.String.[], [])
split_line (Prim.Native.String.◌∷◌ c s) =
    let (head, rest) = split_line s in
    if code c == 10
    then (Prim.Native.String.[], head ∷ rest)
    else (Prim.Native.String.◌∷◌ c head, rest)

abbrev pub default_port : String
default_port = "7777"

-- `parse_ip` is net.ParseIP with To4: `none` for a text that is no IPv4 address.
module _ (parse_ip : String → Option Ip4) where
  -- The first line with an address decides.
  unfoldable pub parse_lines : List String → Option String
  unfolding trim_space in_cgnat
  parse_lines [] = none
  parse_lines (line ∷ ls) =
      let s = trim_space line in
      let rest = parse_lines ls in
      if same s ""
      then rest
      else elim (parse_ip s) [ none ↦ rest | some ip ↦ if in_cgnat ip then some s else none ]

  unfoldable pub parse_tailscale_ip : String → Option String
  unfolding split_line parse_lines
  parse_tailscale_ip out = let (head, rest) = split_line out in parse_lines (head ∷ rest)

  -- What the command of each candidate prints; `none` where it fails.
  unfoldable pub detect : List (Option String) → Option String
  unfolding parse_tailscale_ip
  detect [] = none
  detect (none ∷ candidates) = detect candidates
  detect (some out ∷ candidates) = parse_tailscale_ip out

  -- The detections before the context ends.
  unfoldable pub wait_for_tailscale_ip : List (List (Option String)) → Option String
  unfolding detect
  wait_for_tailscale_ip [] = none
  wait_for_tailscale_ip (candidates ∷ later) =
      let rest = wait_for_tailscale_ip later in
      elim (detect candidates) [ none ↦ rest | some ip ↦ some ip ]

  -- The address of the flag, else the one of the tailnet.
  unfoldable pub resolve_addr : String → List (List (Option String)) → Option String
  unfolding wait_for_tailscale_ip
  resolve_addr explicit detections =
      if same explicit ""
      then elim (wait_for_tailscale_ip detections) [
        | none ↦ none
        | some ip ↦ some (joined ip (joined ":" default_port))
      ]
      else some explicit
