-- ===== src/Tests/Tailnets.antt =====
-- A dashboard whose host joins its tailnet while it waits.
use pi_mcp.Prelude.{
  ◌≡◌, refl, String, Option, none, some, List, [], ◌∷◌, same, if◌then◌else◌, string_dec,
}
use pi_mcp.Worktree.{trim_space, trim_front, trim_end}
use pi_mcp.Dashboard.Tailscale.{
  Ip4, in_cgnat, split_line, parse_lines, parse_tailscale_ip, detect, wait_for_tailscale_ip,
  resolve_addr,
}
use pi_mcp.Dashboard.Tailscale.Bound.{Bound, resolve_addr-Bound}

abbrev parse_ip : String → Option Ip4
parse_ip s =
    if same s "100.101.1.2"
    then some (record { first = 100; second = 101; third = 1; fourth = 2 })
    else if same s "192.168.0.1"
    then some (record { first = 192; second = 168; third = 0; fourth = 1 })
    else none

-- No command at first, then an address outside of the range, then one inside of it.
abbrev detections : List (List (Option String))
detections =
    (none ∷ none ∷ [])
    ∷ (none ∷ some "192.168.0.1\n" ∷ [])
    ∷ (some "\nfd7a::1\n100.101.1.2\n" ∷ [])
    ∷ []

bound_at : resolve_addr parse_ip "" detections ≡ some "100.101.1.2:7777"
unfolding resolve_addr wait_for_tailscale_ip detect parse_tailscale_ip parse_lines split_line
    in_cgnat trim_space trim_front trim_end string_dec
bound_at = refl

resolve_addr-Bound_example : Bound parse_ip detections (resolve_addr parse_ip "" detections)
resolve_addr-Bound_example = resolve_addr-Bound parse_ip detections
