-- ===== src/Dashboard/Tailscale/Bound.antt =====
-- Which address the dashboard binds.
use pi_mcp.Prelude.{
  ◌≡◌, ◌≤◌, ◌<◌, refl, true, String, Option, none, some, List, [], ◌∷◌, arith, same, if◌then◌else◌,
  if_cases, string_dec, string_dec,
}
use pi_mcp.Prelude.Text.{joined}
use pi_mcp.Worktree.{trim_space}
use pi_mcp.Dashboard.Tailscale.{
  Ip4, in_cgnat, split_line, default_port, parse_lines, parse_tailscale_ip, detect,
  wait_for_tailscale_ip, resolve_addr,
}

-- An address of the tailnet: 100.64.0.0 to 100.127.255.255.
abbrev pub IsTailnet : Ip4 → Type 0
IsTailnet ip = (ip.first ≡ 100) × (64 ≤ ip.second) × (ip.second < 128)

in_cgnat→IsTailnet : (ip : Ip4) → in_cgnat ip ≡ true → IsTailnet ip
unfolding in_cgnat
in_cgnat→IsTailnet ip h = ground arith

module _ (parse_ip : String → Option Ip4) where
  abbrev pub Parses : String → Type 0
  Parses s = (ip : Ip4) × (parse_ip s ≡ some ip) × IsTailnet ip

  abbrev Given : Option String → Type 0
  Given none = Unit {0}
  Given (some s) = Parses s

  parse_lines-Given : (ls : List String) → Given (parse_lines parse_ip ls)
  unfolding parse_lines
  parse_lines-Given [] = tt
  parse_lines-Given (line ∷ ls) =
      let s = trim_space line in
      if_cases Given (same s "") _ _ (λ _. parse_lines-Given ls)
        (λ _. by_address s (parse_ip s) refl (parse_lines parse_ip ls) (parse_lines-Given ls))
    where
      by_address :
          (s : String) (o : Option Ip4)
          → parse_ip s ≡ o
          → (rest : Option String) → Given rest
          → Given (elim o [ none ↦ rest | some ip ↦ if in_cgnat ip then some s else none ])
      by_address s none e rest h = h
      by_address s (some ip) e rest h =
          if_cases Given (in_cgnat ip) _ _ (λ t. (ip, e, in_cgnat→IsTailnet ip t)) (λ _. tt)

  detect-Given : (candidates : List (Option String)) → Given (detect parse_ip candidates)
  unfolding detect parse_tailscale_ip
  detect-Given [] = tt
  detect-Given (none ∷ candidates) = detect-Given candidates
  detect-Given (some out ∷ candidates) =
      let (head, rest) = split_line out in parse_lines-Given (head ∷ rest)

  wait-Given :
      (detections : List (List (Option String))) → Given (wait_for_tailscale_ip parse_ip detections)
  unfolding wait_for_tailscale_ip
  wait-Given [] = tt
  wait-Given (candidates ∷ later) =
      by_detection (detect parse_ip candidates) (detect-Given candidates)
        (wait_for_tailscale_ip parse_ip later) (wait-Given later)
    where
      by_detection :
          (o : Option String)
          → Given o
          → (rest : Option String) → Given rest
          → Given (elim o [ none ↦ rest | some ip ↦ some ip ])
      by_detection none h rest k = k
      by_detection (some ip) h rest k = h

  abbrev pub AllFail : List (List (Option String)) → Type 0
  AllFail [] = Unit {0}
  AllFail (candidates ∷ later) = (detect parse_ip candidates ≡ none) × AllFail later

  -- What is bound: nothing only if every detection fails, and else a port of the tailnet.
  abbrev pub Bound : List (List (Option String)) → Option String → Type 0
  Bound detections none = AllFail detections
  Bound detections (some addr) =
      (ip : String) × Parses ip × (addr ≡ joined ip (joined ":" default_port))

  wait-AllFail :
      (detections : List (List (Option String)))
      → wait_for_tailscale_ip parse_ip detections ≡ none
      → AllFail detections
  unfolding wait_for_tailscale_ip
  wait-AllFail [] h = tt
  wait-AllFail (candidates ∷ later) h =
      by_detection (detect parse_ip candidates) (wait_for_tailscale_ip parse_ip later)
        (wait-AllFail later) h
    where
      by_detection :
          (o rest : Option String)
          → (rest ≡ none → AllFail later)
          → (elim o [ none ↦ rest | some ip ↦ some ip ]) ≡ none
          → (o ≡ none) × AllFail later
      by_detection none rest k e = (refl, k e)
      by_detection (some ip) rest k e = absurd (cc e)

  -- Without an explicit address, whatever the commands print: if the dashboard binds an address, it is
  -- the port 7777 of a text that parses as an address between 100.64.0.0 and 100.127.255.255; and it
  -- binds none only if every detection before the end has failed.
  pub resolve_addr-Bound :
      (detections : List (List (Option String)))
      → Bound detections (resolve_addr parse_ip "" detections)
  unfolding resolve_addr string_dec
  resolve_addr-Bound detections =
      by_ip (wait_for_tailscale_ip parse_ip detections) refl (wait-Given detections)
    where
      by_ip :
          (o : Option String)
          → wait_for_tailscale_ip parse_ip detections ≡ o
          → Given o
          → Bound detections
              (elim o [ none ↦ none | some ip ↦ some (joined ip (joined ":" default_port)) ])
      by_ip none e k = wait-AllFail detections e
      by_ip (some ip) e k = (ip, k, refl)
