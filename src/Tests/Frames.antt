-- ===== src/Tests/Frames.antt =====
-- A poller and its clients, at the theorems about them.
use pi_mcp.Prelude.{
  ℕ, ◌+◌, ◌≤◌, ◌≡◌, refl, Bool, true, not, ◌&&◌, ◌||◌, ◌⊎◌, String, Option, none, some, List, [],
  ◌∷◌, ◌++◌, map, same, ltb, mem, length,
}
use pi_mcp.Prelude.Sort.{sort_by}
use pi_mcp.Model.{Bytes}
use pi_mcp.Dashboard.State.{DashboardState, Seen}
use pi_mcp.Dashboard.Hub.{Client, new_hub, hub_buffer, subscribe}
use pi_mcp.Dashboard.Hub.Clients.{Step, subscribed, broadcasted, cancelled, received, run, client}
use pi_mcp.Dashboard.Hub.Served.{sent_to, Thinned, run-subscribe}
use pi_mcp.Dashboard.Poller.{Turn, new_poller, no_watches, poll, refresh_watches}
use pi_mcp.Dashboard.Poller.Watches.{Refresh, refreshes, times, refreshes_lem}
use pi_mcp.Dashboard.Poller.Frames.{built, changes, text_of, last_of, poll_lem}

abbrev hub_steps : List Step
hub_steps =
    broadcasted (1 ∷ [])
    ∷ subscribed (9 ∷ [])
    ∷ received 0
    ∷ broadcasted (2 ∷ [])
    ∷ cancelled 0
    ∷ broadcasted (3 ∷ [])
    ∷ []

run-subscribe_example :
    (c : Client) × (ks : List Bytes) × (client 0
        (run hub_steps (subscribe (7 ∷ []) new_hub)).clients
      ≡ some c)
    × (c.written ++ c.queue ≡ (7 ∷ []) ∷ ks)
    × Thinned ks (sent_to 0 hub_steps)
    × (length c.queue ≤ hub_buffer)
    × ((ltb hub_buffer (length (sent_to 0 hub_steps)) ≡ true) ⊎ (ks ≡ sent_to 0 hub_steps))
run-subscribe_example = run-subscribe (7 ∷ []) new_hub hub_steps

-- A state is written as its time and the number of its jobs.
abbrev encode : DashboardState → Bytes
encode st = st.generated_at ∷ length st.jobs ∷ []

abbrev turn_at : Option (List Seen) → ℕ → Turn
turn_at reading now = record { reading = reading; now = now; works = λ dir. true }

abbrev poll_turns : List Turn
poll_turns = turn_at (some []) 1 ∷ turn_at none 2 ∷ turn_at (some []) 3 ∷ []

poll_lem_example :
    let sts = built "/state" poll_turns in
    ((poll encode (λ b. b) "/db" "/state" poll_turns new_poller).1
      ≡ map encode (changes encode none sts))
    × (text_of encode (last_of encode none (changes encode none sts))
        ≡ text_of encode (last_of encode none sts))
poll_lem_example = poll_lem encode (λ b. b) (λ a b p. p) "/db" "/state" poll_turns

one_frame : (poll encode (λ b. b) "/db" "/state" poll_turns new_poller).1 ≡ (1 ∷ 0 ∷ []) ∷ []
unfolding poll sort_by
one_frame = refl

abbrev earlier : List Refresh
earlier = ((λ dir. true), some ("/db" ∷ "/a" ∷ [])) ∷ []

refreshes_lem_example :
    let w = refreshes earlier no_watches in
    let works : String → Bool = λ dir. same dir "/b" in
    let w' = refresh_watches works (some ("/db" ∷ "/b" ∷ [])) w in
    let end = refresh_watches works none w' in
    (mem "/a" w'.subs
      ≡ (mem "/a" ("/db" ∷ "/b" ∷ []) && (mem "/a" w.subs || (not (same "/a" "") && works "/a"))))
    × (times "/a" w'.subs ≤ 1)
    × (times "/a" w'.opened ≡ times "/a" w'.stopped + times "/a" w'.subs)
    × (times "/a" end.opened ≡ times "/a" end.stopped)
refreshes_lem_example = refreshes_lem earlier (λ dir. same dir "/b") ("/db" ∷ "/b" ∷ []) "/a"
