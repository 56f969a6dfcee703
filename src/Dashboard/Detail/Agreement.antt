-- ===== src/Dashboard/Detail/Agreement.antt =====
-- The detail of a job against the row of its summary.
use pi_mcp.Prelude.{
  ℕ, suc, ◌≡◌, ◌⊎◌, refl, sym, ap, ◌∙◌, inl, inr, Bool, true, false, not, ◌&&◌, Option, none, some,
  List, [], ◌∷◌, map, arith, if◌then◌else◌, if_cases, length, subst,
}
use pi_mcp.Prelude.Clock.{ℤ, pos, sub_time, exceeds}
use pi_mcp.Config.{stale_threshold}
use pi_mcp.Model.{Bytes, Status, running, completed, Run, Agent, AuthoringInfo}
use pi_mcp.LiveStatus.{is_terminal}
use pi_mcp.Dashboard.State.{
  JobSummary, Seen, summarize, of_job, with_run, is_done, done_agents, tokens_from, add_int,
}
use pi_mcp.Dashboard.State
use pi_mcp.Dashboard.Detail.{
  AgentView, JobDetail, agent_view, is_completed, run_or_snapshot, of_run, build_detail,
}

abbrev pub done_views : List AgentView → ℕ
done_views [] = 0
done_views (v ∷ vs) = let later = done_views vs in if is_done v.status then suc later else later

abbrev pub view_tokens : ℤ → List AgentView → ℤ
view_tokens sum [] = sum
view_tokens sum (v ∷ vs) = view_tokens (add_int sum v.tokens) vs

length-map : (agents : List Agent) → length (map agent_view agents) ≡ length agents
length-map [] = refl
length-map (a ∷ agents) = ap suc (length-map agents)

done_views-map : (agents : List Agent) → done_views (map agent_view agents) ≡ done_agents agents
unfolding agent_view done_agents
done_views-map [] = refl
done_views-map (a ∷ agents) =
    ap (λ n. if is_done a.status then suc n else n) (done_views-map agents)

view_tokens-map :
    (agents : List Agent) (sum : ℤ)
    → view_tokens sum (map agent_view agents) ≡ tokens_from sum agents
unfolding agent_view tokens_from
view_tokens-map [] sum = refl
view_tokens-map (a ∷ agents) sum = view_tokens-map agents (add_int sum a.tokens)

completed_status : (s : Status) → (is_terminal s && is_completed s) ≡ true → s ≡ completed
completed_status Status.completed h = refl
completed_status _ h = ground arith

module _ {Any : Type 0} (decode_any : Bytes → Option Any) where
  -- A detail that agrees with its summary: on the number of agents, on those that are done and on
  -- their tokens. An authoring is that of a running job, and a result that of a completed one.
  abbrev pub Agrees : JobDetail Any → Type 0
  Agrees d =
      (d.summary.agents_total ≡ length d.agents)
      × (d.summary.agents_done ≡ done_views d.agents)
      × (d.summary.live_tokens ≡ view_tokens (pos 0) d.agents)
      × ((d.authoring ≡ none) ⊎ (d.summary.status ≡ running))
      × ((d.result ≡ none) ⊎ (d.summary.status ≡ completed))

  abbrev Bare : JobSummary → Type 0
  Bare js =
      (js.agents_total ≡ 0)
      × (js.agents_done ≡ 0)
      × (js.live_tokens ≡ pos 0)
      × ((js.blind_window ≡ false) ⊎ (js.status ≡ running))

  -- A job without a run has no agents, and is blind only while it runs.
  blind_running :
      (status : Status) (seen : Seen) (active : Bool) (now : ℕ)
      → Bare (State.without_run status seen.rec active now)
  unfolding State.without_run of_job
  blind_running Status.running seen active now =
      if_cases Bare (not active && exceeds (sub_time now seen.rec.started_at) stale_threshold) _ _
        (λ _. (refl, refl, refl, inl refl)) (λ _. (refl, refl, refl, inr refl))
  blind_running _ seen active now = (refl, refl, refl, inl refl)

  without_run-Agrees :
      (js : JobSummary) (authoring : Option AuthoringInfo)
      → Bare js
      → Agrees (of_run decode_any js authoring none)
  unfolding of_run
  without_run-Agrees js authoring (a, b, c, inl seeing) = (a, b, c, inl (rw seeing refl), inl refl)
  without_run-Agrees js authoring (a, b, c, inr runs) = (a, b, c, inr runs, inl refl)

  with_run-Agrees :
      (js : JobSummary) (authoring : Option AuthoringInfo) (run : Run)
      → js.agents_total ≡ length run.agents
      → js.agents_done ≡ done_agents run.agents
      → js.live_tokens ≡ tokens_from (pos 0) run.agents
      → Agrees (of_run decode_any js authoring (some run))
  unfolding of_run
  with_run-Agrees js authoring run a b c = (
    a ∙ sym (length-map run.agents),
    b ∙ sym (done_views-map run.agents),
    c ∙ sym (view_tokens-map run.agents (pos 0)),
    inl refl,
    if_cases (λ (o : Option Any). (o ≡ none) ⊎ (js.status ≡ completed))
        (is_terminal js.status && is_completed js.status) _ _
        (λ ended. inr (completed_status js.status ended)) (λ _. inl refl),
  )

  summary-Agrees :
      (o : Option Run) (seen : Seen) (authoring : Option AuthoringInfo) (now : ℕ)
      → Agrees (of_run decode_any (summarize now (record seen { run = o })) authoring o)
  unfolding summarize with_run of_job
  summary-Agrees none seen authoring now =
      without_run-Agrees _ authoring (blind_running seen.rec.status seen _ now)
  summary-Agrees (some run) seen authoring now = with_run-Agrees _ authoring run refl refl refl

  -- Where the file of a run does not change between the two readings of it, the detail of a job
  -- agrees with its summary: its agents are as many, as many of them are done and their tokens add up
  -- to the same; it shows an authoring only while the job runs, and a result only of a completed job.
  pub build_detail-Agrees :
      (parse : Bytes → Option Run) (seen : Seen) (read : Option Run)
      (authoring : Option AuthoringInfo) (now : ℕ)
      → seen.run ≡ run_or_snapshot parse read seen.rec.run_snapshot
      → Agrees (build_detail decode_any parse seen read authoring now)
  unfolding build_detail
  build_detail-Agrees parse seen read authoring now h =
      subst (λ o. Agrees (of_run decode_any (summarize now seen) authoring o)) h
        (summary-Agrees seen.run seen authoring now)
