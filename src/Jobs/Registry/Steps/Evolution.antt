-- ===== src/Jobs/Registry/Steps/Evolution.antt =====
-- How the status of a job moves, section by section.
use mathlib.Core.Option.{some-injective}
use pi_mcp.Prelude.{
  ◌≡◌, ◌⊎◌, inl, refl, sym, subst, ap, ◌∙◌, Bool, true, false, String, Option, some, arith, same,
  if_cases,
}
use pi_mcp.Prelude.Dict.{lookup, insert, lookup-insert}
use pi_mcp.Model.{Status, queued, running}
use pi_mcp.LiveStatus.{is_terminal}
use pi_mcp.Jobs.Job.{Job}
use pi_mcp.Jobs.Registry.{Registry, Env, put, flush}
use pi_mcp.Jobs.Registry.Finish.{prune}
use pi_mcp.Jobs.Registry.Steps.Locals.{flush-SameCore}

-- A status stays, a queued job starts, and a job that is not terminal ends.
abbrev pub Leads : Status → Status → Type 0
Leads a b =
    (a ≡ b) ⊎ ((a ≡ queued) × (b ≡ running)) ⊎ ((is_terminal a ≡ false) × (is_terminal b ≡ true))

pub Leads-trans : (a b c : Status) → Leads a b → Leads b c → Leads a c
unfolding is_terminal
Leads-trans a b c h k = ground arith

-- What nothing changes of a job.
abbrev pub SameJob : Job → Job → Type 0
SameJob a b =
    (a.rec.job_id ≡ b.rec.job_id)
    × (a.rec.mode ≡ b.rec.mode)
    × (a.rec.cwd ≡ b.rec.cwd)
    × (a.rec.worktree_path ≡ b.rec.worktree_path)
    × (a.rec.branch ≡ b.rec.branch)

abbrev pub same_job : (j : Job) → SameJob j j
same_job j = (refl, refl, refl, refl, refl)

SameJob-trans : (a b c : Job) → SameJob a b → SameJob b c → SameJob a c
SameJob-trans a b c (p, q, t, u, v) (p', q', t', u', v') = (p ∙ p', q ∙ q', t ∙ t', u ∙ u', v ∙ v')

-- No job of the first registry is lost in the second, and its status has moved forward.
pub record Evolves (r r' : Registry) : Type 0 where
  pub of_job :
      (k : String) (j : Job)
      → lookup k r.jobs ≡ some j
      → (j' : Job) × (lookup k r'.jobs ≡ some j') × Leads j.rec.status j'.rec.status × SameJob j j'

pub Evolves-refl : (r : Registry) → Evolves r r
Evolves-refl r = record { of_job = λ k j e. (j, e, inl refl, same_job j) }

pub Evolves-trans : {r s t : Registry} → Evolves r s → Evolves s t → Evolves r t
Evolves-trans h g = record {
  of_job = λ k j e.
      let (j', e', l, m) = h.of_job k j e in
      let (j'', e'', l', m') = g.of_job k j' e' in
      (
        j'',
        e'',
        Leads-trans j.rec.status j'.rec.status j''.rec.status l l',
        SameJob-trans j j' j'' m m',
      );
}

-- Only the jobs count.
pub jobs-Evolves : {r s t : Registry} → Evolves r s → t.jobs ≡ s.jobs → Evolves r t
jobs-Evolves h p = record {
  of_job = λ k j e. let (j', e', l, m) = h.of_job k j e in (j', ap (lookup k) p ∙ e', l, m);
}

pub put-Evolves :
    (id : String) (j j' : Job) (r : Registry)
    → lookup id r.jobs ≡ some j
    → Leads j.rec.status j'.rec.status
    → SameJob j j'
    → Evolves r (put id j' r)
put-Evolves id j j' r e l m = record {
  of_job = λ k i h.
      if_cases
        (λ (o : Option Job).
          lookup k (insert id j' r.jobs) ≡ o
          → (i' : Job) × (lookup k (insert id j' r.jobs) ≡ some i')
            × Leads i.rec.status i'.rec.status
            × SameJob i i')
        (same id k) (some j') (lookup k r.jobs)
        (λ own p.
          let here : k ≡ id = ground arith in
          let old : i ≡ j = some-injective i j (sym h ∙ ap (λ n. lookup n r.jobs) here ∙ e) in
          (
            j',
            p,
            subst (λ x. Leads x.rec.status j'.rec.status) (sym old) l,
            subst (λ x. SameJob x j') (sym old) m,
          ))
        (λ other p. (i, p ∙ h, inl refl, same_job i)) (lookup-insert k id j' r.jobs);
}

pub flush-Evolves : {r s : Registry} (env : Env) → Evolves r s → Evolves r (flush env s)
flush-Evolves {s} env h = jobs-Evolves h (flush-SameCore env s).jobs

pub prune-Evolves :
    {r s : Registry} (wanted : Bool) (path branch : String)
    → Evolves r s
    → Evolves r (prune wanted path branch s)
prune-Evolves wanted path branch h = jobs-Evolves h (unfold prune in ground arith)
