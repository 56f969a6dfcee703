-- ===== src/Jobs/Registry/Call/Stored.antt =====
-- What an accepted Submit has stored, and what it answers.
use mathlib.Core.Option.{some-injective}
use pi_mcp.Prelude.{◌≡◌, sym, ap, ◌∙◌, true, String, Option, none, some, subst}
use pi_mcp.Prelude.Dict.{lookup}
use pi_mcp.Model.{JobRecord}
use pi_mcp.Jobs.Store.{row_of}
use pi_mcp.Jobs.Job.{Spec, job_id_of}
use pi_mcp.Jobs.Registry.{Registry, owner_of, submit}
use pi_mcp.Jobs.Registry.Call.{Call, call_submit, after_section}
use pi_mcp.Jobs.Registry.Call.Answers.{after_section-found}
use pi_mcp.Jobs.Registry.Call.Section.{Admitted, submit-Admitted}
use pi_mcp.Jobs.Registry.Cancel.{lookup_job}
use pi_mcp.Jobs.Registry.Steps.{submits, step}
use pi_mcp.Jobs.Registry.Steps.Invariant.{Inv}
use pi_mcp.Jobs.Registry.Steps.Evolution.{Leads}
use pi_mcp.Jobs.Registry.Steps.Safety.{Reachable, Reachable-Inv, step-Inv}
use pi_mcp.Jobs.Registry.Steps.Persistence.{section_is_stored}

-- A Submit whose transaction commits, of an id that neither the reachable registry nor the table has:
-- before anything is launched the server's own row of the table holds the job, in the mode and the
-- directory of the call; the record that is returned is the one that the registry has then, it is of
-- the same job, and its status has moved forward from the stored one, whatever the launcher answers
-- and whatever else happens.
pub submit_is_stored :
    (c : Call) (minted : String) (spec : Spec) (r : Registry)
    → Reachable r
    → lookup (job_id_of minted spec) r.jobs ≡ none
    → lookup (job_id_of minted spec) r.store ≡ none
    → c.env.db ≡ true
    → (stored rec : JobRecord) × (lookup
          (job_id_of minted spec)
          (submit c.env minted spec r).0.store
        ≡ some (row_of (owner_of c.env r) stored))
      × ((stored.mode ≡ spec.mode) × (stored.cwd ≡ spec.cwd))
      × ((call_submit c minted spec r).1 ≡ some rec)
      × (lookup_job (job_id_of minted spec) (call_submit c minted spec r).0 ≡ some rec)
      × ((rec.job_id ≡ stored.job_id) × (rec.mode ≡ stored.mode) × (rec.cwd ≡ stored.cwd))
      × Leads stored.status rec.status
unfolding call_submit step
submit_is_stored c minted spec r w new absent commits =
    let (stored, answered, own, row) = section_is_stored c.env minted spec r w new absent commits in
    by_section (submit c.env minted spec r)
      (step-Inv c.env (submits minted spec) r new (Reachable-Inv w))
      (submit-Admitted c.env minted spec r w new) stored answered row
  where
    by_section :
        (p : Registry × Option JobRecord)
        → Inv p.0
        → Admitted (job_id_of minted spec) spec r p
        → (stored : JobRecord) → p.1 ≡ some stored
        → lookup (job_id_of minted spec) p.0.store ≡ some (row_of (owner_of c.env r) stored)
        → (stored rec : JobRecord) × (lookup (job_id_of minted spec) p.0.store
            ≡ some (row_of (owner_of c.env r) stored))
          × ((stored.mode ≡ spec.mode) × (stored.cwd ≡ spec.cwd))
          × ((after_section c (job_id_of minted spec) p).1 ≡ some rec)
          × (lookup_job (job_id_of minted spec) (after_section c (job_id_of minted spec) p).0
              ≡ some rec)
          × ((rec.job_id ≡ stored.job_id) × (rec.mode ≡ stored.mode) × (rec.cwd ≡ stored.cwd))
          × Leads stored.status rec.status
    by_section (r', none) v kept stored e row = absurd (cc e)
    by_section (r', some first) v x stored e row =
        let same_record : first ≡ stored = some-injective first stored e in
        let (j, j', q, answered, found, l, (a, b, d, t, u)) =
          after_section-found c (job_id_of minted spec) r' first v x.found in
        (
          first,
          j'.rec,
          row ∙ ap (λ i. some (row_of (owner_of c.env r) i)) (sym same_record),
          (x.same_mode, x.same_cwd),
          answered,
          found,
          (
            sym a ∙ ap (λ (i : JobRecord). i.job_id) q,
            sym b ∙ ap (λ (i : JobRecord). i.mode) q,
            sym d ∙ ap (λ (i : JobRecord). i.cwd) q,
          ),
          subst (λ (i : JobRecord). Leads i.status j'.rec.status) q l,
        )
