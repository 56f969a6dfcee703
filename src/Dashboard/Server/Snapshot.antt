-- ===== src/Dashboard/Server/Snapshot.antt =====
-- The detail of a job whose run file is gone.
use pi_mcp.Prelude.{
  ℕ, ◌≡◌, refl, ap, ◌∙◌, Bool, false, String, Option, none, some, [], ◌∷◌, map, arith, same,
  if◌then◌else◌, Bool-cases, inl, inr,
}
use pi_mcp.Prelude.Dict.{lookup}
use pi_mcp.Model.{Bytes, JobRecord, Run}
use pi_mcp.Jobs.Store.{Store, Row}
use pi_mcp.Dashboard.Detail.{
  JobDetail, read_registry, rows_of, read_job_snapshot, build_detail, run_or_snapshot, of_run,
  agent_view, decode_snapshot,
}
use pi_mcp.Dashboard.State.{Seen}
use pi_mcp.Dashboard.Server.{
  Response, not_found, Look, trim_prefix, find_record, with_snapshot, write_json, detail_of,
  handle_job,
}

-- The key of a row is the id of its job.
abbrev pub IsKeyed : Store → Type 0
IsKeyed [] = Unit {0}
IsKeyed ((k, row) ∷ st) = (row.job.job_id ≡ k) × IsKeyed st

find-rows_of :
    (id : String) (st : Store) (row : Row)
    → IsKeyed st
    → lookup id st ≡ some row
    → find_record id (rows_of st) ≡ some (record (row.job) { run_snapshot = [] })
unfolding find_record rows_of lookup
find-rows_of id [] row h e = ground arith
find-rows_of id ((k, r) ∷ st) row (p, h) e = elim (Bool-cases (same k id)) [
  | inl here ↦ ground arith
  | inr there ↦ ground (arith, find-rows_of id st row h)
]

module _ {Any : Type 0} (decode_any : Bytes → Option Any) (parse : Bytes → Option Run)
    (encode : JobDetail Any → Option Bytes) where
  restored :
      (snapshot : Bytes) (rec : JobRecord) (run : Run)
      → decode_snapshot parse snapshot ≡ some run
      → with_snapshot false (some snapshot) (record rec { run_snapshot = [] })
        ≡ record rec { run_snapshot = snapshot }
  unfolding decode_snapshot with_snapshot
  restored [] rec run h = absurd (cc h)
  restored (b ∷ s) rec run h = refl

  detail_of-gone :
      (look : JobRecord → Look) (now : ℕ) (rec : JobRecord) (run : Run)
      → (look rec).run ≡ none
      → (look rec).again ≡ none
      → decode_snapshot parse rec.run_snapshot ≡ some run
      → detail_of decode_any parse encode look now rec
        ≡ build_detail decode_any parse
            (record { rec = rec; run = some run; active = (look rec).active })
            (some run)
            (look rec).authoring
            now
  unfolding detail_of build_detail run_or_snapshot
  detail_of-gone look now rec run missed again parsed = rw (missed, again, parsed) refl

  -- The answer for an id.
  abbrev answer_to : Store → (JobRecord → Bool) → (JobRecord → Look) → ℕ → String → Response
  answer_to st exists look now id =
      if same id "" then not_found else elim (find_record id (rows_of st)) [
        | none ↦ not_found
        | some rec ↦ write_json decode_any parse encode (
            detail_of decode_any parse encode look now
              (with_snapshot (exists rec) (some (read_job_snapshot (some st) id)) rec))
      ]

  -- A path of a job that the registry has a row for, whose run file is gone, and whose row has a
  -- snapshot that parses: the answer is the detail of the record with the run of that snapshot, as
  -- that of a job whose file is there, and its agents are those of the run.
  pub handle_job-gone :
      (st : Store) (id path : String) (row : Row) (run : Run) (exists : JobRecord → Bool)
      (look : JobRecord → Look) (now : ℕ)
      → IsKeyed st
      → same id "" ≡ false
      → trim_prefix "/api/job/" path ≡ id
      → lookup id st ≡ some row
      → exists (record (row.job) { run_snapshot = [] }) ≡ false
      → (look row.job).run ≡ none
      → (look row.job).again ≡ none
      → decode_snapshot parse row.job.run_snapshot ≡ some run
      → let seen : Seen = record {
        rec = row.job;
        run = some run;
        active = (look row.job).active;
      } in
        let d = build_detail decode_any parse seen (some run) (look row.job).authoring now in
        (handle_job decode_any parse encode
            (some (read_registry (some st)))
            exists
            (λ i. some (read_job_snapshot (some st) i))
            look
            now
            path
          ≡ write_json decode_any parse encode d)
        × (d.agents ≡ map agent_view run.agents)
  unfolding handle_job read_registry read_job_snapshot detail_of build_detail run_or_snapshot of_run
  handle_job-gone st id path row run exists look now keyed named trimmed e gone missed missed_again
        parsed =
      let r = record (row.job) { run_snapshot = [] } in
      let snapshot : read_job_snapshot (some st) id ≡ row.job.run_snapshot =
        rw (read_job_snapshot, e) refl in
      (
        ap (answer_to st exists look now) trimmed
            ∙ rw (named, find-rows_of id st row keyed e, gone, snapshot)
                (ap
                    (λ rec.
                      write_json decode_any parse encode
                        (detail_of decode_any parse encode look now rec))
                    (restored row.job.run_snapshot row.job run parsed)
                  ∙ ap (write_json decode_any parse encode)
                      (detail_of-gone look now row.job run missed missed_again parsed)),
        refl,
      )
