-- ===== src/Jobs/Store/Migration.antt =====
-- The import of the legacy registry file.
use pi_mcp.Prelude.{ℕ, ◌≡◌, Bool, true, false, String, some, List, [], ◌∷◌, map, arith}
use pi_mcp.Prelude.Dict.{lookup}
use pi_mcp.Model.{JobRecord}
use pi_mcp.LiveStatus.{is_terminal}
use pi_mcp.Jobs.Store.{
  Row, Store, Owner, Legacy, row_of, excluded, upsert_row, upsert_jobs, terminalize, migrate_legacy,
}
use pi_mcp.Jobs.Store.Ownership.{lookup-upsert_row}

-- Every row that the table holds is terminal.
abbrev pub AllTerminal : Store → Type 0
AllTerminal st =
    (k : String) (row : Row) → lookup k st ≡ some row → is_terminal row.job.status ≡ true

terminalize_terminal : (rec : JobRecord) → is_terminal (terminalize rec).status ≡ true
unfolding terminalize is_terminal
terminalize_terminal rec = ground arith

upsert_row-AllTerminal :
    (o : Owner) (rec : JobRecord) (st : Store)
    → is_terminal rec.status ≡ true
    → AllTerminal st
    → AllTerminal (upsert_row o rec st)
unfolding row_of excluded
upsert_row-AllTerminal o rec st t all k row e =
    grind (arith, lookup-upsert_row k o rec st, all k row, all rec.job_id)

upsert_jobs-AllTerminal :
    (o : Owner) (recs : List JobRecord) (st : Store)
    → AllTerminal st
    → AllTerminal (upsert_jobs o (map terminalize recs) st)
unfolding upsert_jobs
upsert_jobs-AllTerminal o [] st all = all
upsert_jobs-AllTerminal o (rec ∷ recs) st all =
    upsert_jobs-AllTerminal o recs (upsert_row o (terminalize rec) st)
      (upsert_row-AllTerminal o (terminalize rec) st (terminalize_terminal rec) all)

-- Whatever the legacy file holds, every row that its import puts into the empty table is terminal.
pub migrate_legacy_terminal :
    (db : Bool) (now : ℕ) (legacy : Legacy) (k : String) (row : Row)
    → lookup k (migrate_legacy db now legacy []).0 ≡ some row
    → is_terminal row.job.status ≡ true
unfolding migrate_legacy lookup
migrate_legacy_terminal db now Legacy.absent k row e = cc
migrate_legacy_terminal db now Legacy.corrupt k row e = cc
migrate_legacy_terminal db now (Legacy.jobs []) k row e = cc
migrate_legacy_terminal false now (Legacy.jobs (rec ∷ recs)) k row e = cc
migrate_legacy_terminal true now (Legacy.jobs (rec ∷ recs)) k row e =
    upsert_jobs-AllTerminal _ (rec ∷ recs) [] (λ j r h. cc) k row e
