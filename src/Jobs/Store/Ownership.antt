-- ===== src/Jobs/Store/Ownership.antt =====
-- Several servers share the table: who may change which row.
use pi_mcp.Prelude.{
  ◌≡◌, ◌≢◌, sym, ◌∙◌, inl, inr, refl, true, false, String, Option, none, some, List, [], ◌∷◌, arith,
  if◌then◌else◌, same, ◌&&◌, mem, Option-cases,
}
use mathlib.Core.Option
use pi_mcp.Prelude.Clock.{pos}
use pi_mcp.Prelude.Dict.{lookup, lookup-insert, lookup-insert_self}
use pi_mcp.Model.{JobRecord, Status, Bytes}
use pi_mcp.LiveStatus.{is_terminal}
use pi_mcp.Jobs.Store.{
  Row, Store, Owner, row_of, excluded, may_write, upsert_row, upsert_jobs, claimed, claim_terminal,
  save_snapshot,
}

-- What an upsert of a record leaves in its row.
abbrev pub after_upsert : Owner → JobRecord → Option Row → Row
after_upsert o rec none = row_of o rec
after_upsert o rec (some old) = if may_write o old then excluded o rec old else old

pub lookup-upsert_row :
    (k : String) (o : Owner) (rec : JobRecord) (st : Store)
    → lookup k (upsert_row o rec st) ≡ (
        if same rec.job_id k then some (after_upsert o rec (lookup rec.job_id st)) else lookup k st)
unfolding upsert_row
lookup-upsert_row k o rec st = grind (arith, lookup-insert)

-- A row that a server may not write, since another one owns it, is left as it is by every
-- transaction of that server.
pub foreign_row_kept :
    (k : String) (row : Row) (o : Owner) (recs : List JobRecord) (st : Store)
    → lookup k st ≡ some row
    → may_write o row ≡ false
    → lookup k (upsert_jobs o recs st) ≡ some row
unfolding upsert_jobs
foreign_row_kept k row o [] st h f = h
foreign_row_kept k row o (rec ∷ recs) st h f =
    foreign_row_kept k row o recs (upsert_row o rec st)
      (grind (arith, lookup-upsert_row k o rec st)) f

lookup-claim_terminal :
    (k id : String) (o : Owner) (status : Status) (code : String) (st : Store)
    → lookup k (claim_terminal o id status code st).0 ≡ (
        if (claim_terminal o id status code st).1 && same id k
        then Option.map (claimed o status code) (lookup id st)
        else lookup k st)
unfolding claim_terminal
lookup-claim_terminal k id o status code st = grind (arith, lookup-insert)

abbrev pub ids : List JobRecord → List String
ids [] = []
ids (rec ∷ recs) = rec.job_id ∷ ids recs

abbrev pub find_record : String → List JobRecord → Option JobRecord
find_record k [] = none
find_record k (rec ∷ recs) = if same rec.job_id k then some rec else find_record k recs

abbrev pub Distinct : List String → Type 0
Distinct [] = Unit {0}
Distinct (k ∷ ks) = (mem k ks ≡ false) × Distinct ks

-- The row of a key after a transaction: the record's, if the transaction has one for the key.
abbrev pub written : Owner → Option JobRecord → Option Row → Option Row
written o none old = old
written o (some rec) old = some (after_upsert o rec old)

find_record-mem :
    (k : String) (recs : List JobRecord) → mem k (ids recs) ≡ false → find_record k recs ≡ none
find_record-mem k [] h = refl
find_record-mem k (rec ∷ recs) h = ground (arith, find_record-mem k recs)

-- A transaction over records with distinct ids writes each record to its own row, where the server
-- may write it, and changes no other row.
pub lookup-upsert_jobs :
    (k : String) (o : Owner) (recs : List JobRecord) (st : Store)
    → Distinct (ids recs)
    → lookup k (upsert_jobs o recs st) ≡ written o (find_record k recs) (lookup k st)
unfolding upsert_jobs
lookup-upsert_jobs k o [] st d = refl
lookup-upsert_jobs k o (rec ∷ recs) st d = ground (
  arith,
  lookup-upsert_jobs k o recs (upsert_row o rec st) d.1,
  lookup-upsert_row k o rec st,
  find_record-mem rec.job_id recs d.0,
)

-- Of several claims of one job at most one wins: after a claim to a terminal status every other
-- claim, by any server, fails and changes nothing.
pub claim_once :
    (id : String) (o o' : Owner) (status status' : Status) (code code' : String) (st : Store)
    → is_terminal status ≡ true
    → (claim_terminal o id status code st).1 ≡ true
    → let st' = (claim_terminal o id status code st).0 in
      claim_terminal o' id status' code' st' ≡ (st', false)
unfolding claim_terminal claimed
claim_once id o o' status status' code code' st t won = grind (arith, lookup-insert_self)

-- A claim that wins finds a row that is not terminal, and leaves it claimed.
pub claim_won :
    (id : String) (o : Owner) (status : Status) (code : String) (st : Store)
    → (claim_terminal o id status code st).1 ≡ true
    → (row : Row) × (lookup id st ≡ some row)
      × (is_terminal row.job.status ≡ false)
      × (lookup id (claim_terminal o id status code st).0 ≡ some (claimed o status code row))
unfolding claim_terminal
claim_won id o status code st won = elim (Option-cases (lookup id st)) [
  | inl e ↦ ground arith
  | inr (row, e) ↦ (row, e, ground arith, grind (arith, lookup-insert_self))
]

-- After a server whose process id is not 0 has won the claim of a job, no transaction of a server
-- with another process id changes the job's row.
pub claim_fences_old_owner :
    (id : String) (o old : Owner) (status : Status) (code : String) (recs : List JobRecord)
    (st : Store)
    → (claim_terminal o id status code st).1 ≡ true
    → o.pid ≢ old.pid
    → o.pid ≢ pos 0
    → lookup id (upsert_jobs old recs (claim_terminal o id status code st).0)
      ≡ lookup id (claim_terminal o id status code st).0
unfolding claimed may_write
claim_fences_old_owner id o old status code recs st won differ live =
    let (row, _, _, e) = claim_won id o status code st won in
    foreign_row_kept id (claimed o status code row) old recs _ e (ground arith) ∙ sym e

-- A snapshot that a server saves into a row of its own is still in the row after the server's next
-- write of the job's record, which the row then holds.
pub snapshot_survives :
    (id : String) (o : Owner) (bytes : Bytes) (rec : JobRecord) (st : Store) (row : Row)
    → rec.job_id ≡ id
    → lookup id st ≡ some row
    → row.owner_pid ≡ o.pid
    → Option.map
        (λ (r : Row). r.job)
        (lookup id (upsert_row o rec (save_snapshot o.pid id bytes st)))
      ≡ some (record rec { run_snapshot = bytes })
unfolding save_snapshot may_write excluded
snapshot_survives id o bytes rec st row k e own =
    grind (arith, lookup-upsert_row, lookup-insert_self)
