-- ===== src/Jobs/Registry/Steps/Slots.antt =====
-- The sections that take or free a slot, or change the queue, keep the invariant.
use pi_mcp.Prelude.{
  suc, ◌+◌, ◌<◌, ◌≡◌, inl, inr, refl, sym, subst, Bool, true, false, String, Option, none, some,
  List, [], ◌∷◌, mem, arith, ltb, Option-cases, if_cases,
}
use pi_mcp.Prelude.Dict.{
  lookup, count, lookup-insert, count-insert, count-insert_new, NodupKeys, insert-NodupKeys,
  erase-insert,
}
use pi_mcp.Model.{JobRecord, queued}
use pi_mcp.LiveStatus.{is_terminal}
use pi_mcp.Jobs.Store.Ownership.{Distinct}
use pi_mcp.Jobs.Job.{Spec, Job, idle, job_id_of, new_job, mark, starting}
use pi_mcp.Jobs.Registry.{Registry, Env, put, try_admit, roll_back, submit}
use pi_mcp.Jobs.Registry.Finish.{admit_next, promote_from, prune}
use pi_mcp.Jobs.Registry.Cancel.{close}
use pi_mcp.Jobs.Registry.Steps.Invariant.{IsSound, Inv, holder, is_idle, is_nil, idle_at}
use pi_mcp.Jobs.Registry.Steps.Locals.{core-Inv, flush-Inv}
use pi_mcp.Jobs.Registry.Steps.Queue.{
  mem-append_one, Distinct-append_one, remove_from_queue-append_one,
}

-- A new id stands nowhere in the queue.
fresh-mem : (id : String) (r : Registry) → Inv r → lookup id r.jobs ≡ none → mem id r.queue ≡ false
fresh-mem id r v h = ground (arith, v.lined_up id)

try_admit-Inv :
    (env : Env) (id : String) (j : Job) (r : Registry)
    → Inv r
    → lookup id r.jobs ≡ none
    → j.rec.job_id ≡ id
    → j.done ≡ false
    → j.phase ≡ idle
    → Inv (try_admit env id j r).0
unfolding try_admit is_terminal
try_admit-Inv env id j r v new name open_ p =
    if_cases (λ (t : Registry × Bool). Inv t.0) (ltb r.slots r.cap) _ _
      (λ free. record {
        sound =
            λ k i h. ground (arith, lookup-insert k id (starting env.now j) r.jobs, v.sound k i);
        named =
            λ k i h. ground (arith, lookup-insert k id (starting env.now j) r.jobs, v.named k i);
        nodup = insert-NodupKeys id _ r.jobs v.nodup;
        counted = ground (arith, v.counted, count-insert_new holder id (starting env.now j) r.jobs);
        capped = ground arith;
        lined_up =
            λ k h. ground (arith, lookup-insert k id (starting env.now j) r.jobs, v.lined_up k);
        unique = v.unique;
        full = ground (arith, v.full);
        calm = v.calm;
      })
      (λ taken. record {
        sound =
            λ k i h. ground (arith, lookup-insert k id (mark queued env.now j) r.jobs, v.sound k i);
        named =
            λ k i h. ground (arith, lookup-insert k id (mark queued env.now j) r.jobs, v.named k i);
        nodup = insert-NodupKeys id _ r.jobs v.nodup;
        counted =
            ground (arith, v.counted, count-insert_new holder id (mark queued env.now j) r.jobs);
        capped = v.capped;
        lined_up = λ k h. ground (
          arith,
          lookup-insert k id (mark queued env.now j) r.jobs,
          v.lined_up k,
          mem-append_one k id r.queue,
        );
        unique = Distinct-append_one id r.queue (fresh-mem id r v new) v.unique;
        full = ground (arith, v.capped);
        calm = v.calm;
      })

-- The rollback undoes the admission.
roll_back-try_admit :
    (env : Env) (id : String) (j : Job) (r : Registry)
    → Inv r
    → lookup id r.jobs ≡ none
    → roll_back id (try_admit env id j r).1 (try_admit env id j r).0 ≡ r
unfolding roll_back try_admit
roll_back-try_admit env id j r v new = ground (
  arith,
  erase-insert id (starting env.now j) r.jobs new,
  erase-insert id (mark queued env.now j) r.jobs new,
  remove_from_queue-append_one id r.queue (fresh-mem id r v new),
)

-- The rollback undoes the admission.
pub submit_fails_clean :
    (env : Env) (minted : String) (spec : Spec) (r : Registry)
    → Inv r
    → lookup (job_id_of minted spec) r.jobs ≡ none
    → env.db ≡ false
    → submit env minted spec r ≡ (r, none)
unfolding submit
submit_fails_clean env minted spec r v new db =
    ground
      (arith, roll_back-try_admit env (job_id_of minted spec) (new_job env.now minted spec) r v new)

pub submit-Inv :
    (env : Env) (minted : String) (spec : Spec) (r : Registry)
    → Inv r
    → lookup (job_id_of minted spec) r.jobs ≡ none
    → Inv (submit env minted spec r).0
unfolding submit new_job
submit-Inv env minted spec r v new =
    let id = job_id_of minted spec in
    let j = new_job env.now minted spec in
    if_cases (λ (t : Registry × Option JobRecord). Inv t.0) env.db _ _
      (λ _. flush-Inv env _ (try_admit-Inv env id j r v new refl refl refl))
      (λ _. rw (roll_back-try_admit env id j r v new) v)

pub close-Inv : (env : Env) (r : Registry) → Inv r → Inv (close env r)
unfolding close
close-Inv env r v =
    if_cases Inv r.closed _ _ (λ _. v)
      (λ _. flush-Inv env _ (record {
        sound = v.sound;
        named = v.named;
        nodup = v.nodup;
        counted = v.counted;
        capped = v.capped;
        lined_up = v.lined_up;
        unique = v.unique;
        full = λ c. cc;
        calm = v.calm;
      }))

pub prune-Inv :
    (wanted : Bool) (path branch : String) (r : Registry) → Inv r → Inv (prune wanted path branch r)
unfolding prune
prune-Inv wanted path branch r v = core-Inv r _ v (ground arith)

-- A registry whose job has given its slot back, before the queue is looked at.
pub record Freed (r : Registry) : Type 0 where
  pub sound : (k : String) (j : Job) → lookup k r.jobs ≡ some j → IsSound j
  pub named : (k : String) (j : Job) → lookup k r.jobs ≡ some j → j.rec.job_id ≡ k
  pub nodup : NodupKeys r.jobs
  pub counted : r.slots ≡ count holder r.jobs
  pub room : r.slots < r.cap
  pub lined_up : (k : String) → mem k r.queue ≡ true → idle_at k r.jobs ≡ true
  pub unique : Distinct r.queue
  pub full : r.closed ≡ false → is_nil r.queue ≡ false → suc r.slots ≡ r.cap
  pub calm : r.panicked ≡ false

pub admit_next_lem :
    (env : Env) (id : String) (rest : List String) (j : Job) (r : Registry)
    → lookup id r.jobs ≡ some j
    → r.slots < r.cap
    → admit_next env id rest r
      ≡ put id (starting env.now j) (record r { slots = r.slots + 1; queue = rest })
unfolding admit_next
admit_next_lem env id rest j r e room = ground arith

-- The head of the queue takes the free slot.
started-Inv :
    (env : Env) (id : String) (rest : List String) (j : Job) (r : Registry)
    → Freed r
    → r.queue ≡ id ∷ rest
    → lookup id r.jobs ≡ some j
    → Inv (put id (starting env.now j) (record r { slots = r.slots + 1; queue = rest }))
unfolding starting
started-Inv env id rest j r f e there =
    let idle_there : is_idle j.phase ≡ true = ground (arith, f.lined_up id) in
    let unique : Distinct (id ∷ rest) = subst Distinct e f.unique in
    record {
      sound = λ k i h.
          ground (
            arith,
            lookup-insert k id (starting env.now j) r.jobs,
            f.sound k i,
            f.sound id j there,
          );
      named = λ k i h.
          ground (
            arith,
            lookup-insert k id (starting env.now j) r.jobs,
            f.named k i,
            f.named id j there,
          );
      nodup = insert-NodupKeys id _ r.jobs f.nodup;
      counted = ground (arith, f.counted, count-insert holder id (starting env.now j) j r.jobs);
      capped = omega (arith, f.room);
      lined_up = λ k h.
          ground (arith, lookup-insert k id (starting env.now j) r.jobs, f.lined_up k, unique.0);
      unique = unique.1;
      full = ground (arith, f.full);
      calm = f.calm;
    }

pub promote_from-Inv :
    (env : Env) (q : List String) (r : Registry)
    → Freed r
    → r.queue ≡ q
    → Inv (promote_from env q r)
unfolding promote_from
promote_from-Inv env [] r f e = record {
  sound = f.sound;
  named = f.named;
  nodup = f.nodup;
  counted = f.counted;
  capped = omega (arith, f.room);
  lined_up = f.lined_up;
  unique = f.unique;
  full = ground arith;
  calm = f.calm;
}
promote_from-Inv env (id ∷ rest) r f e = elim (Option-cases (lookup id r.jobs)) [
  | inl none_there ↦ absurd (ground (arith, f.lined_up id))
  | inr (j, there) ↦
      subst Inv (sym (admit_next_lem env id rest j r there f.room))
        (started-Inv env id rest j r f e there)
]
