-- ===== src/McpServer/Delta/Once.antt =====
-- Over a run of polls every journal entry is told once, and every quiet stretch warned of once.
use pi_mcp.Prelude.{
  ℕ, ◌≤◌, ◌<◌, ◌≡◌, refl, ap, ◌∙◌, ◌⊎◌, inl, inr, Bool, true, false, String, Option, some, List, [],
  ◌∷◌, ◌++◌, arith, same, ltb, if◌then◌else◌, length, drop, length-append, Bool-cases,
}
use pi_mcp.Prelude.Clock.{pos}
use pi_mcp.Prelude.Dict.{lookup, insert, lookup-insert, lookup-insert_self}
use pi_mcp.Model.{Bytes, JournalEntry, Run, StatusEvent}
use pi_mcp.RunStore.Events.{join, clamp, event_of, events_since}
use pi_mcp.RunStore.Events.Laws.{join-append}
use pi_mcp.McpServer.Delta.{Tracker, position, take, is_quiet, should_warn}

position-take :
    (key other : String) (len : ℕ) (from_start : Bool) (d : Tracker)
    → position other (take key len from_start d).1
      ≡ (if same key other then len else position other d)
unfolding position take
position-take key other len from_start d = ground (arith, lookup-insert other key len d.delivered)

-- After a call with one length, the position that the next call for the key delivers from does not
-- exceed the length of that call, and it is the earlier length, or 0 if a replay was asked for or
-- the journal has shrunk.
pub take_lem :
    (key : String) (last len : ℕ) (again from_start : Bool) (d : Tracker)
    → let from = (take key len from_start (take key last again d).1).0 in
      (from ≤ len) × ((from ≡ last) ⊎ ((from ≡ 0) × ((from_start ≡ true) ⊎ (len < last))))
unfolding take
take_lem key last len again from_start d = ground (arith, position-take key key last again d)

module _ {Any : Type 0} (decode : Bytes → Option Any) (include_results : Bool) (max_bytes : ℕ) where
  -- One call of pi_status on a journal that has grown.
  unfoldable pub poll : String → Run → Tracker → List (StatusEvent Any) × Tracker
  poll key run d =
      let (from, d') = take key (length run.journal) false d in
      (events_since decode run (pos from) include_results max_bytes, d')

  -- The journal grows by a stretch before each poll.
  unfoldable pub polls : String → Run → List (List JournalEntry) → Tracker → List (StatusEvent Any)
  unfolding poll
  polls key run [] d = []
  polls key run (js ∷ stretches) d =
      let run' = record run { journal = run.journal ++ js } in
      let (evs, d') = poll key run' d in evs ++ polls key run' stretches d'

  abbrev pub concat : List (List JournalEntry) → List JournalEntry
  concat [] = []
  concat (js ∷ stretches) = js ++ concat stretches

  drop-append : {A : Type 0} (xs ys : List A) → drop (length xs) (xs ++ ys) ≡ ys
  drop-append [] ys = refl
  drop-append (x ∷ xs) ys = drop-append xs ys

  clamp-length :
      (xs ys : List JournalEntry) → clamp (pos (length xs)) (length (xs ++ ys)) ≡ length xs
  unfolding clamp
  clamp-length xs ys = ground (arith, length-append xs ys)

  -- A poll tells the stretch that is new.
  poll_lem :
      (key : String) (run : Run) (js : List JournalEntry) (d : Tracker)
      → position key d ≡ length run.journal
      → (poll key (record run { journal = run.journal ++ js }) d).0
        ≡ join (event_of decode include_results max_bytes) run.agents js
  unfolding poll take events_since
  poll_lem key run js d p =
      let from : (take key (length (run.journal ++ js)) false d).0 ≡ length run.journal =
        unfold take in ground (arith, length-append run.journal js) in
      let start =
        ap (λ n. clamp (pos n) (length (run.journal ++ js))) from ∙ clamp-length run.journal js in
      ap
        (λ n.
          join (event_of decode include_results max_bytes) run.agents (drop n (run.journal ++ js)))
        start
      ∙ ap (join (event_of decode include_results max_bytes) run.agents)
          (drop-append run.journal js)

  -- While the journal of a run with fixed agents only grows, the polls of a job that has been told
  -- of the journal so far together tell every new entry that has an agent exactly once and in the
  -- journal's order, however the growth falls between the polls.
  pub polls_lem :
      (key : String) (run : Run) (stretches : List (List JournalEntry)) (d : Tracker)
      → position key d ≡ length run.journal
      → polls key run stretches d
        ≡ join (event_of decode include_results max_bytes) run.agents (concat stretches)
  unfolding polls
  polls_lem key run [] d p = unfold join in refl
  polls_lem key run (js ∷ stretches) d p =
      let run' : Run = record run { journal = run.journal ++ js } in
      let (evs, d') = poll key run' d in
      let told : position key d' ≡ length run'.journal =
        unfold poll in ground (arith, position-take key key (length run'.journal) false d) in
      cc (
        poll_lem key run js d p,
        polls_lem key run' stretches d' told,
        join-append (event_of decode include_results max_bytes) run.agents js (concat stretches),
      )

-- The activities of the warnings that fire.
unfoldable pub warnings : String → List ℕ → Tracker → List ℕ
warnings key [] d = []
warnings key (la ∷ rest) d =
    let later = warnings key rest (should_warn key la d).1 in
    if (should_warn key la d).0 then la ∷ later else later

abbrev pub Ascending : ℕ → List ℕ → Type 0
Ascending bound [] = Unit {0}
Ascending bound (n ∷ ns) = (bound < n) × Ascending n ns

Ascending-le : (m n : ℕ) (ns : List ℕ) → m ≤ n → Ascending n ns → Ascending m ns
Ascending-le m n [] h a = tt
Ascending-le m n (k ∷ ns) h a = (omega arith, a.1)

-- Once a warning has fired for a key, each later one is for activity later than that of the warning
-- before it.
pub warnings-Ascending :
    (key : String) (activities : List ℕ) (d : Tracker) (bound : ℕ)
    → lookup key d.warned ≡ some bound
    → Ascending bound (warnings key activities d)
unfolding warnings should_warn is_quiet
warnings-Ascending key [] d bound h = tt
warnings-Ascending key (la ∷ rest) d bound h = elim (Bool-cases (ltb bound la)) [
  | inl later ↦
      let fires : is_quiet key la d ≡ false = ground arith in
      rw (fires, should_warn)
        (
          ground arith,
          warnings-Ascending key rest (record d { warned = insert key la d.warned }) la
              (lookup-insert_self key la d.warned),
        )
  | inr quiet ↦
      let silent : is_quiet key la d ≡ true = ground arith in
      rw (silent, should_warn) (warnings-Ascending key rest d bound h)
]
