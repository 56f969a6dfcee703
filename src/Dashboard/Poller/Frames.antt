-- ===== src/Dashboard/Poller/Frames.antt =====
-- The frames of a run of the poller, against the snapshots that it took.
use pi_mcp.Prelude.{
  ◌≡◌, refl, sym, ap, ◌∙◌, inl, inr, Bool, true, false, not, ◌||◌, String, Option, none, some, List,
  [], ◌∷◌, map, arith, if◌then◌else◌, if_cases, Bool-cases,
}
use pi_mcp.Prelude.Text.{alike, alike_self, alike→≡}
use pi_mcp.Model.{Bytes}
use pi_mcp.Dashboard.State.{DashboardState, Seen, build_state}
use pi_mcp.Dashboard.Poller.{Poller, new_poller, Turn, hashable, tick, poll}

-- The snapshots of the readings that succeed.
abbrev pub built : String → List Turn → List DashboardState
built state_dir [] = []
built state_dir (t ∷ turns) = elim t.reading [
  | none ↦ built state_dir turns
  | some seen ↦ build_state seen state_dir t.now ∷ built state_dir turns
]

module _ (encode : DashboardState → Bytes) where
  -- Whether a text is that of the snapshot before.
  abbrev pub seen_before : Option DashboardState → DashboardState → Bool
  seen_before none st = false
  seen_before (some last) st = alike (encode (hashable st)) (encode (hashable last))

  -- The snapshots that differ, but for the clock, from the one right before them.
  abbrev pub changes : Option DashboardState → List DashboardState → List DashboardState
  changes last [] = []
  changes last (st ∷ sts) =
      if seen_before last st then changes (some st) sts else st ∷ changes (some st) sts

  -- The last snapshot of a list that is not empty, or the given one.
  abbrev pub last_of : Option DashboardState → List DashboardState → Option DashboardState
  last_of last [] = last
  last_of last (st ∷ sts) = last_of (some st) sts

  abbrev pub text_of : Option DashboardState → Option Bytes
  text_of none = none
  text_of (some st) = some (encode (hashable st))

  module _ (digest : Bytes → Bytes) (collision_free : (a b : Bytes) → digest a ≡ digest b → a ≡ b)
      (registry_dir state_dir : String) where
    -- What the poller remembers of the last snapshot.
    abbrev Remembers : Option DashboardState → Poller → Type 0
    Remembers none p = p.primed ≡ false
    Remembers (some st) p = (p.primed ≡ true) × (p.last_hash ≡ digest (encode (hashable st)))

    alike-digest : (a b : Bytes) → alike (digest a) (digest b) ≡ alike a b
    alike-digest a b = elim (Bool-cases (alike a b)) [
      | inl e ↦
          let p : a ≡ b = alike→≡ a b e in
          ap (λ c. alike (digest a) (digest c)) (sym p) ∙ alike_self (digest a) ∙ sym e
      | inr n ↦ elim (Bool-cases (alike (digest a) (digest b))) [
        | inl e ↦
            let p : a ≡ b = collision_free a b (alike→≡ (digest a) (digest b) e) in
            let yes_alike : alike a b ≡ true = ap (alike a) (sym p) ∙ alike_self a in ground arith
        | inr n' ↦ n' ∙ sym n
      ]
    ]

    sent_iff_changed :
        (last : Option DashboardState) (p : Poller) (st : DashboardState)
        → Remembers last p
        → (not p.primed || not (alike (digest (encode (hashable st))) p.last_hash))
          ≡ not (seen_before last st)
    sent_iff_changed none p st h = rw h refl
    sent_iff_changed (some l) p st (h, k) =
        rw (h, k) (ap not (alike-digest (encode (hashable st)) (encode (hashable l))))

    abbrev deliver : Option Bytes → List Bytes → List Bytes
    deliver o frames = elim o [ none ↦ frames | some msg ↦ msg ∷ frames ]

    pick :
        (b s : Bool) (st : DashboardState) (frames : List Bytes) (sts : List DashboardState)
        → b ≡ not s
        → frames ≡ map encode sts
        → deliver (if b then some (encode st) else none) frames
          ≡ map encode (if s then sts else st ∷ sts)
    pick true true st frames sts h e = absurd (cc h)
    pick true false st frames sts h e = ap (λ l. encode st ∷ l) e
    pick false true st frames sts h e = e
    pick false false st frames sts h e = absurd (cc h)

    frames-poll :
        (turns : List Turn) (last : Option DashboardState) (p : Poller)
        → Remembers last p
        → (poll encode digest registry_dir state_dir turns p).1
          ≡ map encode (changes last (built state_dir turns))
    unfolding poll tick
    frames-poll [] last p h = refl
    frames-poll (t ∷ turns) last p h = by_reading t.reading (frames-poll turns)
      where
        by_reading :
            (r : Option (List Seen))
            → ((last' : Option DashboardState) (p' : Poller)
                → Remembers last' p'
                → (poll encode digest registry_dir state_dir turns p').1
                  ≡ map encode (changes last' (built state_dir turns)))
            → (poll encode digest registry_dir state_dir (record t { reading = r } ∷ turns) p).1
              ≡ map encode (changes last (built state_dir (record t { reading = r } ∷ turns)))
        by_reading none rest = rest last p h
        by_reading (some seen) rest =
            let st = build_state seen state_dir t.now in
            pick _ (seen_before last st) st _ (changes (some st) (built state_dir turns))
              (sent_iff_changed last p st h) (rest (some st) _ (refl, refl))

  same_text :
      (last : Option DashboardState) (st : DashboardState)
      → seen_before last st ≡ true
      → text_of last ≡ text_of (some st)
  same_text none st h = absurd (cc h)
  same_text (some l) st h = ap some (sym (alike→≡ (encode (hashable st)) (encode (hashable l)) h))

  -- The last of the changes has the text of the last snapshot.
  last_of-changes :
      (sts : List DashboardState) (sent last : Option DashboardState)
      → text_of sent ≡ text_of last
      → text_of (last_of sent (changes last sts)) ≡ text_of (last_of last sts)
  last_of-changes [] sent last h = h
  last_of-changes (st ∷ sts) sent last h =
      if_cases (λ l. text_of (last_of sent l) ≡ text_of (last_of (some st) sts))
        (seen_before last st) _ _
        (λ e. last_of-changes sts sent (some st) (h ∙ same_text last st e))
        (λ _. last_of-changes sts (some st) (some st) refl)

-- While the digest has no collisions: the frames that a new poller broadcasts are, in order, its
-- snapshots that differ, but for the clock, from the one right before; a reading of the registry
-- that fails has no part in this. But for the clock the last frame is the last snapshot.
pub poll_lem :
    (encode : DashboardState → Bytes) (digest : Bytes → Bytes)
    (collision_free : (a b : Bytes) → digest a ≡ digest b → a ≡ b) (registry_dir state_dir : String)
    (turns : List Turn)
    → let sts = built state_dir turns in
      ((poll encode digest registry_dir state_dir turns new_poller).1
        ≡ map encode (changes encode none sts))
      × (text_of encode (last_of encode none (changes encode none sts))
          ≡ text_of encode (last_of encode none sts))
poll_lem encode digest collision_free registry_dir state_dir turns = (
  frames-poll encode digest collision_free registry_dir state_dir turns none new_poller refl,
  last_of-changes encode (built state_dir turns) none none refl,
)
