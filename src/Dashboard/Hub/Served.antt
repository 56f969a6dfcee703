-- ===== src/Dashboard/Hub/Served.antt =====
-- What one client of the hub is sent.
use pi_mcp.Prelude.{
  ℕ, suc, ◌-◌, ◌⊎◌, ◌≤◌, ◌≡◌, refl, sym, ap, ◌∙◌, inl, inr, Bool, true, false, some, List, [], ◌∷◌,
  ◌++◌, arith, ◌==◌, ltb, if◌then◌else◌, if_cases, length, length-append,
}
use mathlib.Core.Option
use mathlib.Core.List.{append-nil, append_assoc}
use pi_mcp.Model.{Bytes}
use pi_mcp.Dashboard.Hub.{hub_buffer, Client, Hub, subscribe, offer, take_frame}
use pi_mcp.Dashboard.Hub.Clients.{
  Step, subscribed, broadcasted, cancelled, received, run, client, run_one, client-run,
}

-- The frames that are broadcast before the client is cancelled.
abbrev pub sent_to : ℕ → List Step → List Bytes
sent_to id [] = []
sent_to id (subscribed latest ∷ steps) = sent_to id steps
sent_to id (broadcasted msg ∷ steps) = msg ∷ sent_to id steps
sent_to id (cancelled j ∷ steps) = let rest = sent_to id steps in if j == id then [] else rest
sent_to id (received j ∷ steps) = sent_to id steps

-- The first list is the second with some entries left out.
pub data Thinned {ℓ} {A : Type ℓ} : List A → List A → Type ℓ where
  done : Thinned [] []
  keep : (x : A) {xs ys : List A} → Thinned xs ys → Thinned (x ∷ xs) (x ∷ ys)
  skip : (y : A) {xs ys : List A} → Thinned xs ys → Thinned xs (y ∷ ys)

-- What a client has written and what waits for it: what it had before and the frames of a list less
-- some. No more wait than the buffer holds, and none is left out of a list that fits the room.
abbrev Served : List Bytes → List Bytes → ℕ → Client → Type 0
Served before sent room c =
    (ks : List Bytes) × (c.written ++ c.queue ≡ before ++ ks)
    × Thinned ks sent
    × (length c.queue ≤ hub_buffer)
    × ((ltb room (length sent) ≡ true) ⊎ (ks ≡ sent))

abbrev make : ℕ → Bool → List Bytes → List Bytes → Client
make n o q w = record { id = n; is_open = o; queue = q; written = w }

abbrev sent_while : Bool → ℕ → List Step → List Bytes
sent_while o id steps = if o then sent_to id steps else []

more_room :
    (before before' sent : List Bytes) (room room' : ℕ) (c : Client)
    → before' ≡ before
    → room ≤ room'
    → Served before' sent room' c
    → Served before sent room c
more_room before before' sent room room' c e l (ks, holds, thin, q, inl tight) =
    (ks, holds ∙ ap (λ b. b ++ ks) e, thin, q, inl (ground arith))
more_room before before' sent room room' c e l (ks, holds, thin, q, inr all) =
    (ks, holds ∙ ap (λ b. b ++ ks) e, thin, q, inr all)

kept :
    (msg : Bytes) (before sent : List Bytes) (room : ℕ) (c : Client)
    → Served (before ++ (msg ∷ [])) sent room c
    → Served before (msg ∷ sent) (suc room) c
kept msg before sent room c (ks, holds, thin, q, full) = (
  msg ∷ ks,
  holds ∙ append_assoc before (msg ∷ []) ks,
  keep msg thin,
  q,
  elim full [ inl tight ↦ inl (ground arith) | inr all ↦ inr (ap (λ l. msg ∷ l) all) ],
)

left_out :
    (msg : Bytes) (before sent : List Bytes) (c : Client)
    → Served before sent 0 c
    → Served before (msg ∷ sent) 0 c
left_out msg before sent c (ks, holds, thin, q, full) =
    (ks, holds, skip msg thin, q, inl (ground arith))

either :
    (b : Bool) (before sent : List Bytes) (room : ℕ) (f : Client → Client) (c d : Client)
    → Served before [] room (f c)
    → Served before sent room (f d)
    → Served before (if b then [] else sent) room (f (if b then c else d))
either true before sent room f c d x y = x
either false before sent room f c d x y = y

one_client :
    (id : ℕ) (steps : List Step) (n : ℕ) (o : Bool) (q w : List Bytes)
    → length q ≤ hub_buffer
    → Served
        (w ++ q)
        (sent_while o id steps)
        (hub_buffer - length q)
        (run_one id steps (make n o q w))
unfolding run_one offer take_frame
one_client id [] n true q w l = ([], sym (append-nil _), done, l, inr refl)
one_client id [] n false q w l = ([], sym (append-nil _), done, l, inr refl)
one_client id (subscribed latest ∷ steps) n o q w l = one_client id steps n o q w l
one_client id (broadcasted msg ∷ steps) n false q w l = one_client id steps n false q w l
one_client id (broadcasted msg ∷ steps) n true q w l =
    if_cases
      (λ c. Served (w ++ q) (msg ∷ sent_to id steps) (hub_buffer - length q) (run_one id steps c))
      (ltb (length q) hub_buffer) _ _
      (λ room.
        let grown : length (q ++ (msg ∷ [])) ≡ suc (length q) =
          omega (arith, length-append q (msg ∷ [])) in
        let c = run_one id steps (make n true (q ++ (msg ∷ [])) w) in
        more_room (w ++ q) (w ++ q) (msg ∷ sent_to id steps) (hub_buffer - length q)
          (suc (hub_buffer - length (q ++ (msg ∷ [])))) c refl (omega arith)
          (kept msg (w ++ q) (sent_to id steps) _ c (
            more_room _ _ _ _ _ c (sym (append_assoc w q (msg ∷ []))) (omega arith)
              (one_client id steps n true (q ++ (msg ∷ [])) w (ground arith)))))
      (λ full.
        let none_left : hub_buffer - length q ≡ 0 = ground arith in
        let c = run_one id steps (make n true q w) in
        more_room (w ++ q) (w ++ q) _ _ 0 c refl (omega arith) (
          left_out msg (w ++ q) (sent_to id steps) c
            (more_room _ _ _ 0 _ c refl (omega arith) (one_client id steps n true q w l))))
one_client id (cancelled j ∷ steps) n true q w l =
    either (j == id) (w ++ q) (sent_to id steps) (hub_buffer - length q) (λ c. run_one id steps c) _
      _ (one_client id steps n false q w l) (one_client id steps n true q w l)
one_client id (cancelled j ∷ steps) n false q w l =
    if_cases (λ c. Served (w ++ q) [] (hub_buffer - length q) (run_one id steps c)) (j == id) _ _
      (λ _. one_client id steps n false q w l) (λ _. one_client id steps n false q w l)
one_client id (received j ∷ steps) n o [] w l =
    if_cases (λ c. Served (w ++ []) (sent_while o id steps) hub_buffer (run_one id steps c))
      (j == id) _ _ (λ _. one_client id steps n o [] w l) (λ _. one_client id steps n o [] w l)
one_client id (received j ∷ steps) n o (msg ∷ q) w l =
    if_cases
      (λ c.
        Served (w ++ (msg ∷ q)) (sent_while o id steps) (hub_buffer - suc (length q))
          (run_one id steps c))
      (j == id) _ _
      (λ _.
        more_room _ _ _ _ _ (run_one id steps (make n o q (w ++ (msg ∷ []))))
          (append_assoc w (msg ∷ []) q) (omega arith)
          (one_client id steps n o q (w ++ (msg ∷ [])) (omega arith)))
      (λ _. one_client id steps n o (msg ∷ q) w l)

-- Of a client that has subscribed: it goes on, it has written the snapshot it was sent first, and
-- then the frames that were broadcast before it was cancelled, in order, less some, of which at most
-- eight still wait; none is left out if those are at most eight. What other clients subscribe, read
-- or cancel changes nothing of this.
pub run-subscribe :
    (latest : Bytes) (h : Hub) (steps : List Step)
    → (c : Client) × (ks : List Bytes) × (client h.next_id (run steps (subscribe latest h)).clients
        ≡ some c)
      × (c.written ++ c.queue ≡ latest ∷ ks)
      × Thinned ks (sent_to h.next_id steps)
      × (length c.queue ≤ hub_buffer)
      × ((ltb hub_buffer (length (sent_to h.next_id steps)) ≡ true)
          ⊎ (ks ≡ sent_to h.next_id steps))
unfolding subscribe client
run-subscribe latest h steps =
    let (ks, holds, thin, q, full) =
      one_client h.next_id steps h.next_id true [] (latest ∷ []) (omega arith) in
    let first : client h.next_id (subscribe latest h).clients
        ≡ some (make h.next_id true [] (latest ∷ [])) =
      ground arith in
    (
      run_one h.next_id steps (make h.next_id true [] (latest ∷ [])),
      ks,
      client-run h.next_id steps (subscribe latest h) (omega arith)
          ∙ ap (Option.map (run_one h.next_id steps)) first,
      holds,
      thin,
      q,
      full,
    )
