-- ===== src/Dashboard/Hub/Clients.antt =====
-- What one client of the hub is sent, whatever the others do.
use pi_mcp.Prelude.{
  ℕ, ◌<◌, ◌≡◌, refl, ap, ◌∙◌, inl, inr, Option, none, some, List, [], ◌∷◌, arith, ◌==◌,
  if◌then◌else◌, if_cases, Option-cases,
}
use mathlib.Core.Option
use pi_mcp.Model.{Bytes}
use pi_mcp.Dashboard.Hub.{
  Client, Hub, subscribe, offer, take_frame, close, on_client, on_all, broadcast, cancel, receive,
}

pub data Step : Type 0 where
  subscribed : Bytes → Step
  broadcasted : Bytes → Step
  cancelled : ℕ → Step
  received : ℕ → Step

unfoldable pub run : List Step → Hub → Hub
unfolding subscribe broadcast cancel receive
run [] h = h
run (subscribed latest ∷ steps) h = run steps (subscribe latest h)
run (broadcasted msg ∷ steps) h = run steps (broadcast msg h)
run (cancelled id ∷ steps) h = run steps (cancel id h)
run (received id ∷ steps) h = run steps (receive id h)

unfoldable pub client : ℕ → List Client → Option Client
client id [] = none
client id (c ∷ cs) = let rest = client id cs in if c.id == id then some c else rest

-- The steps of one client.
abbrev pub step_one : ℕ → Step → Client → Client
step_one id (subscribed latest) c = c
step_one id (broadcasted msg) c = offer msg c
step_one id (cancelled j) c = if j == id then close c else c
step_one id (received j) c = if j == id then take_frame c else c

unfoldable pub run_one : ℕ → List Step → Client → Client
run_one id [] c = c
run_one id (step ∷ steps) c = run_one id steps (step_one id step c)

map_twice :
    (f g : Client → Client) (o : Option Client)
    → Option.map g (Option.map f o) ≡ Option.map (λ c. g (f c)) o
map_twice f g none = refl
map_twice f g (some c) = refl

offer-id : (msg : Bytes) (c : Client) → (offer msg c).id ≡ c.id
unfolding offer
offer-id msg c = ground arith

take_frame-id : (c : Client) → (take_frame c).id ≡ c.id
unfolding take_frame
take_frame-id c = by_queue c.queue
  where
    by_queue : (q : List Bytes) → (take_frame (record c { queue = q })).id ≡ c.id
    by_queue [] = refl
    by_queue (msg ∷ rest) = refl

client-on_all :
    (id : ℕ) (f : Client → Client) (cs : List Client)
    → ((c : Client) → (f c).id ≡ c.id)
    → client id (on_all f cs) ≡ Option.map f (client id cs)
unfolding client on_all
client-on_all id f [] h = refl
client-on_all id f (c ∷ cs) h =
    if_cases (λ o. client id (on_all f (c ∷ cs)) ≡ Option.map f o) (c.id == id) _ _
      (λ here. ground (arith, h c)) (λ there. ground (arith, h c, client-on_all id f cs h))

client-on_client :
    (id j : ℕ) (f : Client → Client) (cs : List Client)
    → ((c : Client) → (f c).id ≡ c.id)
    → client id (on_client j f cs) ≡ Option.map (λ c. if j == id then f c else c) (client id cs)
unfolding client on_client
client-on_client id j f [] h = refl
client-on_client id j f (c ∷ cs) h =
    if_cases
      (λ o. client id (on_client j f (c ∷ cs)) ≡ Option.map (λ d. if j == id then f d else d) o)
      (c.id == id) _ _ (λ here. ground (arith, h c))
      (λ there. ground (arith, h c, client-on_client id j f cs h))

-- A client is stepped by itself: what the others do is nothing to it.
pub client-run :
    (id : ℕ) (steps : List Step) (h : Hub)
    → id < h.next_id
    → client id (run steps h).clients ≡ Option.map (run_one id steps) (client id h.clients)
unfolding run subscribe broadcast cancel receive run_one client
client-run id [] h k = elim (Option-cases (client id h.clients)) [
  | inl e ↦ rw e refl
  | inr (c, e) ↦ rw e refl
]
client-run id (subscribed latest ∷ steps) h k =
    let fresh : client id (subscribe latest h).clients ≡ client id h.clients = ground arith in
    client-run id steps (subscribe latest h) (omega arith)
    ∙ ap (Option.map (run_one id steps)) fresh
client-run id (broadcasted msg ∷ steps) h k =
    client-run id steps (broadcast msg h) k
    ∙ ap (Option.map (run_one id steps)) (client-on_all id (offer msg) h.clients (offer-id msg))
    ∙ map_twice (offer msg) (run_one id steps) (client id h.clients)
client-run id (cancelled j ∷ steps) h k =
    client-run id steps (cancel j h) k
    ∙ ap (Option.map (run_one id steps)) (client-on_client id j close h.clients (λ _. refl))
    ∙ map_twice _ (run_one id steps) (client id h.clients)
client-run id (received j ∷ steps) h k =
    client-run id steps (receive j h) k
    ∙ ap (Option.map (run_one id steps)) (client-on_client id j take_frame h.clients take_frame-id)
    ∙ map_twice _ (run_one id steps) (client id h.clients)
