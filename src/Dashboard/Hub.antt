-- ===== src/Dashboard/Hub.antt =====
-- internal/dashboard/hub.go and the loop of handleEvents in server.go: the clients of the stream. A
-- channel is its number, and a client is a channel with the handler that reads it.
pub mod Clients
pub mod Served
use pi_mcp.Prelude.{
  ℕ, suc, Bool, true, false, List, [], ◌∷◌, ◌++◌, ◌==◌, ltb, if◌then◌else◌, length,
}
use pi_mcp.Model.{Bytes}

abbrev pub hub_buffer : ℕ
hub_buffer = 8

-- `is_open` says that the channel is not closed, which is when the hub holds it. `written` is what
-- the handler has written to its response, in order.
pub record Client : Type 0 where
  pub id : ℕ
  pub is_open : Bool
  pub queue : List Bytes
  pub written : List Bytes

pub record Hub : Type 0 where
  pub clients : List Client
  pub next_id : ℕ

abbrev pub new_hub : Hub
new_hub = record { clients = []; next_id = 0 }

-- A new client, which is sent the current snapshot at once.
unfoldable pub subscribe : Bytes → Hub → Hub
subscribe latest h = record {
  clients =
      record { id = h.next_id; is_open = true; queue = []; written = latest ∷ [] } ∷ h.clients;
  next_id = suc h.next_id;
}

-- A send that does not block.
unfoldable pub offer : Bytes → Client → Client
offer msg c =
    if c.is_open
    then (if ltb (length c.queue) hub_buffer then record c { queue = c.queue ++ (msg ∷ []) } else c)
    else c

-- The handler takes a frame and writes it. A closed channel yields what it still holds.
unfoldable pub take_frame : Client → Client
take_frame c = elim c.queue [
  | [] ↦ c
  | msg ∷ rest ↦ record c { queue = rest; written = c.written ++ (msg ∷ []) }
]

abbrev pub close : Client → Client
close c = record c { is_open = false }

unfoldable pub on_client : ℕ → (Client → Client) → List Client → List Client
on_client id f [] = []
on_client id f (c ∷ cs) = (if c.id == id then f c else c) ∷ on_client id f cs

unfoldable pub on_all : (Client → Client) → List Client → List Client
on_all f [] = []
on_all f (c ∷ cs) = f c ∷ on_all f cs

unfoldable pub broadcast : Bytes → Hub → Hub
unfolding offer on_all
broadcast msg h = record h { clients = on_all (offer msg) h.clients }

-- Idempotent, by its `sync.Once`.
unfoldable pub cancel : ℕ → Hub → Hub
unfolding on_client
cancel id h = record h { clients = on_client id close h.clients }

unfoldable pub receive : ℕ → Hub → Hub
unfolding on_client take_frame
receive id h = record h { clients = on_client id take_frame h.clients }

-- The number of channels that the hub holds.
unfoldable pub count_open : List Client → ℕ
count_open [] = 0
count_open (c ∷ cs) = let rest = count_open cs in if c.is_open then suc rest else rest
