-- ===== src/Jobs/Registry/Steps/Queue.antt =====
-- Lists of distinct ids: an entry at the end, and the removal of one.
use pi_mcp.Prelude.{
  ◌≡◌, refl, true, false, String, List, [], ◌∷◌, ◌++◌, mem, arith, same, if◌then◌else◌,
}
use pi_mcp.Jobs.Store.Ownership.{Distinct}
use pi_mcp.Jobs.Registry.{remove_from_queue}
use pi_mcp.Jobs.Registry.Steps.Invariant.{is_nil}

pub mem-append_one :
    (k id : String) (ks : List String)
    → mem k (ks ++ id ∷ []) ≡ (if same id k then true else mem k ks)
mem-append_one k id [] = refl
mem-append_one k id (x ∷ ks) = ground (arith, mem-append_one k id ks)

pub Distinct-append_one :
    (id : String) (ks : List String) → mem id ks ≡ false → Distinct ks → Distinct (ks ++ id ∷ [])
Distinct-append_one id [] h d = (refl, tt)
Distinct-append_one id (x ∷ ks) h d =
    (ground (arith, mem-append_one x id ks, d.0), Distinct-append_one id ks (ground arith) d.1)

pub mem-remove_from_queue :
    (k id : String) (ks : List String)
    → mem k (remove_from_queue id ks) ≡ (if same id k then false else mem k ks)
unfolding remove_from_queue
mem-remove_from_queue k id [] = ground arith
mem-remove_from_queue k id (x ∷ ks) = ground (arith, mem-remove_from_queue k id ks)

pub Distinct-remove_from_queue :
    (id : String) (ks : List String) → Distinct ks → Distinct (remove_from_queue id ks)
unfolding remove_from_queue
Distinct-remove_from_queue id [] d = tt
Distinct-remove_from_queue id (x ∷ ks) d =
    ground (arith, Distinct-remove_from_queue id ks d.1, mem-remove_from_queue x id ks)

-- To remove an entry that was put at the end restores the queue.
pub remove_from_queue-absent :
    (id : String) (ks : List String) → mem id ks ≡ false → remove_from_queue id ks ≡ ks
unfolding remove_from_queue
remove_from_queue-absent id [] h = refl
remove_from_queue-absent id (x ∷ ks) h = ground (arith, remove_from_queue-absent id ks)

pub remove_from_queue-append_one :
    (id : String) (ks : List String) → mem id ks ≡ false → remove_from_queue id (ks ++ id ∷ []) ≡ ks
unfolding remove_from_queue
remove_from_queue-append_one id [] h = ground arith
remove_from_queue-append_one id (x ∷ ks) h = ground (arith, remove_from_queue-append_one id ks)

pub is_nil-remove_from_queue :
    (id : String) (ks : List String) → is_nil (remove_from_queue id ks) ≡ false → is_nil ks ≡ false
unfolding remove_from_queue
is_nil-remove_from_queue id [] h = h
is_nil-remove_from_queue id (x ∷ ks) h = refl
