-- ===== src/Mailbox/Order.antt =====
-- The order in which the mailbox of process.py delivers.
use python_civitas.Base.{
  ℕ, ◌≡◌, refl, true, false, not, Option, none, some, List, [], ◌∷◌, ◌++◌, arith, filter,
}
use python_civitas.Message.{Message}
use python_civitas.Mailbox.{
  Mailbox, put, expired, get, get_loop, get_priority, get_priority_loop, peek,
}

-- The messages that are still to be delivered at a time, in their order of delivery.
abbrev pub pending : ℕ → Mailbox → List Message
pending now b = filter (λ m. not (expired now m)) (peek b)

abbrev pub head_of : List Message → Option Message
head_of [] = none
head_of (m ∷ ms) = some m

abbrev pub tail_of : List Message → List Message
tail_of [] = []
tail_of (m ∷ ms) = ms

get_loop_found :
    (now : ℕ) (ps qs : List Message)
    → ((get_loop now ps qs).0 ≡ head_of (filter (λ m. not (expired now m)) (ps ++ qs)))
      × (filter (λ m. not (expired now m)) ((get_loop now ps qs).1 ++ (get_loop now ps qs).2)
          ≡ tail_of (filter (λ m. not (expired now m)) (ps ++ qs)))
unfolding get_loop
get_loop_found now (m ∷ ps) qs = ground (arith, get_loop_found now ps qs)
get_loop_found now [] (m ∷ qs) = ground (arith, get_loop_found now [] qs)
get_loop_found now [] [] = (refl, refl)

-- `get` returns the first message that has not expired, every priority message before every other
-- and each class in its order of arrival, and leaves the rest to be delivered in the same order; it
-- awaits exactly when nothing is left to deliver.
pub get_delivers_in_order :
    (now : ℕ) (b : Mailbox)
    → ((get now b).0 ≡ head_of (pending now b))
      × (pending now (get now b).1 ≡ tail_of (pending now b))
unfolding get peek
get_delivers_in_order now b = get_loop_found now b.priority_queue b.queue

get_priority_loop_found :
    (now : ℕ) (ps : List Message)
    → ((get_priority_loop now ps).0 ≡ head_of (filter (λ m. not (expired now m)) ps))
      × (filter (λ m. not (expired now m)) (get_priority_loop now ps).1
          ≡ tail_of (filter (λ m. not (expired now m)) ps))
unfolding get_priority_loop
get_priority_loop_found now [] = (refl, refl)
get_priority_loop_found now (m ∷ ps) = ground (arith, get_priority_loop_found now ps)

-- `get_priority`, which a suspended agent uses, delivers the priority messages that have not expired
-- in their order of arrival and leaves every buffered business message where it is.
pub get_priority_buffers_business :
    (now : ℕ) (b : Mailbox)
    → ((get_priority now b).0 ≡ head_of (filter (λ m. not (expired now m)) b.priority_queue))
      × (filter (λ m. not (expired now m)) (get_priority now b).1.priority_queue
          ≡ tail_of (filter (λ m. not (expired now m)) b.priority_queue))
      × ((get_priority now b).1.queue ≡ b.queue)
unfolding get_priority
get_priority_buffers_business now b =
    let found = get_priority_loop_found now b.priority_queue in (found.0, found.1, refl)

get_loop_empty :
    (now : ℕ) (ps qs : List Message)
    → (get_loop now ps qs).0 ≡ none
    → ((get_loop now ps qs).1 ≡ []) × ((get_loop now ps qs).2 ≡ [])
unfolding get_loop
get_loop_empty now (m ∷ ps) qs h = ground (arith, get_loop_empty now ps qs)
get_loop_empty now [] (m ∷ qs) h = ground (arith, get_loop_empty now [] qs)
get_loop_empty now [] [] h = (refl, refl)

-- No wake-up is lost: a reader of `get` that starts to wait has emptied both queues and cleared the
-- flag, and whatever message is put next sets the flag and, if it has not expired by then, is what
-- the woken reader finds.
pub no_lost_wakeup :
    (now later : ℕ) (b woken : Mailbox) (m : Message)
    → (get now b).0 ≡ none
    → put m (get now b).1 ≡ some woken
    → expired later m ≡ false
    → ((get now b).1.notify ≡ false) × (woken.notify ≡ true) × ((get later woken).0 ≡ some m)
unfolding get put get_loop
no_lost_wakeup now later b woken m waits arrives live =
    ground (arith, get_loop_empty now b.priority_queue b.queue)
