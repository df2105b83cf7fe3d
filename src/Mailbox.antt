-- ===== src/Mailbox.antt =====
-- The mailbox of civitas/process.py, and _transfer_mailbox of civitas/supervisor.py.
-- `none` as the result of `put` is a sender that awaits space; `none` as the message of `get` is a
-- reader that awaits `notify`. The clock is read once for a call of `get`.
pub mod Order
pub mod Valid
pub mod Transfer
use python_civitas.Base.{
  ℕ, ◌+◌, Bool, true, false, ◌&&◌, ◌||◌, not, Option, none, some, List, [], ◌∷◌, ◌++◌, ltb, leb,
  ◌==◌, nat_eq, length, if◌then◌else◌,
}
use python_civitas.Message.{Message}

pub record Mailbox : Type 0 where
  pub queue : List Message
  pub priority_queue : List Message
  pub maxsize : ℕ
  pub priority_maxsize : ℕ
  pub notify : Bool

unfoldable pub empty_mailbox : ℕ → ℕ → Mailbox
empty_mailbox maxsize priority_maxsize = record {
  queue = [];
  priority_queue = [];
  maxsize = maxsize;
  priority_maxsize = priority_maxsize;
  notify = false;
}

-- asyncio.Queue.full(): a bound of 0 is no bound
unfoldable pub full : ℕ → List Message → Bool
full bound ms = ltb 0 bound && leb bound (length ms)

unfoldable pub put : Message → Mailbox → Option Mailbox
unfolding full
put m b =
    if ltb 0 m.priority
    then if full b.priority_maxsize b.priority_queue
      then none
      else some (record b { priority_queue = b.priority_queue ++ m ∷ []; notify = true })
    else if full b.maxsize b.queue
    then none
    else some (record b { queue = b.queue ++ m ∷ []; notify = true })

-- `none` is asyncio.QueueFull
unfoldable pub put_nowait : Message → Mailbox → Option Mailbox
unfolding full
put_nowait m b =
    if full b.priority_maxsize b.priority_queue
    then none
    else some (record b { priority_queue = b.priority_queue ++ m ∷ []; notify = true })

-- _drop_if_expired
unfoldable pub expired : ℕ → Message → Bool
expired now m = elim m.ttl [ none ↦ false | some ttl ↦ ltb (m.timestamp + ttl) now ]

-- The rounds of the loop of `get`: what it returns, and what it leaves in the two queues.
unfoldable pub get_loop :
    ℕ → List Message → List Message → Option Message × List Message × List Message
get_loop now (m ∷ ps) qs =
    let next = get_loop now ps qs in if expired now m then next else (some m, ps, qs)
get_loop now [] (m ∷ qs) =
    let next = get_loop now [] qs in if expired now m then next else (some m, [], qs)
get_loop now [] [] = (none, [], [])

-- The flag is cleared only on the way to awaiting it.
unfoldable pub parked : Option Message → Bool → Bool
parked none flag = false
parked (some m) flag = flag

unfoldable pub get : ℕ → Mailbox → Option Message × Mailbox
unfolding parked
get now b =
    let (found, ps, qs) = get_loop now b.priority_queue b.queue in
    (found, record b { priority_queue = ps; queue = qs; notify = parked found b.notify })

unfoldable pub get_priority_loop : ℕ → List Message → Option Message × List Message
get_priority_loop now [] = (none, [])
get_priority_loop now (m ∷ ps) =
    let next = get_priority_loop now ps in if expired now m then next else (some m, ps)

unfoldable pub get_priority : ℕ → Mailbox → Option Message × Mailbox
unfolding parked
get_priority now b =
    let (found, ps) = get_priority_loop now b.priority_queue in
    (found, record b { priority_queue = ps; notify = parked found b.notify })

pub depth : Mailbox → ℕ
depth b = length b.priority_queue + length b.queue

unfoldable pub peek : Mailbox → List Message
peek b = b.priority_queue ++ b.queue

unfoldable pub drain : Mailbox → List Message × Mailbox
drain b = (b.priority_queue ++ b.queue, record b { priority_queue = []; queue = [] })

-- for message in drained: await new._mailbox.put(message)
unfoldable pub put_all : List Message → Mailbox → Option Mailbox
put_all [] b = some b
put_all (m ∷ ms) b = elim (put m b) [ none ↦ none | some b' ↦ put_all ms b' ]

-- The old mailbox and the new one after the transfer.
unfoldable pub transfer_mailbox : Mailbox → Mailbox → Option Mailbox × Mailbox
unfolding drain put_all
transfer_mailbox old fresh = let (ms, emptied) = drain old in (put_all ms fresh, emptied)
