-- ===== src/Examples/Mailboxes.antt =====
-- Mailboxes of civitas/process.py at concrete messages.
use python_civitas.Base.{◌≡◌, refl, inl, inr, true, false, none, some, [], ◌∷◌, arith}
use python_civitas.Message.{Message, blank}
use python_civitas.Mailbox.{
  Mailbox, empty_mailbox, put, get, get_priority, drain, expired, transfer_mailbox, get_loop,
}
use python_civitas.Mailbox.Order.{no_lost_wakeup}
use python_civitas.Mailbox.Valid.{
  IsValidUnless, after_put_nowait, IsValid, after_put, operations-IsValid,
}
use python_civitas.Mailbox.Transfer.{transfer_mailbox_complete}

abbrev business : Message
business = blank "b1" 5

abbrev urgent : Message
urgent = record (blank "u1" 6) { priority = 1 }

abbrev stale : Message
stale = record (blank "s1" 1) { ttl = some 2 }

abbrev box : Mailbox
box = record {
  queue = stale ∷ business ∷ [];
  priority_queue = urgent ∷ [];
  maxsize = 3;
  priority_maxsize = 0;
  notify = true;
}

box-IsValid : IsValid box
box-IsValid = record {
  urgent = (omega arith, tt);
  business = (refl, (refl, tt));
  urgent_fits = inl refl;
  business_fits = inr (omega arith);
}

abbrev drained : Mailbox
drained = record box { queue = stale ∷ []; priority_queue = [] }

abbrev woken : Mailbox
woken = record box { queue = business ∷ []; priority_queue = [] }

waits : (get 9 drained).0 ≡ none
unfolding get get_loop expired
waits = refl

arrives : put business (get 9 drained).1 ≡ some woken
unfolding put get get_loop expired
arrives = refl

lives : expired 10 business ≡ false
unfolding expired
lives = refl

no_lost_wakeup_example :
    ((get 9 drained).1.notify ≡ false) × (true ≡ true) × ((get 10 woken).0 ≡ some business)
no_lost_wakeup_example = no_lost_wakeup 9 10 drained woken business waits arrives lives

operations-IsValid_example :
    IsValid (after_put business box)
    × IsValid (get 9 box).1
    × IsValid (get_priority 9 box).1
    × IsValid (drain box).1
    × IsValidUnless business (after_put_nowait business box)
operations-IsValid_example = operations-IsValid box business 9 box-IsValid

transfer_mailbox_complete_example :
    let fresh = empty_mailbox 3 0 in
    (b : Mailbox) × ((transfer_mailbox box fresh).0 ≡ some b)
    × (b.priority_queue ≡ urgent ∷ [])
    × (b.queue ≡ stale ∷ business ∷ [])
    × ((transfer_mailbox box fresh).1.priority_queue ≡ [])
    × ((transfer_mailbox box fresh).1.queue ≡ [])
transfer_mailbox_complete_example = transfer_mailbox_complete box box-IsValid
