-- ===== src/Shim/Dns.antt =====
-- aroma_module/nsysnet_shim.c: asynchronous DNS, the async_dns functions and
-- `shim_getaddrinfo_async`. A hostname is its bytes; the answer of lwIP's `dns_gethostbyname` is an
-- argument, and `shim_getaddrinfo_sync` is a result of its own.
-- What runs under `async_dns_table_lock` is one step, and so is the callback; the two stores of
-- `async_dns_release_if_ticket`, which takes no lock, are steps of their own.
pub mod Slots
pub mod Steps
pub mod Names
pub mod Generations
pub mod Requests
pub mod Lost
mod Tests
use ax88179_aroma_driver.Base.{
  ℕ, zero, suc, ◌+◌, ◌*◌, ◌/◌, ◌%◌, ◌^◌, ◌-◌, Bool, true, false, not, ◌||◌, ◌&&◌, Option, none,
  some, List, [], ◌∷◌, Bytes, length, ltb, leb, ◌==◌, if◌then◌else◌, get_elem?,
}

pub data State : Type 0 where
  free : State
  pending : State
  ready : State
  failed : State
  claimed : State

-- `struct async_dns_slot`
pub record Slot : Type 0 where
  pub state : State
  pub ticket : ℕ
  pub name : Bytes

-- `async_dns_slots` and `async_dns_ticket_counter`.
pub record Table : Type 0 where
  pub slots : List Slot
  pub counter : ℕ

-- `strcmp(a, b) == 0`
abbrev pub same_name : Bytes → Bytes → Bool
same_name [] [] = true
same_name [] (d ∷ ds) = false
same_name (c ∷ cs) [] = false
same_name (c ∷ cs) (d ∷ ds) = c == d && same_name cs ds

-- Neither FREE nor CLAIMED.
abbrev pub is_live : State → Bool
is_live free = false
is_live claimed = false
is_live _ = true

abbrev pub is_free : State → Bool
is_free free = true
is_free _ = false

abbrev pub matches : Bytes → Slot → Bool
matches name s = is_live s.state && same_name s.name name

abbrev pub next_index : Option ℕ → Option ℕ
next_index none = none
next_index (some i) = some (suc i)

-- `async_dns_find_locked`
unfoldable pub find : Bytes → List Slot → Option ℕ
find name [] = none
find name (s ∷ ss) = let rest = find name ss in if matches name s then some 0 else next_index rest

-- `async_dns_new_ticket`: the ticket, and the counter behind it.
unfoldable pub new_ticket : ℕ → ℕ × ℕ
new_ticket counter = let t = counter % 2 ^ 28 in (if t == 0 then 1 else t, (counter + 1) % 2 ^ 32)

-- The index of the first slot that is FREE.
unfoldable pub find_free : List Slot → Option ℕ
find_free [] = none
find_free (s ∷ ss) = let rest = find_free ss in if is_free s.state then some 0 else next_index rest

-- A slot is changed in place.
abbrev pub alter : (Slot → Slot) → ℕ → List Slot → List Slot
alter f i [] = []
alter f zero (s ∷ ss) = f s ∷ ss
alter f (suc i) (s ∷ ss) = s ∷ alter f i ss

abbrev pub name_size : ℕ
name_size = 257

abbrev pub async_dns_max : ℕ
async_dns_max = 8

-- The token of a ticket in slot `i`.
abbrev pub token_of : ℕ → ℕ → ℕ
token_of ticket i = ticket * 2 ^ 4 + (i + 1)

-- What a slot holds once it is claimed.
abbrev pub fill : ℕ → Bytes → Slot → Slot
fill ticket name s = record { state = pending; ticket = ticket; name = name }

-- `async_dns_claim_locked`: the slot, and the table.
unfoldable pub claim_at : Bytes → Table → Option ℕ → Option (ℕ × ℕ × Table)
claim_at name t none = none
claim_at name t (some i) =
    let (ticket, counter) = new_ticket t.counter in
    some (i, ticket, record { slots = alter (fill ticket name) i t.slots; counter = counter })

unfoldable pub claim : Bytes → Table → Option (ℕ × ℕ × Table)
claim name t = if leb name_size (length name) then none else claim_at name t (find_free t.slots)

-- `state = FREE; ticket = 0`
abbrev pub retire : Slot → Slot
retire s = record s { state = free; ticket = 0 }

-- `async_dns_release_if_ticket`: the test and the first store, `state = FREE`.
abbrev pub free_if : ℕ → Slot → Slot
free_if ticket s = if s.ticket == ticket then record s { state = free } else s

unfoldable pub free_slot : ℕ → ℕ → Table → Table
free_slot i ticket t = record t { slots = alter (free_if ticket) i t.slots }

-- Its second store, `ticket = 0`.
abbrev pub zero_ticket : Slot → Slot
zero_ticket s = record s { ticket = 0 }

unfoldable pub forget_ticket : ℕ → Table → Table
forget_ticket i t = record t { slots = alter zero_ticket i t.slots }

abbrev pub ticket_at : List Slot → ℕ → ℕ
ticket_at ss i = elim (get_elem? ss i) [ some s ↦ s.ticket | none ↦ 0 ]

-- `async_dns_release_if_ticket`, with no other thread between its steps.
unfoldable pub release_if_ticket : ℕ → ℕ → Table → Table
release_if_ticket i ticket t =
    if ticket_at t.slots i == ticket then forget_ticket i (free_slot i ticket t) else t

-- The callback on its slot: a compare-and-exchange from PENDING.
abbrev pub settle_state : Bool → State → State
settle_state answered pending = if answered then ready else failed
settle_state answered s = s

abbrev pub settle : Bool → ℕ → Slot → Slot
settle answered ticket s =
    if s.ticket == ticket then record s { state = settle_state answered s.state } else s

-- `async_dns_found`, for the token that it is called with; `answered` says that there is an address.
unfoldable pub found : Bool → ℕ → Table → Table
found answered token t =
    let raw = token % 2 ^ 4 in
    if raw == 0 || ltb async_dns_max raw
    then t
    else record t { slots = alter (settle answered (token / 2 ^ 4)) (raw - 1) t.slots }

-- What `dns_gethostbyname` answers, and what `shim_getaddrinfo_async` returns: `sync` is the result of
-- `shim_getaddrinfo_sync`.
pub data Err : Type 0 where
  in_progress : Err
  okay : Err
  no_memory : Err
  other : Err

pub data Reply : Type 0 where
  eai_inprogress : Reply
  eai_noname : Reply
  eai_memory : Reply
  eai_fail : Reply
  sync : Reply

-- How the part under the lock ends: with a reply, or with a request to make for a slot and a ticket.
pub data Begun : Type 0 where
  replied : Reply → Begun
  asks : ℕ → ℕ → Begun

-- A hostname that has a request, in slot `i` with this state.
unfoldable pub poll : ℕ → State → Table → Begun × Table
poll i pending t = (replied eai_inprogress, t)
poll i failed t = (replied eai_noname, record t { slots = alter retire i t.slots })
poll i s t = (replied sync, record t { slots = alter retire i t.slots })

abbrev pub state_at : List Slot → ℕ → State
state_at ss i = elim (get_elem? ss i) [ some s ↦ s.state | none ↦ free ]

unfoldable pub start : Option (ℕ × ℕ × Table) → Table → Begun × Table
start none t = (replied eai_memory, t)
start (some (i, ticket, t')) t = (asks i ticket, t')

unfoldable pub lookup : Bytes → Table → Option ℕ → Begun × Table
lookup name t (some i) = poll i (state_at t.slots i) t
lookup name t none = start (claim name t) t

-- `shim_getaddrinfo_async` up to `dns_gethostbyname`, for a hostname as `dns_rewrite_name` gives it.
unfoldable pub begin : Bytes → Table → Begun × Table
begin [] t = (replied eai_noname, t)
begin (c ∷ cs) t = lookup (c ∷ cs) t (find (c ∷ cs) t.slots)

-- Behind `dns_gethostbyname`, for the ticket in slot `i`.
unfoldable pub after_query : Err → ℕ → ℕ → Table → Reply × Table
after_query in_progress i ticket t = (eai_inprogress, t)
after_query okay i ticket t = (sync, release_if_ticket i ticket t)
after_query no_memory i ticket t = (eai_memory, release_if_ticket i ticket t)
after_query other i ticket t = (eai_fail, release_if_ticket i ticket t)

unfoldable pub finish_begun : Err → Begun × Table → Reply × Table
finish_begun err (replied r, t) = (r, t)
finish_begun err (asks i ticket, t) = after_query err i ticket t

-- `shim_getaddrinfo_async`, with no other thread in between.
unfoldable pub getaddrinfo_async : Err → Bytes → Table → Reply × Table
getaddrinfo_async err name t = finish_begun err (begin name t)

abbrev pub blank : Slot
blank = record { state = free; ticket = 0; name = [] }

abbrev pub blank_all : List Slot → List Slot
blank_all [] = []
blank_all (s ∷ ss) = let rest = blank_all ss in blank ∷ rest

-- `async_dns_reset_all`
unfoldable pub reset_all : Table → Table
reset_all t = record t { slots = blank_all t.slots }
