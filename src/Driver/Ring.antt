-- ===== src/Driver/Ring.antt =====
-- driver/ax88179.c, the ring of asynchronous bulk IN transfers: `struct AxRxAsyncSlot`,
-- `ax_rx_async_callback`, `ax_rx_submit_slot`, `ax_rx_start_async`, `ax_rx_take_completed` and
-- `ax88179_receive`. Whether `UhsSubmitBulkRequestAsync` accepts a request is an argument, and
-- so is what the callbacks report while `OSWaitEventWithTimeout` sleeps.
pub mod Safety
pub mod Stall
use ax88179_aroma_driver.Base.{
  ℕ, zero, suc, ◌+◌, ◌-◌, ◌*◌, ◌/◌, ◌%◌, ◌^◌, Bool, true, false, not, ◌&&◌, ◌||◌, Option, none,
  some, Bytes, List, [], ◌∷◌, ℤ, pos, is_neg, eq_nat, drop, ◌++◌, get_elem?, set, length, ltb, leb,
  ◌==◌, if◌then◌else◌, ◌>>=◌, take, overwrite,
}
use ax88179_aroma_driver.Driver.Rx.{
  Rx, Loaded, loaded, empty, invalid, load_aggregate, Received, nothing, refused, frame,
  receive_buffered, rx_buffer_size,
}

-- AX_RX_SLOT_IDLE, AX_RX_SLOT_PENDING and AX_RX_SLOT_DONE.
pub data SlotState : Type 0 where
  idle pending done : SlotState

-- `buffer` is what UHS wrote into the slot's DMA buffer.
pub record Slot : Type 0 where
  pub state : SlotState
  pub ret : ℤ
  pub actual : ℕ
  pub buffer : Bytes

abbrev pub rx_async_slots : ℕ
rx_async_slots = 3

-- The slots, the fields of `struct Ax88179` that the ring uses, and `g_rx`.
pub record Ring : Type 0 where
  pub slot0 : Slot
  pub slot1 : Slot
  pub slot2 : Slot
  pub rx_consume : ℕ
  pub started : Bool
  pub last_bulk : ℤ
  pub rx : Rx
  pub g_rx : Bytes
  pub medium : ℕ

-- `memcpy(dst, src, n)`
abbrev pub copy : ℕ → Bytes → Bytes → Bytes
copy n src dst = take n src ++ drop n dst

abbrev pub slot_at : Ring → ℕ → Slot
slot_at r i = if i == 0 then r.slot0 else if i == 1 then r.slot1 else r.slot2

abbrev pub set_slot : Ring → ℕ → Slot → Ring
set_slot r i s =
    if i == 0
    then record r { slot0 = s }
    else if i == 1
    then record r { slot1 = s }
    else record r { slot2 = s }

-- What UHS reports of one transfer: the slot, the result, the count of bytes, and the bytes that it
-- wrote.
pub record Completion : Type 0 where
  pub slot : ℕ
  pub ret : ℤ
  pub actual : ℕ
  pub bytes : Bytes

-- `ax_rx_async_callback`. UHS calls it once for a request that is pending, with the buffer that
-- was submitted, so the guard on the buffer passes; for any other slot there is no call.
unfoldable pub callback : Ring → Completion → Ring
callback r c = elim (slot_at r c.slot).state [
  | pending ↦ set_slot r c.slot (record {
    state = done;
    ret = c.ret;
    actual = c.actual;
    buffer = overwrite c.bytes (slot_at r c.slot).buffer;
  })
  | _ ↦ r
]

unfoldable pub callbacks : Ring → List Completion → Ring
unfolding callback
callbacks r [] = r
callbacks r (c ∷ cs) = callbacks (callback r c) cs

-- `ax_rx_submit_slot`: `rc` is the answer of `UhsSubmitBulkRequestAsync`. The Boolean is whether
-- the function returns 0.
unfoldable pub submit_slot : ℤ → Ring → ℕ → Bool × Ring
submit_slot rc r i =
    let s = record (slot_at r i) { ret = pos 0; actual = 0 } in
    if eq_nat rc 0
    then (true, set_slot r i (record s { state = pending }))
    else (false, record (set_slot r i (record s { state = idle })) { last_bulk = rc })

-- The second loop of `ax_rx_start_async`, with `n` slots to go, the next of them `i`; `rcs` are
-- the answers of UHS.
unfoldable pub submit_from : (ℕ → ℤ) → ℕ → ℕ → Ring → Bool × Ring
unfolding submit_slot
submit_from rcs i zero r = (true, r)
submit_from rcs i (suc n) r =
    let (submitted, r') = submit_slot (rcs i) r i in
    let rest = submit_from rcs (i + 1) n r' in
    if submitted then rest else (false, record r' { started = false })

-- What the first loop makes of a slot.
abbrev pub fresh_slot : Slot → Slot
fresh_slot s = record s { ret = pos 0; actual = 0; state = idle }

-- `ax_rx_start_async` up to its second loop.
abbrev pub fresh_ring : Ring → Ring
fresh_ring r = record r {
  rx_consume = 0;
  started = true;
  slot0 = fresh_slot r.slot0;
  slot1 = fresh_slot r.slot1;
  slot2 = fresh_slot r.slot2;
}

unfoldable pub start_async : (ℕ → ℤ) → Ring → Bool × Ring
unfolding submit_from
start_async rcs r = submit_from rcs 0 rx_async_slots (fresh_ring r)

-- What `ax_rx_take_completed` returns: 1, 0 or -1.
pub data Taken : Type 0 where
  aggregate : Taken
  not_yet : Taken
  bad : Taken

abbrev pub is_done : SlotState → Bool
is_done done = true
is_done _ = false

abbrev pub verdict : Loaded → Taken
verdict loaded = aggregate
verdict empty = not_yet
verdict invalid = bad

-- The end of `ax_rx_take_completed`, from the trailer on.
unfoldable pub take_loaded : Ring → ℕ → Option (Taken × Ring)
take_loaded r actual = load_aggregate r.g_rx r.rx actual >>= λ (p : Loaded × Rx).
    some (verdict p.0, record r { rx = p.1 })

-- The slot is idle again and the ring has moved on to the next one.
abbrev pub advance : Ring → Ring
advance r =
    set_slot
      (record r {
        rx_consume = (r.rx_consume + 1) % rx_async_slots;
        last_bulk = (slot_at r r.rx_consume).ret;
      })
      r.rx_consume (record (slot_at r r.rx_consume) { state = idle })

-- The branch of a transfer that failed, or whose length is no aggregate's.
unfoldable pub take_failed : ℤ → Ring → Taken × Ring
take_failed rc r =
    let slot = slot_at r r.rx_consume in
    (
      if is_neg slot.ret || not (slot.actual == 0) then bad else not_yet,
      (submit_slot rc (advance r) r.rx_consume).1,
    )

-- The branch of a transfer that is copied to `g_rx`.
unfoldable pub take_copied : ℤ → Ring → Option (Taken × Ring)
take_copied rc r =
    let slot = slot_at r r.rx_consume in
    let r' = record (advance r) { g_rx = copy slot.actual slot.buffer r.g_rx } in
    take_loaded (submit_slot rc r' r.rx_consume).1 slot.actual

-- `ax_rx_take_completed`; `rc` is the answer to the request that arms the slot again.
unfoldable pub take_completed : ℤ → Ring → Option (Taken × Ring)
take_completed rc r =
    let slot = slot_at r r.rx_consume in
    if not (is_done slot.state)
    then some (not_yet, r)
    else if is_neg slot.ret || ltb slot.actual 4 || ltb rx_buffer_size slot.actual
    then some (take_failed rc r)
    else take_copied rc r

-- The second try of `ax88179_receive` after a wait of at most `timeout_us`; `wait` are the
-- callbacks that run meanwhile.
unfoldable pub retry : ℤ → List Completion → ℕ → Taken → Ring → Option (Taken × Ring)
retry rc wait timeout_us not_yet r =
    if ltb 0 timeout_us then take_completed rc (callbacks r wait) else some (not_yet, r)
retry rc wait timeout_us t r = some (t, r)

-- What UHS answers during one call of `ax88179_receive`: to the requests of `ax_rx_start_async`,
-- to the one that arms a slot again in the first and in the second try, and the callbacks that run
-- during the wait.
pub record Uhs : Type 0 where
  pub starts : ℕ → ℤ
  pub first : ℤ
  pub second : ℤ
  pub wait : List Completion

-- `if (!ax->rx_async_started)`: whether the function goes on.
unfoldable pub ensure_started : Bool → (ℕ → ℤ) → Ring → Bool × Ring
ensure_started true rcs r = (true, r)
ensure_started false rcs r = start_async rcs r

-- The ring is started if need be, and an aggregate is taken.
unfoldable pub next_aggregate : Uhs → ℕ → Ring → Option (Taken × Ring)
next_aggregate uhs timeout_us r =
    let (up, r') = ensure_started r.started uhs.starts r in
    if up
    then (take_completed uhs.first r' >>= λ (p : Taken × Ring).
        retry uhs.second uhs.wait timeout_us p.0 p.1)
    else some (bad, r')

-- `ax88179_receive_buffered` on the driver's own state.
unfoldable pub receive_parsed : ℕ → Ring → Option (Received × Ring)
receive_parsed max_length r = receive_buffered r.g_rx max_length r.rx >>= λ (p : Received × Rx).
    some (p.0, record r { rx = p.1 })

-- What `ax88179_receive` does with the outcome of `next_aggregate`.
unfoldable pub after_take : ℕ → Taken → Ring → Option (Received × Ring)
after_take max_length aggregate r = receive_parsed max_length r
after_take max_length not_yet r = some (nothing, r)
after_take max_length bad r = some (refused, r)

-- What it does with the outcome of the parser-owned aggregate.
unfoldable pub after_parse : Uhs → ℕ → ℕ → Received → Ring → Option (Received × Ring)
after_parse uhs timeout_us max_length nothing r =
    next_aggregate uhs timeout_us r >>= λ (p : Taken × Ring). after_take max_length p.0 p.1
after_parse uhs timeout_us max_length x r = some (x, r)

-- `ax88179_receive`, with `ax` and `frame` not null.
unfoldable pub receive : Uhs → ℕ → ℕ → Ring → Option (Received × Ring)
receive uhs timeout_us max_length r =
    if ltb max_length 14
    then some (refused, r)
    else if r.medium == 0
    then some (nothing, r)
    else (receive_parsed max_length r >>= λ (p : Received × Ring).
        after_parse uhs timeout_us max_length p.0 p.1)
