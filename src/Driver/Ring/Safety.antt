-- ===== src/Driver/Ring/Safety.antt =====
-- The invariant of the receive ring along `ax88179_receive`.
use ax88179_aroma_driver.Base.{
  ℕ, zero, suc, ◌+◌, ◌*◌, ◌≤◌, ◌<◌, ◌≡◌, ◌∙◌, sym, inl, inr, Bool, true, false, not, ◌||◌, Option,
  none, some, Bytes, List, [], ◌∷◌, arith, Bool-cases, le→ltb, ℤ, is_neg, drop, length,
  length-append, length-overwrite, length-take, length-drop, ltb, ◌==◌, if◌then◌else◌, ◌>>=◌, take,
}
use ax88179_aroma_driver.Driver.Rx.{
  Rx, Loaded, loaded, empty, invalid, load_aggregate, Received, nothing, refused, frame,
  receive_buffered, rx_buffer_size,
}
use ax88179_aroma_driver.Driver.Rx.Bounds.{
  Delivered, receive_buffered-Delivered, LoadedWell, load_aggregate-LoadedWell,
}
use ax88179_aroma_driver.Driver.Ring.{
  Ring, copy, slot_at, advance, take_failed, take_copied, Completion, callback, callbacks,
  submit_slot, submit_from, start_async, Taken, aggregate, not_yet, bad, is_done, verdict,
  fresh_ring, take_loaded, take_completed, retry, ensure_started, Uhs, next_aggregate,
  receive_parsed, after_take, after_parse, receive, rx_async_slots,
}

-- What holds of the driver between two calls.
pub record IsValid (r : Ring) : Type 0 where
  pub consume_in : r.rx_consume < 3
  pub snapshot : length r.g_rx ≡ rx_buffer_size
  pub buffer0 : length r.slot0.buffer ≡ rx_buffer_size
  pub buffer1 : length r.slot1.buffer ≡ rx_buffer_size
  pub buffer2 : length r.slot2.buffer ≡ rx_buffer_size
  pub len_in : r.rx.rx_len ≤ rx_buffer_size
  pub descriptors :
      r.rx.rx_next < r.rx.rx_frames → r.rx.rx_hdr_offset + 4 * r.rx.rx_frames + 4 ≤ r.rx.rx_len

callback-IsValid : (r : Ring) (c : Completion) → IsValid r → IsValid (callback r c)
unfolding callback
callback-IsValid r c v = ground (arith, length-overwrite c.bytes (slot_at r c.slot).buffer)

callbacks-IsValid : (r : Ring) (cs : List Completion) → IsValid r → IsValid (callbacks r cs)
unfolding callbacks
callbacks-IsValid r [] v = v
callbacks-IsValid r (c ∷ cs) v = callbacks-IsValid (callback r c) cs (callback-IsValid r c v)

submit_slot-IsValid : (rc : ℤ) (r : Ring) (i : ℕ) → IsValid r → IsValid (submit_slot rc r i).1
unfolding submit_slot
submit_slot-IsValid rc r i v = ground arith

submit_from-IsValid :
    (rcs : ℕ → ℤ) (i n : ℕ) (r : Ring) → IsValid r → IsValid (submit_from rcs i n r).1
unfolding submit_from
submit_from-IsValid rcs i zero r v = v
submit_from-IsValid rcs i (suc n) r v =
    let step = submit_slot-IsValid (rcs i) r i v in
    let rest = submit_from-IsValid rcs (i + 1) n (submit_slot (rcs i) r i).1 step in ground arith

start_async-IsValid : (rcs : ℕ → ℤ) (r : Ring) → IsValid r → IsValid (start_async rcs r).1
unfolding start_async
start_async-IsValid rcs r v = submit_from-IsValid rcs 0 rx_async_slots (fresh_ring r) (ground arith)

-- A step that may read: it succeeds, and leaves a valid ring.
abbrev pub Keeps {ℓ} : {A : Type ℓ} → Option (A × Ring) → Type 0
Keeps none = ⊥
Keeps (some (a, r)) = IsValid r

length-copy :
    (n : ℕ) (src dst : Bytes) → length src ≡ length dst → length (copy n src dst) ≡ length dst
length-copy n src dst h =
    omega (arith, length-append (take n src) (drop n dst), length-take n src, length-drop n dst)

take_loaded-Keeps :
    (r : Ring) (actual : ℕ)
    → IsValid r
    → 4 ≤ actual
    → actual ≤ rx_buffer_size
    → Keeps (take_loaded r actual)
unfolding take_loaded
take_loaded-Keeps r actual v low high =
    go (load_aggregate r.g_rx r.rx actual)
      (load_aggregate-LoadedWell r.g_rx r.rx actual low (omega arith))
  where
    go :
        (o : Option (Loaded × Rx))
        → LoadedWell r.g_rx o
        → Keeps (o >>= λ (p : Loaded × Rx). some (verdict p.0, record r { rx = p.1 }))
    go none h = absurd h
    go (some (loaded, rx)) h = ground arith
    go (some (empty, rx)) h = ground arith
    go (some (invalid, rx)) h = ground arith

advance-IsValid : (r : Ring) → IsValid r → IsValid (advance r)
advance-IsValid r v = ground arith

buffer-slot_at : (r : Ring) (i : ℕ) → IsValid r → length (slot_at r i).buffer ≡ rx_buffer_size
buffer-slot_at r i v = ground arith

take_copied-Keeps :
    (rc : ℤ) (r : Ring)
    → IsValid r
    → 4 ≤ (slot_at r r.rx_consume).actual
    → (slot_at r r.rx_consume).actual ≤ rx_buffer_size
    → Keeps (take_copied rc r)
unfolding take_copied
take_copied-Keeps rc r v low high =
    let slot = slot_at r r.rx_consume in
    let r' = record (advance r) { g_rx = copy slot.actual slot.buffer r.g_rx } in
    let ad = advance-IsValid r v in
    let len =
      length-copy slot.actual slot.buffer r.g_rx
        (buffer-slot_at r r.rx_consume v ∙ sym v.snapshot) in
    let v' : IsValid r' = record {
      consume_in = ad.consume_in;
      snapshot = len ∙ v.snapshot;
      buffer0 = ad.buffer0;
      buffer1 = ad.buffer1;
      buffer2 = ad.buffer2;
      len_in = ad.len_in;
      descriptors = ad.descriptors;
    } in
    take_loaded-Keeps (submit_slot rc r' r.rx_consume).1 slot.actual
      (submit_slot-IsValid rc r' r.rx_consume v') low high

take_completed-Keeps : (rc : ℤ) (r : Ring) → IsValid r → Keeps (take_completed rc r)
unfolding take_completed take_failed
take_completed-Keeps rc r v =
    let failed = submit_slot-IsValid rc (advance r) r.rx_consume (advance-IsValid r v) in
    let slot = slot_at r r.rx_consume in
    elim (Bool-cases (not (is_done slot.state))) [
      | inl e ↦ rw e v
      | inr e ↦
          elim (Bool-cases
            (is_neg slot.ret || ltb slot.actual 4 || ltb rx_buffer_size slot.actual)) [
              | inl f ↦ rw (e, f) failed
              | inr f ↦ rw (e, f) (take_copied-Keeps rc r v (ground arith) (ground arith))
            ]
    ]

ensure_started-IsValid :
    (b : Bool) (rcs : ℕ → ℤ) (r : Ring) → IsValid r → IsValid (ensure_started b rcs r).1
unfolding ensure_started
ensure_started-IsValid true rcs r v = v
ensure_started-IsValid false rcs r v = start_async-IsValid rcs r v

-- A receive that is safe: it leaves a valid driver, and a frame fits.
abbrev pub Safe : ℕ → Option (Received × Ring) → Type 0
Safe max_length none = ⊥
Safe max_length (some (frame f, r)) = IsValid r × (14 ≤ length f) × (length f ≤ max_length)
Safe max_length (some (_, r)) = IsValid r

module _ (uhs : Uhs) (timeout_us : ℕ) where
  retry-Keeps :
      (t : Taken) (r : Ring) → IsValid r → Keeps (retry uhs.second uhs.wait timeout_us t r)
  unfolding retry
  retry-Keeps aggregate r v = v
  retry-Keeps bad r v = v
  retry-Keeps not_yet r v = elim (Bool-cases (ltb 0 timeout_us)) [
    | inl e ↦
        rw e
          (take_completed-Keeps uhs.second (callbacks r uhs.wait) (callbacks-IsValid r uhs.wait v))
    | inr e ↦ rw e v
  ]

  bind_retry :
      (o : Option (Taken × Ring))
      → Keeps o
      → Keeps (o >>= λ (p : Taken × Ring). retry uhs.second uhs.wait timeout_us p.0 p.1)
  bind_retry none k = absurd k
  bind_retry (some (t, r)) k = retry-Keeps t r k

  next_aggregate-Keeps : (r : Ring) → IsValid r → Keeps (next_aggregate uhs timeout_us r)
  unfolding next_aggregate
  next_aggregate-Keeps r v =
      go (ensure_started r.started uhs.starts r) (ensure_started-IsValid r.started uhs.starts r v)
    where
      go :
          (s : Bool × Ring)
          → IsValid s.1
          → Keeps (
              if s.0
              then (take_completed uhs.first s.1 >>= λ (p : Taken × Ring).
                  retry uhs.second uhs.wait timeout_us p.0 p.1)
              else some (bad, s.1))
      go (true, r') v' =
          bind_retry (take_completed uhs.first r') (take_completed-Keeps uhs.first r' v')
      go (false, r') v' = v'

  module _ (max_length : ℕ) (room : 14 ≤ max_length) where
    receive_parsed-Safe : (r : Ring) → IsValid r → Safe max_length (receive_parsed max_length r)
    unfolding receive_parsed
    receive_parsed-Safe r v =
        go (receive_buffered r.g_rx max_length r.rx)
          (receive_buffered-Delivered r.g_rx max_length r.rx room (ground arith))
      where
        go :
            (o : Option (Received × Rx))
            → Delivered r.g_rx max_length o
            → Safe max_length (o >>= λ (p : Received × Rx). some (p.0, record r { rx = p.1 }))
        go none h = absurd h
        go (some (nothing, rx)) h = ground arith
        go (some (refused, rx)) h = ground arith
        go (some (frame f, rx)) h = ground arith

    after_take-Safe :
        (t : Taken) (r : Ring) → IsValid r → Safe max_length (after_take max_length t r)
    unfolding after_take
    after_take-Safe aggregate r v = receive_parsed-Safe r v
    after_take-Safe not_yet r v = v
    after_take-Safe bad r v = v

    after_parse-Safe :
        (x : Received) (r : Ring)
        → Safe max_length (some (x, r))
        → Safe max_length (after_parse uhs timeout_us max_length x r)
    unfolding after_parse
    after_parse-Safe nothing r v = go (next_aggregate uhs timeout_us r) (next_aggregate-Keeps r v)
      where
        go :
            (o : Option (Taken × Ring))
            → Keeps o
            → Safe max_length (o >>= λ (p : Taken × Ring). after_take max_length p.0 p.1)
        go none k = absurd k
        go (some (t, r')) k = after_take-Safe t r' k
    after_parse-Safe refused r v = v
    after_parse-Safe (frame f) r v = v

    -- `ax88179_receive`, called with room for 14 bytes at least on a valid ring: whatever the adapter wrote into its transfers and whatever UHS answers, no read
    -- leaves the snapshot `g_rx` or the aggregate's descriptors, the ring stays valid, and a
    -- frame that is delivered has 14 to `max_length` bytes.
    pub receive-Safe :
        (r : Ring) → IsValid r → Safe max_length (receive uhs timeout_us max_length r)
    unfolding receive
    receive-Safe r v = elim (Bool-cases (r.medium == 0)) [
      | inl e ↦ rw (le→ltb max_length 14 room, e) v
      | inr e ↦
          rw (le→ltb max_length 14 room, e)
            (go (receive_parsed max_length r) (receive_parsed-Safe r v))
    ]
      where
        go :
            (o : Option (Received × Ring))
            → Safe max_length o
            → Safe max_length
                (o >>= λ (p : Received × Ring). after_parse uhs timeout_us max_length p.0 p.1)
        go none k = absurd k
        go (some (nothing, r')) k = after_parse-Safe nothing r' k
        go (some (refused, r')) k = after_parse-Safe refused r' k
        go (some (frame f, r')) k = after_parse-Safe (frame f) r' k
