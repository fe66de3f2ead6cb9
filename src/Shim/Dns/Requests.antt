-- ===== src/Shim/Dns/Requests.antt =====
-- One request from its first call to its answer.
use ax88179_aroma_driver.Base.{
  ℕ, ◌+◌, ◌/◌, ◌%◌, ◌^◌, ◌-◌, ◌<◌, ◌≡◌, refl, ◌∙◌, ap, Bool, true, false, ◌||◌, none, some, Bytes,
  List, [], ◌∷◌, length, get_elem?, get_elem?-some, ltb, leb, ◌==◌, if◌then◌else◌, arith,
}
use ax88179_aroma_driver.Shim.Dns.{
  State, Slot, Table, free, pending, ready, failed, find, new_ticket, find_free, alter, name_size,
  async_dns_max, token_of, matches, fill, claim_at, claim, retire, settle, found, Err, in_progress,
  eai_inprogress, eai_noname, sync, poll, start, lookup, begin, after_query, finish_begun,
  getaddrinfo_async,
}
use ax88179_aroma_driver.Shim.Dns.Slots.{
  get_elem?-alter_self, alter-alter, alter-ext, same_name_self, find_free-some, find-alter,
  state_at-some,
}

-- The table with a request for the name in slot `i`, and with that slot free again.
abbrev pub asked : Bytes → ℕ → Table → Table
asked name i t = record {
  slots = alter (fill (new_ticket t.counter).0 name) i t.slots;
  counter = (new_ticket t.counter).1;
}

abbrev pub answered_table : Bytes → ℕ → Table → Table
answered_table name i t = record {
  slots = alter (λ s. record { state = free; ticket = 0; name = name }) i t.slots;
  counter = (new_ticket t.counter).1;
}

-- What the first call, one before the callback, the callback, and one behind it lead to.
abbrev pub Answers : Bytes → ℕ → Table → Err → Bool → Type 0
Answers name i t err answered =
    (getaddrinfo_async in_progress name t ≡ (eai_inprogress, asked name i t))
    × (getaddrinfo_async err name (asked name i t) ≡ (eai_inprogress, asked name i t))
    × (getaddrinfo_async err name
          (found answered (token_of (new_ticket t.counter).0 i) (asked name i t))
        ≡ (if answered then sync else eai_noname, answered_table name i t))

getaddrinfo_async-found :
    (err : Err) (name : Bytes) (t : Table) (i : ℕ) (s : Slot)
    → 0 < length name
    → find name t.slots ≡ some i
    → get_elem? t.slots i ≡ some s
    → getaddrinfo_async err name t ≡ finish_begun err (poll i s.state t)
unfolding getaddrinfo_async begin lookup
getaddrinfo_async-found err [] t i s h e at_i = absurd (omega arith)
getaddrinfo_async-found err (c ∷ cs) t i s h e at_i =
    ap (λ o. finish_begun err (lookup (c ∷ cs) t o)) e
    ∙ ap (λ st. finish_begun err (poll i st t)) (state_at-some t.slots i at_i)

getaddrinfo_async-absent :
    (name : Bytes) (t : Table) (i : ℕ)
    → 0 < length name
    → length name < name_size
    → find name t.slots ≡ none
    → find_free t.slots ≡ some i
    → getaddrinfo_async in_progress name t ≡ (eai_inprogress, asked name i t)
unfolding getaddrinfo_async begin lookup start claim claim_at finish_begun after_query
getaddrinfo_async-absent [] t i h fits e f = absurd (omega arith)
getaddrinfo_async-absent (c ∷ cs) t i h fits e f = rw (e, short, f) refl
  where
    short : leb name_size (length (c ∷ cs)) ≡ false
    short = ground arith

found-slot :
    (answered : Bool) (ticket i : ℕ) (t : Table)
    → i < 8
    → found answered (token_of ticket i) t
      ≡ record t { slots = alter (settle answered ticket) i t.slots }
unfolding found
found-slot answered ticket i t h =
    let low : token_of ticket i % 2 ^ 4 ≡ i + 1 = omega arith in
    let high : token_of ticket i / 2 ^ 4 ≡ ticket = omega arith in
    let inside : (i + 1 == 0 || ltb async_dns_max (i + 1)) ≡ false = ground arith in
    let back : i + 1 - 1 ≡ i = omega arith in rw (low, high, inside, back) refl

-- Behind a change that makes the slot one of the name with this state, a call polls it.
getaddrinfo_async-alter :
    (err : Err) (name : Bytes) (ss : List Slot) (counter i : ℕ) (s : Slot) (f : Slot → Slot)
    → 0 < length name
    → find name ss ≡ none
    → get_elem? ss i ≡ some s
    → matches name (f s) ≡ true
    → getaddrinfo_async err name (record { slots = alter f i ss; counter = counter })
      ≡ finish_begun err (poll i (f s).state (record { slots = alter f i ss; counter = counter }))
getaddrinfo_async-alter err name ss counter i s f h e at_i hit =
    getaddrinfo_async-found err name (record { slots = alter f i ss; counter = counter }) i (f s) h
      (find-alter name f i ss e at_i hit) (get_elem?-alter_self f i ss at_i)

settle-fill :
    (answered : Bool) (ticket : ℕ) (name : Bytes) (s : Slot)
    → settle answered ticket (fill ticket name s)
      ≡ record { state = if answered then ready else failed; ticket = ticket; name = name }
settle-fill answered ticket name s = rw same_ticket refl
  where
    same_ticket : (ticket == ticket) ≡ true
    same_ticket = ground arith

poll_settled :
    (err : Err) (answered : Bool) (ticket counter i : ℕ) (name : Bytes) (ss : List Slot)
    → finish_begun err (
        poll i (if answered then ready else failed) (record {
          slots =
              alter
                (λ s. record {
                  state = if answered then ready else failed;
                  ticket = ticket;
                  name = name;
                })
                i
                ss;
          counter = counter;
        }))
      ≡ (
        if answered then sync else eai_noname,
        record {
          slots = alter (λ s. record { state = free; ticket = 0; name = name }) i ss;
          counter = counter;
        },
      )
unfolding poll finish_begun
poll_settled err true ticket counter i name ss =
    rw (alter-alter retire (λ s. record { state = ready; ticket = ticket; name = name }) i ss) refl
poll_settled err false ticket counter i name ss =
    rw (alter-alter retire (λ s. record { state = failed; ticket = ticket; name = name }) i ss) refl

poll_pending :
    (err : Err) (i : ℕ) (t : Table) → finish_begun err (poll i pending t) ≡ (eai_inprogress, t)
unfolding poll finish_begun
poll_pending err i t = refl

settled_hit :
    (answered : Bool) (ticket : ℕ) (name : Bytes)
    → matches name
        (record { state = if answered then ready else failed; ticket = ticket; name = name })
      ≡ true
settled_hit true ticket name = same_name_self name
settled_hit false ticket name = same_name_self name

-- A hostname of 1 to 256 bytes that has no request, with slot `i` the first free one of the 8, where
-- lwIP answers that the query is in progress: the first call returns EAI_INPROGRESS, and so does each
-- one before the callback, and they leave the same table, with the request in slot `i`. After the
-- callback with the token of the request the next call takes the result from
-- `shim_getaddrinfo_sync` if there is an address and returns EAI_NONAME if there is none, and slot `i`
-- is free again, with all others as they were.
pub getaddrinfo_async-Answers :
    (name : Bytes) (i : ℕ) (t : Table) (err : Err) (answered : Bool)
    → 0 < length name
    → length name < name_size
    → length t.slots ≡ async_dns_max
    → find name t.slots ≡ none
    → find_free t.slots ≡ some i
    → Answers name i t err answered
getaddrinfo_async-Answers name i t err answered long fits size absent at_free =
    let (s, at_i, is) = find_free-some t.slots at_free in
    let k : ℕ = (new_ticket t.counter).0 in
    let after : ℕ = (new_ticket t.counter).1 in
    let table : List Slot → ℕ → Table = λ ss c. record { slots = ss; counter = c } in
    let st : State = if answered then ready else failed in
    let inside : i < 8 = omega (arith, get_elem?-some t.slots i at_i) in
    let filled : Slot → Slot = λ s. record { state = st; ticket = k; name = name } in
    let moved =
      found-slot answered k i (asked name i t) inside
      ∙ ap (λ (ss : List Slot). table ss after)
          (alter-alter (settle answered k) (fill k name) i t.slots
            ∙ alter-ext _ filled i t.slots (λ s e. settle-fill answered k name s)) in
    let pending_hit : matches name (fill k name s) ≡ true = same_name_self name in
    (
      getaddrinfo_async-absent name t i long fits absent at_free,
      getaddrinfo_async-alter err name t.slots after i s (fill k name) long absent at_i pending_hit
          ∙ poll_pending err i (asked name i t),
      ap (getaddrinfo_async err name) moved
          ∙ (getaddrinfo_async-alter err name t.slots after i s filled long absent at_i
                (settled_hit answered k name)
              ∙ poll_settled err answered k after i name t.slots),
    )
