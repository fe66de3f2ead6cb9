-- ===== src/Shim/Dns/Generations.antt =====
-- Callbacks that are older than the last reset of the table.
use ax88179_aroma_driver.Base.{
  ℕ, ◌+◌, ◌/◌, ◌%◌, ◌^◌, ◌-◌, ◌≤◌, ◌<◌, ◌≡◌, refl, ◌∙◌, ap, ◌⊎◌, inl, inr, Bool, false, ◌||◌, some,
  List, get_elem?, ltb, ◌==◌, Bool-cases, arith,
}
use ax88179_aroma_driver.Shim.Dns.{
  Slot, Table, new_ticket, alter, fill, retire, free_if, free_slot, zero_ticket, forget_ticket,
  settle, async_dns_max, found, reset_all,
}
use ax88179_aroma_driver.Shim.Dns.Slots.{alter_cases, alter-id, alter-ext, blank_all-blank}
use ax88179_aroma_driver.Shim.Dns.Steps.{
  Step, calls, calls_back, frees, forgets, resets, Reach, here, next, Change, same, retires, claims,
  begin-Change,
}

abbrev Tickets : ℕ → List Slot → Type 0
Tickets c ss = (i : ℕ) (s : Slot) → get_elem? ss i ≡ some s → (s.ticket ≡ 0) ⊎ (c ≤ s.ticket)

-- The counter has reached `c`, and every ticket is 0 or was given out since.
record IsNewer (c : ℕ) (t : Table) : Type 0 where
  reached : c ≤ t.counter
  tickets : Tickets c t.slots

alter-Tickets :
    (c : ℕ) (f : Slot → Slot) (i : ℕ) (ss : List Slot)
    → ((s : Slot) → (s.ticket ≡ 0) ⊎ (c ≤ s.ticket) → ((f s).ticket ≡ 0) ⊎ (c ≤ (f s).ticket))
    → Tickets c ss
    → Tickets c (alter f i ss)
alter-Tickets c f i ss h k j s' e =
    let (s, at_j, o) = alter_cases f i j ss s' e in
    elim o [ inl p ↦ rw p (k j s at_j) | inr p ↦ rw (p.1) (h s (k j s at_j)) ]

settle-ticket :
    (answered : Bool) (ticket : ℕ) (s : Slot) → (settle answered ticket s).ticket ≡ s.ticket
settle-ticket answered ticket s = elim (Bool-cases (s.ticket == ticket)) [
  | inl e ↦ rw e refl
  | inr e ↦ rw e refl
]

free_if-ticket : (ticket : ℕ) (s : Slot) → (free_if ticket s).ticket ≡ s.ticket
free_if-ticket ticket s = elim (Bool-cases (s.ticket == ticket)) [
  | inl e ↦ rw e refl
  | inr e ↦ rw e refl
]

found-IsNewer :
    (c : ℕ) (answered : Bool) (token : ℕ) (t : Table)
    → IsNewer c t
    → IsNewer c (found answered token t)
unfolding found
found-IsNewer c answered token t d =
    elim (Bool-cases (token % 2 ^ 4 == 0 || ltb async_dns_max (token % 2 ^ 4))) [
      | inl e ↦ rw e d
      | inr e ↦ rw e (record {
        reached = d.reached;
        tickets =
            alter-Tickets c _ _ t.slots (λ s h. rw (settle-ticket answered (token / 2 ^ 4) s) h)
              d.tickets;
      })
    ]

found-counter :
    (answered : Bool) (token : ℕ) (t : Table) → (found answered token t).counter ≡ t.counter
unfolding found
found-counter answered token t =
    elim (Bool-cases (token % 2 ^ 4 == 0 || ltb async_dns_max (token % 2 ^ 4))) [
      | inl e ↦ rw e refl
      | inr e ↦ rw e refl
    ]

Change-IsNewer :
    (c : ℕ) {t u : Table}
    → Change t u
    → t.counter + 1 < 2 ^ 28
    → IsNewer c t
    → IsNewer c u × (u.counter ≤ t.counter + 1)
unfolding new_ticket
Change-IsNewer c same h d = (d, omega arith)
Change-IsNewer c {t} (retires i e) h d = (
  record {
    reached = d.reached;
    tickets = alter-Tickets c retire i t.slots (λ s k. inl refl) d.tickets;
  },
  omega arith,
)
Change-IsNewer c {t} (claims name i e f) h d =
    let low = d.reached in
    let new : c ≤ (new_ticket t.counter).0 = ground arith in
    (
      record {
        reached = omega arith;
        tickets =
            alter-Tickets c (fill (new_ticket t.counter).0 name) i t.slots (λ s k. inr new)
              d.tickets;
      },
      omega arith,
    )

Step-IsNewer :
    (c : ℕ) {r : Bool} {t u : Table}
    → Step r t u
    → t.counter + 1 < 2 ^ 28
    → IsNewer c t
    → IsNewer c u × (u.counter ≤ t.counter + 1)
unfolding free_slot forget_ticket reset_all
Step-IsNewer c {t = t} (calls name) h d = Change-IsNewer c (begin-Change name t) h d
Step-IsNewer c {t = t} (calls_back answered token k) h d =
    (found-IsNewer c answered token t d, omega (arith, found-counter answered token t))
Step-IsNewer c {t = t} (frees i ticket k) h d = (
  record {
    reached = d.reached;
    tickets =
        alter-Tickets c (free_if ticket) i t.slots (λ s k. rw (free_if-ticket ticket s) k)
          d.tickets;
  },
  omega arith,
)
Step-IsNewer c {t = t} (forgets i) h d = (
  record {
    reached = d.reached;
    tickets = alter-Tickets c zero_ticket i t.slots (λ s k. inl refl) d.tickets;
  },
  omega arith,
)
Step-IsNewer c {t = t} (resets e) h d = (
  record {
    reached = d.reached;
    tickets = λ j s at_j. inl (ap (λ a. a.ticket) (blank_all-blank t.slots j s at_j));
  },
  omega arith,
)

Reach-IsNewer :
    (c : ℕ) {r : Bool} {t u : Table} {n : ℕ}
    → Reach r t n u
    → t.counter + n < 2 ^ 28
    → IsNewer c t
    → IsNewer c u × (u.counter ≤ t.counter + n)
Reach-IsNewer c here h d = (d, omega arith)
Reach-IsNewer c {t = t} (next {n = n} {u = u} r s) h d =
    let (before, k) = Reach-IsNewer c r (omega arith) d in
    let (after, l) = Step-IsNewer c s (omega arith) before in (after, omega arith)

found-ignores :
    (c : ℕ) (answered : Bool) (token : ℕ) (t : Table)
    → IsNewer c t
    → 1 ≤ token / 2 ^ 4
    → token / 2 ^ 4 < c
    → found answered token t ≡ t
unfolding found
found-ignores c answered token t d k old =
    elim (Bool-cases (token % 2 ^ 4 == 0 || ltb async_dns_max (token % 2 ^ 4))) [
      | inl e ↦ rw e refl
      | inr e ↦ rw e (
          ap (λ ss. record t { slots = ss })
            (alter-ext (settle answered (token / 2 ^ 4)) (λ s. s) (token % 2 ^ 4 - 1) t.slots
                (λ s at_i.
                  let other : (s.ticket == token / 2 ^ 4) ≡ false = elim (d.tickets _ s at_i) [
                    | inl z ↦ ground arith
                    | inr z ↦ ground arith
                  ] in
                  rw other refl)
              ∙ alter-id (token % 2 ^ 4 - 1) t.slots))
    ]

-- A callback whose ticket was given out before `async_dns_reset_all` changes nothing in any table
-- that is reached behind it, with further calls, callbacks, releases and resets in any order, as long
-- as the counter and the number of steps stay below 2^28 together.
pub reset_all-ignores_old :
    {r : Bool} (t : Table) {u : Table} {n : ℕ} (answered : Bool) (token : ℕ)
    → Reach r (reset_all t) n u
    → t.counter + n < 2 ^ 28
    → 1 ≤ token / 2 ^ 4
    → token / 2 ^ 4 < t.counter
    → found answered token u ≡ u
unfolding reset_all
reset_all-ignores_old t {u = u} answered token r h k old =
    let start : IsNewer t.counter (reset_all t) = record {
      reached = omega arith;
      tickets = λ j s at_j. inl (ap (λ a. a.ticket) (blank_all-blank t.slots j s at_j));
    } in
    found-ignores t.counter answered token u (Reach-IsNewer t.counter r h start).0 k old
