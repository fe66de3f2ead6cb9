-- ===== src/Shim/Dns/Lost.antt =====
-- A release that another thread's claim of the same slot overtakes.
use ax88179_aroma_driver.Base.{
  ℕ, ◌/◌, ◌%◌, ◌^◌, ◌-◌, ◌≤◌, ◌<◌, ◌≡◌, refl, sym, ◌∙◌, ap, inl, inr, Bool, true, false, ◌||◌,
  Option, none, some, Bytes, [], ◌∷◌, length, get_elem?, ltb, leb, ◌==◌, Bool-cases, arith,
}
use ax88179_aroma_driver.Shim.Dns.{
  Slot, Table, pending, is_free, find, new_ticket, find_free, alter, name_size, async_dns_max, fill,
  claim_at, claim, retire, free_if, free_slot, zero_ticket, forget_ticket, settle, found,
  eai_inprogress, replied, poll, state_at, start, lookup, begin,
}
use ax88179_aroma_driver.Shim.Dns.Slots.{
  get_elem?-alter_self, get_elem?-alter_ne, alter-keeps, find-some, find-none, find_free-some,
  state_at-some,
}
use ax88179_aroma_driver.Shim.Dns.Steps.{
  Step, calls, calls_back, frees, forgets, resets, Reach, here, next, Change, same, retires, claims,
  is_pending, begin-Change,
}
use ax88179_aroma_driver.Shim.Dns.Names.{Distinct, Reach-Distinct}

-- A pending slot without a ticket.
abbrev lost : Bytes → Slot
lost name = record { state = pending; ticket = 0; name = name }

abbrev IsLost : Bytes → ℕ → Table → Type 0
IsLost name i t = get_elem? t.slots i ≡ some (lost name)

Change-IsLost :
    (name : Bytes) (i : ℕ) {t u : Table} → Change t u → IsLost name i t → IsLost name i u
Change-IsLost name i same h = h
Change-IsLost name i {t} (retires k e) h =
    get_elem?-alter_ne retire k i t.slots (λ (q : k ≡ i).
      let waits : is_pending (state_at t.slots k) ≡ true =
        ap is_pending (ap (state_at t.slots) q ∙ state_at-some t.slots i h) in
      absurd cc)
    ∙ h
Change-IsLost name i {t} (claims name' k e f) h =
    let (s, at_k, is) = find_free-some t.slots f in
    get_elem?-alter_ne (fill (new_ticket t.counter).0 name') k i t.slots (λ (q : k ≡ i).
      let one : s ≡ lost name = cc in
      let gone : is_free (lost name).state ≡ true = ap (λ a. is_free a.state) (sym one) ∙ is in
      absurd cc)
    ∙ h

no_ticket : (ticket : ℕ) → 1 ≤ ticket → (0 == ticket) ≡ false
no_ticket ticket h = ground arith

found-IsLost :
    (name : Bytes) (i : ℕ) (answered : Bool) (token : ℕ) (t : Table)
    → 1 ≤ token / 2 ^ 4
    → IsLost name i t
    → IsLost name i (found answered token t)
unfolding found
found-IsLost name i answered token t k h =
    elim (Bool-cases (token % 2 ^ 4 == 0 || ltb async_dns_max (token % 2 ^ 4))) [
      | inl e ↦ rw e h
      | inr e ↦ rw e (
          alter-keeps (settle answered (token / 2 ^ 4)) (token % 2 ^ 4 - 1) i t.slots (lost name)
            (rw (no_ticket (token / 2 ^ 4) k) refl) h)
    ]

Step-IsLost :
    (name : Bytes) (i : ℕ) {t u : Table} → Step false t u → IsLost name i t → IsLost name i u
unfolding free_slot forget_ticket
Step-IsLost name i {t = t} (calls other) h = Change-IsLost name i (begin-Change other t) h
Step-IsLost name i {t = t} (calls_back answered token k) h =
    found-IsLost name i answered token t k h
Step-IsLost name i {t = t} (frees j ticket k) h =
    alter-keeps (free_if ticket) j i t.slots (lost name) (rw (no_ticket ticket k) refl) h
Step-IsLost name i {t = t} (forgets j) h = alter-keeps zero_ticket j i t.slots (lost name) refl h
Step-IsLost name i {t = t} (resets e) h = absurd cc

Reach-IsLost :
    (name : Bytes) (i : ℕ) {t u : Table} {n : ℕ}
    → Reach false t n u
    → IsLost name i t
    → IsLost name i u
Reach-IsLost name i here h = h
Reach-IsLost name i (next r s) h = Step-IsLost name i s (Reach-IsLost name i r h)

-- A name whose slot is lost is in progress.
begin-lost :
    (name : Bytes) (i : ℕ) (t : Table)
    → 0 < length name
    → Distinct t.slots
    → IsLost name i t
    → begin name t ≡ (replied eai_inprogress, t)
unfolding begin lookup poll
begin-lost [] i t long d h = absurd (omega arith)
begin-lost (c ∷ cs) i t long d h = go (find (c ∷ cs) t.slots) refl
  where
    go :
        (o : Option ℕ)
        → find (c ∷ cs) t.slots ≡ o
        → lookup (c ∷ cs) t o ≡ (replied eai_inprogress, t)
    go none e = absurd (find-none (c ∷ cs) t.slots i (lost (c ∷ cs)) e h refl refl)
    go (some k) e =
        let (s, at_k, live, name) = find-some (c ∷ cs) t.slots e in
        let one : k ≡ i = d k i s (lost (c ∷ cs)) at_k h live refl name in
        ap (λ st. poll k st t) (ap (state_at t.slots) one ∙ state_at-some t.slots i h)

-- The table behind the first store of a release of slot `i`, the locked part of another thread's call
-- for `name`, and the second store.
abbrev pub overtaken : Bytes → ℕ → ℕ → Table → Table
overtaken name i ticket t = forget_ticket i (begin name (free_slot i ticket t)).1

claimed-IsLost :
    (name : Bytes) (i : ℕ) (t : Table)
    → 0 < length name
    → length name < name_size
    → find name t.slots ≡ none
    → find_free t.slots ≡ some i
    → IsLost name i (forget_ticket i (begin name t).1)
unfolding begin lookup start claim claim_at forget_ticket
claimed-IsLost [] i t long fits absent at_free = absurd (omega arith)
claimed-IsLost (c ∷ cs) i t long fits absent at_free =
    let (s, at_i, is) = find_free-some t.slots at_free in
    rw (absent, short, at_free)
      (get_elem?-alter_self zero_ticket i (alter (fill (new_ticket t.counter).0 (c ∷ cs)) i t.slots)
        (get_elem?-alter_self (fill (new_ticket t.counter).0 (c ∷ cs)) i t.slots at_i))
  where
    short : leb name_size (length (c ∷ cs)) ≡ false
    short = ground arith

-- `async_dns_release_if_ticket` stores the state FREE before the ticket 0, without the lock. If
-- another thread's call claims the slot between the two stores, for a hostname of 1 to 256 bytes that
-- has no request, then from there on every call for that hostname returns EAI_INPROGRESS and changes
-- nothing, whatever other calls, callbacks and releases do in between, until the table is reset.
pub begin-overtaken :
    (name : Bytes) (i ticket : ℕ) (t : Table) {u : Table} {n : ℕ}
    → 0 < length name
    → length name < name_size
    → 1 ≤ ticket
    → Distinct t.slots
    → find name (free_slot i ticket t).slots ≡ none
    → find_free (free_slot i ticket t).slots ≡ some i
    → Reach false (overtaken name i ticket t) n u
    → begin name u ≡ (replied eai_inprogress, u)
begin-overtaken name i ticket t {u} long fits k d absent at_free r =
    let before : Reach false t 3 (overtaken name i ticket t) =
      next (next (next here (frees i ticket k)) (calls name)) (forgets i) in
    begin-lost name i u long (Reach-Distinct r (Reach-Distinct before d)) (
      Reach-IsLost name i r (claimed-IsLost name i (free_slot i ticket t) long fits absent at_free))
