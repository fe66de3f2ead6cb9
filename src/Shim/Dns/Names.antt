-- ===== src/Shim/Dns/Names.antt =====
-- The hostnames of the live slots.
use ax88179_aroma_driver.Base.{
  ℕ, ◌/◌, ◌%◌, ◌^◌, ◌-◌, ◌≡◌, refl, sym, ◌∙◌, ap, inl, inr, Bool, true, false, ◌||◌, none, some,
  Bytes, List, get_elem?, ltb, ◌==◌, Bool-cases,
}
use ax88179_aroma_driver.Shim.Dns.{
  State, Slot, Table, free, pending, ready, failed, claimed, is_live, find, alter, fill, retire,
  free_if, free_slot, zero_ticket, forget_ticket, settle, settle_state, async_dns_max, found,
  reset_all, blank_all,
}
use ax88179_aroma_driver.Shim.Dns.Slots.{alter_cases, find-none, blank_all-blank}
use ax88179_aroma_driver.Shim.Dns.Steps.{
  Step, calls, calls_back, frees, forgets, resets, Reach, here, next, Change, same, retires, claims,
  begin-Change,
}

-- Two live slots of one name are the same.
abbrev pub Distinct : List Slot → Type 0
Distinct ss =
    (i j : ℕ) (s s' : Slot)
    → get_elem? ss i ≡ some s
    → get_elem? ss j ≡ some s'
    → is_live s.state ≡ true
    → is_live s'.state ≡ true
    → s.name ≡ s'.name
    → i ≡ j

-- A change that makes no slot live and gives none a name.
abbrev Shrinks : (Slot → Slot) → Type 0
Shrinks f =
    (s : Slot) → is_live (f s).state ≡ true → (is_live s.state ≡ true) × ((f s).name ≡ s.name)

live_before :
    (f : Slot → Slot) (i j : ℕ) (ss : List Slot) (s' : Slot)
    → Shrinks f
    → get_elem? (alter f i ss) j ≡ some s'
    → is_live s'.state ≡ true
    → (s : Slot) × (get_elem? ss j ≡ some s) × (is_live s.state ≡ true) × (s'.name ≡ s.name)
live_before f i j ss s' h e live =
    let (s, at_j, c) = alter_cases f i j ss s' e in
    elim c [
      | inl p ↦ (s, at_j, rw p at live, ap (λ a. a.name) p)
      | inr p ↦
          let (was, name) = h s (rw (p.1) at live) in (s, at_j, was, ap (λ a. a.name) p.1 ∙ name)
    ]

alter-Distinct :
    (f : Slot → Slot) (i : ℕ) (ss : List Slot) → Shrinks f → Distinct ss → Distinct (alter f i ss)
alter-Distinct f i ss h d j k s s' es es' live live' same_as =
    let (a, ea, la, na) = live_before f i j ss s h es live in
    let (b, eb, lb, nb) = live_before f i k ss s' h es' live' in
    d j k a b ea eb la lb (sym na ∙ (same_as ∙ nb))

fill-Distinct :
    (ticket : ℕ) (name : Bytes) (i : ℕ) (ss : List Slot)
    → find name ss ≡ none
    → Distinct ss
    → Distinct (alter (fill ticket name) i ss)
fill-Distinct ticket name i ss h d j k s s' es es' live live' same_as =
    let (a, ea, ca) = alter_cases (fill ticket name) i j ss s es in
    let (b, eb, cb) = alter_cases (fill ticket name) i k ss s' es' in
    elim ca [
      | inl p ↦ elim cb [
        | inl q ↦ d j k s s' (rw p ea) (rw q eb) live live' same_as
        | inr q ↦ absurd (
            find-none name ss j a h ea (rw p at live)
              (sym (ap (λ x. x.name) p) ∙ (same_as ∙ ap (λ x. x.name) q.1)))
      ]
      | inr p ↦ elim cb [
        | inl q ↦ absurd (
            find-none name ss k b h eb (rw q at live')
              (sym (ap (λ x. x.name) q) ∙ (sym same_as ∙ ap (λ x. x.name) p.1)))
        | inr q ↦ p.0 ∙ sym q.0
      ]
    ]

settle_state-live :
    (answered : Bool) (st : State) → is_live (settle_state answered st) ≡ true → is_live st ≡ true
settle_state-live answered free h = h
settle_state-live answered pending h = refl
settle_state-live answered ready h = h
settle_state-live answered failed h = h
settle_state-live answered claimed h = h

settle-Shrinks : (answered : Bool) (ticket : ℕ) → Shrinks (settle answered ticket)
settle-Shrinks answered ticket s live = elim (Bool-cases (s.ticket == ticket)) [
  | inl e ↦ (settle_state-live answered s.state (rw e at live), rw e refl)
  | inr e ↦ (rw e at live, rw e refl)
]

free_if-Shrinks : (ticket : ℕ) → Shrinks (free_if ticket)
free_if-Shrinks ticket s live = elim (Bool-cases (s.ticket == ticket)) [
  | inl e ↦ let gone : false ≡ true = rw e at live in absurd cc
  | inr e ↦ (rw e at live, rw e refl)
]

Change-Distinct : {t u : Table} → Change t u → Distinct t.slots → Distinct u.slots
Change-Distinct same d = d
Change-Distinct {t} (retires i e) d = alter-Distinct retire i t.slots (λ s live. absurd cc) d
Change-Distinct {t} (claims name i e f) d = fill-Distinct _ name i t.slots e d

found-Distinct :
    (answered : Bool) (token : ℕ) (t : Table)
    → Distinct t.slots
    → Distinct (found answered token t).slots
unfolding found
found-Distinct answered token t d =
    elim (Bool-cases (token % 2 ^ 4 == 0 || ltb async_dns_max (token % 2 ^ 4))) [
      | inl e ↦ rw e d
      | inr e ↦ rw e (
          alter-Distinct (settle answered (token / 2 ^ 4)) (token % 2 ^ 4 - 1) t.slots
            (settle-Shrinks answered (token / 2 ^ 4)) d)
    ]

pub blank_all-Distinct : (ss : List Slot) → Distinct (blank_all ss)
blank_all-Distinct ss i j s s' es es' live live' same_as =
    let gone : false ≡ true = sym (ap (λ a. is_live a.state) (blank_all-blank ss i s es)) ∙ live in
    absurd cc

Step-Distinct : {r : Bool} {t u : Table} → Step r t u → Distinct t.slots → Distinct u.slots
unfolding free_slot forget_ticket reset_all
Step-Distinct {t = t} (calls name) d = Change-Distinct (begin-Change name t) d
Step-Distinct {t = t} (calls_back answered token h) d = found-Distinct answered token t d
Step-Distinct {t = t} (frees i ticket h) d =
    alter-Distinct (free_if ticket) i t.slots (free_if-Shrinks ticket) d
Step-Distinct {t = t} (forgets i) d =
    alter-Distinct zero_ticket i t.slots (λ s live. (live, refl)) d
Step-Distinct {t = t} (resets e) d = blank_all-Distinct t.slots

-- In every order of the locked parts of calls, callbacks, the stores of releases, and resets: if no
-- two live slots of the table have one name at the start, none have ever.
pub Reach-Distinct :
    {r : Bool} {t u : Table} {n : ℕ} → Reach r t n u → Distinct t.slots → Distinct u.slots
Reach-Distinct here d = d
Reach-Distinct (next r s) d = Step-Distinct s (Reach-Distinct r d)
