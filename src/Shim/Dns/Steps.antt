-- ===== src/Shim/Dns/Steps.antt =====
-- The steps of the threads of a title and of lwIP's on the table, and what the locked part changes.
use ax88179_aroma_driver.Base.{
  ℕ, suc, ◌/◌, ◌^◌, ◌≤◌, ◌≡◌, refl, inl, inr, Bool, true, false, Option, none, some, Bytes, [], ◌∷◌,
  length, leb, Bool-cases,
}
use ax88179_aroma_driver.Shim.Dns.{
  State, Table, free, pending, ready, failed, claimed, find, new_ticket, find_free, alter,
  name_size, fill, claim_at, claim, retire, free_slot, forget_ticket, found, poll, state_at, start,
  lookup, begin, reset_all,
}

-- One step: the locked part of a call, the callback with a token, whose ticket is not 0, the two
-- stores of a release, and, where they are allowed, the reset between two titles.
pub data Step (resetting : Bool) (t : Table) : Table → Type 0 where
  calls : (name : Bytes) → Step resetting t (begin name t).1
  calls_back :
      (answered : Bool) (token : ℕ) → 1 ≤ token / 2 ^ 4 → Step resetting t (found answered token t)
  frees : (i ticket : ℕ) → 1 ≤ ticket → Step resetting t (free_slot i ticket t)
  forgets : (i : ℕ) → Step resetting t (forget_ticket i t)
  resets : resetting ≡ true → Step resetting t (reset_all t)

-- The tables that a number of steps lead to.
pub data Reach (resetting : Bool) (t : Table) : ℕ → Table → Type 0 where
  here : Reach resetting t 0 t
  next :
      {n : ℕ} {u v : Table}
      → Reach resetting t n u
      → Step resetting u v
      → Reach resetting t (suc n) v

abbrev pub is_pending : State → Bool
is_pending pending = true
is_pending _ = false

-- What the locked part does to the table: nothing, a slot that is not pending is retired, or a free
-- slot becomes the request for a name that has none.
pub data Change (t : Table) : Table → Type 0 where
  same : Change t t
  retires :
      (i : ℕ)
      → is_pending (state_at t.slots i) ≡ false
      → Change t (record t { slots = alter retire i t.slots })
  claims :
      (name : Bytes) (i : ℕ)
      → find name t.slots ≡ none
      → find_free t.slots ≡ some i
      → Change t (record {
        slots = alter (fill (new_ticket t.counter).0 name) i t.slots;
        counter = (new_ticket t.counter).1;
      })

poll-Change : (i : ℕ) (t : Table) (st : State) → state_at t.slots i ≡ st → Change t (poll i st t).1
unfolding poll
poll-Change i t pending e = same
poll-Change i t failed e = retires i (rw e refl)
poll-Change i t ready e = retires i (rw e refl)
poll-Change i t free e = retires i (rw e refl)
poll-Change i t claimed e = retires i (rw e refl)

claim_at-Change :
    (name : Bytes) (t : Table) (o : Option ℕ)
    → find name t.slots ≡ none
    → find_free t.slots ≡ o
    → Change t (start (claim_at name t o) t).1
unfolding start claim_at
claim_at-Change name t none h e = same
claim_at-Change name t (some i) h e = claims name i h e

lookup-Change :
    (name : Bytes) (t : Table) (o : Option ℕ) → find name t.slots ≡ o → Change t (lookup name t o).1
unfolding lookup claim start
lookup-Change name t (some i) e = poll-Change i t (state_at t.slots i) refl
lookup-Change name t none e = elim (Bool-cases (leb name_size (length name))) [
  | inl h ↦ rw h same
  | inr h ↦ rw h (claim_at-Change name t (find_free t.slots) e refl)
]

pub begin-Change : (name : Bytes) (t : Table) → Change t (begin name t).1
unfolding begin
begin-Change [] t = same
begin-Change (c ∷ cs) t = lookup-Change (c ∷ cs) t (find (c ∷ cs) t.slots) refl
