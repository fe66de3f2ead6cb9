-- ===== src/Shim/Dns/Slots.antt =====
-- The slots of a table: what a change of one of them does, and what the searches find.
use ax88179_aroma_driver.Base.{
  ℕ, zero, suc, ◌≡◌, ◌≢◌, refl, ap, ◌⊎◌, inl, inr, true, Option, none, some, Bytes, List, [], ◌∷◌,
  arith, length, get_elem?, ◌==◌, Bool-cases,
}
use ax88179_aroma_driver.Shim.Dns.{
  Slot, free, is_live, is_free, same_name, matches, next_index, find, find_free, alter, state_at,
  blank, blank_all,
}

pub get_elem?-alter_self :
    (f : Slot → Slot) (i : ℕ) (ss : List Slot) {s : Slot}
    → get_elem? ss i ≡ some s
    → get_elem? (alter f i ss) i ≡ some (f s)
get_elem?-alter_self f i [] h = cc
get_elem?-alter_self f zero (a ∷ ss) h = cc
get_elem?-alter_self f (suc i) (a ∷ ss) h = get_elem?-alter_self f i ss h

pub get_elem?-alter_ne :
    (f : Slot → Slot) (i j : ℕ) (ss : List Slot)
    → i ≢ j
    → get_elem? (alter f i ss) j ≡ get_elem? ss j
get_elem?-alter_ne f i j [] h = refl
get_elem?-alter_ne f zero zero (a ∷ ss) h = absurd (h refl)
get_elem?-alter_ne f zero (suc j) (a ∷ ss) h = refl
get_elem?-alter_ne f (suc i) zero (a ∷ ss) h = refl
get_elem?-alter_ne f (suc i) (suc j) (a ∷ ss) h = get_elem?-alter_ne f i j ss (λ e. h (ap suc e))

-- A slot behind a change is one from before, or the one that was changed.
pub alter_cases :
    (f : Slot → Slot) (i j : ℕ) (ss : List Slot) (s' : Slot)
    → get_elem? (alter f i ss) j ≡ some s'
    → (s : Slot) × (get_elem? ss j ≡ some s) × ((s' ≡ s) ⊎ ((j ≡ i) × (s' ≡ f s)))
alter_cases f i j [] s' h = absurd cc
alter_cases f zero zero (a ∷ ss) s' h = (a, refl, inr (refl, cc))
alter_cases f zero (suc j) (a ∷ ss) s' h = (s', h, inl refl)
alter_cases f (suc i) zero (a ∷ ss) s' h = (a, refl, inl cc)
alter_cases f (suc i) (suc j) (a ∷ ss) s' h =
    let (s, e, c) = alter_cases f i j ss s' h in
    (s, e, elim c [ inl p ↦ inl p | inr p ↦ inr (ap suc p.0, p.1) ])

pub length-alter : (f : Slot → Slot) (i : ℕ) (ss : List Slot) → length (alter f i ss) ≡ length ss
length-alter f i [] = refl
length-alter f zero (s ∷ ss) = refl
length-alter f (suc i) (s ∷ ss) = ap suc (length-alter f i ss)

pub alter-alter :
    (f g : Slot → Slot) (i : ℕ) (ss : List Slot)
    → alter f i (alter g i ss) ≡ alter (λ s. f (g s)) i ss
alter-alter f g i [] = refl
alter-alter f g zero (s ∷ ss) = refl
alter-alter f g (suc i) (s ∷ ss) = ap (λ rest. s ∷ rest) (alter-alter f g i ss)

pub alter-ext :
    (f g : Slot → Slot) (i : ℕ) (ss : List Slot)
    → ((s : Slot) → get_elem? ss i ≡ some s → f s ≡ g s)
    → alter f i ss ≡ alter g i ss
alter-ext f g i [] h = refl
alter-ext f g zero (s ∷ ss) h = ap (λ a. a ∷ ss) (h s refl)
alter-ext f g (suc i) (s ∷ ss) h = ap (λ rest. s ∷ rest) (alter-ext f g i ss h)

pub alter-id : (i : ℕ) (ss : List Slot) → alter (λ s. s) i ss ≡ ss
alter-id i [] = refl
alter-id zero (s ∷ ss) = refl
alter-id (suc i) (s ∷ ss) = ap (λ rest. s ∷ rest) (alter-id i ss)

-- A change that would leave a slot as it is leaves it, wherever it is made.
pub alter-keeps :
    (f : Slot → Slot) (i j : ℕ) (ss : List Slot) (s : Slot)
    → f s ≡ s
    → get_elem? ss j ≡ some s
    → get_elem? (alter f i ss) j ≡ some s
alter-keeps f i j [] s h at_j = absurd cc
alter-keeps f zero zero (a ∷ ss) s h at_j = cc
alter-keeps f zero (suc j) (a ∷ ss) s h at_j = at_j
alter-keeps f (suc i) zero (a ∷ ss) s h at_j = at_j
alter-keeps f (suc i) (suc j) (a ∷ ss) s h at_j = alter-keeps f i j ss s h at_j

pub state_at-some :
    (ss : List Slot) (i : ℕ) {s : Slot} → get_elem? ss i ≡ some s → state_at ss i ≡ s.state
state_at-some ss i h = ap (λ (o : Option Slot). elim o [ some s ↦ s.state | none ↦ free ]) h

pub blank_all-blank :
    (ss : List Slot) (j : ℕ) (s : Slot) → get_elem? (blank_all ss) j ≡ some s → s ≡ blank
blank_all-blank [] j s h = absurd cc
blank_all-blank (a ∷ ss) zero s h = cc
blank_all-blank (a ∷ ss) (suc j) s h = blank_all-blank ss j s h

pub same_name_self : (a : Bytes) → same_name a a ≡ true
same_name_self [] = refl
same_name_self (c ∷ cs) = ground (arith, same_name_self cs)

pub same_name_eq : (a b : Bytes) → same_name a b ≡ true → a ≡ b
same_name_eq [] [] h = refl
same_name_eq [] (d ∷ ds) h = absurd cc
same_name_eq (c ∷ cs) [] h = absurd cc
same_name_eq (c ∷ cs) (d ∷ ds) h = elim (Bool-cases (c == d)) [
  | inl e ↦ let head : c ≡ d = ground arith in let tail = same_name_eq cs ds (rw e at h) in cc
  | inr e ↦ absurd (ground arith)
]

pub next_index-some :
    (o : Option ℕ) {k : ℕ} → next_index o ≡ some k → (i : ℕ) × (o ≡ some i) × (k ≡ suc i)
next_index-some none h = absurd cc
next_index-some (some i) h = (i, refl, cc)

next_index-none : (o : Option ℕ) → next_index o ≡ none → o ≡ none
next_index-none none h = refl
next_index-none (some i) h = absurd cc

-- What `async_dns_find_locked` finds is a live slot of this name, and it finds one if there is one.
pub find-some :
    (name : Bytes) (ss : List Slot) {k : ℕ}
    → find name ss ≡ some k
    → (s : Slot) × (get_elem? ss k ≡ some s) × (is_live s.state ≡ true) × (s.name ≡ name)
unfolding find
find-some name [] h = absurd cc
find-some name (s ∷ ss) {k} h = elim (Bool-cases (matches name s)) [
  | inl e ↦
      let here : some 0 ≡ some k = rw e at h in
      let first : k ≡ 0 = cc in
      let both : (is_live s.state ≡ true) × (same_name s.name name ≡ true) = ground arith in
      (s, rw first, both.0, same_name_eq s.name name both.1)
  | inr e ↦
      let (i, found, after) = next_index-some (find name ss) (rw e at h) in
      let (s', there, live, same) = find-some name ss found in (s', rw after there, live, same)
]

pub find-none :
    (name : Bytes) (ss : List Slot) (j : ℕ) (s : Slot)
    → find name ss ≡ none
    → get_elem? ss j ≡ some s
    → is_live s.state ≡ true
    → s.name ≢ name
unfolding find
find-none name [] j s h at_j live same = absurd cc
find-none name (a ∷ ss) zero s h at_j live same =
    let here : a ≡ s = cc in
    let hit : matches name s ≡ true = rw (live, same) (same_name_self name) in
    absurd (let gone : Path (Option ℕ) (some 0) none = rw (here, hit) at h in cc)
find-none name (a ∷ ss) (suc j) s h at_j live same = elim (Bool-cases (matches name a)) [
  | inl e ↦ let gone : Path (Option ℕ) (some 0) none = rw e at h in absurd cc
  | inr e ↦ find-none name ss j s (next_index-none (find name ss) (rw e at h)) at_j live same
]

pub find_free-some :
    (ss : List Slot) {k : ℕ}
    → find_free ss ≡ some k
    → (s : Slot) × (get_elem? ss k ≡ some s) × (is_free s.state ≡ true)
unfolding find_free
find_free-some [] h = absurd cc
find_free-some (s ∷ ss) {k} h = elim (Bool-cases (is_free s.state)) [
  | inl e ↦ let here : some 0 ≡ some k = rw e at h in let first : k ≡ 0 = cc in (s, rw first, e)
  | inr e ↦
      let (i, found, after) = next_index-some (find_free ss) (rw e at h) in
      let (s', there, is) = find_free-some ss found in (s', rw after there, is)
]

-- Where no live slot has the name, one that gets it is found.
pub find-alter :
    (name : Bytes) (f : Slot → Slot) (i : ℕ) (ss : List Slot) {s : Slot}
    → find name ss ≡ none
    → get_elem? ss i ≡ some s
    → matches name (f s) ≡ true
    → find name (alter f i ss) ≡ some i
unfolding find
find-alter name f i [] h at_i hit = absurd cc
find-alter name f zero (a ∷ ss) {s} h at_i hit = let first : a ≡ s = cc in rw (first, hit) refl
find-alter name f (suc i) (a ∷ ss) {s} h at_i hit = elim (Bool-cases (matches name a)) [
  | inl e ↦ let gone : Path (Option ℕ) (some 0) none = rw e at h in absurd cc
  | inr e ↦
      let rest = find-alter name f i ss (next_index-none (find name ss) (rw e at h)) at_i hit in
      rw (e, rest) refl
]
