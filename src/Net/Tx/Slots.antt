-- ===== src/Net/Tx/Slots.antt =====
-- Slots in use, and the slots that messages hold.
use ax88179_aroma_driver.Base.{
  ℕ, zero, suc, ◌+◌, ◌≤◌, ◌<◌, ◌≡◌, refl, ap, inl, inr, Bool, true, false, some, Bytes, List, [],
  ◌∷◌, ◌++◌, arith, length, map, ◌==◌, if◌then◌else◌, Bool-cases,
}
use ax88179_aroma_driver.Net.Queue.{Message}
use ax88179_aroma_driver.Net.Tx.{update, find_slot, frame}

abbrev pub Absent : ℕ → List ℕ → Type 0
Absent i [] = Unit
Absent i (j ∷ js) = ((i == j) ≡ false) × Absent i js

-- Different slots, all in use.
abbrev pub Owns : (ℕ → Bool) → List ℕ → Type 0
Owns used [] = Unit
Owns used (i ∷ is) = (used i ≡ true) × Absent i is × Owns used is

-- How many of the first `n` slots are in use.
abbrev pub count : ℕ → (ℕ → Bool) → ℕ
count zero used = 0
count (suc n) used = (if used n then 1 else 0) + count n used

pub count-le : (n : ℕ) (used : ℕ → Bool) → count n used ≤ n
count-le zero used = omega arith
count-le (suc n) used = ground (arith, count-le n used)

count-above :
    (n i : ℕ) (used : ℕ → Bool) (b : Bool) → n ≤ i → count n (update used i b) ≡ count n used
count-above zero i used b h = refl
count-above (suc n) i used b h = ground (arith, count-above n i used b)

pub count-claim :
    (n i : ℕ) (used : ℕ → Bool)
    → i < n
    → used i ≡ false
    → count n (update used i true) ≡ suc (count n used)
count-claim zero i used h free = elim h [ ]
count-claim (suc n) i used h free = elim (Bool-cases (i == n)) [
  | inl e ↦
      let same : i ≡ n = ground arith in
      let rest = count-above n i used true (omega arith) in ground arith
  | inr e ↦ let rest = count-claim n i used (ground arith) free in ground arith
]

pub count-release :
    (n i : ℕ) (used : ℕ → Bool)
    → i < n
    → used i ≡ true
    → suc (count n (update used i false)) ≡ count n used
count-release zero i used h busy = elim h [ ]
count-release (suc n) i used h busy = elim (Bool-cases (i == n)) [
  | inl e ↦
      let same : i ≡ n = ground arith in
      let rest = count-above n i used false (omega arith) in ground arith
  | inr e ↦ let rest = count-release n i used (ground arith) busy in ground arith
]

pub Owns-claim :
    (i : ℕ) (used : ℕ → Bool) (is : List ℕ)
    → used i ≡ false
    → Owns used is
    → Owns (update used i true) is × Absent i is
Owns-claim i used [] free o = (tt, tt)
Owns-claim i used (j ∷ js) free (busy, apart, rest) =
    let (o, a) = Owns-claim i used js free rest in
    let other : (i == j) ≡ false = ground arith in ((rw other busy, apart, o), (other, a))

Owns-release :
    (i : ℕ) (used : ℕ → Bool) (is : List ℕ)
    → Absent i is
    → Owns used is
    → Owns (update used i false) is
Owns-release i used [] a o = tt
Owns-release i used (j ∷ js) (other, a) (busy, apart, rest) =
    (rw other busy, apart, Owns-release i used js a rest)

Absent-append : (i j : ℕ) (is : List ℕ) → Absent i is → (i == j) ≡ false → Absent i (is ++ (j ∷ []))
Absent-append i j [] a e = (e, tt)
Absent-append i j (k ∷ ks) (other, a) e = (other, Absent-append i j ks a e)

-- A slot goes to the end of the queue, or before another.
pub Owns-rotate :
    (i : ℕ) (used : ℕ → Bool) (is : List ℕ) → Owns used (i ∷ is) → Owns used (is ++ (i ∷ []))
Owns-rotate i used [] o = o
Owns-rotate i used (j ∷ js) (busy, (other, a), (busy_j, apart, rest)) =
    (busy_j, Absent-append j i js apart (ground arith), Owns-rotate i used js (busy, a, rest))

Absent-remove :
    (i j : ℕ) (xs ys : List ℕ)
    → Absent i (xs ++ (j ∷ ys))
    → ((i == j) ≡ false) × Absent i (xs ++ ys)
Absent-remove i j [] ys a = a
Absent-remove i j (x ∷ xs) ys (other, a) =
    let (apart, rest) = Absent-remove i j xs ys a in (apart, (other, rest))

-- A slot is given back.
pub Owns-remove :
    (j : ℕ) (used : ℕ → Bool) (xs ys : List ℕ)
    → Owns used (xs ++ (j ∷ ys))
    → (used j ≡ true) × Owns (update used j false) (xs ++ ys)
Owns-remove j used [] ys (busy, apart, rest) = (busy, Owns-release j used ys apart rest)
Owns-remove j used (i ∷ xs) ys (busy, a, rest) =
    let (busy_j, o) = Owns-remove j used xs ys rest in
    let (other, apart) = Absent-remove i j xs ys a in
    let back : (j == i) ≡ false = ground arith in (busy_j, (rw back busy, apart, o))

-- Slots of messages, and their frames in a pool that changes elsewhere.
abbrev pub slots_of : List Message → List ℕ
slots_of [] = []
slots_of (m ∷ ms) = m.slot ∷ slots_of ms

pub slots_of-append : (ms ns : List Message) → slots_of (ms ++ ns) ≡ slots_of ms ++ slots_of ns
slots_of-append [] ns = refl
slots_of-append (m ∷ ms) ns = ap (λ r. m.slot ∷ r) (slots_of-append ms ns)

pub length-slots_of : (ms : List Message) → length (slots_of ms) ≡ length ms
length-slots_of [] = refl
length-slots_of (m ∷ ms) = ap suc (length-slots_of ms)

pub frames-elsewhere :
    (i : ℕ) (b : Bytes) (pool : ℕ → Bytes) (ms : List Message)
    → Absent i (slots_of ms)
    → map (frame (update pool i b)) ms ≡ map (frame pool) ms
frames-elsewhere i b pool [] a = refl
frames-elsewhere i b pool (m ∷ ms) (other, a) =
    let rest = frames-elsewhere i b pool ms a in rw (other, rest) refl

pub find_slot-some :
    (n i : ℕ) (used : ℕ → Bool) {k : ℕ}
    → find_slot n i used ≡ some k
    → (used k ≡ false) × (k < i + n)
unfolding find_slot
find_slot-some zero i used h = absurd cc
find_slot-some (suc n) i used {k} h = elim (Bool-cases (used i)) [
  | inl e ↦ let r = find_slot-some n (suc i) used (rw e at h) in (r.0, omega (arith, r.1))
  | inr e ↦
      let same : some i ≡ some k = rw e at h in
      let here : i ≡ k = cc in (rw (← here) e, omega (arith, here))
]
