-- ===== src/Net/Port/Waits.antt =====
-- A wait with a timeout ends in time, and loses nothing.
use ax88179_aroma_driver.Base.{
  ℕ, zero, suc, arith, ◌+◌, ◌-◌, ◌^◌, ◌≤◌, ◌<◌, ◌≡◌, ◌≢◌, refl, ap, ◌∙◌, inl, inr, true, false,
  Option, none, some, leb, ◌==◌, Option-cases, Bool-cases, ==_iff, differ,
}
use ax88179_aroma_driver.Net.Port.{Waited, got, timed_out, elapsed, wait_round, wait_loop, wait}

before : (d now : ℕ) → leb d now ≡ false → now < d
before d now h = ground arith

reached : (d now : ℕ) → leb d now ≡ true → d ≤ now
reached d now h = ground arith

module _ {M : Type 0} (arrives : ℕ → Option M) (ms : ℕ → ℕ) (timeout : ℕ) where
  -- The end of the wait in round `j`, the first in which something was there, or the time was over.
  abbrev pub EndsAt : Waited M → ℕ → Type 0
  EndsAt (got m t) j = (arrives j ≡ some m) × (t ≡ elapsed (ms j))
  EndsAt timed_out j = (arrives j ≡ none) × (timeout ≤ ms j)

  -- Nothing was there before, and the time was not over.
  abbrev pub IsOpen : ℕ → Type 0
  IsOpen j = (i : ℕ) → i < j → (arrives i ≡ none) × (ms i < timeout)

  abbrev pub Ends : Option (Waited M) → Type 0
  Ends o = (w : Waited M) × (o ≡ some w) × ((j : ℕ) × EndsAt w j × IsOpen j)

  -- Below the timeout the next round's time does not pass 2^32.
  no_wrap :
      (t t' : ℕ) → t < timeout → timeout < 2 ^ 32 → t' ≤ t + (2 ^ 32 - timeout) → elapsed t' ≡ t'
  no_wrap t t' a b c = omega arith

  no_wrap_first : (t : ℕ) → t < 2 ^ 32 → elapsed t ≡ t
  no_wrap_first t h = omega arith

  below : (a b : ℕ) → a ≡ b → b < timeout → a < timeout
  below a b e h = omega arith

  IsOpen-suc : (j : ℕ) → IsOpen j → arrives j ≡ none → ms j < timeout → IsOpen (suc j)
  IsOpen-suc j o a b i c = elim (Bool-cases (i == j)) [
    | inl e ↦ let k = (==_iff i j).0 e in (ap arrives k ∙ a, below (ms i) (ms j) (ap ms k) b)
    | inr ne ↦ o i (let d = differ i j ne in omega arith)
  ]

  -- One round, and the rest of the loop where it goes on.
  wait_round-Ends :
      (fuel j : ℕ)
      → elapsed (ms j) ≡ ms j
      → IsOpen j
      → (ms j < timeout → IsOpen (suc j) → Ends (wait_loop arrives ms timeout fuel (suc j)))
      → Ends (wait_loop arrives ms timeout (suc fuel) j)
  unfolding wait_loop wait_round
  wait_round-Ends fuel j e o rest = elim (Option-cases (arrives j)) [
    | inr (m, p) ↦ rw p (got m (elapsed (ms j)), refl, (j, (p, refl), o))
    | inl p ↦ elim (Bool-cases (leb timeout (elapsed (ms j)))) [
      | inl late ↦
          let l = reached timeout (elapsed (ms j)) late in
          rw (p, late) (timed_out, refl, (j, (p, omega arith), o))
      | inr early ↦
          let l = before timeout (elapsed (ms j)) early in
          rw (p, early) (rest (omega arith) (IsOpen-suc j o p (omega arith)))
    ]
  ]

  wait_loop-Ends :
      ((j : ℕ) → ms j + 1 ≤ ms (suc j))
      → ((j : ℕ) → ms (suc j) ≤ ms j + (2 ^ 32 - timeout))
      → timeout < 2 ^ 32
      → (fuel j : ℕ) → elapsed (ms j) ≡ ms j
      → timeout ≤ ms j + fuel
      → IsOpen j
      → Ends (wait_loop arrives ms timeout (suc fuel) j)
  wait_loop-Ends moves small w zero j e enough o =
      wait_round-Ends zero j e o (λ l o'. absurd (omega arith))
  wait_loop-Ends moves small w (suc f) j e enough o = wait_round-Ends (suc f) j e o (λ l o'.
      let m = moves j in
      wait_loop-Ends moves small w f (suc j) (no_wrap (ms j) (ms (suc j)) l w (small j))
        (omega arith) o')

  -- A wait with a timeout other than 0, in which each round takes 1 ms or more and no more than
  -- 2^32 - timeout ms, and which starts within 2^32 ms, ends within one more round than the timeout has
  -- milliseconds. It ends in the first round in which something has arrived, with what has arrived, or in
  -- the first in which the timeout has passed and nothing has, and then as a timeout.
  pub wait-Ends :
      (first : M)
      → timeout ≢ 0
      → timeout < 2 ^ 32
      → ms 0 < 2 ^ 32
      → ((j : ℕ) → ms j + 1 ≤ ms (suc j))
      → ((j : ℕ) → ms (suc j) ≤ ms j + (2 ^ 32 - timeout))
      → Ends (wait first arrives ms timeout (suc timeout))
  unfolding wait
  wait-Ends first some_time w start moves small = elim (Bool-cases (timeout == 0)) [
    | inl z ↦ absurd (some_time ((==_iff timeout 0).0 z))
    | inr nz ↦ rw nz (
        wait_loop-Ends moves small w timeout 0 (no_wrap_first (ms 0) start) (omega arith)
          (λ i b. absurd (omega arith)))
  ]
