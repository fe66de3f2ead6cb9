-- ===== src/Module/Watchdog.antt =====
-- aroma_module/main.c: the watchdog thread, `run_watchdog`, with the marks of aroma_module/debug_abort.c.
-- A mask is a function from a bit to its value. The values of `stopping` at the checks are an argument,
-- and what the log shows is the result.
mod Tests
use ax88179_aroma_driver.Base.{
  ℕ, zero, suc, ◌+◌, ◌≤◌, ◌<◌, ◌≡◌, ◌≢◌, ◌⊎◌, arith, refl, inl, inr, Bool, true, false, not, ◌&&◌,
  ◌||◌, Option, none, some, List, [], ◌∷◌, ◌==◌, if◌then◌else◌, Bool-cases, ==_iff, differ,
  contradicts, ap, ◌∙◌,
}
use native.Mathlib.Nat.{add-zero, add-suc, suc-add}

-- `ax_mark`
abbrev ax_mark : ℕ → (ℕ → Bool) → ℕ → Bool
ax_mark bit mask i = if i == bit then true else mask i

abbrev adapter_open : ℕ
adapter_open = 3

abbrev dhcp_bound : ℕ
dhcp_bound = 14

-- The end of the watchdog: nothing to say, no adapter, or the last step that was reached.
data Verdict : Type 0 where
  silent : Verdict
  no_adapter : Verdict
  stuck : Option ℕ → Verdict

-- The loop over the sixteen names: the last one whose bit is set, from bit `i` on.
unfoldable last_mark : (ℕ → Bool) → ℕ → ℕ → Option ℕ → Option ℕ
last_mark mask zero i last = last
last_mark mask (suc n) i last = last_mark mask n (suc i) (if mask i then some i else last)

unfoldable report : (ℕ → Bool) → Verdict
report mask =
    if mask dhcp_bound
    then silent
    else if not (mask adapter_open)
    then no_adapter
    else stuck (last_mark mask 16 0 none)

-- The loop of 45 seconds in rounds of 100 ms, and the check behind it; whether it was told to stop.
unfoldable told : (ℕ → Bool) → ℕ → ℕ → Bool
told stopping zero i = stopping i
told stopping (suc n) i = let rest = told stopping n (suc i) in if stopping i then true else rest

-- `run_watchdog`
unfoldable run_watchdog : (ℕ → Bool) → (ℕ → Bool) → Verdict
unfolding told report
run_watchdog stopping mask = if told stopping 450 0 then silent else report mask

-- No check of the loop, nor the one behind it, found that the worker stops.
abbrev GoesOn : (ℕ → Bool) → Type 0
GoesOn stopping = (i : ℕ) → i ≤ 450 → stopping i ≡ false

-- What the log is meant to say: nothing to a watchdog that a check told to stop or once DHCP has bound,
-- and the last step of the others, if an adapter was opened.
abbrev IsLast : (ℕ → Bool) → ℕ → Type 0
IsLast mask k = (k < 16) × (mask k ≡ true) × ((i : ℕ) → i < 16 → mask i ≡ true → i ≤ k)

abbrev Says : (ℕ → Bool) → (ℕ → Bool) → Verdict → Type 0
Says stopping mask silent = ((i : ℕ) × (i ≤ 450) × (stopping i ≡ true)) ⊎ (mask dhcp_bound ≡ true)
Says stopping mask no_adapter =
    GoesOn stopping × (mask dhcp_bound ≡ false) × (mask adapter_open ≡ false)
Says stopping mask (stuck none) = ⊥
Says stopping mask (stuck (some k)) =
    GoesOn stopping × (mask dhcp_bound ≡ false) × (mask adapter_open ≡ true) × IsLast mask k

-- The best of the bits below `i`.
abbrev IsBest : (ℕ → Bool) → ℕ → Option ℕ → Type 0
IsBest mask i none = (j : ℕ) → j < i → mask j ≡ false
IsBest mask i (some k) = (k < i) × (mask k ≡ true) × ((j : ℕ) → j < i → mask j ≡ true → j ≤ k)

IsBest-skip :
    (mask : ℕ → Bool) (i : ℕ) (last : Option ℕ)
    → mask i ≡ false
    → IsBest mask i last
    → IsBest mask (suc i) last
IsBest-skip mask i none e h = λ j k. elim (Bool-cases (j == i)) [
  | inl same ↦ ap mask ((==_iff j i).0 same) ∙ e
  | inr d ↦ let other = differ j i d in h j (omega arith)
]
IsBest-skip mask i (some k) e (lt, set, best) = (
  omega arith,
  set,
  λ j l m. elim (Bool-cases (j == i)) [
    | inl same ↦ absurd (contradicts (mask j) m (ap mask ((==_iff j i).0 same) ∙ e))
    | inr d ↦ let other = differ j i d in best j (omega arith) m
  ],
)

IsBest-step :
    (mask : ℕ → Bool) (i : ℕ) (last : Option ℕ)
    → IsBest mask i last
    → IsBest mask (suc i) (if mask i then some i else last)
IsBest-step mask i last h = elim (Bool-cases (mask i)) [
  | inl e ↦ rw e (omega arith, e, λ j k m. omega arith)
  | inr e ↦ rw e (IsBest-skip mask i last e h)
]

last_mark-IsBest :
    (mask : ℕ → Bool) (n i : ℕ) (last : Option ℕ)
    → IsBest mask i last
    → IsBest mask (i + n) (last_mark mask n i last)
unfolding last_mark
last_mark-IsBest mask zero i last h = rw add-zero h
last_mark-IsBest mask (suc n) i last h =
    rw (add-suc, ← suc-add)
      (last_mark-IsBest mask n (suc i) (if mask i then some i else last)
        (IsBest-step mask i last h))

told-reads :
    (stopping : ℕ → Bool) (n i : ℕ)
    → told stopping n i ≡ true
    → (j : ℕ) × (j ≤ i + n) × (stopping j ≡ true)
unfolding told
told-reads stopping zero i h = (i, omega arith, h)
told-reads stopping (suc n) i h = elim (Bool-cases (stopping i)) [
  | inl e ↦ (i, omega arith, e)
  | inr e ↦ let (j, lt, set) = told-reads stopping n (suc i) (ground arith) in (j, omega arith, set)
]

told-all :
    (stopping : ℕ → Bool) (n i : ℕ)
    → told stopping n i ≡ false
    → (j : ℕ) → i ≤ j
    → j ≤ i + n
    → stopping j ≡ false
unfolding told
told-all stopping zero i h j k l = let same : j ≡ i = omega arith in ap stopping same ∙ h
told-all stopping (suc n) i h j k l = elim (Bool-cases (j == i)) [
  | inl same ↦ ap stopping ((==_iff j i).0 same) ∙ ground arith
  | inr d ↦
      let other = differ j i d in
      told-all stopping n (suc i) (ground arith) j (omega arith) (omega arith)
]

-- A bit of the mask that is set rules out that none is.
found-IsLast :
    (mask : ℕ → Bool) (last : Option ℕ)
    → mask dhcp_bound ≡ false
    → mask adapter_open ≡ true
    → IsBest mask 16 last
    → (k : ℕ) × (last ≡ some k) × IsLast mask k
found-IsLast mask none b a h = absurd (contradicts (mask 3) a (h 3 (omega arith)))
found-IsLast mask (some k) b a h = (k, refl, h)

report-Says :
    (stopping mask : ℕ → Bool) → told stopping 450 0 ≡ false → Says stopping mask (report mask)
unfolding report
report-Says stopping mask t =
    let goes_on = λ (i : ℕ) (l : i ≤ 450). told-all stopping 450 0 t i (omega arith) l in
    elim (Bool-cases (mask dhcp_bound)) [
      | inl b ↦ rw b (inr b)
      | inr b ↦ elim (Bool-cases (mask adapter_open)) [
        | inr a ↦ rw (b, a) (goes_on, b, a)
        | inl a ↦
            let (k, e, last) =
              found-IsLast mask (last_mark mask 16 0 none) b a
                (last_mark-IsBest mask 16 0 none (λ j l. absurd (omega arith))) in
            rw (b, a, e) (goes_on, b, a, last)
      ]
    ]

-- `run_watchdog` says nothing only if it was told to stop at one of its 451 checks in 45 seconds, or if
-- the mark of DHCP is set; it says that there is no adapter, or names a step, only if it was not told to
-- stop and that mark is missing, by whether the mark of an open adapter is there; and the step that it
-- names is the last of the sixteen whose mark is set.
run_watchdog-Says : (stopping mask : ℕ → Bool) → Says stopping mask (run_watchdog stopping mask)
unfolding run_watchdog
run_watchdog-Says stopping mask = elim (Bool-cases (told stopping 450 0)) [
  | inl t ↦ rw t (inl (told-reads stopping 450 0 t))
  | inr t ↦ rw t (report-Says stopping mask t)
]

abbrev ax_marks : List ℕ → (ℕ → Bool) → ℕ → Bool
ax_marks [] mask = mask
ax_marks (bit ∷ bits) mask = ax_marks bits (ax_mark bit mask)

ax_marks-keeps :
    (bits : List ℕ) (i : ℕ) (mask : ℕ → Bool) → mask i ≡ true → ax_marks bits mask i ≡ true
ax_marks-keeps [] i mask h = h
ax_marks-keeps (bit ∷ bits) i mask h = ax_marks-keeps bits i (ax_mark bit mask) (ground arith)

-- Once DHCP has bound in one title, no watchdog of a later one says anything, whatever is marked since:
-- no mark is ever taken back.
bound-silences :
    (stopping mask : ℕ → Bool) (bits : List ℕ)
    → mask dhcp_bound ≡ true
    → run_watchdog stopping (ax_marks bits mask) ≡ silent
unfolding run_watchdog report
bound-silences stopping mask bits h =
    rw (ax_marks-keeps bits dhcp_bound mask h)
      (elim (Bool-cases (told stopping 450 0)) [ inl t ↦ rw t | inr t ↦ rw t ])
