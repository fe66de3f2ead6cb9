-- ===== src/Net/Session/Lost.antt =====
-- The adapter that goes away: the third failed look at the link in a row.
use ax88179_aroma_driver.Base.{
  ℕ, arith, ◌≡◌, refl, ap, inl, inr, ◌≤◌, suc, zero, Bool, true, false, Option, none, some, List,
  [], ◌∷◌, ◌++◌, ℤ, pos, negsuc, leb, ◌==◌, if◌then◌else◌, Bool-cases, replicate,
}
use ax88179_aroma_driver.Net.Session.{Net, Poll, is_due, poll, give_up, follow_link, note_link}

abbrev pub is_lost : ℤ → Bool
is_lost (pos k) = false
is_lost (negsuc k) = k == 1

-- Polls until one returns -2, and the state that it leaves.
abbrev pub lost : List Poll → Net → Option Net
lost [] n = none
lost (p ∷ ps) n =
    let rest = lost ps (poll p n).net in
    if is_lost (poll p n).result then some (poll p n).net else rest

-- What the looks at the link say that these polls make, the last one before them at time `last`.
abbrev pub checked : List Poll → ℕ → List (Option Bool)
checked [] last = []
checked (p ∷ ps) last =
    let rest = checked ps last in
    let looked = p.link ∷ checked ps p.now in if is_due p.now last then looked else rest

-- Three failures next to each other.
abbrev pub three_fail : List (Option Bool) → Bool
three_fail [] = false
three_fail (some b ∷ xs) = three_fail xs
three_fail (none ∷ []) = false
three_fail (none ∷ some b ∷ xs) = three_fail xs
three_fail (none ∷ none ∷ []) = false
three_fail (none ∷ none ∷ some b ∷ xs) = three_fail xs
three_fail (none ∷ none ∷ none ∷ xs) = true

-- `ax88179_receive` returns -1, 0 or a length.
abbrev pub Ordinary : List Poll → Type 0
Ordinary [] = Unit
Ordinary (p ∷ ps) = (is_lost p.received ≡ false) × Ordinary ps

-- The link shows as down where the polls end in a loss.
abbrev pub Reports : Bool → Option Net → Type 0
Reports true (some n) = n.last_link_up ≡ false
Reports false none = Unit
Reports true none = ⊥
Reports false (some n) = ⊥

-- The three ways of a poll with an interface, as far as the loss goes.
lost-waits :
    (p : Poll) (ps : List Poll) (n : Net)
    → n.active ≡ true
    → is_lost p.received ≡ false
    → is_due p.now n.last_link ≡ false
    → lost (p ∷ ps) n ≡ lost ps n
unfolding poll
lost-waits p ps n a o d = ground arith

lost-sees :
    (p : Poll) (ps : List Poll) (n : Net) (up : Bool)
    → n.active ≡ true
    → is_lost p.received ≡ false
    → is_due p.now n.last_link ≡ true
    → p.link ≡ some up
    → lost (p ∷ ps) n ≡ lost ps (record n { last_link = p.now; last_link_up = up; link_errors = 0 })
unfolding poll give_up follow_link note_link
lost-sees p ps n up a o d l = ground arith

lost-fails :
    (p : Poll) (ps : List Poll) (n : Net)
    → n.active ≡ true
    → is_lost p.received ≡ false
    → is_due p.now n.last_link ≡ true
    → p.link ≡ none
    → leb 3 (suc n.link_errors) ≡ false
    → lost (p ∷ ps) n ≡ lost ps (record n { last_link = p.now; link_errors = suc n.link_errors })
unfolding poll give_up follow_link note_link
lost-fails p ps n a o d l e = ground arith

lost-third :
    (p : Poll) (ps : List Poll) (n : Net)
    → n.active ≡ true
    → is_due p.now n.last_link ≡ true
    → p.link ≡ none
    → n.link_errors ≡ 2
    → Reports true (lost (p ∷ ps) n)
unfolding poll give_up follow_link note_link
lost-third p ps n a d l e = ground arith

-- With the failures so far in front.
three_fail-sees :
    (k : ℕ) (up : Bool) (xs : List (Option Bool))
    → k ≤ 2
    → three_fail (replicate k none ++ (some up ∷ xs)) ≡ three_fail xs
three_fail-sees zero up xs h = refl
three_fail-sees (suc zero) up xs h = refl
three_fail-sees (suc (suc zero)) up xs h = refl
three_fail-sees (suc (suc (suc k))) up xs h = absurd (omega arith)

replicate-middle :
    (k : ℕ) (xs : List (Option Bool))
    → replicate k none ++ (none ∷ xs) ≡ replicate (suc k) none ++ xs
replicate-middle zero xs = refl
replicate-middle (suc k) xs = ap (λ ys. none ∷ ys) (replicate-middle k xs)

three_fail-few : (k : ℕ) → k ≤ 2 → three_fail (replicate k none ++ []) ≡ false
three_fail-few zero h = refl
three_fail-few (suc zero) h = refl
three_fail-few (suc (suc zero)) h = refl
three_fail-few (suc (suc (suc k))) h = absurd (omega arith)

three_fail-third :
    (k : ℕ) (xs : List (Option Bool)) → k ≡ 2 → three_fail (replicate k none ++ (none ∷ xs)) ≡ true
three_fail-third k xs h = rw h refl

two_errors : (k : ℕ) → (k == 2) ≡ true → k ≡ 2
two_errors k h = ground arith

few_errors : (k : ℕ) → k ≤ 2 → (k == 2) ≡ false → leb 3 (suc k) ≡ false
few_errors k e h = ground arith

le_errors : (k : ℕ) → k ≤ 2 → (k == 2) ≡ false → suc k ≤ 2
le_errors k e h = ground arith

abbrev pub IsFound : List Poll → Net → Type 0
IsFound ps n =
    Reports (three_fail (replicate n.link_errors none ++ checked ps n.last_link)) (lost ps n)

lost-look :
    (p : Poll) (ps : List Poll) (n : Net)
    → n.active ≡ true
    → n.link_errors ≤ 2
    → is_lost p.received ≡ false
    → is_due p.now n.last_link ≡ true
    → ((m : Net) → m.active ≡ true → m.link_errors ≤ 2 → IsFound ps m)
    → (link : Option Bool) → p.link ≡ link
    → Reports
        (three_fail (replicate n.link_errors none ++ (link ∷ checked ps p.now)))
        (lost (p ∷ ps) n)
lost-look p ps n a e o d ih (some up) l =
    rw (three_fail-sees n.link_errors up (checked ps p.now) e, lost-sees p ps n up a o d l)
      (ih (record n { last_link = p.now; last_link_up = up; link_errors = 0 }) a (omega arith))
lost-look p ps n a e o d ih none l = elim (Bool-cases (n.link_errors == 2)) [
  | inl two ↦
      rw (three_fail-third n.link_errors (checked ps p.now) (two_errors n.link_errors two))
        (lost-third p ps n a d l (two_errors n.link_errors two))
  | inr few ↦
      rw
        (
          replicate-middle n.link_errors (checked ps p.now),
          lost-fails p ps n a o d l (few_errors n.link_errors e few),
        )
        (ih (record n { last_link = p.now; link_errors = suc n.link_errors }) a
          (le_errors n.link_errors e few))
]

lost-IsFound :
    (ps : List Poll) (n : Net) → n.active ≡ true → n.link_errors ≤ 2 → Ordinary ps → IsFound ps n
lost-IsFound [] n a e o = rw (three_fail-few n.link_errors e) tt
lost-IsFound (p ∷ ps) n a e o = elim (Bool-cases (is_due p.now n.last_link)) [
  | inl d ↦ rw d (lost-look p ps n a e o.0 d (λ m ma me. lost-IsFound ps m ma me o.1) p.link refl)
  | inr w ↦ rw (w, lost-waits p ps n a o.0 w) (lost-IsFound ps n a e o.1)
]

Reports-first :
    (k : ℕ) (xs : List (Option Bool)) (o : Option Net)
    → k ≡ 0
    → Reports (three_fail (replicate k none ++ xs)) o
    → Reports (three_fail xs) o
Reports-first zero xs o h r = r
Reports-first (suc k) xs o h r = absurd (omega arith)

-- With the interface active and no failure yet, polls whose receptions return -1, 0 or a length find the
-- adapter lost (one of them returns -2) exactly where three looks at the link next to each other have
-- failed, among those that the clock makes due every 500 ms in 32 bits; and the link is down then.
pub lost-Reports :
    (ps : List Poll) (n : Net)
    → n.active ≡ true
    → n.link_errors ≡ 0
    → Ordinary ps
    → Reports (three_fail (checked ps n.last_link)) (lost ps n)
lost-Reports ps n a e o =
    Reports-first n.link_errors (checked ps n.last_link) (lost ps n) e
      (lost-IsFound ps n a (omega arith) o)
