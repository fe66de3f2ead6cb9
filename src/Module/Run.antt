-- ===== src/Module/Run.antt =====
-- Loops and early ends over a state, for the code of aroma_module/main.c.
use ax88179_aroma_driver.Base.{
  ℕ, zero, suc, ◌+◌, ◌≤◌, ◌<◌, arith, inl, inr, Bool-cases, ◌==◌, ==_iff, differ, Option, none,
  some,
}

-- The end of a run with its result, or the state at the point where its fuel is used up.
pub data Run (S B : Type 0) : Type 0 where
  ended : B → S → Run S B
  unfinished : S → Run S B

abbrev pub chain : {S A B : Type 0} → (A → S → Run S B) → Run S A → Run S B
chain f (ended a s) = f a s
chain f (unfinished s) = unfinished s

infixl 5 ◌>>=◌ ◌>>◌
abbrev pub ◌>>=◌ : {S A B : Type 0} → (S → Run S A) → (A → S → Run S B) → S → Run S B
◌>>=◌ m f s = chain f (m s)

abbrev pub ◌>>◌ : {S B : Type 0} → (S → Run S (Unit {0})) → (S → Run S B) → S → Run S B
m >> k = m >>= λ _. k

abbrev pub pure : {S B : Type 0} → B → S → Run S B
pure b s = ended b s

abbrev go_on : {S B : Type 0} → (S → Run S B) → Run S (Option B) → Run S B
go_on rest (ended none s) = rest s
go_on rest (ended (some b) s) = ended b s
go_on rest (unfinished s) = unfinished s

-- A loop whose round `j` goes on with `none` and ends it with `some`.
unfoldable pub loop : {S B : Type 0} → (ℕ → S → Run S (Option B)) → ℕ → ℕ → S → Run S B
loop f zero j s = unfinished s
loop f (suc n) j s = go_on (loop f n (suc j)) (f j s)

-- `Q` of the end, and `I` where the fuel is used up.
abbrev pub Ends : {S B : Type 0} → (S → Type 0) → (B → S → Type 0) → Run S B → Type 0
Ends I Q (ended b s) = Q b s
Ends I Q (unfinished s) = I s

-- What holds behind a round: `P` where the loop goes on, `Q` where it ends.
abbrev pub Rounds : {S B : Type 0} → (S → Type 0) → (B → S → Type 0) → Option B → S → Type 0
Rounds P Q none s = P s
Rounds P Q (some b) s = Q b s

module _ {S : Type 0} (I : S → Type 0) where
  pub Ends-bind :
      {A B : Type 0} (P : A → S → Type 0) (Q : B → S → Type 0) (r : Run S A) (f : A → S → Run S B)
      → Ends I P r
      → ((a : A) (s : S) → P a s → Ends I Q (f a s))
      → Ends I Q (chain f r)
  Ends-bind P Q (ended a s) f h k = k a s h
  Ends-bind P Q (unfinished s) f h k = h

  pub Ends-weaken :
      {B : Type 0} (P Q : B → S → Type 0) (r : Run S B)
      → Ends I P r
      → ((b : B) (s : S) → P b s → Q b s)
      → Ends I Q r
  Ends-weaken P Q (ended b s) h k = k b s h
  Ends-weaken P Q (unfinished s) h k = h

  go_on-Ends :
      {B : Type 0} (P : S → Type 0) (Q : B → S → Type 0) (rest : S → Run S B) (r : Run S (Option B))
      → Ends I (Rounds P Q) r
      → ((s : S) → P s → Ends I Q (rest s))
      → Ends I Q (go_on rest r)
  go_on-Ends P Q rest (ended none s) h k = k s h
  go_on-Ends P Q rest (ended (some b) s) h k = h
  go_on-Ends P Q rest (unfinished s) h k = h

  -- An invariant of a loop, which holds with any fuel.
  pub loop-Ends :
      {B : Type 0} (P : S → Type 0) (Q : B → S → Type 0) (f : ℕ → S → Run S (Option B))
      → ((s : S) → P s → I s)
      → ((j : ℕ) (s : S) → P s → Ends I (Rounds P Q) (f j s))
      → (n j : ℕ) (s : S) → P s
      → Ends I Q (loop f n j s)
  unfolding loop
  loop-Ends P Q f i round zero j s h = i s h
  loop-Ends P Q f i round (suc n) j s h =
      go_on-Ends P Q (loop f n (suc j)) (f j s) (round j s h)
        (λ s' h'. loop-Ends P Q f i round n (suc j) s' h')

-- The run ends.
abbrev pub Returns : {S B : Type 0} → Run S B → Type 0
Returns r = Ends (λ _. ⊥) (λ _ _. Unit) r

-- The run ends, and as the end of its loop.
abbrev pub Leaves : {S B : Type 0} → Run S (Option B) → Type 0
Leaves r = Ends (λ _. ⊥) (Rounds (λ _. ⊥) (λ _ _. Unit)) r

-- What holds of any end and at any interruption holds of the end of a run that ends.
pub Returns-Ends :
    {S B : Type 0} (I : S → Type 0) (Q : B → S → Type 0) (r : Run S B)
    → Returns r
    → Ends I Q r
    → Ends (λ _. ⊥) Q r
Returns-Ends I Q (ended b s) t h = h
Returns-Ends I Q (unfinished s) t h = t

pub Returns-bind :
    {S A B : Type 0} (r : Run S A) (f : A → S → Run S B)
    → Returns r
    → ((a : A) (s : S) → Returns (f a s))
    → Returns (chain f r)
Returns-bind (ended a s) f h k = k a s
Returns-bind (unfinished s) f h k = h

go_on-Returns :
    {S B : Type 0} (rest : S → Run S B) (r : Run S (Option B))
    → Returns r
    → ((s : S) → Returns (rest s))
    → Returns (go_on rest r)
go_on-Returns rest (ended none s) h k = k s
go_on-Returns rest (ended (some b) s) h k = tt
go_on-Returns rest (unfinished s) h k = h

go_on-Leaves :
    {S B : Type 0} (rest : S → Run S B) (r : Run S (Option B)) → Leaves r → Returns (go_on rest r)
go_on-Leaves rest (ended none s) h = absurd h
go_on-Leaves rest (ended (some b) s) h = tt
go_on-Leaves rest (unfinished s) h = h

-- A loop whose rounds all end, and whose round `last` ends the loop, ends with fuel past that round.
pub loop-Returns :
    {S B : Type 0} (f : ℕ → S → Run S (Option B)) (last : ℕ)
    → ((j : ℕ) (s : S) → Returns (f j s))
    → ((s : S) → Leaves (f last s))
    → (n j : ℕ) (s : S) → j ≤ last
    → last < j + n
    → Returns (loop f n j s)
unfolding loop
loop-Returns f last goes ends zero j s h k = absurd (omega arith)
loop-Returns f last goes ends (suc n) j s h k = elim (Bool-cases (j == last)) [
  | inl e ↦ rw ((==_iff j last).0 e) (go_on-Leaves _ (f last s) (ends s))
  | inr ne ↦ go_on-Returns (loop f n (suc j)) (f j s) (goes j s) (λ s'.
      let d = differ j last ne in
      loop-Returns f last goes ends n (suc j) s' (omega arith) (omega arith))
]
