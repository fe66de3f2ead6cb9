-- ===== src/Shim/Select/Exact.antt =====
-- What a stack's select says of each descriptor, and `lwip_select_bits` over lwIP's.
use ax88179_aroma_driver.Base.{
  ℕ, arith, ◌<◌, ◌≡◌, refl, sym, ap, ◌∙◌, inl, inr, Bool, true, false, ◌&&◌, Option, none, some,
  if◌then◌else◌, is_neg, Bool-cases, lt→ltb,
}
use ax88179_aroma_driver.Shim.Sockets.{Shim}
use ax88179_aroma_driver.Shim.Select.{
  Bits, Kind, read, write, except, Sets, Query, Answer, in_set, over, fill_set, seen, collect,
  to_query, from_answer, lwip_select_bits, is_positive, restrict, wanted,
}
use ax88179_aroma_driver.Shim.Select.Bits.{fill_set-mapped, limit-mapped}

-- A select that answers by what is ready: where it does not fail, each set holds what was asked for
-- and is ready, and a result of 0 says that nothing is.
pub record IsExact (ready : Kind → ℕ → Bool) (answer : Query → Answer) : Type 0 where
  pub found :
      (q : Query) (k : Kind) (x : ℕ)
      → is_neg (answer q).rc ≡ false
      → x < q.nfds
      → in_set ((answer q).sets k) x ≡ (in_set (q.sets k) x && ready k x)
  pub nothing :
      (q : Query) (k : Kind) (x : ℕ)
      → is_positive (answer q).rc ≡ false
      → is_neg (answer q).rc ≡ false
      → x < q.nfds
      → (in_set (q.sets k) x && ready k x) ≡ false

-- A descriptor is ready where the stack that has it says so.
abbrev pub is_ready : Shim → (Kind → ℕ → Bool) → (Kind → ℕ → Bool) → Kind → ℕ → Bool
is_ready s nready lready k i = if s.open_mask i then seen (s.mapped_fd i) (lready k) else nready k i

-- The sets hold what was asked for and is ready.
abbrev pub Finds : ℕ → Sets → (Kind → ℕ → Bool) → Sets → Type 0
Finds nfds sets ready found =
    (k : Kind) (i : ℕ) → i < nfds → in_set (found k) i ≡ (in_set (sets k) i && ready k i)

pub in_set-restrict :
    (m : Bits) (sets : Sets) (k : Kind) (i : ℕ)
    → in_set (restrict m sets k) i ≡ (in_set (sets k) i && m i)
in_set-restrict m sets k i = go (sets k)
  where
    go : (o : Option Bits) → in_set (over (λ f j. f j && m j) o) i ≡ (in_set o i && m i)
    go none = refl
    go (some f) = refl

-- A descriptor in a set is wanted.
pub in_set-wanted :
    (nfds : ℕ) (sets : Sets) (k : Kind) (i : ℕ)
    → i < nfds
    → in_set (sets k) i ≡ true
    → wanted nfds sets i ≡ true
in_set-wanted nfds sets read i b h = rw (lt→ltb i nfds b, h) refl
in_set-wanted nfds sets write i b h = rw (lt→ltb i nfds b, h) (ground arith)
in_set-wanted nfds sets except i b h = rw (lt→ltb i nfds b, h) (ground arith)

module _ (nfds : ℕ) (want : Bits) (mapped : ℕ → Option ℕ) (sets : Sets) (a : Answer) where
  from_answer-rc : (from_answer nfds want mapped sets a).rc ≡ a.rc
  unfolding from_answer
  from_answer-rc = ground arith

  from_answer-sets :
      (k : Kind) (i : ℕ)
      → is_neg a.rc ≡ false
      → in_set ((from_answer nfds want mapped sets a).sets k) i
        ≡ in_set (over (λ f. collect nfds want mapped (in_set (a.sets k))) (sets k)) i
  unfolding from_answer
  from_answer-sets k i ok = rw ok refl

module _ (nfds : ℕ) (want : Bits) (mapped : ℕ → Option ℕ)
    (backed : (i : ℕ) → i < nfds → want i ≡ true → (x : ℕ) × (mapped i ≡ some x))
    (distinct : (i j : ℕ)
      → i < nfds
      → j < nfds
      → want i ≡ true
      → want j ≡ true
      → mapped i ≡ mapped j
      → i ≡ j)
    (offset : ℕ) (lready : Kind → ℕ → Bool) (lwip : Query → Answer)
    (exact : IsExact lready lwip) where
  -- What lwIP is asked about a wanted descriptor.
  in_set-query :
      (sets : Sets) (k : Kind) (i x : ℕ)
      → i < nfds
      → want i ≡ true
      → mapped i ≡ some x
      → in_set ((to_query offset nfds want mapped sets).sets k) x ≡ in_set (sets k) i
  in_set-query sets k i x b w e = go (sets k)
    where
      go : (o : Option Bits) → in_set (over (fill_set nfds want mapped) o) x ≡ in_set o i
      go none = refl
      go (some f) = fill_set-mapped nfds want mapped f distinct i x b w e

  collect-found :
      (got : Bits) (ready : ℕ → Bool) (i : ℕ) (o : Option Bits)
      → i < nfds
      → ((x : ℕ) → want i ≡ true → mapped i ≡ some x → got x ≡ (in_set o i && ready x))
      → in_set (over (λ f. collect nfds want mapped got) o) i
        ≡ ((want i && in_set o i) && seen (mapped i) ready)
  collect-found got ready i none b h = ground arith
  collect-found got ready i (some f) b h = elim (Bool-cases (want i)) [
    | inl on ↦ let (x, e) = backed i b on in rw (lt→ltb i nfds b, on, e) (h x on e)
    | inr off ↦ rw (lt→ltb i nfds b, off) refl
  ]

  -- The sets behind `lwip_select_bits`.
  pub lwip_select_bits-found :
      (sets : Sets) (k : Kind) (i : ℕ)
      → i < nfds
      → is_neg (lwip_select_bits lwip offset nfds want mapped sets).rc ≡ false
      → in_set ((lwip_select_bits lwip offset nfds want mapped sets).sets k) i
        ≡ ((want i && in_set (sets k) i) && seen (mapped i) (lready k))
  unfolding lwip_select_bits
  lwip_select_bits-found sets k i b ok =
      let q = to_query offset nfds want mapped sets in
      let ok' = ap is_neg (sym (from_answer-rc nfds want mapped sets (lwip q))) ∙ ok in
      from_answer-sets nfds want mapped sets (lwip q) k i ok'
      ∙ collect-found (in_set ((lwip q).sets k)) (lready k) i (sets k) b (λ x w e.
        exact.found q k x ok' (limit-mapped nfds want mapped offset i x b w e)
        ∙ ap (λ z. z && lready k x) (in_set-query sets k i x b w e))

  pub lwip_select_bits-nothing :
      (sets : Sets) (k : Kind) (i : ℕ)
      → i < nfds
      → is_neg (lwip_select_bits lwip offset nfds want mapped sets).rc ≡ false
      → is_positive (lwip_select_bits lwip offset nfds want mapped sets).rc ≡ false
      → ((want i && in_set (sets k) i) && seen (mapped i) (lready k)) ≡ false
  unfolding lwip_select_bits
  lwip_select_bits-nothing sets k i b ok none_ready = elim (Bool-cases (want i)) [
    | inl on ↦
        let (x, e) = backed i b on in
        let q = to_query offset nfds want mapped sets in
        let rc = from_answer-rc nfds want mapped sets (lwip q) in
        rw (on, e, sym (in_set-query sets k i x b on e))
          (exact.nothing q k x (ap is_positive (sym rc) ∙ none_ready) (ap is_neg (sym rc) ∙ ok)
            (limit-mapped nfds want mapped offset i x b on e))
    | inr off ↦ rw off refl
  ]
