-- ===== src/Module/Patch.antt =====
-- aroma_module/iosu_patch.c: the one instruction of IOSU that is replaced. The words of IOSU's memory are
-- a function; whether Mocha's calls succeed, and whether a write arrives, is an argument. The text in
-- `why` is left out.
mod Tests
use ax88179_aroma_driver.Base.{
  ℕ, ◌≡◌, ◌≢◌, ◌⊎◌, arith, refl, ap, ◌∙◌, inl, inr, Bool-cases, ==_iff, Bool, true, false, not,
  ◌&&◌, ◌||◌, List, [], ◌∷◌, ◌==◌, if◌then◌else◌, ℤ, pos, minus_one,
}

abbrev guard_addr : ℕ
guard_addr = 0x10114338

abbrev guard_beq : ℕ
guard_beq = 0x0A000019

abbrev guard_nop : ℕ
guard_nop = 0xE1A00000

-- What Mocha answers: its start, both reads, and the write with its effect.
record Mocha : Type 0 where
  pub starts : Bool
  pub reads : Bool
  pub writes : Bool
  pub arrives : Bool
  pub reads_back : Bool

data Event : Type 0 where
  started : Event
  written : ℕ → ℕ → Event
  ended : Event

-- The end: the result, the calls that change something, and the memory.
record Done : Type 0 where
  pub result : ℤ
  pub events : List Event
  pub memory : ℕ → ℕ

abbrev store : (ℕ → ℕ) → ℕ → ℕ → ℕ → ℕ
store m p v q = if q == p then v else m q

-- Behind the write: the read that confirms it.
unfoldable confirm : Mocha → (ℕ → ℕ) → Done
confirm k m =
    if not k.writes || (not k.reads_back || not (m guard_addr == guard_nop))
    then record {
      result = minus_one;
      events = started ∷ written guard_addr guard_nop ∷ ended ∷ [];
      memory = m;
    }
    else record {
      result = pos 0;
      events = started ∷ written guard_addr guard_nop ∷ ended ∷ [];
      memory = m;
    }

-- `iosu_patch_apply`
unfoldable iosu_patch_apply : Mocha → (ℕ → ℕ) → Done
unfolding confirm
iosu_patch_apply k m =
    if not k.starts
    then record { result = minus_one; events = []; memory = m }
    else if not k.reads
    then record { result = minus_one; events = started ∷ ended ∷ []; memory = m }
    else if m guard_addr == guard_nop
    then record { result = pos 0; events = started ∷ ended ∷ []; memory = m }
    else if not (m guard_addr == guard_beq)
    then record { result = minus_one; events = started ∷ ended ∷ []; memory = m }
    else confirm k (if k.arrives then store m guard_addr guard_nop else m)

-- Mocha is ended as often as it is started, and one address is written between.
abbrev IsClosed : List Event → Type 0
IsClosed [] = Unit
IsClosed (started ∷ ended ∷ []) = Unit
IsClosed (started ∷ written p v ∷ ended ∷ []) = (p ≡ guard_addr) × (v ≡ guard_nop)
IsClosed _ = ⊥

-- A word is as it was, or it is the guard's branch, which is now the NOP.
abbrev IsKept : (ℕ → ℕ) → (ℕ → ℕ) → ℕ → Type 0
IsKept m m' p = (m' p ≡ m p) ⊎ ((p ≡ guard_addr) × (m p ≡ guard_beq) × (m' p ≡ guard_nop))

IsKept-store :
    (m : ℕ → ℕ) (p : ℕ) → m guard_addr ≡ guard_beq → IsKept m (store m guard_addr guard_nop) p
IsKept-store m p h = elim (Bool-cases (p == guard_addr)) [
  | inl e ↦ let q = (==_iff p guard_addr).0 e in rw e (inr (q, ap m q ∙ h, refl))
  | inr e ↦ rw e (inl refl)
]

confirm-memory : (k : Mocha) (m : ℕ → ℕ) → (confirm k m).memory ≡ m
unfolding confirm
confirm-memory k m = ground arith

confirm-IsClosed : (k : Mocha) (m : ℕ → ℕ) → IsClosed (confirm k m).events
unfolding confirm
confirm-IsClosed k m = ground arith

confirm-result :
    (k : Mocha) (m : ℕ → ℕ) → (confirm k m).result ≡ pos 0 → (m guard_addr == guard_nop) ≡ true
unfolding confirm
confirm-result k m h = ground arith

-- `iosu_patch_apply`, whatever Mocha answers and whatever the memory holds: Mocha is ended where it was
-- started, with at most the write of `GUARD_NOP` to `GUARD_ADDR` between; and no word changes but the
-- one at `GUARD_ADDR`, and that one from `GUARD_BEQ` to `GUARD_NOP` only.
iosu_patch_apply-Safe :
    (k : Mocha) (m : ℕ → ℕ) (p : ℕ)
    → IsClosed (iosu_patch_apply k m).events × IsKept m (iosu_patch_apply k m).memory p
unfolding iosu_patch_apply
iosu_patch_apply-Safe k m p = elim (Bool-cases k.starts) [
  | inr a ↦ rw a (tt, inl refl)
  | inl a ↦ elim (Bool-cases k.reads) [
    | inr b ↦ rw (a, b) (tt, inl refl)
    | inl b ↦ elim (Bool-cases (m guard_addr == guard_nop)) [
      | inl c ↦ rw (a, b, c) (tt, inl refl)
      | inr c ↦ elim (Bool-cases (m guard_addr == guard_beq)) [
        | inr d ↦ rw (a, b, c, d) (tt, inl refl)
        | inl d ↦ elim (Bool-cases k.arrives) [
          | inl e ↦
              let m' = store m guard_addr guard_nop in
              rw (a, b, c, d, e, confirm-memory k m')
                (confirm-IsClosed k m', IsKept-store m p ((==_iff _ _).0 d))
          | inr e ↦ rw (a, b, c, d, e, confirm-memory k m) (confirm-IsClosed k m, inl refl)
        ]
      ]
    ]
  ]
]

applied-nop :
    (k : Mocha) (m : ℕ → ℕ)
    → (iosu_patch_apply k m).result ≡ pos 0
    → ((iosu_patch_apply k m).memory guard_addr == guard_nop) ≡ true
unfolding iosu_patch_apply confirm
applied-nop k m h = ground arith

iosu_patch_apply-again :
    (k : Mocha) (m : ℕ → ℕ)
    → k.starts ≡ true
    → k.reads ≡ true
    → (m guard_addr == guard_nop) ≡ true
    → iosu_patch_apply k m ≡ record { result = pos 0; events = started ∷ ended ∷ []; memory = m }
unfolding iosu_patch_apply
iosu_patch_apply-again k m a b c = rw (a, b, c)

-- A result 0 of `iosu_patch_apply` leaves `GUARD_NOP` at `GUARD_ADDR`; and a second call, if Mocha
-- starts and reads, answers 0 and writes nothing.
iosu_patch_apply-Applied :
    (k again : Mocha) (m : ℕ → ℕ)
    → (iosu_patch_apply k m).result ≡ pos 0
    → again.starts ≡ true
    → again.reads ≡ true
    → (((iosu_patch_apply k m).memory guard_addr == guard_nop) ≡ true)
      × (iosu_patch_apply again (iosu_patch_apply k m).memory ≡ record {
        result = pos 0;
        events = started ∷ ended ∷ [];
        memory = (iosu_patch_apply k m).memory;
      })
iosu_patch_apply-Applied k again m h a b =
    let nop = applied-nop k m h in
    (nop, iosu_patch_apply-again again (iosu_patch_apply k m).memory a b nop)
