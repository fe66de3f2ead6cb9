-- ===== src/Shim/AddrInfo/Built.antt =====
-- The list that `build` makes, and the memory around it.
use ax88179_aroma_driver.Base.{
  ℕ, suc, arith, ◌+◌, ◌≤◌, ◌≡◌, refl, sym, ap, ◌∙◌, ◌⊎◌, inl, inr, Bool, true, false, ◌||◌, Option,
  none, some, List, [], ◌∷◌, length, ◌==◌, Bool-cases, ==_iff, or_left, or_right, contradicts,
}
use mathlib.Core.Path.{subst}
use ax88179_aroma_driver.Shim.Sockets.{update}
use ax88179_aroma_driver.Shim.AddrInfo.{Entry, Memory, first, append_node, build}
use ax88179_aroma_driver.Shim.AddrInfo.Chains.{
  has, AreDistinct, IsChain, update_ne, update_self, flip, last-other, IsChain-append_node,
  IsChain-update, last, with_end,
}

both_false : (a b : Bool) → a ≡ false → b ≡ false → (a || b) ≡ false
both_false a b h h' = ground arith

has-with_end : (cs : List ℕ) (a x : ℕ) → has x (with_end cs a) ≡ (has x cs || (x == a))
has-with_end [] a x = ground arith
has-with_end (b ∷ cs) a x = rw (has-with_end cs a x) (ground arith)

AreDistinct-with_end :
    (cs : List ℕ) (a : ℕ) → AreDistinct cs → has a cs ≡ false → AreDistinct (with_end cs a)
AreDistinct-with_end [] a d h = (refl, tt)
AreDistinct-with_end (b ∷ cs) a d h = (
  has-with_end cs a b
      ∙ both_false (has b cs) (b == a) d.0 (flip a b (or_left (a == b) (has a cs) h)),
  AreDistinct-with_end cs a d.1 (or_right (a == b) (has a cs) h),
)

last-with_end : (cs : List ℕ) (a : ℕ) → last (with_end cs a) ≡ some a
last-with_end [] a = refl
last-with_end (b ∷ []) a = refl
last-with_end (b ∷ c ∷ cs) a = last-with_end (c ∷ cs) a

length-with_end : (cs : List ℕ) (a : ℕ) → length (with_end cs a) ≡ suc (length cs)
length-with_end [] a = refl
length-with_end (b ∷ cs) a = ap suc (length-with_end cs a)

abbrev pub is_given : ℕ → List (Entry × Option ℕ) → Bool
is_given a [] = false
is_given a ((e, none) ∷ es) = is_given a es
is_given a ((e, some b) ∷ es) = (a == b) || is_given a es

-- The blocks that `malloc` gives for the entries differ, and are neither allocated nor in a list.
abbrev pub AreFresh : Memory → List (Entry × Option ℕ) → Type 0
AreFresh m [] = Unit
AreFresh m ((e, none) ∷ es) = AreFresh m es
AreFresh m ((e, some a) ∷ es) = (m a ≡ none) × ((is_given a es ≡ false) × AreFresh m es)

-- A list in its blocks, which were free before, and the rest of the memory as it was.
pub record IsBuilt (before : Memory) (cs : List ℕ) (m : Memory) (head : Option ℕ) : Type 0 where
  pub chain : IsChain m head cs
  pub distinct : AreDistinct cs
  pub frame : (x : ℕ) → has x cs ≡ false → m x ≡ before x
  pub were_free : (x : ℕ) → has x cs ≡ true → before x ≡ none

or_cases : (a b : Bool) → (a || b) ≡ true → (a ≡ true) ⊎ (b ≡ true)
or_cases a b h = ground arith

-- One entry more.
IsBuilt-append_node :
    (before : Memory) (cs : List ℕ) (m : Memory) (head : Option ℕ) (a : ℕ) (e : Entry)
    → IsBuilt before cs m head
    → has a cs ≡ false
    → before a ≡ none
    → IsBuilt before
        (with_end cs a)
        (append_node (last cs) a (update m a (some (record { entry = e; next = none }))))
        (first head a)
IsBuilt-append_node before cs m head a e built h free = record {
  chain =
      IsChain-append_node cs _ head a (record { entry = e; next = none }) built.distinct h
        (update_self m a (some (record { entry = e; next = none }))) refl
        (IsChain-update m head cs a (some (record { entry = e; next = none })) h built.chain);
  distinct = AreDistinct-with_end cs a built.distinct h;
  frame = λ x g.
      let k = sym (has-with_end cs a x) ∙ g in
      last-other cs a _ x (or_left (has x cs) (x == a) k)
      ∙ (update_ne m a x _ (flip x a (or_right (has x cs) (x == a) k))
          ∙ built.frame x (or_left (has x cs) (x == a) k));
  were_free = λ x g. elim (or_cases (has x cs) (x == a) (sym (has-with_end cs a x) ∙ g)) [
    | inl old ↦ built.were_free x old
    | inr new ↦ ap before ((==_iff x a).0 new) ∙ free
  ];
}

-- The blocks still to come are not in the list.
abbrev pub Apart : List ℕ → List (Entry × Option ℕ) → Type 0
Apart cs es = (x : ℕ) → has x cs ≡ true → is_given x es ≡ false

Apart-with_end :
    (cs : List ℕ) (a : ℕ) (e : Entry) (es : List (Entry × Option ℕ))
    → Apart cs ((e, some a) ∷ es)
    → is_given a es ≡ false
    → Apart (with_end cs a) es
Apart-with_end cs a e es apart h x g =
    elim (or_cases (has x cs) (x == a) (sym (has-with_end cs a x) ∙ g)) [
      | inl old ↦ or_right (x == a) (is_given x es) (apart x old)
      | inr new ↦ ap (λ y. is_given y es) ((==_iff x a).0 new) ∙ h
    ]

Apart-head :
    (cs : List ℕ) (a : ℕ) (e : Entry) (es : List (Entry × Option ℕ))
    → Apart cs ((e, some a) ∷ es)
    → has a cs ≡ false
Apart-head cs a e es apart = elim (Bool-cases (has a cs)) [
  | inr off ↦ off
  | inl on ↦
      absurd
        (contradicts (a == a) ((==_iff a a).1 refl) (or_left (a == a) (is_given a es) (apart a on)))
]

-- What `build` leaves, complete or not.
abbrev pub Builds : Memory → ℕ → Bool × Option ℕ × Memory → Type 0
Builds before n (ok, head, m) = (cs : List ℕ) × IsBuilt before cs m head × (length cs ≤ n)

pub build-Builds :
    (es : List (Entry × Option ℕ)) (before : Memory) (cs : List ℕ) (m : Memory)
    (head tail : Option ℕ)
    → IsBuilt before cs m head
    → last cs ≡ tail
    → AreFresh before es
    → Apart cs es
    → Builds before (length cs + length es) (build es head tail m)
unfolding build
build-Builds [] before cs m head tail built l fresh apart = (cs, built, omega arith)
build-Builds ((e, none) ∷ es) before cs m head tail built l fresh apart = (cs, built, omega arith)
build-Builds ((e, some a) ∷ es) before cs m head tail built l fresh apart =
    let h = Apart-head cs a e es apart in
    let k = length-with_end cs a in
    let (cs', built', n) =
      build-Builds es before (with_end cs a)
        (append_node tail a (update m a (some (record { entry = e; next = none })))) (first head a)
        (some a)
        (subst
          (λ o.
            IsBuilt before (with_end cs a)
              (append_node o a (update m a (some (record { entry = e; next = none }))))
              (first head a))
          l (IsBuilt-append_node before cs m head a e built h fresh.0))
        (last-with_end cs a) fresh.1.1 (Apart-with_end cs a e es apart fresh.1.0) in
    (cs', built', omega arith)
