-- ===== src/Shim/Select/Ends.antt =====
-- The ends of `select`: what holds of a reply that is no error.
use ax88179_aroma_driver.Base.{
  ℕ, ◌+◌, ◌≤◌, ◌≡◌, refl, sym, ◌∙◌, Bool, true, false, ◌||◌, Option, none, some, ltb, leb,
  if◌then◌else◌, ℤ, pos, negsuc, is_neg, minus_one, ltb→le, or_left, or_right,
}
use mathlib.Core.Path.{subst}
use ax88179_aroma_driver.Shim.Sockets.{Shim}
use ax88179_aroma_driver.Shim.Select.{
  Sets, Answer, Errno, Round, Reply, native_call, from_lwip, amount, is_positive, emptied, merge,
  decide, bad_nfds,
}

true_ne_false : true ≡ false → ⊥
true_ne_false h = cc

-- A predicate on a reply that is no error.
abbrev pub Holds : (Reply → Type 0) → Option Reply → Type 0
Holds P none = Unit
Holds P (some r) = is_neg r.result ≡ false → P r

pub Holds-if :
    (P : Reply → Type 0) (b : Bool) (o o' : Option Reply)
    → Holds P o
    → Holds P o'
    → Holds P (if b then o else o')
Holds-if P true o o' h h' = h
Holds-if P false o o' h h' = h'

-- Two errors, a result and the rest.
pub Holds-choice :
    (P : Reply → Type 0) (a b c : Bool) (e e' : Errno) (sets : Sets) (s : Shim) (r : Reply)
    (rest : Option Reply)
    → (a ≡ false → b ≡ false → c ≡ true → Holds P (some r))
    → (a ≡ false → b ≡ false → c ≡ false → Holds P rest)
    → Holds P (
        if a
        then some (record { result = minus_one; errno = e; sets = sets; shim = s })
        else if b
        then some (record { result = minus_one; errno = e'; sets = sets; shim = s })
        else if c
        then some r
        else rest)
Holds-choice P true b c e e' sets s r rest h h' = λ t. elim (true_ne_false t) [ ]
Holds-choice P false true c e e' sets s r rest h h' = λ t. elim (true_ne_false t) [ ]
Holds-choice P false false true e e' sets s r rest h h' = h refl refl refl
Holds-choice P false false false e e' sets s r rest h h' = h' refl refl refl

-- Two errors in front.
pub Holds-guard :
    (P : Reply → Type 0) (b c : Bool) (r r' : Reply) (rest : Option Reply)
    → is_neg r.result ≡ true
    → is_neg r'.result ≡ true
    → (b ≡ false → Holds P rest)
    → Holds P (if b then some r else if c then some r' else rest)
Holds-guard P true c r r' rest h h' k = λ ok. elim (true_ne_false (sym h ∙ ok)) [ ]
Holds-guard P false true r r' rest h h' k = λ ok. elim (true_ne_false (sym h' ∙ ok)) [ ]
Holds-guard P false false r r' rest h h' k = k refl

pub amount-small : (nfds : ℤ) (b : Bool) → (bad_nfds nfds || b) ≡ false → amount nfds ≤ 32
amount-small (pos n) b h = ltb→le 32 n (or_left (ltb 32 n) b h)
amount-small (negsuc n) b h = elim (true_ne_false h) [ ]

module _ (P : Reply → Type 0) (offset : ℕ) (rounds : ℕ → Round) (sets : Sets) (s : Shim)
    (n l : Answer) where
  pub decide-Holds :
      (deadline : Option ℕ) (now : ℕ) (again : Option Reply)
      → (is_neg n.rc ≡ false
          → is_neg l.rc ≡ false
          → P (record {
            result = pos (amount n.rc + amount l.rc);
            errno = from_lwip;
            sets = merge n l sets;
            shim = s;
          }))
      → (is_neg n.rc ≡ false
          → is_neg l.rc ≡ false
          → is_positive n.rc ≡ false
          → is_positive l.rc ≡ false
          → P (record { result = pos 0; errno = from_lwip; sets = emptied sets; shim = s }))
      → Holds P again
      → Holds P (decide offset rounds sets s deadline now n l again)
  unfolding decide
  decide-Holds none now again found idle h =
      Holds-choice P (is_neg n.rc) (is_neg l.rc) (is_positive n.rc || is_positive l.rc) native_call
        from_lwip sets s _ again (λ okn okl z e. found okn okl) (λ okn okl z. h)
  decide-Holds (some d) now again found idle h =
      Holds-choice P (is_neg n.rc) (is_neg l.rc) (is_positive n.rc || is_positive l.rc) native_call
        from_lwip sets s _ _ (λ okn okl z e. found okn okl)
        (λ okn okl z.
          Holds-if P (leb d now) (some _) again
            (λ e.
              idle okn okl (or_left (is_positive n.rc) (is_positive l.rc) z)
                (or_right (is_positive n.rc) (is_positive l.rc) z))
            h)

pub Holds-some :
    (P : Reply → Type 0) (o : Option Reply) (r : Reply) → o ≡ some r → Holds P o → Holds P (some r)
Holds-some P o r e h = subst (Holds P) e h
