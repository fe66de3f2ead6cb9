-- ===== src/Shim/AddrInfo/Chains.antt =====
-- Lists of nodes in the memory: how they are built and freed.
use ax88179_aroma_driver.Base.{
  ℕ, zero, suc, arith, ◌≤◌, ◌≡◌, refl, ap, ◌∙◌, Bool, false, ◌||◌, Option, none, some, List, [],
  ◌∷◌, ◌++◌, length, ◌==◌, if◌then◌else◌, or_left, or_right,
}
use mathlib.Core.Path.{subst}
use ax88179_aroma_driver.Shim.Sockets.{update}
use ax88179_aroma_driver.Shim.AddrInfo.{
  Node, Memory, first, with_next, append_node, free_list, next_node,
}

abbrev pub has : ℕ → List ℕ → Bool
has x [] = false
has x (a ∷ cs) = (x == a) || has x cs

abbrev pub AreDistinct : List ℕ → Type 0
AreDistinct [] = Unit
AreDistinct (a ∷ cs) = (has a cs ≡ false) × AreDistinct cs

-- The list from `head` on stands in these blocks.
abbrev pub IsChain : Memory → Option ℕ → List ℕ → Type 0
IsChain m head [] = head ≡ none
IsChain m head (a ∷ cs) = (head ≡ some a) × ((n : Node) × (m a ≡ some n) × IsChain m n.next cs)

pub update_ne : (m : Memory) (a x : ℕ) (v : Option Node) → (a == x) ≡ false → update m a v x ≡ m x
update_ne m a x v h = rw h refl

pub update_self : (m : Memory) (a : ℕ) (v : Option Node) → update m a v a ≡ v
update_self m a v = ground arith

-- A block that is not in the list may change.
pub IsChain-update :
    (m : Memory) (head : Option ℕ) (cs : List ℕ) (a : ℕ) (v : Option Node)
    → has a cs ≡ false
    → IsChain m head cs
    → IsChain (update m a v) head cs
IsChain-update m head [] a v h c = c
IsChain-update m head (x ∷ cs) a v h (e, (n, p, c)) = (
  e,
  (
    n,
    update_ne m a x v (or_left (a == x) (has a cs) h) ∙ p,
    IsChain-update m n.next cs a v (or_right (a == x) (has a cs) h) c,
  ),
)

-- The memory without these blocks.
abbrev pub without : Memory → List ℕ → Memory
without m [] = m
without m (a ∷ cs) = without (update m a none) cs

step :
    (b : Bool) (v : Option Node) (a x : ℕ)
    → (if b then none else (if a == x then none else v)) ≡ (if (x == a) || b then none else v)
step b v a x = ground arith

pub without-at :
    (m : Memory) (cs : List ℕ) (x : ℕ) → without m cs x ≡ (if has x cs then none else m x)
without-at m [] x = refl
without-at m (a ∷ cs) x = without-at (update m a none) cs x ∙ step (has x cs) (m x) a x

pub free_list-without :
    (cs : List ℕ) (fuel : ℕ) (m : Memory) (head : Option ℕ)
    → length cs ≤ fuel
    → AreDistinct cs
    → IsChain m head cs
    → free_list fuel head m ≡ some (without m cs)
unfolding free_list next_node
free_list-without [] fuel m head b d c = rw c refl
free_list-without (a ∷ cs) zero m head b d c = absurd (omega arith)
free_list-without (a ∷ cs) (suc fuel) m head b d (e, (n, p, c)) =
    rw (e, p)
      (free_list-without cs fuel (update m a none) n.next (omega arith) d.1
        (IsChain-update m n.next cs a none d.0 c))

abbrev pub last : List ℕ → Option ℕ
last [] = none
last (a ∷ []) = some a
last (a ∷ b ∷ cs) = last (b ∷ cs)

abbrev pub with_end : List ℕ → ℕ → List ℕ
with_end cs a = cs ++ (a ∷ [])

-- The last block is not one that the list does not have.
pub flip : (x b : ℕ) → (x == b) ≡ false → (b == x) ≡ false
flip x b h = ground arith

pub last-other :
    (cs : List ℕ) (a : ℕ) (m : Memory) (x : ℕ)
    → has x cs ≡ false
    → append_node (last cs) a m x ≡ m x
unfolding append_node
last-other [] a m x h = refl
last-other (b ∷ []) a m x h = update_ne m b x _ (flip x b (or_left (x == b) false h))
last-other (b ∷ c ∷ cs) a m x h = last-other (c ∷ cs) a m x (or_right (x == b) (has x (c ∷ cs)) h)

first-some : (o : Option ℕ) (c a : ℕ) → o ≡ some c → first o a ≡ o
first-some none c a e = absurd (cc)
first-some (some b) c a e = refl

-- A fresh node at the end.
pub IsChain-append_node :
    (cs : List ℕ) (m : Memory) (head : Option ℕ) (a : ℕ) (n : Node)
    → AreDistinct cs
    → has a cs ≡ false
    → m a ≡ some n
    → n.next ≡ none
    → IsChain m head cs
    → IsChain (append_node (last cs) a m) (first head a) (with_end cs a)
unfolding append_node
IsChain-append_node [] m head a n d h p z c = (rw c refl, (n, p, z))
IsChain-append_node (b ∷ []) m head a n d h p z (e, (k, q, c)) = (
  ap (λ o. first o a) e,
  (
    record k { next = some a },
    update_self m b (with_next a (m b)) ∙ ap (with_next a) q,
    (refl, (n, update_ne m b a (with_next a (m b)) (flip a b (or_left (a == b) false h)) ∙ p, z)),
  ),
)
IsChain-append_node (b ∷ b' ∷ cs) m head a n d h p z (e, (k, q, c)) = (
  ap (λ o. first o a) e,
  (
    k,
    last-other (b' ∷ cs) a m b d.0 ∙ q,
    subst (λ o. IsChain (append_node (last (b' ∷ cs)) a m) o (with_end (b' ∷ cs) a))
        (first-some k.next b' a c.0)
        (IsChain-append_node (b' ∷ cs) m k.next a n d.1 (or_right (a == b) (has a (b' ∷ cs)) h) p z
          c),
  ),
)
