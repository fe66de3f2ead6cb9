-- ===== src/Shim/Select/Bits.antt =====
-- The loops of `select` over the bits of a mask.
use ax88179_aroma_driver.Base.{
  ℕ, zero, suc, arith, ◌<◌, ◌≡◌, ◌≢◌, refl, sym, ap, ◌∙◌, inl, inr, Bool, true, false, ◌&&◌, Option,
  none, some, ◌==◌, Bool-cases, ==_iff, and_left, and_right, differ,
}
use ax88179_aroma_driver.Shim.Select.{Bits, put, fill_set, raise, limit, same_bit, same_bits}

below : (i n : ℕ) → i < suc n → (i == n) ≡ false → i < n
below i n b h = let d = differ i n h in omega arith

same_bit-true : (a b : Bool) → same_bit a b ≡ true → a ≡ b
same_bit-true a b h = ground arith

pub same_bits-true : (n : ℕ) (f g : Bits) → same_bits n f g ≡ true → (i : ℕ) → i < n → f i ≡ g i
same_bits-true zero f g h i b = absurd (omega arith)
same_bits-true (suc n) f g h i b = elim (Bool-cases (i == n)) [
  | inl e ↦
      let k = (==_iff i n).0 e in
      ap f k
      ∙ (same_bit-true (f n) (g n) (and_left (same_bit (f n) (g n)) (same_bits n f g) h)
          ∙ ap g (sym k))
  | inr ne ↦
      same_bits-true n f g (and_right (same_bit (f n) (g n)) (same_bits n f g) h) i (below i n b ne)
]

put-other :
    (b : Bool) (o : Option ℕ) (m : Bits) (x : ℕ) → (b ≡ true → o ≢ some x) → put b o m x ≡ m x
unfolding put
put-other true (some y) m x h = elim (Bool-cases (y == x)) [
  | inl e ↦ absurd (h refl (ap some ((==_iff y x).0 e)))
  | inr ne ↦ rw ne refl
]
put-other true none m x h = refl
put-other false o m x h = refl

put_self : (b : Bool) (m : Bits) (x : ℕ) → m x ≡ false → put b (some x) m x ≡ b
unfolding put
put_self true m x h = ground arith
put_self false m x h = h

fill_set-none :
    (n : ℕ) (want : Bits) (mapped : ℕ → Option ℕ) (f : Bits) (x : ℕ)
    → ((j : ℕ) → j < n → want j ≡ true → mapped j ≢ some x)
    → fill_set n want mapped f x ≡ false
unfolding fill_set
fill_set-none zero want mapped f x h = refl
fill_set-none (suc n) want mapped f x h =
    put-other (want n && f n) (mapped n) (fill_set n want mapped f) x
      (λ w. h n (omega arith) (and_left (want n) (f n) w))
    ∙ fill_set-none n want mapped f x (λ j b. h j (omega arith))

fill_set-last :
    (n : ℕ) (want : Bits) (mapped : ℕ → Option ℕ) (f : Bits) (x : ℕ)
    → want n ≡ true
    → mapped n ≡ some x
    → ((j : ℕ) → j < n → want j ≡ true → mapped j ≢ some x)
    → fill_set (suc n) want mapped f x ≡ f n
unfolding fill_set
fill_set-last n want mapped f x w e h =
    rw (w, e) (put_self (f n) (fill_set n want mapped f) x (fill_set-none n want mapped f x h))

-- The set for lwIP holds the socket behind a wanted descriptor where the title's set holds that one.
pub fill_set-mapped :
    (n : ℕ) (want : Bits) (mapped : ℕ → Option ℕ) (f : Bits)
    → ((i j : ℕ) → i < n → j < n → want i ≡ true → want j ≡ true → mapped i ≡ mapped j → i ≡ j)
    → (i x : ℕ) → i < n
    → want i ≡ true
    → mapped i ≡ some x
    → fill_set n want mapped f x ≡ f i
unfolding fill_set
fill_set-mapped zero want mapped f d i x b w e = absurd (omega arith)
fill_set-mapped (suc n) want mapped f d i x b w e = elim (Bool-cases (i == n)) [
  | inl same ↦
      let k = (==_iff i n).0 same in
      fill_set-last n want mapped f x (ap want (sym k) ∙ w) (ap mapped (sym k) ∙ e) (λ j c v m.
        let l =
          d j n (omega arith) (omega arith) v (ap want (sym k) ∙ w)
            (m ∙ sym (ap mapped (sym k) ∙ e)) in
        absurd (omega arith))
      ∙ ap f (sym k)
  | inr ne ↦
      put-other (want n && f n) (mapped n) (fill_set n want mapped f) x
        (λ t m. differ i n ne (d i n b (omega arith) w (and_left (want n) (f n) t) (e ∙ sym m)))
      ∙ fill_set-mapped n want mapped f (λ j l c c'. d j l (omega arith) (omega arith)) i x
          (below i n b ne) w e
]

raise-mapped : (b : Bool) (o : Option ℕ) (x ln : ℕ) → b ≡ true → o ≡ some x → x < raise b o ln
unfolding raise
raise-mapped b o x ln w e = rw (w, e) (ground arith)

raise-grows : (b : Bool) (o : Option ℕ) (x ln : ℕ) → x < ln → x < raise b o ln
unfolding raise
raise-grows b o x ln h = ground arith

-- lwIP looks at every socket behind a wanted descriptor.
pub limit-mapped :
    (n : ℕ) (want : Bits) (mapped : ℕ → Option ℕ) (offset i x : ℕ)
    → i < n
    → want i ≡ true
    → mapped i ≡ some x
    → x < limit n want mapped offset
unfolding limit
limit-mapped zero want mapped offset i x b w e = absurd (omega arith)
limit-mapped (suc n) want mapped offset i x b w e = elim (Bool-cases (i == n)) [
  | inl same ↦
      let k = (==_iff i n).0 same in
      raise-mapped (want n) (mapped n) x (limit n want mapped offset) (ap want (sym k) ∙ w)
        (ap mapped (sym k) ∙ e)
  | inr ne ↦
      raise-grows (want n) (mapped n) x (limit n want mapped offset)
        (limit-mapped n want mapped offset i x (below i n b ne) w e)
]
