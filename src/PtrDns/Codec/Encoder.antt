-- ===== src/PtrDns/Codec/Encoder.antt =====
-- What `ptr_dns_encode_name` writes for a name made of labels.
use ax88179_aroma_driver.Base.{
  ℕ, zero, suc, ◌+◌, ◌≤◌, ◌<◌, ◌≡◌, refl, ap, ◌∙◌, sym, false, ◌||◌, Bytes, List, [], ◌∷◌, ◌++◌,
  arith, length, length-append, ltb, leb, ◌==◌,
}
use ax88179_aroma_driver.Base.Outcome.{ok}
use mathlib.Core.Path.{ap₂}
use mathlib.Core.List.{append_assoc, append-nil}
use ax88179_aroma_driver.PtrDns.Codec.{
  encode_labels, encode_end, put_label, next_label, encode_name, label, after_dot, dot,
}
use ax88179_aroma_driver.PtrDns.Codec.Wire.{
  IsLabel, Labels, dotted, wire, label-append, label_self, after_dot-append, after_dot_self,
  write-at, put_label-at, cut, length-wire,
}

-- One round of the encoder on a label that it accepts.
encode_round :
    (fuel capacity : ℕ) (packet p : Bytes) (pos : ℕ) (l cur : Bytes)
    → label cur ≡ l
    → 0 < length cur
    → 0 < length l
    → length l ≤ 63
    → pos + 1 + length l < capacity
    → put_label packet pos l ≡ ok p
    → encode_labels (suc fuel) capacity packet pos cur
      ≡ next_label
          (encode_labels fuel capacity p (pos + 1 + length l))
          (p, pos + 1 + length l)
          (after_dot cur)
unfolding encode_labels
encode_round fuel capacity packet p pos l [] e f g h k put = absurd (omega arith)
encode_round fuel capacity packet p pos l (c ∷ cs) e f g h k put = rw (e, refused_no, put)
  where
    refused_no : (length l == 0 || (ltb 63 (length l) || leb capacity (pos + 1 + length l))) ≡ false
    refused_no = ground arith

pub encode_labels-join :
    (fuel capacity : ℕ) (pre old post l : Bytes) (ls : List Bytes) {pos : ℕ}
    → pos ≡ length pre
    → length old ≡ length (wire (l ∷ ls))
    → IsLabel l
    → Labels ls
    → pos + length (wire (l ∷ ls)) < capacity
    → length (wire (l ∷ ls)) ≤ fuel
    → encode_labels fuel capacity (pre ++ (old ++ post)) pos (dotted l ls)
      ≡ ok (pre ++ (wire (l ∷ ls) ++ post), pos + length (wire (l ∷ ls)))
encode_labels-join zero capacity pre old post l ls e len il ils room f = absurd (omega arith)
encode_labels-join (suc fuel) capacity pre old post l [] {pos} e len il ils room f =
    rw (append-nil l) (
      encode_round fuel capacity (pre ++ (old ++ post)) (pre ++ (length l ∷ (l ++ post))) pos l l
        (label_self l il.2) il.0 il.0 il.1 (omega (arith, length-append l []))
        (put_label-at pre e old l post (omega (arith, length-append l [])))
      ∙ rw (after_dot_self l il.2)
          (ap (λ n. ok (pre ++ (length l ∷ (l ++ post)), n)) (omega arith)))
encode_labels-join (suc fuel) capacity pre old post l (m ∷ ls) {pos} e len il ils room f =
    let rest = wire (m ∷ ls) in
    let size = length-append l rest in
    let (a, b, split, size_a) = cut (suc (length l)) old (omega (arith, size)) in
    let size_b = length-append a b in
    let placed : pos + 1 + length l ≡ length (pre ++ (length l ∷ l)) =
      omega (arith, length-append pre (length l ∷ l)) in
    let ih =
      encode_labels-join fuel capacity (pre ++ (length l ∷ l)) b post m ls placed
        (omega (arith, size, size_b, ap length split)) ils.0 ils.1 (omega (arith, size))
        (omega (arith, size)) in
    rw (split, append_assoc a b post)
      (encode_round fuel capacity (pre ++ (a ++ (b ++ post)))
          (pre ++ (length l ∷ (l ++ (b ++ post)))) pos l (l ++ (dot ∷ dotted m ls))
          (label-append l (dotted m ls) il.2) (omega (arith, length-append l (dot ∷ dotted m ls)))
          il.0 il.1 (omega (arith, size)) (put_label-at pre e a l (b ++ post) size_a)
        ∙ rw (after_dot-append l (dotted m ls) il.2, ← append_assoc pre (length l ∷ l) (b ++ post))
            (ih
              ∙ ap₂ (λ (p : Bytes) (n : ℕ). ok (p, n))
                  (append_assoc pre (length l ∷ l) (rest ++ post)
                    ∙ ap (λ t. pre ++ (length l ∷ t)) (sym (append_assoc l rest post)))
                  (omega (arith, size))))

pub encode_name-at :
    (capacity : ℕ) (pre old post l : Bytes) (ls : List Bytes)
    → length old ≡ length (wire (l ∷ ls)) + 1
    → IsLabel l
    → Labels ls
    → length pre + length (wire (l ∷ ls)) < capacity
    → encode_name capacity (pre ++ (old ++ post)) (length pre) (dotted l ls)
      ≡ ok (pre ++ (wire (l ∷ ls) ++ (0 ∷ post)), length pre + length (wire (l ∷ ls)) + 1)
unfolding encode_name encode_end
encode_name-at capacity pre old post l ls len il ils room =
    let w = wire (l ∷ ls) in
    let (a, b, split, size_a) = cut (length w) old (omega arith) in
    let labels_done =
      encode_labels-join (suc (length (dotted l ls))) capacity pre a (b ++ post) l ls refl size_a il
        ils room (omega (arith, length-wire l ls)) in
    let inside : leb capacity (length pre + length w) ≡ false = ground arith in
    let ended =
      write-at (pre ++ w) {pos = length pre + length w} (omega (arith, length-append pre w)) b
        (0 ∷ []) post (omega (arith, length-append a b, ap length split)) in
    rw (split, append_assoc a b post, labels_done, inside, ← append_assoc pre w (b ++ post), ended)
      (ap (λ p. ok (p, length pre + length w + 1)) (append_assoc pre w (0 ∷ post)))
