-- ===== src/PtrDns/Codec/Decoder.antt =====
-- What `ptr_dns_decode_name` and `ptr_dns_skip_name` make of the labels of a name.
use ax88179_aroma_driver.Base.{
  ℕ, zero, suc, ◌+◌, ◌≤◌, ◌<◌, ◌≡◌, refl, ap, ◌∙◌, false, not, ◌||◌, ◌&&◌, Bytes, List, [], ◌∷◌,
  ◌++◌, arith, length, length-append, ltb, leb, ◌==◌,
}
use ax88179_aroma_driver.Base.Outcome.{Outcome, ok}
use mathlib.Core.List.{append_assoc, append-nil}
use ax88179_aroma_driver.PtrDns.Codec.{
  is_pointer, is_reserved, skip_labels, separated, append_label, decode_labels, dot,
}
use ax88179_aroma_driver.PtrDns.Codec.Wire.{
  IsLabel, Labels, dotted, wire, read-at, copy_from-at, next_at,
}

-- The dot that is written fits where the label behind it does.
separated_room :
    (out : Bytes) (n out_len : ℕ)
    → 0 < n
    → length (separated out) + n < out_len
    → (not (length out == 0) && leb out_len (length out + 1)) ≡ false
separated_room [] n out_len some_bytes room = refl
separated_room (c ∷ cs) n out_len some_bytes room = ground (arith, length-append cs (dot ∷ []))

-- A label that fits is appended.
append_label-at :
    (again : Bytes → Outcome Bytes) (pre l post : Bytes) (packet_len out_len : ℕ) (out : Bytes)
    {pos : ℕ}
    → pos ≡ length pre
    → 0 < length l
    → length l ≤ 63
    → pos + 1 + length l ≤ packet_len
    → length (separated out) + length l < out_len
    → append_label again (pre ++ (length l ∷ (l ++ post))) packet_len out_len pos (length l) out
      ≡ again (separated out ++ l)
unfolding append_label
append_label-at again pre l post packet_len out_len out {pos} e some_bytes few here room = rw (
  first,
  second,
  third,
  ← append_assoc pre (length l ∷ []) (l ++ post),
  copy_from-at (pre ++ (length l ∷ [])) (next_at pre (length l) e) l post,
)
  where
    first : (is_reserved (length l) || ltb packet_len (pos + 1 + length l)) ≡ false
    first = ground arith

    second : (not (length out == 0) && leb out_len (length out + 1)) ≡ false
    second = separated_room out (length l) out_len some_bytes room

    third : leb out_len (length (separated out) + length l) ≡ false
    third = ground arith

-- One round of the decoder on a label: what it makes of a packet with the label at `pos`.
decode_round :
    (n : ℕ) (pre l post : Bytes) (packet_len out_len jumps : ℕ) (out : Bytes) {pos : ℕ}
    → pos ≡ length pre
    → 0 < length l
    → length l ≤ 63
    → pos + 1 + length l ≤ packet_len
    → length (separated out) + length l < out_len
    → decode_labels (suc n) (pre ++ (length l ∷ (l ++ post))) packet_len out_len pos jumps out
      ≡ decode_labels n
          (pre ++ (length l ∷ (l ++ post)))
          packet_len
          out_len
          (pos + 1 + length l)
          jumps
          (separated out ++ l)
unfolding decode_labels
decode_round n pre l post packet_len out_len jumps out {pos} e some_bytes few here room =
    rw (inside, read-at pre e (length l) (l ++ post), not_end, not_pointer)
      (append_label-at _ pre l post packet_len out_len out e some_bytes few here room)
  where
    inside : leb packet_len pos ≡ false
    inside = ground arith

    not_end : (length l == 0) ≡ false
    not_end = ground arith

    not_pointer : is_pointer (length l) ≡ false
    not_pointer = ground arith

decode_end :
    (n : ℕ) (pre post : Bytes) (packet_len out_len jumps : ℕ) (out : Bytes) {pos : ℕ}
    → pos ≡ length pre
    → pos < packet_len
    → decode_labels (suc n) (pre ++ (0 ∷ post)) packet_len out_len pos jumps out ≡ ok out
unfolding decode_labels
decode_end n pre post packet_len out_len jumps out {pos} e here = rw (inside, read-at pre e 0 post)
  where
    inside : leb packet_len pos ≡ false
    inside = ground arith

separated-append : (x l : Bytes) → 0 < length l → separated (x ++ l) ≡ (x ++ l) ++ (dot ∷ [])
separated-append [] [] h = elim h [ ]
separated-append [] (c ∷ cs) h = refl
separated-append (y ∷ x) l h = refl

-- The decoder on the labels of a name, with a packet around them.
pub decode_labels-wire :
    (n : ℕ) (pre l post : Bytes) (ls : List Bytes) (packet_len out_len jumps : ℕ) (out : Bytes)
    {pos : ℕ}
    → pos ≡ length pre
    → IsLabel l
    → Labels ls
    → length (l ∷ ls) < n
    → pos + length (wire (l ∷ ls)) < packet_len
    → length (separated out) + length (dotted l ls) < out_len
    → decode_labels n (pre ++ (wire (l ∷ ls) ++ (0 ∷ post))) packet_len out_len pos jumps out
      ≡ ok (separated out ++ dotted l ls)
decode_labels-wire zero pre l post ls packet_len out_len jumps out e il ils f here room =
    absurd (omega arith)
decode_labels-wire (suc zero) pre l post ls packet_len out_len jumps out e il ils f here room =
    absurd (omega arith)
decode_labels-wire (suc (suc n)) pre l post [] packet_len out_len jumps out {pos} e il ils f here
      room =
    let size = length-append l [] in
    rw (append-nil l) (
      decode_round (suc n) pre l (0 ∷ post) packet_len out_len jumps out e il.0 il.1
        (omega (arith, size)) (omega arith)
      ∙ rw (← append_assoc pre (length l ∷ l) (0 ∷ post)) (
          decode_end n (pre ++ (length l ∷ l)) post packet_len out_len jumps (separated out ++ l)
            (omega (arith, length-append pre (length l ∷ l))) (omega (arith, size))))
decode_labels-wire (suc (suc n)) pre l post (m ∷ ls) packet_len out_len jumps out {pos} e il ils f
      here room =
    let rest = wire (m ∷ ls) ++ (0 ∷ post) in
    let size = length-append l (wire (m ∷ ls)) in
    let wide = length-append l (dot ∷ dotted m ls) in
    let placed : pos + 1 + length l ≡ length (pre ++ (length l ∷ l)) =
      omega (arith, length-append pre (length l ∷ l)) in
    let ih =
      decode_labels-wire (suc n) (pre ++ (length l ∷ l)) m post ls packet_len out_len jumps
        (separated out ++ l) placed ils.0 ils.1 (omega arith) (omega (arith, size))
        (rw (separated-append (separated out) l il.0) (
          omega (
            arith,
            length-append (separated out) l,
            length-append (separated out ++ l) (dot ∷ []),
            wide,
          ))) in
    rw (append_assoc l (wire (m ∷ ls)) (0 ∷ post)) (
      decode_round (suc n) pre l rest packet_len out_len jumps out e il.0 il.1 (omega (arith, size))
        (omega (arith, wide))
      ∙ rw (← append_assoc pre (length l ∷ l) rest) (
          ih
          ∙ ap ok (
              rw (separated-append (separated out) l il.0) (
                append_assoc (separated out ++ l) (dot ∷ []) (dotted m ls)
                ∙ append_assoc (separated out) l (dot ∷ dotted m ls)))))

-- `ptr_dns_skip_name` on the labels of a name.
pub skip_labels-wire :
    (n : ℕ) (pre post : Bytes) (ls : List Bytes) (packet_len : ℕ) {pos : ℕ}
    → pos ≡ length pre
    → Labels ls
    → length ls < n
    → pos + length (wire ls) < packet_len
    → skip_labels n (pre ++ (wire ls ++ (0 ∷ post))) packet_len pos
      ≡ ok (pos + length (wire ls) + 1)
unfolding skip_labels
skip_labels-wire zero pre post ls packet_len e ils f here = absurd (omega arith)
skip_labels-wire (suc n) pre post [] packet_len {pos} e ils f here =
    rw (inside, read-at pre e 0 post) (ap ok (omega arith))
  where
    inside : leb packet_len pos ≡ false
    inside = ground arith
skip_labels-wire (suc n) pre post (l ∷ ls) packet_len {pos} e ils f here =
    rw (append_assoc l (wire ls) (0 ∷ post)) (
      rw (inside, read-at pre e (length l) (l ++ rest), not_end, not_pointer, accepted)
        (rw (← append_assoc pre (length l ∷ l) rest) (
          skip_labels-wire n (pre ++ (length l ∷ l)) post ls packet_len
            (omega (arith, length-append pre (length l ∷ l))) ils.1 (omega arith)
            (omega (arith, size))
          ∙ ap ok (omega (arith, size)))))
  where
    rest : Bytes
    rest = wire ls ++ (0 ∷ post)

    size : length (l ++ wire ls) ≡ length l + length (wire ls)
    size = length-append l (wire ls)

    inside : leb packet_len pos ≡ false
    inside = ground arith

    not_end : (length l == 0) ≡ false
    not_end = ground (arith, ils.0.0)

    not_pointer : is_pointer (length l) ≡ false
    not_pointer = ground (arith, ils.0.1)

    accepted : (is_reserved (length l) || ltb packet_len (pos + 1 + length l)) ≡ false
    accepted = ground (arith, ils.0.1, size)
