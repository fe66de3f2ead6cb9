-- ===== src/PtrDns/Codec/Bounds.antt =====
-- The reads and writes of the DNS name functions, on any input.
use ax88179_aroma_driver.Base.{
  ℕ, zero, suc, ◌+◌, ◌*◌, ◌%◌, ◌^◌, ◌≤◌, ◌<◌, ◌≡◌, refl, ◌∙◌, inl, inr, Bool, true, false, not,
  ◌||◌, ◌&&◌, Option, none, some, Bytes, [], ◌∷◌, ◌++◌, arith, Bool-cases, le→leb, length,
  length-append, length-take, length-drop, get_elem?-lt, ltb, leb, ◌==◌, if◌then◌else◌, slice-in,
  take, drop,
}
use ax88179_aroma_driver.Base.Outcome.{Sound, Sound-if, Outcome, ok, refused, fault, ◌>>=◌}
use ax88179_aroma_driver.PtrDns.Codec.{
  read, copy_from, write, encode_labels, encode_end, put_label, next_label, encode_name, is_pointer,
  is_reserved, skip_labels, skip_name, separated, follow_pointer, append_label, decode_labels,
  decode_name, label, after_dot, dot,
}

pub read-in : (mem : Bytes) (i : ℕ) → i < length mem → (b : ℕ) × (read mem i ≡ ok b)
unfolding read
read-in mem i h = let (b, e) = get_elem?-lt mem i h in (b, rw (e, read))

pub copy_from-in :
    (mem : Bytes) (i n : ℕ)
    → i + n ≤ length mem
    → (s : Bytes) × (copy_from mem i n ≡ ok s) × (length s ≡ n)
unfolding copy_from
copy_from-in mem i n h = let (s, e, l) = slice-in mem i n h in (s, rw (e, copy_from), l)

pub write-in :
    (mem : Bytes) (i : ℕ) (bytes : Bytes)
    → i + length bytes ≤ length mem
    → (p : Bytes) × (write mem i bytes ≡ ok p) × (length p ≡ length mem)
unfolding write
write-in mem i bytes h = (
  take i mem ++ (bytes ++ drop (i + length bytes) mem),
  rw (le→leb _ _ h),
  omega (
    arith,
    length-append (take i mem) (bytes ++ drop (i + length bytes) mem),
    length-append bytes (drop (i + length bytes) mem),
    length-take i mem,
    length-drop (i + length bytes) mem,
  ),
)

skip_labels-Sound :
    (labels : ℕ) (packet : Bytes) (packet_len pos : ℕ)
    → packet_len ≤ length packet
    → Sound (λ o. (pos < o) × (o ≤ packet_len)) (skip_labels labels packet packet_len pos)
unfolding skip_labels
skip_labels-Sound zero packet packet_len pos h = tt
skip_labels-Sound (suc labels) packet packet_len pos h = elim (Bool-cases (leb packet_len pos)) [
  | inl e ↦ rw e tt
  | inr e ↦
      let (c, ec) = read-in packet pos (ground arith) in
      rw (e, ec) (ground (arith, skip_labels-Sound labels packet packet_len (pos + 1 + c) h))
]

pub length-separated : (out : Bytes) → length (separated out) ≤ length out + 1
length-separated [] = omega arith
length-separated (c ∷ cs) = omega (arith, length-append cs (dot ∷ []))

module _ (out_len : ℕ) where
  abbrev Fits : Outcome Bytes → Type 0
  Fits = Sound (λ s. length s < out_len)

  follow_pointer-Fits :
      (again : ℕ → Outcome Bytes) (packet : Bytes) (packet_len pos jumps c : ℕ)
      → packet_len ≤ length packet
      → ((target : ℕ) → Fits (again target))
      → Fits (follow_pointer again packet packet_len pos jumps c)
  unfolding follow_pointer
  follow_pointer-Fits again packet packet_len pos jumps c h k =
      elim (Bool-cases (leb packet_len (pos + 1) || leb 32 jumps)) [
        | inl e ↦ rw e tt
        | inr e ↦
            let (lo, el) = read-in packet (pos + 1) (ground arith) in
            rw (e, el) (go (leb packet_len (c % 64 * 2 ^ 8 + lo)) (c % 64 * 2 ^ 8 + lo))
      ]
    where
      go : (b : Bool) (target : ℕ) → Fits (if b then refused else again target)
      go true target = tt
      go false target = k target

  append_label-Fits :
      (again : Bytes → Outcome Bytes) (packet : Bytes) (packet_len pos c : ℕ) (out : Bytes)
      → packet_len ≤ length packet
      → ((out' : Bytes) → length out' < out_len → Fits (again out'))
      → Fits (append_label again packet packet_len out_len pos c out)
  unfolding append_label
  append_label-Fits again packet packet_len pos c out h k =
      go (is_reserved c || ltb packet_len (pos + 1 + c))
        (not (length out == 0) && leb out_len (length out + 1))
        (leb out_len (length (separated out) + c)) refl refl
    where
      go :
          (a b d : Bool)
          → (is_reserved c || ltb packet_len (pos + 1 + c)) ≡ a
          → leb out_len (length (separated out) + c) ≡ d
          → Fits (
              if a
              then refused
              else if b
              then refused
              else if d
              then refused
              else (copy_from packet (pos + 1) c >>= λ s. again (separated out ++ s)))
      go true b d ea ed = tt
      go false true d ea ed = tt
      go false false true ea ed = tt
      go false false false ea ed =
          let (s, es, ls) = copy_from-in packet (pos + 1) c (ground arith) in
          rw es (k (separated out ++ s) (ground (arith, length-append (separated out) s)))

  decode_labels-Fits :
      (labels : ℕ) (packet : Bytes) (packet_len pos jumps : ℕ) (out : Bytes)
      → packet_len ≤ length packet
      → length out < out_len
      → Fits (decode_labels labels packet packet_len out_len pos jumps out)
  unfolding decode_labels
  decode_labels-Fits zero packet packet_len pos jumps out h room = tt
  decode_labels-Fits (suc labels) packet packet_len pos jumps out h room =
      elim (Bool-cases (leb packet_len pos)) [
        | inl e ↦ rw e tt
        | inr e ↦
            let (c, ec) = read-in packet pos (ground arith) in
            rw (e, ec)
              (Sound-if _ (c == 0) (ok out) _ room (
                Sound-if _ (is_pointer c) _ _
                  (follow_pointer-Fits _ packet packet_len pos jumps c h (λ target.
                    decode_labels-Fits labels packet packet_len target (jumps + 1) out h room))
                  (append_label-Fits _ packet packet_len pos c out h (λ out' r.
                    decode_labels-Fits labels packet packet_len (pos + 1 + c) jumps out' h r))))
      ]

-- `ptr_dns_decode_name` on any packet: it reads inside the first `packet_len` bytes, ends within its
-- 128 rounds, and a name that it returns leaves room for the byte 0 in an output of `out_len` bytes.
pub decode_name-Sound :
    (packet : Bytes) (packet_len offset out_len : ℕ)
    → packet_len ≤ length packet
    → Sound (λ s. length s < out_len) (decode_name packet packet_len offset out_len)
unfolding decode_name
decode_name-Sound packet packet_len offset out_len h = elim (Bool-cases (out_len == 0)) [
  | inl e ↦ rw e tt
  | inr e ↦ rw e (decode_labels-Fits out_len 128 packet packet_len offset 0 [] h (ground arith))
]

-- `ptr_dns_skip_name` on any packet: it reads inside the first `packet_len` bytes, and moves the
-- offset forward, to `packet_len` at most.
pub skip_name-Sound :
    (packet : Bytes) (packet_len offset : ℕ)
    → packet_len ≤ length packet
    → Sound (λ o. (offset < o) × (o ≤ packet_len)) (skip_name packet packet_len offset)
unfolding skip_name
skip_name-Sound packet packet_len offset h = skip_labels-Sound 128 packet packet_len offset h

length-after_dot : (l r : Bytes) → after_dot l ≡ some r → length r < length l
length-after_dot [] r e = cc
length-after_dot (c ∷ cs) r e = ground (arith, length-after_dot cs r)

-- What encoding leaves: the packet's size, and a position inside the capacity.
abbrev pub Written : Bytes → ℕ → ℕ → Bytes × ℕ → Type 0
Written packet capacity pos (p, o) = (length p ≡ length packet) × (pos ≤ o) × (o ≤ capacity)

pub put_label-in :
    (packet : Bytes) (pos : ℕ) (l : Bytes)
    → pos + 1 + length l ≤ length packet
    → (p : Bytes) × (put_label packet pos l ≡ ok p) × (length p ≡ length packet)
unfolding put_label
put_label-in packet pos l h =
    let (p1, e1, l1) = write-in packet pos (length l ∷ []) (omega arith) in
    let (p2, e2, l2) = write-in p1 (pos + 1) l (omega arith) in (p2, rw e1 e2, l2 ∙ l1)

next_label-Sound :
    (packet : Bytes) (capacity pos : ℕ) (again : Bytes → Outcome (Bytes × ℕ)) (here : Bytes × ℕ)
    (o : Option Bytes)
    → Written packet capacity pos here
    → ((cur : Bytes) → o ≡ some cur → Sound (Written packet capacity pos) (again cur))
    → Sound (Written packet capacity pos) (next_label again here o)
next_label-Sound packet capacity pos again here none w k = w
next_label-Sound packet capacity pos again here (some cur) w k = k cur refl

Written-weaken :
    (packet p : Bytes) (capacity pos pos' : ℕ)
    → length p ≡ length packet
    → pos ≤ pos'
    → (o : Outcome (Bytes × ℕ)) → Sound (Written p capacity pos') o
    → Sound (Written packet capacity pos) o
Written-weaken packet p capacity pos pos' e le (ok (q, o)) s = (s.0 ∙ e, omega arith, s.2)
Written-weaken packet p capacity pos pos' e le refused s = tt
Written-weaken packet p capacity pos pos' e le fault s = s

encode_labels-Sound :
    (fuel capacity : ℕ) (packet : Bytes) (pos : ℕ) (cur : Bytes)
    → length cur < fuel
    → pos ≤ capacity
    → capacity ≤ length packet
    → Sound (Written packet capacity pos) (encode_labels fuel capacity packet pos cur)
unfolding encode_labels
encode_labels-Sound zero capacity packet pos cur f h k = absurd (omega arith)
encode_labels-Sound (suc fuel) capacity packet pos [] f h k = (refl, omega arith, h)
encode_labels-Sound (suc fuel) capacity packet pos (c ∷ cs) f h k =
    elim (Bool-cases (length l == 0 || (ltb 63 (length l) || leb capacity pos'))) [
      | inl e ↦ rw e tt
      | inr e ↦
          let (p, ep, lp) = put_label-in packet pos l (ground arith) in
          rw (e, ep)
            (next_label-Sound packet capacity pos (encode_labels fuel capacity p pos') (p, pos')
              (after_dot (c ∷ cs)) (lp, omega arith, ground arith)
              (λ cur ec. Written-weaken packet p capacity pos pos' lp (omega arith) _ (
                encode_labels-Sound fuel capacity p pos' cur
                  (omega (arith, length-after_dot (c ∷ cs) cur ec)) (ground arith) (omega arith))))
    ]
  where
    l : Bytes
    l = label (c ∷ cs)

    pos' : ℕ
    pos' = pos + 1 + length l

encode_end-Sound :
    (packet : Bytes) (capacity pos : ℕ) (r : Bytes × ℕ)
    → capacity ≤ length packet
    → Written packet capacity pos r
    → Sound (λ q. Written packet capacity pos q × (pos < q.1)) (encode_end capacity r)
unfolding encode_end
encode_end-Sound packet capacity pos (p, o) h w = elim (Bool-cases (leb capacity o)) [
  | inl e ↦ rw e tt
  | inr e ↦
      let (q, eq, lq) = write-in p o (0 ∷ []) (ground arith) in
      rw (e, eq) ((lq ∙ w.0, omega arith, ground arith), omega arith)
]

-- `ptr_dns_encode_name` writes inside the first `capacity` bytes of the packet, ends within its
-- fuel, keeps the packet's size, and moves the offset forward, to `capacity` at most.
pub encode_name-Sound :
    (packet : Bytes) (capacity offset : ℕ) (name : Bytes)
    → offset ≤ capacity
    → capacity ≤ length packet
    → Sound
        (λ q. Written packet capacity offset q × (offset < q.1))
        (encode_name capacity packet offset name)
unfolding encode_name
encode_name-Sound packet capacity offset name h k =
    go (encode_labels (suc (length name)) capacity packet offset name)
      (encode_labels-Sound (suc (length name)) capacity packet offset name (omega arith) h k)
  where
    go :
        (o : Outcome (Bytes × ℕ))
        → Sound (Written packet capacity offset) o
        → Sound (λ q. Written packet capacity offset q × (offset < q.1)) (o >>= encode_end capacity)
    go (ok r) w = encode_end-Sound packet capacity offset r k w
    go refused w = tt
    go fault w = w
