-- ===== src/PtrDns/Codec/Wire.antt =====
-- aroma_module/nsysnet_shim.c: the labels of a DNS name, their bytes, and packets cut at a position.
use ax88179_aroma_driver.Base.{
  ℕ, zero, suc, ◌+◌, ◌≤◌, ◌<◌, ◌≡◌, ◌≢◌, refl, ap, none, some, Bytes, List, [], ◌∷◌, ◌++◌, arith,
  le→leb, length, length-append, drop, take-append_left, drop-append_left, slice-append, get_elem?,
}
use ax88179_aroma_driver.Base.Outcome.{ok}
use mathlib.Core.List.{append_assoc}
use ax88179_aroma_driver.PtrDns.Codec.{read, copy_from, write, put_label, label, after_dot, dot}

-- A label: 1 to 63 bytes, none of them a dot.
abbrev pub NoDot : Bytes → Type 0
NoDot [] = Unit
NoDot (c ∷ cs) = (c ≢ dot) × NoDot cs

abbrev pub IsLabel : Bytes → Type 0
IsLabel l = (0 < length l) × (length l ≤ 63) × NoDot l

abbrev pub Labels : List Bytes → Type 0
Labels [] = Unit
Labels (l ∷ ls) = IsLabel l × Labels ls

-- The name that the labels make, with dots between them.
abbrev pub dotted : Bytes → List Bytes → Bytes
dotted l [] = l
dotted l (m ∷ ls) = l ++ (dot ∷ dotted m ls)

-- The bytes of the labels in a packet, without the byte 0 behind them.
abbrev pub wire : List Bytes → Bytes
wire [] = []
wire (l ∷ ls) = length l ∷ (l ++ wire ls)

pub label-append : (l r : Bytes) → NoDot l → label (l ++ (dot ∷ r)) ≡ l
label-append [] r h = refl
label-append (c ∷ cs) r h = ground (arith, label-append cs r h.1)

pub label_self : (l : Bytes) → NoDot l → label l ≡ l
label_self [] h = refl
label_self (c ∷ cs) h = ground (arith, label_self cs h.1)

pub after_dot-append : (l r : Bytes) → NoDot l → after_dot (l ++ (dot ∷ r)) ≡ some r
after_dot-append [] r h = refl
after_dot-append (c ∷ cs) r h = ground (arith, after_dot-append cs r h.1)

pub after_dot_self : (l : Bytes) → NoDot l → after_dot l ≡ none
after_dot_self [] h = refl
after_dot_self (c ∷ cs) h = ground (arith, after_dot_self cs h.1)

pub get_elem?-append_right {ℓ} :
    {A : Type ℓ} (pre : List A) (x : A) (post : List A)
    → get_elem? (pre ++ (x ∷ post)) (length pre) ≡ some x
get_elem?-append_right [] x post = refl
get_elem?-append_right (a ∷ pre) x post = get_elem?-append_right pre x post

pub drop-append {ℓ} :
    {A : Type ℓ} (pre old post : List A)
    → drop (length pre + length old) (pre ++ (old ++ post)) ≡ post
drop-append pre old post =
    rw (← append_assoc pre old post, ← length-append pre old) (drop-append_left (pre ++ old) post)

-- Positions in a packet that is cut at them: `pos` is the length of what stands before.
module _ (pre : Bytes) {pos : ℕ} (at_end : pos ≡ length pre) where
  pub read-at : (c : ℕ) (post : Bytes) → read (pre ++ (c ∷ post)) pos ≡ ok c
  unfolding read
  read-at c post = rw (at_end, get_elem?-append_right pre c post, read)

  pub copy_from-at : (l post : Bytes) → copy_from (pre ++ (l ++ post)) pos (length l) ≡ ok l
  unfolding copy_from
  copy_from-at l post = rw (at_end, slice-append pre l post, copy_from)

  pub write-at :
      (old bytes post : Bytes)
      → length old ≡ length bytes
      → write (pre ++ (old ++ post)) pos bytes ≡ ok (pre ++ (bytes ++ post))
  unfolding write
  write-at old bytes post h = rw (
    at_end,
    ← h,
    le→leb (length pre + length old) (length (pre ++ (old ++ post)))
        (omega (arith, length-append pre (old ++ post), length-append old post)),
    take-append_left pre (old ++ post),
    drop-append pre old post,
  )

pub next_at :
    (pre : Bytes) (c : ℕ) {pos : ℕ} → pos ≡ length pre → pos + 1 ≡ length (pre ++ (c ∷ []))
next_at pre c e = omega (arith, length-append pre (c ∷ []))

pub put_label-at :
    (pre : Bytes) {pos : ℕ} (at_end : pos ≡ length pre) (old l post : Bytes)
    → length old ≡ suc (length l)
    → put_label (pre ++ (old ++ post)) pos l ≡ ok (pre ++ (length l ∷ (l ++ post)))
unfolding put_label
put_label-at pre at_end [] l post h = absurd (omega arith)
put_label-at pre {pos} at_end (o ∷ old) l post h =
    rw (write-at pre at_end (o ∷ []) (length l ∷ []) (old ++ post) refl) (
      rw
        (
          ← append_assoc pre (length l ∷ []) (old ++ post),
          ← append_assoc pre (length l ∷ []) (l ++ post),
        )
        (write-at (pre ++ (length l ∷ [])) (next_at pre (length l) at_end) old l post
          (omega arith)))

pub cut : (n : ℕ) (xs : Bytes) → n ≤ length xs → (a b : Bytes) × (xs ≡ a ++ b) × (length a ≡ n)
cut zero xs h = ([], xs, refl, refl)
cut (suc n) [] h = elim h [ ]
cut (suc n) (x ∷ xs) h =
    let (a, b, e, l) = cut n xs (omega arith) in (x ∷ a, b, ap (λ t. x ∷ t) e, ap suc l)

pub length-wire : (l : Bytes) (ls : List Bytes) → length (wire (l ∷ ls)) ≡ length (dotted l ls) + 1
length-wire l [] = omega (arith, length-append l [])
length-wire l (m ∷ ls) =
    omega (
      arith,
      length-append l (wire (m ∷ ls)),
      length-append l (dot ∷ dotted m ls),
      length-wire m ls,
    )
