-- ===== src/Driver/Rx/Bounds.antt =====
-- The parser's reads and the aggregate that was received.
use ax88179_aroma_driver.Base.{
  ℕ, zero, suc, ◌+◌, ◌-◌, ◌*◌, ◌^◌, ◌≤◌, ◌<◌, ◌≡◌, Option, none, some, Bytes, arith, length,
  get_elem?-lt, le→ltb, ltb→le, Bool-cases, inl, inr, ltb, ltb→lt, ◌>>=◌, length-take, length-drop,
  drop,
}
use ax88179_aroma_driver.Driver.Rx.{
  Rx, le32, Loaded, loaded, empty, invalid, load_aggregate, Round, next, corrupt, deliver,
  desc_length, packet_len, take_frame, round, resume, Received, nothing, refused, frame,
  receive_loop, receive_buffered,
}

-- What the parser relies on between two calls: the descriptors that it may still read lie before
-- the trailer, and the aggregate lies in the buffer.
pub record InBounds (mem : Bytes) (rx : Rx) : Type 0 where
  pub in_buffer : rx.rx_len ≤ length mem
  pub descriptors : rx.rx_next < rx.rx_frames → rx.rx_hdr_offset + 4 * rx.rx_frames + 4 ≤ rx.rx_len

le32-in : (mem : Bytes) (p : ℕ) → p + 4 ≤ length mem → (d : ℕ) × (le32 mem p ≡ some d)
unfolding le32
le32-in mem p h =
    let (b0, e0) = get_elem?-lt mem p (omega arith) in
    let (b1, e1) = get_elem?-lt mem (p + 1) (omega arith) in
    let (b2, e2) = get_elem?-lt mem (p + 2) (omega arith) in
    let (b3, e3) = get_elem?-lt mem (p + 3) (omega arith) in
    (b0 + b1 * 2 ^ 8 + b2 * 2 ^ 16 + b3 * 2 ^ 24, rw (e0, e1, e2, e3))

-- What one round leaves.
abbrev Good : Bytes → ℕ → Rx → Round → Type 0
Good mem max_length rx (next rx') =
    InBounds mem rx' × (rx'.rx_next ≡ rx.rx_next + 1) × (rx'.rx_frames ≡ rx.rx_frames)
Good mem max_length rx (corrupt rx') = InBounds mem rx' × (rx'.rx_frames ≡ 0)
Good mem max_length rx (deliver f rx') =
    InBounds mem rx' × (14 ≤ length f) × (length f ≤ max_length) × (rx'.rx_pos ≤ rx'.rx_hdr_offset)

abbrev GoodResult : Bytes → ℕ → Rx → Option Round → Type 0
GoodResult mem max_length rx none = ⊥
GoodResult mem max_length rx (some r) = Good mem max_length rx r

take_frame_good :
    (mem : Bytes) (max_length : ℕ) (rx : Rx) (d : ℕ)
    → InBounds mem rx
    → rx.rx_next < rx.rx_frames
    → GoodResult mem max_length rx
        (take_frame mem max_length (record rx { rx_next = rx.rx_next + 1 }) d)
unfolding take_frame
take_frame_good mem max_length rx d inb h = ground (
  arith,
  length-take (packet_len (desc_length d)) (drop (rx.rx_pos + 2) mem),
  length-drop (rx.rx_pos + 2) mem,
)

-- A round on a valid state reads inside the aggregate and leaves a valid state.
round_good :
    (mem : Bytes) (max_length : ℕ) (rx : Rx)
    → InBounds mem rx
    → rx.rx_next < rx.rx_frames
    → GoodResult mem max_length rx (round mem max_length rx)
unfolding round
round_good mem max_length rx inb h =
    let (d, e) =
      le32-in mem (rx.rx_hdr_offset + 4 * rx.rx_next) (omega (arith, inb.descriptors h)) in
    rw (e, ◌>>=◌) (take_frame_good mem max_length rx d inb h)

-- The result of a receive: every read was in range, the state stays valid, and a frame fits.
abbrev pub Delivered : Bytes → ℕ → Option (Received × Rx) → Type 0
Delivered mem max_length none = ⊥
Delivered mem max_length (some (nothing, rx)) = InBounds mem rx × (rx.rx_frames ≤ rx.rx_next)
Delivered mem max_length (some (refused, rx)) = InBounds mem rx × (rx.rx_frames ≡ 0)
Delivered mem max_length (some (frame f, rx)) =
    InBounds mem rx × (14 ≤ length f) × (length f ≤ max_length) × (rx.rx_pos ≤ rx.rx_hdr_offset)

-- `resume` keeps the result valid, if the rest of the loop does after one more descriptor.
resume-Delivered :
    (mem : Bytes) (max_length : ℕ) (rx : Rx) (again : Rx → Option (Received × Rx))
    → ((rx' : Rx)
        → InBounds mem rx'
        → rx'.rx_next ≡ rx.rx_next + 1
        → rx'.rx_frames ≡ rx.rx_frames
        → Delivered mem max_length (again rx'))
    → (o : Option Round) → GoodResult mem max_length rx o
    → Delivered mem max_length (resume again o)
unfolding resume
resume-Delivered mem max_length rx again keep none g = absurd g
resume-Delivered mem max_length rx again keep (some (next rx')) g = keep rx' g.0 g.1 g.2
resume-Delivered mem max_length rx again keep (some (corrupt rx')) g = g
resume-Delivered mem max_length rx again keep (some (deliver f rx')) g = g

loop-Delivered :
    (fuel : ℕ) (mem : Bytes) (max_length : ℕ) (rx : Rx)
    → InBounds mem rx
    → rx.rx_frames - rx.rx_next < fuel
    → Delivered mem max_length (receive_loop fuel mem max_length rx)
unfolding receive_loop
loop-Delivered zero mem max_length rx inb h = absurd (omega arith)
loop-Delivered (suc fuel) mem max_length rx inb h =
    elim (Bool-cases (ltb rx.rx_next rx.rx_frames)) [
      | inl t ↦ rw t (
          resume-Delivered mem max_length rx (λ rx'. receive_loop fuel mem max_length rx')
            (λ rx' g n f. loop-Delivered fuel mem max_length rx' g (ground arith)) _
            (round_good mem max_length rx inb (ltb→lt _ _ t)))
      | inr t ↦ rw t (inb, ltb→le _ _ t)
    ]

-- `ax88179_receive_buffered_impl`, called with room for 14 bytes at least on a state whose
-- descriptors lie inside the aggregate, reads inside the aggregate only, ends within its fuel,
-- and leaves such a state: either every descriptor is used up, or the aggregate is given up (no
-- descriptor is left to read), or it delivers a frame of 14 to `max_length` bytes, which ends before
-- the descriptors.
pub receive_buffered-Delivered :
    (mem : Bytes) (max_length : ℕ) (rx : Rx)
    → 14 ≤ max_length
    → InBounds mem rx
    → Delivered mem max_length (receive_buffered mem max_length rx)
unfolding receive_buffered
receive_buffered-Delivered mem max_length rx room inb =
    rw (le→ltb max_length 14 room)
      (loop-Delivered (suc (rx.rx_frames - rx.rx_next)) mem max_length rx inb (omega arith))

-- What an accepted transfer leaves.
abbrev pub LoadedWell : Bytes → Option (Loaded × Rx) → Type 0
LoadedWell mem none = ⊥
LoadedWell mem (some (loaded, rx)) = InBounds mem rx × (0 < rx.rx_frames) × (rx.rx_next ≡ 0)
LoadedWell mem (some (empty, rx)) = InBounds mem rx × (rx.rx_frames ≡ 0)
LoadedWell mem (some (invalid, rx)) = InBounds mem rx × (rx.rx_frames ≡ 0)

-- `ax_rx_take_completed`, on a transfer of 4 bytes at least that fits the buffer, reads inside the
-- transfer whatever the adapter wrote there, and leaves a state whose descriptors lie inside the
-- transfer; unless it returns 1 there is no descriptor to read.
pub load_aggregate-LoadedWell :
    (mem : Bytes) (rx : Rx) (actual : ℕ)
    → 4 ≤ actual
    → actual ≤ length mem
    → LoadedWell mem (load_aggregate mem rx actual)
unfolding load_aggregate
load_aggregate-LoadedWell mem rx actual low high =
    let (d, e) = le32-in mem (actual - 4) (omega arith) in rw (e, ◌>>=◌) (ground arith)
