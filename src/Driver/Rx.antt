-- ===== src/Driver/Rx.antt =====
-- driver/ax88179.c, the parser of a bulk IN aggregate: `le32`, the part of
-- `ax_rx_take_completed` that loads an aggregate, and `ax88179_receive_buffered_impl`.
-- `mem` is `g_rx`. A read that leaves the bytes of `mem` is `none`, so that a result `some _`
-- says that every read of the run was in range.
pub mod Bounds
use ax88179_aroma_driver.Base.{
  ℕ, zero, suc, ◌+◌, ◌-◌, ◌*◌, ◌/◌, ◌%◌, ◌^◌, Bool, true, false, ◌||◌, Option, none, some, Bytes,
  bit, slice, get_elem?, length, ltb, leb, ◌==◌, if◌then◌else◌, ◌>>=◌,
}

-- The fields of `struct Ax88179` that describe what is left of the last bulk transfer.
pub record Rx : Type 0 where
  pub rx_len : ℕ
  pub rx_frames : ℕ
  pub rx_next : ℕ
  pub rx_hdr_offset : ℕ
  pub rx_pos : ℕ

abbrev pub rx_buffer_size : ℕ
rx_buffer_size = 26 * 1024

-- `le32(p)`, with `p` an offset into the buffer.
unfoldable pub le32 : Bytes → ℕ → Option ℕ
le32 mem p = do
  b0 ← get_elem? mem p
  b1 ← get_elem? mem (p + 1)
  b2 ← get_elem? mem (p + 2)
  b3 ← get_elem? mem (p + 3)
  some (b0 + b1 * 2 ^ 8 + b2 * 2 ^ 16 + b3 * 2 ^ 24)

-- The part of `ax_rx_take_completed` that runs on a completed transfer of `actual` bytes, 4 at
-- least, once they are copied to `g_rx`: `loaded` is 1, `empty` 0 and `invalid` -1.
pub data Loaded : Type 0 where
  loaded : Loaded
  empty : Loaded
  invalid : Loaded

unfoldable pub load : Rx → ℕ → ℕ → Loaded × Rx
load rx actual rx_hdr =
    let frames = rx_hdr % 2 ^ 16 in
    let offset = rx_hdr / 2 ^ 16 % 2 ^ 16 in
    let rx' : Rx = record {
      rx_len = actual;
      rx_frames = frames;
      rx_next = 0;
      rx_hdr_offset = offset;
      rx_pos = 0;
    } in
    if frames == 0
    then (empty, rx')
    else if ltb (actual - 4) (offset + 4 * frames)
    then (invalid, record rx' { rx_frames = 0 })
    else (loaded, rx')

unfoldable pub load_aggregate : Bytes → Rx → ℕ → Option (Loaded × Rx)
unfolding le32 load
load_aggregate mem rx actual = do rx_hdr ← le32 mem (actual - 4); some (load rx actual rx_hdr)

-- What one descriptor makes of the aggregate: `(d >> 16) & 0x1FFF`, the length rounded up to 8,
-- and the length of the ethernet frame. `length - 6` stops at 0 where C goes below it; both are
-- below 14.
abbrev pub desc_length : ℕ → ℕ
desc_length d = d / 2 ^ 16 % 2 ^ 13

-- `(length + 7) & ~7`
abbrev pub padded : ℕ → ℕ
padded n = (n + 7) / 8 * 8

abbrev pub packet_len : ℕ → ℕ
packet_len n = n - 2 - 4

-- `d & (AX_RXHDR_CRC_ERR | AX_RXHDR_DROP_ERR)`
abbrev pub has_error : ℕ → Bool
has_error d = bit d 29 || bit d 31

-- How one descriptor ends: the loop goes on, the aggregate is given up, or a frame is delivered.
pub data Round : Type 0 where
  next : Rx → Round
  corrupt : Rx → Round
  deliver : Bytes → Rx → Round

-- The body of the `while` loop for the descriptor `d`, `rx_next` having moved on already.
unfoldable pub take_frame : Bytes → ℕ → Rx → ℕ → Option Round
unfolding slice
take_frame mem max_length rx d =
    let len = desc_length d in
    let after = record rx { rx_pos = rx.rx_pos + padded len } in
    if len == 0
    then some (next rx)
    else if ltb rx.rx_hdr_offset (rx.rx_pos + padded len)
    then some (corrupt (record rx { rx_frames = 0 }))
    else if has_error d || ltb (packet_len len) 14
    then some (next after)
    else if ltb max_length (packet_len len)
    then some (next after)
    else (slice mem (rx.rx_pos + 2) (packet_len len) >>= λ f. some (deliver f after))

-- One round of the loop, its test `rx_next < rx_frames` having passed.
unfoldable pub round : Bytes → ℕ → Rx → Option Round
unfolding le32 take_frame
round mem max_length rx =
    le32 mem (rx.rx_hdr_offset + 4 * rx.rx_next)
    >>= take_frame mem max_length (record rx { rx_next = rx.rx_next + 1 })

-- What `ax88179_receive_buffered_impl` returns: 0, -1, or the frame (its length is the result).
pub data Received : Type 0 where
  nothing : Received
  refused : Received
  frame : Bytes → Received

-- What follows one round: `continue`, or one of the returns.
unfoldable pub resume : (Rx → Option (Received × Rx)) → Option Round → Option (Received × Rx)
resume again none = none
resume again (some (next rx)) = again rx
resume again (some (corrupt rx)) = some (refused, rx)
resume again (some (deliver f rx)) = some (frame f, rx)

-- The loop, on fuel; `none` also stands for fuel that ran out.
unfoldable pub receive_loop : ℕ → Bytes → ℕ → Rx → Option (Received × Rx)
unfolding resume
receive_loop zero mem max_length rx = none
receive_loop (suc fuel) mem max_length rx =
    let go = resume (λ rx'. receive_loop fuel mem max_length rx') (round mem max_length rx) in
    if ltb rx.rx_next rx.rx_frames then go else some (nothing, rx)

-- `ax88179_receive_buffered_impl`; one round of fuel for each descriptor left, and one for the
-- last test.
unfoldable pub receive_buffered : Bytes → ℕ → Rx → Option (Received × Rx)
receive_buffered mem max_length rx =
    if ltb max_length 14
    then some (refused, rx)
    else receive_loop (suc (rx.rx_frames - rx.rx_next)) mem max_length rx
