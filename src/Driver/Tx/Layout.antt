-- ===== src/Driver/Tx/Layout.antt =====
-- The bytes of a transfer of `ax88179_send`.
use ax88179_aroma_driver.Base.{
  ℕ, ◌+◌, ◌-◌, ◌%◌, ◌^◌, ◌≤◌, ◌<◌, ◌≡◌, ◌≢◌, ap, ◌∙◌, sym, Option, some, Bytes, arith, ◌++◌, length,
  replicate, length-append, length-replicate, ◌⊎◌, inl, inr, slice, slice-append, ◌>>=◌,
}
use ax88179_aroma_driver.Driver.Tx.{le_bytes, wire_length, hdr1, terminator, payload, tx_buffer}
use ax88179_aroma_driver.Driver.Rx.{le32}

-- A bulk packet size that the driver accepts.
abbrev pub IsPacketSize : ℕ → Type 0
IsPacketSize n = (n ≡ 64) ⊎ (n ≡ 512) ⊎ (n ≡ 1024)

length-payload : (frame : Bytes) → length (payload frame) ≡ wire_length (length frame)
unfolding wire_length
length-payload frame = ground (
  arith,
  length-append frame (replicate (wire_length (length frame) - length frame) 0),
  length-replicate {A = ℕ} (wire_length (length frame) - length frame) 0,
)

length-tx_buffer :
    (mps : ℕ) (frame : Bytes)
    → length (tx_buffer mps frame)
      ≡ 8 + wire_length (length frame) + length (terminator (hdr1 (wire_length (length frame)) mps))
unfolding tx_buffer
length-tx_buffer mps frame = omega (
  arith,
  length-payload frame,
  length-append (payload frame) (terminator (hdr1 (wire_length (length frame)) mps)),
)

wire_length_bounds :
    (n : ℕ)
    → 14 ≤ n
    → n ≤ 1518
    → (60 ≤ wire_length n) × (wire_length n ≤ 1518) × (n ≤ wire_length n)
unfolding wire_length
wire_length_bounds n low high = ground arith

-- The length of the transfer, after the header's own test.
short_packet : (w mps : ℕ) → IsPacketSize mps → (8 + w + length (terminator (hdr1 w mps))) % mps ≢ 0
short_packet w mps (inl e) = rw e (ground arith)
short_packet w mps (inr (inl e)) = rw e (ground arith)
short_packet w mps (inr (inr e)) = rw e (ground arith)

-- For a frame of 14 to 1518 bytes and a legal packet size the transfer fits `g_tx`, and its length
-- is no multiple of the packet size: it always ends with a short USB packet.
pub tx_buffer_fits :
    (mps : ℕ) (frame : Bytes)
    → IsPacketSize mps
    → 14 ≤ length frame
    → length frame ≤ 1518
    → (length (tx_buffer mps frame) ≤ 2048) × (length (tx_buffer mps frame) % mps ≢ 0)
tx_buffer_fits mps frame size low high = (
  ground (arith, length-tx_buffer mps frame, wire_length_bounds (length frame) low high),
  rw (length-tx_buffer mps frame) (short_packet (wire_length (length frame)) mps size),
)

-- What the adapter makes of a transfer: the length word, then as many bytes behind both words.
pub unframe : Bytes → Option Bytes
unframe mem = do w ← le32 mem 0; slice mem 8 w

le32-le_bytes : (w : ℕ) (rest : Bytes) → w < 2 ^ 32 → le32 (le_bytes w ++ rest) 0 ≡ some w
unfolding le32
le32-le_bytes w rest h = ap some (omega arith)

-- The adapter reads from the transfer the frame that was sent, with zeros behind it up to 60 bytes.
pub unframe-tx_buffer :
    (mps : ℕ) (frame : Bytes)
    → length frame ≤ 1518
    → unframe (tx_buffer mps frame) ≡ some (frame ++ replicate (60 - length frame) 0)
unfolding unframe tx_buffer
unframe-tx_buffer mps frame high =
    let w = wire_length (length frame) in
    let h = hdr1 w mps in
    rw (le32-le_bytes w (le_bytes h ++ (payload frame ++ terminator h)) small, ◌>>=◌)
      (ap (λ n. slice (tx_buffer mps frame) 8 n) (sym (length-payload frame))
        ∙ slice-append (le_bytes w ++ le_bytes h) (payload frame) (terminator h)
        ∙ ap (λ n. some (frame ++ replicate n 0)) padding)
  where
    small : wire_length (length frame) < 2 ^ 32
    small = unfold wire_length in ground arith

    padding : wire_length (length frame) - length frame ≡ 60 - length frame
    padding = unfold wire_length in ground arith
