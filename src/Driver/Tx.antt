-- ===== src/Driver/Tx.antt =====
-- driver/ax88179.c: `ax88179_send`, the framing of one ethernet frame for the bulk OUT endpoint.
-- `UhsSubmitBulkRequest` is a parameter: its answer to the bytes that are submitted.
pub mod Layout
use ax88179_aroma_driver.Base.{
  ℕ, ◌+◌, ◌-◌, ◌*◌, ◌/◌, ◌%◌, ◌^◌, Bool, true, false, ◌||◌, ◌&&◌, Option, none, some, Bytes, List,
  [], ◌∷◌, ◌++◌, ℤ, negsuc, minus_one, pos, eq_nat, length, ltb, ◌==◌, if◌then◌else◌, replicate,
}

-- The four bytes of a word, low byte first: `g_tx[0..3]` and `g_tx[4..7]`.
abbrev pub le_bytes : ℕ → Bytes
le_bytes w = w % 256 ∷ w / 2 ^ 8 % 256 ∷ w / 2 ^ 16 % 256 ∷ w / 2 ^ 24 % 256 ∷ []

-- `length < 60 ? 60 : length`
unfoldable pub wire_length : ℕ → ℕ
wire_length len = if ltb len 60 then 60 else len

abbrev pub hdr1 : ℕ → ℕ → ℕ
hdr1 wire tx_maxpacket = if (wire + 8) % tx_maxpacket == 0 then 0x80008000 else 0

-- `if (hdr1) g_tx[transfer_length++] = 0;`
abbrev pub terminator : ℕ → Bytes
terminator h = if h == 0 then [] else 0 ∷ []

-- The frame and the zeros of `memset` behind it.
abbrev pub payload : Bytes → Bytes
payload frame = frame ++ replicate (wire_length (length frame) - length frame) 0

-- The bytes of `g_tx` that are submitted: the two header words, the frame, zeros up to the wire
-- length, and one more zero byte behind an exact multiple of the packet size.
unfoldable pub tx_buffer : ℕ → Bytes → Bytes
tx_buffer tx_maxpacket frame =
    let wire = wire_length (length frame) in
    let h = hdr1 wire tx_maxpacket in
    le_bytes wire ++ (le_bytes h ++ (payload frame ++ terminator h))

-- The result of a send: 0 or -1, with `last_bulk` where a request was made.
pub record Sent : Type 0 where
  pub ok : Bool
  pub last_bulk : ℤ

-- `ax88179_send`, with `ax` and `frame` not null; `submit` is the answer of UHS, the count of bytes
-- taken or an error.
unfoldable pub send : (Bytes → ℤ) → ℕ → ℕ → ℤ → Bytes → Sent
send submit medium tx_maxpacket last_bulk frame =
    if medium == 0 || ltb (length frame) 14 || ltb 1518 (length frame)
    then record { ok = false; last_bulk = last_bulk }
    else let g_tx = tx_buffer tx_maxpacket frame in
      record { ok = eq_nat (submit g_tx) (length g_tx); last_bulk = submit g_tx }
