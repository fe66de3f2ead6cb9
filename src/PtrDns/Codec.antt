-- ===== src/PtrDns/Codec.antt =====
-- aroma_module/nsysnet_shim.c: DNS names in a packet, `ptr_dns_get16`, `ptr_dns_put16`,
-- `ptr_dns_encode_name`, `ptr_dns_skip_name` and `ptr_dns_decode_name`. A packet is a list of bytes;
-- a read, a copy or a write that leaves it is `fault`.
pub mod Bounds
pub mod Wire
pub mod Encoder
pub mod Decoder
pub mod RoundTrip
use ax88179_aroma_driver.Base.{
  ℕ, zero, suc, ◌+◌, ◌-◌, ◌*◌, ◌/◌, ◌%◌, ◌^◌, ◌≤◌, Bool, true, false, not, ◌||◌, ◌&&◌, Option, none,
  some, Bytes, List, [], ◌∷◌, ◌++◌, length, get_elem?, ltb, leb, ◌==◌, if◌then◌else◌, slice, take,
  drop,
}
use ax88179_aroma_driver.Base.Outcome.{Outcome, ok, refused, fault, ◌>>=◌}

-- `packet[i]`.
unfoldable pub read : Bytes → ℕ → Outcome ℕ
read mem i = elim (get_elem? mem i) [ some b ↦ ok b | none ↦ fault ]

-- `memcpy(out, packet + i, n)`: the bytes that are copied.
unfoldable pub copy_from : Bytes → ℕ → ℕ → Outcome Bytes
unfolding slice
copy_from mem i n = elim (slice mem i n) [ some s ↦ ok s | none ↦ fault ]

-- `memcpy(packet + i, bytes, n)`.
unfoldable pub write : Bytes → ℕ → Bytes → Outcome Bytes
write mem i bytes =
    if leb (i + length bytes) (length mem)
    then ok (take i mem ++ (bytes ++ drop (i + length bytes) mem))
    else fault

unfoldable pub get16 : Bytes → ℕ → Outcome ℕ
unfolding read
get16 mem i = read mem i >>= λ hi. read mem (i + 1) >>= λ lo. ok (hi * 2 ^ 8 + lo)

-- The two bytes of `ptr_dns_put16`.
abbrev pub put16 : ℕ → Bytes
put16 v = v / 2 ^ 8 % 256 ∷ v % 256 ∷ []

-- The number of bytes before the first dot of a C string, or of all: `strchr` and `strlen`.
abbrev pub dot : ℕ
dot = b'.'

abbrev pub label : Bytes → Bytes
label [] = []
label (c ∷ cs) = let rest = label cs in if c == dot then [] else c ∷ rest

-- What follows the first dot; `none` if there is none.
abbrev pub after_dot : Bytes → Option Bytes
after_dot [] = none
after_dot (c ∷ cs) = let rest = after_dot cs in if c == dot then some cs else rest

-- One label in the packet: its length, then its bytes.
unfoldable pub put_label : Bytes → ℕ → Bytes → Outcome Bytes
put_label packet pos l = write packet pos (length l ∷ []) >>= λ p. write p (pos + 1) l

-- `if (!dot) break; cur = dot + 1;`, with the rest of the loop.
abbrev pub next_label :
    (Bytes → Outcome (Bytes × ℕ)) → Bytes × ℕ → Option Bytes → Outcome (Bytes × ℕ)
next_label again here none = ok here
next_label again here (some cur) = again cur

-- The loop of `ptr_dns_encode_name`, on fuel: the packet and the position behind the labels.
unfoldable pub encode_labels : ℕ → ℕ → Bytes → ℕ → Bytes → Outcome (Bytes × ℕ)
encode_labels zero capacity packet pos cur = fault
encode_labels (suc fuel) capacity packet pos [] = ok (packet, pos)
encode_labels (suc fuel) capacity packet pos (c ∷ cs) =
    let l = label (c ∷ cs) in
    let pos' = pos + 1 + length l in
    if length l == 0 || (ltb 63 (length l) || leb capacity pos')
    then refused
    else (put_label packet pos l >>= λ p.
        next_label (encode_labels fuel capacity p pos') (p, pos') (after_dot (c ∷ cs)))

-- The end of `ptr_dns_encode_name`: the byte 0 behind the labels.
unfoldable pub encode_end : ℕ → Bytes × ℕ → Outcome (Bytes × ℕ)
unfolding write
encode_end capacity (packet, pos) =
    if leb capacity pos then refused else (write packet pos (0 ∷ []) >>= λ p. ok (p, pos + 1))

-- `ptr_dns_encode_name`: the packet and the new `*offset`. Each round uses up a byte of the name.
unfoldable pub encode_name : ℕ → Bytes → ℕ → Bytes → Outcome (Bytes × ℕ)
unfolding encode_labels encode_end
encode_name capacity packet offset name =
    encode_labels (suc (length name)) capacity packet offset name >>= encode_end capacity

-- `(c & 0xc0) == 0xc0` and `(c & 0xc0) != 0`.
abbrev pub is_pointer : ℕ → Bool
is_pointer c = c / 64 % 4 == 3

abbrev pub is_reserved : ℕ → Bool
is_reserved c = not (c / 64 % 4 == 0) || ltb 63 c

-- The loop of `ptr_dns_skip_name`, with `labels` rounds to go.
unfoldable pub skip_labels : ℕ → Bytes → ℕ → ℕ → Outcome ℕ
unfolding read
skip_labels zero packet packet_len pos = refused
skip_labels (suc labels) packet packet_len pos =
    if leb packet_len pos
    then refused
    else (read packet pos >>= λ c.
        let rest = skip_labels labels packet packet_len (pos + 1 + c) in
        if c == 0
        then ok (pos + 1)
        else if is_pointer c
        then (if leb packet_len (pos + 1) then refused else ok (pos + 2))
        else if is_reserved c || ltb packet_len (pos + 1 + c)
        then refused
        else rest)

-- `ptr_dns_skip_name`: the new `*offset`.
unfoldable pub skip_name : Bytes → ℕ → ℕ → Outcome ℕ
skip_name packet packet_len offset = skip_labels 128 packet packet_len offset

-- The dot before a label that is not the first.
abbrev pub separated : Bytes → Bytes
separated [] = []
separated (c ∷ cs) = (c ∷ cs) ++ (dot ∷ [])

-- A compression pointer: where the walk goes on.
unfoldable pub follow_pointer : (ℕ → Outcome Bytes) → Bytes → ℕ → ℕ → ℕ → ℕ → Outcome Bytes
follow_pointer again packet packet_len pos jumps c =
    if leb packet_len (pos + 1) || leb 32 jumps
    then refused
    else (read packet (pos + 1) >>= λ lo.
        let target = c % 64 * 2 ^ 8 + lo in if leb packet_len target then refused else again target)

-- A label of `c` bytes: what the output becomes.
unfoldable pub append_label :
    (Bytes → Outcome Bytes) → Bytes → ℕ → ℕ → ℕ → ℕ → Bytes → Outcome Bytes
append_label again packet packet_len out_len pos c out =
    if is_reserved c || ltb packet_len (pos + 1 + c)
    then refused
    else if not (length out == 0) && leb out_len (length out + 1)
    then refused
    else if leb out_len (length (separated out) + c)
    then refused
    else (copy_from packet (pos + 1) c >>= λ s. again (separated out ++ s))

-- The loop of `ptr_dns_decode_name`, with `labels` rounds to go; `out` are the `used` bytes written
-- so far. A byte is written only where there is room for it and one more; what is
-- written before an error is not kept.
unfoldable pub decode_labels : ℕ → Bytes → ℕ → ℕ → ℕ → ℕ → Bytes → Outcome Bytes
decode_labels zero packet packet_len out_len pos jumps out = refused
decode_labels (suc labels) packet packet_len out_len pos jumps out =
    let jump =
      follow_pointer
        (λ target. decode_labels labels packet packet_len out_len target (jumps + 1) out) packet
        packet_len pos jumps in
    if leb packet_len pos
    then refused
    else (read packet pos >>= λ c.
        if c == 0
        then ok out
        else if is_pointer c
        then jump c
        else append_label
            (λ out'. decode_labels labels packet packet_len out_len (pos + 1 + c) jumps out') packet
            packet_len out_len pos c out)

-- `ptr_dns_decode_name`, with `out` not null: the C string that it writes.
unfoldable pub decode_name : Bytes → ℕ → ℕ → ℕ → Outcome Bytes
decode_name packet packet_len offset out_len =
    if out_len == 0 then refused else decode_labels 128 packet packet_len out_len offset 0 []
