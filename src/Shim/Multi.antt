-- ===== src/Shim/Multi.antt =====
-- aroma_module/nsysnet_shim.c: the calls that move several datagrams, `sendto_multi_ex` and
-- `recvfrom_multi`, on a descriptor of the shim. An array of the title is a list of its entries; an
-- access to an entry or a byte behind the end of an array is `fault`, and `refused` is EINVAL.
pub mod Send
pub mod Overflow
pub mod Receive
use ax88179_aroma_driver.Base.{
  ℕ, zero, suc, ◌+◌, ◌*◌, ◌/◌, ◌%◌, ◌^◌, Bool, true, false, not, ◌||◌, ◌&&◌, Option, none, some,
  List, [], ◌∷◌, length, ltb, leb, ◌==◌, if◌then◌else◌, ℤ, pos, negsuc, is_neg, minus_one, set, ◌-◌,
}
use ax88179_aroma_driver.Base.Outcome.{Outcome, ok, refused, fault, ◌>>=◌}

abbrev pub u32_mod : ℕ
u32_mod = 2 ^ 32

-- `nsn_ipc_ptr_ok`, of an address.
abbrev pub ipc_ptr_ok : ℕ → Bool
ipc_ptr_ok p = not (p == 0) && p % 64 == 0

-- `nsn_ipc_pad`: the sum is one of `uint32_t`.
abbrev pub ipc_pad : ℕ → ℕ
ipc_pad size = (size + 63) % u32_mod / 64 * 64

-- `nsn_ipc_pad((uint32_t)count * size)`, with the product in 32 bits.
abbrev pub pad_array : ℕ → ℕ → ℕ
pad_array count size = ipc_pad (count * size % u32_mod)

-- A sum of `int`, as the value of its 32 bits.
abbrev pub to_int : ℕ → ℤ
to_int n = let w = n % u32_mod in if ltb w (2 ^ 31) then pos w else negsuc (u32_mod - 1 - w)

-- What the calls leave in errno: 0, a value of their own, or the one that lwIP set.
pub data Errno : Type 0 where
  clear : Errno
  unsupported : Errno
  from_lwip : Errno

-- The end of a call: its result, errno and the array `results`.
pub record Done : Type 0 where
  pub rc : ℤ
  pub errno : Errno
  pub results : List ℤ

-- `struct nsn_sockaddr`, as far as it is read.
pub record Sockaddr : Type 0 where
  pub family : ℕ
  pub port : ℕ
  pub addr : ℕ

abbrev pub is_inet : Sockaddr → Bool
is_inet d = d.family == 2

-- The loop that clears the first `count` results.
unfoldable pub clear_results : ℕ → List ℤ → Outcome (List ℤ)
clear_results zero rs = ok rs
clear_results (suc n) [] = fault
clear_results (suc n) (r ∷ rs) = clear_results n rs >>= λ rest. ok (pos 0 ∷ rest)

-- `struct nsn_sendto_multi_ex_buffers`: addresses, sizes in bytes, and the arrays' entries.
pub record SendBuffers : Type 0 where
  pub self : ℕ
  pub buffer : ℕ
  pub bufferlen : ℕ
  pub lens_at : ℕ
  pub lens : List ℤ
  pub datagram_lens_len : ℕ
  pub dests_at : ℕ
  pub dests : List Sockaddr
  pub destslen : ℕ
  pub results_at : ℕ
  pub results : List ℤ
  pub resultslen : ℕ

abbrev pub send_aligned : SendBuffers → Bool
send_aligned b =
    ipc_ptr_ok b.self
    && (ipc_ptr_ok b.buffer
        && (ipc_ptr_ok b.lens_at && (ipc_ptr_ok b.dests_at && ipc_ptr_ok b.results_at)))
    && (b.bufferlen % 64 == 0
        && (b.datagram_lens_len % 64 == 0 && (b.destslen % 64 == 0 && b.resultslen % 64 == 0)))

-- The loop that adds the lengths up.
unfoldable pub total_length : ℕ → ℕ → List ℤ → Outcome ℕ
total_length zero total ls = ok total
total_length (suc n) total [] = fault
total_length (suc n) total (negsuc k ∷ ls) = refused
total_length (suc n) total (pos k ∷ ls) =
    let rest = total_length n (total + k) ls in if leb u32_mod (total + k) then refused else rest

unfoldable pub send_fits : SendBuffers → ℕ → ℕ → Bool
send_fits b count total = not (
    ltb b.bufferlen (ipc_pad total)
    || (ltb b.datagram_lens_len (pad_array count 4)
        || (ltb b.destslen (pad_array count 16) || ltb b.resultslen (pad_array count 4))))

-- `lwip_sendto` for the datagram with this number, of these bytes of the buffer, to this address.
abbrev pub Sendto : Type 0
Sendto = ℕ → ℕ → ℕ → Sockaddr → ℤ

-- What follows one `lwip_sendto`: `return -1`, or the rest of the loop.
abbrev pub after_send : (ℕ → List ℤ → Outcome Done) → ℕ → List ℤ → ℤ → Outcome Done
after_send again i results (negsuc n) =
    ok (record { rc = minus_one; errno = from_lwip; results = set results i (negsuc n) })
after_send again i results (pos r) = again r (set results i (pos r))

-- The loop that sends; lwIP reads `len` bytes at `at`.
unfoldable pub send_loop :
    Sendto → ℕ → ℕ → ℕ → ℕ → ℕ → List ℤ → List Sockaddr → List ℤ → Outcome Done
send_loop sendto bufferlen zero i at total ls ds results =
    ok (record { rc = to_int total; errno = clear; results = results })
send_loop sendto bufferlen (suc n) i at total (pos len ∷ ls) (d ∷ ds) results =
    if not (is_inet d)
    then ok (record { rc = minus_one; errno = unsupported; results = set results i minus_one })
    else if ltb bufferlen (at + len)
    then fault
    else after_send
        (λ r results'. send_loop sendto bufferlen n (suc i) (at + len) (total + r) ls ds results') i
        results (sendto i at len d)
send_loop sendto bufferlen (suc n) i at total ls ds results = fault

-- The part behind the checks on pointers and alignment.
unfoldable pub send_checked : Sendto → SendBuffers → ℕ → Outcome Done
send_checked sendto b count = total_length count 0 b.lens >>= λ total.
    if not (send_fits b count total)
    then refused
    else (clear_results count b.results >>= λ results.
        send_loop sendto b.bufferlen count 0 0 0 b.lens b.dests results)

-- `sendto_multi_ex` on a descriptor of the shim, with `b` not null.
unfoldable pub sendto_multi_ex : Sendto → SendBuffers → ℤ → Outcome Done
sendto_multi_ex sendto b (negsuc n) = refused
sendto_multi_ex sendto b (pos zero) = ok (record { rc = pos 0; errno = clear; results = b.results })
sendto_multi_ex sendto b (pos (suc n)) =
    if not (send_aligned b) then refused else send_checked sendto b (suc n)
