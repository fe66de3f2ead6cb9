-- ===== src/Shim/Multi/Receive/Overflow.antt =====
-- Where `recvfrom_multi` leaves the title's arrays.
use ax88179_aroma_driver.Base.{
  ℕ, suc, ◌+◌, ◌*◌, ◌%◌, ◌^◌, ◌≤◌, ◌<◌, ◌≡◌, Bool, true, false, ◌&&◌, Option, arith, List, length,
  ltb, leb, ◌==◌, ℤ, pos,
}
use ax88179_aroma_driver.Base.Outcome.{fault}
use ax88179_aroma_driver.Shim.Multi.{u32_mod, ipc_pad, Sockaddr}
use ax88179_aroma_driver.Shim.Multi.Overflow.{clear_results-in, and-true, pad_array-le}
use ax88179_aroma_driver.Shim.Multi.Receive.{
  ReceiveBuffers, Timeval, Round, go_on, wait, receive_round, receive_loop, bad_timeout, is_timed,
  receive_aligned, receive_fits, receive_checked, recvfrom_multi,
}
use ax88179_aroma_driver.Shim.Multi.Receive.Safe.{IsBacked}

receive_fits-overflow :
    (b : ReceiveBuffers) (n bytes : ℕ)
    → IsBacked b
    → u32_mod ≤ bytes + 63
    → bytes < u32_mod
    → n < 2 ^ 27
    → n ≤ length b.froms
    → n ≤ length b.results
    → receive_aligned b ≡ true
    → receive_fits b n bytes ≡ true
unfolding receive_fits
receive_fits-overflow b n bytes v low high few froms results al =
    let sizes =
      (and-true _ (b.bufferlen % 64 == 0 && (b.fromslen % 64 == 0 && b.resultslen % 64 == 0))
        al).1 in
    let arrays =
      (and-true (b.bufferlen % 64 == 0) (b.fromslen % 64 == 0 && b.resultslen % 64 == 0) sizes).1 in
    let both = and-true (b.fromslen % 64 == 0) (b.resultslen % 64 == 0) arrays in
    rw (
      none_asked,
      pad_array-le n 16 (length b.froms) b.fromslen v.froms_size both.0 (omega arith) (omega arith),
      pad_array-le n 4 (length b.results) b.resultslen v.results_size both.1 (omega arith)
          (omega arith),
    )
  where
    none_asked : ltb b.bufferlen (ipc_pad bytes) ≡ false
    none_asked = ground arith

receive_loop-fault :
    (rounds : ℕ → Round) (timed : Bool) (bufferlen datagram_len n : ℕ) (rs : List ℤ)
    (fs : List Sockaddr)
    → wait timed (rounds 0) ≡ go_on
    → bufferlen < datagram_len
    → receive_loop rounds timed bufferlen datagram_len (suc n) 0 rs fs ≡ fault
unfolding receive_loop receive_round
receive_loop-fault rounds timed bufferlen datagram_len n rs fs ready short = rw (ready, outside)
  where
    outside : ltb bufferlen (0 * datagram_len + datagram_len) ≡ true
    outside = ground arith

-- The size of the data wraps when it is padded to 64: for datagrams of 2^32 - 63 to 2^32 - 1 bytes
-- in all, the size that `recvfrom_multi` asks of the buffer is 0. On arrays that are aligned and
-- hold `count` entries, with a datagram longer than the buffer, it passes its checks and lets lwIP
-- write behind the buffer as soon as the first round has no timeout to wait for, or waits with success.
pub recvfrom_multi-overflow :
    (rounds : ℕ → Round) (timeout : Option Timeval) (b : ReceiveBuffers) (datagram_len n : ℕ)
    → bad_timeout timeout ≡ false
    → wait (is_timed timeout) (rounds 0) ≡ go_on
    → receive_aligned b ≡ true
    → IsBacked b
    → suc n ≤ length b.froms
    → suc n ≤ length b.results
    → suc n < 2 ^ 27
    → u32_mod ≤ datagram_len * suc n + 63
    → datagram_len * suc n < u32_mod
    → b.bufferlen < datagram_len
    → recvfrom_multi rounds timeout b (pos datagram_len) (pos (suc n)) ≡ fault
unfolding recvfrom_multi receive_checked
recvfrom_multi-overflow rounds timeout b datagram_len n good ready al v froms results few low high
      short =
    let (rs, er) = clear_results-in (suc n) b.results results in
    let fits =
      receive_fits-overflow b (suc n) (datagram_len * suc n) v low high few froms results al in
    rw (good, al, below, fits, er)
      (receive_loop-fault rounds (is_timed timeout) b.bufferlen datagram_len n rs b.froms ready
        short)
  where
    below : leb u32_mod (datagram_len * suc n) ≡ false
    below = ground arith
