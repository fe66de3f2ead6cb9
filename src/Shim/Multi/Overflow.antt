-- ===== src/Shim/Multi/Overflow.antt =====
-- Where `sendto_multi_ex` leaves the title's arrays.
use ax88179_aroma_driver.Base.{
  ℕ, zero, suc, ◌+◌, ◌*◌, ◌%◌, ◌^◌, ◌≤◌, ◌<◌, ◌≡◌, refl, ap, ◌∙◌, Bool, true, false, ◌&&◌, List, [],
  ◌∷◌, arith, length, ltb, leb, ◌==◌, ℤ, pos, negsuc,
}
use ax88179_aroma_driver.Base.Outcome.{ok, fault}
use ax88179_aroma_driver.Shim.Multi.{
  u32_mod, ipc_pad, pad_array, Sockaddr, is_inet, clear_results, SendBuffers, send_aligned,
  total_length, send_fits, Sendto, send_loop, send_checked, sendto_multi_ex,
}
use ax88179_aroma_driver.Shim.Multi.Send.{IsBacked, sum, NonNeg}

total_length-sum :
    (n acc : ℕ) (ls : List ℤ)
    → NonNeg n ls
    → acc + sum n ls < u32_mod
    → total_length n acc ls ≡ ok (acc + sum n ls)
unfolding total_length
total_length-sum zero acc ls h k = ap ok (omega arith)
total_length-sum (suc n) acc [] h k = absurd h
total_length-sum (suc n) acc (negsuc m ∷ ls) h k = absurd h
total_length-sum (suc n) acc (pos m ∷ ls) h k =
    rw below (total_length-sum n (acc + m) ls h (omega arith) ∙ ap ok (omega arith))
  where
    below : leb u32_mod (acc + m) ≡ false
    below = ground arith

total_length-past :
    (n acc : ℕ) (ls : List ℤ)
    → NonNeg (length ls) ls
    → acc + sum (length ls) ls < u32_mod
    → length ls < n
    → total_length n acc ls ≡ fault
unfolding total_length
total_length-past zero acc ls h k far = absurd (omega arith)
total_length-past (suc n) acc [] h k far = refl
total_length-past (suc n) acc (negsuc m ∷ ls) h k far = absurd h
total_length-past (suc n) acc (pos m ∷ ls) h k far =
    rw below (total_length-past n (acc + m) ls h (omega arith) (omega arith))
  where
    below : leb u32_mod (acc + m) ≡ false
    below = ground arith

pub clear_results-in :
    (n : ℕ) (rs : List ℤ) → n ≤ length rs → (rs' : List ℤ) × (clear_results n rs ≡ ok rs')
unfolding clear_results
clear_results-in zero rs h = (rs, refl)
clear_results-in (suc n) [] h = elim h [ ]
clear_results-in (suc n) (r ∷ rs) h =
    let (rs', e) = clear_results-in n rs (omega arith) in (pos 0 ∷ rs', rw e)

pub and-true : (a b : Bool) → (a && b) ≡ true → (a ≡ true) × (b ≡ true)
and-true true b h = (refl, h)
and-true false b h = cc

-- An array of at least `n` entries, of a size that is a multiple of 64, passes its test.
pub pad_array-le :
    (n k len size : ℕ)
    → len * k ≡ size
    → (size % 64 == 0) ≡ true
    → n * k ≤ len * k
    → n * k + 64 < u32_mod
    → ltb size (pad_array n k) ≡ false
pad_array-le n k len size e al le small = ground arith

send_fits-overflow :
    (b : SendBuffers) (n total : ℕ)
    → IsBacked b
    → u32_mod ≤ total + 63
    → total < u32_mod
    → n < 2 ^ 27
    → n ≤ length b.lens
    → n ≤ length b.dests
    → n ≤ length b.results
    → send_aligned b ≡ true
    → send_fits b n total ≡ true
unfolding send_fits
send_fits-overflow b n total v low high few lens dests results al =
    let sizes =
      (and-true _
        (b.bufferlen % 64 == 0
          && (b.datagram_lens_len % 64 == 0 && (b.destslen % 64 == 0 && b.resultslen % 64 == 0)))
        al).1 in
    let arrays =
      (and-true (b.bufferlen % 64 == 0)
        (b.datagram_lens_len % 64 == 0 && (b.destslen % 64 == 0 && b.resultslen % 64 == 0))
        sizes).1 in
    let both =
      and-true (b.datagram_lens_len % 64 == 0) (b.destslen % 64 == 0 && b.resultslen % 64 == 0)
        arrays in
    let others = and-true (b.destslen % 64 == 0) (b.resultslen % 64 == 0) both.1 in
    rw (
      none_asked,
      pad_array-le n 4 (length b.lens) b.datagram_lens_len v.lens_size both.0 (omega arith)
          (omega arith),
      pad_array-le n 16 (length b.dests) b.destslen v.dests_size others.0 (omega arith)
          (omega arith),
      pad_array-le n 4 (length b.results) b.resultslen v.results_size others.1 (omega arith)
          (omega arith),
    )
  where
    none_asked : ltb b.bufferlen (ipc_pad total) ≡ false
    none_asked = ground arith

-- The sum of the lengths wraps when it is padded to 64: for datagrams of 2^32 - 63 to 2^32 - 1 bytes
-- in all, the size that `sendto_multi_ex` asks of the data is 0. On arrays that are aligned and hold
-- `count` entries, with a first address of the right family and a first datagram longer than the
-- buffer, it passes its checks and lwIP reads behind the buffer, whatever lwIP answers.
pub sendto_multi_ex-overflow :
    (sendto : Sendto) (b : SendBuffers) (n a : ℕ) (ls : List ℤ) (d : Sockaddr) (ds : List Sockaddr)
    → b.lens ≡ pos a ∷ ls
    → b.dests ≡ d ∷ ds
    → is_inet d ≡ true
    → send_aligned b ≡ true
    → IsBacked b
    → suc n ≤ length b.dests
    → suc n ≤ length b.results
    → suc n ≤ length b.lens
    → suc n < 2 ^ 27
    → NonNeg (suc n) b.lens
    → u32_mod ≤ sum (suc n) b.lens + 63
    → sum (suc n) b.lens < u32_mod
    → b.bufferlen < a
    → sendto_multi_ex sendto b (pos (suc n)) ≡ fault
unfolding sendto_multi_ex send_checked send_loop
sendto_multi_ex-overflow sendto b n a ls d ds el ed inet al v dests results lens few nn low high
      short =
    let (rs, er) = clear_results-in (suc n) b.results results in
    let total = total_length-sum (suc n) 0 b.lens nn (omega arith) in
    let fits =
      send_fits-overflow b (suc n) (0 + sum (suc n) b.lens) v (omega arith) (omega arith) few lens
        dests results al in
    rw (al, total, fits, er, el, ed, inet, outside)
  where
    outside : ltb b.bufferlen (0 + a) ≡ true
    outside = ground arith

-- `sendto_multi_ex` reads the lengths before it compares their number with the size of their array:
-- with more datagrams than the array has entries, none of them negative and their sum below 2^32, it
-- reads behind the array.
pub sendto_multi_ex-past_lens :
    (sendto : Sendto) (b : SendBuffers) (n : ℕ)
    → send_aligned b ≡ true
    → NonNeg (length b.lens) b.lens
    → sum (length b.lens) b.lens < u32_mod
    → length b.lens < suc n
    → sendto_multi_ex sendto b (pos (suc n)) ≡ fault
unfolding sendto_multi_ex send_checked
sendto_multi_ex-past_lens sendto b n al nn small far =
    rw (al, total_length-past (suc n) 0 b.lens nn (omega arith) far)
