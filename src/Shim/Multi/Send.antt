-- ===== src/Shim/Multi/Send.antt =====
-- The accesses of `sendto_multi_ex` to the arrays of the title.
use ax88179_aroma_driver.Base.{
  ℕ, zero, suc, ◌+◌, ◌*◌, ◌^◌, ◌≤◌, ◌<◌, ◌≡◌, refl, ap, ◌∙◌, inl, inr, true, false, not, List, [],
  ◌∷◌, arith, Bool-cases, length, length-set, ltb, leb, ℤ, pos, negsuc, minus_one, set,
}
use ax88179_aroma_driver.Base.Outcome.{Sound, Sound-bind, Sound-weaken, Sound-if, Outcome, refused}
use ax88179_aroma_driver.Shim.Multi.{
  u32_mod, ipc_pad, Done, Sockaddr, is_inet, clear_results, SendBuffers, send_aligned, total_length,
  send_fits, Sendto, after_send, send_loop, send_checked, sendto_multi_ex,
}

-- The arrays have the sizes that the struct names.
pub record IsBacked (b : SendBuffers) : Type 0 where
  pub lens_size : length b.lens * 4 ≡ b.datagram_lens_len
  pub dests_size : length b.dests * 16 ≡ b.destslen
  pub results_size : length b.results * 4 ≡ b.resultslen

-- The sum of the first lengths, none of which is negative.
abbrev pub sum : ℕ → List ℤ → ℕ
sum zero ls = 0
sum (suc n) [] = 0
sum (suc n) (pos k ∷ ls) = k + sum n ls
sum (suc n) (negsuc k ∷ ls) = sum n ls

-- The first entries are there, and none is negative.
abbrev pub NonNeg : ℕ → List ℤ → Type 0
NonNeg zero ls = Unit
NonNeg (suc n) [] = ⊥
NonNeg (suc n) (pos k ∷ ls) = NonNeg n ls
NonNeg (suc n) (negsuc k ∷ ls) = ⊥

pub total_length-Sound :
    (n acc : ℕ) (ls : List ℤ)
    → n ≤ length ls
    → Sound (λ total. (total ≡ acc + sum n ls) × NonNeg n ls) (total_length n acc ls)
unfolding total_length
total_length-Sound zero acc ls h = (omega arith, tt)
total_length-Sound (suc n) acc [] h = elim h [ ]
total_length-Sound (suc n) acc (negsuc k ∷ ls) h = tt
total_length-Sound (suc n) acc (pos k ∷ ls) h = Sound-if _ (leb u32_mod (acc + k)) refused _ tt (
    Sound-weaken (λ total. (total ≡ acc + k + sum n ls) × NonNeg n ls) _
      (total_length n (acc + k) ls) (total_length-Sound n (acc + k) ls (omega arith))
      (λ t e. (omega (arith, e.0), e.1)))

pub clear_results-Sound :
    (n : ℕ) (rs : List ℤ)
    → n ≤ length rs
    → Sound (λ rs'. length rs' ≡ length rs) (clear_results n rs)
unfolding clear_results
clear_results-Sound zero rs h = refl
clear_results-Sound (suc n) [] h = elim h [ ]
clear_results-Sound (suc n) (r ∷ rs) h =
    Sound-bind (λ rest. length rest ≡ length rs) _ (clear_results n rs) _
      (clear_results-Sound n rs (omega arith)) (λ rest e. ap suc e)

abbrev KeepsSize : List ℤ → Outcome Done → Type 0
KeepsSize results = Sound (λ d. length d.results ≡ length results)

KeepsSize-trans :
    (rs results : List ℤ) (o : Outcome Done)
    → length rs ≡ length results
    → KeepsSize rs o
    → KeepsSize results o
KeepsSize-trans rs results o size k =
    Sound-weaken (λ d. length d.results ≡ length rs) (λ d. length d.results ≡ length results) o k
      (λ d e. e ∙ size)

after_send-KeepsSize :
    (again : ℕ → List ℤ → Outcome Done) (i : ℕ) (results : List ℤ) (rc : ℤ)
    → ((r : ℕ) (rs : List ℤ) → KeepsSize rs (again r rs))
    → KeepsSize results (after_send again i results rc)
after_send-KeepsSize again i results (negsuc m) k = length-set results i (negsuc m)
after_send-KeepsSize again i results (pos r) k =
    KeepsSize-trans (set results i (pos r)) results (again r (set results i (pos r)))
      (length-set results i (pos r)) (k r (set results i (pos r)))

module _ (sendto : Sendto) (bufferlen : ℕ) where
  send_loop-KeepsSize :
      (n i at total : ℕ) (ls : List ℤ) (ds : List Sockaddr) (results : List ℤ)
      → NonNeg n ls
      → n ≤ length ds
      → at + sum n ls ≤ bufferlen
      → KeepsSize results (send_loop sendto bufferlen n i at total ls ds results)
  unfolding send_loop
  send_loop-KeepsSize zero i at total ls ds results h k room = refl
  send_loop-KeepsSize (suc n) i at total [] ds results h k room = h
  send_loop-KeepsSize (suc n) i at total (negsuc m ∷ ls) ds results h k room = h
  send_loop-KeepsSize (suc n) i at total (pos len ∷ ls) [] results h k room = elim k [ ]
  send_loop-KeepsSize (suc n) i at total (pos len ∷ ls) (d ∷ ds) results h k room =
      Sound-if _ (not (is_inet d)) _ _ (length-set results i minus_one) (
        rw inside (
          after_send-KeepsSize _ i results (sendto i at len d) (λ r rs.
            send_loop-KeepsSize n (suc i) (at + len) (total + r) ls ds rs h (omega arith)
              (omega arith))))
    where
      inside : ltb bufferlen (at + len) ≡ false
      inside = ground arith

pub ipc_pad-le : (size : ℕ) → size + 64 ≤ u32_mod → size ≤ ipc_pad size
ipc_pad-le size h = omega arith

-- Where neither the padded sum nor the arrays' sizes pass 32 bits, the sizes that are compared are
-- those that are needed.
send_fits-enough :
    (b : SendBuffers) (n total : ℕ)
    → IsBacked b
    → total + 64 ≤ u32_mod
    → n < 2 ^ 27
    → send_fits b n total ≡ true
    → (total ≤ b.bufferlen) × (n ≤ length b.dests) × (n ≤ length b.results)
unfolding send_fits
send_fits-enough b n total v small few h =
    let pad_in = ipc_pad-le total small in
    let dests_in = ipc_pad-le (n * 16) (omega arith) in
    let results_in = ipc_pad-le (n * 4) (omega arith) in ground arith

send_checked-KeepsSize :
    (sendto : Sendto) (b : SendBuffers) (n : ℕ)
    → IsBacked b
    → n ≤ length b.lens
    → sum n b.lens + 64 ≤ u32_mod
    → n < 2 ^ 27
    → KeepsSize b.results (send_checked sendto b n)
unfolding send_checked
send_checked-KeepsSize sendto b n v there small few =
    Sound-bind _ _ (total_length n 0 b.lens) _ (total_length-Sound n 0 b.lens there) (λ total t.
      elim (Bool-cases (send_fits b n total)) [
        | inl e ↦
            let (room, dests, results) = send_fits-enough b n total v (omega (arith, t.0)) few e in
            rw e (
              Sound-bind _ _ (clear_results n b.results) _ (clear_results-Sound n b.results results)
                (λ rs size.
                  KeepsSize-trans rs b.results
                    (send_loop sendto b.bufferlen n 0 0 0 b.lens b.dests rs) size
                    (send_loop-KeepsSize sendto b.bufferlen n 0 0 0 b.lens b.dests rs t.1 dests
                      (omega (arith, t.0)))))
        | inr e ↦ rw e tt
      ])

-- `sendto_multi_ex`, where the array of lengths holds `count` entries, their sum is at most
-- 2^32 - 64 and `count` is below 2^27: no access leaves the title's arrays, whatever the struct's
-- sizes, the lengths, the addresses and lwIP's answers are, and `results` keeps its size.
pub sendto_multi_ex-KeepsSize :
    (sendto : Sendto) (b : SendBuffers) (count : ℕ)
    → IsBacked b
    → count ≤ length b.lens
    → sum count b.lens + 64 ≤ u32_mod
    → count < 2 ^ 27
    → KeepsSize b.results (sendto_multi_ex sendto b (pos count))
unfolding sendto_multi_ex
sendto_multi_ex-KeepsSize sendto b zero v there small few = refl
sendto_multi_ex-KeepsSize sendto b (suc n) v there small few =
    Sound-if _ (not (send_aligned b)) refused _ tt
      (send_checked-KeepsSize sendto b (suc n) v there small few)
