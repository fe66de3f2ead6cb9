-- ===== src/Net/Input/Accounts.antt =====
-- Every received frame is accounted for, and every pbuf has one owner.
use ax88179_aroma_driver.Base.{
  ℕ, zero, suc, arith, ◌+◌, ◌%◌, ◌^◌, ◌≡◌, Bool, true, false, List, [], ◌∷◌, ◌++◌, ℤ, pos, negsuc,
  Bool-cases, inl, inr,
}
use ax88179_aroma_driver.Net.Input.{
  Stats, count_up, Event, allocated, given, freed, Answer, Done, hand_over, input_frame, drain_rx,
  poll_rx,
}

-- The received frames are those that lwIP took and those that were dropped, in 32 bits.
abbrev pub IsCounted : Stats → Type 0
IsCounted s = s.rx_ok ≡ (s.in_ok + s.in_drop) % 2 ^ 32

-- Each pbuf is given away or freed, once, before the next one.
pub data Owned : List Event → Type 0 where
  nil : Owned []
  kept : {es : List Event} → Owned es → Owned (allocated ∷ given ∷ es)
  dropped : {es : List Event} → Owned es → Owned (allocated ∷ freed ∷ es)

abbrev pub Accounts : Done → Type 0
Accounts d = Owned d.events × IsCounted d.stats

Owned-append : {es ds : List Event} → Owned es → Owned ds → Owned (es ++ ds)
Owned-append nil h = h
Owned-append (kept o) h = kept (Owned-append o h)
Owned-append (dropped o) h = dropped (Owned-append o h)

counted_in : (r i d : ℕ) → r ≡ (i + d) % 2 ^ 32 → count_up r ≡ (count_up i + d) % 2 ^ 32
counted_in r i d h = omega arith

counted_drop : (r i d : ℕ) → r ≡ (i + d) % 2 ^ 32 → count_up r ≡ (i + count_up d) % 2 ^ 32
counted_drop r i d h = omega arith

hand_over-Accounts :
    (take input : Bool) (s : Stats)
    → IsCounted s
    → Accounts (hand_over take input (record s { rx_ok = count_up s.rx_ok }))
unfolding hand_over
hand_over-Accounts true true s h = (kept nil, counted_in s.rx_ok s.in_ok s.in_drop h)
hand_over-Accounts true false s h = (dropped nil, counted_drop s.rx_ok s.in_ok s.in_drop h)
hand_over-Accounts false input s h = (dropped nil, counted_drop s.rx_ok s.in_ok s.in_drop h)

input_frame-Accounts : (a : Answer) (s : Stats) → IsCounted s → Accounts (input_frame a s)
unfolding input_frame
input_frame-Accounts a s h = elim (Bool-cases a.alloc) [
  | inl ok ↦ rw ok (hand_over-Accounts a.take a.input s h)
  | inr ko ↦ rw ko (nil, counted_drop s.rx_ok s.in_ok s.in_drop h)
]

drain_rx-Accounts :
    (more : List (ℤ × Answer)) (s : Stats) → IsCounted s → Accounts (drain_rx more s)
unfolding drain_rx
drain_rx-Accounts [] s h = (nil, h)
drain_rx-Accounts ((negsuc k, a) ∷ more) s h = (nil, h)
drain_rx-Accounts ((pos zero, a) ∷ more) s h = (nil, h)
drain_rx-Accounts ((pos (suc k), a) ∷ more) s h =
    let (owned, counted) = input_frame-Accounts a s h in
    let (owned', counted') = drain_rx-Accounts more (input_frame a s).stats counted in
    (Owned-append owned owned', counted')

-- Whatever `ax88179_receive` and lwIP answer, a poll gives every pbuf that it allocates to lwIP or frees
-- it, once, before it allocates the next; and if the frames received were, in 32 bits, those that lwIP
-- took and those dropped, they are so behind it.
pub poll_rx-Accounts :
    (n : ℤ) (a : Answer) (more : List (ℤ × Answer)) (s : Stats)
    → IsCounted s
    → Accounts (poll_rx n a more s)
unfolding poll_rx
poll_rx-Accounts (negsuc k) a more s h = (nil, h)
poll_rx-Accounts (pos zero) a more s h = (nil, h)
poll_rx-Accounts (pos (suc k)) a more s h =
    let (owned, counted) = input_frame-Accounts a s h in
    let (owned', counted') = drain_rx-Accounts more (input_frame a s).stats counted in
    (Owned-append owned owned', counted')
