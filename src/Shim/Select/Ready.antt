-- ===== src/Shim/Select/Ready.antt =====
-- What `select` finds, on descriptors of both stacks.
use ax88179_aroma_driver.Base.{ℕ, Bool, not, ◌&&◌}
use ax88179_aroma_driver.Shim.Sockets.{Fate, Shim}
use ax88179_aroma_driver.Shim.Sockets.Owned.{IsOwned}
use ax88179_aroma_driver.Shim.Select.{
  Bits, Kind, Sets, Answer, in_set, seen, lwip_select_bits, Round, Reply, restrict, wanted,
}
use ax88179_aroma_driver.Shim.Select.Exact.{IsExact, is_ready, Finds}

-- What is ready in each round, for both stacks.
module _ (offset : ℕ) (rounds : ℕ → Round) (nready lready : ℕ → Kind → ℕ → Bool)
    (native_exact : (j : ℕ) → IsExact (nready j) (rounds j).native)
    (lwip_exact : (j : ℕ) → IsExact (lready j) (rounds j).lwip) (nfds : ℕ) (sets : Sets) (s : Shim)
    {fate : ℕ → Fate}
    (owned : IsOwned s.open_mask s.mapped_fd s.native s.lwip fate s.accepting_sockets) where
  -- The sets are those of one of the rounds.
  abbrev IsFound : Reply → Type 0
  IsFound r = (j : ℕ) × Finds nfds sets (is_ready s (nready j) (lready j)) r.sets

  abbrev want : Bits
  want = wanted nfds sets

  abbrev nat : Bits
  nat i = want i && not (s.open_mask i)

  abbrev n_answer : ℕ → Answer
  n_answer j = (rounds j).native (record { nfds = nfds; sets = restrict nat sets })

  abbrev l_answer : ℕ → Answer
  l_answer j =
      lwip_select_bits (rounds j).lwip offset nfds (λ i. want i && not (nat i)) s.mapped_fd
        (restrict (λ i. not (nat i)) sets)

  abbrev l_bit : ℕ → Kind → ℕ → Bool
  l_bit j k i =
      ((want i && not (nat i)) && (in_set (sets k) i && not (nat i)))
      && seen (s.mapped_fd i) (lready j k)
