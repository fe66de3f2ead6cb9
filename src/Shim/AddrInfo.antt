-- ===== src/Shim/AddrInfo.antt =====
-- aroma_module/nsysnet_shim.c: `shim_getaddrinfo_sync`, the table `ai_owned` of the results that the shim
-- built, and `freeaddrinfo`. lwIP's list and `malloc` are arguments; the memory is what the shim
-- allocates in it.
pub mod Chains
pub mod Built
pub mod Neutral
pub mod Question
mod Tests
use ax88179_aroma_driver.Base.{
  ℕ, zero, suc, Bool, true, false, Option, none, some, List, [], ◌∷◌, length, ◌==◌, if◌then◌else◌,
  ◌>>=◌, ℤ, pos, eq_nat, Bytes,
}
use ax88179_aroma_driver.Shim.Multi.{Sockaddr}
use ax88179_aroma_driver.Shim.Sockets.{update}

-- An entry of lwIP's list, and of the one for the title.
pub record Entry : Type 0 where
  pub flags : ℤ
  pub family : ℤ
  pub socktype : ℤ
  pub protocol : ℤ
  pub addr : Sockaddr
  pub canonname : Option Bytes

-- `struct nsn_addrinfo`
pub record Node : Type 0 where
  pub entry : Entry
  pub next : Option ℕ

abbrev pub Memory : Type 0
Memory = ℕ → Option Node

-- The shim's blocks, the heads in `ai_owned`, and how many lists lwIP has given that are not freed.
pub record Results : Type 0 where
  pub lwip_lists : ℕ
  pub memory : Memory
  pub owned : ℕ → Option ℕ

abbrev pub ai_owned_max : ℕ
ai_owned_max = 8

abbrev pub is_none : Option ℕ → Bool
is_none none = true
is_none (some a) = false

abbrev pub points_to : Option ℕ → ℕ → Bool
points_to none a = false
points_to (some b) a = b == a

-- `ai_remember`, for the `n` slots from `i` on.
unfoldable pub remember : ℕ → ℕ → Option ℕ → (ℕ → Option ℕ) → Option (ℕ → Option ℕ)
remember zero i head owned = none
remember (suc n) i head owned =
    let rest = remember n (suc i) head owned in
    if is_none (owned i) then some (update owned i head) else rest

-- `ai_is_ours`, for a head that is not null.
unfoldable pub disown : ℕ → ℕ → ℕ → (ℕ → Option ℕ) → Option (ℕ → Option ℕ)
disown zero i head owned = none
disown (suc n) i head owned =
    let rest = disown n (suc i) head owned in
    if points_to (owned i) head then some (update owned i none) else rest

-- `*tail = na`: the tail is the head itself, or the last node's `ai_next`.
abbrev pub first : Option ℕ → ℕ → Option ℕ
first none a = some a
first (some h) a = some h

abbrev pub with_next : ℕ → Option Node → Option Node
with_next a none = none
with_next a (some n) = some (record n { next = some a })

unfoldable pub append_node : Option ℕ → ℕ → Memory → Memory
append_node none a m = m
append_node (some t) a m = update m t (with_next a (m t))

-- The loop over lwIP's list, each entry with the block that `malloc` gives: whether it gives them all,
-- the head, and the memory.
unfoldable pub build :
    List (Entry × Option ℕ) → Option ℕ → Option ℕ → Memory → Bool × Option ℕ × Memory
unfolding append_node
build [] head tail m = (true, head, m)
build ((e, none) ∷ es) head tail m = (false, head, m)
build ((e, some a) ∷ es) head tail m =
    build es (first head a) (some a)
      (append_node tail a (update m a (some (record { entry = e; next = none }))))

-- A block that is not allocated is `none`.
unfoldable pub next_node : (Node → Option Memory) → Option Node → Option Memory
next_node k none = none
next_node k (some n) = k n

-- The loop that frees a list.
unfoldable pub free_list : ℕ → Option ℕ → Memory → Option Memory
unfolding next_node
free_list fuel none m = some m
free_list zero (some a) m = none
free_list (suc fuel) (some a) m = next_node (λ n. free_list fuel n.next (update m a none)) (m a)

-- `eai_to_nsn`, from lwIP's numbers.
pub data Eai : Type 0 where
  success : Eai
  noname : Eai
  service : Eai
  memory_full : Eai
  bad_family : Eai
  failed : Eai

unfoldable pub eai_to_nsn : ℕ → Eai
eai_to_nsn e =
    if e == 200
    then noname
    else if e == 201
    then service
    else if e == 203
    then memory_full
    else if e == 204
    then bad_family
    else failed

-- A call's result, `*res`, and the state behind it.
pub record Reply : Type 0 where
  pub result : Eai
  pub res : Option ℕ
  pub state : Results

-- `lwip_getaddrinfo` has succeeded.
abbrev pub with_list : Results → Results
with_list s = record s { lwip_lists = suc s.lwip_lists }

-- `lwip_freeaddrinfo`; a list that is not there is `none`.
abbrev pub without_list : ℕ → Results → Option Results
without_list zero s = none
without_list (suc n) s = some (record s { lwip_lists = n })

unfoldable pub lwip_freeaddrinfo : Results → Option Results
lwip_freeaddrinfo s = without_list s.lwip_lists s

-- `fail:`, with no more blocks in the list than `fuel`.
unfoldable pub gave_up : Results → Option Memory → Option Reply
gave_up s none = none
gave_up s (some m) =
    some (record { result = memory_full; res = none; state = record s { memory = m } })

unfoldable pub give_up : ℕ → Option ℕ → Memory → Results → Option Reply
unfolding gave_up lwip_freeaddrinfo
give_up fuel head m s = do t ← lwip_freeaddrinfo s; gave_up t (free_list fuel head m)

-- The complete list, with the table behind `ai_remember`.
unfoldable pub finished : ℕ → Results → Option ℕ → Memory → Option (ℕ → Option ℕ) → Option Reply
unfolding give_up lwip_freeaddrinfo
finished fuel s head m none = give_up fuel head m s
finished fuel s head m (some owned) = do
  t ← lwip_freeaddrinfo s
  some (record { result = success; res = head; state = record t { memory = m; owned = owned } })

unfoldable pub finish_list : ℕ → Results → Bool × Option ℕ × Memory → Option Reply
unfolding give_up finished
finish_list fuel s (false, head, m) = give_up fuel head m s
finish_list fuel s (true, head, m) = finished fuel s head m (remember ai_owned_max 0 head s.owned)

-- `shim_getaddrinfo_sync`, with `res` not null; `err` is lwIP's answer.
unfoldable pub getaddrinfo_sync : ℕ → List (Entry × Option ℕ) → Results → Option Reply
unfolding finish_list
getaddrinfo_sync err es s =
    if err == 0
    then finish_list (length es) (with_list s) (build es none none s.memory)
    else some (record { result = eai_to_nsn err; res = none; state = s })

-- The end of `freeaddrinfo` on one of the shim's heads.
unfoldable pub freed : Results → (ℕ → Option ℕ) → Option Memory → Option Results
freed s owned none = none
freed s owned (some m) = some (record s { memory = m; owned = owned })

unfoldable pub free_owned : ℕ → ℕ → Results → Option (ℕ → Option ℕ) → Option Results
unfolding freed
free_owned fuel a s none = some s
free_owned fuel a s (some owned) = freed s owned (free_list fuel (some a) s.memory)

-- `freeaddrinfo`, on a list of no more than `fuel` blocks; one that is not the shim's goes to nsysnet.
unfoldable pub freeaddrinfo : ℕ → Option ℕ → Results → Option Results
unfolding free_owned
freeaddrinfo fuel none s = some s
freeaddrinfo fuel (some a) s = free_owned fuel a s (disown ai_owned_max 0 a s.owned)
