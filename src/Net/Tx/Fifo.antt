-- ===== src/Net/Tx/Fifo.antt =====
-- The transmit slots as a queue of frames: lwIP's thread and the worker in any order of their steps.
use ax88179_aroma_driver.Base.{
  ℕ, ◌+◌, ◌≡◌, refl, ap, ◌∙◌, inl, inr, Bool, true, false, Option, none, some, Bytes, List, [], ◌∷◌,
  ◌++◌, length, length-append, map, ltb, Bool-cases, arith, overwrite,
}
use mathlib.Core.List.{map-append}
use ax88179_aroma_driver.Net.Queue.{Message, MessageQueue}
use ax88179_aroma_driver.Net.Tx.{
  tx_slots, frame_max, idle, claimed, copied, find_slot, Sent, err_ok, Tx, claim_at, claim, copy,
  message, post, taken, receive, frame, release,
}
use ax88179_aroma_driver.Net.Tx.Slots.{Owns, count, slots_of, length-slots_of, frames-elsewhere}
use ax88179_aroma_driver.Net.Tx.Valid.{
  slot_of, waiting, IsValid, claim-IsValid, copy-IsValid, waiting-receive, receive-IsValid,
  release-IsValid, waiting-post, post-ok, post-IsValid,
}

-- What a step shows: a frame for which `send_frame` returns ERR_OK, one that goes to
-- `ax88179_send`, one that is dropped when the interface stops, or nothing.
pub data Label : Type 0 where
  silent : Label
  accepts : Bytes → Label
  sends : Bytes → Label
  discards : Bytes → Label

-- The specification: a queue of frames.
pub data Fifo (fs : List Bytes) : Label → List Bytes → Type 0 where
  nothing : Fifo fs silent fs
  put : (f : Bytes) → Fifo fs (accepts f) (fs ++ (f ∷ []))
  get : (f : Bytes) (rest : List Bytes) → fs ≡ f ∷ rest → Fifo fs (sends f) rest
  drop : (f : Bytes) (rest : List Bytes) → fs ≡ f ∷ rest → Fifo fs (discards f) rest

pub data Fifos (fs : List Bytes) : List Label → List Bytes → Type 0 where
  start : Fifos fs [] fs
  then_fifo :
      {ls : List Label} {gs hs : List Bytes} {l : Label}
      → Fifos fs ls gs
      → Fifo gs l hs
      → Fifos fs (l ∷ ls) hs

abbrev pub label_of : Sent → Bytes → Label
label_of err_ok p = accepts p
label_of _ p = silent

module _ {mq : MessageQueue tx_slots} where
  -- One step of either thread.
  pub data Step (s : Tx mq) : Label → Tx mq → Type 0 where
    claims : (p : Bytes) → s.producer ≡ idle → Step s (label_of (claim p s).0 p) (claim p s).1
    copies :
        (whole : Bool) (i : ℕ) (p : Bytes)
        → s.producer ≡ claimed i p
        → Step s (label_of (copy whole i p s).0 p) (copy whole i p s).1
    posts :
        (i : ℕ) (p : Bytes)
        → s.producer ≡ copied i p
        → Step s (label_of (post i p s).0 p) (post i p s).1
    receives : s.consumer ≡ none → Step s silent (receive s)
    sent : (m : Message) → s.consumer ≡ some m → Step s (sends (frame s.pool m)) (release m s)
    dropped : (m : Message) → s.consumer ≡ some m → Step s (discards (frame s.pool m)) (release m s)

  -- Steps, the last one first.
  pub data Run (s : Tx mq) : List Label → Tx mq → Type 0 where
    here : Run s [] s
    next : {ls : List Label} {t u : Tx mq} {l : Label} → Run s ls t → Step t l u → Run s (l ∷ ls) u

  -- The frames that are accepted and not sent yet.
  abbrev pub frames : Tx mq → List Bytes
  frames s = map (frame s.pool) (waiting s)

  claim_at-Fifo :
      (p : Bytes) (o : Option ℕ) (s : Tx mq)
      → Fifo (frames s) (label_of (claim_at p o s).0 p) (frames (claim_at p o s).1)
  unfolding claim_at
  claim_at-Fifo p none s = nothing
  claim_at-Fifo p (some i) s = nothing

  claim-Fifo :
      (p : Bytes) (s : Tx mq) → Fifo (frames s) (label_of (claim p s).0 p) (frames (claim p s).1)
  unfolding claim
  claim-Fifo p s = elim (Bool-cases (ltb frame_max (length p))) [
    | inl e ↦ rw e nothing
    | inr e ↦ rw e (claim_at-Fifo p (find_slot tx_slots 0 s.used) s)
  ]

  taken-pool : (o : Option (Message × mq.Q)) (s : Tx mq) → (taken o s).pool ≡ s.pool
  unfolding taken
  taken-pool none s = refl
  taken-pool (some (m, q)) s = refl

module _ {mq : MessageQueue tx_slots} (s : Tx mq) (v : IsValid s) where
  copy-Fifo :
      (whole : Bool) (i : ℕ) (p : Bytes)
      → s.producer ≡ claimed i p
      → Fifo (frames s) (label_of (copy whole i p s).0 p) (frames (copy whole i p s).1)
  unfolding copy
  copy-Fifo false i p holds = nothing
  copy-Fifo true i p holds =
      let owned : Owns s.used (i ∷ slots_of (waiting s)) = rw holds at v.owned in
      rw (frames-elsewhere i (overwrite p (s.pool i)) s.pool (waiting s) owned.1) nothing

  post-Fifo :
      (i : ℕ) (p : Bytes)
      → s.producer ≡ copied i p
      → Fifo (frames s) (label_of (post i p s).0 p) (frames (post i p s).1)
  post-Fifo i p holds =
      let has : slot_of s.producer ≡ i ∷ [] = ap slot_of holds in
      let stands = rw holds at v.has_copy in
      let ends =
        ap (map (frame s.pool)) (waiting-post s v i p has)
        ∙ (map-append (frame s.pool) (waiting s) (message i p ∷ [])
            ∙ ap (λ f. frames s ++ (f ∷ [])) stands) in
      rw (post-ok s v i p has) (rw ends (put p))

  receive-Fifo : s.consumer ≡ none → Fifo (frames s) silent (frames (receive s))
  unfolding receive
  receive-Fifo at_rest =
      let same : frames (receive s) ≡ frames s =
        ap (λ pool. map (frame pool) (waiting (receive s))) (taken-pool (mq.receive s.queue) s)
        ∙ ap (map (frame s.pool)) (waiting-receive s v at_rest) in
      rw same nothing

Step-Fifo :
    {mq : MessageQueue tx_slots} {s t : Tx mq} {l : Label}
    → Step s l t
    → IsValid s
    → Fifo (frames s) l (frames t) × IsValid t
unfolding release
Step-Fifo {s = s} (claims p h) v = (claim-Fifo p s, claim-IsValid s v p h)
Step-Fifo {s = s} (copies whole i p h) v = (copy-Fifo s v whole i p h, copy-IsValid s v whole i p h)
Step-Fifo {s = s} (posts i p h) v = (post-Fifo s v i p h, post-IsValid s v i p h)
Step-Fifo {s = s} (receives h) v = (receive-Fifo s v h, receive-IsValid s v h)
Step-Fifo {s = s} (sent m h) v = (get _ _ (rw h refl), release-IsValid s v m h)
Step-Fifo {s = s} (dropped m h) v = (drop _ _ (rw h refl), release-IsValid s v m h)

Run-Valid :
    {mq : MessageQueue tx_slots} {s : Tx mq} {ls : List Label} {t : Tx mq}
    → Run s ls t
    → IsValid s
    → IsValid t
Run-Valid here v = v
Run-Valid (next r st) v = (Step-Fifo st (Run-Valid r v)).1

-- In every order of the steps of `send_frame` and `drain_tx` from a valid table of slots, the
-- frames behave as a queue: a frame for which `send_frame` returns ERR_OK joins at the end, with the bytes that
-- lwIP gave, and the frame that `ax88179_send` gets, or that a stop drops, is the first one. None is lost, doubled, changed or
-- overtaken.
pub Run-Fifos :
    {mq : MessageQueue tx_slots} {s : Tx mq} {ls : List Label} {t : Tx mq}
    → Run s ls t
    → IsValid s
    → Fifos (frames s) ls (frames t)
Run-Fifos here v = start
Run-Fifos (next r st) v = then_fifo (Run-Fifos r v) (Step-Fifo st (Run-Valid r v)).0

-- In every such order: a frame that has its slot and its copy is accepted, since `OSSendMessage`
-- never finds the queue full; and the number of slots in use is the number of frames that
-- `send_frame`, the queue and `drain_tx` hold, so that none is leaked.
pub Run-post :
    {mq : MessageQueue tx_slots} {s : Tx mq} {ls : List Label} {t : Tx mq}
    → Run s ls t
    → IsValid s
    → ((i : ℕ) (p : Bytes) → t.producer ≡ copied i p → (post i p t).0 ≡ err_ok)
      × (count tx_slots t.used ≡ length (slot_of t.producer) + length (waiting t))
Run-post {t = t} r v =
    let w = Run-Valid r v in
    (
      λ i p h. ap (λ r. r.0) (post-ok t w i p (ap slot_of h)),
      omega (
        arith,
        w.counted,
        length-append (slot_of t.producer) (slots_of (waiting t)),
        length-slots_of (waiting t),
      ),
    )
