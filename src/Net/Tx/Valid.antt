-- ===== src/Net/Tx/Valid.antt =====
-- The invariant of the transmit slots.
use ax88179_aroma_driver.Base.{
  ℕ, suc, ◌≤◌, ◌<◌, ◌≡◌, refl, ap, sym, ◌∙◌, inl, inr, Bool, true, false, Option, none, some, Bytes,
  List, [], ◌∷◌, ◌++◌, arith, length, length-append, ltb, ◌==◌, Bool-cases, overwrite,
  length-overwrite, take,
}
use mathlib.Core.List.{append_assoc}
use ax88179_aroma_driver.Net.Queue.{Message, MessageQueue}
use ax88179_aroma_driver.Net.Tx.{
  tx_slots, frame_max, Producer, idle, claimed, copied, update, find_slot, err_ok, Tx, free,
  claim_at, claim, copy, message, posted, post, taken, receive, release,
}
use ax88179_aroma_driver.Net.Tx.Slots.{
  Owns, count, count-le, count-claim, count-release, Owns-claim, Owns-remove, Owns-rotate, slots_of,
  length-slots_of, slots_of-append, find_slot-some,
}

abbrev pub slot_of : Producer → List ℕ
slot_of idle = []
slot_of (claimed i p) = i ∷ []
slot_of (copied i p) = i ∷ []

abbrev pub in_hand : Option Message → List Message
in_hand none = []
in_hand (some m) = m ∷ []

-- The copied frame stands in its slot.
abbrev pub IsCopied : Producer → (ℕ → Bytes) → Type 0
IsCopied idle pool = Unit
IsCopied (claimed i p) pool = length p ≤ frame_max
IsCopied (copied i p) pool = take (length p) (pool i) ≡ p

module _ {mq : MessageQueue tx_slots} where
  -- The messages that are not sent yet, the first one first.
  abbrev pub waiting : Tx mq → List Message
  waiting s = in_hand s.consumer ++ mq.contents s.queue

  -- The slots that the two threads and the messages hold.
  abbrev pub holders : Tx mq → List ℕ
  holders s = slot_of s.producer ++ slots_of (waiting s)

-- The slots that are held differ, lie in the table, and are the ones in use; each has its size.
pub record IsValid {mq : MessageQueue tx_slots} (s : Tx mq) : Type 0 where
  pub owned : Owns s.used (holders s)
  pub counted : count tx_slots s.used ≡ length (holders s)
  pub within : (i : ℕ) → s.used i ≡ true → i < tx_slots
  pub sized : (i : ℕ) → length (s.pool i) ≡ frame_max
  pub has_copy : IsCopied s.producer s.pool

take-overwrite : (p b : Bytes) → length p ≤ length b → take (length p) (overwrite p b) ≡ p
unfolding overwrite
take-overwrite [] b h = refl
take-overwrite (x ∷ xs) [] h = absurd (omega arith)
take-overwrite (x ∷ xs) (y ∷ ys) h = ap (λ r. x ∷ r) (take-overwrite xs ys (omega arith))

update_self {ℓ} : {A : Type ℓ} (f : ℕ → A) (i : ℕ) (a : A) → update f i a i ≡ a
update_self f i a = ground arith

-- A slot that is given back.
within-release :
    (used : ℕ → Bool) (j : ℕ)
    → ((i : ℕ) → used i ≡ true → i < tx_slots)
    → (i : ℕ) → update used j false i ≡ true
    → i < tx_slots
within-release used j h i e = elim (Bool-cases (j == i)) [
  | inl same ↦ absurd (ground arith)
  | inr other ↦ h i (rw other at e)
]

module _ {mq : MessageQueue tx_slots} (s : Tx mq) (v : IsValid s) where
  claim_at-IsValid :
      (p : Bytes)
      → s.producer ≡ idle
      → length p ≤ frame_max
      → (o : Option ℕ) → find_slot tx_slots 0 s.used ≡ o
      → IsValid (claim_at p o s).1
  unfolding claim_at
  claim_at-IsValid p at_rest fits none e = v
  claim_at-IsValid p at_rest fits (some i) e =
      let (unused, below) = find_slot-some tx_slots 0 s.used e in
      let owned : Owns s.used (slots_of (waiting s)) = rw at_rest at v.owned in
      let counted : count tx_slots s.used ≡ length (slots_of (waiting s)) =
        rw at_rest at v.counted in
      let (o, apart) = Owns-claim i s.used (slots_of (waiting s)) unused owned in
      record {
        owned = (update_self s.used i true, apart, o);
        counted = count-claim tx_slots i s.used (omega arith) unused ∙ ap suc counted;
        within = λ j h. elim (Bool-cases (i == j)) [
          | inl same ↦ ground arith
          | inr other ↦ v.within j (rw other at h)
        ];
        sized = v.sized;
        has_copy = fits;
      }

  pub claim-IsValid : (p : Bytes) → s.producer ≡ idle → IsValid (claim p s).1
  unfolding claim
  claim-IsValid p at_rest = elim (Bool-cases (ltb frame_max (length p))) [
    | inl e ↦ rw e v
    | inr e ↦ rw e (claim_at-IsValid p at_rest (ground arith) (find_slot tx_slots 0 s.used) refl)
  ]

  pub free-IsValid : (i : ℕ) → slot_of s.producer ≡ i ∷ [] → IsValid (free i s)
  free-IsValid i holds =
      let owned : Owns s.used (i ∷ slots_of (waiting s)) = rw holds at v.owned in
      let counted : count tx_slots s.used ≡ suc (length (slots_of (waiting s))) =
        rw holds at v.counted in
      let (busy, o) = Owns-remove i s.used [] (slots_of (waiting s)) owned in
      record {
        owned = o;
        counted = omega (arith, count-release tx_slots i s.used (v.within i busy) busy);
        within = within-release s.used i v.within;
        sized = v.sized;
        has_copy = tt;
      }

  pub copy-IsValid :
      (whole : Bool) (i : ℕ) (p : Bytes) → s.producer ≡ claimed i p → IsValid (copy whole i p s).1
  unfolding copy
  copy-IsValid false i p holds = free-IsValid i (ap slot_of holds)
  copy-IsValid true i p holds =
      let fits : length p ≤ frame_max = rw holds at v.has_copy in
      record {
        owned = rw holds at v.owned;
        counted = rw holds at v.counted;
        within = v.within;
        sized = λ j. elim (Bool-cases (i == j)) [
          | inl same ↦ rw same (length-overwrite p (s.pool i) ∙ v.sized i)
          | inr other ↦ rw other (v.sized j)
        ];
        has_copy =
            ap (take (length p)) (update_self s.pool i (overwrite p (s.pool i)))
            ∙ take-overwrite p (s.pool i) (omega (arith, v.sized i));
      }

  pub release-IsValid : (m : Message) → s.consumer ≡ some m → IsValid (release m s)
  unfolding release
  release-IsValid m holds =
      let xs = slot_of s.producer in
      let ys = slots_of (mq.contents s.queue) in
      let owned : Owns s.used (xs ++ (m.slot ∷ ys)) = rw holds at v.owned in
      let counted : count tx_slots s.used ≡ length (xs ++ (m.slot ∷ ys)) = rw holds at v.counted in
      let (busy, o) = Owns-remove m.slot s.used xs ys owned in
      record {
        owned = o;
        counted = omega (
          arith,
          count-release tx_slots m.slot s.used (v.within m.slot busy) busy,
          length-append xs (m.slot ∷ ys),
          length-append xs ys,
        );
        within = within-release s.used m.slot v.within;
        sized = v.sized;
        has_copy = v.has_copy;
      }

  -- Where the queue stands for the same messages in the hands of the consumer or not.
  same-IsValid :
      (t : Tx mq)
      → t.used ≡ s.used
      → t.pool ≡ s.pool
      → t.producer ≡ s.producer
      → waiting t ≡ waiting s
      → IsValid t
  same-IsValid t eu ep er ew = record {
    owned = rw (eu, er, ew) v.owned;
    counted = rw (eu, er, ew) v.counted;
    within = rw eu v.within;
    sized = rw ep v.sized;
    has_copy = rw (er, ep) v.has_copy;
  }

  pub waiting-receive : s.consumer ≡ none → waiting (receive s) ≡ waiting s
  unfolding receive taken
  waiting-receive at_rest = go (mq.receive s.queue) refl
    where
      go : (o : Option (Message × mq.Q)) → mq.receive s.queue ≡ o → waiting (taken o s) ≡ waiting s
      go none e = refl
      go (some (m, q)) e = rw at_rest (sym (mq.receive_some s.queue m q e))

  pub receive-IsValid : s.consumer ≡ none → IsValid (receive s)
  unfolding receive taken
  receive-IsValid at_rest = go (mq.receive s.queue) refl
    where
      go : (o : Option (Message × mq.Q)) → mq.receive s.queue ≡ o → IsValid (taken o s)
      go none e = v
      go (some (m, q)) e =
          same-IsValid (taken (some (m, q)) s) refl refl refl
            (rw at_rest (sym (mq.receive_some s.queue m q e)))

  -- While `send_frame` holds a slot the queue has room: `OSSendMessage` never refuses.
  pub send_succeeds :
      (i : ℕ) (p : Bytes) → slot_of s.producer ≡ i ∷ [] → (mq.send (message i p) s.queue).0 ≡ true
  send_succeeds i p holds =
      let counted : count tx_slots s.used ≡ suc (length (slots_of (waiting s))) =
        rw holds at v.counted in
      mq.send_room (message i p) s.queue (
        omega (
          arith,
          counted,
          count-le tx_slots s.used,
          length-slots_of (waiting s),
          length-append (in_hand s.consumer) (mq.contents s.queue),
        ))

  -- What `OSSendMessage` leaves: the message at the end of those that wait.
  pub waiting-post :
      (i : ℕ) (p : Bytes)
      → slot_of s.producer ≡ i ∷ []
      → in_hand s.consumer ++ mq.contents (mq.send (message i p) s.queue).1
        ≡ waiting s ++ (message i p ∷ [])
  waiting-post i p holds =
      ap (λ ms. in_hand s.consumer ++ ms)
        (mq.send_contents (message i p) s.queue (send_succeeds i p holds))
      ∙ sym (append_assoc (in_hand s.consumer) (mq.contents s.queue) (message i p ∷ []))

  pub post-ok :
      (i : ℕ) (p : Bytes)
      → slot_of s.producer ≡ i ∷ []
      → post i p s
        ≡ (err_ok, record s { queue = (mq.send (message i p) s.queue).1; producer = idle })
  unfolding post posted
  post-ok i p holds = go (mq.send (message i p) s.queue) (send_succeeds i p holds)
    where
      go :
          (r : Bool × mq.Q)
          → r.0 ≡ true
          → posted i r s ≡ (err_ok, record s { queue = r.1; producer = idle })
      go (true, q) e = refl
      go (false, q) e = absurd cc

  pub post-IsValid : (i : ℕ) (p : Bytes) → s.producer ≡ copied i p → IsValid (post i p s).1
  post-IsValid i p holds =
      let has : slot_of s.producer ≡ i ∷ [] = ap slot_of holds in
      let owned : Owns s.used (i ∷ slots_of (waiting s)) = rw holds at v.owned in
      let counted : count tx_slots s.used ≡ suc (length (slots_of (waiting s))) =
        rw holds at v.counted in
      let ends =
        ap slots_of (waiting-post i p has) ∙ slots_of-append (waiting s) (message i p ∷ []) in
      rw (post-ok i p has) (record {
        owned = rw ends (Owns-rotate i s.used (slots_of (waiting s)) owned);
        counted = rw ends (omega (arith, counted, length-append (slots_of (waiting s)) (i ∷ [])));
        within = v.within;
        sized = v.sized;
        has_copy = tt;
      })
