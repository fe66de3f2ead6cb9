-- ===== src/Shim/AddrInfo/Neutral.antt =====
-- What a `getaddrinfo` leaves behind, and its `freeaddrinfo`.
use ax88179_aroma_driver.Base.{
  ℕ, zero, suc, arith, ◌+◌, ◌≤◌, ◌<◌, ◌≡◌, ◌≢◌, refl, sym, ap, ◌∙◌, ◌⊎◌, inl, inr, Bool, true,
  false, Option, none, some, List, [], ◌∷◌, length, ◌==◌, if◌then◌else◌, Bool-cases, ==_iff,
  contradicts,
}
use mathlib.Core.Path.{subst}
use ax88179_aroma_driver.Shim.Sockets.{update}
use ax88179_aroma_driver.Shim.AddrInfo.{
  Entry, Memory, Results, is_none, points_to, remember, disown, build, Eai, success, noname,
  service, memory_full, bad_family, failed, eai_to_nsn, Reply, give_up, gave_up, finish_list,
  finished, freed, with_list, lwip_freeaddrinfo, getaddrinfo_sync, free_owned, freeaddrinfo,
}
use ax88179_aroma_driver.Shim.AddrInfo.Chains.{has, without, without-at, free_list-without}
use ax88179_aroma_driver.Shim.AddrInfo.Built.{AreFresh, IsBuilt, Builds, build-Builds}

-- The same blocks, the same table, and as many lists of lwIP.
abbrev pub Same : Results → Results → Type 0
Same s s' =
    ((x : ℕ) → s'.memory x ≡ s.memory x)
    × ((i : ℕ) → s'.owned i ≡ s.owned i)
    × (s'.lwip_lists ≡ s.lwip_lists)

-- After a success, `freeaddrinfo` of the result brings back the state from before; after an error, it is
-- there already, and there is no result.
abbrev pub IsNeutral : Results → ℕ → Eai → Option ℕ → Results → Type 0
IsNeutral s n success res s' = (s'' : Results) × (freeaddrinfo n res s' ≡ some s'') × Same s s''
IsNeutral s n _ res s' = (res ≡ none) × Same s s'

none_of : (o : Option ℕ) → is_none o ≡ true → o ≡ none
none_of none h = refl
none_of (some a) h = absurd (cc)

some_of : (o : Option ℕ) (a : ℕ) → points_to o a ≡ true → o ≡ some a
some_of none a h = absurd (cc)
some_of (some b) a h = ap some ((==_iff b a).0 h)

remember-cases :
    (n i : ℕ) (head : Option ℕ) (o : ℕ → Option ℕ)
    → (remember n i head o ≡ none)
      ⊎ ((j : ℕ) × (i ≤ j)
          × (j < i + n)
          × (o j ≡ none)
          × (remember n i head o ≡ some (update o j head)))
unfolding remember
remember-cases zero i head o = inl refl
remember-cases (suc n) i head o = elim (Bool-cases (is_none (o i))) [
  | inl free ↦ inr (i, omega arith, omega arith, none_of (o i) free, rw free refl)
  | inr used ↦ elim (remember-cases n (suc i) head o) [
    | inl e ↦ inl (rw used e)
    | inr (j, l, u, z, e) ↦ inr (j, omega arith, omega arith, z, rw used e)
  ]
]

later : (i j : ℕ) → i ≤ j → i ≢ j → suc i ≤ j
later i j l d = omega arith

disown-finds :
    (n i a j : ℕ) (o : ℕ → Option ℕ)
    → i ≤ j
    → j < i + n
    → points_to (o j) a ≡ true
    → (k : ℕ) × (points_to (o k) a ≡ true) × (disown n i a o ≡ some (update o k none))
unfolding disown
disown-finds zero i a j o l u h = absurd (omega arith)
disown-finds (suc n) i a j o l u h = elim (Bool-cases (points_to (o i) a)) [
  | inl here ↦ (i, here, rw here refl)
  | inr past ↦ rw past (
      disown-finds n (suc i) a j o
        (later i j l
          (λ e. contradicts (points_to (o i) a) (ap (λ k. points_to (o k) a) e ∙ h) past))
        (omega arith) h)
]

IsNeutral-if :
    (s : Results) (n : ℕ) (b : Bool) (e e' : Eai)
    → IsNeutral s n e none s
    → IsNeutral s n e' none s
    → IsNeutral s n (if b then e else e') none s
IsNeutral-if s n true e e' h h' = h
IsNeutral-if s n false e e' h h' = h'

unchanged : (s : Results) → Same s s
unchanged s = (λ x. refl, λ i. refl, refl)

eai_to_nsn-IsNeutral : (s : Results) (n err : ℕ) → IsNeutral s n (eai_to_nsn err) none s
unfolding eai_to_nsn
eai_to_nsn-IsNeutral s n err =
    IsNeutral-if s n (err == 200) noname _ (refl, unchanged s)
      (IsNeutral-if s n (err == 201) service _ (refl, unchanged s)
        (IsNeutral-if s n (err == 203) memory_full _ (refl, unchanged s)
          (IsNeutral-if s n (err == 204) bad_family failed (refl, unchanged s)
            (refl, unchanged s))))

-- The blocks of the list freed, the memory is as it was.
without-same :
    (before m : Memory) (cs : List ℕ) (head : Option ℕ)
    → IsBuilt before cs m head
    → (x : ℕ) → without m cs x ≡ before x
without-same before m cs head built x = without-at m cs x ∙ elim (Bool-cases (has x cs)) [
  | inl on ↦ rw on (sym (built.were_free x on))
  | inr off ↦ rw off (built.frame x off)
]

update_other : (o : ℕ → Option ℕ) (j k : ℕ) (v : Option ℕ) → (j == k) ≡ false → update o j v k ≡ o k
update_other o j k v h = rw h refl

erased : (j i : ℕ) (o : ℕ → Option ℕ) → o j ≡ none → update o j none i ≡ o i
erased j i o h = elim (Bool-cases (j == i)) [
  | inl e ↦ rw e (sym (ap o (sym ((==_iff j i).0 e)) ∙ h))
  | inr ne ↦ rw ne refl
]

plus_zero : (n : ℕ) → 0 + n ≡ n
plus_zero n = omega arith

has_first : (a : ℕ) (cs : List ℕ) → has a (a ∷ cs) ≡ true
has_first a cs = ground arith

module _ (s : Results) (heads : (i a : ℕ) → s.owned i ≡ some a → s.memory a ≢ none) where
  abbrev pub Answers : ℕ → Option Reply → Type 0
  Answers n o = (r : Reply) × (o ≡ some r) × IsNeutral s n r.result r.res r.state

  give_up-Answers :
      (n : ℕ) (head : Option ℕ) (m : Memory) (cs : List ℕ)
      → IsBuilt s.memory cs m head
      → length cs ≤ n
      → Answers n (give_up n head m (with_list s))
  unfolding give_up gave_up lwip_freeaddrinfo
  give_up-Answers n head m cs built l =
      rw (free_list-without cs n m head l built.distinct built.chain) (
        record { result = memory_full; res = none; state = record s { memory = without m cs } },
        refl,
        (refl, (without-same s.memory m cs head built, λ i. refl, refl)),
      )

  -- The table with a new head, and without it.
  disowned :
      (j i : ℕ) (o : ℕ → Option ℕ) (v : Option ℕ)
      → o j ≡ none
      → update (update o j v) j none i ≡ o i
  disowned j i o v h = elim (Bool-cases (j == i)) [
    | inl e ↦ rw e (sym (ap o (sym ((==_iff j i).0 e)) ∙ h))
    | inr ne ↦ rw ne refl
  ]

  -- Only slot `j` has a head that was free before.
  only_slot :
      (a j k : ℕ) → s.memory a ≡ none → points_to (update s.owned j (some a) k) a ≡ true → k ≡ j
  only_slot a j k free h = elim (Bool-cases (j == k)) [
    | inl e ↦ sym ((==_iff j k).0 e)
    | inr ne ↦ absurd (
        heads k a
          (some_of (s.owned k) a
            (ap (λ o. points_to o a) (sym (update_other s.owned j k (some a) ne)) ∙ h))
          free)
  ]

  points_to_self : (j a : ℕ) → points_to (update s.owned j (some a) j) a ≡ true
  points_to_self j a = ground arith

  keep-Answers :
      (n : ℕ) (head : Option ℕ) (m : Memory) (cs : List ℕ) (j : ℕ)
      → IsBuilt s.memory cs m head
      → length cs ≤ n
      → j < 8
      → s.owned j ≡ none
      → IsNeutral s n success head (record s { memory = m; owned = update s.owned j head })
  unfolding freeaddrinfo free_owned freed
  keep-Answers n head m [] j built l u z = rw built.chain (
    record s { memory = m; owned = update s.owned j none },
    refl,
    (λ x. built.frame x refl, λ i. erased j i s.owned z, refl),
  )
  keep-Answers n head m (a ∷ cs) j built l u z =
      let (k, pk, e) =
        disown-finds 8 0 a j (update s.owned j (some a)) (omega arith) u (points_to_self j a) in
      let same = only_slot a j k (built.were_free a (has_first a cs)) pk in
      rw
        (
          built.chain.0,
          e,
          free_list-without (a ∷ cs) n m (some a) l built.distinct (refl, built.chain.1),
        )
        (
          record s {
            memory = without m (a ∷ cs);
            owned = update (update s.owned j (some a)) k none;
          },
          refl,
          (
            without-same s.memory m (a ∷ cs) head built,
            λ i.
                ap (λ c. update (update s.owned j (some a)) c none i) same
                ∙ disowned j i s.owned (some a) z,
            refl,
          ),
        )

  finish_list-Answers :
      (n : ℕ) (b : Bool × Option ℕ × Memory)
      → Builds s.memory n b
      → Answers n (finish_list n (with_list s) b)
  unfolding finish_list finished lwip_freeaddrinfo
  finish_list-Answers n (false, head, m) (cs, built, l) = give_up-Answers n head m cs built l
  finish_list-Answers n (true, head, m) (cs, built, l) = elim (remember-cases 8 0 head s.owned) [
    | inl full ↦ rw full (give_up-Answers n head m cs built l)
    | inr (j, lo, u, z, e) ↦ rw e (
      record {
        result = success;
        res = head;
        state = record s { memory = m; owned = update s.owned j head };
      },
      refl,
      keep-Answers n head m cs j built l u z,
    )
  ]

  fresh_start : IsBuilt s.memory [] s.memory none
  fresh_start = record {
    chain = refl;
    distinct = tt;
    frame = λ x h. refl;
    were_free = λ x h. absurd (cc);
  }

  -- `shim_getaddrinfo_sync` always answers, whatever lwIP does and wherever `malloc` fails, as long as the
  -- blocks that it gives differ and were not allocated, and the heads in `ai_owned` are. Where it
  -- answers 0, `freeaddrinfo` of its result finds every block of it allocated, frees each once, and
  -- brings back memory and table as they were; otherwise they are so at once, and there is no result.
  -- On every path the list that lwIP gave, if it gave one, is given back to it, once.
  pub getaddrinfo_sync-Answers :
      (err : ℕ) (es : List (Entry × Option ℕ))
      → AreFresh s.memory es
      → Answers (length es) (getaddrinfo_sync err es s)
  unfolding getaddrinfo_sync
  getaddrinfo_sync-Answers err es fresh = elim (Bool-cases (err == 0)) [
    | inl ok ↦ rw ok (
        finish_list-Answers (length es) (build es none none s.memory) (
          subst (λ n. Builds s.memory n (build es none none s.memory)) (plus_zero (length es))
            (build-Builds es s.memory [] s.memory none none fresh_start refl fresh
              (λ x h. absurd (cc)))))
    | inr ko ↦ rw ko (
      record { result = eai_to_nsn err; res = none; state = s },
      refl,
      eai_to_nsn-IsNeutral s (length es) err,
    )
  ]
