-- ===== src/Shim/Sockets/Owned/Closing.antt =====
-- The loops of `socketclose_all` and `nsysnet_shim_drain_owned_sockets`.
use ax88179_aroma_driver.Base.{
  ℕ, zero, suc, ◌+◌, ◌≤◌, ◌<◌, ◌≡◌, ◌≢◌, refl, ap, ◌∙◌, inl, inr, Bool, true, false, not, Option,
  none, some, arith, Bool-cases, ◌==◌, if◌then◌else◌, ℤ, eq_nat,
}
use native.Mathlib.Decide.{dec_lt}
use ax88179_aroma_driver.Shim.Sockets.{Shim, Fate, held, Result, native_call, lwip_close}
use ax88179_aroma_driver.Shim.Sockets.Calls.{
  close_one, drain_one, close_each, forget_all, native_close_all, socketclose_all, drain_each,
  drain,
}
use ax88179_aroma_driver.Shim.Sockets.Owned.{IsOwned, same-IsOwned}
use ax88179_aroma_driver.Shim.Sockets.Owned.Steps.{Holds}

-- The lwIP socket `x` is open, and the shim holds it.
abbrev IsHeld : Shim → ℕ → Type 0
IsHeld s x = (s.lwip x ≡ true) × (s.fate x ≡ held)

-- With no descriptor owned and no open lwIP socket held the invariant holds.
pub empty-IsOwned :
    (owned : ℕ → Bool) (mapped : ℕ → Option ℕ) (native lwip : ℕ → Bool) (fate : ℕ → Fate)
    (accepting : Bool)
    → ((fd : ℕ) → owned fd ≡ false)
    → ((x : ℕ) → lwip x ≡ true → fate x ≡ held → ⊥)
    → IsOwned owned mapped native lwip fate accepting
empty-IsOwned owned mapped native lwip fate accepting o l = record {
  in_range = λ fd h. absurd (ground (arith, o fd));
  backed = λ fd h. absurd (ground (arith, o fd));
  placed = λ fd a h. absurd (ground (arith, o fd));
  distinct = λ i j h k m. absurd (ground (arith, o i));
  kept = λ x h q. absurd (l x h q);
}

-- What one close of a mapped socket leaves open and held, whatever its answer.
lwip_close-open :
    (s : Shim) (rc : ℤ) (m : Option ℕ) (y : ℕ)
    → IsHeld (lwip_close s rc m) y
    → IsHeld s y × (m ≢ some y)
unfolding lwip_close
lwip_close-open s rc none y h = (h, λ e. cc)
lwip_close-open s rc (some x) y h = elim (Bool-cases (eq_nat rc 0)) [
  | inl e ↦ elim (Bool-cases (x == y)) [
    | inl f ↦ absurd (ground arith)
    | inr f ↦ (ground arith, λ g. ground arith)
  ]
  | inr e ↦ elim (Bool-cases (x == y)) [
    | inl f ↦ absurd (ground arith)
    | inr f ↦ (ground arith, λ g. ground arith)
  ]
]

-- What a round of either loop does, for the descriptor `fd`: an lwIP socket that stays open and held was
-- so before and, if `fd` is listed, is not the one behind it; other descriptors lead where they led; the mask
-- and the flag stay.
record Round (listed : Bool) (fd : ℕ) (s t : Shim) : Type 0 where
  first : (y : ℕ) → IsHeld t y → IsHeld s y × (listed ≡ true → s.mapped_fd fd ≢ some y)
  mapped : (i : ℕ) → suc fd ≤ i → t.mapped_fd i ≡ s.mapped_fd i
  mask : t.open_mask ≡ s.open_mask

lwip_close-fields :
    (s : Shim) (rc : ℤ) (m : Option ℕ)
    → ((lwip_close s rc m).mapped_fd ≡ s.mapped_fd) × ((lwip_close s rc m).open_mask ≡ s.open_mask)
unfolding lwip_close
lwip_close-fields s rc none = (refl, refl)
lwip_close-fields s rc (some x) = elim (Bool-cases (eq_nat rc 0)) [
  | inl e ↦ rw e (refl, refl)
  | inr e ↦ rw e (refl, refl)
]

idle-Round : (fd : ℕ) (s : Shim) → Round false fd s s
idle-Round fd s = record { first = λ y h. (h, λ m. cc); mapped = λ i above. refl; mask = refl }

close_one-Round :
    (lw : ℤ) (listed : Bool) (fd : ℕ) (s : Shim) → Round listed fd s (close_one lw listed fd s)
unfolding close_one
close_one-Round lw false fd s = idle-Round fd s
close_one-Round lw true fd s =
    let (m, o) = lwip_close-fields s lw (s.mapped_fd fd) in
    record {
      first = λ y h. let (p, q) = lwip_close-open s lw (s.mapped_fd fd) y h in (p, λ _. q);
      mapped = λ i above. ap (λ (f : ℕ → Option ℕ). f i) m;
      mask = o;
    }

drain_one-Round :
    (lw : ℤ) (listed : Bool) (fd : ℕ) (s : Shim) → Round listed fd s (drain_one lw listed fd s)
unfolding drain_one
drain_one-Round lw false fd s = idle-Round fd s
drain_one-Round lw true fd s = record {
  first = λ y h. let (p, q) = lwip_close-open s lw (s.mapped_fd fd) y h in (p, λ _. q);
  mapped = λ i above. ground arith;
  mask = (lwip_close-fields s lw (s.mapped_fd fd)).1;
}

module _ (lw : ℕ → ℤ) (mask : ℕ → Bool) where
  -- What a loop of `n` rounds from `fd` on does: a socket that is open and held behind it was so before,
  -- and no listed descriptor led to it; the mask stays.
  abbrev Loop : ℕ → ℕ → Shim → Shim → Type 0
  Loop n fd s t =
      ((y : ℕ)
        → IsHeld t y
        → IsHeld s y × ((i : ℕ) → fd ≤ i → i < fd + n → mask i ≡ true → s.mapped_fd i ≢ some y))
      × (t.open_mask ≡ s.open_mask)

  Loop-next :
      (n fd : ℕ) (s s' t : Shim)
      → Round (mask fd) fd s s'
      → Loop n (suc fd) s' t
      → Loop (suc n) fd s t
  Loop-next n fd s s' t r l = (
    λ y h.
        let (open_s', spared) = l.0 y h in
        let (open_s, here) = r.first y open_s' in
        (
          open_s,
          λ i low high m. elim (dec_lt fd i) [
            | yes above ↦ λ e. spared i above (omega arith) m (r.mapped i above ∙ e)
            | no not_above ↦
                let same : i ≡ fd = omega arith in λ e. here (rw same at m) (rw same at e)
          ],
        ),
    l.1 ∙ r.mask,
  )

  close_each-Loop : (n fd : ℕ) (s : Shim) → Loop n fd s (close_each lw mask n fd s)
  unfolding close_each
  close_each-Loop zero fd s = (λ y h. (h, λ i low high m. absurd (omega arith)), refl)
  close_each-Loop (suc n) fd s =
      let s' = close_one (lw fd) (mask fd) fd s in
      Loop-next n fd s s' (close_each lw mask n (suc fd) s')
        (close_one-Round (lw fd) (mask fd) fd s) (close_each-Loop n (suc fd) s')

  drain_each-Loop : (n fd : ℕ) (s : Shim) → Loop n fd s (drain_each lw mask n fd s)
  unfolding drain_each
  drain_each-Loop zero fd s = (λ y h. (h, λ i low high m. absurd (omega arith)), refl)
  drain_each-Loop (suc n) fd s =
      let s' = drain_one (lw fd) (mask fd) fd s in
      Loop-next n fd s s' (drain_each lw mask n (suc fd) s')
        (drain_one-Round (lw fd) (mask fd) fd s) (drain_each-Loop n (suc fd) s')

-- A loop over the whole mask of a valid table leaves no open lwIP socket held.
Loop-closes_all :
    (lw : ℕ → ℤ) (s s' t : Shim)
    → Holds s
    → s'.lwip ≡ s.lwip
    → s'.fate ≡ s.fate
    → s'.mapped_fd ≡ s.mapped_fd
    → Loop lw s.open_mask 32 0 s' t
    → (y : ℕ) → t.lwip y ≡ true
    → t.fate y ≡ held
    → ⊥
Loop-closes_all lw s s' t h l f m loop y e q =
    let (open_s', spared) = loop.0 y (e, q) in
    let (fd, own, leads) = h.kept y (rw l at open_s'.0) (rw f at open_s'.1) in
    spared fd (omega arith) (omega (arith, h.in_range fd own)) own (rw m leads)

-- `nsysnet_shim_drain_owned_sockets` on a valid table, whatever lwIP answers to its closes: no descriptor
-- is owned any more, and no lwIP socket that the shim holds is open; so one that is still open is one that
-- the shim had let go of before, or one whose close has failed.
pub drain-closes_all :
    (lw : ℕ → ℤ) (s : Shim)
    → Holds s
    → ((fd : ℕ) → (drain lw s).open_mask fd ≡ false)
      × ((x : ℕ) → (drain lw s).fate x ≡ held → (drain lw s).lwip x ≡ false)
unfolding drain
drain-closes_all lw s h =
    let cleared : Shim = record s { open_mask = λ _. false } in
    let end = drain_each lw s.open_mask 32 0 cleared in
    let loop = drain_each-Loop lw s.open_mask 32 0 cleared in
    (
      λ fd. ap (λ (f : ℕ → Bool). f fd) loop.1,
      λ x q. elim (Bool-cases (end.lwip x)) [
        | inl e ↦ absurd (Loop-closes_all lw s cleared end h refl refl refl loop x e q)
        | inr e ↦ e
      ],
    )

native_close_all-Holds :
    (nat : ℤ) (s : Shim)
    → ((fd : ℕ) → s.open_mask fd ≡ false)
    → ((x : ℕ) → s.lwip x ≡ true → s.fate x ≡ held → ⊥)
    → Holds (native_close_all nat s)
native_close_all-Holds nat s o l = elim (Bool-cases (eq_nat nat 0)) [
  | inl e ↦ rw e (empty-IsOwned _ _ _ _ _ _ o l)
  | inr e ↦ rw e (empty-IsOwned _ _ _ _ _ _ o l)
]

idle_close_all-Holds :
    (nat : ℤ) (s : Shim) → s.accepting_sockets ≡ false → Holds s → Holds (native_close_all nat s)
idle_close_all-Holds nat s e h = elim (Bool-cases (eq_nat nat 0)) [
  | inl f ↦ rw f (same-IsOwned h _ s.accepting_sockets (λ i acc own. absurd (ground arith)))
  | inr f ↦ rw f h
]

Holds-if :
    (b : Bool) (r r' : Result) → (b ≡ true → Holds r.2) → Holds r'.2 → Holds (if b then r else r').2
Holds-if true r r' h k = h refl
Holds-if false r r' h k = k

-- `socketclose_all`, whatever lwIP answers to its closes.
pub socketclose_all-Holds :
    (lw : ℕ → ℤ) (nat : ℤ) (s : Shim) → Holds s → Holds (socketclose_all lw nat s).2
unfolding socketclose_all
socketclose_all-Holds lw nat s h =
    Holds-if (not s.accepting_sockets) (nat, native_call, native_close_all nat (forget_all s))
      (nat, native_call, native_close_all nat closed)
      (λ e. idle_close_all-Holds nat (forget_all s) (ground arith) h)
      (native_close_all-Holds nat closed none_owned all_closed)
  where
    cleared : Shim
    cleared = record (forget_all s) { open_mask = λ _. false }

    closed : Shim
    closed = close_each lw s.open_mask 32 0 cleared

    loop : Loop lw s.open_mask 32 0 cleared closed
    loop = close_each-Loop lw s.open_mask 32 0 cleared

    none_owned : (fd : ℕ) → closed.open_mask fd ≡ false
    none_owned fd = ap (λ (f : ℕ → Bool). f fd) loop.1

    all_closed : (x : ℕ) → closed.lwip x ≡ true → closed.fate x ≡ held → ⊥
    all_closed = Loop-closes_all lw s cleared closed h refl refl refl loop
