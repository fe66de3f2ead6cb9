-- ===== src/Shim/Sockets/Owned.antt =====
-- Who owns which socket: the invariant of the shim's descriptors.
pub mod Steps
pub mod Closing
pub mod Titles
pub mod Reach
use ax88179_aroma_driver.Base.{
  ℕ, zero, suc, ◌+◌, ◌*◌, ◌≤◌, ◌<◌, ◌≡◌, ◌≢◌, refl, ap, sym, ◌∙◌, ◌⊎◌, inl, inr, Bool, true, false,
  not, ◌||◌, ◌&&◌, Option, none, some, arith, Bool-cases, ==_iff, ltb, leb, ◌==◌, if◌then◌else◌, ℤ,
  pos, negsuc, is_neg, minus_one, eq_nat,
}
use ax88179_aroma_driver.Shim.Sockets.{update, Fate, held, Shim}

-- The invariant, on the mask, the mapping, the open sockets of nsysnet and of lwIP, what became of the
-- latter, and the flag `accepting_sockets`: an owned descriptor is one of the 32 and has an open lwIP
-- socket behind it, which the shim holds, and, while the shim accepts, an open native placeholder; no two
-- descriptors share a socket; and each open lwIP socket that the shim holds has its descriptor.
pub record IsOwned (owned : ℕ → Bool) (mapped : ℕ → Option ℕ) (native lwip : ℕ → Bool)
    (fate : ℕ → Fate) (accepting : Bool) : Type 0 where
  pub in_range : (fd : ℕ) → owned fd ≡ true → fd < 32
  pub backed :
      (fd : ℕ)
      → owned fd ≡ true
      → (x : ℕ) × (mapped fd ≡ some x) × (lwip x ≡ true) × (fate x ≡ held)
  pub placed : (fd : ℕ) → accepting ≡ true → owned fd ≡ true → native fd ≡ true
  pub distinct :
      (fd fd' : ℕ) → owned fd ≡ true → owned fd' ≡ true → mapped fd ≡ mapped fd' → fd ≡ fd'
  pub kept :
      (x : ℕ) → lwip x ≡ true → fate x ≡ held → (fd : ℕ) × (owned fd ≡ true) × (mapped fd ≡ some x)

update_self {ℓ} : {A : Type ℓ} (f : ℕ → A) (i : ℕ) (a : A) → update f i a i ≡ a
update_self f i a = ground arith

update_ne {ℓ} : {A : Type ℓ} (f : ℕ → A) (i j : ℕ) (a : A) → (i == j) ≡ false → update f i a j ≡ f j
update_ne f i j a h = rw h

module _ {owned : ℕ → Bool} {mapped : ℕ → Option ℕ} {native lwip : ℕ → Bool} {fate : ℕ → Fate}
    {accepting : Bool} (o : IsOwned owned mapped native lwip fate accepting) where
  -- Native sockets that are not owned may change at will, and so may lwIP's that no descriptor leads to.
  pub change-IsOwned :
      (native' lwip' : ℕ → Bool) (fate' : ℕ → Fate) (accepting' : Bool)
      → ((fd x : ℕ)
          → owned fd ≡ true
          → mapped fd ≡ some x
          → lwip x ≡ true
          → fate x ≡ held
          → (lwip' x ≡ true) × (fate' x ≡ held))
      → ((x : ℕ) → lwip' x ≡ true → fate' x ≡ held → (lwip x ≡ true) × (fate x ≡ held))
      → ((fd : ℕ) → accepting' ≡ true → owned fd ≡ true → native' fd ≡ true)
      → IsOwned owned mapped native' lwip' fate' accepting'
  change-IsOwned native' lwip' fate' accepting' keeps old n = record {
    in_range = o.in_range;
    backed = λ fd h.
        let (x, e, p, q) = o.backed fd h in let (p', q') = keeps fd x h e p q in (x, e, p', q');
    placed = n;
    distinct = o.distinct;
    kept = λ x h f. let (p, q) = old x h f in o.kept x p q;
  }

  pub same-IsOwned :
      (native' : ℕ → Bool) (accepting' : Bool)
      → ((fd : ℕ) → accepting' ≡ true → owned fd ≡ true → native' fd ≡ true)
      → IsOwned owned mapped native' lwip fate accepting'
  same-IsOwned native' accepting' n =
      change-IsOwned native' lwip fate accepting' (λ fd x h e p q. (p, q)) (λ x p q. (p, q)) n

  -- A fresh lwIP socket gets a descriptor that was not owned.
  pub attach-IsOwned :
      (fd x : ℕ)
      → lwip x ≡ false
      → owned fd ≡ false
      → fd < 32
      → IsOwned
          (update owned fd true)
          (update mapped fd (some x))
          (update native fd true)
          (update lwip x true)
          (update fate x held)
          accepting
  attach-IsOwned fd x fresh free small = record {
    in_range = λ i h. elim (Bool-cases (fd == i)) [
      | inl e ↦ ground arith
      | inr e ↦ o.in_range i (rw e at h)
    ];
    backed = λ i h. elim (Bool-cases (fd == i)) [
      | inl e ↦ (x, rw e, update_self lwip x true, update_self fate x held)
      | inr e ↦
          let (y, m, p, q) = o.backed i (rw e at h) in
          let other : (x == y) ≡ false = ground arith in (y, rw e m, rw other p, rw other q)
    ];
    placed = λ i a h. elim (Bool-cases (fd == i)) [
      | inl e ↦ rw e
      | inr e ↦ rw e (o.placed i a (rw e at h))
    ];
    distinct = λ i j h k m. elim (Bool-cases (fd == i)) [
      | inl e ↦ elim (Bool-cases (fd == j)) [
        | inl f ↦ ground arith
        | inr f ↦ let (y, n, p, q) = o.backed j (rw f at k) in absurd (ground arith)
      ]
      | inr e ↦ elim (Bool-cases (fd == j)) [
        | inl f ↦ let (y, n, p, q) = o.backed i (rw e at h) in absurd (ground arith)
        | inr f ↦ o.distinct i j (rw e at h) (rw f at k) (rw (e, f) at m)
      ]
    ];
    kept = λ y h q. elim (Bool-cases (x == y)) [
      | inl e ↦ (fd, update_self owned fd true, ground arith)
      | inr e ↦
          let (fd', own, m) = o.kept y (rw e at h) (rw e at q) in
          let other : (fd == fd') ≡ false = ground arith in (fd', rw other own, rw other m)
    ];
  }

  -- A descriptor is given up, and the lwIP socket behind it closed or let go of.
  pub detach-IsOwned :
      (mapped' : ℕ → Option ℕ) (native' lwip' : ℕ → Bool) (fate' : ℕ → Fate) (fd x : ℕ)
      → owned fd ≡ true
      → mapped fd ≡ some x
      → ((i : ℕ) → (fd == i) ≡ false → mapped' i ≡ mapped i)
      → ((y : ℕ) → (x == y) ≡ false → (lwip' y ≡ lwip y) × (fate' y ≡ fate y))
      → (lwip' x ≡ true → fate' x ≡ held → ⊥)
      → ((i : ℕ)
          → (fd == i) ≡ false
          → accepting ≡ true
          → owned i ≡ true
          → native i ≡ true
          → native' i ≡ true)
      → IsOwned (update owned fd false) mapped' native' lwip' fate' accepting
  detach-IsOwned mapped' native' lwip' fate' fd x own here m' others gone n = record {
    in_range = λ i h. elim (Bool-cases (fd == i)) [
      | inl e ↦ absurd (ground arith)
      | inr e ↦ o.in_range i (rw e at h)
    ];
    backed = λ i h. elim (Bool-cases (fd == i)) [
      | inl e ↦ absurd (ground arith)
      | inr e ↦
          let own_i = rw e at h in
          let (y, m, p, q) = o.backed i own_i in
          let other : (x == y) ≡ false = ground (arith, o.distinct fd i own own_i) in
          let (l, f) = others y other in (y, m' i e ∙ m, l ∙ p, f ∙ q)
    ];
    placed = λ i a h. elim (Bool-cases (fd == i)) [
      | inl e ↦ absurd (ground arith)
      | inr e ↦ let own_i = rw e at h in n i e a own_i (o.placed i a own_i)
    ];
    distinct = λ i j h k m. elim (Bool-cases (fd == i)) [
      | inl e ↦ absurd (ground arith)
      | inr e ↦ elim (Bool-cases (fd == j)) [
        | inl f ↦ absurd (ground arith)
        | inr f ↦ o.distinct i j (rw e at h) (rw f at k) (sym (m' i e) ∙ (m ∙ m' j f))
      ]
    ];
    kept = λ y h q. elim (Bool-cases (x == y)) [
      | inl e ↦ let same = (==_iff x y).0 e in absurd (gone (ap lwip' same ∙ h) (ap fate' same ∙ q))
      | inr e ↦
          let (l, f) = others y e in
          let (i, own_i, m) = o.kept y (sym l ∙ h) (sym f ∙ q) in
          let other : (fd == i) ≡ false = ground arith in (i, rw other own_i, m' i other ∙ m)
    ];
  }
