-- ===== src/Driver/Link/Sync.antt =====
-- The driver's `medium` and the adapter's medium register over a link poll.
use mathlib.Core.Path.{subst₂}
use ax88179_aroma_driver.Base.{
  ℕ, zero, suc, ◌+◌, ◌*◌, ◌/◌, ◌%◌, ◌^◌, ◌<◌, ◌≡◌, refl, ◌∙◌, ◌⊎◌, Bool, true, false, not, ◌||◌,
  ◌&&◌, Option, none, some, Bytes, arith, ◌==◌, if◌then◌else◌, get_or, bit, eq_nat, Bool-cases, inl,
  inr,
}
use ax88179_aroma_driver.Driver.Control.{
  Ax, Device, M, pure, fail, after, ◌>>=◌, access_mac, control, Request, reg_write, reg_read,
  read_phy, mac_write16,
}
use ax88179_aroma_driver.Driver.Link.{
  LinkState, down, up, reg_medium, reg_rx_ctl, reg_rx_bulkin_qctrl, rx_ctl_default, has_link,
  speed_of, medium_of, set_medium, word32, wait_fifo, lose_link, change_medium, adopt, decide_link,
  link,
}

-- A request that writes the medium register.
abbrev pub is_medium_write : Request → Bool
is_medium_write q = not q.read && (q.cmd == access_mac && q.value == reg_medium)

-- What is relied on of the adapter: a write to the medium register that is taken whole sets it, low
-- byte first, and no other request changes it.
pub record HasMedium (W : Type 0) (dev : Device W) (reg : W → ℕ) : Type 0 where
  pub sets :
      (q : Request) (w : W)
      → is_medium_write q ≡ true
      → eq_nat (dev q w).0.result q.size ≡ true
      → reg (dev q w).1 ≡ get_or q.payload 0 0 + get_or q.payload 1 0 * 2 ^ 8
  pub keeps : (q : Request) (w : W) → is_medium_write q ≡ false → reg (dev q w).1 ≡ reg w

-- What holds of the result of a step, if it does not fail.
abbrev pub Ends : {W A : Type 0} → (A → Ax → W → Type 0) → Option A × Ax × W → Type 0
Ends P (none, ax, w) = Unit
Ends P (some a, ax, w) = P a ax w

after-Ends :
    {W A B : Type 0} (P : A → Ax → W → Type 0) (Q : B → Ax → W → Type 0) (f : A → M W B)
    → ((a : A) (ax : Ax) (w : W) → P a ax w → Ends Q (f a ax w))
    → (x : Option A × Ax × W) → Ends P x
    → Ends Q (after x f)
after-Ends P Q f k (none, ax, w) h = tt
after-Ends P Q f k (some a, ax, w) h = k a ax w h

-- What the link's state says of the struct, with the register `reg` in step.
abbrev pub InSync : {W : Type 0} → (W → ℕ) → LinkState → Ax → W → Type 0
InSync reg down ax w = (ax.medium ≡ 0) × (reg w ≡ 0) × (ax.rx_frames ≡ 0)
InSync reg (up s) ax w =
    (status : ℕ) × (s ≡ speed_of status)
    × (ax.medium ≡ medium_of status)
    × (reg w ≡ medium_of status)

module _ {W : Type 0} (dev : Device W) (reg : W → ℕ) (law : HasMedium W dev reg) where
  -- Neither the struct's medium nor the register changed.
  abbrev Same : {A : Type 0} → ℕ → ℕ → A → Ax → W → Type 0
  Same m k a ax w = (ax.medium ≡ m) × (reg w ≡ k)

  control-Same :
      (q : Request) (ax : Ax) (w : W)
      → is_medium_write q ≡ false
      → Ends (Same ax.medium (reg w)) (control dev q ax w)
  unfolding control
  control-Same q ax w e = ground (arith, law.keeps q w e)

  -- A write of the medium register that succeeds.
  control_medium :
      (q : Request) (ax : Ax) (w : W)
      → is_medium_write q ≡ true
      → Ends
          (Same ax.medium (get_or q.payload 0 0 + get_or q.payload 1 0 * 2 ^ 8))
          (control dev q ax w)
  unfolding control
  control_medium q ax w e = ground (arith, law.sets q w e)

  -- A step that changes neither.
  abbrev Quiet : {A : Type 0} → M W A → Type 0
  Quiet m = (ax : Ax) (w : W) → Ends (Same ax.medium (reg w)) (m ax w)

  Quiet-pure : {A : Type 0} (a : A) → Quiet (pure a)
  Quiet-pure a ax w = (refl, refl)

  Quiet-bind :
      {A B : Type 0} (m : M W A) (f : A → M W B)
      → Quiet m
      → ((a : A) → Quiet (f a))
      → Quiet (m >>= f)
  Quiet-bind m f qm qf ax w =
      after-Ends (Same ax.medium (reg w)) (Same ax.medium (reg w)) f
        (λ a ax' w' h. rw (← h.0, ← h.1) (qf a ax' w')) (m ax w) (qm ax w)

  Quiet-if : {A : Type 0} (b : Bool) (m n : M W A) → Quiet m → Quiet n → Quiet (if b then m else n)
  Quiet-if true m n qm qn = qm
  Quiet-if false m n qm qn = qn

  Quiet-reg_read : (r size : ℕ) → Quiet (reg_read dev access_mac r size)
  unfolding reg_read
  Quiet-reg_read r size ax w = control-Same _ ax w refl

  Quiet-read_phy : (r : ℕ) → Quiet (read_phy dev r)
  unfolding read_phy
  Quiet-read_phy r =
      Quiet-bind _ _ (λ ax w. control-Same _ ax w refl)
        (λ b. Quiet-pure (get_or b 0 0 + get_or b 1 0 * 2 ^ 8))

  Quiet-reg_write :
      (r size : ℕ) (b : Bytes)
      → (r == reg_medium) ≡ false
      → Quiet (reg_write dev access_mac r size b)
  unfolding reg_write
  Quiet-reg_write r size b e = Quiet-bind _ _ (λ ax w. control-Same _ ax w e) (λ _. Quiet-pure tt)

  Quiet-wait_fifo : (n : ℕ) → Quiet (wait_fifo dev n)
  unfolding wait_fifo
  Quiet-wait_fifo zero = λ ax w. tt
  Quiet-wait_fifo (suc n) =
      Quiet-bind _ _ (λ ax w. control-Same _ ax w refl)
        (λ b.
          Quiet-if (bit (word32 b) 30) (wait_fifo dev n) (pure tt) (Quiet-wait_fifo n)
            (Quiet-pure tt))

  -- From a medium `m` in the struct and `k` in the register, a step ends as `Q` says.
  abbrev Leads : {A : Type 0} → ℕ → ℕ → M W A → (A → Ax → W → Type 0) → Type 0
  Leads m k step Q = (ax : Ax) (w : W) → Same m k tt ax w → Ends Q (step ax w)

  Leads-quiet :
      {A B : Type 0} (Q : B → Ax → W → Type 0) (m k : ℕ) (step : M W A) (f : A → M W B)
      → Quiet step
      → ((a : A) → Leads m k (f a) Q)
      → Leads m k (step >>= f) Q
  Leads-quiet Q m k step f q next ax w h =
      after-Ends (Same m k) Q f next (step ax w)
        (subst₂ (λ a b. Ends (Same a b) (step ax w)) h.0 h.1 (q ax w))

  -- A write of the medium register that is taken.
  Leads-medium :
      {B : Type 0} (Q : B → Ax → W → Type 0) (m k v : ℕ) (f : Unit {0} → M W B)
      → v < 2 ^ 16
      → ((u : Unit {0}) → Leads m v (f u) Q)
      → Leads m k (mac_write16 dev reg_medium v >>= f) Q
  unfolding mac_write16 reg_write
  Leads-medium Q m k v f small next ax w h =
      after-Ends (Same m v) Q f next (mac_write16 dev reg_medium v ax w) (
        after-Ends (Same ax.medium (v % 256 + v / 2 ^ 8 % 256 * 2 ^ 8)) (Same m v) (λ _. pure tt)
          (λ b ax' w' g. (g.0 ∙ h.0, g.1 ∙ word)) _ (control_medium _ ax w refl))
    where
      word : v % 256 + v / 2 ^ 8 % 256 * 2 ^ 8 ≡ v
      word = omega arith

  lose_link-InSync : (m : ℕ) → Leads m m (lose_link dev) (InSync reg)
  unfolding lose_link
  lose_link-InSync m ax w h = go (Bool-cases (ax.medium == 0))
    where
      finish : (u : Unit {0}) → Leads m 0 (set_medium 0 >>= λ _. pure down) (InSync reg)
      finish u ax' w' g = (refl, g.1, refl)

      go :
          ((ax.medium == 0) ≡ true) ⊎ ((ax.medium == 0) ≡ false)
          → Ends (InSync reg) (lose_link dev ax w)
      go (inl e) = rw e (refl, ground arith, refl)
      go (inr e) = rw e (
          Leads-medium (InSync reg) m m 0 (λ _. set_medium 0 >>= λ _. pure down) (omega arith)
            finish ax w h)

  medium_of_small : (status : ℕ) → medium_of status < 2 ^ 16
  unfolding medium_of
  medium_of_small status = ground arith

  Quiet-rx_ctl : (v : ℕ) → Quiet (mac_write16 dev reg_rx_ctl v)
  unfolding mac_write16
  Quiet-rx_ctl v = Quiet-reg_write reg_rx_ctl 2 _ refl

  change_medium-Same : (m k s v : ℕ) → v < 2 ^ 16 → Leads m k (change_medium dev s v) (Same v v)
  unfolding change_medium
  change_medium-Same m k s v small = Leads-quiet (Same v v) m k _ _ (Quiet-reg_read _ 1) λ usb.
      Leads-medium (Same v v) m k 0 _ (omega arith) λ _.
        Leads-quiet (Same v v) m 0 _ _ (Quiet-rx_ctl 0) λ _.
          Leads-quiet (Same v v) m 0 _ _ (Quiet-reg_write reg_rx_bulkin_qctrl 5 _ refl) λ _.
            Leads-quiet (Same v v) m 0 _ _ (Quiet-rx_ctl rx_ctl_default) λ _.
              Leads-quiet (Same v v) m 0 _ _ (Quiet-wait_fifo 10)
                λ _. Leads-medium (Same v v) m 0 v _ small λ _ ax w h. (refl, h.1)

  adopt-InSync : (m status : ℕ) → Leads m m (adopt dev status) (InSync reg)
  unfolding adopt
  adopt-InSync m status ax w h = go (Bool-cases (ax.medium == medium_of status))
    where
      go :
          ((ax.medium == medium_of status) ≡ true) ⊎ ((ax.medium == medium_of status) ≡ false)
          → Ends (InSync reg) (adopt dev status ax w)
      go (inl e) = rw e (status, refl, ground arith, ground arith)
      go (inr e) = rw e (
          after-Ends (Same (medium_of status) (medium_of status)) (InSync reg) _
            (λ _ ax' w' g. (status, refl, g.0, g.1)) _
            (change_medium-Same m m (speed_of status) (medium_of status) (medium_of_small status) ax
              w h))

  decide_link-InSync : (m bmsr status : ℕ) → Leads m m (decide_link dev bmsr status) (InSync reg)
  unfolding decide_link
  decide_link-InSync m bmsr status = go (bmsr == 0xffff || status == 0xffff) (has_link bmsr status)
    where
      go :
          (bad up' : Bool)
          → Leads m m
              (if bad then fail else if up' then adopt dev status else lose_link dev)
              (InSync reg)
      go true b = λ ax w h. tt
      go false true = adopt-InSync m status
      go false false = lose_link-InSync m

  link-Leads : (m : ℕ) → Leads m m (link dev) (InSync reg)
  unfolding link
  link-Leads m = Leads-quiet (InSync reg) m m _ _ (Quiet-read_phy 1) λ latched.
      Leads-quiet (InSync reg) m m _ _ (Quiet-read_phy 1) λ bmsr.
        Leads-quiet (InSync reg) m m _ _ (Quiet-read_phy 0x11)
          λ status. decide_link-InSync m bmsr status

  -- `ax88179_link`, from a struct whose `medium` is what the adapter's medium register holds, on an
  -- adapter whose register changes by whole writes to it only: where it returns 0, both are 0 and
  -- no descriptor of the last aggregate is left; where it returns 1, the speed and both values are
  -- those of one PHY status.
  pub link-InSync : (ax : Ax) (w : W) → reg w ≡ ax.medium → Ends (InSync reg) (link dev ax w)
  link-InSync ax w h = link-Leads ax.medium ax w (refl, h)
