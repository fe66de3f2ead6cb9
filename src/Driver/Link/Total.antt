-- ===== src/Driver/Link/Total.antt =====
-- `ax88179_link` on an adapter that answers.
use ax88179_aroma_driver.Base.{
  ℕ, suc, ◌+◌, ◌*◌, ◌/◌, ◌%◌, ◌^◌, ◌≤◌, ◌<◌, ◌≡◌, ◌≢◌, ◌⊎◌, inl, inr, Bool-cases, refl, Bool, true,
  false, not, ◌||◌, Option, none, some, Bytes, arith, ◌==◌, if◌then◌else◌, get_or, bit, eq_nat, ltb,
}
use ax88179_aroma_driver.Driver.Control.{
  Ax, Device, M, pure, after, answer, ◌>>=◌, access_mac, phy_request, control, Request, reg_write,
  reg_read, read_phy, mac_write16,
}
use ax88179_aroma_driver.Driver.Link.{
  LinkState, down, up, reg_medium, reg_rx_ctl, reg_rx_bulkin_qctrl, rx_ctl_default, has_link,
  speed_of, medium_of, set_medium, when, word32, fifo_request, wait_fifo, lose_link, change_medium,
  adopt, decide_link, link,
}

-- Two bytes, low byte first.
abbrev pub word16 : Bytes → ℕ
word16 b = get_or b 0 0 + get_or b 1 0 * 2 ^ 8

-- An adapter that takes every request whole, whose PHY registers read `bmsr` and `status`, and whose
-- TX FIFO is ready.
pub record IsAnswering (W : Type 0) (dev : Device W) (bmsr status : ℕ) : Type 0 where
  pub takes : (q : Request) (w : W) → eq_nat (dev q w).0.result q.size ≡ true
  pub reads_bmsr : (w : W) → word16 (answer 2 (dev (phy_request 1) w).0.bytes) ≡ bmsr
  pub reads_status : (w : W) → word16 (answer 2 (dev (phy_request 0x11) w).0.bytes) ≡ status
  pub ready : (w : W) → bit (word32 (answer 4 (dev fifo_request w).0.bytes)) 30 ≡ false

-- What the code makes of the registers.
abbrev pub reported : ℕ → ℕ → LinkState
reported bmsr status = if has_link bmsr status then up (speed_of status) else down

-- The speed that bits 15 and 14 of the PHY's status stand for: 1000 with the upper one alone, 100 with
-- the lower one alone, and else 10.
abbrev pub IsSpeed : Bool → Bool → ℕ → Type 0
IsSpeed true false s = s ≡ 1000
IsSpeed false true s = s ≡ 100
IsSpeed true true s = s ≡ 10
IsSpeed false false s = s ≡ 10

-- A report that is right: up with the three bits of a link set, at the speed of the status, and down with
-- one of them clear.
abbrev pub IsReport : ℕ → ℕ → LinkState → Type 0
IsReport bmsr status (up s) =
    (bit bmsr 2 ≡ true)
    × (bit bmsr 5 ≡ true)
    × (bit status 10 ≡ true)
    × IsSpeed (bit status 15) (bit status 14) s
IsReport bmsr status down = (bit bmsr 2 ≡ false) ⊎ (bit bmsr 5 ≡ false) ⊎ (bit status 10 ≡ false)

-- A field of two bits by its bits.
field-IsSpeed :
    (q : ℕ)
    → IsSpeed
        (q / 2 % 2 == 1)
        (q % 2 == 1)
        (if q % 4 == 2 then 1000 else if q % 4 == 1 then 100 else 10)
field-IsSpeed q = ground arith

upper : (n : ℕ) → n / 2 ^ 14 / 2 ≡ n / 2 ^ 15
upper n = omega arith

speed_of-IsSpeed : (status : ℕ) → IsSpeed (bit status 15) (bit status 14) (speed_of status)
unfolding speed_of
speed_of-IsSpeed status = rw (← upper status) (field-IsSpeed (status / 2 ^ 14))

reported-IsReport : (bmsr status : ℕ) → IsReport bmsr status (reported bmsr status)
reported-IsReport bmsr status = elim (Bool-cases (bit bmsr 2)) [
  | inr a ↦ rw a (inl a)
  | inl a ↦ elim (Bool-cases (bit bmsr 5)) [
    | inr b ↦ rw (a, b) (inr (inl b))
    | inl b ↦ elim (Bool-cases (bit status 10)) [
      | inr c ↦ rw (a, b, c) (inr (inr c))
      | inl c ↦ rw (a, b, c) (a, b, c, speed_of-IsSpeed status)
    ]
  ]
]

-- The step succeeds, with a result of which `Q` holds.
abbrev pub Gives : {W A : Type 0} → (A → Type 0) → Option A × Ax × W → Type 0
Gives Q (none, ax, w) = ⊥
Gives Q (some a, ax, w) = Q a

Gives-weaken :
    {W A : Type 0} (P Q : A → Type 0) (x : Option A × Ax × W)
    → Gives P x
    → ((a : A) → P a → Q a)
    → Gives Q x
Gives-weaken P Q (none, ax, w) h k = h
Gives-weaken P Q (some a, ax, w) h k = k a h

-- The step succeeds from every state.
abbrev Always : {W A : Type 0} → (A → Type 0) → M W A → Type 0
Always {W = W} Q m = (ax : Ax) (w : W) → Gives Q (m ax w)

abbrev Any : {A : Type 0} → A → Type 0
Any a = Unit

Always-bind :
    {W A B : Type 0} (P : A → Type 0) (Q : B → Type 0) (m : M W A) (f : A → M W B)
    → Always P m
    → ((a : A) → P a → Always Q (f a))
    → Always Q (m >>= f)
Always-bind {W} {A} {B} P Q m f hm hf ax w = go (m ax w) (hm ax w)
  where
    go : (x : Option A × Ax × W) → Gives P x → Gives Q (after x f)
    go (none, ax', w') h = absurd h
    go (some a, ax', w') h = hf a h ax' w'

Gives-after :
    {W A B : Type 0} (Q : B → Type 0) (f : A → M W B) (x : Option A × Ax × W)
    → Gives Any x
    → ((a : A) → Always Q (f a))
    → Gives Q (after x f)
Gives-after Q f (none, ax, w) h k = absurd h
Gives-after Q f (some a, ax, w) h k = k a ax w

module _ {W : Type 0} (dev : Device W) (bmsr status : ℕ) (law : IsAnswering W dev bmsr status) where
  control-Always :
      (q : Request) (P : Bytes → Type 0)
      → (0 < q.size) × (q.size ≤ 64)
      → ((w : W) → P (answer q.size (dev q w).0.bytes))
      → Always P (control dev q)
  unfolding control
  control-Always q P fits h ax w =
      let e : (q.size == 0 || ltb 64 q.size) ≡ false = ground arith in rw (e, law.takes q w) (h w)

  reg_write-Always :
      (cmd r size : ℕ) (b : Bytes)
      → (0 < size) × (size ≤ 64)
      → Always Any (reg_write dev cmd r size b)
  unfolding reg_write
  reg_write-Always cmd r size b fits =
      Always-bind Any Any _ _ (control-Always _ Any fits (λ w. tt)) (λ _ _ ax w. tt)

  mac_write16-Always : (r v : ℕ) → Always Any (mac_write16 dev r v)
  unfolding mac_write16
  mac_write16-Always r v = reg_write-Always access_mac r 2 _ (omega arith)

  wait_fifo-Always : (n : ℕ) → Always Any (wait_fifo dev (suc n))
  unfolding wait_fifo
  wait_fifo-Always n =
      Always-bind (λ b. bit (word32 b) 30 ≡ false) Any _ _
        (control-Always _ (λ b. bit (word32 b) 30 ≡ false) (omega arith) (λ w. law.ready w))
        (λ b e. rw e (λ ax w. tt))

  read_bmsr-Always : Always (λ v. v ≡ bmsr) (read_phy dev 1)
  unfolding read_phy
  read_bmsr-Always =
      Always-bind (λ b. get_or b 0 0 + get_or b 1 0 * 2 ^ 8 ≡ bmsr) (λ v. v ≡ bmsr) _ _
        (control-Always (phy_request 1) _ (omega arith) law.reads_bmsr) (λ b e ax w. e)

  read_status-Always : Always (λ v. v ≡ status) (read_phy dev 0x11)
  unfolding read_phy
  read_status-Always =
      Always-bind (λ b. get_or b 0 0 + get_or b 1 0 * 2 ^ 8 ≡ status) (λ v. v ≡ status) _ _
        (control-Always (phy_request 0x11) _ (omega arith) law.reads_status) (λ b e ax w. e)

  change_medium-Always : (s v : ℕ) → Always Any (change_medium dev s v)
  unfolding change_medium reg_read
  change_medium-Always s v =
      Always-bind Any Any _ _ (control-Always _ Any (omega arith) (λ w. tt)) λ usb _.
        Always-bind Any Any _ _ (mac_write16-Always reg_medium 0) λ _ _.
          Always-bind Any Any _ _ (mac_write16-Always reg_rx_ctl 0) λ _ _.
            Always-bind Any Any _ _
              (reg_write-Always access_mac reg_rx_bulkin_qctrl 5 _ (omega arith))
              λ _ _. Always-bind Any Any _ _ (mac_write16-Always reg_rx_ctl rx_ctl_default) λ _ _.
                Always-bind Any Any _ _ (wait_fifo-Always 9)
                  λ _ _. Always-bind Any Any _ _ (mac_write16-Always reg_medium v) λ _ _ ax w. tt

  when-Always : (b : Bool) (m : M W (Unit {0})) → Always Any m → Always Any (when b m)
  when-Always true m h = h
  when-Always false m h = λ ax w. tt

  adopt-Always : Always (λ l. l ≡ up (speed_of status)) (adopt dev status)
  unfolding adopt
  adopt-Always ax w = go (not (ax.medium == medium_of status))
    where
      go :
          (b : Bool)
          → Gives
              (λ l. l ≡ up (speed_of status))
              (after
                (when b (change_medium dev (speed_of status) (medium_of status)) ax w)
                (λ _. pure (up (speed_of status))))
      go true =
          Gives-after _ _ _ (change_medium-Always (speed_of status) (medium_of status) ax w)
            (λ _ ax' w'. refl)
      go false = refl

  lose_link-Always : Always (λ l. l ≡ down) (lose_link dev)
  unfolding lose_link
  lose_link-Always ax w = go (not (ax.medium == 0))
    where
      go :
          (b : Bool)
          → Gives
              (λ l. l ≡ down)
              (after
                (when b (mac_write16 dev reg_medium 0) ax w)
                (λ _. set_medium 0 >>= λ _. pure down))
      go true = Gives-after _ _ _ (mac_write16-Always reg_medium 0 ax w) (λ _ ax' w'. refl)
      go false = refl

  decide_link-Always :
      (b s : ℕ)
      → b ≡ bmsr
      → s ≡ status
      → bmsr ≢ 0xffff
      → status ≢ 0xffff
      → Always (λ l. l ≡ reported bmsr status) (decide_link dev b s)
  unfolding decide_link
  decide_link-Always b s eb es hb hs = rw (eb, es, bad) (go (has_link bmsr status))
    where
      bad : (bmsr == 0xffff || status == 0xffff) ≡ false
      bad = ground arith

      go :
          (x : Bool)
          → Always
              (λ l. l ≡ (if x then up (speed_of status) else down))
              (if x then adopt dev status else lose_link dev)
      go true = adopt-Always
      go false = lose_link-Always

  link-Gives :
      (ax : Ax) (w : W)
      → bmsr ≢ 0xffff
      → status ≢ 0xffff
      → Gives (λ l. l ≡ reported bmsr status) (link dev ax w)
  unfolding link
  link-Gives ax w hb hs =
      Always-bind (λ v. v ≡ bmsr) (λ l. l ≡ reported bmsr status) _ _ read_bmsr-Always
        (λ a ea.
          Always-bind (λ v. v ≡ bmsr) (λ l. l ≡ reported bmsr status) _ _ read_bmsr-Always
            (λ b eb.
              Always-bind (λ v. v ≡ status) (λ l. l ≡ reported bmsr status) _ _ read_status-Always
                (λ s es. decide_link-Always b s eb es hb hs)))
        ax w

  -- `ax88179_link`, on an adapter that takes every request whole, has its TX FIFO ready and whose
  -- BMSR and PHY status read `bmsr` and `status`, neither 0xffff: it succeeds from every state. With BMSR
  -- bits 2 and 5 and status bit 10 set it reports the link up, at 1000 with status bit 15 alone of bits
  -- 15 and 14, at 100 with bit 14 alone, and else at 10; with one of the three clear, it reports it down.
  pub link-reported :
      (ax : Ax) (w : W)
      → bmsr ≢ 0xffff
      → status ≢ 0xffff
      → Gives (IsReport bmsr status) (link dev ax w)
  link-reported ax w hb hs =
      Gives-weaken _ (IsReport bmsr status) (link dev ax w) (link-Gives ax w hb hs)
        (λ l e. rw e (reported-IsReport bmsr status))
