-- ===== src/Driver/BringUp.antt =====
-- driver/ax88179.c: the registers in `ax88179_open`, from the PHY's reset to autonegotiation. The
-- waits and the debug log's own variables are left out.
use ax88179_aroma_driver.Base.{
  ℕ, ◌+◌, ◌-◌, ◌%◌, ◌^◌, Bool, true, false, not, ◌||◌, Option, none, some, Bytes, [], ◌∷◌, ◌==◌,
  if◌then◌else◌, get_or, bit,
}
use ax88179_aroma_driver.Driver.Control.{
  Device, M, pure, fail, ◌>>=◌, ◌>>◌, access_mac, reg_write, reg_read, read_phy, phy_write,
  mac_write8, mac_write16,
}
use ax88179_aroma_driver.Driver.Link.{reg_rx_ctl, reg_medium, reg_rx_bulkin_qctrl, when}

-- The bits 15, 14, 11 and 10 of BMCR cleared, bit 12 set, and bit 9 too on the cold path.
abbrev pub clear_bit : ℕ → ℕ → ℕ
clear_bit k v = if bit v k then v - 2 ^ k else v

abbrev pub set_bit : ℕ → ℕ → ℕ
set_bit k v = if bit v k then v else v + 2 ^ k

abbrev pub new_bmcr : Bool → ℕ → ℕ
new_bmcr warm bmcr =
    let v = set_bit 12 (clear_bit 15 (clear_bit 14 (clear_bit 11 (clear_bit 10 bmcr)))) in
    if warm then v else set_bit 9 v

-- A step whose failure is no failure of the whole.
abbrev pub attempt : {W A : Type 0} → M W A → M W (Option A)
attempt m ax w = let (o, ax', w') = m ax w in (some o, ax', w')

abbrev pub is_void : ℕ → Bool
is_void v = v == 0xffff || v == 0

abbrev pub is_warm : Option (ℕ × ℕ) → Bool
is_warm none = false
is_warm (some (bmcr, bmsr)) = not (is_void bmcr || is_void bmsr)

abbrev pub set_mac : {W : Type 0} → Bytes → M W (Unit {0})
set_mac mac ax w = (some tt, record ax { mac = mac }, w)

abbrev pub require : {W : Type 0} → Bool → M W (Unit {0})
require true = pure tt
require false = fail

-- All bytes 0, or a multicast address.
abbrev pub is_bad_mac : Bytes → Bool
is_bad_mac mac =
    get_or mac 0 0
        + get_or mac 1 0
        + get_or mac 2 0
        + get_or mac 3 0
        + get_or mac 4 0
        + get_or mac 5 0
      == 0
    || bit (get_or mac 0 0) 0

module _ {W : Type 0} (dev : Device W) where
  unfoldable pub warm_values : M W (ℕ × ℕ)
  warm_values = do bmcr ← read_phy dev 0; bmsr ← read_phy dev 1; pure (bmcr, bmsr)

  -- `warm_phy`, for the number of starts so far.
  unfoldable pub check_warm : ℕ → M W Bool
  check_warm generation =
      if generation == 0 then pure false else (attempt warm_values >>= λ v. pure (is_warm v))

  unfoldable pub reset_phy : M W (Unit {0})
  reset_phy = mac_write16 dev 0x26 0 >> mac_write16 dev 0x26 0x20

  -- From the clock to the MAC address.
  unfoldable pub start_mac : M W (Unit {0})
  start_mac = do
    mac_write8 dev 0x33 3
    clock ← reg_read dev access_mac 0x33 1
    require (get_or clock 0 0 % 4 == 3)
    mac ← reg_read dev access_mac 0x10 6
    set_mac mac
    require (not (is_bad_mac mac))

  unfoldable pub configure : M W (Unit {0})
  configure = do
    mac_write16 dev reg_rx_ctl 0
    mac_write16 dev reg_medium 0
    reg_write dev access_mac reg_rx_bulkin_qctrl 5 (7 ∷ 0x20 ∷ 3 ∷ 0x16 ∷ 0xff ∷ [])
    mac_write8 dev 0x55 0x34
    mac_write8 dev 0x54 0x52
    mac_write8 dev 0x34 0
    mac_write8 dev 0x35 0

  unfoldable pub start_phy : Bool → M W (Unit {0})
  start_phy warm = do
    phy_write dev 0x1f 0
    bmcr ← read_phy dev 0
    require (not (bmcr == 0xffff))
    phy_write dev 0 (new_bmcr warm bmcr)

  -- The registers, up to the count of starts.
  unfoldable pub bring_up : ℕ → M W (Unit {0})
  bring_up generation = do
    warm ← check_warm generation
    when (not warm) reset_phy
    start_mac
    configure
    start_phy warm
