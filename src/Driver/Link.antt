-- ===== src/Driver/Link.antt =====
-- driver/ax88179.c: `ax88179_link`, which reads the link from the PHY and keeps the MAC's medium
-- register in step with it. `debug_last_link` and the log lines are left out: nothing reads them.
pub mod Sync
pub mod Total
use ax88179_aroma_driver.Base.{
  ℕ, zero, suc, ◌+◌, ◌-◌, ◌*◌, ◌/◌, ◌%◌, ◌^◌, Bool, true, false, not, ◌||◌, ◌&&◌, Option, none,
  some, Bytes, List, [], ◌∷◌, ◌++◌, ◌==◌, if◌then◌else◌, get_or, bit,
}
use ax88179_aroma_driver.Driver.Control.{
  Ax, Device, M, pure, fail, after, ◌>>=◌, ◌>>◌, access_mac, control, Request, reg_write, reg_read,
  read_phy, mac_write16,
}

abbrev pub reg_rx_ctl : ℕ
reg_rx_ctl = 0x0b

abbrev pub reg_medium : ℕ
reg_medium = 0x22

abbrev pub reg_rx_bulkin_qctrl : ℕ
reg_rx_bulkin_qctrl = 0x2e

abbrev pub reg_physical_link_status : ℕ
reg_physical_link_status = 0x02

-- RX_CTL_DEFAULT: START, DROPCRCERR, IPE, AP, AB and AMALL.
abbrev pub rx_ctl_default : ℕ
rx_ctl_default = 0x0100 + 0x0200 + 0x0080 + 0x0020 + 0x0008 + 0x0002

-- What `ax88179_link` returns where it does not fail: 0, or 1 with the speed.
pub data LinkState : Type 0 where
  down : LinkState
  up : ℕ → LinkState

-- Link up, autonegotiation complete, and the PHY's own link bit.
abbrev pub has_link : ℕ → ℕ → Bool
has_link bmsr status = bit bmsr 2 && (bit bmsr 5 && bit status 10)

-- `status & 0xc000`
unfoldable pub speed_of : ℕ → ℕ
speed_of status =
    if status / 2 ^ 14 % 4 == 2 then 1000 else if status / 2 ^ 14 % 4 == 1 then 100 else 10

-- The medium register: 0x100, with full duplex 2, gigabit 9 and fast ethernet 0x200 joined.
unfoldable pub medium_of : ℕ → ℕ
unfolding speed_of
medium_of status =
    0x100
    + (if bit status 13 then 2 else 0)
    + (if speed_of status == 1000 then 9 else 0)
    + (if speed_of status == 100 then 0x200 else 0)

-- The bulk IN queue setting, by ethernet and USB speed.
unfoldable pub queue_of : ℕ → ℕ → Bytes
queue_of s usb =
    if s == 1000 && bit usb 2
    then 7 ∷ 0x4f ∷ 0 ∷ 0x12 ∷ 0xff ∷ []
    else if s == 1000 && bit usb 1
    then 7 ∷ 0x20 ∷ 3 ∷ 0x16 ∷ 0xff ∷ []
    else if s == 100 && (bit usb 1 || bit usb 2)
    then 7 ∷ 0xae ∷ 7 ∷ 0x18 ∷ 0xff ∷ []
    else 7 ∷ 0xcc ∷ 0x4c ∷ 0x18 ∷ 8 ∷ []

-- `le32`, of an answer of four bytes.
abbrev pub word32 : Bytes → ℕ
word32 b = get_or b 0 0 + get_or b 1 0 * 2 ^ 8 + get_or b 2 0 * 2 ^ 16 + get_or b 3 0 * 2 ^ 24

-- The state of the struct after a change of medium.
abbrev pub set_medium : {W : Type 0} → ℕ → M W (Unit {0})
set_medium m ax w = (some tt, record ax { medium = m; rx_frames = 0 }, w)

-- The request that reads the state of the TX FIFO.
abbrev pub fifo_request : Request
fifo_request = record { read = true; cmd = 0x81; value = 0x8c; index = 0; size = 4; payload = [] }

abbrev pub get_medium : {W : Type 0} → M W ℕ
get_medium ax w = (some ax.medium, ax, w)

abbrev pub when : {W : Type 0} → Bool → M W (Unit {0}) → M W (Unit {0})
when true m = m
when false m = pure tt

module _ {W : Type 0} (dev : Device W) where
  -- The wait for the TX FIFO, with `n` reads to go.
  unfoldable pub wait_fifo : ℕ → M W (Unit {0})
  wait_fifo zero = fail
  wait_fifo (suc n) = control dev fifo_request >>= λ (fifo : Bytes).
      let again = wait_fifo n in if bit (word32 fifo) 30 then again else pure tt

  -- The link is gone: 0 goes to the medium register, unless it is there.
  unfoldable pub lose_link : M W LinkState
  lose_link = do
    medium ← get_medium
    when (not (medium == 0)) (mac_write16 dev reg_medium 0)
    set_medium 0
    pure down

  -- The medium changes to `medium`, at the speed `s`.
  unfoldable pub change_medium : ℕ → ℕ → M W (Unit {0})
  change_medium s medium = do
    usb ← reg_read dev access_mac reg_physical_link_status 1
    mac_write16 dev reg_medium 0
    mac_write16 dev reg_rx_ctl 0
    reg_write dev access_mac reg_rx_bulkin_qctrl 5 (queue_of s (get_or usb 0 0))
    mac_write16 dev reg_rx_ctl rx_ctl_default
    wait_fifo 10
    mac_write16 dev reg_medium medium
    set_medium medium

  -- The link is there, with `status` read from the PHY.
  unfoldable pub adopt : ℕ → M W LinkState
  adopt status = do
    medium ← get_medium
    when (not (medium == medium_of status)) (change_medium (speed_of status) (medium_of status))
    pure (up (speed_of status))

  -- What the link's registers say.
  unfoldable pub decide_link : ℕ → ℕ → M W LinkState
  decide_link bmsr status =
      if bmsr == 0xffff || status == 0xffff
      then fail
      else if has_link bmsr status
      then adopt status
      else lose_link

  -- `ax88179_link`, with `ax` not null. The BMSR is read twice, since it holds a lost link until read.
  unfoldable pub link : M W LinkState
  link = do
    latched ← read_phy dev 1
    bmsr ← read_phy dev 1
    status ← read_phy dev 0x11
    decide_link bmsr status
