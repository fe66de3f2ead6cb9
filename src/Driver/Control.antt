-- ===== src/Driver/Control.antt =====
-- driver/ax88179.c: register access by control transfers, `control`, `reg_read`, `reg_write`,
-- `ax88179_read_mac`, `ax88179_read_phy`, `phy_write`, `mac_write8` and `mac_write16`.
-- `UhsSubmitControlRequest` is a parameter: what the device answers to a request, over a state `W`
-- of the device. A function that returns -1 is one that fails, with the state that it leaves.
use ax88179_aroma_driver.Base.{
  ℕ, ◌+◌, ◌*◌, ◌/◌, ◌%◌, ◌^◌, Bool, true, false, ◌||◌, Option, none, some, Bytes, [], ◌∷◌, ℤ,
  eq_nat, ltb, ◌==◌, if◌then◌else◌, take, overwrite, replicate, get_or,
}

-- The fields of `struct Ax88179` that registers and link handling use.
pub record Ax : Type 0 where
  pub last_control : ℤ
  pub last_cmd : ℕ
  pub last_value : ℕ
  pub last_index : ℕ
  pub last_size : ℕ
  pub last_read : Bool
  pub medium : ℕ
  pub rx_frames : ℕ
  pub mac : Bytes

-- A control request as UHS gets it: `g_ctrl` holds `payload` in its first bytes on the way out.
pub record Request : Type 0 where
  pub read : Bool
  pub cmd : ℕ
  pub value : ℕ
  pub index : ℕ
  pub size : ℕ
  pub payload : Bytes

-- What UHS returns, and the bytes that the device wrote to `g_ctrl`.
pub record Reply : Type 0 where
  pub result : ℤ
  pub bytes : Bytes

abbrev pub Device : Type 0 → Type 0
Device W = Request → W → Reply × W

-- A step of the driver on the device: a result, unless it fails, and the states that it leaves.
abbrev pub M : Type 0 → Type 0 → Type 0
M W A = Ax → W → Option A × Ax × W

abbrev pub pure : {W A : Type 0} → A → M W A
pure a ax w = (some a, ax, w)

abbrev pub fail : {W A : Type 0} → M W A
fail ax w = (none, ax, w)

abbrev pub after : {W A B : Type 0} → Option A × Ax × W → (A → M W B) → Option B × Ax × W
after (none, ax, w) f = (none, ax, w)
after (some a, ax, w) f = f a ax w

infixl 5 ◌>>=◌ ◌>>◌
abbrev pub ◌>>=◌ : {W A B : Type 0} → M W A → (A → M W B) → M W B
◌>>=◌ m f ax w = after (m ax w) f

abbrev pub ◌>>◌ : {W B : Type 0} → M W (Unit {0}) → M W B → M W B
m >> k = m >>= λ _. k

abbrev pub ctrl_size : ℕ
ctrl_size = 64

-- The registers and commands.
abbrev pub access_mac : ℕ
access_mac = 0x01

abbrev pub access_phy : ℕ
access_phy = 0x02

abbrev pub phy_id : ℕ
phy_id = 0x03

-- What a control transfer leaves in the struct.
abbrev pub record_request : Request → ℤ → Ax → Ax
record_request q r ax = record ax {
  last_cmd = q.cmd;
  last_value = q.value;
  last_index = q.index;
  last_size = q.size;
  last_read = q.read;
  last_control = r;
}

-- The bytes that are copied out of `g_ctrl`, which was cleared before.
abbrev pub answer : ℕ → Bytes → Bytes
answer size bytes = take size (overwrite bytes (replicate ctrl_size 0))

-- What `control` makes of the answer.
unfoldable pub finish : {W : Type 0} → Request → Reply × W → Ax → Option Bytes × Ax × W
finish q (reply, w) ax = (
  if eq_nat reply.result q.size then some (answer q.size reply.bytes) else none,
  record_request q reply.result ax,
  w,
)

-- `control`; a result below 0 is no count of bytes, so one test serves for both of the source's.
unfoldable pub control : {W : Type 0} → Device W → Request → M W Bytes
unfolding finish
control dev q ax w =
    if q.size == 0 || ltb ctrl_size q.size then (none, ax, w) else finish q (dev q w) ax

-- The request of `ax88179_read_phy`.
abbrev pub phy_request : ℕ → Request
phy_request reg = record {
  read = true;
  cmd = access_phy;
  value = phy_id;
  index = reg;
  size = 2;
  payload = [];
}

module _ {W : Type 0} (dev : Device W) where
  unfoldable pub reg_write : ℕ → ℕ → ℕ → Bytes → M W (Unit {0})
  reg_write cmd reg size bytes =
      control dev (record {
        read = false;
        cmd = cmd;
        value = reg;
        index = size;
        size = size;
        payload = bytes;
      })
      >>= λ _. pure tt

  unfoldable pub reg_read : ℕ → ℕ → ℕ → M W Bytes
  reg_read cmd reg size =
      control dev
        (record { read = true; cmd = cmd; value = reg; index = size; size = size; payload = [] })

  unfoldable pub read_mac : ℕ → ℕ → M W Bytes
  read_mac reg size = reg_read access_mac reg size

  unfoldable pub read_phy : ℕ → M W ℕ
  read_phy reg = control dev (phy_request reg) >>= λ (bytes : Bytes).
      pure (get_or bytes 0 0 + get_or bytes 1 0 * 2 ^ 8)

  unfoldable pub phy_write : ℕ → ℕ → M W (Unit {0})
  phy_write reg value =
      control dev (record {
        read = false;
        cmd = access_phy;
        value = phy_id;
        index = reg;
        size = 2;
        payload = value % 256 ∷ value / 2 ^ 8 % 256 ∷ [];
      })
      >>= λ _. pure tt

  unfoldable pub mac_write8 : ℕ → ℕ → M W (Unit {0})
  mac_write8 reg value = reg_write access_mac reg 1 (value ∷ [])

  unfoldable pub mac_write16 : ℕ → ℕ → M W (Unit {0})
  mac_write16 reg value = reg_write access_mac reg 2 (value % 256 ∷ value / 2 ^ 8 % 256 ∷ [])
