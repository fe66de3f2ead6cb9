-- ===== src/Driver/Lifetime.antt =====
-- driver/ax88179.c: `ax88179_open`, `ax88179_close` and `ax88179_abandon_title`. What UHS answers is
-- an argument, and the calls that take and give back its resources are a list; the registers are
-- those of Driver/BringUp. The messages in `why` and `rx_async_started` are left out.
pub mod Balanced
pub mod Single
mod Tests
use ax88179_aroma_driver.Base.{
  ℕ, suc, ◌+◌, ◌-◌, ◌*◌, ◌/◌, ◌%◌, ◌^◌, Bool, true, false, not, ◌||◌, Option, none, some, Bytes,
  List, [], ◌∷◌, ◌++◌, ℤ, pos, negsuc, is_neg, ◌==◌, if◌then◌else◌, get_or, bit, replicate,
}
use ax88179_aroma_driver.Driver.Control.{
  Ax, Device, M, pure, fail, ◌>>=◌, ◌>>◌, access_mac, reg_write, reg_read, read_phy, phy_write,
  mac_write8, mac_write16,
}
use ax88179_aroma_driver.Driver.Link.{
  reg_rx_ctl, reg_medium, reg_rx_bulkin_qctrl, rx_ctl_default, when,
}
use ax88179_aroma_driver.Driver.BringUp.{bring_up}
use ax88179_aroma_driver.Driver.Endpoints.{Descriptor, Endpoints, find_endpoints}

-- `g_open` and `phy_init_generation`.
pub record Module : Type 0 where
  pub is_open : Bool
  pub generation : ℕ

-- What is asked of UHS, and given back.
pub data Event : Type 0 where
  client_opened : Event
  client_closed : Event
  acquired : Event
  released : Event
  enabled : ℕ → Event
  cancelled : ℕ → Event
  disabled : ℕ → Event

-- What `calloc` and UHS answer; `found` is the number of interfaces, `profile` the first one's.
pub record Answers : Type 0 where
  pub allocated : Bool
  pub client : ℤ
  pub found : ℤ
  pub profile : List (Descriptor × Descriptor)
  pub acquire : ℤ
  pub enable_in : ℤ
  pub enable_out : ℤ

-- The struct that is returned, as far as `ax88179_close` reads it.
pub record Opened : Type 0 where
  pub eps : Endpoints
  pub enabled_eps : ℕ

-- The end of an operation: what it returns, its calls, and the states that it leaves.
pub record Done (W : Type 0) : Type 0 where
  pub result : Option Opened
  pub log : List Event
  pub left : Module
  pub ax : Ax
  pub device : W

-- `found <= 0`
abbrev pub none_found : ℤ → Bool
none_found (pos n) = n == 0
none_found (negsuc n) = true

-- `ax88179_close`, with `ax` not null: its calls of UHS.
unfoldable pub close_log : Opened → List Event
close_log o =
    (if o.eps.ep_in_mask == 0 then [] else cancelled o.eps.ep_in_mask ∷ [])
    ++ ((if o.enabled_eps == 0 then [] else disabled o.enabled_eps ∷ [])
        ++ (released ∷ client_closed ∷ []))

abbrev pub shut : Module → Module
shut m = record m { is_open = false }

abbrev pub no_endpoints : Endpoints
no_endpoints = record {
  ep_in = 0;
  ep_out = 0;
  ep_irq = 0;
  ep_in_mask = 0;
  ep_out_mask = 0;
  tx_maxpacket = 0;
}

module _ {W : Type 0} (dev : Device W) where
  -- `ax88179_close` after the calls in `log`; the result of its register write is not looked at.
  unfoldable pub close_adapter : List Event → Opened → Module → Ax → W → Done W
  close_adapter log o m ax w =
      let (r, ax', w') = mac_write16 dev reg_rx_ctl 0 ax w in
      record { result = none; log = log ++ close_log o; left = shut m; ax = ax'; device = w' }

  -- The last register write.
  unfoldable pub start_rx : List Event → Opened → Module → Option (Unit {0}) × Ax × W → Done W
  start_rx log o m (none, ax, w) = close_adapter log o m ax w
  start_rx log o m (some u, ax, w) = record {
    result = some o;
    log = log;
    left = m;
    ax = ax;
    device = w;
  }

  -- Both bulk endpoints. The masks share no bit, so that `|=` is a sum.
  unfoldable pub enable_out : Answers → List Event → Endpoints → Module → Ax → W → Done W
  enable_out a log eps m ax w =
      if is_neg a.enable_out
      then close_adapter log (record { eps = eps; enabled_eps = eps.ep_in_mask }) m ax w
      else start_rx (log ++ (enabled eps.ep_out_mask ∷ []))
          (record { eps = eps; enabled_eps = eps.ep_in_mask + eps.ep_out_mask }) m
          (mac_write16 dev reg_rx_ctl rx_ctl_default ax w)

  unfoldable pub enable_in : Answers → List Event → Endpoints → Module → Ax → W → Done W
  enable_in a log eps m ax w =
      if is_neg a.enable_in
      then close_adapter log (record { eps = eps; enabled_eps = 0 }) m ax w
      else enable_out a (log ++ (enabled eps.ep_in_mask ∷ [])) eps m ax w

  -- Behind `bring_up`.
  unfoldable pub after_bring_up : Answers → Endpoints → Module → Option (Unit {0}) × Ax × W → Done W
  after_bring_up a eps m (none, ax, w) =
      close_adapter (client_opened ∷ acquired ∷ []) (record { eps = eps; enabled_eps = 0 }) m ax w
  after_bring_up a eps m (some u, ax, w) =
      enable_in a (client_opened ∷ acquired ∷ []) eps
        (record m { generation = (m.generation + 1) % 2 ^ 32 }) ax w

  -- With the client open: the interface and its endpoints.
  unfoldable pub with_client : Answers → Module → Ax → W → Bool × Endpoints → Done W
  with_client a m ax w (fits, eps) =
      if none_found a.found || (not fits || is_neg a.acquire)
      then record {
        result = none;
        log = client_opened ∷ client_closed ∷ [];
        left = m;
        ax = ax;
        device = w;
      }
      else after_bring_up a eps (record m { is_open = true }) (bring_up dev m.generation ax w)

  -- `ax88179_open`; `ax` is the struct as `calloc` makes it.
  unfoldable pub open_adapter : Answers → Module → Ax → W → Done W
  open_adapter a m ax w =
      if m.is_open || (not a.allocated || is_neg a.client)
      then record { result = none; log = []; left = m; ax = ax; device = w }
      else with_client a m ax w (find_endpoints a.profile no_endpoints)

-- `ax88179_abandon_title`: no call of UHS.
abbrev pub abandon : Module → Module
abandon m = shut m
