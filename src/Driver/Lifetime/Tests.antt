-- ===== src/Driver/Lifetime/Tests.antt =====
-- The lifetime of an adapter at concrete inputs.
use ax88179_aroma_driver.Base.{
  overwrite, ℕ, ◌≡◌, refl, true, false, none, [], ◌∷◌, pos, ◌==◌, if◌then◌else◌,
}
use ax88179_aroma_driver.Driver.Control.{
  Ax, Device, mac_write16, mac_write8, reg_write, reg_read, read_phy, phy_write, control,
}
use ax88179_aroma_driver.Driver.Endpoints.{Descriptor, find_endpoints}
use ax88179_aroma_driver.Driver.Lifetime.{
  Module, Answers, open_adapter, with_client, after_bring_up, enable_in, enable_out, start_rx,
}
use ax88179_aroma_driver.Driver.BringUp.{
  bring_up, check_warm, reset_phy, start_mac, configure, start_phy,
}
use ax88179_aroma_driver.Driver.Lifetime.Balanced.{IsSettled, open_adapter-IsSettled}
use ax88179_aroma_driver.Driver.Lifetime.Single.{in_use, is_some, here, next, opens, Reach-IsSingle}

-- An adapter with a running clock and the address 2:0:0:0:0:0.
abbrev adapter : Device ℕ
adapter q w = (
  record {
    result = pos q.size;
    bytes = if q.value == 0x10 then 2 ∷ 0 ∷ 0 ∷ 0 ∷ 0 ∷ 0 ∷ [] else 3 ∷ 0 ∷ [];
  },
  w,
)

abbrev unused : Descriptor
unused = record { length = 0; address = 0; attributes = 0; max_packet = 0 }

abbrev answers : Answers
answers = record {
  allocated = true;
  client = pos 0;
  found = pos 1;
  profile =
      (
        record { length = 7; address = 0x82; attributes = 2; max_packet = 2 },
        record { length = 7; address = 0x03; attributes = 2; max_packet = 2 },
      )
      ∷ [];
  acquire = pos 0;
  enable_in = pos 0;
  enable_out = pos 0;
}

abbrev empty_ax : Ax
empty_ax = record {
  last_control = pos 0;
  last_cmd = 0;
  last_value = 0;
  last_index = 0;
  last_size = 0;
  last_read = false;
  medium = 0;
  rx_frames = 0;
  mac = [];
}

abbrev unopened : Module
unopened = record { is_open = false; generation = 0 }

open_adapter-IsSettled_example :
    IsSettled unopened (open_adapter adapter answers unopened empty_ax 0)
open_adapter-IsSettled_example = open_adapter-IsSettled adapter answers unopened empty_ax 0

Reach-IsSingle_example :
    (open_adapter adapter answers unopened empty_ax 0).left.is_open
    ≡ is_some (in_use none (open_adapter adapter answers unopened empty_ax 0).result)
Reach-IsSingle_example = Reach-IsSingle adapter (next here (opens answers empty_ax 0 none)) refl

-- The adapter is opened, with both bulk endpoints.
open_runs : is_some (open_adapter adapter answers unopened empty_ax 0).result ≡ true
unfolding open_adapter with_client find_endpoints after_bring_up bring_up check_warm reset_phy
    mac_write16 reg_write control start_mac mac_write8 reg_read overwrite configure start_phy
    enable_in enable_out start_rx phy_write read_phy
open_runs = refl
