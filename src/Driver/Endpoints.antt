-- ===== src/Driver/Endpoints.antt =====
-- driver/ax88179.c: `find_endpoints`, which sorts the endpoints of the interface's two sparse arrays
-- by what they are.
pub mod Sound
use ax88179_aroma_driver.Base.{
  ℕ, zero, suc, ◌+◌, ◌-◌, ◌*◌, ◌/◌, ◌%◌, ◌^◌, Bool, true, false, not, ◌||◌, ◌&&◌, Option, none,
  some, List, [], ◌∷◌, ◌++◌, length, ltb, ◌==◌, if◌then◌else◌, bit,
}

-- `UhsEndpointDescriptor`, the fields that are read.
pub record Descriptor : Type 0 where
  pub length : ℕ
  pub address : ℕ
  pub attributes : ℕ
  pub max_packet : ℕ

-- The fields of `struct Ax88179` that `find_endpoints` sets; 0 stands for an endpoint not found.
pub record Endpoints : Type 0 where
  pub ep_in : ℕ
  pub ep_out : ℕ
  pub ep_irq : ℕ
  pub ep_in_mask : ℕ
  pub ep_out_mask : ℕ
  pub tx_maxpacket : ℕ

-- `bEndpointAddress & 0x80`, `bEndpointAddress & 0x0F` and `bmAttributes & 0x03`.
abbrev pub is_in : Descriptor → Bool
is_in d = bit d.address 7

abbrev pub number : Descriptor → ℕ
number d = d.address % 16

abbrev pub kind : Descriptor → ℕ
kind d = d.attributes % 4

abbrev pub is_packet_size : ℕ → Bool
is_packet_size n = n == 64 || (n == 512 || n == 1024)

-- `(uint16_t)((mps >> 8) | (mps << 8))`
abbrev pub swap16 : ℕ → ℕ
swap16 n = n / 2 ^ 8 + n * 2 ^ 8 % 2 ^ 16

-- `wMaxPacketSize` in either byte order.
abbrev pub native_order : ℕ → ℕ
native_order n = if is_packet_size n then n else swap16 n

-- The first half of the loop's body, on `in_endpoints[i]`.
unfoldable pub note_in : Descriptor → Endpoints → Endpoints
note_in d e =
    if not (d.length == 0) && is_in d
    then if kind d == 2 && e.ep_in == 0
      then record e { ep_in = number d; ep_in_mask = 2 ^ (16 + number d) }
      else if kind d == 3 && e.ep_irq == 0
      then record e { ep_irq = number d }
      else e
    else e

-- The second half, on `out_endpoints[i]`.
unfoldable pub note_out : Descriptor → Endpoints → Endpoints
note_out d e =
    if not (d.length == 0) && not (is_in d)
    then if kind d == 2 && e.ep_out == 0
      then record e {
        ep_out = number d;
        ep_out_mask = 2 ^ number d;
        tx_maxpacket =
            if is_packet_size (native_order d.max_packet)
            then native_order d.max_packet
            else e.tx_maxpacket;
      }
      else e
    else e

-- The loop over both arrays, 16 entries each.
unfoldable pub scan : List (Descriptor × Descriptor) → Endpoints → Endpoints
unfolding note_in note_out
scan [] e = e
scan ((i, o) ∷ rest) e = scan rest (note_out o (note_in i e))

-- `find_endpoints`: the Boolean is whether it returns 0.
unfoldable pub find_endpoints : List (Descriptor × Descriptor) → Endpoints → Bool × Endpoints
unfolding scan
find_endpoints profile e =
    let found = scan profile (record e { ep_in = 0; ep_out = 0; ep_irq = 0 }) in
    (not (found.ep_in == 0) && (not (found.ep_out == 0) && not (found.tx_maxpacket == 0)), found)
