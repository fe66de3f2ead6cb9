-- ===== src/Driver/Tests.antt =====
-- Runs of the driver at concrete inputs, and the theorems at inputs that meet their hypotheses.
use ax88179_aroma_driver.Base.{
  ℕ, ◌+◌, ◌*◌, ◌^◌, ◌≡◌, refl, ◌∙◌, Bool, true, false, Option, none, some, Bytes, List, [], ◌∷◌,
  ◌++◌, arith, ◌==◌, if◌then◌else◌, get_or, ◌>>=◌ as bind, pos, negsuc, length, replicate,
  length-replicate, overwrite, length-overwrite,
}
use ax88179_aroma_driver.Driver.Rx.{
  Rx, load_aggregate, loaded, frame, nothing, receive_buffered, round, receive_loop, rx_buffer_size,
}
use ax88179_aroma_driver.Driver.Rx.Bounds.{InBounds, Delivered, receive_buffered-Delivered}
use ax88179_aroma_driver.Driver.Ring.{
  Ring, take_loaded, submit_slot, Slot, Taken, slot_at, idle, pending, done, Uhs, receive,
  take_completed, take_failed, take_copied,
}
use ax88179_aroma_driver.Driver.Ring.Safety.{IsValid, Safe, receive-Safe}
use ax88179_aroma_driver.Driver.Ring.Stall.{IsStalled, receive-IsStalled}
use ax88179_aroma_driver.Driver.Tx.{tx_buffer}
use ax88179_aroma_driver.Driver.Tx.Layout.{unframe, unframe-tx_buffer}
use ax88179_aroma_driver.Driver.Control.{Ax, Device, access_phy}
use ax88179_aroma_driver.Driver.Link.{up, link, speed_of}
use ax88179_aroma_driver.Driver.Link.Sync.{HasMedium, is_medium_write, Ends, InSync, link-InSync}
use ax88179_aroma_driver.Driver.Link.Total.{IsAnswering, Gives, reported, IsReport, link-reported}
use ax88179_aroma_driver.Driver.Endpoints.{Descriptor, Endpoints, find_endpoints}
use ax88179_aroma_driver.Driver.Endpoints.Sound.{find_endpoints-eq-pick}

-- A bulk transfer with one frame of 14 bytes: two bytes of alignment, the frame, the FCS, padding,
-- one descriptor, the trailer.
abbrev ping : Bytes
ping = 1 ∷ 2 ∷ 3 ∷ 4 ∷ 5 ∷ 6 ∷ 7 ∷ 8 ∷ 9 ∷ 10 ∷ 11 ∷ 12 ∷ 8 ∷ 0 ∷ []

abbrev transfer : Bytes
transfer =
    (0 ∷ 0 ∷ ping) ++ (170 ∷ 170 ∷ 170 ∷ 170 ∷ 0 ∷ 0 ∷ 0 ∷ 0 ∷ 0 ∷ 0 ∷ 20 ∷ 0 ∷ 1 ∷ 0 ∷ 24 ∷ 0 ∷ [])

abbrev no_rx : Rx
no_rx = record { rx_len = 0; rx_frames = 0; rx_next = 0; rx_hdr_offset = 0; rx_pos = 0 }

abbrev one_rx : Rx
one_rx = record { rx_len = 32; rx_frames = 1; rx_next = 0; rx_hdr_offset = 24; rx_pos = 0 }

load_runs : load_aggregate transfer no_rx 32 ≡ some (loaded, one_rx)
unfolding load_aggregate
load_runs = refl

receive_runs :
    receive_buffered transfer 1600 one_rx
    ≡ some (frame ping, record one_rx { rx_next = 1; rx_pos = 24 })
unfolding receive_buffered receive_loop round
receive_runs = refl

one_rx-InBounds : InBounds transfer one_rx
one_rx-InBounds = omega arith

receive_buffered-Delivered_example : Delivered transfer 1600 (receive_buffered transfer 1600 one_rx)
receive_buffered-Delivered_example =
    receive_buffered-Delivered transfer 1600 one_rx (omega arith) one_rx-InBounds

blank : Bytes
blank = replicate 26624 0

length-blank : length blank ≡ rx_buffer_size
unfolding blank
length-blank = length-replicate {A = ℕ} 26624 0

length-written : length (overwrite transfer blank) ≡ rx_buffer_size
length-written = length-overwrite transfer blank ∙ length-blank

abbrev waiting : Slot
waiting = record { state = pending; ret = pos 0; actual = 0; buffer = blank }

abbrev filled : Slot
filled = record { state = done; ret = pos 32; actual = 32; buffer = overwrite transfer blank }

-- The ring with its first transfer complete.
abbrev ring : Ring
ring = record {
  slot0 = filled;
  slot1 = waiting;
  slot2 = waiting;
  rx_consume = 0;
  started = true;
  last_bulk = pos 0;
  rx = no_rx;
  g_rx = blank;
  medium = 0x10b;
}

abbrev accepting : Uhs
accepting = record { starts = λ _. pos 0; first = pos 0; second = pos 0; wait = [] }

ring-IsValid : IsValid ring
ring-IsValid = record {
  consume_in = omega arith;
  snapshot = length-blank;
  buffer0 = length-written;
  buffer1 = length-blank;
  buffer2 = length-blank;
  len_in = omega arith;
  descriptors = omega arith;
}

receive-Safe_example : Safe 1600 (receive accepting 5000 1600 ring)
receive-Safe_example = receive-Safe accepting 5000 1600 (omega arith) ring ring-IsValid

-- A ring whose first slot could not be armed again, when its turn comes.
abbrev stalled : Ring
stalled = record ring { slot0 = record waiting { state = idle } }

stalled-IsStalled : IsStalled stalled
stalled-IsStalled = ground arith

-- All three transfers complete once more, and nothing is delivered.
abbrev busy : Uhs
busy = record accepting {
  wait =
      record { slot = 1; ret = pos 32; actual = 32; bytes = transfer }
      ∷ record { slot = 2; ret = pos 32; actual = 32; bytes = transfer }
      ∷ [];
}

receive-IsStalled_example :
    (r : Ring) × (receive busy 5000 1600 stalled ≡ some (nothing, r)) × IsStalled r
receive-IsStalled_example = receive-IsStalled busy 5000 1600 stalled (omega arith) stalled-IsStalled

-- A ring as it works gets into that state by one refusal of UHS: the slot is read, and not armed.
abbrev refusing : Uhs
refusing = record accepting { first = negsuc 4 }

-- The three slots complete in turn; the first of them is not armed again.
after_refusal : Option (Taken × Ring)
unfolding take_completed take_failed take_copied
after_refusal =
    let full : Ring = record ring { slot1 = filled; slot2 = filled } in
    bind (take_completed (negsuc 4) full) λ (p : Taken × Ring).
      bind (take_completed (pos 0) p.1) λ (q : Taken × Ring). take_completed (pos 0) q.1

-- Its turn comes again, and it is idle.
stalls : Option (Taken × Ring) → Bool
stalls none = false
stalls (some (t, r)) = elim (slot_at r r.rx_consume).state [ idle ↦ r.rx_consume == 0 | _ ↦ false ]

stall_is_reached : stalls after_refusal ≡ true
unfolding stalls after_refusal blank take_loaded load_aggregate submit_slot overwrite
stall_is_reached = refl

unframe-tx_buffer_example : unframe (tx_buffer 512 ping) ≡ some (ping ++ replicate 46 0)
unframe-tx_buffer_example = unframe-tx_buffer 512 ping (omega arith)

-- The interface of the adapter: an interrupt endpoint 1, bulk IN 2 and bulk OUT 3.
abbrev absent : Descriptor
absent = record { length = 0; address = 0; attributes = 0; max_packet = 0 }

abbrev profile : List (Descriptor × Descriptor)
profile =
    (absent, absent)
    ∷ (record { length = 7; address = 0x81; attributes = 3; max_packet = 8 }, absent)
    ∷ (record { length = 7; address = 0x82; attributes = 2; max_packet = 512 }, absent)
    ∷ (absent, record { length = 7; address = 0x03; attributes = 2; max_packet = 2 })
    ∷ []

abbrev cleared : Endpoints
cleared = record {
  ep_in = 0;
  ep_out = 0;
  ep_irq = 0;
  ep_in_mask = 0;
  ep_out_mask = 0;
  tx_maxpacket = 0;
}

find_endpoints-eq-pick_example :
    ((find_endpoints profile cleared).1.ep_in ≡ 2)
    × ((find_endpoints profile cleared).1.ep_out ≡ 3)
    × ((find_endpoints profile cleared).1.ep_irq ≡ 1)
find_endpoints-eq-pick_example = find_endpoints-eq-pick profile cleared

find_endpoints_runs : (find_endpoints profile cleared).0 ≡ true
unfolding find_endpoints
find_endpoints_runs = refl

-- An adapter with a medium register: it takes every request, and its PHY reads a gigabit link.
abbrev phy_bytes : ℕ → Bytes
phy_bytes index = if index == 1 then 0x24 ∷ 0 ∷ [] else 0 ∷ 0xa4 ∷ []

abbrev adapter : Device ℕ
adapter q w = (
  record {
    result = pos q.size;
    bytes = if q.cmd == access_phy then phy_bytes q.index else 0 ∷ 0 ∷ 0 ∷ 0 ∷ [];
  },
  if is_medium_write q then get_or q.payload 0 0 + get_or q.payload 1 0 * 2 ^ 8 else w,
)

adapter-HasMedium : HasMedium ℕ adapter (λ w. w)
adapter-HasMedium = record { sets = λ q w e f. ground arith; keeps = λ q w e. ground arith }

abbrev fresh : Ax
fresh = record {
  last_control = pos 0;
  last_cmd = 0;
  last_value = 0;
  last_index = 0;
  last_size = 0;
  last_read = false;
  medium = 0;
  rx_frames = 0;
  mac = [];
}

link-InSync_example : Ends (InSync (λ w. w)) (link adapter fresh 0)
link-InSync_example = link-InSync adapter (λ w. w) adapter-HasMedium fresh 0 refl

adapter-IsAnswering : IsAnswering ℕ adapter 0x24 0xa400
unfolding overwrite
adapter-IsAnswering = record {
  takes = λ q w. ground arith;
  reads_bmsr = λ w. refl;
  reads_status = λ w. refl;
  ready = λ w. refl;
}

link-reported_example : Gives (IsReport 0x24 0xa400) (link adapter fresh 0)
link-reported_example =
    link-reported adapter 0x24 0xa400 adapter-IsAnswering fresh 0 (omega arith) (omega arith)

reported_gigabit : reported 0x24 0xa400 ≡ up 1000
unfolding speed_of
reported_gigabit = refl
