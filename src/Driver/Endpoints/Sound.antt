-- ===== src/Driver/Endpoints/Sound.antt =====
-- What `find_endpoints` picks from the sparse arrays.
use ax88179_aroma_driver.Base.{
  ℕ, ◌+◌, ◌^◌, ◌<◌, ◌≡◌, ◌≢◌, ◌∙◌, ◌⊎◌, Bool, true, not, ◌&&◌, List, [], ◌∷◌, arith, ◌==◌,
  if◌then◌else◌, map,
}
use ax88179_aroma_driver.Driver.Endpoints.{
  Descriptor, Endpoints, is_in, number, kind, is_packet_size, note_in, note_out, scan,
  find_endpoints,
}

-- The three kinds that the driver looks for.
abbrev pub is_bulk_in : Descriptor → Bool
is_bulk_in d = not (d.length == 0) && (is_in d && kind d == 2)

abbrev pub is_interrupt_in : Descriptor → Bool
is_interrupt_in d = not (d.length == 0) && (is_in d && kind d == 3)

abbrev pub is_bulk_out : Descriptor → Bool
is_bulk_out d = not (d.length == 0) && (not (is_in d) && kind d == 2)

-- The number of the first such endpoint whose number is not 0, or 0.
abbrev pub pick : (Descriptor → Bool) → List Descriptor → ℕ
pick p [] = 0
pick p (d ∷ ds) = if p d && not (number d == 0) then number d else pick p ds

abbrev pub ins : List (Descriptor × Descriptor) → List Descriptor
ins = map (λ p. p.0)

abbrev pub outs : List (Descriptor × Descriptor) → List Descriptor
outs = map (λ p. p.1)

abbrev or_else : ℕ → ℕ → ℕ
or_else a b = if a == 0 then b else a

step_in :
    (i o : Descriptor) (e : Endpoints) (k : ℕ)
    → or_else (note_out o (note_in i e)).ep_in k
      ≡ or_else e.ep_in (if is_bulk_in i && not (number i == 0) then number i else k)
unfolding note_in note_out
step_in i o e k = ground arith

step_irq :
    (i o : Descriptor) (e : Endpoints) (k : ℕ)
    → or_else (note_out o (note_in i e)).ep_irq k
      ≡ or_else e.ep_irq (if is_interrupt_in i && not (number i == 0) then number i else k)
unfolding note_in note_out
step_irq i o e k = ground arith

step_out :
    (i o : Descriptor) (e : Endpoints) (k : ℕ)
    → or_else (note_out o (note_in i e)).ep_out k
      ≡ or_else e.ep_out (if is_bulk_out o && not (number o == 0) then number o else k)
unfolding note_in note_out
step_out i o e k = ground arith

or_else-zero : (a : ℕ) → a ≡ or_else a 0
or_else-zero a = ground arith

scan-ep_in :
    (l : List (Descriptor × Descriptor)) (e : Endpoints)
    → (scan l e).ep_in ≡ or_else e.ep_in (pick is_bulk_in (ins l))
unfolding scan
scan-ep_in [] e = or_else-zero e.ep_in
scan-ep_in ((i, o) ∷ l) e =
    scan-ep_in l (note_out o (note_in i e)) ∙ step_in i o e (pick is_bulk_in (ins l))

scan-ep_irq :
    (l : List (Descriptor × Descriptor)) (e : Endpoints)
    → (scan l e).ep_irq ≡ or_else e.ep_irq (pick is_interrupt_in (ins l))
unfolding scan
scan-ep_irq [] e = or_else-zero e.ep_irq
scan-ep_irq ((i, o) ∷ l) e =
    scan-ep_irq l (note_out o (note_in i e)) ∙ step_irq i o e (pick is_interrupt_in (ins l))

scan-ep_out :
    (l : List (Descriptor × Descriptor)) (e : Endpoints)
    → (scan l e).ep_out ≡ or_else e.ep_out (pick is_bulk_out (outs l))
unfolding scan
scan-ep_out [] e = or_else-zero e.ep_out
scan-ep_out ((i, o) ∷ l) e =
    scan-ep_out l (note_out o (note_in i e)) ∙ step_out i o e (pick is_bulk_out (outs l))

-- `find_endpoints` sets each endpoint to the first of its kind with a number other than 0, by
-- attributes and direction and not by position, whatever the struct held before.
pub find_endpoints-eq-pick :
    (profile : List (Descriptor × Descriptor)) (e : Endpoints)
    → ((find_endpoints profile e).1.ep_in ≡ pick is_bulk_in (ins profile))
      × ((find_endpoints profile e).1.ep_out ≡ pick is_bulk_out (outs profile))
      × ((find_endpoints profile e).1.ep_irq ≡ pick is_interrupt_in (ins profile))
unfolding find_endpoints
find_endpoints-eq-pick profile e =
    let e0 : Endpoints = record e { ep_in = 0; ep_out = 0; ep_irq = 0 } in
    (scan-ep_in profile e0, scan-ep_out profile e0, scan-ep_irq profile e0)

-- What the fields have in common, once an endpoint is found.
record IsConsistent (e : Endpoints) : Type 0 where
  pub in_mask : e.ep_in ≢ 0 → (e.ep_in < 16) × (e.ep_in_mask ≡ 2 ^ (16 + e.ep_in))
  pub out_mask : e.ep_out ≢ 0 → (e.ep_out < 16) × (e.ep_out_mask ≡ 2 ^ e.ep_out)
  pub size : (e.tx_maxpacket ≡ 0) ⊎ (is_packet_size e.tx_maxpacket ≡ true)

note_in-IsConsistent :
    (d : Descriptor) (e : Endpoints) → IsConsistent e → IsConsistent (note_in d e)
unfolding note_in
note_in-IsConsistent d e c = ground arith

note_out-IsConsistent :
    (d : Descriptor) (e : Endpoints) → IsConsistent e → IsConsistent (note_out d e)
unfolding note_out
note_out-IsConsistent d e c = ground arith

scan-IsConsistent :
    (l : List (Descriptor × Descriptor)) (e : Endpoints) → IsConsistent e → IsConsistent (scan l e)
unfolding scan
scan-IsConsistent [] e c = c
scan-IsConsistent ((i, o) ∷ l) e c =
    scan-IsConsistent l (note_out o (note_in i e))
      (note_out-IsConsistent o (note_in i e) (note_in-IsConsistent i e c))

-- When `find_endpoints` returns 0 on a cleared struct, both bulk endpoints have numbers from 1 to
-- 15, their UHS masks are the bit of an OUT endpoint in the low half and of an IN endpoint in the
-- high half, and the packet size is one of 64, 512 and 1024, so that `ax88179_send` never divides
-- by 0.
pub find_endpoints_masks :
    (profile : List (Descriptor × Descriptor)) (e : Endpoints)
    → e.tx_maxpacket ≡ 0
    → (find_endpoints profile e).0 ≡ true
    → let found = (find_endpoints profile e).1 in
      (0 < found.ep_in)
      × (found.ep_in < 16)
      × (found.ep_in_mask ≡ 2 ^ (16 + found.ep_in))
      × (0 < found.ep_out)
      × (found.ep_out < 16)
      × (found.ep_out_mask ≡ 2 ^ found.ep_out)
      × ((found.tx_maxpacket ≡ 64) ⊎ (found.tx_maxpacket ≡ 512) ⊎ (found.tx_maxpacket ≡ 1024))
unfolding find_endpoints
find_endpoints_masks profile e cleared h =
    let e0 : Endpoints = record e { ep_in = 0; ep_out = 0; ep_irq = 0 } in
    let c0 : IsConsistent e0 = ground arith in ground (arith, scan-IsConsistent profile e0 c0)
