-- ===== src/PtrDns/Codec/RoundTrip.antt =====
-- Encoding a name and reading it again.
use ax88179_aroma_driver.Base.{
  ℕ, ◌+◌, ◌≤◌, ◌<◌, ◌≡◌, refl, ap, ◌∙◌, false, Bytes, List, [], ◌∷◌, ◌++◌, arith, length,
  length-append, ◌==◌,
}
use ax88179_aroma_driver.Base.Outcome.{ok}
use ax88179_aroma_driver.PtrDns.Codec.{encode_name, skip_name, decode_name}
use ax88179_aroma_driver.PtrDns.Codec.Wire.{IsLabel, Labels, dotted, wire, cut, length-wire}
use ax88179_aroma_driver.PtrDns.Codec.Encoder.{encode_name-at}
use ax88179_aroma_driver.PtrDns.Codec.Decoder.{decode_labels-wire, skip_labels-wire}

-- What encoding the name at `offset` of a packet leads to.
abbrev pub ReadsBack : ℕ → ℕ → ℕ → Bytes → List Bytes → ℕ → Bytes → Type 0
ReadsBack capacity packet_len out_len l ls offset packet =
    (p : Bytes) × (encode_name capacity packet offset (dotted l ls)
      ≡ ok (p, offset + length (dotted l ls) + 2))
    × (skip_name p packet_len offset ≡ ok (offset + length (dotted l ls) + 2))
    × (decode_name p packet_len offset out_len ≡ ok (dotted l ls))

module _ (capacity packet_len out_len : ℕ) (l : Bytes) (ls : List Bytes) (il : IsLabel l)
    (ils : Labels ls) (few : length ls < 127) (room : length (dotted l ls) < out_len) where
  ReadsBack-at :
      (pre old post : Bytes)
      → length old ≡ length (wire (l ∷ ls)) + 1
      → length pre + length (dotted l ls) + 2 ≤ capacity
      → length pre + length (dotted l ls) + 2 ≤ packet_len
      → ReadsBack capacity packet_len out_len l ls (length pre) (pre ++ (old ++ post))
  unfolding skip_name decode_name
  ReadsBack-at pre old post size fits here =
      let n = length-wire l ls in
      let inside : (out_len == 0) ≡ false = ground arith in
      (
        pre ++ (wire (l ∷ ls) ++ (0 ∷ post)),
        encode_name-at capacity pre old post l ls size il ils (omega (arith, n))
            ∙ ap (λ e. ok (pre ++ (wire (l ∷ ls) ++ (0 ∷ post)), e)) (omega (arith, n)),
        skip_labels-wire 128 pre post (l ∷ ls) packet_len refl (il, ils) (omega arith)
              (omega (arith, n))
            ∙ ap ok (omega (arith, n)),
        rw inside (
            decode_labels-wire 128 pre l post ls packet_len out_len 0 [] refl il ils (omega arith)
              (omega (arith, n)) (omega arith)),
      )

  ReadsBack-cut :
      (offset : ℕ) (packet pre tail old post : Bytes)
      → packet ≡ pre ++ tail
      → length pre ≡ offset
      → tail ≡ old ++ post
      → length old ≡ length (wire (l ∷ ls)) + 1
      → offset + length (dotted l ls) + 2 ≤ capacity
      → offset + length (dotted l ls) + 2 ≤ packet_len
      → ReadsBack capacity packet_len out_len l ls offset packet
  ReadsBack-cut offset packet pre tail old post split at_pre split' size fits here =
      rw (split, split', ← at_pre) (ReadsBack-at pre old post size (omega arith) (omega arith))

  -- A name of at most 127 labels of 1 to 63 bytes, none holding a dot, with room for it in a packet:
  -- `ptr_dns_encode_name` accepts it and moves the offset past its length and two bytes; from there
  -- `ptr_dns_skip_name` finds that same end, and `ptr_dns_decode_name` gives back the name, into any
  -- output that has room for it and the byte 0.
  pub encode_name-ReadsBack :
      (offset : ℕ) (packet : Bytes)
      → offset + length (dotted l ls) + 2 ≤ capacity
      → capacity ≤ length packet
      → offset + length (dotted l ls) + 2 ≤ packet_len
      → ReadsBack capacity packet_len out_len l ls offset packet
  encode_name-ReadsBack offset packet fits h here =
      let (pre, tail, split, at_pre) = cut offset packet (omega arith) in
      let (old, post, split', size) =
        cut (length (wire (l ∷ ls)) + 1) tail
          (omega (arith, ap length split, length-append pre tail, length-wire l ls)) in
      ReadsBack-cut offset packet pre tail old post split at_pre split' size fits here
