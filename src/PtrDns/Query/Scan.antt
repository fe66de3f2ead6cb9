-- ===== src/PtrDns/Query/Scan.antt =====
-- What `ptr_dns_query_server` makes of the parts of a well-formed response.
use ax88179_aroma_driver.Base.{
  ℕ, suc, ◌+◌, ◌*◌, ◌/◌, ◌%◌, ◌^◌, ◌≤◌, ◌<◌, ◌≡◌, ap, false, not, Bytes, List, [], ◌∷◌, ◌++◌, arith,
  length, length-append, ltb, leb, ◌==◌,
}
use mathlib.Core.List.{append_assoc}
use ax88179_aroma_driver.Base.Outcome.{ok}
use ax88179_aroma_driver.PtrDns.Codec.{get16, skip_labels, skip_name, decode_name}
use ax88179_aroma_driver.PtrDns.Codec.Wire.{IsLabel, Labels, dotted, wire, read-at, next_at}
use ax88179_aroma_driver.PtrDns.Codec.Decoder.{decode_labels-wire, skip_labels-wire}
use ax88179_aroma_driver.PtrDns.Query.{
  skip_questions, record_header, take_record, scan_answers, bad_flags, parse_response,
}

module _ (pre : Bytes) {pos : ℕ} (at_end : pos ≡ length pre) where
  get16-at : (hi lo : ℕ) (post : Bytes) → get16 (pre ++ (hi ∷ lo ∷ post)) pos ≡ ok (hi * 2 ^ 8 + lo)
  unfolding get16
  get16-at hi lo post = rw (
    read-at pre at_end hi (lo ∷ post),
    ← append_assoc pre (hi ∷ []) (lo ∷ post),
    read-at (pre ++ (hi ∷ [])) (next_at pre hi at_end) lo post,
  )

  skip_labels-pointer :
      (n x : ℕ) (post : Bytes) (packet_len : ℕ)
      → pos + 1 < packet_len
      → skip_labels (suc n) (pre ++ (0xc0 ∷ x ∷ post)) packet_len pos ≡ ok (pos + 2)
  unfolding skip_labels
  skip_labels-pointer n x post packet_len h =
      rw (outside, read-at pre at_end 0xc0 (x ∷ post), outside')
    where
      outside : leb packet_len pos ≡ false
      outside = ground arith

      outside' : leb packet_len (pos + 1) ≡ false
      outside' = ground arith

pub get16-past :
    (pre chunk : Bytes) (hi lo : ℕ) (post : Bytes) {pos : ℕ}
    → pos ≡ length pre + length chunk
    → get16 (pre ++ (chunk ++ (hi ∷ lo ∷ post))) pos ≡ ok (hi * 2 ^ 8 + lo)
get16-past pre chunk hi lo post e =
    rw (← append_assoc pre chunk (hi ∷ lo ∷ post))
      (get16-at (pre ++ chunk) (omega (arith, length-append pre chunk)) hi lo post)

-- A record of type PTR and class IN: a pointer for its name, its time to live, its length, its data.
abbrev pub ptr_record : ℕ → ℕ → ℕ → ℕ → ℕ → ℕ → Bytes → Bytes
ptr_record pointer t0 t1 t2 t3 size rdata =
    0xc0 ∷ pointer ∷ 0 ∷ 12 ∷ 0 ∷ 1 ∷ t0 ∷ t1 ∷ t2 ∷ t3 ∷ size / 2 ^ 8 ∷ size % 2 ^ 8 ∷ rdata

module _ (pointer t0 t1 t2 t3 : ℕ) where
  record_header-ptr :
      (pre post : Bytes) (size : ℕ) {pos : ℕ}
      → pos ≡ length pre + 2
      → record_header (pre ++ ptr_record pointer t0 t1 t2 t3 size post) pos ≡ ok (12, 1, size)
  unfolding record_header
  record_header-ptr pre post size {pos} e =
      rw
        (
          get16-past pre (0xc0 ∷ pointer ∷ []) 0 12
              (0 ∷ 1 ∷ t0 ∷ t1 ∷ t2 ∷ t3 ∷ size / 2 ^ 8 ∷ size % 2 ^ 8 ∷ post) {pos = pos}
              (omega arith),
          get16-past pre (0xc0 ∷ pointer ∷ 0 ∷ 12 ∷ []) 0 1
              (t0 ∷ t1 ∷ t2 ∷ t3 ∷ size / 2 ^ 8 ∷ size % 2 ^ 8 ∷ post) {pos = pos + 2}
              (omega arith),
          get16-past pre (0xc0 ∷ pointer ∷ 0 ∷ 12 ∷ 0 ∷ 1 ∷ t0 ∷ t1 ∷ t2 ∷ t3 ∷ []) (size / 2 ^ 8)
              (size % 2 ^ 8) post {pos = pos + 8} (omega arith),
        )
        (ap (λ n. ok (12, 1, n)) (omega arith))

  module _ (result_len : ℕ) (m : Bytes) (ms : List Bytes) (im : IsLabel m) (ims : Labels ms)
      (few : length ms < 127) (room : length (dotted m ms) < result_len) where
    -- What `ptr_dns_query_server` does with the record once its name is skipped.
    decode_name-ptr :
        (pre post : Bytes) (size packet_len : ℕ) {pos : ℕ}
        → pos ≡ length pre + 12
        → pos + length (wire (m ∷ ms)) < packet_len
        → decode_name
            (pre ++ ptr_record pointer t0 t1 t2 t3 size (wire (m ∷ ms) ++ (0 ∷ post)))
            packet_len
            pos
            result_len
          ≡ ok (dotted m ms)
    unfolding decode_name
    decode_name-ptr pre post size packet_len {pos} e here =
        let chunk : Bytes =
          0xc0 ∷ pointer ∷ 0 ∷ 12 ∷ 0 ∷ 1 ∷ t0 ∷ t1 ∷ t2 ∷ t3 ∷ size / 2 ^ 8 ∷ size % 2 ^ 8 ∷ [] in
        rw (some_room, ← append_assoc pre chunk (wire (m ∷ ms) ++ (0 ∷ post)))
          (decode_labels-wire 128 (pre ++ chunk) m post ms packet_len result_len 0 [] {pos = pos}
            (omega (arith, length-append pre chunk)) im ims (omega arith) (omega arith)
            (omega arith))
      where
        some_room : (result_len == 0) ≡ false
        some_room = ground arith

    pub scan_answers-ptr :
        (n : ℕ) (pre post : Bytes) (packet_len : ℕ) {pos : ℕ}
        → pos ≡ length pre
        → pos + 12 + length (wire (m ∷ ms)) + 1 ≤ packet_len
        → scan_answers
            (suc n)
            (pre
              ++ ptr_record pointer t0 t1 t2 t3
                  (length (wire (m ∷ ms)) + 1)
                  (wire (m ∷ ms) ++ (0 ∷ post)))
            packet_len
            result_len
            pos
          ≡ ok (dotted m ms)
    unfolding scan_answers skip_name take_record
    scan_answers-ptr n pre post packet_len {pos} e here =
        let size = length (wire (m ∷ ms)) + 1 in
        let body : Bytes = wire (m ∷ ms) ++ (0 ∷ post) in
        let skipped =
          skip_labels-pointer pre e 127 pointer
            (0 ∷ 12 ∷ 0 ∷ 1 ∷ t0 ∷ t1 ∷ t2 ∷ t3 ∷ size / 2 ^ 8 ∷ size % 2 ^ 8 ∷ body) packet_len
            (omega arith) in
        let headed = record_header-ptr pre body size {pos = pos + 2} (omega arith) in
        let named =
          decode_name-ptr pre post size packet_len {pos = pos + 2 + 10} (omega arith)
            (omega arith) in
        rw (skipped, header_in, headed, data_in, named)
      where
        header_in : ltb packet_len (pos + 2 + 10) ≡ false
        header_in = ground arith

        data_in : ltb packet_len (pos + 2 + 10 + (length (wire (m ∷ ms)) + 1)) ≡ false
        data_in = ground arith

-- The checks of a response, passed one by one.
pub parse_response-steps :
    (id result_len flags questions answers offset : ℕ) (packet : Bytes)
    → 12 ≤ length packet
    → get16 packet 0 ≡ ok id
    → get16 packet 2 ≡ ok flags
    → bad_flags flags ≡ false
    → get16 packet 4 ≡ ok questions
    → get16 packet 6 ≡ ok answers
    → skip_questions questions packet (length packet) 12 ≡ ok offset
    → parse_response id result_len packet
      ≡ scan_answers answers packet (length packet) result_len offset
unfolding parse_response
parse_response-steps id result_len flags questions answers offset packet h e0 e2 good e4 e6
      skipped =
    rw (long, e0, same, e2, good, e4, e6, skipped)
  where
    long : ltb (length packet) 12 ≡ false
    long = ground arith

    same : not (id == id) ≡ false
    same = ground arith

-- The first 12 bytes of a response with one question.
abbrev pub header : ℕ → ℕ → ℕ → ℕ → ℕ → ℕ → ℕ → Bytes
header id flags answers n0 n1 n2 n3 =
    id / 2 ^ 8
    ∷ id % 2 ^ 8
    ∷ flags / 2 ^ 8
    ∷ flags % 2 ^ 8
    ∷ 0
    ∷ 1
    ∷ answers / 2 ^ 8
    ∷ answers % 2 ^ 8
    ∷ n0
    ∷ n1
    ∷ n2
    ∷ n3
    ∷ []

module _ (l : Bytes) (ls : List Bytes) (il : Labels (l ∷ ls)) (few : length ls < 127)
    (q0 q1 q2 q3 : ℕ) where
  -- The question, with what stands behind it.
  abbrev pub question : Bytes → Bytes
  question rest = wire (l ∷ ls) ++ (0 ∷ q0 ∷ q1 ∷ q2 ∷ q3 ∷ rest)

  pub skip_questions-one :
      (pre rest : Bytes) (packet_len : ℕ) {pos : ℕ}
      → pos ≡ length pre
      → pos + length (wire (l ∷ ls)) + 5 ≤ packet_len
      → skip_questions 1 (pre ++ question rest) packet_len pos
        ≡ ok (pos + length (wire (l ∷ ls)) + 5)
  unfolding skip_questions skip_name
  skip_questions-one pre rest packet_len {pos} e here =
      rw
        (
          skip_labels-wire 128 pre (q0 ∷ q1 ∷ q2 ∷ q3 ∷ rest) (l ∷ ls) packet_len e il (omega arith)
              (omega arith),
          inside,
        )
        (ap ok (omega arith))
    where
      inside : ltb packet_len (pos + length (wire (l ∷ ls)) + 1 + 4) ≡ false
      inside = ground arith
