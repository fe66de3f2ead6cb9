-- ===== src/PtrDns/Query/Answer.antt =====
-- Well-formed responses to a reverse DNS query.
use ax88179_aroma_driver.Base.{ℕ, ◌+◌, Bytes, List, [], ◌∷◌, ◌++◌, length}
use ax88179_aroma_driver.PtrDns.Codec.Wire.{wire}
use ax88179_aroma_driver.PtrDns.Query.Scan.{ptr_record, header}

-- What is free in a response: its id and flags, the number of answers behind the first, the counts
-- that are not read, the question's type and class, the pointer and the time to live of the first
-- answer, and what stands behind it.
pub record Response : Type 0 where
  pub id : ℕ
  pub flags : ℕ
  pub more : ℕ
  pub n0 : ℕ
  pub n1 : ℕ
  pub n2 : ℕ
  pub n3 : ℕ
  pub q0 : ℕ
  pub q1 : ℕ
  pub q2 : ℕ
  pub q3 : ℕ
  pub pointer : ℕ
  pub t0 : ℕ
  pub t1 : ℕ
  pub t2 : ℕ
  pub t3 : ℕ
  pub post : Bytes

-- The response with the question `l.ls` and the first answer `m.ms`.
abbrev pub encode_response : Response → List Bytes → List Bytes → Bytes
encode_response r asked found =
    header r.id r.flags (r.more + 1) r.n0 r.n1 r.n2 r.n3
    ++ (wire asked
        ++ (0
            ∷ r.q0
            ∷ r.q1
            ∷ r.q2
            ∷ r.q3
            ∷ ptr_record r.pointer r.t0 r.t1 r.t2 r.t3 (length (wire found) + 1)
                (wire found ++ (0 ∷ r.post))))

module _ (r : Response) (l m : Bytes) (ls ms : List Bytes) where
  body : Bytes
  body =
      ptr_record r.pointer r.t0 r.t1 r.t2 r.t3 (length (wire (m ∷ ms)) + 1)
        (wire (m ∷ ms) ++ (0 ∷ r.post))

  front : Bytes
  front =
      header r.id r.flags (r.more + 1) r.n0 r.n1 r.n2 r.n3
      ++ (wire (l ∷ ls) ++ (0 ∷ r.q0 ∷ r.q1 ∷ r.q2 ∷ r.q3 ∷ []))
