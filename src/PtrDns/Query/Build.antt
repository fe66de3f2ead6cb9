-- ===== src/PtrDns/Query/Build.antt =====
-- The query for the name of an IPv4 address.
use ax88179_aroma_driver.Base.{
  ℕ, ◌+◌, ◌≤◌, ◌<◌, ◌≡◌, refl, ap, ◌∙◌, false, Bytes, List, [], ◌∷◌, ◌++◌, arith, length,
  length-append, length-take, length-replicate, ltb, take, replicate,
}
use ax88179_aroma_driver.Base.Outcome.{ok, ◌>>=◌}
use ax88179_aroma_driver.PtrDns.Codec.{put16, encode_name}
use ax88179_aroma_driver.PtrDns.Codec.Bounds.{write-in, encode_name-Sound}
use ax88179_aroma_driver.PtrDns.Codec.Wire.{IsLabel, Labels, dotted}
use ax88179_aroma_driver.PtrDns.Codec.RoundTrip.{encode_name-ReadsBack}
use ax88179_aroma_driver.PtrDns.Query.{
  packet_max, query_name, query_type, build_query, Ipv4, reverse_name, decimal, in_addr, arpa,
}

-- The four numbers of an address are bytes.
pub record IsAddress (a : Ipv4) : Type 0 where
  pub in0 : a.b0 < 256
  pub in1 : a.b1 < 256
  pub in2 : a.b2 < 256
  pub in3 : a.b3 < 256

decimal-IsLabel : (b : ℕ) → b < 256 → IsLabel (decimal b) × (length (decimal b) ≤ 3)
decimal-IsLabel b h = ground arith

abbrev labels : Ipv4 → List Bytes
labels a = decimal a.b2 ∷ decimal a.b1 ∷ decimal a.b0 ∷ in_addr ∷ arpa ∷ []

reverse_name-dotted : (a : Ipv4) → reverse_name a ≡ dotted (decimal a.b3) (labels a)
unfolding reverse_name
reverse_name-dotted a = refl

in_addr-IsLabel : IsLabel in_addr
in_addr-IsLabel = ground arith

arpa-IsLabel : IsLabel arpa
arpa-IsLabel = ground arith

labels-Labels : (a : Ipv4) → IsAddress a → Labels (labels a)
labels-Labels a h = (
  (decimal-IsLabel a.b2 h.in2).0,
  (
    (decimal-IsLabel a.b1 h.in1).0,
    ((decimal-IsLabel a.b0 h.in0).0, (in_addr-IsLabel, (arpa-IsLabel, tt))),
  ),
)

length-reverse_name : (a : Ipv4) → IsAddress a → length (reverse_name a) ≤ 28
unfolding reverse_name
length-reverse_name a h =
    let n3 = (decimal-IsLabel a.b3 h.in3).1 in
    let n2 = (decimal-IsLabel a.b2 h.in2).1 in
    let n1 = (decimal-IsLabel a.b1 h.in1).1 in
    let n0 = (decimal-IsLabel a.b0 h.in0).1 in
    let end : Bytes = b'.' ∷ (in_addr ++ (b'.' ∷ arpa)) in
    let tail0 = decimal a.b0 ++ end in
    let tail1 = decimal a.b1 ++ (b'.' ∷ tail0) in
    let tail2 = decimal a.b2 ++ (b'.' ∷ tail1) in
    omega (
      arith,
      length-append (decimal a.b3) (b'.' ∷ tail2),
      length-append (decimal a.b2) (b'.' ∷ tail1),
      length-append (decimal a.b1) (b'.' ∷ tail0),
      length-append (decimal a.b0) end,
    )

-- A name that is encoded keeps the packet's size.
length-encode_name :
    (packet p name : Bytes) (o : ℕ)
    → length packet ≡ packet_max
    → encode_name packet_max packet 12 name ≡ ok (p, o)
    → length p ≡ packet_max
length-encode_name packet p name o size e =
    let s = encode_name-Sound packet packet_max 12 name (omega arith) (omega arith) in
    let w = rw e at s in w.0.0 ∙ size

query_type-builds :
    (q : Bytes) (n : ℕ)
    → length q ≡ packet_max
    → n + 4 ≤ packet_max
    → (s : Bytes) × (query_type (q, n) ≡ ok s) × (length s ≡ n + 4)
unfolding query_type
query_type-builds q n size room =
    let (q', e', n') = write-in q n (put16 12) (omega arith) in
    let (q'', e'', n'') = write-in q' (n + 2) (put16 1) (omega arith) in
    let inside : ltb packet_max (n + 4) ≡ false = ground arith in
    (take (n + 4) q'', rw (inside, e', e''), omega (arith, length-take (n + 4) q''))

-- Whatever name of labels fits is built into a query.
query_name-builds :
    (id : ℕ) (l : Bytes) (ls : List Bytes)
    → IsLabel l
    → Labels ls
    → length ls < 127
    → length (dotted l ls) + 18 ≤ packet_max
    → (q : Bytes) × (query_name id (dotted l ls) ≡ ok (q, length (dotted l ls) + 14))
      × (length q ≡ packet_max)
unfolding query_name
query_name-builds id l ls il ils few fits =
    let blank = length-replicate {A = ℕ} packet_max 0 in
    let (q, e, n) = write-in (replicate packet_max 0) 0 (put16 id) (omega arith) in
    let (q', e', n') = write-in q 2 (put16 0x0100) (omega arith) in
    let (q'', e'', n'') = write-in q' 4 (put16 1) (omega arith) in
    let (p, encoded, skipped, decoded) =
      encode_name-ReadsBack packet_max packet_max packet_max l ls il ils few (omega arith) 12 q''
        (omega arith) (omega arith) (omega arith) in
    (
      p,
      rw (e, e', e'') (encoded ∙ ap (λ o. ok (p, o)) (omega arith)),
      length-encode_name q'' p (dotted l ls) (12 + length (dotted l ls) + 2) (omega arith) encoded,
    )

-- For every IPv4 address: the name fits its 64 bytes, and `ptr_dns_query_server` builds a query
-- for it, of 12 bytes of header, the name, its length byte and end, and 4 bytes of type and class.
pub build_query-reverse_name :
    (id : ℕ) (a : Ipv4)
    → IsAddress a
    → (length (reverse_name a) < 64)
      × (q : Bytes) × (build_query id (reverse_name a) ≡ ok q)
      × (length q ≡ 12 + (length (reverse_name a) + 2) + 4)
unfolding build_query
build_query-reverse_name id a h =
    let short = length-reverse_name a h in
    let same = ap length (reverse_name-dotted a) in
    let first = (decimal-IsLabel a.b3 h.in3).0 in
    let (q, e, n) =
      query_name-builds id (decimal a.b3) (labels a) first (labels-Labels a h) (omega arith)
        (omega arith) in
    let (s, f, k) =
      query_type-builds q (length (dotted (decimal a.b3) (labels a)) + 14) n (omega arith) in
    (
      omega arith,
      s,
      ap (λ name. query_name id name >>= query_type) (reverse_name-dotted a)
          ∙ (ap (λ o. o >>= query_type) e ∙ f),
      omega arith,
    )
