-- ===== src/PtrDns/Query/Safe.antt =====
-- The reverse DNS query on any answer of the network.
use ax88179_aroma_driver.Base.{
  ℕ, zero, suc, ◌+◌, ◌*◌, ◌^◌, ◌≤◌, ◌<◌, ◌≡◌, refl, ◌∙◌, inl, inr, Bool, true, false, not, ◌&&◌,
  Option, none, some, Bytes, List, [], ◌∷◌, ◌++◌, arith, Bool-cases, length, length-take,
  length-replicate, ltb, ◌==◌, if◌then◌else◌, take, replicate, ℤ, pos, negsuc, eq_nat,
}
use ax88179_aroma_driver.Base.Outcome.{
  Sound, Sound-bind, Sound-weaken, Sound-if, Outcome, ok, refused, fault,
}
use ax88179_aroma_driver.PtrDns.Codec.{get16, put16, encode_name, skip_name}
use ax88179_aroma_driver.PtrDns.Codec.Bounds.{
  read-in, write-in, skip_name-Sound, decode_name-Sound, encode_name-Sound, Written,
}
use ax88179_aroma_driver.PtrDns.Query.{
  packet_max, query_name, query_type, build_query, skip_questions, or_else, take_record,
  scan_answers, bad_flags, parse_response, Lwip, Call, opened, sent, selected, received, closed,
  not_positive, parse_received, exchange, send_query, query_server, Server, Ipv4, try_servers,
  lookup_ipv4, reverse_name,
}

pub get16-in : (mem : Bytes) (i : ℕ) → i + 2 ≤ length mem → (v : ℕ) × (get16 mem i ≡ ok v)
unfolding get16
get16-in mem i h =
    let (hi, e) = read-in mem i (omega arith) in
    let (lo, f) = read-in mem (i + 1) (omega arith) in (hi * 2 ^ 8 + lo, rw (e, f))

skip_questions-Sound :
    (n : ℕ) (packet : Bytes) (packet_len offset : ℕ)
    → packet_len ≤ length packet
    → offset ≤ packet_len
    → Sound (λ o. o ≤ packet_len) (skip_questions n packet packet_len offset)
unfolding skip_questions
skip_questions-Sound zero packet packet_len offset h k = k
skip_questions-Sound (suc n) packet packet_len offset h k =
    Sound-bind (λ o. (offset < o) × (o ≤ packet_len)) _ (skip_name packet packet_len offset) _
      (skip_name-Sound packet packet_len offset h)
      (λ o q. elim (Bool-cases (ltb packet_len (o + 4))) [
        | inl e ↦ rw e tt
        | inr e ↦ rw e (skip_questions-Sound n packet packet_len (o + 4) h (ground arith))
      ])

module _ (result_len : ℕ) where
  or_else-Sound :
      (m n : Outcome Bytes)
      → Sound (λ s. length s < result_len) m
      → Sound (λ s. length s < result_len) n
      → Sound (λ s. length s < result_len) (or_else m n)
  or_else-Sound (ok a) n s t = s
  or_else-Sound refused n s t = t
  or_else-Sound fault n s t = s

  take_record-Sound :
      (again : ℕ → Outcome Bytes) (packet : Bytes) (packet_len offset : ℕ) (h : ℕ × ℕ × ℕ)
      → packet_len ≤ length packet
      → ((o : ℕ) → Sound (λ s. length s < result_len) (again o))
      → Sound (λ s. length s < result_len) (take_record again packet packet_len result_len offset h)
  unfolding take_record
  take_record-Sound again packet packet_len offset (kind, cls, rdlen) h k =
      Sound-if _ (ltb packet_len (offset + rdlen)) refused _ tt (
        Sound-if _ (kind == 12 && cls == 1) _ _
          (or_else-Sound _ _ (decode_name-Sound packet packet_len offset result_len h)
            (k (offset + rdlen)))
          (k (offset + rdlen)))

  scan_answers-Sound :
      (n : ℕ) (packet : Bytes) (packet_len offset : ℕ)
      → packet_len ≤ length packet
      → Sound (λ s. length s < result_len) (scan_answers n packet packet_len result_len offset)
  unfolding scan_answers
  scan_answers-Sound zero packet packet_len offset h = tt
  scan_answers-Sound (suc n) packet packet_len offset h =
      Sound-bind (λ o. (offset < o) × (o ≤ packet_len)) _ (skip_name packet packet_len offset) _
        (skip_name-Sound packet packet_len offset h)
        (λ o q. elim (Bool-cases (ltb packet_len (o + 10))) [
          | inl e ↦ rw e tt
          | inr e ↦
              let (kind, ek) = get16-in packet o (ground arith) in
              let (cls, ec) = get16-in packet (o + 2) (ground arith) in
              let (rdlen, er) = get16-in packet (o + 8) (ground arith) in
              rw (e, ek, ec, er)
                (take_record-Sound _ packet packet_len (o + 10) (kind, cls, rdlen) h
                  (λ o'. scan_answers-Sound n packet packet_len o' h))
        ])

  -- `ptr_dns_query_server` from `lwip_recvfrom` on, on any response: it reads inside the bytes that
  -- were received, and a name that it returns leaves room for the byte 0 in `result_len` bytes.
  pub parse_response-Sound :
      (id : ℕ) (packet : Bytes)
      → Sound (λ s. length s < result_len) (parse_response id result_len packet)
  unfolding parse_response
  parse_response-Sound id packet = elim (Bool-cases (ltb (length packet) 12)) [
    | inl e ↦ rw e tt
    | inr e ↦
        let (got, e0) = get16-in packet 0 (ground arith) in
        let (flags, e2) = get16-in packet 2 (ground arith) in
        let (questions, e4) = get16-in packet 4 (ground arith) in
        let (answers, e6) = get16-in packet 6 (ground arith) in
        rw (e, e0, e2, e4, e6)
          (Sound-if _ (not (got == id)) refused _ tt (
            Sound-if _ (bad_flags flags) refused _ tt (
              Sound-bind (λ o. o ≤ length packet) _
                (skip_questions questions packet (length packet) 12) _
                (skip_questions-Sound questions packet (length packet) 12 (omega arith)
                  (ground arith))
                (λ o q. scan_answers-Sound answers packet (length packet) o (omega arith)))))
  ]

-- What building a query leaves: a position in a packet.
abbrev Sized : Bytes × ℕ → Type 0
Sized (q, n) = (length q ≡ packet_max) × (n ≤ packet_max)

query_name-Sized : (id : ℕ) (name : Bytes) → Sound Sized (query_name id name)
unfolding query_name
query_name-Sized id name =
    let blank = length-replicate {A = ℕ} packet_max 0 in
    let (q, e, n) = write-in (replicate packet_max 0) 0 (put16 id) (omega arith) in
    let (q', e', n') = write-in q 2 (put16 0x0100) (omega arith) in
    let (q'', e'', n'') = write-in q' 4 (put16 1) (omega arith) in
    rw (e, e', e'')
      (Sound-weaken (λ r. Written q'' packet_max 12 r × (12 < r.1)) Sized
        (encode_name packet_max q'' 12 name)
        (encode_name-Sound q'' packet_max 12 name (omega arith) (omega arith))
        (λ r w. (w.0.0 ∙ (n'' ∙ (n' ∙ (n ∙ blank))), w.0.2)))

query_type-Sound : (r : Bytes × ℕ) → Sized r → Sound (λ q. length q ≤ packet_max) (query_type r)
unfolding query_type
query_type-Sound (q, n) (size, le) = elim (Bool-cases (ltb packet_max (n + 4))) [
  | inl e ↦ rw e tt
  | inr e ↦
      let (q', e', n') = write-in q n (put16 12) (ground arith) in
      let (q'', e'', n'') = write-in q' (n + 2) (put16 1) (ground arith) in
      rw (e, e', e'') (ground (arith, length-take (n + 4) q''))
]

build_query-Sound :
    (id : ℕ) (name : Bytes) → Sound (λ q. length q ≤ packet_max) (build_query id name)
unfolding build_query
build_query-Sound id name =
    Sound-bind Sized _ (query_name id name) query_type (query_name-Sized id name) query_type-Sound

-- The descriptors that are open behind a list of calls.
remove : ℕ → List ℕ → List ℕ
remove fd [] = []
remove fd (f ∷ fs) = if f == fd then fs else f ∷ remove fd fs

abbrev pub open_after : List Call → List ℕ → List ℕ
unfolding remove
open_after [] fds = fds
open_after (opened fd ∷ cs) fds = open_after cs (fd ∷ fds)
open_after (closed fd ∷ cs) fds = open_after cs (remove fd fds)
open_after (sent fd b ∷ cs) fds = open_after cs fds
open_after (selected fd ∷ cs) fds = open_after cs fds
open_after (received fd ∷ cs) fds = open_after cs fds

open_after-append :
    (cs ds : List Call) (fds : List ℕ)
    → open_after (cs ++ ds) fds ≡ open_after ds (open_after cs fds)
unfolding remove
open_after-append [] ds fds = refl
open_after-append (opened fd ∷ cs) ds fds = open_after-append cs ds (fd ∷ fds)
open_after-append (closed fd ∷ cs) ds fds = open_after-append cs ds (remove fd fds)
open_after-append (sent fd b ∷ cs) ds fds = open_after-append cs ds fds
open_after-append (selected fd ∷ cs) ds fds = open_after-append cs ds fds
open_after-append (received fd ∷ cs) ds fds = open_after-append cs ds fds

-- A query that is safe: no fault, a name that fits, and every socket that it opened is closed.
abbrev pub Safe : ℕ → Outcome Bytes × List Call → Type 0
Safe result_len r =
    Sound (λ s. length s < result_len) (r.0) × ((fds : List ℕ) → open_after r.1 fds ≡ fds)

remove_self : (fd : ℕ) (fds : List ℕ) → remove fd (fd ∷ fds) ≡ fds
unfolding remove
remove_self fd fds = ground arith

module _ (result_len : ℕ) where
  parse_received-Sound :
      (id : ℕ) (o : Option Bytes)
      → Sound (λ s. length s < result_len) (parse_received id result_len o)
  parse_received-Sound id none = tt
  parse_received-Sound id (some b) = parse_response-Sound result_len id (take packet_max b)

  exchange-Safe :
      (net : Lwip) (id : ℕ) (query : Bytes) (fd : ℕ)
      → Safe result_len (exchange net id result_len query fd)
  unfolding exchange remove
  exchange-Safe net id query fd =
      elim (Bool-cases (not (eq_nat (net.sendto query) (length query)))) [
        | inl e ↦ rw e (tt, remove_self fd)
        | inr e ↦ elim (Bool-cases (not_positive net.select)) [
          | inl f ↦ rw (e, f) (tt, remove_self fd)
          | inr f ↦ rw (e, f) (parse_received-Sound id (net.recvfrom query), remove_self fd)
        ]
      ]

  send_query-Safe :
      (net : Lwip) (id : ℕ) (o : Outcome Bytes)
      → Sound (λ q. length q ≤ packet_max) o
      → Safe result_len (send_query net id result_len o)
  unfolding send_query remove
  send_query-Safe net id fault s = absurd s
  send_query-Safe net id refused s = (tt, λ fds. refl)
  send_query-Safe net id (ok query) s = go net.socket
    where
      go :
          (r : ℤ)
          → Safe result_len
              (elim r [ negsuc n ↦ (refused, []) | pos fd ↦ exchange net id result_len query fd ])
      go (negsuc n) = (tt, λ fds. refl)
      go (pos fd) = exchange-Safe net id query fd

  query_server-Safe :
      (net : Lwip) (id : ℕ) (any : Bool) (name : Bytes)
      → Safe result_len (query_server net id any name result_len)
  unfolding query_server remove
  query_server-Safe net id true name = (tt, λ fds. refl)
  query_server-Safe net id false name =
      send_query-Safe net id (build_query id name) (build_query-Sound id name)

  try_next-Safe :
      (here rest : Outcome Bytes × List Call)
      → Safe result_len here
      → Safe result_len rest
      → Safe result_len
          (elim here.0 [ ok host ↦ here | fault ↦ here | refused ↦ (rest.0, here.1 ++ rest.1) ])
  try_next-Safe (ok host, cs) rest s t = s
  try_next-Safe (fault, cs) rest s t = s
  try_next-Safe (refused, cs) rest s t =
      (t.0, λ fds. open_after-append cs rest.1 fds ∙ (t.1 (open_after cs fds) ∙ s.1 fds))

  try_servers-Safe :
      (ss : List Server) (name : Bytes) → Safe result_len (try_servers ss name result_len)
  unfolding try_servers remove
  try_servers-Safe [] name = (tt, λ fds. refl)
  try_servers-Safe (s ∷ ss) name =
      try_next-Safe (query_server s.net s.id s.any name result_len) (try_servers ss name result_len)
        (query_server-Safe s.net s.id s.any name) (try_servers-Safe ss name)

  -- `ptr_dns_lookup_ipv4` on any servers, whatever lwIP answers and whatever arrives: no access
  -- leaves the query, the response or the result, a name that is found leaves room for the byte 0
  -- in `result_len` bytes, and every socket that was opened is closed again.
  pub lookup_ipv4-Safe :
      (ss : List Server) (a : Ipv4) → Safe result_len (lookup_ipv4 ss a result_len)
  unfolding lookup_ipv4 remove
  lookup_ipv4-Safe ss a = elim (Bool-cases (ltb 63 (length (reverse_name a)))) [
    | inl e ↦ rw e (tt, λ fds. refl)
    | inr e ↦ rw e (try_servers-Safe ss (reverse_name a))
  ]
