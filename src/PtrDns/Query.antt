-- ===== src/PtrDns/Query.antt =====
-- aroma_module/nsysnet_shim.c: `ptr_dns_query_server` and `ptr_dns_lookup_ipv4`.
-- What lwIP answers to one query is an argument, and the calls made to it are a list. The response
-- is the bytes that were received: a read of the rest of the buffer counts as a fault.
pub mod Safe
pub mod Scan
pub mod Answer
pub mod Build
use ax88179_aroma_driver.Base.{
  ℕ, zero, suc, ◌+◌, ◌*◌, ◌/◌, ◌%◌, ◌^◌, Bool, true, false, not, ◌||◌, ◌&&◌, Option, none, some,
  Bytes, List, [], ◌∷◌, ◌++◌, length, ltb, ◌==◌, if◌then◌else◌, take, replicate, bit, ℤ, pos,
  negsuc, eq_nat,
}
use ax88179_aroma_driver.Base.Outcome.{Outcome, ok, refused, fault, ◌>>=◌}
use ax88179_aroma_driver.PtrDns.Codec.{get16, put16, write, encode_name, skip_name, decode_name}

abbrev pub packet_max : ℕ
packet_max = 512

-- The first part of the query: the id, RD and the count of questions, then the name.
unfoldable pub query_name : ℕ → Bytes → Outcome (Bytes × ℕ)
query_name id name = write (replicate packet_max 0) 0 (put16 id) >>= λ (q : Bytes).
    write q 2 (put16 0x0100) >>= λ (q : Bytes).
    write q 4 (put16 1) >>= λ (q : Bytes). encode_name packet_max q 12 name

-- QTYPE and QCLASS, and the bytes that are sent.
unfoldable pub query_type : Bytes × ℕ → Outcome Bytes
query_type (q, query_len) =
    if ltb packet_max (query_len + 4)
    then refused
    else (write q query_len (put16 12) >>= λ (q' : Bytes).
        write q' (query_len + 2) (put16 1) >>= λ (q'' : Bytes). ok (take (query_len + 4) q''))

unfoldable pub build_query : ℕ → Bytes → Outcome Bytes
build_query id name = query_name id name >>= query_type

-- The loop over the questions: the offset behind them.
unfoldable pub skip_questions : ℕ → Bytes → ℕ → ℕ → Outcome ℕ
skip_questions zero packet packet_len offset = ok offset
skip_questions (suc n) packet packet_len offset = skip_name packet packet_len offset >>= λ o.
    let rest = skip_questions n packet packet_len (o + 4) in
    if ltb packet_len (o + 4) then refused else rest

-- A result, or what the loop finds further on.
abbrev pub or_else : {A : Type 0} → Outcome A → Outcome A → Outcome A
or_else (ok a) rest = ok a
or_else refused rest = rest
or_else fault rest = fault

-- The fixed part of a record: its type, class and length of data, read at `o`.
unfoldable pub record_header : Bytes → ℕ → Outcome (ℕ × ℕ × ℕ)
unfolding get16
record_header packet o = get16 packet o >>= λ kind.
    get16 packet (o + 2) >>= λ cls. get16 packet (o + 8) >>= λ rdlen. ok (kind, cls, rdlen)

-- One record whose data starts at `offset`, with the rest of the loop.
unfoldable pub take_record : (ℕ → Outcome Bytes) → Bytes → ℕ → ℕ → ℕ → ℕ × ℕ × ℕ → Outcome Bytes
take_record again packet packet_len result_len offset (kind, cls, rdlen) =
    if ltb packet_len (offset + rdlen)
    then refused
    else if kind == 12 && cls == 1
    then or_else (decode_name packet packet_len offset result_len) (again (offset + rdlen))
    else again (offset + rdlen)

-- The loop over the answers.
unfoldable pub scan_answers : ℕ → Bytes → ℕ → ℕ → ℕ → Outcome Bytes
unfolding record_header take_record
scan_answers zero packet packet_len result_len offset = refused
scan_answers (suc n) packet packet_len result_len offset =
    skip_name packet packet_len offset >>= λ o.
    if ltb packet_len (o + 10)
    then refused
    else (record_header packet o
        >>= take_record (scan_answers n packet packet_len result_len) packet packet_len result_len
            (o + 10))

-- `(flags & 0x8000) == 0 || (flags & 0x0200) != 0 || (flags & 0x000f) != 0`
abbrev pub bad_flags : ℕ → Bool
bad_flags flags = not (bit flags 15) || (bit flags 9 || not (flags % 16 == 0))

-- The part of `ptr_dns_query_server` behind `lwip_recvfrom`.
unfoldable pub parse_response : ℕ → ℕ → Bytes → Outcome Bytes
unfolding skip_questions scan_answers get16
parse_response id result_len packet =
    if ltb (length packet) 12
    then refused
    else (get16 packet 0 >>= λ got.
        if not (got == id)
        then refused
        else (get16 packet 2 >>= λ flags.
            if bad_flags flags
            then refused
            else (get16 packet 4 >>= λ questions. get16 packet 6 >>= λ answers.
                skip_questions questions packet (length packet) 12 >>= λ offset.
                scan_answers answers packet (length packet) result_len offset)))

-- What lwIP answers to the calls of one query; `received` is `none` for a negative result.
pub record Lwip : Type 0 where
  pub socket : ℤ
  pub sendto : Bytes → ℤ
  pub select : ℤ
  pub recvfrom : Bytes → Option Bytes

-- The calls of the query, with the descriptor that they go to.
pub data Call : Type 0 where
  opened : ℕ → Call
  sent : ℕ → Bytes → Call
  selected : ℕ → Call
  received : ℕ → Call
  closed : ℕ → Call

-- `ready <= 0`
abbrev pub not_positive : ℤ → Bool
not_positive (pos n) = n == 0
not_positive (negsuc n) = true

abbrev pub parse_received : ℕ → ℕ → Option Bytes → Outcome Bytes
parse_received id result_len none = refused
parse_received id result_len (some b) = parse_response id result_len (take packet_max b)

-- The query once it is built and its socket is open.
unfoldable pub exchange : Lwip → ℕ → ℕ → Bytes → ℕ → Outcome Bytes × List Call
exchange net id result_len query fd =
    if not (eq_nat (net.sendto query) (length query))
    then (refused, opened fd ∷ sent fd query ∷ closed fd ∷ [])
    else if not_positive net.select
    then (refused, opened fd ∷ sent fd query ∷ selected fd ∷ closed fd ∷ [])
    else (
      parse_received id result_len (net.recvfrom query),
      opened fd ∷ sent fd query ∷ selected fd ∷ received fd ∷ closed fd ∷ [],
    )

unfoldable pub send_query : Lwip → ℕ → ℕ → Outcome Bytes → Outcome Bytes × List Call
send_query net id result_len fault = (fault, [])
send_query net id result_len refused = (refused, [])
send_query net id result_len (ok query) = elim net.socket [
  | negsuc n ↦ (refused, [])
  | pos fd ↦ exchange net id result_len query fd
]

-- `ptr_dns_query_server`, with `server` not null; `any` is `ip_addr_isany(server)`, and `id` the
-- number that the source makes of the time and two addresses.
unfoldable pub query_server : Lwip → ℕ → Bool → Bytes → ℕ → Outcome Bytes × List Call
unfolding send_query exchange
query_server net id any name result_len =
    if any then (refused, []) else send_query net id result_len (build_query id name)

-- `%u` of a byte.
abbrev pub decimal : ℕ → Bytes
decimal b =
    if ltb b 10
    then (b'0' + b) ∷ []
    else if ltb b 100
    then (b'0' + b / 10) ∷ (b'0' + b % 10) ∷ []
    else (b'0' + b / 100) ∷ (b'0' + b / 10 % 10) ∷ (b'0' + b % 10) ∷ []

abbrev pub dot : ℕ
dot = b'.'

-- `in-addr` and `arpa`.
abbrev pub in_addr : Bytes
in_addr = b'i' ∷ b'n' ∷ b'-' ∷ b'a' ∷ b'd' ∷ b'd' ∷ b'r' ∷ []

abbrev pub arpa : Bytes
arpa = b'a' ∷ b'r' ∷ b'p' ∷ b'a' ∷ []

-- An IPv4 address as its four bytes in memory.
pub record Ipv4 : Type 0 where
  pub b0 : ℕ
  pub b1 : ℕ
  pub b2 : ℕ
  pub b3 : ℕ

-- `snprintf(..., "%u.%u.%u.%u.in-addr.arpa", ...)`
unfoldable pub reverse_name : Ipv4 → Bytes
reverse_name a =
    decimal a.b3
    ++ (dot
        ∷ (decimal a.b2
            ++ (dot
                ∷ (decimal a.b1 ++ (dot ∷ (decimal a.b0 ++ (dot ∷ (in_addr ++ (dot ∷ arpa)))))))))

-- A configured server: whether it is the zero address, and what the query to it meets.
pub record Server : Type 0 where
  pub any : Bool
  pub id : ℕ
  pub net : Lwip

-- The loop of `ptr_dns_lookup_ipv4`: the first answer, with all the calls.
unfoldable pub try_servers : List Server → Bytes → ℕ → Outcome Bytes × List Call
try_servers [] name result_len = (refused, [])
try_servers (s ∷ ss) name result_len =
    let rest = try_servers ss name result_len in
    let here = query_server s.net s.id s.any name result_len in
    elim here.0 [ ok host ↦ here | fault ↦ here | refused ↦ (rest.0, here.1 ++ rest.1) ]

unfoldable pub lookup_ipv4 : List Server → Ipv4 → ℕ → Outcome Bytes × List Call
unfolding try_servers
lookup_ipv4 servers a result_len =
    let name = reverse_name a in
    if ltb 63 (length name) then (refused, []) else try_servers servers name result_len
