-- ===== src/PtrDns/Tests.antt =====
-- Runs of the reverse DNS code at concrete inputs, and the theorems at inputs that meet their
-- hypotheses.
use ax88179_aroma_driver.Base.{
  ◌≡◌, refl, false, none, some, Bytes, List, [], ◌∷◌, arith, length, pos,
}
use ax88179_aroma_driver.Base.Outcome.{ok}
use ax88179_aroma_driver.PtrDns.Codec.{
  decode_name, decode_labels, read, append_label, copy_from, follow_pointer,
}
use ax88179_aroma_driver.PtrDns.Codec.Wire.{IsLabel}
use ax88179_aroma_driver.PtrDns.Codec.RoundTrip.{ReadsBack, encode_name-ReadsBack}
use ax88179_aroma_driver.PtrDns.Query.{Lwip, Ipv4, Server, lookup_ipv4}
use ax88179_aroma_driver.PtrDns.Query.Safe.{Safe, lookup_ipv4-Safe}
use ax88179_aroma_driver.PtrDns.Query.Answer.{Response, encode_response}
use ax88179_aroma_driver.PtrDns.Query.Build.{IsAddress}

-- A packet that holds `a.bc` and, behind it, a pointer to the second label.
abbrev named : Bytes
named = 1 ∷ b'a' ∷ 2 ∷ b'b' ∷ b'c' ∷ 0 ∷ 192 ∷ 2 ∷ []

decode_runs : decode_name named 8 0 256 ≡ ok (b'a' ∷ b'.' ∷ b'b' ∷ b'c' ∷ [])
unfolding decode_name decode_labels read append_label copy_from
decode_runs = refl

pointer_runs : decode_name named 8 6 256 ≡ ok (b'b' ∷ b'c' ∷ [])
unfolding decode_name decode_labels read append_label copy_from follow_pointer
pointer_runs = refl

abbrev empty : Bytes
empty = 0 ∷ 0 ∷ 0 ∷ 0 ∷ 0 ∷ 0 ∷ 0 ∷ 0 ∷ []

abbrev one : Bytes
one = b'a' ∷ []

abbrev two : Bytes
two = b'b' ∷ b'c' ∷ []

one-IsLabel : IsLabel one
one-IsLabel = (omega arith, omega arith, (ground arith, tt))

two-IsLabel : IsLabel two
two-IsLabel = (omega arith, omega arith, (ground arith, (ground arith, tt)))

encode_name-ReadsBack_example : ReadsBack 8 8 256 one (two ∷ []) 1 empty
encode_name-ReadsBack_example =
    encode_name-ReadsBack 8 8 256 one (two ∷ []) one-IsLabel (two-IsLabel, tt) (omega arith)
      (omega arith) 1 empty (omega arith) (omega arith) (omega arith)

abbrev response : Response
response = record {
  id = 7;
  flags = 0x8180;
  more = 0;
  n0 = 0;
  n1 = 0;
  n2 = 0;
  n3 = 0;
  q0 = 0;
  q1 = 12;
  q2 = 0;
  q3 = 1;
  pointer = 12;
  t0 = 0;
  t1 = 0;
  t2 = 0;
  t3 = 60;
  post = [];
}

abbrev net : Lwip
net = record {
  socket = pos 3;
  sendto = λ q. pos (length q);
  select = pos 1;
  recvfrom = λ q. some (encode_response response (one ∷ []) (one ∷ two ∷ []));
}

abbrev silent : Lwip
silent = record {
  socket = pos 4;
  sendto = λ q. pos (length q);
  select = pos 0;
  recvfrom = λ q. none;
}

abbrev servers : List Server
servers =
    record { any = false; id = 7; net = silent } ∷ record { any = false; id = 7; net = net } ∷ []

abbrev address : Ipv4
address = record { b0 = 192; b1 = 168; b2 = 2; b3 = 1 }

lookup_ipv4-Safe_example : Safe 256 (lookup_ipv4 servers address 256)
lookup_ipv4-Safe_example = lookup_ipv4-Safe 256 servers address

address-IsAddress : IsAddress address
address-IsAddress = record {
  in0 = omega arith;
  in1 = omega arith;
  in2 = omega arith;
  in3 = omega arith;
}
