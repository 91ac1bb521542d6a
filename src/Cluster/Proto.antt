-- ===== src/Cluster/Proto.antt =====
-- Sending and receiving a message, lib/cluster/proto.c, over sockets that move any number of bytes
-- at a time. Bytes in flight are a list.
pub mod Reading
pub mod Roundtrip
mod Tests
use napastak.Base.{
  ℕ, zero, suc, ◌+◌, ◌-◌, ◌*◌, ◌/◌, ◌%◌, ◌^◌, min, Bool, true, false, not, ◌&&◌, Option, none, some,
  List, [], ◌∷◌, ◌++◌, ltb, ◌==◌, if◌then◌else◌, take, drop, get_or,
}

-- The answer to a `write` or a `read`: it moved up to so many bytes, was interrupted by a signal
-- (EINTR), or failed otherwise. A `read` that moves 0 bytes has met the end.
pub data Answer : Type 0 where
  moved : ℕ → Answer
  interrupted failed : Answer

-- The result 0, the result -1, and a call that no answer has come to yet.
pub data Ending : Type 0 where
  success failure waiting : Ending

-- The bytes that went out, the end, and the answers that are left.
pub record Sent : Type 0 where
  pub bytes : List ℕ
  pub ending : Ending
  pub answers : List Answer

abbrev pub prepend : List ℕ → Sent → Sent
prepend bs s = record s { bytes = bs ++ s.bytes }

unfoldable pub write_all : List Answer → List ℕ → Sent
write_all qs [] = record { bytes = []; ending = success; answers = qs }
write_all [] (b ∷ bs) = record { bytes = []; ending = waiting; answers = [] }
write_all (interrupted ∷ qs) (b ∷ bs) = write_all qs (b ∷ bs)
write_all (failed ∷ qs) (b ∷ bs) = record { bytes = []; ending = failure; answers = qs }
write_all (moved n ∷ qs) (b ∷ bs) = prepend (take n (b ∷ bs)) (write_all qs (drop n (b ∷ bs)))

-- The bytes that came in, the end, the answers that are left and the bytes still in flight.
pub record Got : Type 0 where
  pub bytes : List ℕ
  pub ending : Ending
  pub answers : List Answer
  pub stream : List ℕ

abbrev pub got_before : List ℕ → Got → Got
got_before bs g = record g { bytes = bs ++ g.bytes }

unfoldable pub read_all : List Answer → ℕ → List ℕ → Got
read_all qs zero st = record { bytes = []; ending = success; answers = qs; stream = st }
read_all [] (suc n) st = record { bytes = []; ending = waiting; answers = []; stream = st }
read_all (interrupted ∷ qs) (suc n) st = read_all qs (suc n) st
read_all (failed ∷ qs) (suc n) st = record {
  bytes = [];
  ending = failure;
  answers = qs;
  stream = st;
}
read_all (moved zero ∷ qs) (suc n) st = record {
  bytes = [];
  ending = failure;
  answers = qs;
  stream = st;
}
read_all (moved (suc k) ∷ qs) (suc n) st =
    let m = min (suc k) (suc n) in got_before (take m st) (read_all qs (suc n - m) (drop m st))

abbrev pub proto_magic : ℕ
proto_magic = 0xdf0a

abbrev pub proto_version : ℕ
proto_version = 1

-- `htonl`, as the bytes on the wire.
abbrev pub big_endian : ℕ → List ℕ
big_endian n = n / 2 ^ 24 % 256 ∷ n / 2 ^ 16 % 256 ∷ n / 2 ^ 8 % 256 ∷ n % 256 ∷ []

abbrev pub header_bytes : ℕ → ℕ → ℕ → List ℕ
header_bytes type req_id body_len =
    proto_magic / 256
    ∷ proto_magic % 256
    ∷ proto_version
    ∷ type % 256
    ∷ (big_endian req_id ++ (big_endian body_len ++ big_endian 0))

abbrev pub then_write : List ℕ → Sent → Sent
then_write bs s = elim s.ending [ success ↦ prepend s.bytes (write_all s.answers bs) | _ ↦ s ]

-- A null `body` is not sent, though its length is announced.
unfoldable pub proto_send : List Answer → ℕ → ℕ → Option (List ℕ) → ℕ → Sent
unfolding write_all
proto_send qs type req_id none body_len = write_all qs (header_bytes type req_id body_len)
proto_send qs type req_id (some body) body_len =
    let head = write_all qs (header_bytes type req_id body_len) in
    if ltb 0 body_len then then_write (take body_len body) head else head

pub record ProtoHeader : Type 0 where
  pub magic : ℕ
  pub version : ℕ
  pub msg_type : ℕ
  pub request_id : ℕ
  pub body_len : ℕ

-- `ntohl`, `i` bytes into the header.
abbrev pub from_big_endian : List ℕ → ℕ → ℕ
from_big_endian h i =
    ((get_or h i 0 * 256 + get_or h (i + 1) 0) * 256 + get_or h (i + 2) 0) * 256
    + get_or h (i + 3) 0

abbrev pub parsed : List ℕ → ProtoHeader
parsed h = record {
  magic = get_or h 0 0 * 256 + get_or h 1 0;
  version = get_or h 2 0;
  msg_type = get_or h 3 0;
  request_id = from_big_endian h 4;
  body_len = from_big_endian h 8;
}

-- A message, the result -1, or a call that waits, with what is left of the answers and the bytes.
pub data Received : Type 0 where
  message : ProtoHeader → List ℕ → List Answer → List ℕ → Received
  refused : List Answer → List ℕ → Received
  waits : Received

abbrev pub max_body : ℕ
max_body = 64 * 1024 * 1024

abbrev pub received_body : ProtoHeader → Got → Received
received_body hdr g = elim g.ending [
  | success ↦ message hdr g.bytes g.answers g.stream
  | failure ↦ refused g.answers g.stream
  | waiting ↦ waits
]

unfoldable pub receive_body : ProtoHeader → List Answer → List ℕ → Received
unfolding read_all
receive_body hdr qs st =
    if not (hdr.magic == proto_magic)
    then refused qs st
    else if hdr.body_len == 0
    then message hdr [] qs st
    else if ltb max_body hdr.body_len
    then refused qs st
    else received_body hdr (read_all qs hdr.body_len st)

abbrev pub after_header : Got → Received
after_header g = elim g.ending [
  | success ↦ receive_body (parsed g.bytes) g.answers g.stream
  | failure ↦ refused g.answers g.stream
  | waiting ↦ waits
]

unfoldable pub proto_recv : List Answer → List ℕ → Received
unfolding read_all receive_body
proto_recv qs st = after_header (read_all qs 16 st)
