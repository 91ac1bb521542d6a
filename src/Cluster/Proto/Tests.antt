-- ===== src/Cluster/Proto/Tests.antt =====
-- lib/cluster/proto.c over sockets that cut a message into pieces.
use napastak.Base.{ℕ, ◌≡◌, refl, some, List, [], ◌∷◌, ◌++◌, arith, replicate}
use napastak.Cluster.Proto.{
  Answer, moved, interrupted, success, refused, message, proto_send, proto_recv,
}
use napastak.Cluster.Proto.Roundtrip.{header, Accepted, proto_recv-Accepted, proto_recv-proto_send}

abbrev pieces : List Answer
pieces = moved 7 ∷ interrupted ∷ replicate 20 (moved 3)

abbrev hello : List ℕ
hello = 104 ∷ 105 ∷ []

-- A stream that does not start with the magic number.
recv-garbage : proto_recv (moved 16 ∷ []) (replicate 16 1) ≡ refused [] []
unfolding proto_recv
recv-garbage = refl

-- The end of the stream inside a header.
recv-end : proto_recv (moved 5 ∷ moved 0 ∷ []) (replicate 5 1) ≡ refused [] []
unfolding proto_recv
recv-end = refl

proto_recv-proto_send_example :
    let s = proto_send pieces 3 77 (some hello) 2 in
    (s.ending ≡ success)
    × (rest : List Answer) × (proto_recv pieces (s.bytes ++ 9 ∷ [])
        ≡ message (header 3 77 2) hello rest (9 ∷ []))
proto_recv-proto_send_example =
    proto_recv-proto_send pieces pieces 3 77 hello (9 ∷ []) tt tt (omega arith) (omega arith)
      (omega arith) (omega arith) (omega arith)

-- The 16 bytes of a ping and one byte of the next message.
abbrev ping : List ℕ
ping = 0xdf ∷ 0x0a ∷ 1 ∷ 1 ∷ 0 ∷ 0 ∷ 0 ∷ 5 ∷ (replicate 8 0 ++ 0xdf ∷ [])

recv-ping : proto_recv (moved 16 ∷ []) ping ≡ message (header 1 5 0) [] [] (0xdf ∷ [])
unfolding proto_recv
recv-ping = refl

proto_recv-Accepted_example : Accepted (header 1 5 0)
proto_recv-Accepted_example =
    proto_recv-Accepted (moved 16 ∷ []) [] (header 1 5 0) [] ping (0xdf ∷ []) recv-ping
