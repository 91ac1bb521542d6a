-- ===== src/Cluster/Proto/Roundtrip.antt =====
-- Messages from `proto_send` to `proto_recv` of lib/cluster/proto.c.
use napastak.Base.{
  ℕ, ◌+◌, ◌%◌, ◌^◌, ◌≤◌, ◌<◌, ◌≡◌, refl, true, false, some, List, [], ◌∷◌, ◌++◌, arith, length,
  take, take_all, ltb, ◌==◌, Bool-cases, inl, inr, ap, ◌∙◌, subst,
}
use mathlib.Core.List.{append_assoc}
use napastak.Cluster.Proto.{
  Answer, Ending, success, failure, waiting, Sent, Got, write_all, read_all, proto_magic,
  proto_version, header_bytes, prepend, then_write, proto_send, ProtoHeader, from_big_endian,
  parsed, message, max_body, receive_body, received_body, after_header, proto_recv,
}
use napastak.Cluster.Proto.Reading.{Flowing, moves, read_all_lem, write_all_lem}

abbrev pub header : ℕ → ℕ → ℕ → ProtoHeader
header type req_id body_len = record {
  magic = proto_magic;
  version = proto_version;
  msg_type = type;
  request_id = req_id;
  body_len = body_len;
}

pub parsed-header_bytes :
    (type req_id body_len : ℕ)
    → type < 256
    → req_id < 2 ^ 32
    → body_len < 2 ^ 32
    → parsed (header_bytes type req_id body_len) ≡ header type req_id body_len
parsed-header_bytes type req_id body_len t r b =
    let type_back : type % 256 ≡ type = omega arith in
    let req_back : from_big_endian (header_bytes type req_id body_len) 4 ≡ req_id = omega arith in
    let len_back : from_big_endian (header_bytes type req_id body_len) 8 ≡ body_len = omega arith in
    rw (type_back, req_back, len_back) refl

-- What is written, whatever the pieces.
proto_send_lem :
    (qs : List Answer) (type req_id : ℕ) (body : List ℕ)
    → Flowing qs
    → 16 + length body ≤ moves qs
    → let s = proto_send qs type req_id (some body) (length body) in
      (s.bytes ≡ header_bytes type req_id (length body) ++ body) × (s.ending ≡ success)
unfolding proto_send
proto_send_lem qs type req_id [] f h =
    let head : List ℕ = header_bytes type req_id 0 in
    let (rest, eq, left) = write_all_lem qs head f (omega arith) in rw eq (refl, refl)
proto_send_lem qs type req_id (b ∷ body) f h =
    let n = length (b ∷ body) in
    let (rest, eq, left) = write_all_lem qs (header_bytes type req_id n) f (omega arith) in
    let (rest', eq', left') =
      write_all_lem rest (b ∷ body) left.flowing (omega (arith, left.enough)) in
    let whole : take n (b ∷ body) ≡ b ∷ body = take_all n (b ∷ body) (omega arith) in
    let some_body : ltb 0 n ≡ true = ground arith in
    let hb : List ℕ = header_bytes type req_id n in
    let all : then_write (take n (b ∷ body)) (write_all qs hb)
        ≡ record { bytes = hb ++ b ∷ body; ending = success; answers = rest' } =
      ap (then_write (take n (b ∷ body))) eq
      ∙ ap (λ (bs : List ℕ). prepend hb (write_all rest bs)) whole
      ∙ ap (prepend hb) eq' in
    rw some_body (ap (λ (s : Sent). s.bytes) all, ap (λ (s : Sent). s.ending) all)

receive_body_lem :
    (qs : List Answer) (type req_id : ℕ) (body st : List ℕ)
    → Flowing qs
    → length body ≤ moves qs
    → length body ≤ max_body
    → (rest : List Answer) × (receive_body (header type req_id (length body)) qs (body ++ st)
        ≡ message (header type req_id (length body)) body rest st)
unfolding receive_body
receive_body_lem qs type req_id [] st f h small = (qs, refl)
receive_body_lem qs type req_id (b ∷ body) st f h small =
    let n = length (b ∷ body) in
    let (rest, eq, left) = read_all_lem qs n (b ∷ body) st f refl h in
    let some_body : (n == 0) ≡ false = ground arith in
    let fits : ltb max_body n ≡ false = ground arith in
    (rest, rw (some_body, fits) (ap (received_body (header type req_id n)) eq))

-- A message of at most 64 MiB is received as it was sent, and the bytes after it stay in flight, as
-- long as no call fails and enough of them move a byte, however both sockets cut it into pieces.
pub proto_recv-proto_send :
    (ws rs : List Answer) (type req_id : ℕ) (body st : List ℕ)
    → Flowing ws
    → Flowing rs
    → 16 + length body ≤ moves ws
    → 16 + length body ≤ moves rs
    → type < 256
    → req_id < 2 ^ 32
    → length body ≤ max_body
    → let s = proto_send ws type req_id (some body) (length body) in
      (s.ending ≡ success)
      × (rest : List Answer) × (proto_recv rs (s.bytes ++ st)
          ≡ message (header type req_id (length body)) body rest st)
unfolding proto_recv
proto_recv-proto_send ws rs type req_id body st fw fr hw hr t r small =
    let n = length body in
    let head : List ℕ = header_bytes type req_id n in
    let (sent, ok) = proto_send_lem ws type req_id body fw hw in
    let (rs', eq, left) = read_all_lem rs 16 head (body ++ st) fr refl (omega arith) in
    let (rest, got) =
      receive_body_lem rs' type req_id body st left.flowing (omega (arith, left.enough)) small in
    let back : parsed head ≡ header type req_id n =
      parsed-header_bytes type req_id n t r (omega (arith, small)) in
    (
      ok,
      rest,
      ap (λ (bs : List ℕ). after_header (read_all rs 16 (bs ++ st))) sent
          ∙ ap (λ (bs : List ℕ). after_header (read_all rs 16 bs)) (append_assoc head body st)
          ∙ ap after_header eq
          ∙ ap (λ (h : ProtoHeader). receive_body h rs' (body ++ st)) back
          ∙ got,
    )

-- What is required of a header.
abbrev pub Accepted : ProtoHeader → Type 0
Accepted h = (h.magic ≡ proto_magic) × (h.body_len ≤ max_body)

received_body-eq :
    (h h' : ProtoHeader) (g : Got) (body : List ℕ) (rest : List Answer) (st : List ℕ)
    → received_body h g ≡ message h' body rest st
    → h ≡ h'
received_body-eq h h' g body rest st e = by_ending g.ending refl
  where
    by_ending : (x : Ending) → g.ending ≡ x → h ≡ h'
    by_ending success p = cc (rw p at e)
    by_ending failure p = cc (rw p at e)
    by_ending waiting p = cc (rw p at e)

receive_body-Accepted :
    (h h' : ProtoHeader) (qs rest : List Answer) (body st st' : List ℕ)
    → receive_body h qs st ≡ message h' body rest st'
    → Accepted h'
unfolding receive_body
receive_body-Accepted h h' qs rest body st st' e = elim (Bool-cases (h.magic == proto_magic)) [
  | inl magic ↦
      let is_magic : h.magic ≡ proto_magic = ground arith in
      elim (Bool-cases (h.body_len == 0)) [
        | inl empty ↦
            let same : h ≡ h' = cc (rw (magic, empty) at e) in
            subst Accepted same (is_magic, ground arith)
        | inr more ↦ elim (Bool-cases (ltb max_body h.body_len)) [
          | inl large ↦ cc (rw (magic, more, large) at e)
          | inr fits ↦
              let same =
                received_body-eq h h' (read_all qs h.body_len st) body rest st'
                  (rw (magic, more, fits) at e) in
              subst Accepted same (is_magic, ground arith)
        ]
      ]
  | inr other ↦ cc (rw other at e)
]

after_header-Accepted :
    (g : Got) (h : ProtoHeader) (rest : List Answer) (body st : List ℕ)
    → after_header g ≡ message h body rest st
    → Accepted h
after_header-Accepted g h rest body st e = by_ending g.ending refl
  where
    by_ending : (x : Ending) → g.ending ≡ x → Accepted h
    by_ending success p =
        receive_body-Accepted (parsed g.bytes) h g.answers rest body g.stream st (rw p at e)
    by_ending failure p = cc (rw p at e)
    by_ending waiting p = cc (rw p at e)

-- Whatever bytes arrive and however the socket cuts them, a message is received only with the magic
-- number and with a length of at most 64 MiB in its header.
pub proto_recv-Accepted :
    (rs rest : List Answer) (h : ProtoHeader) (body st st' : List ℕ)
    → proto_recv rs st ≡ message h body rest st'
    → Accepted h
unfolding proto_recv
proto_recv-Accepted rs rest h body st st' e =
    after_header-Accepted (read_all rs 16 st) h rest body st' e
