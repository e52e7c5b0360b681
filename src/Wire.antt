-- ===== src/Wire.antt =====
-- IOCPCommunication/include/IOCPDef.h (the packet header and the buffer sizes) and the two framing
-- loops of IOCPCommunication/source/IOCPBase.cpp: `PackSendData` cuts a message into buffers of at
-- most 512 bytes, `UnpackReceivedData` finds the messages in what has been received so far.
-- A buffer is the list of its valid bytes, a byte a number below 256.
pub mod Header
pub mod Pack
pub mod Unpack
pub mod Stream
pub mod Split
pub mod Overflow
use my_communication.Prelude.{
  ℕ, zero, suc, ◌+◌, ◌-◌, ◌*◌, ◌/◌, ◌%◌, ◌^◌, ◌≤◌, ◌<◌, min, Bool, true, false, not, ◌&&◌, ◌||◌,
  List, [], ◌∷◌, ◌++◌, Option, none, some, ltb, leb, ◌==◌, if◌then◌else◌, length, take, drop,
}

abbrev pub max_buf_len : ℕ
max_buf_len = 512

abbrev pub max_rcv_buf_len : ℕ
max_rcv_buf_len = 5120

abbrev pub check_value : ℕ
check_value = 0xfafbfcfd

-- `sizeof(PackHeader)`: three packed 32-bit fields (`unsigned long` has 32 bits on Windows).
abbrev pub header_size : ℕ
header_size = 12

pub record PackHeader : Type 0 where
  pub check : ℕ
  pub msg_type : ℕ
  pub body_length : ℕ

-- A 32-bit field in memory, lowest byte first.
abbrev pub to_bytes : ℕ → List ℕ
to_bytes n = n % 256 ∷ n / 256 % 256 ∷ n / 65536 % 256 ∷ n / 16777216 % 256 ∷ []

-- What a field holds. Where bytes are missing the code reads what an earlier message left behind,
-- and then tests the length before it uses the value; the model reads 0.
abbrev pub of_bytes : List ℕ → ℕ
of_bytes (a ∷ b ∷ c ∷ d ∷ rest) = a + 256 * b + 65536 * c + 16777216 * d
of_bytes _ = 0

unfoldable pub encode_header : PackHeader → List ℕ
encode_header h = to_bytes h.check ++ (to_bytes h.msg_type ++ to_bytes h.body_length)

-- `(PackHeader*)buf`
unfoldable pub decode_header : List ℕ → PackHeader
decode_header buf = record {
  check = of_bytes buf;
  msg_type = of_bytes (drop 4 buf);
  body_length = of_bytes (drop 8 buf);
}

-- `uCurrentCpyLen` in round `i`.
pub copy_length : ℕ → ℕ → ℕ
copy_length i left_len =
    if i == 0 then min left_len (max_buf_len - header_size) else min left_len max_buf_len

-- The content of the buffer that round `i` fills.
pub fill_buffer : ℕ → ℕ → ℕ → ℕ → List ℕ → List ℕ
fill_buffer i msg_type len copied bytes =
    if i == 0
    then encode_header (record { check = check_value; msg_type = msg_type; body_length = len })
      ++ take copied bytes
    else take copied bytes

abbrev pub prepend_chunk : List ℕ → Option (List (List ℕ)) → Option (List (List ℕ))
prepend_chunk c none = none
prepend_chunk c (some cs) = some (c ∷ cs)

-- The loop of `PackSendData` over the rounds: the buffers that it queues, in order. `none` means
-- that the fuel ran out. Its test `uLeftLen < 0` of an unsigned number never passes.
unfoldable pub pack_loop : ℕ → ℕ → ℕ → ℕ → ℕ → List ℕ → Option (List (List ℕ))
unfolding copy_length fill_buffer encode_header
pack_loop zero i msg_type len left_len bytes = none
pack_loop (suc fuel) i msg_type len left_len bytes =
    let copied = copy_length i left_len in
    let rest =
      prepend_chunk (fill_buffer i msg_type len copied bytes)
        (pack_loop fuel (i + 1) msg_type len (left_len - copied) (drop copied bytes)) in
    if left_len == 0 then some [] else rest

-- Each round but the last takes at least one byte.
unfoldable pub pack_buffers : ℕ → List ℕ → Option (List (List ℕ))
pack_buffers msg_type bytes =
    pack_loop (suc (length bytes)) 0 msg_type (length bytes) (length bytes) bytes

-- A call of `HandData`: the message type, the length that is passed on, and those of its bytes
-- that lie in the buffer.
pub record Delivery : Type 0 where
  pub msg_type : ℕ
  pub len : ℕ
  pub body : List ℕ

pub data Fault : Type 0 where
  too_long bad_check closed_by_peer : Fault

-- How a round of receiving ends: with the next receive posted behind the bytes that are left, or
-- with `PostDisconnectEx`; in both cases after some deliveries.
pub data Outcome : Type 0 where
  waits : List Delivery → List ℕ → Outcome
  drops : List Delivery → Fault → Outcome

abbrev pub deliver_all : List Delivery → Outcome → Outcome
deliver_all ds (waits es rest) = waits (ds ++ es) rest
deliver_all ds (drops es f) = drops (ds ++ es) f

abbrev pub deliver : Delivery → Option Outcome → Option Outcome
deliver d none = none
deliver d (some o) = some (deliver_all (d ∷ []) o)

-- `uPackLength`, an `unsigned`.
unfoldable pub pack_length : List ℕ → ℕ
pack_length buf = (header_size + (decode_header buf).body_length) % 2 ^ 32

unfoldable pub first_delivery : List ℕ → Delivery
first_delivery buf = record {
  msg_type = (decode_header buf).msg_type;
  len = (decode_header buf).body_length;
  body = take (decode_header buf).body_length (drop header_size buf);
}

-- The loop of `UnpackReceivedData` from `buf` on.
unfoldable pub unpack_loop : ℕ → List ℕ → Option Outcome
unpack_loop zero buf = none
unpack_loop (suc fuel) buf =
    let rest = deliver (first_delivery buf) (unpack_loop fuel (drop (pack_length buf) buf)) in
    if leb header_size (length buf) && ltb max_rcv_buf_len (pack_length buf)
    then some (drops [] too_long)
    else if ltb (length buf) header_size || ltb (length buf) (pack_length buf)
    then some (waits [] buf)
    else if not ((decode_header buf).check == check_value)
    then some (drops [] bad_check)
    else rest

unfoldable pub unpack_buffer : List ℕ → Option Outcome
unpack_buffer buf = unpack_loop (suc (length buf)) buf

-- Successive completed receives on one connection (`HandReceive`), from the bytes kept so far. A
-- receive of no bytes means that the peer has closed the connection.
abbrev pub after_receive : List Delivery → Option Outcome → Option Outcome
after_receive ds none = none
after_receive ds (some o) = some (deliver_all ds o)

abbrev pub then_receive : Option Outcome → (List ℕ → Option Outcome) → Option Outcome
then_receive none next = none
then_receive (some (drops ds f)) next = some (drops ds f)
then_receive (some (waits ds rest)) next = after_receive ds (next rest)

unfoldable pub receive_all : List ℕ → List (List ℕ) → Option Outcome
receive_all kept [] = some (waits [] kept)
receive_all kept ([] ∷ segments) = some (drops [] closed_by_peer)
receive_all kept ((b ∷ bs) ∷ segments) =
    then_receive (unpack_buffer (kept ++ b ∷ bs)) (λ rest. receive_all rest segments)

-- The buffers that successive calls of `PackSendData` queue.
abbrev pub join : Option (List (List ℕ)) → Option (List (List ℕ)) → Option (List (List ℕ))
join none cs = none
join (some bs) none = none
join (some bs) (some cs) = some (bs ++ cs)
