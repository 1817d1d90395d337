-- ===== src/Transport/Wire.antt =====
-- crates/ticktape-transport/src/wire.rs: the layout of packets and of retransmit requests.
pub mod Packets
pub mod Requests
mod Tests
use ticktape.Base.{
  ℕ, zero, suc, ◌+◌, ◌-◌, ◌%◌, ◌^◌, Bool, true, false, not, ◌&&◌, Option, none, some, List, [], ◌∷◌,
  ◌++◌, ltb, ◌==◌, if◌then◌else◌, length, take, drop, slice, ok, err, ◌>>=◌, ◌>>◌, reject_if,
}
use ticktape.Base.Result.{Result}
use ticktape.Core.Bytes.{to_le_bytes, from_le_bytes}
use ticktape.Core.Crc32c.{crc32c_sw}
use ticktape.Core.Frame.Runs.{write_frames}
use ticktape.Core.Frame.{Frame, FrameError, write_to, encoded_len, read_from}
use ticktape.Transport.{TransportError, corrupt, frame, Packet, data_packet, heartbeat}

-- "TKTW"
abbrev pub packet_magic : List ℕ
packet_magic = 84 ∷ 75 ∷ 84 ∷ 87 ∷ []

-- "TKTR"
abbrev pub request_magic : List ℕ
request_magic = 84 ∷ 75 ∷ 84 ∷ 82 ∷ []

abbrev pub packet_header_len : ℕ
packet_header_len = 27

abbrev pub request_len : ℕ
request_len = 28

abbrev pub kind_data : ℕ
kind_data = 0

abbrev pub kind_heartbeat : ℕ
kind_heartbeat = 1

abbrev pub eq_bytes : List ℕ → List ℕ → Bool
eq_bytes [] [] = true
eq_bytes [] (y ∷ ys) = false
eq_bytes (x ∷ xs) [] = false
eq_bytes (x ∷ xs) (y ∷ ys) = (x == y) && eq_bytes xs ys

-- Bytes [0, 23) of a packet, which the header checksum covers.
pub packet_header : ℕ → ℕ → ℕ → ℕ → List ℕ
packet_header kind count session first_seq =
    packet_magic
    ++ (kind ∷ to_le_bytes 2 count ++ (to_le_bytes 8 session ++ to_le_bytes 8 first_seq))

pub encode_header_into : ℕ → ℕ → ℕ → ℕ → List ℕ → List ℕ
unfolding packet_header
encode_header_into kind count session first_seq out =
    let h = packet_header kind count session first_seq in out ++ (h ++ to_le_bytes 4 (crc32c_sw h))

pub frames_len : List Frame → ℕ
frames_len [] = 0
frames_len (f ∷ fs) = encoded_len f + frames_len fs

pub data_packet_len : List Frame → ℕ
unfolding frames_len
data_packet_len frames = packet_header_len + frames_len frames

-- `frames[0]` panics when there is none: no bytes. `out` is cleared first.
pub encode_data_into : ℕ → List Frame → Option (List ℕ)
unfolding encode_header_into write_frames
encode_data_into session [] = none
encode_data_into session (f ∷ fs) = some (
    write_frames (f ∷ fs)
      (encode_header_into kind_data (length (f ∷ fs) % 2 ^ 16) session f.seq []))

pub encode : Packet → Option (List ℕ)
unfolding encode_data_into
encode (data_packet session frames) = encode_data_into session frames
encode (heartbeat session next_seq) = some (encode_header_into kind_heartbeat 0 session next_seq [])

-- `?` on a frame error.
abbrev pub from_frame_error {ℓ} : {A : Type ℓ} → Result FrameError A → Result TransportError A
from_frame_error (ok a) = ok a
from_frame_error (err e) = err (frame e)

-- `for i in 0..count`: the frames read so far, the next one's number, and what is left to read.
pub read_frames : ℕ → ℕ → List Frame → List ℕ → Result TransportError (List Frame × List ℕ)
read_frames zero expected frames cursor = ok (frames, cursor)
read_frames (suc n) expected frames cursor = do
  (f, cursor') ← from_frame_error (read_from cursor)
  reject_if (not (f.seq == expected % 2 ^ 64)) (corrupt "non-contiguous frames in packet")
  read_frames n (expected + 1) (frames ++ (f ∷ [])) cursor'

pub decode_data : ℕ → ℕ → ℕ → List ℕ → Result TransportError Packet
unfolding read_frames
decode_data count session first_seq bytes = do
  reject_if (count == 0) (corrupt "data packet with zero frames")
  (frames, cursor) ← read_frames count first_seq [] (drop packet_header_len bytes)
  reject_if (not (length cursor == 0)) (corrupt "trailing bytes after frames")
  ok (data_packet session frames)

pub decode_kind : ℕ → ℕ → ℕ → ℕ → List ℕ → Result TransportError Packet
unfolding decode_data
decode_kind kind count session first_seq bytes =
    if kind == kind_heartbeat
    then ok (heartbeat session first_seq)
    else if kind == kind_data
    then decode_data count session first_seq bytes
    else err (corrupt "unknown packet kind")

pub decode : List ℕ → Result TransportError Packet
unfolding decode_kind
decode bytes = do
  reject_if (ltb (length bytes) packet_header_len) (corrupt "short packet header")
  reject_if (not (eq_bytes (slice 0 4 bytes) packet_magic)) (corrupt "bad packet magic")
  reject_if (not (crc32c_sw (slice 0 23 bytes) == from_le_bytes (slice 23 27 bytes)))
      (corrupt "packet header CRC mismatch")
  decode_kind (from_le_bytes (slice 4 5 bytes)) (from_le_bytes (slice 5 7 bytes))
      (from_le_bytes (slice 7 15 bytes)) (from_le_bytes (slice 15 23 bytes)) bytes

pub record RetransmitRequest : Type 0 where
  pub session : ℕ
  pub from : ℕ
  pub count : ℕ

-- Bytes [0, 24) of a request.
pub request_header : RetransmitRequest → List ℕ
request_header r =
    request_magic ++ (to_le_bytes 8 r.session ++ (to_le_bytes 8 r.from ++ to_le_bytes 4 r.count))

pub encode_request : RetransmitRequest → List ℕ
unfolding request_header
encode_request r = request_header r ++ to_le_bytes 4 (crc32c_sw (request_header r))

pub decode_request : List ℕ → Result TransportError RetransmitRequest
decode_request bytes = do
  reject_if (ltb (length bytes) request_len) (corrupt "short retransmit request")
  reject_if (not (eq_bytes (slice 0 4 bytes) request_magic)) (corrupt "bad request magic")
  reject_if (not (crc32c_sw (slice 0 24 bytes) == from_le_bytes (slice 24 28 bytes)))
      (corrupt "request CRC mismatch")
  let request : RetransmitRequest = record {
    session = from_le_bytes (slice 4 12 bytes);
    from = from_le_bytes (slice 12 20 bytes);
    count = from_le_bytes (slice 20 24 bytes);
  }
  ok request
