-- ===== src/Core/Frame.antt =====
-- crates/ticktape-core/src/frame.rs: the record layout of the wire and the journal.
pub mod Layout
pub mod Runs
pub mod RoundTrip
pub mod Truncation
pub mod Exact
mod Tests
use ticktape.Base.{
  ℕ, zero, suc, ◌+◌, ◌-◌, ◌*◌, ◌%◌, ◌^◌, ◌<◌, ◌≤◌, ◌≡◌, refl, Bool, true, false, not, Option, none,
  some, List, [], ◌∷◌, ◌++◌, ltb, ◌==◌, if◌then◌else◌, length, take, drop, slice, ok, err, ◌>>=◌,
  ◌>>◌, reject_if, ok_or,
}
use ticktape.Base.Result.{Result}
use ticktape.Core.Bytes.{to_le_bytes, from_le_bytes}
use ticktape.Core.Crc32c.{crc32c_sw}

abbrev pub frame_header_len : ℕ
frame_header_len = 28

abbrev pub max_payload_len : ℕ
max_payload_len = 64 * 1024 * 1024

pub data FrameKind : Type 0 where
  input output tick timer_fired session_open session_close : FrameKind
  snapshot_mark epoch_change heartbeat : FrameKind

-- `kind as u16`
pub to_u16 : FrameKind → ℕ
to_u16 input = 0x0001
to_u16 output = 0x0002
to_u16 tick = 0x0010
to_u16 timer_fired = 0x0013
to_u16 session_open = 0x0011
to_u16 session_close = 0x0012
to_u16 snapshot_mark = 0x0020
to_u16 epoch_change = 0x0030
to_u16 heartbeat = 0x00FF

pub from_u16 : ℕ → Option FrameKind
from_u16 v =
    if v == 0x0001
    then some input
    else if v == 0x0002
    then some output
    else if v == 0x0010
    then some tick
    else if v == 0x0013
    then some timer_fired
    else if v == 0x0011
    then some session_open
    else if v == 0x0012
    then some session_close
    else if v == 0x0020
    then some snapshot_mark
    else if v == 0x0030
    then some epoch_change
    else if v == 0x00FF
    then some heartbeat
    else none

pub data FrameError : Type 0 where
  truncated header_crc payload_crc : FrameError
  unknown_kind payload_too_large : ℕ → FrameError

pub record Frame : Type 0 where
  pub seq : ℕ
  pub timestamp : ℕ
  pub stream_id : ℕ
  pub kind : FrameKind
  pub payload : List ℕ

-- `Frame::new` panics on a payload above the cap: no frame.
unfoldable pub new : ℕ → ℕ → ℕ → FrameKind → List ℕ → Option Frame
new seq timestamp stream_id kind payload =
    if ltb max_payload_len (length payload)
    then none
    else some (record {
      seq = seq;
      timestamp = timestamp;
      stream_id = stream_id;
      kind = kind;
      payload = payload;
    })

unfoldable pub encoded_len : Frame → ℕ
encoded_len f = frame_header_len + length f.payload + 4

-- Bytes [0, 24), which the header checksum covers.
pub header : Frame → List ℕ
header f =
    to_le_bytes 8 f.seq
    ++ (to_le_bytes 8 f.timestamp
        ++ (to_le_bytes 2 f.stream_id
            ++ (to_le_bytes 2 (to_u16 f.kind) ++ to_le_bytes 4 (length f.payload % 2 ^ 32))))

pub write_to : Frame → List ℕ → List ℕ
unfolding header
write_to f out =
    out
    ++ (header f
        ++ (to_le_bytes 4 (crc32c_sw (header f))
            ++ (f.payload ++ to_le_bytes 4 (crc32c_sw f.payload))))

pub to_bytes : Frame → List ℕ
unfolding write_to
to_bytes f = write_to f []

-- What follows the header: the length is known and the kind is good.
pub read_payload : List ℕ → FrameKind → ℕ → Result FrameError (Frame × List ℕ)
read_payload buf kind payload_len = do
  let total = frame_header_len + payload_len + 4
  let payload = slice frame_header_len (frame_header_len + payload_len) buf
  reject_if (ltb (length buf) total) truncated
  reject_if (not (crc32c_sw payload == from_le_bytes (slice (total - 4) total buf))) payload_crc
  let frame : Frame = record {
    seq = from_le_bytes (slice 0 8 buf);
    timestamp = from_le_bytes (slice 8 16 buf);
    stream_id = from_le_bytes (slice 16 18 buf);
    kind = kind;
    payload = payload;
  }
  ok (frame, drop total buf)

-- One frame from the front of `buf`, with the bytes behind it.
pub read_from : List ℕ → Result FrameError (Frame × List ℕ)
read_from buf = do
  reject_if (ltb (length buf) frame_header_len) truncated
  reject_if (not (crc32c_sw (take 24 buf) == from_le_bytes (slice 24 28 buf))) header_crc
  let payload_len = from_le_bytes (slice 20 24 buf)
  reject_if (ltb max_payload_len payload_len) (payload_too_large payload_len)
  let kind_raw = from_le_bytes (slice 18 20 buf)
  kind ← ok_or (from_u16 kind_raw) (unknown_kind kind_raw)
  read_payload buf kind payload_len
