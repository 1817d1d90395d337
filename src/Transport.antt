-- ===== src/Transport.antt =====
-- crates/ticktape-transport: packets and the in-order stream. The errors of lib.rs.
pub mod Reassembler
pub mod Wire
use ticktape.Base.{ℕ, List}
use ticktape.Core.Frame.{Frame, FrameError}
use Prim.Native.String.{String}

pub data TransportError : Type 0 where
  corrupt : String → TransportError
  frame : FrameError → TransportError
  session_mismatch : ℕ → ℕ → TransportError
  gap_unrecoverable : ℕ → ℕ → TransportError

-- One datagram of the sequenced stream (wire.rs).
pub data Packet : Type 0 where
  data_packet : ℕ → List Frame → Packet
  heartbeat : ℕ → ℕ → Packet

unfoldable pub session : Packet → ℕ
session (data_packet s frames) = s
session (heartbeat s next_seq) = s
