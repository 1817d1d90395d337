-- ===== src/Transport/Wire/Tests.antt =====
-- Runs of wire.rs.
use ticktape.Base.{ℕ, ◌≡◌, refl, some, List, [], ◌∷◌, ◌++◌, ok, err, arith}
use ticktape.Core.Frame.{input, tick}
use ticktape.Transport.{Packet, data_packet, corrupt}
use ticktape.Transport.Wire.{encode, decode, packet_magic}
use ticktape.Transport.Wire.Packets.{IsValidPacket, decode-encode}

abbrev two_frames : Packet
two_frames = data_packet 77 (
    record { seq = 5; timestamp = 100; stream_id = 1; kind = input; payload = 1 ∷ 2 ∷ [] }
    ∷ record { seq = 6; timestamp = 101; stream_id = 1; kind = tick; payload = [] }
    ∷ [])

two_frames-IsValidPacket : IsValidPacket two_frames
two_frames-IsValidPacket = (omega arith, omega arith, (refl, omega arith, (refl, omega arith, tt)))

decode-encode_example :
    (bytes : List ℕ) × (encode two_frames ≡ some bytes) × (decode bytes ≡ ok two_frames)
decode-encode_example = decode-encode two_frames two_frames-IsValidPacket

short_packet : decode (packet_magic ++ (0 ∷ [])) ≡ err (corrupt "short packet header")
unfolding decode
short_packet = refl
