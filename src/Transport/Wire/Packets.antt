-- ===== src/Transport/Wire/Packets.antt =====
-- Decoding an encoded packet.
use ticktape.Base.{
  ℕ, suc, ◌+◌, ◌%◌, ◌^◌, ◌<◌, ◌≤◌, ◌≡◌, refl, sym, ap, ◌∙◌, true, some, List, [], ◌∷◌, ◌++◌, length,
  drop, slice, ok, arith, append-nil, append_assoc,
}
use native.Mathlib.Nat.{mod-eq_of_lt}
use ticktape.Core.Bytes.{to_le_bytes, from_le_bytes, from_le_bytes-to_le_bytes}
use ticktape.Core.Crc32c.{crc32c_sw, crc32c_sw-lt}
use ticktape.Core.Frame.{Frame, to_bytes, read_from}
use ticktape.Core.Frame.Runs.{Contiguous, frames_bytes, write_frames-append}
use ticktape.Core.Frame.RoundTrip.{read_from-to_bytes}
use ticktape.Transport.{Packet, data_packet, heartbeat}
use ticktape.Transport.Wire.{
  packet_header, encode_header_into, encode_data_into, encode, read_frames, decode_data,
  decode_kind, decode, eq_bytes, packet_magic, kind_data, kind_heartbeat,
}

read_frames-step :
    (n expected : ℕ) (acc : List Frame) (f : Frame) (cursor rest : List ℕ)
    → read_from cursor ≡ ok (f, rest)
    → f.seq ≡ expected
    → expected % 2 ^ 64 ≡ expected
    → read_frames (suc n) expected acc cursor ≡ read_frames n (expected + 1) (acc ++ (f ∷ [])) rest
unfolding read_frames
read_frames-step n expected acc f cursor rest r e m = rw r (ground (arith, e, m))

read_frames-bytes :
    (fs acc : List Frame) (n : ℕ)
    → Contiguous n fs
    → read_frames (length fs) n acc (frames_bytes fs) ≡ ok (acc ++ fs, [])
unfolding read_frames
read_frames-bytes [] acc n h = ap (λ l. ok (l, [])) (sym (append-nil acc))
read_frames-bytes (f ∷ fs) acc n (e, v, h) =
    read_frames-step (length fs) n acc f (to_bytes f ++ frames_bytes fs) (frames_bytes fs)
      (read_from-to_bytes f v (frames_bytes fs)) e (mod-eq_of_lt (omega (arith, v.seq_fits)))
    ∙ read_frames-bytes fs (acc ++ (f ∷ [])) (n + 1) h
    ∙ ap (λ l. ok (l, [])) (append_assoc acc (f ∷ []) fs)

-- A header in front of `rest`.
abbrev headed : ℕ → ℕ → ℕ → ℕ → List ℕ → List ℕ
headed kind count session first rest = encode_header_into kind count session first [] ++ rest

module _ (kind count session first : ℕ) (rest : List ℕ) where
  headed-magic : slice 0 4 (headed kind count session first rest) ≡ packet_magic
  unfolding encode_header_into packet_header to_le_bytes
  headed-magic = refl

  headed-crc :
      slice 23 27 (headed kind count session first rest)
      ≡ to_le_bytes 4 (crc32c_sw (slice 0 23 (headed kind count session first rest)))
  unfolding encode_header_into packet_header to_le_bytes
  headed-crc = refl

  headed-kind : from_le_bytes (slice 4 5 (headed kind count session first rest)) ≡ kind
  unfolding encode_header_into packet_header to_le_bytes from_le_bytes
  headed-kind = omega arith

  headed-count : slice 5 7 (headed kind count session first rest) ≡ to_le_bytes 2 count
  unfolding encode_header_into packet_header to_le_bytes
  headed-count = refl

  headed-session : slice 7 15 (headed kind count session first rest) ≡ to_le_bytes 8 session
  unfolding encode_header_into packet_header to_le_bytes
  headed-session = refl

  headed-first : slice 15 23 (headed kind count session first rest) ≡ to_le_bytes 8 first
  unfolding encode_header_into packet_header to_le_bytes
  headed-first = refl

  headed-rest : drop 27 (headed kind count session first rest) ≡ rest
  unfolding encode_header_into packet_header to_le_bytes
  headed-rest = refl

  length-headed : length (headed kind count session first rest) ≡ 27 + length rest
  unfolding encode_header_into packet_header to_le_bytes
  length-headed = omega arith

decode-guards :
    (bytes : List ℕ)
    → 27 ≤ length bytes
    → eq_bytes (slice 0 4 bytes) packet_magic ≡ true
    → crc32c_sw (slice 0 23 bytes) ≡ from_le_bytes (slice 23 27 bytes)
    → decode bytes
      ≡ decode_kind
          (from_le_bytes (slice 4 5 bytes))
          (from_le_bytes (slice 5 7 bytes))
          (from_le_bytes (slice 7 15 bytes))
          (from_le_bytes (slice 15 23 bytes))
          bytes
unfolding decode
decode-guards bytes long magic crc = ground arith

-- The guards of `decode`, passed one by one.
decode-passes :
    (bytes : List ℕ) (kind count session first : ℕ)
    → 27 ≤ length bytes
    → slice 0 4 bytes ≡ packet_magic
    → crc32c_sw (slice 0 23 bytes) ≡ from_le_bytes (slice 23 27 bytes)
    → from_le_bytes (slice 4 5 bytes) ≡ kind
    → from_le_bytes (slice 5 7 bytes) ≡ count
    → from_le_bytes (slice 7 15 bytes) ≡ session
    → from_le_bytes (slice 15 23 bytes) ≡ first
    → decode bytes ≡ decode_kind kind count session first bytes
decode-passes bytes kind count session first long magic crc k c s f =
    decode-guards bytes long (ap (λ m. eq_bytes m packet_magic) magic) crc ∙ λ i.
    decode_kind (k i) (c i) (s i) (f i) bytes

-- A number found again in its field.
pub field_back : (w v : ℕ) (bs : List ℕ) → v < 256 ^ w → bs ≡ to_le_bytes w v → from_le_bytes bs ≡ v
field_back w v bs h e = ap from_le_bytes e ∙ from_le_bytes-to_le_bytes w v h

decode-headed :
    (kind count session first : ℕ) (rest : List ℕ)
    → count < 256 ^ 2
    → session < 256 ^ 8
    → first < 256 ^ 8
    → decode (headed kind count session first rest)
      ≡ decode_kind kind count session first (headed kind count session first rest)
decode-headed kind count session first rest c s f =
    decode-passes (headed kind count session first rest) kind count session first
      (omega (arith, length-headed kind count session first rest))
      (headed-magic kind count session first rest)
      (sym (field_back 4 _ _ (crc32c_sw-lt _) (headed-crc kind count session first rest)))
      (headed-kind kind count session first rest)
      (field_back 2 count _ c (headed-count kind count session first rest))
      (field_back 8 session _ s (headed-session kind count session first rest))
      (field_back 8 first _ f (headed-first kind count session first rest))

decode_data-headed :
    (kind count session first : ℕ) (fs : List Frame) (rest : List ℕ)
    → count ≡ length fs
    → 0 < length fs
    → Contiguous first fs
    → rest ≡ frames_bytes fs
    → decode_data count session first (headed kind count session first rest)
      ≡ ok (data_packet session fs)
unfolding decode_data
decode_data-headed kind count session first fs rest c some_frames h r =
    rw (headed-rest kind count session first rest, r, c, read_frames-bytes fs [] first h)
      (ground arith)

decode_kind-data :
    (count session first : ℕ) (bytes : List ℕ)
    → decode_kind kind_data count session first bytes ≡ decode_data count session first bytes
unfolding decode_kind
decode_kind-data count session first bytes = refl

decode_kind-heartbeat :
    (count session first : ℕ) (bytes : List ℕ)
    → decode_kind kind_heartbeat count session first bytes ≡ ok (heartbeat session first)
unfolding decode_kind
decode_kind-heartbeat count session first bytes = refl

-- What a publisher sends: its numbers fit their fields, and a data packet carries between one frame
-- and as many as its count can tell, valid and with consecutive seqs.
abbrev pub IsValidPacket : Packet → Type 0
IsValidPacket (data_packet session []) = ⊥
IsValidPacket (data_packet session (f ∷ fs)) =
    (session < 256 ^ 8) × (length (f ∷ fs) < 256 ^ 2) × Contiguous f.seq (f ∷ fs)
IsValidPacket (heartbeat session next_seq) = (session < 256 ^ 8) × (next_seq < 256 ^ 8)

encode_data-headed :
    (session : ℕ) (f : Frame) (fs : List Frame)
    → length (f ∷ fs) < 256 ^ 2
    → encode (data_packet session (f ∷ fs))
      ≡ some (headed kind_data (length (f ∷ fs)) session f.seq (frames_bytes (f ∷ fs)))
unfolding encode encode_data_into
encode_data-headed session f fs n = ap some (
    write_frames-append (f ∷ fs) _
    ∙ ap (λ c. headed kind_data c session f.seq (frames_bytes (f ∷ fs)))
        (mod-eq_of_lt (omega (arith, n))))

encode_heartbeat-headed :
    (session next_seq : ℕ)
    → encode (heartbeat session next_seq) ≡ some (headed kind_heartbeat 0 session next_seq [])
unfolding encode
encode_heartbeat-headed session next_seq = ap some (sym (append-nil _))

-- A packet whose numbers fit their fields, and which carries, if it is a data packet, from one to
-- 65535 valid frames with consecutive seqs, is encoded, and decoding its bytes gives the packet
-- back.
pub decode-encode :
    (p : Packet)
    → IsValidPacket p
    → (bytes : List ℕ) × (encode p ≡ some bytes) × (decode bytes ≡ ok p)
decode-encode (data_packet session []) v = absurd v
decode-encode (data_packet session (f ∷ fs)) (s, n, h) = (
  headed kind_data (length (f ∷ fs)) session f.seq (frames_bytes (f ∷ fs)),
  encode_data-headed session f fs n,
  decode-headed kind_data (length (f ∷ fs)) session f.seq _ n s (h.1).seq_fits
      ∙ decode_kind-data _ session f.seq _
      ∙ decode_data-headed kind_data (length (f ∷ fs)) session f.seq (f ∷ fs) _ refl (omega arith) h
          refl,
)
decode-encode (heartbeat session next_seq) (s, n) = (
  headed kind_heartbeat 0 session next_seq [],
  encode_heartbeat-headed session next_seq,
  decode-headed kind_heartbeat 0 session next_seq [] (omega arith) s n
      ∙ decode_kind-heartbeat 0 session next_seq _,
)
