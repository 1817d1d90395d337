-- ===== src/Transport/Wire/Requests.antt =====
-- Decoding an encoded retransmit request.
use ticktape.Base.{
  ℕ, ◌+◌, ◌^◌, ◌<◌, ◌≤◌, ◌≡◌, refl, sym, ap, ◌∙◌, true, List, ◌++◌, length, slice, ok, arith,
}
use ticktape.Core.Bytes.{to_le_bytes, from_le_bytes}
use ticktape.Core.Crc32c.{crc32c_sw, crc32c_sw-lt}
use ticktape.Transport.Wire.{
  RetransmitRequest, request_header, encode_request, decode_request, eq_bytes, request_magic,
}
use ticktape.Transport.Wire.Packets.{field_back}

module _ (r : RetransmitRequest) (rest : List ℕ) where
  abbrev sent : List ℕ
  sent = encode_request r ++ rest

  sent-magic : slice 0 4 sent ≡ request_magic
  unfolding encode_request request_header to_le_bytes
  sent-magic = refl

  sent-crc : slice 24 28 sent ≡ to_le_bytes 4 (crc32c_sw (slice 0 24 sent))
  unfolding encode_request request_header to_le_bytes
  sent-crc = refl

  sent-session : slice 4 12 sent ≡ to_le_bytes 8 r.session
  unfolding encode_request request_header to_le_bytes
  sent-session = refl

  sent-from : slice 12 20 sent ≡ to_le_bytes 8 r.from
  unfolding encode_request request_header to_le_bytes
  sent-from = refl

  sent-count : slice 20 24 sent ≡ to_le_bytes 4 r.count
  unfolding encode_request request_header to_le_bytes
  sent-count = refl

  length-sent : length sent ≡ 28 + length rest
  unfolding encode_request request_header to_le_bytes
  length-sent = omega arith

decode_request-guards :
    (bytes : List ℕ)
    → 28 ≤ length bytes
    → eq_bytes (slice 0 4 bytes) request_magic ≡ true
    → crc32c_sw (slice 0 24 bytes) ≡ from_le_bytes (slice 24 28 bytes)
    → decode_request bytes
      ≡ ok (record {
        session = from_le_bytes (slice 4 12 bytes);
        from = from_le_bytes (slice 12 20 bytes);
        count = from_le_bytes (slice 20 24 bytes);
      })
unfolding decode_request
decode_request-guards bytes long magic crc = ground arith

-- The bytes of a retransmit request whose numbers fit their fields, followed by anything, decode to
-- that request.
decode_request-encode_request :
    (r : RetransmitRequest) (rest : List ℕ)
    → r.session < 256 ^ 8
    → r.from < 256 ^ 8
    → r.count < 256 ^ 4
    → decode_request (encode_request r ++ rest) ≡ ok r
decode_request-encode_request r rest s f c =
    decode_request-guards (sent r rest) (omega (arith, length-sent r rest))
      (ap (λ m. eq_bytes m request_magic) (sent-magic r rest))
      (sym (field_back 4 _ _ (crc32c_sw-lt _) (sent-crc r rest)))
    ∙ λ i. ok (record {
      session = field_back 8 r.session _ s (sent-session r rest) i;
      from = field_back 8 r.from _ f (sent-from r rest) i;
      count = field_back 4 r.count _ c (sent-count r rest) i;
    })
