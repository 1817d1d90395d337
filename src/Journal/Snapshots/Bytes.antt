-- ===== src/Journal/Snapshots/Bytes.antt =====
-- Snapshot files, written and parsed.
use ticktape.Base.{
  ℕ, ◌+◌, ◌-◌, ◌%◌, ◌^◌, ◌<◌, ◌≤◌, ◌≡◌, refl, sym, ap, ◌∙◌, inl, inr, true, none, some, List, ◌++◌,
  ltb, length, length-append, length-take, take, drop, slice, arith, take_append, drop_append,
  drop-drop, take_behind, Bool-cases, ltb→lt, ltb_false→le, append-nil,
}
use native.Mathlib.Nat.{mod-eq_of_lt}
use ticktape.Core.Bytes.{to_le_bytes, from_le_bytes, length-to_le_bytes}
use ticktape.Core.Crc32c.{crc32c_sw, crc32c_sw-lt}
use ticktape.Core.Frame.RoundTrip.{field_read}
use ticktape.Transport.Wire.{eq_bytes}
use ticktape.Journal.Snapshots.{
  snapshot_magic, snapshot_fields, snapshot_bytes, parse_snapshot, parse_payload,
}

parse_snapshot-passes :
    (bytes payload : List ℕ) (seq epoch n : ℕ)
    → 32 + n + 4 ≤ length bytes
    → eq_bytes (slice 0 4 bytes) snapshot_magic ≡ true
    → from_le_bytes (slice 4 8 bytes) ≡ 1
    → crc32c_sw (slice 0 28 bytes) ≡ from_le_bytes (slice 28 32 bytes)
    → from_le_bytes (slice 24 28 bytes) ≡ n
    → slice 32 (32 + n) bytes ≡ payload
    → crc32c_sw payload ≡ from_le_bytes (slice (32 + n + 4 - 4) (32 + n + 4) bytes)
    → from_le_bytes (slice 8 16 bytes) ≡ seq
    → from_le_bytes (slice 16 24 bytes) ≡ epoch
    → parse_snapshot bytes ≡ some (record { seq = seq; epoch = epoch; payload = payload })
unfolding parse_snapshot parse_payload
parse_snapshot-passes bytes payload seq epoch n long m v c l p q s e = ground arith

parse_payload-short :
    (bytes : List ℕ) (n : ℕ) → length bytes < 32 + n + 4 → parse_payload bytes n ≡ none
unfolding parse_payload
parse_payload-short bytes n h =
    let torn : ltb (length bytes) (32 + n + 4) ≡ true = ground (arith, h) in rw torn refl

parse_snapshot-short :
    (bytes : List ℕ)
    → length bytes < 32 + from_le_bytes (slice 24 28 bytes) + 4
    → parse_snapshot bytes ≡ none
unfolding parse_snapshot
parse_snapshot-short bytes h =
    ground (arith, parse_payload-short bytes (from_le_bytes (slice 24 28 bytes)) h)

module _ (seq epoch : ℕ) (payload : List ℕ) where
  length-snapshot_fields : length (snapshot_fields seq epoch payload) ≡ 28
  unfolding snapshot_fields to_le_bytes
  length-snapshot_fields = refl

  -- The fields, followed by anything.
  module _ (rest : List ℕ) where
    fielded-magic :
        eq_bytes (slice 0 4 (snapshot_fields seq epoch payload ++ rest)) snapshot_magic ≡ true
    unfolding snapshot_fields to_le_bytes
    fielded-magic = refl

    fielded-version : from_le_bytes (slice 4 8 (snapshot_fields seq epoch payload ++ rest)) ≡ 1
    unfolding snapshot_fields to_le_bytes from_le_bytes
    fielded-version = refl

    fielded-seq : slice 8 16 (snapshot_fields seq epoch payload ++ rest) ≡ to_le_bytes 8 seq
    unfolding snapshot_fields to_le_bytes
    fielded-seq = refl

    fielded-epoch : slice 16 24 (snapshot_fields seq epoch payload ++ rest) ≡ to_le_bytes 8 epoch
    unfolding snapshot_fields to_le_bytes
    fielded-epoch = refl

    fielded-len :
        slice 24 28 (snapshot_fields seq epoch payload ++ rest)
        ≡ to_le_bytes 4 (length payload % 256 ^ 4)
    unfolding snapshot_fields to_le_bytes
    fielded-len = refl

    fielded-all :
        slice 0 28 (snapshot_fields seq epoch payload ++ rest) ≡ snapshot_fields seq epoch payload
    unfolding snapshot_fields to_le_bytes
    fielded-all = refl

    fielded-rest : drop 28 (snapshot_fields seq epoch payload ++ rest) ≡ rest
    unfolding snapshot_fields to_le_bytes
    fielded-rest = refl

    fielded-payload_len :
        length payload < 256 ^ 4
        → from_le_bytes (slice 24 28 (snapshot_fields seq epoch payload ++ rest)) ≡ length payload
    fielded-payload_len h =
        field_read 4 (length payload) _ h (fielded-len ∙ ap (to_le_bytes 4) (mod-eq_of_lt h))

  abbrev checks : List ℕ
  checks = to_le_bytes 4 (crc32c_sw (snapshot_fields seq epoch payload))

  abbrev body : List ℕ
  body = payload ++ to_le_bytes 4 (crc32c_sw payload)

  pub length-snapshot_bytes : length (snapshot_bytes seq epoch payload) ≡ 32 + length payload + 4
  unfolding snapshot_bytes
  length-snapshot_bytes = omega (
    arith,
    length-append (snapshot_fields seq epoch payload) (checks ++ body),
    length-snapshot_fields,
    length-append checks body,
    length-to_le_bytes 4 (crc32c_sw (snapshot_fields seq epoch payload)),
    length-append payload (to_le_bytes 4 (crc32c_sw payload)),
    length-to_le_bytes 4 (crc32c_sw payload),
  )

  drop-32 : drop 32 (snapshot_bytes seq epoch payload) ≡ body
  unfolding snapshot_bytes
  drop-32 =
      drop-drop 28 4 32 (snapshot_bytes seq epoch payload) refl
      ∙ ap (drop 4) (fielded-rest (checks ++ body))
      ∙ drop_append checks body 4 (sym (length-to_le_bytes 4 _))

  -- A snapshot is parsed to what was written.
  pub parse_snapshot-snapshot_bytes :
      seq < 256 ^ 8
      → epoch < 256 ^ 8
      → length payload < 256 ^ 4
      → parse_snapshot (snapshot_bytes seq epoch payload)
        ≡ some (record { seq = seq; epoch = epoch; payload = payload })
  unfolding snapshot_bytes
  parse_snapshot-snapshot_bytes hs he hp =
      let n = length payload in
      let all = snapshot_bytes seq epoch payload in
      let rest = checks ++ body in
      parse_snapshot-passes all payload seq epoch n (omega (arith, length-snapshot_bytes))
        (fielded-magic rest) (fielded-version rest)
        (ap crc32c_sw (fielded-all rest)
          ∙ sym (
              field_read 4 _ _ (crc32c_sw-lt (snapshot_fields seq epoch payload)) (
                ap (take 4) (fielded-rest rest)
                ∙ take_append checks body 4 (sym (length-to_le_bytes 4 _)))))
        (fielded-payload_len rest hp)
        (ap (take (32 + n - 32)) drop-32 ∙ take_append payload _ (32 + n - 32) (omega arith))
        (sym (
          field_read 4 _ _ (crc32c_sw-lt payload) (
            ap (take (32 + n + 4 - (32 + n + 4 - 4))) (
              drop-drop 32 n (32 + n + 4 - 4) all (omega arith)
              ∙ ap (drop n) drop-32
              ∙ drop_append payload _ n refl
              ∙ sym (append-nil _))
            ∙ take_append (to_le_bytes 4 (crc32c_sw payload)) _ _
                (omega (arith, length-to_le_bytes 4 (crc32c_sw payload))))))
        (field_read 8 seq _ hs (fielded-seq rest)) (field_read 8 epoch _ he (fielded-epoch rest))

  torn-payload_len :
      (k : ℕ)
      → length payload < 256 ^ 4
      → 28 ≤ k
      → from_le_bytes (slice 24 28 (take k (snapshot_bytes seq epoch payload))) ≡ length payload
  unfolding snapshot_bytes
  torn-payload_len k hp long =
      ap (λ b. from_le_bytes (slice 24 28 b))
        (take_behind (snapshot_fields seq epoch payload) (checks ++ body) k
          (omega (arith, length-snapshot_fields)))
      ∙ fielded-payload_len (take (k - length (snapshot_fields seq epoch payload)) (checks ++ body))
          hp

  -- No proper prefix of a snapshot with a payload shorter than 2 ^ 32 is parsed: what a crash left
  -- of a write that was under way is skipped.
  pub parse_snapshot-torn :
      (k : ℕ)
      → length payload < 256 ^ 4
      → k < length (snapshot_bytes seq epoch payload)
      → parse_snapshot (take k (snapshot_bytes seq epoch payload)) ≡ none
  parse_snapshot-torn k hp h = elim (Bool-cases (ltb k 28)) [
    | inl small ↦ parse_snapshot-short _ (
        omega (
          arith,
          ltb→lt k 28 small,
          length-take k (snapshot_bytes seq epoch payload) (omega arith),
        ))
    | inr large ↦ parse_snapshot-short _ (
        omega (
          arith,
          length-take k (snapshot_bytes seq epoch payload) (omega arith),
          length-snapshot_bytes,
          torn-payload_len k hp (ltb_false→le k 28 large),
        ))
  ]
