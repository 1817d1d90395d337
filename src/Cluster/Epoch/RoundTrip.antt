-- ===== src/Cluster/Epoch/RoundTrip.antt =====
-- A fence is read back from the bytes of its frame.
use ticktape.Base.{
  ℕ, ◌^◌, ◌<◌, ◌≡◌, ◌⊎◌, inl, inr, sym, ap, ◌∙◌, true, false, some, List, ◌++◌, length, All, ok,
  arith, leb, Bool-cases, >>=-eq-ok, ◌>>=◌,
}
use ticktape.Core.Bytes.{IsByte}
use ticktape.Core.Codec.{encode_to_vec, decode_all, int_codec, tuple3_codec}
use ticktape.Core.Codec.Law.{IsCodec, decode_all-encode_to_vec, decode_all-exact}
use ticktape.Core.Codec.Instances.{FitsBytes, int-IsCodec}
use ticktape.Core.Codec.Tuples.{tuple2-IsCodec, tuple3-IsCodec}
use ticktape.Core.Frame.{Frame, epoch_change, to_bytes, read_from}
use ticktape.Core.Frame.Layout.{IsValid, new-some}
use ticktape.Core.Frame.RoundTrip.{read_from-to_bytes}
use ticktape.Cluster.Epoch.{
  EpochChange, fence_codec, legacy_codec, to_frame, from_frame, fence_of, legacy_fence_of,
}

-- The numbers fit their fields.
pub record Fits (e : EpochChange) : Type 0 where
  pub epoch_fits : e.epoch < 256 ^ 8
  pub seq_fits : e.first_seq < 256 ^ 8
  pub version_fits : e.schema_version < 256 ^ 4

abbrev FitsFence : ℕ × ℕ × ℕ → Type 0
FitsFence p = FitsBytes 8 p.0 × FitsBytes 8 p.1 × FitsBytes 4 p.2

fence-IsCodec : IsCodec fence_codec FitsFence
fence-IsCodec = tuple3-IsCodec (int-IsCodec 8) (int-IsCodec 8) (int-IsCodec 4)

abbrev FitsLegacy : ℕ × ℕ → Type 0
FitsLegacy p = FitsBytes 8 p.0 × FitsBytes 8 p.1

legacy-IsCodec : IsCodec legacy_codec FitsLegacy
legacy-IsCodec = tuple2-IsCodec (int-IsCodec 8) (int-IsCodec 8)

abbrev payload_of : EpochChange → List ℕ
payload_of e = encode_to_vec fence_codec (e.epoch, e.first_seq, e.schema_version)

length-payload_of : (e : EpochChange) → Fits e → length (payload_of e) ≡ 20
unfolding int_codec tuple3_codec encode_to_vec
length-payload_of e v =
    fence-IsCodec.len (e.epoch, e.first_seq, e.schema_version)
      (v.epoch_fits, v.seq_fits, v.version_fits)

abbrev fence_frame : EpochChange → ℕ → ℕ → Frame
fence_frame e timestamp stream_id = record {
  seq = e.first_seq;
  timestamp = timestamp;
  stream_id = stream_id;
  kind = epoch_change;
  payload = payload_of e;
}

fence_frame-IsValid :
    (e : EpochChange) (timestamp stream_id : ℕ)
    → Fits e
    → timestamp < 256 ^ 8
    → stream_id < 256 ^ 2
    → IsValid (fence_frame e timestamp stream_id)
fence_frame-IsValid e timestamp stream_id v t s = record {
  seq_fits = v.seq_fits;
  timestamp_fits = t;
  stream_fits = s;
  payload_fits = omega (arith, length-payload_of e v);
  payload_bytes =
      unfold encode_to_vec in
      fence-IsCodec.bytes (e.epoch, e.first_seq, e.schema_version)
        (v.epoch_fits, v.seq_fits, v.version_fits);
}

-- The two ways of `from_frame`.
from_frame-long :
    (f : Frame)
    → leb 20 (length f.payload) ≡ true
    → from_frame f ≡ (decode_all fence_codec f.payload >>= λ p. ok (fence_of p))
unfolding from_frame
from_frame-long f n = rw n

from_frame-short :
    (f : Frame)
    → leb 20 (length f.payload) ≡ false
    → from_frame f ≡ (decode_all legacy_codec f.payload >>= λ p. ok (legacy_fence_of p))
unfolding from_frame
from_frame-short f n = rw n

from_frame-payload :
    (f : Frame) (p : ℕ × ℕ × ℕ)
    → length f.payload ≡ 20
    → decode_all fence_codec f.payload ≡ ok p
    → from_frame f ≡ ok (fence_of p)
from_frame-payload f p n d =
    from_frame-long f (ground arith) ∙ ap (λ r. r >>= λ q. ok (fence_of q)) d

-- The frame of a fence whose numbers fit their fields, written into a stream or a journal and read
-- back, is that frame and decodes to that fence.
pub fence-read_from :
    (e : EpochChange) (timestamp stream_id : ℕ) (rest : List ℕ)
    → Fits e
    → timestamp < 256 ^ 8
    → stream_id < 256 ^ 2
    → (f : Frame) × (to_frame e timestamp stream_id ≡ some f)
      × (read_from (to_bytes f ++ rest) ≡ ok (f, rest))
      × (from_frame f ≡ ok e)
unfolding to_frame fence_of
fence-read_from e timestamp stream_id rest v t s =
    let f = fence_frame e timestamp stream_id in
    (
      f,
      new-some e.first_seq timestamp stream_id epoch_change (payload_of e)
          (omega (arith, length-payload_of e v)),
      read_from-to_bytes f (fence_frame-IsValid e timestamp stream_id v t s) rest,
      from_frame-payload f (e.epoch, e.first_seq, e.schema_version) (length-payload_of e v)
          (decode_all-encode_to_vec fence-IsCodec (e.epoch, e.first_seq, e.schema_version)
            (v.epoch_fits, v.seq_fits, v.version_fits)),
    )

abbrev pub IsPayloadOf : EpochChange → List ℕ → Type 0
IsPayloadOf e payload =
    (payload ≡ encode_to_vec fence_codec (e.epoch, e.first_seq, e.schema_version))
    ⊎ ((payload ≡ encode_to_vec legacy_codec (e.epoch, e.first_seq)) × (e.schema_version ≡ 0))

-- A frame with a byte payload that is accepted as a fence carries exactly the payload of that
-- fence: with the schema version, or the older one without it, which means version 0.
pub from_frame-exact :
    (f : Frame) (e : EpochChange)
    → All IsByte f.payload
    → from_frame f ≡ ok e
    → IsPayloadOf e f.payload
unfolding fence_of legacy_fence_of
from_frame-exact f e b h = elim (Bool-cases (leb 20 (length f.payload))) [
  | inl long ↦
      let (p, read, same) = >>=-eq-ok _ _ (sym (from_frame-long f long) ∙ h) in
      let fence : fence_of p ≡ e = ground arith in
      inl (
        (decode_all-exact fence-IsCodec p f.payload b read).1
        ∙ ap
            (λ (g : EpochChange).
              encode_to_vec fence_codec (g.epoch, g.first_seq, g.schema_version))
            fence)
  | inr short ↦
      let (p, read, same) = >>=-eq-ok _ _ (sym (from_frame-short f short) ∙ h) in
      let fence : legacy_fence_of p ≡ e = ground arith in
      inr (
        (decode_all-exact legacy-IsCodec p f.payload b read).1
            ∙ ap (λ (g : EpochChange). encode_to_vec legacy_codec (g.epoch, g.first_seq)) fence,
        ap (λ (g : EpochChange). g.schema_version) (sym fence),
      )
]
