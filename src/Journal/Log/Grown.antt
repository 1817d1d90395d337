-- ===== src/Journal/Log/Grown.antt =====
-- A log that has sealed its active segment and started another.
use ticktape.Base.{
  ℕ, ◌+◌, ◌<◌, ◌≡◌, refl, sym, ap, ◌∙◌, none, List, [], ◌∷◌, ◌++◌, length, arith, append-nil,
  append_assoc,
}
use ticktape.Base.BTreeMap.{get, insert}
use ticktape.Sim.Storage.{FileData}
use ticktape.Journal.Log.{
  Sealed, sealed_data, image, start, sealed_frames, IsSealed, AllSealed, le-start,
}

abbrev pub with_sealed : List Sealed → Sealed → List Sealed
with_sealed ss x = ss ++ (x ∷ [])

pub start-with_sealed :
    (n : ℕ) (ss : List Sealed) (x : Sealed)
    → start n (with_sealed ss x) ≡ start n ss + length x.frames
start-with_sealed n [] x = refl
start-with_sealed n (s ∷ ss) x = start-with_sealed (n + length s.frames) ss x

pub with_sealed-AllSealed :
    (n : ℕ) (ss : List Sealed) (x : Sealed)
    → AllSealed n ss
    → IsSealed (start n ss) x
    → AllSealed n (with_sealed ss x)
with_sealed-AllSealed n [] x h k = (k, tt)
with_sealed-AllSealed n (s ∷ ss) x h k =
    (h.0, with_sealed-AllSealed (n + length s.frames) ss x h.1 k)

pub sealed_frames-with_sealed :
    (ss : List Sealed) (x : Sealed)
    → sealed_frames (with_sealed ss x) ≡ sealed_frames ss ++ x.frames
sealed_frames-with_sealed [] x = append-nil x.frames
sealed_frames-with_sealed (s ∷ ss) x =
    ap (λ t. s.frames ++ t) (sealed_frames-with_sealed ss x)
    ∙ sym (append_assoc s.frames (sealed_frames ss) x.frames)

module _ (x : Sealed) (v : FileData) where
  pub insert-image :
      (n p : ℕ) (ss : List Sealed)
      → AllSealed n ss
      → 0 < length x.frames
      → p ≡ start n ss + length x.frames
      → insert p v (image n ss (sealed_data (start n ss) x)) ≡ image n (with_sealed ss x) v
  unfolding insert
  insert-image n p [] h k e = ground arith
  insert-image n p (s ∷ ss) h k e = ground (
    arith,
    insert-image (n + length s.frames) p ss h.1 k e,
    le-start (n + length s.frames) ss,
    h.0.filled,
  )

-- No file is named by a later seq.
pub get-image_absent :
    (n p : ℕ) (ss : List Sealed) (d : FileData)
    → AllSealed n ss
    → start n ss < p
    → get p (image n ss d) ≡ none
unfolding get
get-image_absent n p [] d h k = ground arith
get-image_absent n p (s ∷ ss) d h k =
    ground (
      arith,
      get-image_absent (n + length s.frames) p ss d h.1 k,
      le-start (n + length s.frames) ss,
    )
