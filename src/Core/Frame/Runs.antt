-- ===== src/Core/Frame/Runs.antt =====
-- Frames that follow each other, and their bytes.
use ticktape.Base.{
  ℕ, ◌+◌, ◌≡◌, refl, sym, ap, subst, ◌∙◌, List, [], ◌∷◌, ◌++◌, length, arith, append-nil,
  append_assoc,
}
use ticktape.Core.Frame.{Frame, to_bytes, write_to}
use ticktape.Core.Frame.Layout.{IsValid, write_to-append}

-- `for frame in frames { frame.write_to(out) }`
unfoldable pub write_frames : List Frame → List ℕ → List ℕ
write_frames [] out = out
write_frames (f ∷ fs) out = write_frames fs (write_to f out)

-- Valid frames that follow each other from seq `n` on.
abbrev pub Contiguous : ℕ → List Frame → Type 0
Contiguous n [] = Unit {0}
Contiguous n (f ∷ fs) = (f.seq ≡ n) × IsValid f × Contiguous (n + 1) fs

abbrev pub frames_bytes : List Frame → List ℕ
frames_bytes [] = []
frames_bytes (f ∷ fs) = to_bytes f ++ frames_bytes fs

pub write_frames-append :
    (fs : List Frame) (out : List ℕ) → write_frames fs out ≡ out ++ frames_bytes fs
unfolding write_frames
write_frames-append [] out = sym (append-nil out)
write_frames-append (f ∷ fs) out =
    write_frames-append fs (write_to f out)
    ∙ ap (λ o. o ++ frames_bytes fs) (write_to-append f out)
    ∙ append_assoc out (to_bytes f) (frames_bytes fs)

pub frames_bytes-append :
    (fs gs : List Frame) → frames_bytes (fs ++ gs) ≡ frames_bytes fs ++ frames_bytes gs
frames_bytes-append [] gs = refl
frames_bytes-append (f ∷ fs) gs =
    ap (λ t. to_bytes f ++ t) (frames_bytes-append fs gs)
    ∙ sym (append_assoc (to_bytes f) (frames_bytes fs) (frames_bytes gs))

pub append-Contiguous :
    (n m : ℕ) (fs gs : List Frame)
    → Contiguous n fs
    → m ≡ n + length fs
    → Contiguous m gs
    → Contiguous n (fs ++ gs)
append-Contiguous n m [] gs h e k = subst (λ q. Contiguous q gs) (omega arith) k
append-Contiguous n m (f ∷ fs) gs h e k =
    (h.0, h.1, append-Contiguous (n + 1) m fs gs h.2 (omega arith) k)
