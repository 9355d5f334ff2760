-- ===== src/Descriptor.antt =====
-- Writing all bytes to a file descriptor: `all` of cpp/terminal/recording.cpp and `write_all` of
-- cpp/capture/writer.cpp, which are the same loop. What the kernel answers is an argument.
use graphlab.Prelude.{
  ℕ, ◌<◌, ◌≡◌, ◌⊎◌, inl, inr, refl, ap, ◌∙◌, List, [], ◌∷◌, ◌++◌, ◌==◌, if◌then◌else◌, length, take,
  drop, arith, append_assoc, take-append-drop, Bool-cases,
}
use graphlab.Bytes.{Bytes}

-- One answer of write(2): EINTR, a count, or an error.
pub data Written : Type 0 where
  interrupted failed : Written
  wrote : ℕ → Written

-- How `all` ends; the answers run out where the process is killed in the middle.
pub data Ending : Type 0 where
  complete broken killed : Ending

-- The loop of `all`: the bytes that reach the file, and the ending.
unfoldable pub all : List Written → Bytes → Bytes × Ending
all answers [] = ([], complete)
all [] (b ∷ bs) = ([], killed)
all (interrupted ∷ answers) (b ∷ bs) = all answers (b ∷ bs)
all (failed ∷ answers) (b ∷ bs) = ([], broken)
all (wrote n ∷ answers) (b ∷ bs) =
    let rest = all answers (drop n (b ∷ bs)) in
    if n == 0 then ([], broken) else (take n (b ∷ bs) ++ rest.0, rest.1)

-- What `all` left of the bytes `b`: all of them, or a part with something missing.
pub data Writes (b w : Bytes) : Ending → Type 0 where
  whole : w ≡ b → Writes b w complete
  part :
      {e : Ending} (missing : Bytes)
      → w ++ missing ≡ b
      → 0 < length missing
      → (e ≡ broken) ⊎ (e ≡ killed)
      → Writes b w e

extend :
    (front rest w b : Bytes) (e : Ending)
    → front ++ rest ≡ b
    → Writes rest w e
    → Writes b (front ++ w) e
extend front rest w b e p (whole q) = whole (ap (◌++◌ front) q ∙ p)
extend front rest w b e p (part missing q m d) =
    part missing (append_assoc front w missing ∙ (ap (◌++◌ front) q ∙ p)) m d

pub all-Writes : (answers : List Written) (b : Bytes) → Writes b (all answers b).0 (all answers b).1
unfolding all
all-Writes answers [] = whole refl
all-Writes [] (b ∷ bs) = part (b ∷ bs) refl (omega arith) (inr refl)
all-Writes (interrupted ∷ answers) (b ∷ bs) = all-Writes answers (b ∷ bs)
all-Writes (failed ∷ answers) (b ∷ bs) = part (b ∷ bs) refl (omega arith) (inl refl)
all-Writes (wrote n ∷ answers) (b ∷ bs) = elim (Bool-cases (n == 0)) [
  | inl none ↦ rw none (part (b ∷ bs) refl (omega arith) (inl refl))
  | inr some ↦ rw some (
      extend (take n (b ∷ bs)) (drop n (b ∷ bs)) (all answers (drop n (b ∷ bs))).0 (b ∷ bs)
        (all answers (drop n (b ∷ bs))).1 (take-append-drop n (b ∷ bs))
        (all-Writes answers (drop n (b ∷ bs))))
]
