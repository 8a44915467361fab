-- ===== src/Strings/Tests.antt =====
-- The theorems on string.c at concrete inputs, and runs of its code.
use operating_systems_lab.Prelude.{
  ℕ, zero, suc, ◌+◌, ◌%◌, ◌<◌, ◌≡◌, refl, ◌≢◌, some, [], ◌∷◌, ◌++◌, arith, get_or, replicate,
}
use operating_systems_lab.Strings.{Mem, memmove, strlen}
use operating_systems_lab.Strings.Move.{memmove_lem}
use operating_systems_lab.Strings.Compare.{strlen_lem}

-- Memory whose bytes count up from 1.
abbrev counting : Mem
counting a = (a + 1) % 256

-- "abc" at 10 and at 20, "abd" at 30.
abbrev names : Mem
names a =
    get_or
      (replicate 10 0
        ++ (97 ∷ 98 ∷ 99 ∷ replicate 7 0)
        ++ (97 ∷ 98 ∷ 99 ∷ replicate 7 0)
        ++ (97 ∷ 98 ∷ 100 ∷ []))
      a 0

memmove_lem_example : memmove 3 2 4 counting 6 ≡ 6
unfolding memmove
memmove_lem_example = memmove_lem 3 2 4 counting 6

strlen_lem_example : strlen 10 10 names ≡ some 3
strlen_lem_example = strlen_lem 10 10 3 names nonzero refl (omega arith)
  where
    nonzero : (i : ℕ) → i < 3 → names (10 + i) ≢ 0
    nonzero zero h = λ e. cc
    nonzero (suc zero) h = λ e. cc
    nonzero (suc (suc zero)) h = λ e. cc
    nonzero (suc (suc (suc i))) h = absurd (omega arith)
