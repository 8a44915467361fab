-- ===== src/File/Write.antt =====
-- filewrite of kernel/file.c on an inode: the transactions that it makes.
use operating_systems_lab.Prelude.{
  ℕ, ◌+◌, ◌%◌, ◌^◌, ◌≤◌, ◌<◌, ◌≡◌, ◌≢◌, Option, none, some, ◌==◌, if◌then◌else◌, ℤ, minus_one, pos,
}
use operating_systems_lab.File.{◌then◌, File, Table, put_file, FileCalls, advance, max_chunk}

-- The table when the offset of file f has become `off` and the rest of the kernel w.
abbrev pub moved : {W : Type 0} → (f off : ℕ) → W → Table W → Table W
moved f off w t = record (put_file f (record (t.files f) { off = off }) t) { world = w }

module _ (sys : FileCalls) where
  open sys use {World, begin_op, end_op, ilock, iunlock, writei}

  -- A transaction that writes m bytes to an inode, with the five calls that it makes and the panic of each.
  pub data Transaction (ip addr off m : ℕ) (w : World) : Option (ℤ × World) → Type 0 where
    committed :
        (r : ℤ) (w₁ w₂ w₃ w₄ w₅ : World)
        → begin_op w ≡ some w₁
        → ilock ip w₁ ≡ some w₂
        → writei ip addr off m w₂ ≡ some (r, w₃)
        → iunlock ip w₃ ≡ some w₄
        → end_op w₄ ≡ some w₅
        → Transaction ip addr off m w (some (r, w₅))
    begin_panics : begin_op w ≡ none → Transaction ip addr off m w none
    lock_panics :
        (w₁ : World) → begin_op w ≡ some w₁ → ilock ip w₁ ≡ none → Transaction ip addr off m w none
    write_panics :
        (w₁ w₂ : World)
        → begin_op w ≡ some w₁
        → ilock ip w₁ ≡ some w₂
        → writei ip addr off m w₂ ≡ none
        → Transaction ip addr off m w none
    unlock_panics :
        (r : ℤ) (w₁ w₂ w₃ : World)
        → begin_op w ≡ some w₁
        → ilock ip w₁ ≡ some w₂
        → writei ip addr off m w₂ ≡ some (r, w₃)
        → iunlock ip w₃ ≡ none
        → Transaction ip addr off m w none
    end_panics :
        (r : ℤ) (w₁ w₂ w₃ w₄ : World)
        → begin_op w ≡ some w₁
        → ilock ip w₁ ≡ some w₂
        → writei ip addr off m w₂ ≡ some (r, w₃)
        → iunlock ip w₃ ≡ some w₄
        → end_op w₄ ≡ none
        → Transaction ip addr off m w none

  -- Writing n bytes of a buffer, from byte i, a file offset and a state on, one transaction after another:
  -- where it stops and what it leaves, or `none` where a transaction panics.
  pub data Writes (ip addr n : ℕ) : (i off : ℕ) → World → Option (ℕ × ℕ × World) → Type 0 where
    all_written : (off : ℕ) (w : World) → Writes ip addr n n off w (some (n, off, w))
    chunk_written :
        (i off m : ℕ) (w w₁ : World) (e : Option (ℕ × ℕ × World))
        → 0 < m
        → m ≤ max_chunk
        → i + m ≤ n
        → Transaction ip ((addr + i) % 2 ^ 64) off m w (some (pos m, w₁))
        → Writes ip addr n (i + m) (advance off (pos m)) w₁ e
        → Writes ip addr n i off w e
    chunk_failed :
        (i off m : ℕ) (r : ℤ) (w w₁ : World)
        → 0 < m
        → m ≤ max_chunk
        → i + m ≤ n
        → Transaction ip ((addr + i) % 2 ^ 64) off m w (some (r, w₁))
        → r ≢ pos m
        → Writes ip addr n i off w (some (i, advance off r, w₁))
    chunk_panics :
        (i off m : ℕ) (w : World)
        → 0 < m
        → m ≤ max_chunk
        → i + m ≤ n
        → Transaction ip ((addr + i) % 2 ^ 64) off m w none
        → Writes ip addr n i off w none

  -- What a run of the loop on file f leaves.
  abbrev loop_end : ℕ → Table World → Option (ℕ × ℕ × World) → Option (ℕ × Table World)
  loop_end f t none = none
  loop_end f t (some (i', off', w')) = some (i', moved f off' w' t)

  abbrev Loops : (f addr i n : ℕ) → Table World → Option (ℕ × Table World) → Type 0
  Loops f addr i n t o =
      (e : Option (ℕ × ℕ × World)) × (o ≡ loop_end f t e)
      × Writes (t.files f).ip addr n i (t.files f).off t.world e

  -- The result of filewrite of n bytes to file f.
  abbrev pub write_end : (f n : ℕ) → Table World → Option (ℕ × ℕ × World) → Option (ℤ × Table World)
  write_end f n t none = none
  write_end f n t (some (i', off', w')) =
      some ((if i' == n then pos n else minus_one), moved f off' w' t)
