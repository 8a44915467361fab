-- ===== src/Fs/Inodes/Table.antt =====
-- The inode table of kernel/fs.c: iget finds or makes the one entry of an inode.
use operating_systems_lab.Prelude.{
  ℕ, zero, suc, ◌+◌, ◌≤◌, ◌<◌, ◌≡◌, refl, sym, subst, ◌⊎◌, inl, inr, true, false, Option, none,
  some, arith, ◌==◌, Bool-cases, from_next, update,
}
use operating_systems_lab.Fs.{ninode, Fs, Inode}
use operating_systems_lab.Fs.Inodes.{Scan, present, absent, is_entry, note_empty, scan, iget}

-- No inode has two entries in use.
abbrev pub OneEntry : (ℕ → Inode) → Type 0
OneEntry t =
    (i j : ℕ)
    → i < ninode
    → j < ninode
    → 0 < (t i).ref
    → 0 < (t j).ref
    → (t i).dev ≡ (t j).dev
    → (t i).inum ≡ (t j).inum
    → i ≡ j

-- What the loop has found between lo and hi, when it came to lo with the empty entry `e`.
data Scanned (dev inum lo hi : ℕ) (t : ℕ → Inode) (e : Option ℕ) : Scan → Type 0 where
  hit :
      (i : ℕ)
      → lo ≤ i
      → i < hi
      → is_entry dev inum (t i) ≡ true
      → Scanned dev inum lo hi t e (present i)
  reuse :
      (i : ℕ)
      → (e ≡ some i) ⊎ ((lo ≤ i) × (i < hi) × ((t i).ref ≡ 0))
      → ((j : ℕ) → lo ≤ j → j < hi → is_entry dev inum (t j) ≡ false)
      → Scanned dev inum lo hi t e (absent (some i))
  none_empty :
      e ≡ none
      → ((j : ℕ) → lo ≤ j → j < hi → is_entry dev inum (t j) ≡ false)
      → ((j : ℕ) → lo ≤ j → j < hi → 0 < (t j).ref)
      → Scanned dev inum lo hi t e (absent none)

module _ (dev inum : ℕ) (t : ℕ → Inode) where
  with_first :
      (lo hi : ℕ)
      → is_entry dev inum (t lo) ≡ false
      → ((j : ℕ) → lo + 1 ≤ j → j < hi → is_entry dev inum (t j) ≡ false)
      → (j : ℕ) → lo ≤ j
      → j < hi
      → is_entry dev inum (t j) ≡ false
  with_first lo hi = from_next (λ (j : ℕ). is_entry dev inum (t j) ≡ false) lo hi

  -- The entry that was noted.
  noted :
      (lo hi i : ℕ)
      → lo < hi
      → note_empty none lo (t lo) ≡ some i
      → (lo ≤ i) × (i < hi) × ((t i).ref ≡ 0)
  noted lo hi i lt q = elim (Bool-cases ((t lo).ref == 0)) [
    | inl z ↦
        let h : i ≡ lo = ground arith in
        subst (λ (m : ℕ). (lo ≤ m) × (m < hi) × ((t m).ref ≡ 0)) (sym h)
          (omega arith, lt, ground arith)
    | inr nz ↦ absurd (ground arith)
  ]

  in_use : (lo : ℕ) → note_empty none lo (t lo) ≡ none → 0 < (t lo).ref
  in_use lo q = ground arith

  -- The entry in front holds another inode.
  Scanned-skip :
      (lo hi : ℕ) (e : Option ℕ) (r : Scan)
      → lo < hi
      → is_entry dev inum (t lo) ≡ false
      → Scanned dev inum (lo + 1) hi t (note_empty e lo (t lo)) r
      → Scanned dev inum lo hi t e r
  Scanned-skip lo hi e r lt miss (hit i a b c) = hit i (omega (arith, a)) b c
  Scanned-skip lo hi (some m) r lt miss (reuse i (inl q) all) =
      reuse i (inl q) (with_first lo hi miss all)
  Scanned-skip lo hi (some m) r lt miss (reuse i (inr (a, b, c)) all) =
      reuse i (inr (omega (arith, a), b, c)) (with_first lo hi miss all)
  Scanned-skip lo hi none r lt miss (reuse i (inl q) all) =
      reuse i (inr (noted lo hi i lt q)) (with_first lo hi miss all)
  Scanned-skip lo hi none r lt miss (reuse i (inr (a, b, c)) all) =
      reuse i (inr (omega (arith, a), b, c)) (with_first lo hi miss all)
  Scanned-skip lo hi (some m) r lt miss (none_empty q all refs) = cc
  Scanned-skip lo hi none r lt miss (none_empty q all refs) =
      none_empty refl (with_first lo hi miss all)
        (from_next (λ (j : ℕ). 0 < (t j).ref) lo hi (in_use lo q) refs)

  scan-Scanned :
      (rounds lo hi : ℕ) (e : Option ℕ)
      → hi ≡ lo + rounds
      → Scanned dev inum lo hi t e (scan rounds lo dev inum e t)
  unfolding scan
  scan-Scanned zero lo hi none h =
      none_empty refl (λ j a b. absurd (omega arith)) (λ j a b. absurd (omega arith))
  scan-Scanned zero lo hi (some m) h = reuse m (inl refl) (λ j a b. absurd (omega arith))
  scan-Scanned (suc rounds) lo hi e h = elim (Bool-cases (is_entry dev inum (t lo))) [
    | inl found ↦ rw (found, scan) (hit lo (omega arith) (omega arith) found)
    | inr miss ↦
        rw (miss, scan)
          (Scanned-skip lo hi e _ (omega arith) miss
            (scan-Scanned rounds (lo + 1) hi (note_empty e lo (t lo)) (omega arith)))
  ]

-- How iget ends.
pub data Iget (dev inum : ℕ) (s : Fs) : Option (ℕ × Fs) → Type 0 where
  no_room :
      ((j : ℕ) → j < ninode → is_entry dev inum (s.inodes j) ≡ false)
      → ((j : ℕ) → j < ninode → 0 < (s.inodes j).ref)
      → Iget dev inum s none
  shared :
      (i : ℕ)
      → i < ninode
      → is_entry dev inum (s.inodes i) ≡ true
      → OneEntry (update s.inodes i (record (s.inodes i) { ref = (s.inodes i).ref + 1 }))
      → Iget dev inum s (
          some (
            i,
            record s {
              inodes = update s.inodes i (record (s.inodes i) { ref = (s.inodes i).ref + 1 });
            },
          ))
  made :
      (i : ℕ)
      → i < ninode
      → (s.inodes i).ref ≡ 0
      → ((j : ℕ) → j < ninode → is_entry dev inum (s.inodes j) ≡ false)
      → OneEntry (
          update s.inodes i
            (record (s.inodes i) { dev = dev; inum = inum; ref = 1; valid = false }))
      → Iget dev inum s (
          some (
            i,
            record s {
              inodes =
                  update s.inodes i
                    (record (s.inodes i) { dev = dev; inum = inum; ref = 1; valid = false });
            },
          ))

-- Another count of references to an entry in use.
shared-OneEntry :
    (t : ℕ → Inode) (i n : ℕ)
    → 0 < (t i).ref
    → OneEntry t
    → OneEntry (update t i (record (t i) { ref = n }))
shared-OneEntry t i n h v j k j_lt k_lt rj rk d m = ground (arith, v j k j_lt k_lt, v i k, v j i)

made-OneEntry :
    (t : ℕ → Inode) (i dev inum : ℕ)
    → ((j : ℕ) → j < ninode → is_entry dev inum (t j) ≡ false)
    → OneEntry t
    → OneEntry (update t i (record (t i) { dev = dev; inum = inum; ref = 1; valid = false }))
made-OneEntry t i dev inum all v j k j_lt k_lt rj rk d m =
    ground (arith, v j k j_lt k_lt, all j j_lt, all k k_lt)

module _ (dev inum : ℕ) (s : Fs) (v : OneEntry s.inodes) where
  -- iget after its loop.
  abbrev by_scan : Scan → Option (ℕ × Fs)
  by_scan (present i) = some (
    i,
    record s { inodes = update s.inodes i (record (s.inodes i) { ref = (s.inodes i).ref + 1 }) },
  )
  by_scan (absent none) = none
  by_scan (absent (some e)) = some (
    e,
    record s {
      inodes =
          update s.inodes e
            (record (s.inodes e) { dev = dev; inum = inum; ref = 1; valid = false });
    },
  )

  entry-ref : (i : ℕ) → is_entry dev inum (s.inodes i) ≡ true → 0 < (s.inodes i).ref
  entry-ref i h = ground arith

  by_scan-Iget :
      (r : Scan) → Scanned dev inum 0 ninode s.inodes none r → Iget dev inum s (by_scan r)
  by_scan-Iget r (hit i lo hi e) = shared i hi e (shared-OneEntry s.inodes i _ (entry-ref i e) v)
  by_scan-Iget r (reuse i (inl q) all) = absurd (none_some q)
    where
      none_some : none ≡ some i → ⊥
      none_some h = cc
  by_scan-Iget r (reuse i (inr (lo, hi, z)) all) =
      made i hi z (λ j h. all j (omega arith) h)
        (made-OneEntry s.inodes i dev inum (λ j h. all j (omega arith) h) v)
  by_scan-Iget r (none_empty q all refs) =
      no_room (λ j h. all j (omega arith) h) (λ j h. refs j (omega arith) h)

  by_scan-iget : (r : Scan) → scan ninode 0 dev inum none s.inodes ≡ r → iget dev inum s ≡ by_scan r
  unfolding iget
  by_scan-iget (present i) h = rw (h, iget)
  by_scan-iget (absent none) h = rw (h, iget)
  by_scan-iget (absent (some e)) h = rw (h, iget)

-- In a table where no inode has two entries, iget returns the inode's entry, with one reference more, if
-- it has one; else it makes an empty entry that of the inode, with one reference and not valid; and it
-- panics only if there is neither. The table still has no inode twice.
pub iget_lem : (dev inum : ℕ) (s : Fs) → OneEntry s.inodes → Iget dev inum s (iget dev inum s)
iget_lem dev inum s v =
    subst (λ (r : Option (ℕ × Fs)). Iget dev inum s r) (sym (by_scan-iget dev inum s v _ refl))
      (by_scan-Iget dev inum s v _
        (scan-Scanned dev inum s.inodes ninode 0 ninode none (omega arith)))
