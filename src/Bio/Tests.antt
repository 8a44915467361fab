-- ===== src/Bio/Tests.antt =====
-- The theorems on the buffer cache at concrete inputs, and runs of its code.
use operating_systems_lab.Prelude.{refl, some, none, false, ◌==◌, if◌then◌else◌}
use operating_systems_lab.Bio.{nbuf, Bcache, insert_front, binit_from, binit, bget}
use operating_systems_lab.Bio.Start.{below, binit-Ring}
use operating_systems_lab.Bio.Lru.{OneBuffer, Bget, bget_lem}

-- All zero, as the kernel starts; buffer 3 is locked by the process 9, with one reference.
abbrev start : Bcache
start = record {
  next = λ _. 0;
  prev = λ _. 0;
  dev = λ _. 0;
  blockno = λ _. 0;
  refcnt = λ b. if b == 3 then 1 else 0;
  valid = λ _. false;
  locked = λ b. if b == 3 then some 9 else none;
  bytes = λ _ _. 0;
  disk = λ b _. b;
}

start-OneBuffer : OneBuffer (binit start)
unfolding binit binit_from insert_front
start-OneBuffer i j i_lt j_lt nz d n = absurd (nz refl)

bget_lem_example : Bget 9 1 7 (binit start) (below nbuf) (bget 9 1 7 (binit start))
bget_lem_example = bget_lem 9 1 7 (binit start) (below nbuf) (binit-Ring start) start-OneBuffer
