-- ===== src/Bio/Fill.antt =====
-- bread of kernel/bio.c fills a buffer from the disk, or finds it filled.
use operating_systems_lab.Prelude.{ℕ, ◌≡◌, true, some, List, ◌≢◌, if◌then◌else◌, update, ◌&&◌}
use operating_systems_lab.Bio.{Bcache, is_cached, bget, fill, Got, panicked, locked_buf, waiting}
use operating_systems_lab.Bio.Ring.{Ring}
use operating_systems_lab.Bio.Lru.{OneBuffer}

-- What bread returns: the contents are those of the cache exactly where they are valid for the block.
pub data Bread (pid dev blockno : ℕ) (c : Bcache) : Got → Type 0 where
  no_buffer : bget pid dev blockno c ≡ panicked → Bread pid dev blockno c panicked
  sleeps :
      (b : ℕ) (c' : Bcache)
      → bget pid dev blockno c ≡ waiting b c'
      → Bread pid dev blockno c (waiting b c')
  read :
      (b : ℕ) (c' : Bcache)
      → c'.dev b ≡ dev
      → c'.blockno b ≡ blockno
      → c'.valid b ≡ true
      → c'.locked b ≡ some pid
      → c'.bytes b ≡ (if c.valid b && is_cached dev blockno c b then c.bytes b else c.disk blockno)
      → ((a : ℕ) → a ≢ b → c'.bytes a ≡ c.bytes a)
      → c'.disk ≡ c.disk
      → Bread pid dev blockno c (locked_buf b c')

module _ (pid dev blockno : ℕ) (c : Bcache) (xs : List ℕ) (r : Ring c xs) (v : OneBuffer c) where
  -- The block read from the disk.
  abbrev loaded : ℕ → Bcache → Bcache
  loaded b k = record k {
    bytes = update k.bytes b (k.disk (k.blockno b));
    valid = update k.valid b true;
  }

  after_bget : Got → Got
  after_bget o = elim o [
    | panicked ↦ panicked
    | waiting b c' ↦ waiting b c'
    | locked_buf b c' ↦ locked_buf b (fill b c')
  ]
