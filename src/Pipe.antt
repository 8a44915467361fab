-- ===== src/Pipe.antt =====
-- kernel/pipe.c. A call runs under `pi->lock` until it returns or sleeps, so one such run is one step of
-- the model; a call that slept is run again from the loop where it slept.
pub mod Window
pub mod Write
pub mod Read
mod Tests
use operating_systems_lab.Prelude.{
  ℕ, zero, suc, ◌+◌, ◌-◌, ◌*◌, ◌/◌, ◌%◌, ◌^◌, ◌≤◌, ◌<◌, min, ◌≡◌, refl, sym, ap, ap₂, subst, ◌∙◌,
  fun_ext, ◌≢◌, ◌↔◌, ◌⊎◌, inl, inr, Bool, true, false, not, ◌&&◌, ◌||◌, Option, none, some, List,
  [], ◌∷◌, ◌++◌, map, append-nil, append_assoc, arith, ltb, leb, ◌==◌, if◌then◌else◌, ltb→lt,
  lt→ltb, leb→le, ==_iff, tests, Bool-cases, Option-cases, length, get_elem?, set, length-append,
  length-set, get_elem?-set_self, get_elem?-set_ne, get_or, take, drop, replicate, take-append-drop,
  length-take, length-drop, length-replicate, length-map, ℤ, minus_one, sub_ℕ, sub_ℕ-eq-zero,
  sub_ℕ-self, pos, negsuc, update, update_self, update_ne, update_same,
}
use operating_systems_lab.UserMemory.{User, copyin, copyout, user_addr}

abbrev pub pipesize : ℕ
pipesize = 512

-- uint arithmetic.
abbrev pub add32 : ℕ → ℕ → ℕ
add32 a b = (a + b) % 2 ^ 32

-- The channels of sleep and wakeup: `&pi->nread` and `&pi->nwrite`.
pub data Channel : Type 0 where
  nread_chan nwrite_chan : Channel

-- `struct pipe`; `bytes` is its array `data`, and `wakeups` records the calls of wakeup, newest first.
pub record Pipe : Type 0 where
  pub bytes : List ℕ
  pub nread : ℕ
  pub nwrite : ℕ
  pub readopen : Bool
  pub writeopen : Bool
  pub wakeups : List Channel

-- How a run ends: with the call's result, or asleep after `i` bytes.
pub data Status : Type 0 where
  returned : ℤ → Status
  asleep : ℕ → Status

abbrev pub wake : Channel → Pipe → Pipe
wake c p = record p { wakeups = c ∷ p.wakeups }

-- The state of the page that pipealloc took from kalloc, once its fields are set.
pub fresh_pipe : List ℕ → Pipe
fresh_pipe page = record {
  bytes = page;
  nread = 0;
  nwrite = 0;
  readopen = true;
  writeopen = true;
  wakeups = [];
}

-- The Boolean says whether the pipe's page was freed.
pub pipeclose : Pipe → Bool → Pipe × Bool
pipeclose p writable =
    let p' =
      if writable
      then wake nread_chan (record p { writeopen = false })
      else wake nwrite_chan (record p { readopen = false }) in
    (p', not p'.readopen && not p'.writeopen)

-- pi->data[pi->nwrite++ % PIPESIZE] = ch;
pub put_byte : Pipe → ℕ → Pipe
put_byte p ch = record p { bytes = set p.bytes (p.nwrite % pipesize) ch; nwrite = add32 p.nwrite 1 }

-- pi->data[pi->nread++ % PIPESIZE]
pub get_byte : Pipe → ℕ × Pipe
get_byte p = (get_or p.bytes (p.nread % pipesize) 0, record p { nread = add32 p.nread 1 })

-- The caller's `killed` flag is read anew in each round: `killed i` is what round `i` sees.
module _ (u : User) (killed : ℕ → Bool) (addr : ℕ) where
  -- The while loop of pipewrite, with `rest` = n - i rounds left.
  pub write_from : ℕ → ℕ → Pipe → Status × Pipe
  unfolding copyin put_byte
  write_from zero i p = (returned (pos i), wake nread_chan p)
  write_from (suc rest) i p = elim (not p.readopen || killed i) [
    | true ↦ (returned minus_one, p)
    | false ↦ elim (p.nwrite == add32 p.nread pipesize) [
      | true ↦ (asleep i, wake nread_chan p)
      | false ↦ elim (copyin u (user_addr addr i)) [
        | none ↦ (returned (pos i), wake nread_chan p)
        | some ch ↦ write_from rest (i + 1) (put_byte p (ch % 256))
      ]
    ]
  ]

  -- One run of pipewrite, from its start at i = 0 or from where it slept.
  pub pipewrite : ℕ → ℕ → Pipe → Status × Pipe
  unfolding write_from
  pipewrite n i p = write_from (n - i) i p

module _ (addr : ℕ) where
  -- The for loop of piperead, with `rest` = n - i rounds left.
  pub read_from : ℕ → ℕ → User → Pipe → ℕ × User × Pipe
  unfolding copyout get_byte
  read_from zero i u p = (i, u, p)
  read_from (suc rest) i u p = elim (p.nread == p.nwrite) [
    | true ↦ (i, u, p)
    | false ↦
        let (ch, p') = get_byte p in
        elim (copyout u (user_addr addr i) ch) [
          | none ↦ (i, u, p')
          | some u' ↦ read_from rest (i + 1) u' p'
        ]
  ]

  -- One run of piperead; `killed` is the flag at its only test.
  pub piperead : Bool → ℕ → User → Pipe → Status × User × Pipe
  unfolding read_from
  piperead killed n u p =
      if p.nread == p.nwrite && p.writeopen
      then if killed then (returned minus_one, u, p) else (asleep 0, u, p)
      else let (i, u', p') = read_from n 0 u p in (returned (pos i), u', wake nwrite_chan p')
