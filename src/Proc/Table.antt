-- ===== src/Proc/Table.antt =====
-- allocpid, allocproc, freeproc and growproc of kernel/proc.c.
use operating_systems_lab.Prelude.{
  ℕ, zero, suc, ◌+◌, ◌-◌, ◌%◌, ◌^◌, Bool, true, false, Option, none, some, [], ◌==◌, if◌then◌else◌,
  ℤ, minus_one, pos, negsuc,
}
use operating_systems_lab.Proc.{
  Procstate, unused, used, null, Proc, Services, Kernel, nproc, put_proc,
}

unfoldable pub is_unused : Procstate → Bool
is_unused unused = true
is_unused _ = false

-- nextpid is an int, whose 32 bits the model keeps.
abbrev pub next_pid : ℕ → ℕ
next_pid pid = (pid + 1) % 2 ^ 32

unfoldable pub allocpid : {W : Type 0} → Kernel W → ℕ × Kernel W
allocpid k = (k.nextpid, record k { nextpid = next_pid k.nextpid })

-- The first UNUSED entry from index `i` on, `rounds` entries from the end.
unfoldable pub find_unused : ℕ → ℕ → (ℕ → Proc) → Option ℕ
unfolding is_unused
find_unused zero i t = none
find_unused (suc rounds) i t = elim (is_unused (t i).state) [
  | true ↦ some i
  | false ↦ find_unused rounds (i + 1) t
]

-- An entry whose pages are gone.
abbrev pub cleared : Proc → Proc
cleared p = record p {
  trapframe = 0;
  pagetable = 0;
  sz = 0;
  pid = 0;
  parent = none;
  name = [];
  chan = null;
  killed = false;
  xstate = pos 0;
  state = unused;
}

module _ (sys : Services) where
  open sys use {World, kalloc, kfree, proc_pagetable, proc_freepagetable, uvmalloc, uvmdealloc}

  unfoldable pub freeproc : ℕ → Kernel World → Kernel World
  freeproc i k =
      let p = k.procs i in
      let w = if p.trapframe == 0 then k.world else kfree p.trapframe k.world in
      let w' = if p.pagetable == 0 then w else proc_freepagetable p.pagetable p.sz w in
      record (put_proc i (cleared p) k) { world = w' }

  -- allocproc, once it has found entry `i`.
  unfoldable pub setup_proc : ℕ → Kernel World → Option ℕ × Kernel World
  unfolding allocpid freeproc
  setup_proc i k =
      let (pid, k₁) = allocpid k in
      let (tf, w₁) = kalloc k₁.world in
      let p₁ = record (k₁.procs i) { pid = pid; state = used; trapframe = tf } in
      let k₂ = record (put_proc i p₁ k₁) { world = w₁ } in
      if tf == 0
      then (none, freeproc i k₂)
      else let (pt, w₂) = proc_pagetable tf w₁ in
        let p₂ = record p₁ { pagetable = pt } in
        let k₃ = record (put_proc i p₂ k₂) { world = w₂ } in
        if pt == 0 then (none, freeproc i k₃) else (
          some i,
          put_proc i (record p₂ { context_ra = sys.forkret; context_sp = p₂.kstack + 4096 }) k₃,
        )

  unfoldable pub allocproc : Kernel World → Option ℕ × Kernel World
  unfolding find_unused
  allocproc k = elim (find_unused nproc 0 k.procs) [ none ↦ (none, k) | some i ↦ setup_proc i k ]

  -- growproc by n > 0 bytes, or down by n bytes; `sz` is a 32-bit variable there.
  unfoldable pub growproc : ℕ → ℤ → Kernel World → ℤ × Kernel World
  growproc cur (pos n) k =
      let p = k.procs cur in
      let sz = p.sz % 2 ^ 32 in
      if n == 0
      then (pos 0, put_proc cur (record p { sz = sz }) k)
      else let (sz', w) = uvmalloc p.pagetable sz ((sz + n) % 2 ^ 32) k.world in
        if sz' % 2 ^ 32 == 0
        then (minus_one, record k { world = w })
        else (pos 0, record (put_proc cur (record p { sz = sz' % 2 ^ 32 }) k) { world = w })
  growproc cur (negsuc n) k =
      let p = k.procs cur in
      let sz = p.sz % 2 ^ 32 in
      let (sz', w) =
        uvmdealloc p.pagetable sz ((sz + 2 ^ 32 - (n + 1) % 2 ^ 32) % 2 ^ 32) k.world in
      (pos 0, record (put_proc cur (record p { sz = sz' % 2 ^ 32 }) k) { world = w })
