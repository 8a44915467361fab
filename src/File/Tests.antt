-- ===== src/File/Tests.antt =====
-- The theorems on the file table at concrete inputs, and runs of the code.
use operating_systems_lab.Prelude.{
  ℕ, ◌+◌, ◌-◌, ◌^◌, ◌≡◌, refl, true, none, some, leb, ◌==◌, if◌then◌else◌, minus_one, pos, negsuc,
}
use operating_systems_lab.File.{File, fd_none, fd_inode, Table, FileCalls, filealloc, to_uint}
use operating_systems_lab.File.Alloc.{Allocated, filealloc_lem}

-- A rest of the kernel that counts the bytes written and has room for 4000.
abbrev counting : FileCalls
counting = record {
  World = ℕ;
  begin_op = λ w. some w;
  end_op = λ w. some w;
  iput = λ ip w. some w;
  ilock = λ ip w. some w;
  iunlock = λ ip w. some w;
  stati = λ ip w. record { st_dev = 1; st_ino = ip; st_type = 2; st_nlink = 1; st_size = w };
  readi = λ ip addr off n w. some (pos 0, w);
  writei = λ ip addr off n w. if leb (w + n) 4000 then some (pos n, w + n) else some (minus_one, w);
  pipeclose = λ p writable w. some w;
  piperead = λ p addr n w. some (n, w);
  pipewrite = λ p addr n w. some (n, w);
  device_read = λ major. none;
  device_write = λ major. none;
  copyout_stat = λ addr st w. (true, w);
}

abbrev on_inode : File
on_inode = record {
  type = fd_inode;
  ref = 1;
  readable = true;
  writable = true;
  pipe = 0;
  ip = 7;
  off = 0;
  major = pos 0;
}

abbrev one_open : Table ℕ
one_open = record {
  files = λ f. if f == 0 then on_inode else record on_inode { type = fd_none; ref = 0 };
  world = 0;
}

filealloc_lem_example : Allocated counting one_open 0 (filealloc counting one_open)
filealloc_lem_example = filealloc_lem counting one_open

minus_two_as_uint : to_uint (negsuc 1) ≡ 2 ^ 32 - 2
unfolding to_uint
minus_two_as_uint = refl
