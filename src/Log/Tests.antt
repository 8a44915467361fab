-- ===== src/Log/Tests.antt =====
-- The theorems on the log at concrete inputs, and runs of its code.
use operating_systems_lab.Prelude.{ℕ, ◌≡◌, refl, ◌⊎◌, arith, ◌==◌, if◌then◌else◌, update, update_ne}
use operating_systems_lab.Log.{install_one, Log, Disk, boot, initlog, commit, log_write}
use operating_systems_lab.Log.Logical.{IsHome, HeaderOk, logical}
use operating_systems_lab.Log.Install.{All}
use operating_systems_lab.Log.Recover.{Stands, initlog_recovers}
use operating_systems_lab.Log.Commit.{Ready}
use operating_systems_lab.Log.Atomic.{SameHome, Committed, commit_atomic, commit_crash_recovers}
use operating_systems_lab.Log.Transactions.{Notes, log_write-Notes}

-- Every word of block b is b, but the log's header, block 2, is empty.
abbrev numbered : Disk
numbered b w = if b == 2 then 0 else b

-- A crash left block 100's new contents, the words of block 3, in a log at 2 of size 31.
abbrev crashed : Disk
crashed b w = if b == 2 then (if w == 0 then 1 else if w == 1 then 100 else 0) else b

crashed-HeaderOk : HeaderOk 2 31 crashed
crashed-HeaderOk = record { fits = omega arith; in_array = omega arith; homes = (omega arith, tt) }

abbrev transaction : Log
transaction = record (boot 2 31 numbered) {
  outstanding = 1;
  lh_n = 1;
  lh_block = λ _. 100;
  view = update numbered 100 (λ _. 7);
}

transaction-Ready : Ready transaction
transaction-Ready = record {
  fits = omega arith;
  in_array = omega arith;
  homes = (omega arith, tt);
  empty = refl;
  recording = refl;
  clean = λ a home ne. update_ne numbered 100 (λ _. 7) a (ne 0 (omega arith));
}

initlog_recovers_example :
    let s = initlog 2 31 crashed in
    ((a : ℕ) → IsHome 2 31 a → s.disk a ≡ logical 2 crashed a)
    × (s.disk 2 0 ≡ 0)
    × (s.lh_n ≡ 0)
    × All (Stands 2 31 crashed) s.crashes
initlog_recovers_example = initlog_recovers 2 31 crashed crashed-HeaderOk

recovered : (initlog 2 31 crashed).disk 100 5 ≡ 3
unfolding initlog install_one
recovered = refl

commit_atomic_example : Committed transaction (commit transaction)
commit_atomic_example = commit_atomic transaction transaction-Ready

commit_crash_recovers_example :
    All
      (λ d.
        let r = initlog 2 31 d in
        SameHome transaction r.disk numbered
        ⊎ SameHome transaction r.disk (update numbered 100 (λ _. 7)))
      (commit transaction).crashes
commit_crash_recovers_example = commit_crash_recovers transaction transaction-Ready

log_write-Notes_example :
    Notes 100 transaction (record transaction { lh_block = update (λ _. 100) 0 100 })
unfolding log_write
log_write-Notes_example = log_write-Notes 100 transaction _ refl λ i j lt hi. absurd (omega arith)
