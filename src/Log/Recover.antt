-- ===== src/Log/Recover.antt =====
-- recover_from_log of kernel/log.c, run at boot on whatever a crash left.
use operating_systems_lab.Prelude.{
  ℕ, ◌+◌, ◌<◌, ◌≡◌, refl, sym, subst, ◌∙◌, ◌≢◌, true, List, ◌∷◌, arith,
}
use operating_systems_lab.Log.{
  initlog, recover_from_log, write_head, Log, Disk, boot, read_head, get_blocks, install_trans,
}
use operating_systems_lab.Log.Logical.{
  logical, IsHome, HeaderOk, AgreeBelow, Homes-agree, replayed-agree, get_blocks-at,
}
use operating_systems_lab.Log.Install.{All, SameLog, Installed, install_trans-Installed}

-- Disk `d'` is fit for recovery and stands for the same home blocks as `d`.
pub record Stands (start size : ℕ) (d d' : Disk) : Type 0 where
  pub header : HeaderOk start size d'
  pub same : (a : ℕ) → IsHome start size a → logical start d' a ≡ logical start d a

-- With an empty log a disk stands for itself.
pub logical_cleared : (start : ℕ) (d : Disk) (a : ℕ) → d start 0 ≡ 0 → logical start d a ≡ d a
logical_cleared start d a e = rw e

pub HeaderOk-cleared :
    (start size : ℕ) (d : Disk) → 0 < size → d start 0 ≡ 0 → HeaderOk start size d
HeaderOk-cleared start size d h e = record {
  fits = omega arith;
  in_array = omega (arith, e);
  homes = rw e tt;
}

-- write_head after lh.n was set to 0.
pub record Erased (start : ℕ) (s s' : Log) : Type 0 where
  pub empty : s'.disk start 0 ≡ 0
  pub others : (a : ℕ) → start ≢ a → s'.disk a ≡ s.disk a
  pub one_write : s'.crashes ≡ s'.disk ∷ s.crashes
  pub n_zero : s'.lh_n ≡ 0
  pub head_cached : s'.view start ≡ s'.disk start
  pub others_cached : (a : ℕ) → start ≢ a → s'.view a ≡ s.view a

pub write_head-Erased :
    (start : ℕ) (s : Log) → s.start ≡ start → Erased start s (write_head (record s { lh_n = 0 }))
unfolding write_head
write_head-Erased start s e = record {
  empty = ground arith;
  others = λ a ne. ground arith;
  one_write = refl;
  n_zero = refl;
  head_cached = ground arith;
  others_cached = λ a ne. ground arith;
}

module _ (start size : ℕ) (d : Disk) (ok : HeaderOk start size d) where
  SameLog-Stands :
      (blocks : ℕ → ℕ) (d' : Disk)
      → AgreeBelow (d start 0) blocks (λ i. d start (i + 1))
      → SameLog start size (d start 0) blocks d d'
      → Stands start size d d'
  SameLog-Stands blocks d' agree v =
      let head : d' start ≡ d start = v.log_same start (omega arith) (omega (arith, ok.fits)) in
      record {
        header = record {
          fits = rw head ok.fits;
          in_array = rw head ok.in_array;
          homes = rw head ok.homes;
        };
        same = λ a home. rw head (
            replayed-agree start (λ i. d start (i + 1)) blocks d' (d start 0) a
              (λ i lt. sym (agree i lt))
            ∙ v.stands a home
            ∙ replayed-agree start blocks (λ i. d start (i + 1)) d (d start 0) a agree);
      }

  -- The entries that read_head finds after a boot.
  entries : ℕ → ℕ
  entries = get_blocks (d start 0) (d start) (λ _. 0)

  entries-agree : AgreeBelow (d start 0) entries (λ i. d start (i + 1))
  unfolding entries
  entries-agree i lt = get_blocks-at (d start 0) (d start) (λ _. 0) i lt

  read_head-Installed :
      Installed start size
        (d start 0)
        entries
        d
        (Stands start size d)
        0
        (read_head (boot start size d))
  unfolding read_head entries
  read_head-Installed = record {
    start_same = refl;
    blocks_same = refl;
    n_same = refl;
    log_view = λ i lt. refl;
    head_view = refl;
    log_disk = λ a lo hi. refl;
    home_disk = λ a home. refl;
    crashes_same = tt;
  }

  replayed_log : Log
  replayed_log = install_trans true (read_head (boot start size d))

  replayed_log-Installed :
      Installed start size (d start 0) entries d (Stands start size d) (d start 0) replayed_log
  unfolding replayed_log
  replayed_log-Installed =
      install_trans-Installed start size (d start 0) entries d ok.fits
        (Homes-agree start size (λ i. d start (i + 1)) entries (d start 0)
          (λ i lt. sym (entries-agree i lt)) ok.homes)
        (Stands start size d) (λ d' w. SameLog-Stands entries d' entries-agree w) true
        (read_head (boot start size d)) read_head-Installed

  recover_from_log-Erased : Erased start replayed_log (recover_from_log (boot start size d))
  unfolding recover_from_log replayed_log
  recover_from_log-Erased = write_head-Erased start replayed_log replayed_log-Installed.start_same

-- Recovery at boot, from any disk whose header fits the log: every home block becomes what the disk
-- stands for, the log ends empty, and a crash after any of its writes leaves a disk from which
-- recovery can run again and that stands for the same home blocks.
pub initlog_recovers :
    (start size : ℕ) (d : Disk)
    → HeaderOk start size d
    → let s = initlog start size d in
      ((a : ℕ) → IsHome start size a → s.disk a ≡ logical start d a)
      × (s.disk start 0 ≡ 0)
      × (s.lh_n ≡ 0)
      × All (Stands start size d) s.crashes
unfolding initlog
initlog_recovers start size d ok = (home, e.empty, e.n_zero, crashes)
  where
    agree : AgreeBelow (d start 0) (entries start size d ok) (λ i. d start (i + 1))
    agree = entries-agree start size d ok

    v :
        Installed start size
          (d start 0)
          (entries start size d ok)
          d
          (Stands start size d)
          (d start 0)
          (replayed_log start size d ok)
    v = replayed_log-Installed start size d ok

    e : Erased start (replayed_log start size d ok) (recover_from_log (boot start size d))
    e = recover_from_log-Erased start size d ok

    home :
        (a : ℕ)
        → IsHome start size a
        → (recover_from_log (boot start size d)).disk a ≡ logical start d a
    home a h =
        e.others a (omega (arith, ok.fits))
        ∙ v.home_disk a h
        ∙ replayed-agree start (entries start size d ok) (λ i. d start (i + 1)) d (d start 0) a
            agree

    last : Stands start size d (recover_from_log (boot start size d)).disk
    last = record {
      header =
          HeaderOk-cleared start size (recover_from_log (boot start size d)).disk
            (omega (arith, ok.fits)) e.empty;
      same = λ a h.
          logical_cleared start (recover_from_log (boot start size d)).disk a e.empty ∙ home a h;
    }

    crashes : All (Stands start size d) (recover_from_log (boot start size d)).crashes
    crashes =
        subst (λ (c : List Disk). All (Stands start size d) c) (sym e.one_write)
          (last, v.crashes_same)
