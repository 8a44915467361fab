-- ===== src/Log/Atomic.antt =====
-- commit of kernel/log.c is atomic: the write of the header is the point at which the transaction counts.
use operating_systems_lab.Prelude.{
  ℕ, ◌+◌, ◌≤◌, ◌<◌, ◌≡◌, refl, sym, ap, subst, ◌∙◌, ◌≢◌, ◌⊎◌, inl, inr, true, false, List, ◌∷◌,
  arith, ◌==◌, ==_iff, Bool-cases, update, update_self, update_ne,
}
use operating_systems_lab.Log.{
  Log, Block, Disk, put_blocks, install_trans, write_head, write_log, commit, initlog,
}
use operating_systems_lab.Log.Logical.{
  replayed, logical, logical_of, IsHome, HeaderOk, AgreeBelow, Homes-agree, replayed-copies,
  put_blocks-at, put_blocks-zero,
}
use operating_systems_lab.Log.Install.{All, All-map, SameLog, Installed, install_trans-Installed}
use operating_systems_lab.Log.Recover.{
  logical_cleared, HeaderOk-cleared, Erased, write_head-Erased, initlog_recovers,
}
use operating_systems_lab.Log.Commit.{Ready, Logged, write_log-Logged}

abbrev pub SameHome : Log → Disk → Disk → Type 0
SameHome s d d' = (a : ℕ) → IsHome s.start s.size a → d a ≡ d' a

-- A disk that recovery takes to the home blocks from before the transaction, or to those after it.
pub record Crashed (s : Log) (d : Disk) : Type 0 where
  pub header : HeaderOk s.start s.size d
  pub either : SameHome s (logical s.start d) s.disk ⊎ SameHome s (logical s.start d) s.view

-- The header buffer that write_head writes.
head_of : Log → Block
head_of s = put_blocks s.lh_n s.lh_block (update (s.view s.start) 0 s.lh_n)

head_of-n : (s : Log) → head_of s 0 ≡ s.lh_n
unfolding head_of
head_of-n s =
    put_blocks-zero s.lh_n s.lh_block (update (s.view s.start) 0 s.lh_n)
    ∙ update_self (s.view s.start) 0 s.lh_n

head_of-block : (s : Log) (i : ℕ) → i < s.lh_n → head_of s (i + 1) ≡ s.lh_block i
unfolding head_of
head_of-block s i lt = put_blocks-at s.lh_n s.lh_block (update (s.view s.start) 0 s.lh_n) i lt

module _ (s : Log) where
  write_head-view : (write_head s).view s.start ≡ head_of s
  unfolding write_head head_of
  write_head-view = update_self s.view s.start _

  write_head-disk : (write_head s).disk s.start ≡ head_of s
  unfolding write_head head_of
  write_head-disk = update_self s.disk s.start _ ∙ update_self s.view s.start _

  write_head-view_ne : (a : ℕ) → s.start ≢ a → (write_head s).view a ≡ s.view a
  unfolding write_head
  write_head-view_ne a ne = update_ne s.view s.start _ a ne

  write_head-disk_ne : (a : ℕ) → s.start ≢ a → (write_head s).disk a ≡ s.disk a
  unfolding write_head
  write_head-disk_ne a ne = update_ne s.disk s.start _ a ne

-- What write_head puts on disk when the transaction is logged.
record Headed (s₀ : Log) (h : Log) : Type 0 where
  start_same : h.start ≡ s₀.start
  blocks_same : h.lh_block ≡ s₀.lh_block
  n_same : h.lh_n ≡ s₀.lh_n
  head_n : h.disk s₀.start 0 ≡ s₀.lh_n
  head_blocks : AgreeBelow s₀.lh_n (λ i. h.disk s₀.start (i + 1)) s₀.lh_block
  head_view : h.view s₀.start ≡ h.disk s₀.start
  logged_disk : (i : ℕ) → i < s₀.lh_n → h.disk (s₀.start + i + 1) ≡ s₀.view (s₀.lh_block i)
  logged_view : (i : ℕ) → i < s₀.lh_n → h.view (s₀.start + i + 1) ≡ s₀.view (s₀.lh_block i)
  home_disk : SameHome s₀ h.disk s₀.disk

module _ (s₀ : Log) (ready : Ready s₀) where
  abbrev start : ℕ
  start = s₀.start

  logged : Log
  logged = write_log s₀

  logged-Logged : Logged s₀ s₀.lh_n logged
  unfolding logged
  logged-Logged = write_log-Logged s₀ ready

  headed : Log
  headed = write_head logged

  headed-Headed : Headed s₀ headed
  unfolding headed write_head
  headed-Headed = record {
    start_same = v.start_same;
    blocks_same = v.blocks_same;
    n_same = v.n_same;
    head_n = ap (λ (b : Block). b 0) on_disk ∙ head_of-n logged ∙ v.n_same;
    head_blocks = λ i lt.
        ap (λ (b : Block). b (i + 1)) on_disk
        ∙ head_of-block logged i (rw v.n_same lt)
        ∙ ap (λ (f : ℕ → ℕ). f i) v.blocks_same;
    head_view = in_view ∙ sym on_disk;
    logged_disk = λ i lt.
        write_head-disk_ne logged (s₀.start + i + 1) (omega (arith, v.start_same))
        ∙ v.copied_disk i lt;
    logged_view = λ i lt.
        write_head-view_ne logged (s₀.start + i + 1) (omega (arith, v.start_same))
        ∙ v.copied_view i lt;
    home_disk = λ a home.
        write_head-disk_ne logged a (omega (arith, v.start_same, ready.fits))
        ∙ v.others_disk a (ground arith);
  }
    where
      v : Logged s₀ s₀.lh_n logged
      v = logged-Logged

      on_disk : headed.disk s₀.start ≡ head_of logged
      on_disk = ap headed.disk (sym v.start_same) ∙ write_head-disk logged

      in_view : headed.view s₀.start ≡ head_of logged
      in_view = ap headed.view (sym v.start_same) ∙ write_head-view logged

  -- The disk with the whole log stands for the cached blocks.
  replayed_new :
      (a : ℕ)
      → IsHome s₀.start s₀.size a
      → replayed s₀.start s₀.lh_block headed.disk s₀.lh_n a ≡ s₀.view a
  replayed_new a home =
      elim (replayed-copies s₀.start s₀.lh_block headed.disk s₀.view s₀.lh_n a
        headed-Headed.logged_disk) [
          | inl e ↦ e
          | inr (ne, e) ↦ e ∙ headed-Headed.home_disk a home ∙ sym (ready.clean a home ne)
        ]

  logged-Crashed :
      (d : Disk)
      → ((a : ℕ) → (a ≤ s₀.start) ⊎ (s₀.start + s₀.size ≤ a) → d a ≡ s₀.disk a)
      → Crashed s₀ d
  logged-Crashed d same =
      let empty : d s₀.start 0 ≡ 0 =
        ap (λ (b : Block). b 0) (same s₀.start (inl (omega arith))) ∙ ready.empty in
      record {
        header = HeaderOk-cleared s₀.start s₀.size d (omega (arith, ready.fits)) empty;
        either = inl (λ a home. logical_cleared s₀.start d a empty ∙ same a (ground arith));
      }

  SameLog-Crashed :
      (d : Disk) → SameLog s₀.start s₀.size s₀.lh_n s₀.lh_block headed.disk d → Crashed s₀ d
  SameLog-Crashed d v =
      let head : d s₀.start ≡ headed.disk s₀.start =
        v.log_same s₀.start (omega arith) (omega (arith, ready.fits)) in
      let n_eq : d s₀.start 0 ≡ s₀.lh_n = ap (λ (b : Block). b 0) head ∙ headed-Headed.head_n in
      let agree : AgreeBelow s₀.lh_n (λ i. d s₀.start (i + 1)) s₀.lh_block =
        λ i lt. ap (λ (b : Block). b (i + 1)) head ∙ headed-Headed.head_blocks i lt in
      record {
        header = record {
          fits = rw n_eq ready.fits;
          in_array = rw n_eq ready.in_array;
          homes = rw n_eq (
              Homes-agree s₀.start s₀.size s₀.lh_block (λ i. d s₀.start (i + 1)) s₀.lh_n
                (λ i lt. sym (agree i lt)) ready.homes);
        };
        either = inr (λ a home.
            logical_of s₀.start s₀.lh_n s₀.lh_block d a n_eq agree
            ∙ v.stands a home
            ∙ replayed_new a home);
      }

  headed-crashes : headed.crashes ≡ headed.disk ∷ logged.crashes
  unfolding headed write_head
  headed-crashes = refl

  headed-Installed :
      Installed s₀.start s₀.size s₀.lh_n s₀.lh_block headed.disk (Crashed s₀) 0 headed
  headed-Installed = record {
    start_same = headed-Headed.start_same;
    blocks_same = headed-Headed.blocks_same;
    n_same = headed-Headed.n_same;
    log_view = λ i lt. headed-Headed.logged_view i lt ∙ sym (headed-Headed.logged_disk i lt);
    head_view = headed-Headed.head_view;
    log_disk = λ a lo hi. refl;
    home_disk = λ a home. refl;
    crashes_same = crashed;
  }
    where
      crashed : All (Crashed s₀) headed.crashes
      crashed =
          subst (λ (c : List Disk). All (Crashed s₀) c) (sym headed-crashes)
            (
              SameLog-Crashed headed.disk
                  (record { log_same = λ a lo hi. refl; stands = λ a home. refl }),
              All-map logged-Crashed logged.crashes logged-Logged.crashes_same,
            )

  installed : Log
  installed = install_trans false headed

  installed-Installed :
      Installed s₀.start s₀.size s₀.lh_n s₀.lh_block headed.disk (Crashed s₀) s₀.lh_n installed
  unfolding installed
  installed-Installed =
      install_trans-Installed s₀.start s₀.size s₀.lh_n s₀.lh_block headed.disk ready.fits
        ready.homes (Crashed s₀) SameLog-Crashed false headed headed-Installed

  erased : Log
  erased = write_head (record installed { lh_n = 0 })

  erased-Erased : Erased s₀.start installed erased
  unfolding erased
  erased-Erased = write_head-Erased s₀.start installed installed-Installed.start_same

  erased-home : SameHome s₀ erased.disk s₀.view
  erased-home a home =
      erased-Erased.others a (omega (arith, ready.fits))
      ∙ installed-Installed.home_disk a home
      ∙ replayed_new a home

  erased-crashes : All (Crashed s₀) erased.crashes
  erased-crashes =
      subst (λ (c : List Disk). All (Crashed s₀) c) (sym erased-Erased.one_write)
        (
          record {
            header =
                HeaderOk-cleared s₀.start s₀.size erased.disk (omega (arith, ready.fits))
                  erased-Erased.empty;
            either = inr (λ a home.
                logical_cleared s₀.start erased.disk a erased-Erased.empty ∙ erased-home a home);
          },
          installed-Installed.crashes_same,
        )

commit-erased : (s : Log) (ready : Ready s) → (s.lh_n == 0) ≡ false → commit s ≡ erased s ready
unfolding commit erased installed headed logged
commit-erased s ready e = rw e

-- What commit achieves, and what a crash in it can leave.
pub record Committed (s s' : Log) : Type 0 where
  pub home : SameHome s s'.disk s.view
  pub log_empty : s'.disk s.start 0 ≡ 0
  pub n_zero : s'.lh_n ≡ 0
  pub crashes : All (Crashed s) s'.crashes

-- commit, run on an empty log and a transaction that fits it, makes every home block on disk what the
-- buffer cache holds for it, and leaves the log empty on disk and in memory. A crash after any of
-- its disk writes leaves a disk whose header fits the log and that stands, for all home blocks at
-- once, either for the contents before the transaction or for those after it.
pub commit_atomic : (s : Log) → Ready s → Committed s (commit s)
unfolding commit
commit_atomic s ready = elim (Bool-cases (s.lh_n == 0)) [
  | inl none_logged ↦
      subst (λ (t : Log). Committed s t) (sym (nothing none_logged))
        (record {
          home = λ a home.
              sym (
                ready.clean a home
                  (λ i lt. absurd (omega (arith, lt, (==_iff _ _).0 none_logged))));
          log_empty = ready.empty;
          n_zero = (==_iff _ _).0 none_logged;
          crashes = rw ready.recording tt;
        })
  | inr some_logged ↦
      subst (λ (t : Log). Committed s t) (sym (everything some_logged))
        (record {
          home = erased-home s ready;
          log_empty = (erased-Erased s ready).empty;
          n_zero = (erased-Erased s ready).n_zero;
          crashes = erased-crashes s ready;
        })
]
  where
    nothing : (s.lh_n == 0) ≡ true → commit s ≡ s
    nothing e = rw e

    everything : (s.lh_n == 0) ≡ false → commit s ≡ erased s ready
    everything e = commit-erased s ready e

-- A crash after any disk write of commit, followed by recovery at the next boot, leaves all home blocks
-- as they were before the transaction, or all as the transaction made them.
pub commit_crash_recovers :
    (s : Log)
    → Ready s
    → All
        (λ d.
          let r = initlog s.start s.size d in SameHome s r.disk s.disk ⊎ SameHome s r.disk s.view)
        (commit s).crashes
commit_crash_recovers s ready = All-map settled (commit s).crashes (commit_atomic s ready).crashes
  where
    settled :
        (d : Disk)
        → Crashed s d
        → SameHome s (initlog s.start s.size d).disk s.disk
          ⊎ SameHome s (initlog s.start s.size d).disk s.view
    settled d c = elim c.either [
      | inl old ↦ inl (λ a home. (initlog_recovers s.start s.size d c.header).0 a home ∙ old a home)
      | inr new ↦ inr (λ a home. (initlog_recovers s.start s.size d c.header).0 a home ∙ new a home)
    ]
