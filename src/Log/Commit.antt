-- ===== src/Log/Commit.antt =====
-- commit of kernel/log.c: at each of its disk writes a crash leaves the transaction done or not begun.
use operating_systems_lab.Prelude.{
  ℕ, zero, suc, ◌+◌, ◌≤◌, ◌<◌, ◌≡◌, refl, ap, subst, ◌∙◌, ◌≢◌, ◌⊎◌, inl, inr, [], arith, ◌==◌,
  Bool-cases, update, update_self, update_ne,
}
use operating_systems_lab.Log.{logsize, Log, Block, Disk, write_log_one, write_log_from, write_log}
use operating_systems_lab.Log.Logical.{IsHome, Homes, Homes-at}
use operating_systems_lab.Log.Install.{All}

-- A state in which commit may run: the log on disk is empty, the transaction fits it and log.lh.block and names home
-- blocks, the record of crashes begins, and every home block that it does not name is cached as it is on disk.
pub record Ready (s : Log) : Type 0 where
  pub fits : s.lh_n < s.size
  pub in_array : s.lh_n ≤ logsize
  pub homes : Homes s.start s.size s.lh_block s.lh_n
  pub empty : s.disk s.start 0 ≡ 0
  pub recording : s.crashes ≡ []
  pub clean :
      (a : ℕ)
      → IsHome s.start s.size a
      → ((i : ℕ) → i < s.lh_n → s.lh_block i ≢ a)
      → s.view a ≡ s.disk a

-- write_log after `t` rounds: the log blocks hold the cached blocks, and nothing else has changed.
pub record Logged (s₀ : Log) (t : ℕ) (s : Log) : Type 0 where
  pub start_same : s.start ≡ s₀.start
  pub blocks_same : s.lh_block ≡ s₀.lh_block
  pub n_same : s.lh_n ≡ s₀.lh_n
  pub copied_view : (i : ℕ) → i < t → s.view (s₀.start + i + 1) ≡ s₀.view (s₀.lh_block i)
  pub copied_disk : (i : ℕ) → i < t → s.disk (s₀.start + i + 1) ≡ s₀.view (s₀.lh_block i)
  pub others_view : (a : ℕ) → (a ≤ s₀.start) ⊎ (s₀.start + s₀.size ≤ a) → s.view a ≡ s₀.view a
  pub others_disk : (a : ℕ) → (a ≤ s₀.start) ⊎ (s₀.start + s₀.size ≤ a) → s.disk a ≡ s₀.disk a
  pub crashes_same :
      All (λ d. (a : ℕ) → (a ≤ s₀.start) ⊎ (s₀.start + s₀.size ≤ a) → d a ≡ s₀.disk a) s.crashes

-- Outside the log's blocks; the header counts as outside.
abbrev Beside : Log → ℕ → Type 0
Beside s a = (a ≤ s.start) ⊎ (s.start + s.size ≤ a)

module _ (s₀ : Log) (ready : Ready s₀) where
  module _ (t : ℕ) (s : Log) (lt : t < s₀.lh_n) (v : Logged s₀ t s) where
    target : s.start + t + 1 ≡ s₀.start + t + 1
    target = omega (arith, v.start_same)

    source : s.view (s.lh_block t) ≡ s₀.view (s₀.lh_block t)
    source =
        ap (λ (f : ℕ → ℕ). s.view (f t)) v.blocks_same
        ∙ v.others_view (s₀.lh_block t)
            (let h = Homes-at s₀.start s₀.size s₀.lh_block s₀.lh_n t ready.homes lt in ground arith)

    at_entry :
        (f : Disk) (x : Block)
        → x ≡ s₀.view (s₀.lh_block t)
        → ((i : ℕ) → i < t → f (s₀.start + i + 1) ≡ s₀.view (s₀.lh_block i))
        → (i : ℕ) → i < suc t
        → update f (s.start + t + 1) x (s₀.start + i + 1) ≡ s₀.view (s₀.lh_block i)
    at_entry f x e old i le = elim (Bool-cases (i == t)) [
      | inl here ↦
          let same : i ≡ t = ground arith in
          rw (same, target) (update_self f (s₀.start + t + 1) x ∙ e)
      | inr other ↦
          update_ne f (s.start + t + 1) x (s₀.start + i + 1) (ground (arith, target))
          ∙ old i (ground arith)
    ]

    Beside-ne : (a : ℕ) → Beside s₀ a → s.start + t + 1 ≢ a
    Beside-ne a h = omega (arith, target, ready.fits)

    written : Block
    written = update s.view (s.start + t + 1) (s.view (s.lh_block t)) (s.start + t + 1)

    written_eq : written ≡ s₀.view (s₀.lh_block t)
    unfolding written
    written_eq = update_self s.view (s.start + t + 1) (s.view (s.lh_block t)) ∙ source

    Beside-disk : (a : ℕ) → Beside s₀ a → (write_log_one t s).disk a ≡ s₀.disk a
    unfolding write_log_one
    Beside-disk a h = update_ne s.disk (s.start + t + 1) _ a (Beside-ne a h) ∙ v.others_disk a h

    write_log_one-Logged : Logged s₀ (suc t) (write_log_one t s)
    unfolding write_log_one written
    write_log_one-Logged = record {
      start_same = v.start_same;
      blocks_same = v.blocks_same;
      n_same = v.n_same;
      copied_view = at_entry s.view (s.view (s.lh_block t)) source v.copied_view;
      copied_disk = at_entry s.disk written written_eq v.copied_disk;
      others_view =
          λ a h. update_ne s.view (s.start + t + 1) _ a (Beside-ne a h) ∙ v.others_view a h;
      others_disk = Beside-disk;
      crashes_same = (Beside-disk, v.crashes_same);
    }

  write_log_from-Logged :
      (rounds t : ℕ) (s : Log)
      → rounds + t ≡ s₀.lh_n
      → Logged s₀ t s
      → Logged s₀ s₀.lh_n (write_log_from rounds t s)
  unfolding write_log_from
  write_log_from-Logged zero t s e v =
      let same : t ≡ s₀.lh_n = omega arith in subst (λ (k : ℕ). Logged s₀ k s) same v
  write_log_from-Logged (suc rounds) t s e v =
      write_log_from-Logged rounds (t + 1) (write_log_one t s) (omega arith) (
        let next : t + 1 ≡ suc t = omega arith in
        rw next (write_log_one-Logged t s (omega arith) v))

  pub write_log-Logged : Logged s₀ s₀.lh_n (write_log s₀)
  unfolding write_log
  write_log-Logged = write_log_from-Logged s₀.lh_n 0 s₀ (omega arith) (record {
    start_same = refl;
    blocks_same = refl;
    n_same = refl;
    copied_view = λ i lt. elim lt [ ];
    copied_disk = λ i lt. elim lt [ ];
    others_view = λ a h. refl;
    others_disk = λ a h. refl;
    crashes_same = rw ready.recording tt;
  })
