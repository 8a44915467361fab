-- ===== src/Log/Install.antt =====
-- install_trans of kernel/log.c: how far the home blocks are copied after each write.
use operating_systems_lab.Prelude.{
  ℕ, zero, suc, ◌+◌, ◌≤◌, ◌<◌, ◌≡◌, ap, subst, ◌∙◌, Bool, true, false, List, [], ◌∷◌, arith,
  update_ne,
}
use operating_systems_lab.Log.{Log, Disk, install_one, install_from, install_trans, bwrite, set_buf}
use operating_systems_lab.Log.Logical.{replayed, IsHome, Homes, Homes-at, replayed-between}

abbrev pub All : (Disk → Type 0) → List Disk → Type 0
All P [] = Unit {0}
All P (d ∷ ds) = P d × All P ds

pub All-map :
    {P Q : Disk → Type 0} → ((d : Disk) → P d → Q d) → (ds : List Disk) → All P ds → All Q ds
All-map f [] h = tt
All-map f (d ∷ ds) h = (f d h.0, All-map f ds h.1)

-- Disk `d` has the log of `d₀` untouched, and stands for the same blocks.
pub record SameLog (start size n : ℕ) (blocks : ℕ → ℕ) (d₀ d : Disk) : Type 0 where
  pub log_same : (a : ℕ) → start ≤ a → a < start + size → d a ≡ d₀ a
  pub stands :
      (a : ℕ) → IsHome start size a → replayed start blocks d n a ≡ replayed start blocks d₀ n a

-- The first `t` entries have been copied home from the log of `d₀`, and every disk on the way has `P`.
pub record Installed (start size n : ℕ) (blocks : ℕ → ℕ) (d₀ : Disk) (P : Disk → Type 0) (t : ℕ)
    (s : Log) : Type 0 where
  pub start_same : s.start ≡ start
  pub blocks_same : s.lh_block ≡ blocks
  pub n_same : s.lh_n ≡ n
  pub log_view : (i : ℕ) → i < n → s.view (start + i + 1) ≡ d₀ (start + i + 1)
  pub head_view : s.view start ≡ d₀ start
  pub log_disk : (a : ℕ) → start ≤ a → a < start + size → s.disk a ≡ d₀ a
  pub home_disk : (a : ℕ) → IsHome start size a → s.disk a ≡ replayed start blocks d₀ t a
  pub crashes_same : All P s.crashes

module _ (start size n : ℕ) (blocks : ℕ → ℕ) (d₀ : Disk) (fits : n < size)
    (homes : Homes start size blocks n) (P : Disk → Type 0)
    (keep : (d : Disk) → SameLog start size n blocks d₀ d → P d) where
  Installed-SameLog :
      (t : ℕ) (d : Disk)
      → t ≤ n
      → ((a : ℕ) → start ≤ a → a < start + size → d a ≡ d₀ a)
      → ((a : ℕ) → IsHome start size a → d a ≡ replayed start blocks d₀ t a)
      → SameLog start size n blocks d₀ d
  Installed-SameLog t d le l h = record {
    log_same = l;
    stands = λ a home.
        replayed-between start blocks d d₀ n t a le
          (λ i lt. l (start + i + 1) (omega arith) (omega arith)) (h a home);
  }

  -- The copy of entry `t` to its home, written to disk.
  abbrev copy_home : ℕ → Log → Log
  copy_home t s = bwrite (s.lh_block t) (set_buf (s.lh_block t) (s.view (s.start + t + 1)) s)

  module _ (t : ℕ) (s : Log) (lt : t < n) (v : Installed start size n blocks d₀ P t s) where
    dst_eq : s.lh_block t ≡ blocks t
    dst_eq = ap (λ (f : ℕ → ℕ). f t) v.blocks_same

    dst-IsHome : IsHome start size (s.lh_block t)
    dst-IsHome = rw dst_eq (Homes-at start size blocks n t homes lt)

    entry_eq : s.view (s.start + t + 1) ≡ d₀ (start + t + 1)
    entry_eq = ap (λ (b : ℕ). s.view (b + t + 1)) v.start_same ∙ v.log_view t lt

    copy_home-log_disk : (a : ℕ) → start ≤ a → a < start + size → (copy_home t s).disk a ≡ d₀ a
    copy_home-log_disk a lo hi =
        update_ne s.disk (s.lh_block t) _ a (omega (arith, dst-IsHome)) ∙ v.log_disk a lo hi

    copy_home-home_disk :
        (a : ℕ) → IsHome start size a → (copy_home t s).disk a ≡ replayed start blocks d₀ (suc t) a
    copy_home-home_disk a home = ground (arith, dst_eq, entry_eq, v.home_disk a home)

    copy_home-Installed : Installed start size n blocks d₀ P (suc t) (copy_home t s)
    copy_home-Installed = record {
      start_same = v.start_same;
      blocks_same = v.blocks_same;
      n_same = v.n_same;
      log_view = λ i below.
          update_ne s.view (s.lh_block t) _ (start + i + 1) (omega (arith, dst-IsHome))
          ∙ v.log_view i below;
      head_view = update_ne s.view (s.lh_block t) _ start (omega (arith, dst-IsHome)) ∙ v.head_view;
      log_disk = copy_home-log_disk;
      home_disk = copy_home-home_disk;
      crashes_same = (
        keep (copy_home t s).disk (
            Installed-SameLog (suc t) (copy_home t s).disk lt copy_home-log_disk
              copy_home-home_disk),
        v.crashes_same,
      );
    }

  install_one-Installed :
      (recovering : Bool) (t : ℕ) (s : Log)
      → t < n
      → Installed start size n blocks d₀ P t s
      → Installed start size n blocks d₀ P (suc t) (install_one recovering t s)
  unfolding install_one
  install_one-Installed true t s lt v = copy_home-Installed t s lt v
  install_one-Installed false t s lt v =
      let w = copy_home-Installed t s lt v in
      record {
        start_same = w.start_same;
        blocks_same = w.blocks_same;
        n_same = w.n_same;
        log_view = w.log_view;
        head_view = w.head_view;
        log_disk = w.log_disk;
        home_disk = w.home_disk;
        crashes_same = w.crashes_same;
      }

  install_from-Installed :
      (recovering : Bool) (rounds t : ℕ) (s : Log)
      → rounds + t ≡ n
      → Installed start size n blocks d₀ P t s
      → Installed start size n blocks d₀ P n (install_from recovering rounds t s)
  unfolding install_from
  install_from-Installed recovering zero t s e v =
      let same : t ≡ n = omega arith in subst (λ k. Installed start size n blocks d₀ P k s) same v
  install_from-Installed recovering (suc rounds) t s e v =
      install_from-Installed recovering rounds (t + 1) (install_one recovering t s) (omega arith) (
        let next : t + 1 ≡ suc t = omega arith in
        rw next (install_one-Installed recovering t s (omega arith) v))

  -- install_trans copies every entry home, and the disks on the way have `P`.
  pub install_trans-Installed :
      (recovering : Bool) (s : Log)
      → Installed start size n blocks d₀ P 0 s
      → Installed start size n blocks d₀ P n (install_trans recovering s)
  unfolding install_trans
  install_trans-Installed recovering s v =
      install_from-Installed recovering s.lh_n 0 s (omega (arith, v.n_same)) v
