-- ===== src/Log/Transactions.antt =====
-- What log_write of kernel/log.c records.
use operating_systems_lab.Prelude.{
  ℕ, zero, suc, ◌+◌, ◌≤◌, ◌<◌, ◌≡◌, refl, sym, subst, ◌∙◌, ◌≢◌, ◌⊎◌, inl, inr, true, false, some,
  arith, ◌==◌, if◌then◌else◌, Bool-cases, update, update_self, update_ne, update_same,
}
use operating_systems_lab.Log.{Log, find_slot, log_write}

find_slot-le : (rounds i b : ℕ) (f : ℕ → ℕ) → find_slot rounds i b f ≤ i + rounds
unfolding find_slot
find_slot-le zero i b f = omega arith
find_slot-le (suc rounds) i b f = ground (arith, find_slot-le rounds (i + 1) b f)

find_slot-hit :
    (rounds i b : ℕ) (f : ℕ → ℕ)
    → find_slot rounds i b f < i + rounds
    → f (find_slot rounds i b f) ≡ b
unfolding find_slot
find_slot-hit zero i b f lt = absurd (omega arith)
find_slot-hit (suc rounds) i b f lt = ground (arith, find_slot-hit rounds (i + 1) b f)

find_slot-miss :
    (rounds i b : ℕ) (f : ℕ → ℕ) (j : ℕ)
    → find_slot rounds i b f ≡ i + rounds
    → i ≤ j
    → j < i + rounds
    → f j ≢ b
unfolding find_slot
find_slot-miss zero i b f j e lo hi = absurd (omega arith)
find_slot-miss (suc rounds) i b f j e lo hi = elim (Bool-cases (f i == b)) [
  | inl hit ↦ absurd (ground arith)
  | inr miss ↦ elim (Bool-cases (j == i)) [
    | inl here ↦ let same : j ≡ i = ground arith in rw same (ground arith)
    | inr later ↦ find_slot-miss rounds (i + 1) b f j (ground arith) (ground arith) (omega arith)
  ]
]

slot : ℕ → Log → ℕ
slot b s = find_slot s.lh_n 0 b s.lh_block

-- What log_write leaves: the block in its slot, and pinned once if it is new.
noted : ℕ → Log → Log
unfolding slot
noted b s =
    let s' = record s { lh_block = update s.lh_block (slot b s) b } in
    if slot b s == s.lh_n
    then record s' { pins = update s.pins b (s.pins b + 1); lh_n = s.lh_n + 1 }
    else s'

-- Block `a` is one of the transaction's.
abbrev pub Named : Log → ℕ → Type 0
Named s a = (i : ℕ) × (i < s.lh_n) × (s.lh_block i ≡ a)

abbrev pub Distinct : Log → Type 0
Distinct s = (i j : ℕ) → i < j → j < s.lh_n → s.lh_block i ≢ s.lh_block j

-- What log_write does to the set of logged blocks.
pub record Notes (b : ℕ) (s s' : Log) : Type 0 where
  pub distinct : Distinct s'
  pub named : Named s' b
  pub keeps : (a : ℕ) → Named s a → Named s' a
  pub adds : (a : ℕ) → Named s' a → a ≢ b → Named s a
  pub pinned : (Named s b × (s'.pins ≡ s.pins)) ⊎ (¬ Named s b × (s'.pins b ≡ s.pins b + 1))

noted_old : (b : ℕ) (s : Log) → slot b s < s.lh_n → s.lh_block (slot b s) ≡ b
unfolding slot
noted_old b s lt = find_slot-hit s.lh_n 0 b s.lh_block (omega arith)

noted_new : (b : ℕ) (s : Log) → slot b s ≡ s.lh_n → (j : ℕ) → j < s.lh_n → s.lh_block j ≢ b
unfolding slot
noted_new b s e j lt =
    find_slot-miss s.lh_n 0 b s.lh_block j (omega arith) (omega arith) (omega arith)

slot-le : (b : ℕ) (s : Log) → slot b s ≤ s.lh_n
unfolding slot
slot-le b s = omega (arith, find_slot-le s.lh_n 0 b s.lh_block)

noted-Notes_old : (b : ℕ) (s : Log) → Distinct s → slot b s < s.lh_n → Notes b s (noted b s)
unfolding noted
noted-Notes_old b s d lt =
    let hit : (slot b s == s.lh_n) ≡ false = ground arith in
    let same : update s.lh_block (slot b s) b ≡ s.lh_block =
      update_same s.lh_block (slot b s) b (noted_old b s lt) in
    rw (hit, same, noted)
      (record {
        distinct = d;
        named = (slot b s, lt, noted_old b s lt);
        keeps = λ a h. h;
        adds = λ a h ne. h;
        pinned = inl ((slot b s, lt, noted_old b s lt), refl);
      })

-- The state after a new block was noted.
abbrev added : ℕ → Log → Log
added b s = record s {
  lh_block = update s.lh_block s.lh_n b;
  pins = update s.pins b (s.pins b + 1);
  lh_n = s.lh_n + 1;
}

noted-added : (b : ℕ) (s : Log) → slot b s ≡ s.lh_n → noted b s ≡ added b s
unfolding noted
noted-added b s e = let hit : (slot b s == s.lh_n) ≡ true = ground arith in rw (hit, e)

module _ (b : ℕ) (s : Log) (new : (j : ℕ) → j < s.lh_n → s.lh_block j ≢ b) where
  added-Distinct : Distinct s → Distinct (added b s)
  added-Distinct d i j lt hi = ground (arith, new i, d i j lt)

  added-keeps : (a : ℕ) → Named s a → Named (added b s) a
  added-keeps a (i, lt, e) = (i, omega arith, update_ne s.lh_block s.lh_n b i (omega arith) ∙ e)

  added-adds : (a : ℕ) → Named (added b s) a → a ≢ b → Named s a
  added-adds a (i, lt, e) ne = elim (Bool-cases (i == s.lh_n)) [
    | inl last ↦ absurd (ground arith)
    | inr before ↦ (i, ground arith, ground arith)
  ]

  added-Notes : Distinct s → Notes b s (added b s)
  added-Notes d = record {
    distinct = added-Distinct d;
    named = (s.lh_n, omega arith, update_self s.lh_block s.lh_n b);
    keeps = added-keeps;
    adds = added-adds;
    pinned = inr (λ h. new h.0 h.1 h.2, update_self s.pins b (s.pins b + 1));
  }

noted-Notes : (b : ℕ) (s : Log) → Distinct s → Notes b s (noted b s)
noted-Notes b s d = elim (Bool-cases (slot b s == s.lh_n)) [
  | inl new ↦
      let e : slot b s ≡ s.lh_n = ground arith in
      subst (λ (t : Log). Notes b s t) (sym (noted-added b s e))
        (added-Notes b s (noted_new b s e) d)
  | inr old ↦ noted-Notes_old b s d (ground (arith, slot-le b s))
]

log_write-some : (b : ℕ) (s s' : Log) → log_write b s ≡ some s' → s' ≡ noted b s
unfolding log_write noted
log_write-some b s s' e = ground arith

-- A log_write that does not panic adds its block to the transaction and no other, keeps the logged
-- blocks distinct (absorption), and pins the block's buffer once, when the block is new.
pub log_write-Notes : (b : ℕ) (s s' : Log) → log_write b s ≡ some s' → Distinct s → Notes b s s'
log_write-Notes b s s' e d =
    subst (λ (t : Log). Notes b s t) (sym (log_write-some b s s' e)) (noted-Notes b s d)
