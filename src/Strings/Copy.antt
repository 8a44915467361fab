-- ===== src/Strings/Copy.antt =====
-- strncpy and safestrcpy of kernel/string.c: what the destination holds afterwards.
use operating_systems_lab.Prelude.{
  ℕ, zero, suc, ◌+◌, ◌-◌, ◌≤◌, ◌<◌, ◌≡◌, refl, ap, ◌⊎◌, inl, inr, ◌&&◌, List, ◌∷◌, arith, ltb, leb,
  ◌==◌, if◌then◌else◌, Bool-cases, length, get_or, update,
}
use operating_systems_lab.Strings.{Mem, strncpy, zero_fill, safestrcpy, safestrcpy_from}
use operating_systems_lab.Strings.Compare.{c_string}

-- `n` bytes at `s` and the bytes that are read from `t` do not overlap.
abbrev pub Apart : ℕ → ℕ → ℕ → Type 0
Apart s t n = (s + n ≤ t) ⊎ (t + n ≤ s)

zero_fill_lem :
    (s n : ℕ) (m : Mem) (a : ℕ) → zero_fill s n m a ≡ (if leb s a && ltb a (s + n) then 0 else m a)
unfolding zero_fill
zero_fill_lem s zero m a = ground arith
zero_fill_lem s (suc n) m a = ground (arith, zero_fill_lem (s + 1) n (update m s 0) a)

-- The C string does not depend on bytes outside its bounds.
pub c_string-update :
    (n p a v : ℕ) (m : Mem) → (a < p) ⊎ (p + n ≤ a) → c_string n p (update m a v) ≡ c_string n p m
unfolding c_string
c_string-update zero p a v m h = refl
c_string-update (suc n) p a v m h = ground (arith, c_string-update n (p + 1) a v m)

get_or-cons : (x : ℕ) (xs : List ℕ) (i : ℕ) → 0 < i → get_or (x ∷ xs) i 0 ≡ get_or xs (i - 1) 0
get_or-cons x xs zero h = absurd (omega arith)
get_or-cons x xs (suc i) h = ap (λ j. get_or xs j 0) (omega arith)

-- strncpy writes exactly `n` bytes: the source up to its NUL, then NULs. Where the source has no NUL
-- among its first `n` bytes, neither has the destination.
pub strncpy_lem :
    (s t n : ℕ) (m : Mem) (a : ℕ)
    → Apart s t n
    → strncpy s t n m a
      ≡ (if leb s a && ltb a (s + n) then get_or (c_string n t m) (a - s) 0 else m a)
unfolding strncpy c_string
strncpy_lem s t zero m a h = ground arith
strncpy_lem s t (suc n) m a h = ground (
  arith,
  zero_fill_lem (s + 1) n (update m s (m t)) a,
  strncpy_lem (s + 1) (t + 1) n (update m s (m t)) a,
  c_string-update n (t + 1) s (m t) m,
  get_or-cons (m t) (c_string n (t + 1) m) (a - s),
)

safestrcpy_from-frame :
    (s t n : ℕ) (m : Mem) (a : ℕ) → (a < s) ⊎ (s + n < a) → safestrcpy_from s t n m a ≡ m a
unfolding safestrcpy_from
safestrcpy_from-frame s t zero m a h = ground arith
safestrcpy_from-frame s t (suc n) m a h =
    ground (arith, safestrcpy_from-frame (s + 1) (t + 1) n (update m s (m t)) a)

safestrcpy_from-c_string :
    (s t n : ℕ) (m : Mem)
    → Apart s t (suc n)
    → c_string (suc n) s (safestrcpy_from s t n m) ≡ c_string n t m
unfolding safestrcpy_from c_string
safestrcpy_from-c_string s t zero m h = ground arith
safestrcpy_from-c_string s t (suc n) m h = ground (
  arith,
  safestrcpy_from-frame (s + 1) (t + 1) n (update m s (m t)) s,
  safestrcpy_from-c_string (s + 1) (t + 1) n (update m s (m t)),
  c_string-update n (t + 1) s (m t) m,
)

safestrcpy_from-nul :
    (s t n : ℕ) (m : Mem)
    → Apart s t (suc n)
    → safestrcpy_from s t n m (s + length (c_string n t m)) ≡ 0
unfolding safestrcpy_from c_string
safestrcpy_from-nul s t zero m h = ground arith
safestrcpy_from-nul s t (suc n) m h = elim (Bool-cases (m t == 0)) [
  | inl end ↦ ground arith
  | inr more ↦
      let m' = update m s (m t) in
      let same : c_string n (t + 1) m' ≡ c_string n (t + 1) m =
        c_string-update n (t + 1) s (m t) m (ground arith) in
      let ih = safestrcpy_from-nul (s + 1) (t + 1) n m' (ground arith) in
      let place : s + suc (length (c_string n (t + 1) m)) ≡ s + 1 + length (c_string n (t + 1) m) =
        omega arith in
      rw (more, safestrcpy_from, c_string, place) (rw same at ih)
]

-- With room for at least one byte, and source and destination apart, safestrcpy leaves in the
-- destination the source string cut to one byte less than the room, followed by a NUL; memory outside
-- the room is unchanged.
pub safestrcpy_lem :
    (s t n : ℕ) (m : Mem)
    → 0 < n
    → Apart s t n
    → (c_string n s (safestrcpy s t n m) ≡ c_string (n - 1) t m)
      × (safestrcpy s t n m (s + length (c_string (n - 1) t m)) ≡ 0)
      × ((a : ℕ) → (a < s) ⊎ (s + n ≤ a) → safestrcpy s t n m a ≡ m a)
unfolding safestrcpy
safestrcpy_lem s t zero m h apart = elim h [ ]
safestrcpy_lem s t (suc n) m h apart =
    let less : suc n - 1 ≡ n = omega arith in
    rw less (
      safestrcpy_from-c_string s t n m apart,
      safestrcpy_from-nul s t n m apart,
      λ a out. safestrcpy_from-frame s t n m a (ground arith),
    )
