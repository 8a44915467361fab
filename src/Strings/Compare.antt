-- ===== src/Strings/Compare.antt =====
-- memcmp, strncmp and strlen of kernel/string.c: what their results say.
use operating_systems_lab.Prelude.{
  ℕ, zero, suc, ◌+◌, ◌≤◌, ◌<◌, ◌≡◌, refl, sym, ap, ◌∙◌, ◌≢◌, ◌↔◌, inl, inr, true, false, some, List,
  [], ◌∷◌, arith, ◌==◌, Bool-cases, sub_ℕ, sub_ℕ-eq-zero, sub_ℕ-self, pos,
}
use operating_systems_lab.Strings.{Mem, memcmp, strncmp, strlen, strlen_from}

-- The C string at `p`, cut off after `n` bytes.
unfoldable pub c_string : ℕ → ℕ → Mem → List ℕ
c_string zero p m = []
c_string (suc n) p m = elim (m p == 0) [ true ↦ [] | false ↦ m p ∷ c_string n (p + 1) m ]

abbrev pub SameBytes : ℕ → ℕ → ℕ → Mem → Type 0
SameBytes p q n m = (i : ℕ) → i < n → m (p + i) ≡ m (q + i)

byte_suc : (m : Mem) (p i : ℕ) → m (p + 1 + i) ≡ m (p + suc i)
byte_suc m p i = ap m (omega arith)

byte_zero : (m : Mem) (p : ℕ) → m (p + 0) ≡ m p
byte_zero m p = ap m (omega arith)

SameBytes-head : (p q n : ℕ) (m : Mem) → SameBytes p q (suc n) m → m p ≡ m q
SameBytes-head p q n m h = sym (byte_zero m p) ∙ h 0 (omega arith) ∙ byte_zero m q

SameBytes-tail : (p q n : ℕ) (m : Mem) → SameBytes p q (suc n) m → SameBytes (p + 1) (q + 1) n m
SameBytes-tail p q n m h i lt = byte_suc m p i ∙ h (suc i) (omega arith) ∙ sym (byte_suc m q i)

-- Before the first difference the bytes agree; the result is the difference there.
memcmp_first :
    (p q n k : ℕ) (m : Mem)
    → SameBytes p q k m
    → k < n
    → m (p + k) ≢ m (q + k)
    → memcmp p q n m ≡ sub_ℕ (m (p + k)) (m (q + k))
unfolding memcmp
memcmp_first p q zero k m same lt ne = elim lt [ ]
memcmp_first p q (suc n) zero m same lt ne = ground (arith, byte_zero m p, byte_zero m q)
memcmp_first p q (suc n) (suc k) m same lt ne = ground (
  arith,
  SameBytes-head p q k m same,
  byte_suc m p k,
  byte_suc m q k,
  memcmp_first (p + 1) (q + 1) n k m (SameBytes-tail p q k m same),
)

memcmp-eq-zero : (p q n : ℕ) (m : Mem) → memcmp p q n m ≡ pos 0 → SameBytes p q n m
unfolding memcmp
memcmp-eq-zero p q zero m h i lt = elim lt [ ]
memcmp-eq-zero p q (suc n) m h zero lt =
    ground (arith, byte_zero m p, byte_zero m q, sub_ℕ-eq-zero (m p) (m q))
memcmp-eq-zero p q (suc n) m h (suc i) lt = ground (
  arith,
  byte_suc m p i,
  byte_suc m q i,
  sub_ℕ-eq-zero (m p) (m q),
  λ (e : memcmp (p + 1) (q + 1) n m ≡ pos 0). memcmp-eq-zero (p + 1) (q + 1) n m e i,
)

memcmp_same : (p q n : ℕ) (m : Mem) → SameBytes p q n m → memcmp p q n m ≡ pos 0
unfolding memcmp
memcmp_same p q zero m h = refl
memcmp_same p q (suc n) m h =
    ground
      (arith, SameBytes-head p q n m h, memcmp_same (p + 1) (q + 1) n m (SameBytes-tail p q n m h))

-- memcmp returns 0 exactly when the two regions hold the same bytes, and otherwise the difference of
-- the first two bytes that differ.
pub memcmp_lem :
    (p q n : ℕ) (m : Mem)
    → ((memcmp p q n m ≡ pos 0) ↔ SameBytes p q n m)
      × ((k : ℕ)
          → SameBytes p q k m
          → k < n
          → m (p + k) ≢ m (q + k)
          → memcmp p q n m ≡ sub_ℕ (m (p + k)) (m (q + k)))
memcmp_lem p q n m = (
  (memcmp-eq-zero p q n m, memcmp_same p q n m),
  λ k same lt ne. memcmp_first p q n k m same lt ne,
)

-- strncmp returns 0 exactly when the two C strings agree as far as their first `n` bytes.
pub strncmp_zero_iff :
    (p q n : ℕ) (m : Mem) → (strncmp p q n m ≡ pos 0) ↔ (c_string n p m ≡ c_string n q m)
unfolding strncmp c_string
strncmp_zero_iff p q zero m = (λ _. refl, λ _. refl)
strncmp_zero_iff p q (suc n) m =
    let ih = strncmp_zero_iff (p + 1) (q + 1) n m in
    (
      λ h. ground (arith, ih.0, sub_ℕ-eq-zero (m p) (m q)),
      λ h. ground (arith, ih.1, sub_ℕ-self (m p)),
    )

strlen_from_lem :
    (fuel s n k : ℕ) (m : Mem)
    → ((i : ℕ) → n ≤ i → i < k → m (s + i) ≢ 0)
    → m (s + k) ≡ 0
    → n ≤ k
    → k < n + fuel
    → strlen_from fuel s n m ≡ some k
unfolding strlen_from
strlen_from_lem zero s n k m nz z le lt = absurd (omega arith)
strlen_from_lem (suc fuel) s n k m nz z le lt = elim (Bool-cases (n == k)) [
  | inl here ↦ let e : n ≡ k = ground arith in ground (arith, ap m (ap (λ i. s + i) e))
  | inr later ↦
      ground (arith, nz n, strlen_from_lem fuel s (n + 1) k m (λ i lo hi. nz i (omega arith) hi) z)
]

-- strlen returns the distance to the first NUL, once there is fuel for so many rounds and one more.
pub strlen_lem :
    (fuel s k : ℕ) (m : Mem)
    → ((i : ℕ) → i < k → m (s + i) ≢ 0)
    → m (s + k) ≡ 0
    → k < fuel
    → strlen fuel s m ≡ some k
unfolding strlen
strlen_lem fuel s k m nz z lt =
    strlen_from_lem fuel s 0 k m (λ i lo hi. nz i hi) z (omega arith) (omega arith)
