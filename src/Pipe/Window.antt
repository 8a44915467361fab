-- ===== src/Pipe/Window.antt =====
-- The bytes in a pipe, oldest first, and the representation invariant of `struct pipe`. The two
-- counters run over at 2 ^ 32; since that is a multiple of PIPESIZE, the index does not jump there.
use operating_systems_lab.Prelude.{
  ℕ, zero, suc, ◌+◌, ◌-◌, ◌%◌, ◌^◌, ◌≤◌, ◌<◌, ◌≡◌, refl, ap, ap₂, ◌∙◌, ◌≢◌, ◌↔◌, false, List, [],
  ◌∷◌, ◌++◌, arith, ◌==◌, length, set, length-set, get_or,
}
use operating_systems_lab.Pipe.{Pipe, pipesize, add32, put_byte, get_byte}

-- The `n` bytes from counter `h` on.
abbrev pub window : List ℕ → ℕ → ℕ → List ℕ
window d h zero = []
window d h (suc n) = get_or d (h % pipesize) 0 ∷ window d (add32 h 1) n

abbrev pub count : Pipe → ℕ
count p = (p.nwrite + 2 ^ 32 - p.nread) % 2 ^ 32

abbrev pub contents : Pipe → List ℕ
contents p = window p.bytes p.nread (count p)

pub record IsValid (p : Pipe) : Type 0 where
  pub storage : length p.bytes ≡ pipesize
  pub nread_in : p.nread < 2 ^ 32
  pub nwrite_in : p.nwrite < 2 ^ 32
  pub bounded : count p ≤ pipesize

pub length-window : (d : List ℕ) (h n : ℕ) → length (window d h n) ≡ n
length-window d h zero = refl
length-window d h (suc n) = ap suc (length-window d (add32 h 1) n)

get_or-set_self : (xs : List ℕ) (i v : ℕ) → i < length xs → get_or (set xs i v) i 0 ≡ v
get_or-set_self [] i v h = elim h [ ]
get_or-set_self (x ∷ xs) zero v h = refl
get_or-set_self (x ∷ xs) (suc i) v h = get_or-set_self xs i v (omega arith)

get_or-set_ne : (xs : List ℕ) (i j v : ℕ) → i ≢ j → get_or (set xs i v) j 0 ≡ get_or xs j 0
get_or-set_ne [] i j v h = refl
get_or-set_ne (x ∷ xs) zero zero v h = absurd (h refl)
get_or-set_ne (x ∷ xs) zero (suc j) v h = refl
get_or-set_ne (x ∷ xs) (suc i) zero v h = refl
get_or-set_ne (x ∷ xs) (suc i) (suc j) v h = get_or-set_ne xs i j v (λ e. h (ap suc e))

-- Writing just past a window that is not full extends it by that byte.
window-set :
    (d : List ℕ) (x n h w : ℕ)
    → length d ≡ pipesize
    → n < pipesize
    → h < 2 ^ 32
    → w ≡ add32 h n
    → window (set d (w % pipesize) x) h (suc n) ≡ window d h n ++ x ∷ []
window-set d x zero h w s lt hh e =
    let same : h ≡ w = omega arith in
    rw same (ap (λ v. v ∷ []) (get_or-set_self d (w % pipesize) x (omega arith)))
window-set d x (suc n) h w s lt hh e =
    ap₂ ◌∷◌ (get_or-set_ne d (w % pipesize) (h % pipesize) x (omega arith))
      (window-set d x n (add32 h 1) w s (omega arith) (omega arith) (omega arith))

-- What `pi->nwrite == pi->nread + PIPESIZE` tells: the pipe is full, or has room.
pub full_iff : (p : Pipe) → IsValid p → (p.nwrite ≡ add32 p.nread pipesize) ↔ (count p ≡ pipesize)
full_iff p v = (λ e. omega arith, λ e. omega arith)

pub empty_iff : (p : Pipe) → IsValid p → (p.nread ≡ p.nwrite) ↔ (count p ≡ 0)
empty_iff p v = (λ e. omega arith, λ e. omega arith)

pub put_byte-IsValid : (p : Pipe) (x : ℕ) → IsValid p → count p < pipesize → IsValid (put_byte p x)
unfolding put_byte
put_byte-IsValid p x v lt = record {
  storage = length-set p.bytes (p.nwrite % pipesize) x ∙ v.storage;
  nread_in = v.nread_in;
  nwrite_in = omega arith;
  bounded = omega (arith, v.nread_in, v.nwrite_in);
}

pub contents-put_byte :
    (p : Pipe) (x : ℕ)
    → IsValid p
    → count p < pipesize
    → contents (put_byte p x) ≡ contents p ++ x ∷ []
unfolding put_byte
contents-put_byte p x v lt =
    let grown : (add32 p.nwrite 1 + 2 ^ 32 - p.nread) % 2 ^ 32 ≡ suc (count p) =
      omega (arith, v.nread_in, v.nwrite_in) in
    rw grown (
      window-set p.bytes x (count p) p.nread p.nwrite v.storage lt v.nread_in
        (omega (arith, v.nread_in, v.nwrite_in)))

pub get_byte-IsValid : (p : Pipe) → IsValid p → 0 < count p → IsValid (get_byte p).1
unfolding get_byte
get_byte-IsValid p v lt = record {
  storage = v.storage;
  nread_in = omega arith;
  nwrite_in = v.nwrite_in;
  bounded = omega (arith, v.nread_in, v.nwrite_in, v.bounded);
}

window_pos :
    (d : List ℕ) (h n m : ℕ)
    → n ≡ suc m
    → window d h n ≡ get_or d (h % pipesize) 0 ∷ window d (add32 h 1) m
window_pos d h n m e = rw e

pub contents-get_byte :
    (p : Pipe) → IsValid p → 0 < count p → contents p ≡ (get_byte p).0 ∷ contents (get_byte p).1
unfolding get_byte
contents-get_byte p v lt =
    window_pos p.bytes p.nread (count p) ((p.nwrite + 2 ^ 32 - add32 p.nread 1) % 2 ^ 32)
      (omega (arith, v.nread_in, v.nwrite_in))

pub room_lem :
    (p : Pipe) → IsValid p → (p.nwrite == add32 p.nread pipesize) ≡ false → count p < pipesize
room_lem p v h =
    let ne : p.nwrite ≢ add32 p.nread pipesize = ground arith in
    omega (arith, v.bounded, v.nread_in, v.nwrite_in, ne)

pub more_lem : (p : Pipe) → IsValid p → (p.nread == p.nwrite) ≡ false → 0 < count p
more_lem p v h =
    let ne : p.nread ≢ p.nwrite = ground arith in omega (arith, v.nread_in, v.nwrite_in, ne)
