-- ===== src/Strings/Move.antt =====
-- memset and the two memmoves: what memory holds afterwards.
use operating_systems_lab.Prelude.{
  ℕ, zero, suc, ◌+◌, ◌-◌, ◌%◌, ◌≤◌, ◌≡◌, ◌⊎◌, ◌&&◌, arith, ltb, leb, if◌then◌else◌, update,
}
use operating_systems_lab.Strings.{
  Mem, memset, memset_from, copy_up, copy_down, memmove, ulib_memmove,
}

-- Memory after `n` bytes were copied at once, as if through a buffer.
abbrev pub copied : ℕ → ℕ → ℕ → Mem → Mem
copied dst src n m a = if leb dst a && ltb a (dst + n) then m (src + (a - dst)) else m a

pub copy_up_lem :
    (d s n : ℕ) (m : Mem) (a : ℕ) → (d ≤ s) ⊎ (s + n ≤ d) → copy_up d s n m a ≡ copied d s n m a
unfolding copy_up
copy_up_lem d s zero m a h = ground arith
copy_up_lem d s (suc n) m a h = ground (arith, copy_up_lem (d + 1) (s + 1) n (update m d (m s)) a)

sub_shift : (d n : ℕ) → d + suc n - 1 ≡ d + n
sub_shift d n = omega arith

pub copy_down_lem :
    (d s n : ℕ) (m : Mem) (a : ℕ)
    → (s ≤ d) ⊎ (d + n ≤ s)
    → copy_down (d + n) (s + n) n m a ≡ copied d s n m a
unfolding copy_down
copy_down_lem d s zero m a h = ground arith
copy_down_lem d s (suc n) m a h =
    ground
      (arith, copy_down_lem d s n (update m (d + n) (m (s + n))) a, sub_shift d n, sub_shift s n)

-- memmove of the kernel copies as if through a buffer, however source and destination overlap.
pub memmove_lem : (dst src n : ℕ) (m : Mem) (a : ℕ) → memmove dst src n m a ≡ copied dst src n m a
unfolding memmove
memmove_lem dst src n m a = ground (arith, copy_up_lem dst src n m a, copy_down_lem dst src n m a)

-- The user library's memmove does the same, though it chooses the direction by another test.
pub ulib_memmove_lem :
    (dst src n : ℕ) (m : Mem) (a : ℕ) → ulib_memmove dst src n m a ≡ copied dst src n m a
unfolding ulib_memmove
ulib_memmove_lem dst src n m a =
    ground (arith, copy_up_lem dst src n m a, copy_down_lem dst src n m a)

memset_from_lem :
    (dst c n : ℕ) (m : Mem) (a : ℕ)
    → memset_from dst c n m a ≡ (if leb dst a && ltb a (dst + n) then c % 256 else m a)
unfolding memset_from
memset_from_lem dst c zero m a = ground arith
memset_from_lem dst c (suc n) m a =
    ground (arith, memset_from_lem (dst + 1) c n (update m dst (c % 256)) a)

-- memset stores the low byte of `c` at each of the `n` addresses and changes nothing else.
pub memset_lem :
    (dst c n : ℕ) (m : Mem) (a : ℕ)
    → memset dst c n m a ≡ (if leb dst a && ltb a (dst + n) then c % 256 else m a)
unfolding memset
memset_lem dst c n m a = memset_from_lem dst c n m a
