-- ===== src/Strings.antt =====
-- kernel/string.c, and the string functions of user/ulib.c, on memory as bytes by address. Addresses
-- do not wrap; a count is a number of bytes, and where C's count is signed and negative the loop
-- does not run, as for 0.
pub mod Move
pub mod Compare
pub mod Copy
mod Tests
use operating_systems_lab.Prelude.{
  ℕ, zero, suc, ◌+◌, ◌-◌, ◌*◌, ◌/◌, ◌%◌, ◌^◌, ◌≤◌, ◌<◌, min, ◌≡◌, refl, sym, ap, ap₂, subst, ◌∙◌,
  fun_ext, ◌≢◌, ◌↔◌, ◌⊎◌, inl, inr, Bool, true, false, not, ◌&&◌, ◌||◌, Option, none, some, List,
  [], ◌∷◌, ◌++◌, map, append-nil, append_assoc, arith, ltb, leb, ◌==◌, if◌then◌else◌, ltb→lt,
  lt→ltb, leb→le, ==_iff, tests, Bool-cases, Option-cases, length, get_elem?, set, length-append,
  length-set, get_elem?-set_self, get_elem?-set_ne, get_or, take, drop, replicate, take-append-drop,
  length-take, length-drop, length-replicate, length-map, ℤ, minus_one, sub_ℕ, sub_ℕ-eq-zero,
  sub_ℕ-self, pos, negsuc, update, update_self, update_ne, update_same,
}

abbrev pub Mem : Type 0
Mem = ℕ → ℕ

-- memset of kernel/string.c and of user/ulib.c.
pub memset_from : ℕ → ℕ → ℕ → Mem → Mem
memset_from dst c zero m = m
memset_from dst c (suc n) m = memset_from (dst + 1) c n (update m dst (c % 256))

pub memset : ℕ → ℕ → ℕ → Mem → Mem
unfolding memset_from
memset dst c n m = memset_from dst c n m

-- while(n-- > 0) *d++ = *s++;
pub copy_up : ℕ → ℕ → ℕ → Mem → Mem
copy_up d s zero m = m
copy_up d s (suc n) m = copy_up (d + 1) (s + 1) n (update m d (m s))

-- while(n-- > 0) *--d = *--s;
pub copy_down : ℕ → ℕ → ℕ → Mem → Mem
copy_down d s zero m = m
copy_down d s (suc n) m = copy_down (d - 1) (s - 1) n (update m (d - 1) (m (s - 1)))

-- memmove of kernel/string.c.
pub memmove : ℕ → ℕ → ℕ → Mem → Mem
memmove dst src n m =
    if n == 0
    then m
    else if ltb src dst && ltb dst (src + n)
    then copy_down (dst + n) (src + n) n m
    else copy_up dst src n m

pub memcpy : ℕ → ℕ → ℕ → Mem → Mem
unfolding memmove
memcpy dst src n m = memmove dst src n m

-- memmove of user/ulib.c.
pub ulib_memmove : ℕ → ℕ → ℕ → Mem → Mem
ulib_memmove vdst vsrc n m =
    if ltb vdst vsrc then copy_up vdst vsrc n m else copy_down (vdst + n) (vsrc + n) n m

pub memcmp : ℕ → ℕ → ℕ → Mem → ℤ
memcmp s1 s2 zero m = pos 0
memcmp s1 s2 (suc n) m = elim (m s1 == m s2) [
  | true ↦ memcmp (s1 + 1) (s2 + 1) n m
  | false ↦ sub_ℕ (m s1) (m s2)
]

pub strncmp : ℕ → ℕ → ℕ → Mem → ℤ
strncmp p q zero m = pos 0
strncmp p q (suc n) m = elim (not (m p == 0) && (m p == m q)) [
  | true ↦ strncmp (p + 1) (q + 1) n m
  | false ↦ sub_ℕ (m p) (m q)
]

-- while(n-- > 0) *s++ = 0;
pub zero_fill : ℕ → ℕ → Mem → Mem
zero_fill s zero m = m
zero_fill s (suc n) m = zero_fill (s + 1) n (update m s 0)

pub strncpy : ℕ → ℕ → ℕ → Mem → Mem
strncpy s t zero m = m
strncpy s t (suc n) m = elim (m t == 0) [
  | true ↦ zero_fill (s + 1) n (update m s (m t))
  | false ↦ strncpy (s + 1) (t + 1) n (update m s (m t))
]

-- while(--n > 0 && (*s++ = *t++) != 0); *s = 0;   with the rounds that --n > 0 allows
pub safestrcpy_from : ℕ → ℕ → ℕ → Mem → Mem
safestrcpy_from s t zero m = update m s 0
safestrcpy_from s t (suc n) m = elim (m t == 0) [
  | true ↦ update (update m s (m t)) (s + 1) 0
  | false ↦ safestrcpy_from (s + 1) (t + 1) n (update m s (m t))
]

pub safestrcpy : ℕ → ℕ → ℕ → Mem → Mem
unfolding safestrcpy_from
safestrcpy s t zero m = m
safestrcpy s t (suc n) m = safestrcpy_from s t n m

-- for(n = 0; s[n]; n++); `none` means that the rounds ran out.
pub strlen_from : ℕ → ℕ → ℕ → Mem → Option ℕ
strlen_from zero s n m = none
strlen_from (suc fuel) s n m = elim (m (s + n) == 0) [
  | true ↦ some n
  | false ↦ strlen_from fuel s (n + 1) m
]

pub strlen : ℕ → ℕ → Mem → Option ℕ
unfolding strlen_from
strlen fuel s m = strlen_from fuel s 0 m
