-- ===== src/Vm/Bytes.antt =====
-- The bytes of physical memory, which the model keeps as 64-bit words at the addresses that 8 divides, and
-- memmove of kernel/string.c on them, as kernel/vm.c calls it.
pub mod Views
use operating_systems_lab.Prelude.{some, ℕ, zero, suc, ◌+◌, ◌*◌, ◌/◌, ◌%◌, update}
use operating_systems_lab.Strings.{memmove}
use operating_systems_lab.Kalloc.{Kmem}
use operating_systems_lab.Vm.{M}

-- The i-th byte of a little-endian word.
unfoldable pub nth_byte : ℕ → ℕ → ℕ
nth_byte zero w = w % 256
nth_byte (suc i) w = nth_byte i (w / 256)

unfoldable pub byte_at : (ℕ → ℕ) → ℕ → ℕ
unfolding nth_byte
byte_at word a = nth_byte (a % 8) (word (a / 8 * 8))

-- The number with these n bytes.
unfoldable pub number_of : ℕ → (ℕ → ℕ) → ℕ → ℕ
number_of zero byte a = 0
number_of (suc n) byte a = byte a + 256 * number_of n byte (a + 1)

unfoldable pub words_of : (ℕ → ℕ) → ℕ → ℕ
unfolding number_of
words_of byte a = number_of 8 byte a

abbrev pub load_byte : ℕ → M ℕ
load_byte a k = some (byte_at k.word a, k)

abbrev pub store_byte : ℕ → ℕ → M (Unit {0})
store_byte a v k = some (tt, record k { word = words_of (update (byte_at k.word) a v) })

-- memmove(dst, src, n).
abbrev pub move_bytes : ℕ → ℕ → ℕ → M (Unit {0})
move_bytes dst src n k =
    some (tt, record k { word = words_of (memmove dst src n (byte_at k.word)) })
