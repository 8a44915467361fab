-- ===== src/Console.antt =====
-- kernel/console.c: the line buffer of the console, which the input interrupt fills and consoleread
-- empties. `sent` is what went to the serial port by uartputc_sync, in order, `wakeups` counts the calls of
-- wakeup(&cons.r), and `dumps`
-- those of procdump; the text that procdump writes is an argument of consoleintr.
pub mod Lines
pub mod Erase
pub mod Input
pub mod Rounds
pub mod Reading
mod Tests
use operating_systems_lab.Prelude.{
  ℕ, zero, suc, ◌+◌, ◌-◌, ◌*◌, ◌/◌, ◌%◌, ◌^◌, ◌≤◌, ◌<◌, min, ◌≡◌, refl, sym, ap, ap₂, subst, ◌∙◌,
  fun_ext, ◌≢◌, ◌↔◌, ◌⊎◌, inl, inr, Bool, true, false, not, ◌&&◌, ◌||◌, Option, none, some, List,
  [], ◌∷◌, ◌++◌, map, append-nil, append_assoc, arith, ltb, leb, ◌==◌, if◌then◌else◌, ltb→lt,
  lt→ltb, leb→le, ==_iff, tests, Bool-cases, Option-cases, from_next, true_ne_false, length,
  get_elem?, set, length-append, length-set, get_elem?-set_self, get_elem?-set_ne, get_or, take,
  drop, replicate, take-append-drop, length-take, length-drop, length-replicate, length-map, ℤ,
  minus_one, sub_ℕ, sub_ℕ-eq-zero, sub_ℕ-self, pos, negsuc, update, update_self, update_ne,
  update_same,
}

abbrev pub input_buf : ℕ
input_buf = 128

abbrev pub backspace : ℕ
backspace = 256

-- C(x), a letter with the control key.
abbrev pub ctrl : ℕ → ℕ
ctrl x = x - 64

abbrev pub newline : ℕ
newline = 10

-- uint arithmetic.
abbrev pub add32 : ℕ → ℕ → ℕ
add32 a b = (a + b) % 2 ^ 32

abbrev pub sub32 : ℕ → ℕ → ℕ
sub32 a b = (a + 2 ^ 32 - b) % 2 ^ 32

-- `cons`.
pub record Cons : Type 0 where
  pub buf : ℕ → ℕ
  pub r : ℕ
  pub w : ℕ
  pub e : ℕ
  pub sent : List ℕ
  pub wakeups : ℕ
  pub dumps : ℕ

unfoldable pub consputc : ℕ → Cons → Cons
consputc c s =
    if c == backspace
    then record s { sent = s.sent ++ 8 ∷ 32 ∷ 8 ∷ [] }
    else record s { sent = s.sent ++ (c % 256) ∷ [] }

-- cons.e--; consputc(BACKSPACE);
unfoldable pub erase : Cons → Cons
unfolding consputc
erase s = consputc backspace (record s { e = sub32 s.e 1 })

-- The loop of C('U'), with the rounds that `cons.e != cons.w` allows.
unfoldable pub kill_line : ℕ → Cons → Cons
unfolding erase
kill_line zero s = s
kill_line (suc rounds) s =
    elim (not (s.e == s.w) && not (s.buf (sub32 s.e 1 % input_buf) == newline)) [
      | true ↦ kill_line rounds (erase s)
      | false ↦ s
    ]

-- c = (c == '\r') ? '\n' : c;
abbrev pub from_return : ℕ → ℕ
from_return c = if c == 13 then newline else c

-- cons.buf[cons.e++ % INPUT_BUF] = c;
abbrev pub store : ℕ → Cons → Cons
store c s = record s { buf = update s.buf (s.e % input_buf) (c % 256); e = add32 s.e 1 }

-- The last branch of the switch, for a character that there is room for.
unfoldable pub accept : ℕ → Cons → Cons
unfolding consputc
accept c s =
    let s' = store c (consputc c s) in
    if c == newline || c == ctrl b'D' || s'.e == add32 s'.r input_buf
    then record s' { w = s'.e; wakeups = s'.wakeups + 1 }
    else s'

-- procdump, whose text goes out by consputc, a character at a time.
unfoldable pub procdump : List ℕ → Cons → Cons
unfolding consputc
procdump [] s = s
procdump (c ∷ cs) s = procdump cs (consputc c s)

-- `text` is what procdump writes of the process table at that time.
unfoldable pub consoleintr : List ℕ → ℕ → Cons → Cons
unfolding kill_line erase accept procdump
consoleintr text c s =
    if c == ctrl b'P'
    then procdump text (record s { dumps = s.dumps + 1 })
    else if c == ctrl b'U'
    then kill_line (sub32 s.e s.w) s
    else if c == ctrl b'H' || c == 127
    then (if not (s.e == s.w) then erase s else s)
    else if not (c == 0) && ltb (sub32 s.e s.r) input_buf
    then accept (from_return c) s
    else s

-- How a run of consoleread ends: with the call's result, or asleep with n bytes still to read.
pub data Status : Type 0 where
  returned : ℤ → Status
  asleep : ℕ → Status

-- `D` is the memory of the caller, and `copyout dst byte d` is either_copyout of one byte; `killed` is what
-- the first test of p->killed sees. A run is from the start, or from where the call slept.
module _ {D : Type 0} (copyout : ℕ → ℕ → D → Option D) (killed : Bool) (target : ℕ) where
  -- The outer loop; its rounds are at most n.
  unfoldable pub read_from : ℕ → ℕ → D → Cons → Status × D × Cons
  read_from zero dst d s = (returned (pos target), d, s)
  read_from (suc n) dst d s = elim (s.r == s.w) [
    | true ↦ (if killed then returned minus_one else asleep (suc n), d, s)
    | false ↦
        let c = s.buf (s.r % input_buf) in
        let s' = record s { r = add32 s.r 1 } in
        elim (c == ctrl b'D') [
          | true ↦ (
            returned (pos (target - suc n)),
            d,
            if ltb (suc n) target then record s' { r = sub32 s'.r 1 } else s',
          )
          | false ↦ elim (copyout dst c d) [
            | none ↦ (returned (pos (target - suc n)), d, s')
            | some d' ↦ elim (c == newline) [
              | true ↦ (returned (pos (target - n)), d', s')
              | false ↦ read_from n (dst + 1) d' s'
            ]
          ]
        ]
  ]

  -- A run with n bytes left to read.
  unfoldable pub consoleread : ℕ → ℕ → D → Cons → Status × D × Cons
  unfolding read_from
  consoleread n dst d s = read_from n dst d s
