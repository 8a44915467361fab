-- ===== src/Console/Tests.antt =====
-- The theorems on the console at concrete inputs, and runs of its code.
use operating_systems_lab.Prelude.{◌≡◌, refl, false, [], ◌∷◌, arith, ltb, ◌==◌, if◌then◌else◌}
use operating_systems_lab.Console.{Cons, consputc, procdump, consoleintr, read_from, consoleread}
use operating_systems_lab.Console.Lines.{window, terminal, IsValid, key}
use operating_systems_lab.Console.Input.{consoleintr_lem}
use operating_systems_lab.Console.Reading.{deliver, Reads, consoleread_lem}
use operating_systems_lab.Console.Rounds.{to_memory}

-- "ab" and a newline are ready, "c" is edited; the indices are about to run over.
abbrev typed : Cons
typed = record {
  buf = λ i. if i == 126 then 97 else if i == 127 then 98 else if i == 0 then 10 else 99;
  r = 4294967294;
  w = 1;
  e = 2;
  sent = 97 ∷ 98 ∷ 10 ∷ 99 ∷ [];
  wakeups = 1;
  dumps = 0;
}

typed-IsValid : IsValid typed
typed-IsValid = record {
  r_in = omega arith;
  w_in = omega arith;
  e_in = omega arith;
  bounded = omega arith;
  edited = (omega arith, tt);
}

-- A return ends the line.
consoleintr_lem_example :
    IsValid (consoleintr [] 13 typed)
    × (terminal (consoleintr [] 13 typed) ≡ key [] 13 (terminal typed))
consoleintr_lem_example = consoleintr_lem [] 13 typed tt (omega arith) typed-IsValid

consoleread_lem_example :
    Reads false 80 80 0
      (λ a. 0)
      typed
      (deliver (ltb 80 80) 80 (terminal typed).ready)
      (consoleread to_memory false 80 80 0 (λ a. 0) typed)
consoleread_lem_example = consoleread_lem false 80 80 0 (λ a. 0) typed (omega arith) typed-IsValid

read_line :
    window (consoleread to_memory false 80 80 7 (λ a. 0) typed).1 6 5 ≡ 0 ∷ 97 ∷ 98 ∷ 10 ∷ 0 ∷ []
unfolding consoleread read_from
read_line = refl

-- ^P prints the process list.
listed : (consoleintr (49 ∷ 10 ∷ []) 16 typed).sent ≡ 97 ∷ 98 ∷ 10 ∷ 99 ∷ 49 ∷ 10 ∷ []
unfolding consoleintr procdump consputc
listed = refl
