-- ===== src/Pipe/Tests.antt =====
-- The theorems on pipes at concrete inputs, and runs of the code.
use operating_systems_lab.Prelude.{
  ℕ, ◌-◌, ◌%◌, ◌^◌, ◌≡◌, refl, true, false, [], ◌∷◌, arith, ltb, replicate, length-replicate, pos,
}
use operating_systems_lab.UserMemory.{User}
use operating_systems_lab.Pipe.{Pipe, returned, pipewrite, piperead}
use operating_systems_lab.Pipe.Window.{IsValid, contents}
use operating_systems_lab.Pipe.Read.{Reads, piperead_lem}

abbrev caller : User
caller = record { mapped = λ a. ltb a 4096; byte = λ a. a % 200 }

abbrev empty_pipe : Pipe
empty_pipe = record {
  bytes = replicate 512 0;
  nread = 2 ^ 32 - 2;
  nwrite = 2 ^ 32 - 2;
  readopen = true;
  writeopen = true;
  wakeups = [];
}

empty_pipe-IsValid : IsValid empty_pipe
empty_pipe-IsValid = record {
  storage = length-replicate {A = ℕ} 512 0;
  nread_in = omega arith;
  nwrite_in = omega arith;
  bounded = omega arith;
}

-- Five bytes across the point where the counter runs over.
wraps : contents (pipewrite caller (λ _. false) 10 5 0 empty_pipe).1 ≡ 10 ∷ 11 ∷ 12 ∷ 13 ∷ 14 ∷ []
unfolding pipewrite
wraps = refl

short_write : (pipewrite caller (λ _. false) 4094 5 0 empty_pipe).0 ≡ returned (pos 2)
unfolding pipewrite
short_write = refl

piperead_lem_example : Reads false 10 5 caller empty_pipe (piperead 10 false 5 caller empty_pipe)
piperead_lem_example = piperead_lem false 10 5 caller empty_pipe empty_pipe-IsValid
