-- ===== src/Pipe/Write.antt =====
-- pipewrite: which bytes a run puts into the pipe, and how it ends.
use operating_systems_lab.Prelude.{
  ℕ, zero, suc, ◌+◌, ◌%◌, ◌≤◌, ◌<◌, ◌≡◌, ◌⊎◌, Bool, true, false, not, ◌||◌, List, [], ◌∷◌, ◌++◌,
  length, minus_one, pos,
}
use operating_systems_lab.UserMemory.{User, user_addr}
use operating_systems_lab.Pipe.{Pipe, Status, returned, asleep, nread_chan, pipesize}
use operating_systems_lab.Pipe.Window.{IsValid, contents}

-- The `k` bytes of user memory from addr + i on.
abbrev pub user_bytes : User → ℕ → ℕ → ℕ → List ℕ
user_bytes u addr i zero = []
user_bytes u addr i (suc k) = u.byte (user_addr addr i) % 256 ∷ user_bytes u addr (i + 1) k

-- How a run that has put in `k` of its `rest` bytes, and stands at byte `j`, may end.
pub data Ends (u : User) (killed : ℕ → Bool) (addr rest k j : ℕ) (q : Pipe) (st : Status)
    : Type 0 where
  finished : k ≡ rest → st ≡ returned (pos j) → Ends u killed addr rest k j q st
  unmapped :
      k < rest
      → u.mapped (user_addr addr j) ≡ false
      → st ≡ returned (pos j)
      → Ends u killed addr rest k j q st
  stopped :
      k < rest
      → (not q.readopen || killed j) ≡ true
      → st ≡ returned minus_one
      → Ends u killed addr rest k j q st
  blocked :
      k < rest
      → (not q.readopen || killed j) ≡ false
      → length (contents q) ≡ pipesize
      → st ≡ asleep j
      → Ends u killed addr rest k j q st

-- What a run does to the pipe: `k` bytes more, taken from user memory in order.
pub record Wrote (u : User) (killed : ℕ → Bool) (addr rest i : ℕ) (p : Pipe) (out : Status × Pipe)
    : Type 0 where
  pub k : ℕ
  pub j : ℕ
  pub j_eq : j ≡ i + k
  pub le_rest : k ≤ rest
  pub valid : IsValid out.1
  pub appended : contents out.1 ≡ contents p ++ user_bytes u addr i k
  pub ends : Ends u killed addr rest k j out.1 out.0
  pub woken : (out.0 ≡ returned minus_one) ⊎ (out.1.wakeups ≡ nread_chan ∷ p.wakeups)
