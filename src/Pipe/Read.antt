-- ===== src/Pipe/Read.antt =====
-- piperead: which bytes a run takes out of the pipe and where it puts them.
use operating_systems_lab.Prelude.{
  ℕ, zero, suc, ◌+◌, ◌<◌, ◌≡◌, refl, ap, ◌∙◌, ◌⊎◌, inl, inr, Bool, true, false, List, [], ◌∷◌, ◌++◌,
  arith, ◌==◌, ==_iff, Bool-cases, length, minus_one, pos, update,
}
use operating_systems_lab.UserMemory.{User, user_addr}
use operating_systems_lab.Pipe.{
  Pipe, Status, returned, asleep, nwrite_chan, get_byte, read_from, piperead, wake,
}
use operating_systems_lab.Pipe.Window.{
  window, IsValid, more_lem, contents, count, empty_iff, get_byte-IsValid, contents-get_byte,
  length-window,
}

-- The user memory after the bytes were stored from addr + i on.
abbrev pub stored : User → ℕ → ℕ → List ℕ → User
stored u addr i [] = u
stored u addr i (x ∷ xs) =
    stored (record u { byte = update u.byte (user_addr addr i) x }) addr (i + 1) xs

count-nil : (p : Pipe) → count p ≡ 0 → contents p ≡ []
count-nil p e = ap (window p.bytes p.nread) e

-- Why the loop stopped with the result `n`, having taken `lost` out of the pipe without storing it.
pub data Stops (u : User) (addr rest n delivered : ℕ) (lost : List ℕ) (q : Pipe) : Type 0 where
  asked : delivered ≡ rest → lost ≡ [] → Stops u addr rest n delivered lost q
  emptied : contents q ≡ [] → lost ≡ [] → Stops u addr rest n delivered lost q
  faulted :
      u.mapped (user_addr addr n) ≡ false → length lost ≡ 1 → Stops u addr rest n delivered lost q

-- What the loop does from byte `i` on: it takes `delivered` and `lost` off the front of the pipe.
pub record Took (addr rest i : ℕ) (u : User) (p : Pipe) (out : ℕ × User × Pipe) : Type 0 where
  pub delivered : List ℕ
  pub lost : List ℕ
  pub valid : IsValid out.2
  pub fifo : contents p ≡ delivered ++ lost ++ contents out.2
  pub user : out.1 ≡ stored u addr i delivered
  pub result : out.0 ≡ i + length delivered
  pub stops : Stops u addr rest out.0 (length delivered) lost out.2

module _ (addr : ℕ) where
  Took-get :
      (rest i : ℕ) (u : User) (p : Pipe) (out : ℕ × User × Pipe)
      → IsValid p
      → 0 < count p
      → Took addr rest
          (i + 1)
          (record u { byte = update u.byte (user_addr addr i) (get_byte p).0 })
          (get_byte p).1
          out
      → Took addr (suc rest) i u p out
  Took-get rest i u p out v lt t = record {
    delivered = (get_byte p).0 ∷ t.delivered;
    lost = t.lost;
    valid = t.valid;
    fifo = contents-get_byte p v lt ∙ ap (λ (c : List ℕ). (get_byte p).0 ∷ c) t.fifo;
    user = t.user;
    result = omega (arith, t.result);
    stops = shift t.stops;
  }
    where
      u' : User
      u' = record u { byte = update u.byte (user_addr addr i) (get_byte p).0 }

      shift :
          Stops u' addr rest out.0 (length t.delivered) t.lost out.2
          → Stops u addr (suc rest) out.0 (suc (length t.delivered)) t.lost out.2
      shift (asked a b) = asked (ap suc a) b
      shift (emptied a b) = emptied a b
      shift (faulted a b) = faulted a b

  read_from-Took :
      (rest i : ℕ) (u : User) (p : Pipe)
      → IsValid p
      → Took addr rest i u p (read_from addr rest i u p)
  unfolding read_from
  read_from-Took zero i u p v = record {
    delivered = [];
    lost = [];
    valid = v;
    fifo = refl;
    user = refl;
    result = omega arith;
    stops = asked refl refl;
  }
  read_from-Took (suc rest) i u p v = elim (Bool-cases (p.nread == p.nwrite)) [
    | inl done ↦
        rw (done, read_from)
          (record {
            delivered = [];
            lost = [];
            valid = v;
            fifo = refl;
            user = refl;
            result = omega arith;
            stops = emptied (count-nil p ((empty_iff p v).0 ((==_iff _ _).0 done))) refl;
          })
    | inr more ↦ elim (Bool-cases (u.mapped (user_addr addr i))) [
      | inl there ↦
          rw (more, there, read_from)
            (Took-get rest i u p _ v (more_lem p v more) (
              read_from-Took rest (i + 1) _ (get_byte p).1
                (get_byte-IsValid p v (more_lem p v more))))
      | inr gone ↦
          rw (more, gone, read_from)
            (record {
              delivered = [];
              lost = (get_byte p).0 ∷ [];
              valid = get_byte-IsValid p v (more_lem p v more);
              fifo = contents-get_byte p v (more_lem p v more);
              user = refl;
              result = omega arith;
              stops = faulted gone refl;
            })
    ]
  ]

-- How a run of piperead ends.
pub data Reads (killed : Bool) (addr n : ℕ) (u : User) (p : Pipe) (out : Status × User × Pipe)
    : Type 0 where
  quits :
      contents p ≡ []
      → p.writeopen ≡ true
      → killed ≡ true
      → out ≡ (returned minus_one, u, p)
      → Reads killed addr n u p out
  waits :
      contents p ≡ []
      → p.writeopen ≡ true
      → killed ≡ false
      → out ≡ (asleep 0, u, p)
      → Reads killed addr n u p out
  reads :
      (r : ℕ × User × Pipe)
      → (0 < length (contents p)) ⊎ (p.writeopen ≡ false)
      → Took addr n 0 u p r
      → out ≡ (returned (pos r.0), r.1, wake nwrite_chan r.2)
      → Reads killed addr n u p out

-- A run of piperead on a valid pipe sleeps only on an empty pipe with an open write end, where it
-- returns -1 if the caller is killed. Otherwise it takes bytes off the front of the pipe, stores them
-- in order at `addr` on, returns their number and wakes the writers; it stops after `n` bytes, at the
-- empty pipe, or at an address that is not mapped, where exactly one byte is lost. The pipe stays valid.
pub piperead_lem :
    (killed : Bool) (addr n : ℕ) (u : User) (p : Pipe)
    → IsValid p
    → Reads killed addr n u p (piperead addr killed n u p)
unfolding piperead
piperead_lem killed addr n u p v = elim (Bool-cases (p.nread == p.nwrite)) [
  | inr more ↦
      rw (more, piperead)
        (reads (read_from addr n 0 u p)
          (inl (omega (arith, length-window p.bytes p.nread (count p), more_lem p v more)))
          (read_from-Took addr n 0 u p v) refl)
  | inl done ↦
      let nothing = count-nil p ((empty_iff p v).0 ((==_iff _ _).0 done)) in
      elim (Bool-cases p.writeopen) [
        | inr closed ↦
            reads (read_from addr n 0 u p) (inr closed) (read_from-Took addr n 0 u p v)
              (ground arith)
        | inl still ↦ elim (Bool-cases killed) [
          | inl dead ↦ quits nothing still dead (ground arith)
          | inr alive ↦ waits nothing still alive (ground arith)
        ]
      ]
]
