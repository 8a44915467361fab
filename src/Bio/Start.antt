-- ===== src/Bio/Start.antt =====
-- The list that binit of kernel/bio.c builds.
use operating_systems_lab.Prelude.{
  ℕ, zero, suc, ◌+◌, ◌≤◌, ◌<◌, ◌≡◌, refl, ap, inl, inr, List, [], ◌∷◌, ◌++◌, arith, ◌==◌, ==_iff,
  Bool-cases, length, update, update_self,
}
use operating_systems_lab.Bio.{nbuf, head, Bcache, insert_front, binit_from, binit}
use operating_systems_lab.Bio.Ring.{Links, Fresh, Buffers, In, Ring, insert_front-Links}

-- The buffers below n, the highest first.
abbrev pub below : ℕ → List ℕ
below zero = []
below (suc n) = n ∷ below n

below-Fresh : (n b : ℕ) → n ≤ b → Fresh b (below n)
below-Fresh zero b h = tt
below-Fresh (suc n) b h = (omega arith, below-Fresh n b (omega arith))

below-Buffers : (n : ℕ) → n ≤ nbuf → Buffers (below n)
below-Buffers zero h = tt
below-Buffers (suc n) h =
    (omega arith, below-Fresh n n (omega arith), below-Buffers n (omega arith))

below-In : (n b : ℕ) → b < n → In b (below n)
below-In zero b h = absurd (omega arith)
below-In (suc n) b h = elim (Bool-cases (b == n)) [
  | inl e ↦ inl ((==_iff b n).0 e)
  | inr ne ↦ inr (below-In n b (ground arith))
]

length-below : (n : ℕ) → length (below n) ≡ n
length-below zero = refl
length-below (suc n) = ap suc (length-below n)

pub split_length :
    (ys : List ℕ) (b : ℕ) (zs : List ℕ) → length (ys ++ (b ∷ zs)) ≡ length (ys ++ zs) + 1
split_length [] b zs = omega arith
split_length (y ∷ ys) b zs = omega (arith, split_length ys b zs)

binit_from-Links :
    (rounds b : ℕ) (c : Bcache)
    → b + rounds ≡ nbuf
    → Links c.next c.prev head (below b) head
    → Links (binit_from rounds b c).next (binit_from rounds b c).prev head (below (b + rounds)) head
unfolding binit_from
binit_from-Links zero b c e h = let z : b + 0 ≡ b = omega arith in rw z h
binit_from-Links (suc rounds) b c e h =
    let next : b + suc rounds ≡ b + 1 + rounds = omega arith in
    let one : b + 1 ≡ suc b = omega arith in
    rw next (
      binit_from-Links rounds (b + 1) (insert_front b c) (omega arith) (
        rw one (
          insert_front-Links b (below b) c (omega arith) (below-Fresh b b (omega arith))
            (below-Buffers b (omega arith)) h)))

-- binit links all buffers into the list, the last one first.
pub binit-Ring : (c : Bcache) → Ring (binit c) (below nbuf)
unfolding binit
binit-Ring c = record {
  links =
      binit_from-Links nbuf 0
        (record c { prev = update c.prev head head; next = update c.next head head }) (omega arith)
        (update_self c.next head head, update_self c.prev head head);
  buffers = below-Buffers nbuf (omega arith);
  count = length-below nbuf;
  complete = λ b h. below-In nbuf b h;
}
