-- ===== src/Proc/Links.antt =====
-- The parent pointers of kernel/proc.c: a parent is always a process that is in use and no zombie.
use operating_systems_lab.Prelude.{
  ℕ, zero, suc, ◌+◌, ◌≤◌, ◌<◌, ◌≡◌, refl, sym, ap, subst, ◌∙◌, ◌≢◌, ◌⊎◌, inl, inr, Bool, true,
  false, Option, none, some, arith, ◌==◌, if◌then◌else◌, Bool-cases, update, update_self, update_ne,
}
use operating_systems_lab.Proc.{Procstate, unused, zombie, Channel, proc_chan, Proc, nproc}
use operating_systems_lab.Proc.Sched.{wakeup}
use operating_systems_lab.Proc.Wakeup.{wakeup-parent, wakeup-Woken, Woken, same, awake}
use operating_systems_lab.Proc.Lifecycle.{is_child, reparent_from, reparent}

unfoldable pub is_live : Procstate → Bool
is_live unused = false
is_live zombie = false
is_live _ = true

-- Every parent pointer of the table leads to a live entry, and so does `initproc`.
pub record Linked (init : ℕ) (t : ℕ → Proc) : Type 0 where
  pub init_in : init < nproc
  pub init_live : is_live (t init).state ≡ true
  pub parents :
      (i j : ℕ) → i < nproc → (t i).parent ≡ some j → (j < nproc) × (is_live (t j).state ≡ true)

Woken-live : {s s' : Procstate} → Woken s s' → is_live s' ≡ is_live s
unfolding is_live
Woken-live (same s) = refl
Woken-live awake = refl

pub wakeup-live :
    (cur : ℕ) (c : Channel) (t : ℕ → Proc) (j : ℕ)
    → is_live (wakeup cur c t j).state ≡ is_live (t j).state
wakeup-live cur c t j = Woken-live (wakeup-Woken cur c t j)

-- Where parents and liveness are as before, the links hold as before.
pub Linked-same :
    (init : ℕ) (t t' : ℕ → Proc)
    → ((i : ℕ) → (t' i).parent ≡ (t i).parent)
    → ((i : ℕ) → is_live (t' i).state ≡ is_live (t i).state)
    → Linked init t
    → Linked init t'
Linked-same init t t' p l v = record {
  init_in = v.init_in;
  init_live = l init ∙ v.init_live;
  parents = λ i j lt e. let h = v.parents i j lt (sym (p i) ∙ e) in (h.0, l j ∙ h.1);
}

pub wakeup-Linked :
    (init cur : ℕ) (c : Channel) (t : ℕ → Proc) → Linked init t → Linked init (wakeup cur c t)
wakeup-Linked init cur c t =
    Linked-same init t (wakeup cur c t) (wakeup-parent cur c t) (wakeup-live cur c t)

-- What reparent does to one entry.
pub record Reparented (lo hi cur init : ℕ) (t t' : ℕ → Proc) : Type 0 where
  pub moved : (j : ℕ) → lo ≤ j → j < hi → is_child cur (t j) ≡ true → (t' j).parent ≡ some init
  pub kept_out : (j : ℕ) → (j < lo) ⊎ (hi ≤ j) → (t' j).parent ≡ (t j).parent
  pub kept_in : (j : ℕ) → is_child cur (t j) ≡ false → (t' j).parent ≡ (t j).parent
  pub live : (j : ℕ) → is_live (t' j).state ≡ is_live (t j).state

module _ (cur init : ℕ) where
  -- A child handed to init, and init woken.
  abbrev adopted : ℕ → (ℕ → Proc) → ℕ → Proc
  adopted i t = update t i (record (t i) { parent = some init })

  abbrev given : ℕ → (ℕ → Proc) → ℕ → Proc
  given i t = wakeup cur (proc_chan init) (adopted i t)

  -- One round of reparent.
  abbrev one : ℕ → (ℕ → Proc) → ℕ → Proc
  one i t = if is_child cur (t i) then given i t else t

  adopted-live :
      (i : ℕ) (t : ℕ → Proc) (j : ℕ) → is_live (adopted i t j).state ≡ is_live (t j).state
  adopted-live i t j = elim (Bool-cases (i == j)) [
    | inl hit ↦
        let e : i ≡ j = ground arith in
        ap (λ (p : Proc). is_live p.state) (ap (adopted i t) (sym e) ∙ update_self t i _)
        ∙ ap (λ (k : ℕ). is_live (t k).state) e
    | inr miss ↦ ap (λ (p : Proc). is_live p.state) (update_ne t i _ j (ground arith))
  ]

  given-live : (i : ℕ) (t : ℕ → Proc) (j : ℕ) → is_live (given i t j).state ≡ is_live (t j).state
  given-live i t j = wakeup-live cur (proc_chan init) (adopted i t) j ∙ adopted-live i t j

  given-hit : (i : ℕ) (t : ℕ → Proc) → (given i t i).parent ≡ some init
  given-hit i t =
      wakeup-parent cur (proc_chan init) (adopted i t) i
      ∙ ap (λ (p : Proc). p.parent) (update_self t i _)

  given-other : (i : ℕ) (t : ℕ → Proc) (j : ℕ) → i ≢ j → (given i t j).parent ≡ (t j).parent
  given-other i t j ne =
      wakeup-parent cur (proc_chan init) (adopted i t) j
      ∙ ap (λ (p : Proc). p.parent) (update_ne t i _ j ne)

  one-hit : (i : ℕ) (t : ℕ → Proc) → is_child cur (t i) ≡ true → one i t ≡ given i t
  one-hit i t e = ap (λ (b : Bool). if b then given i t else t) e

  one-miss : (i : ℕ) (t : ℕ → Proc) → is_child cur (t i) ≡ false → one i t ≡ t
  one-miss i t e = ap (λ (b : Bool). if b then given i t else t) e

  one-Reparented : (i : ℕ) (t : ℕ → Proc) → Reparented i (i + 1) cur init t (one i t)
  one-Reparented i t = elim (Bool-cases (is_child cur (t i))) [
    | inl hit ↦
        subst (λ (t' : ℕ → Proc). Reparented i (i + 1) cur init t t') (sym (one-hit i t hit))
          (record {
            moved = λ j lo hi c.
                let e : i ≡ j = omega arith in
                ap (λ (k : ℕ). (given i t k).parent) (sym e) ∙ given-hit i t;
            kept_out = λ j o. given-other i t j (outside j o);
            kept_in = λ j c. given-other i t j (apart j hit c);
            live = given-live i t;
          })
    | inr miss ↦
        subst (λ (t' : ℕ → Proc). Reparented i (i + 1) cur init t t') (sym (one-miss i t miss))
          (record {
            moved = λ j lo hi c.
                let e : i ≡ j = omega arith in
                absurd (true_false (sym c ∙ ap (λ (k : ℕ). is_child cur (t k)) (sym e) ∙ miss));
            kept_out = λ j o. refl;
            kept_in = λ j c. refl;
            live = λ j. refl;
          })
  ]
    where
      true_false : true ≡ false → ⊥
      true_false e = cc

      apart : (j : ℕ) → is_child cur (t i) ≡ true → is_child cur (t j) ≡ false → i ≢ j
      apart j hit c e = true_false (sym hit ∙ ap (λ (k : ℕ). is_child cur (t k)) e ∙ c)

      outside : (j : ℕ) → (j < i) ⊎ (i + 1 ≤ j) → i ≢ j
      outside j o = omega arith

  -- A round leaves what later rounds look at.
  pub is_child-parent : (p q : Proc) → p.parent ≡ q.parent → is_child cur p ≡ is_child cur q
  is_child-parent p q e = ap (λ (o : Option ℕ). elim o [ none ↦ false | some j ↦ j == cur ]) e

  reparent_from-Reparented :
      (rounds i : ℕ) (t : ℕ → Proc)
      → Reparented i (i + rounds) cur init t (reparent_from rounds i cur init t)
  unfolding reparent_from
  reparent_from-Reparented zero i t = record {
    moved = λ j lo hi c. absurd (omega arith);
    kept_out = λ j o. refl;
    kept_in = λ j c. refl;
    live = λ j. refl;
  }
  reparent_from-Reparented (suc rounds) i t =
      let r = one-Reparented i t in
      let rs = reparent_from-Reparented rounds (i + 1) (one i t) in
      record {
        moved = λ j lo hi c. elim (Bool-cases (j == i)) [
          | inl here ↦ rs.kept_out j (inl (ground arith)) ∙ r.moved j lo (ground arith) c
          | inr later ↦
              rs.moved j (ground arith) (omega arith)
                (is_child-parent (one i t j) (t j) (r.kept_out j (inr (ground arith))) ∙ c)
        ];
        kept_out = λ j o. rs.kept_out j (omega arith) ∙ r.kept_out j (omega arith);
        kept_in = λ j c.
            rs.kept_in j (is_child-parent (one i t j) (t j) (r.kept_in j c) ∙ c) ∙ r.kept_in j c;
        live = λ j. rs.live j ∙ r.live j;
      }

  pub reparent-Reparented :
      (t : ℕ → Proc) → Reparented 0 (0 + nproc) cur init t (reparent cur init t)
  unfolding reparent
  reparent-Reparented t = reparent_from-Reparented nproc 0 t
