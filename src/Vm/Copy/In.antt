-- ===== src/Vm/Copy/In.antt =====
-- copyin of kernel/vm.c against a copy that translates every byte's address by itself.
use operating_systems_lab.Prelude.{
  ℕ, zero, suc, ◌+◌, ◌-◌, ◌*◌, ◌/◌, ◌^◌, ◌≤◌, ◌<◌, ◌≡◌, refl, sym, ap, subst, ◌∙◌, ◌≢◌, ◌⊎◌, inl,
  inr, Bool, true, false, ◌&&◌, Option, some, List, arith, ltb, leb, ◌==◌, ltb→lt, Bool-cases,
}
use operating_systems_lab.Prelude.Run.{bind_some}
use operating_systems_lab.Kalloc.{Kmem, pgsize}
use operating_systems_lab.Vm.{M, walkaddr, pg_round_down}
use operating_systems_lab.Vm.Tables.{Role, other, IsTable}
use operating_systems_lab.Vm.Translate.{user_page, walkaddr_lem, user_page_same}
use operating_systems_lab.Vm.Bytes.{byte_at}
use operating_systems_lab.Vm.Bytes.Views.{moved, byte_at-moved, moved_same}
use operating_systems_lab.Vm.Copy.{chunk, copyin_page, copyin_from, copyin}
use operating_systems_lab.Vm.Copy.Pages.{
  physical, with_copy, Copying, complete, stopped, chunk_some, chunk_le, chunk_page, chunk_next,
  Agrees, user_page-Agrees,
}

module _ (e pagetable : ℕ) (k : Kmem) (free : List ℕ) (role : ℕ → Role)
    (v : IsTable e pagetable k free role) where
  module _ (dst srcva len : ℕ) (bounded : (a : ℕ) → k.word a < 2 ^ 64)
      (away : (b : ℕ) → role b ≢ other → (b + pgsize ≤ dst) ⊎ (dst + len ≤ b))
      (disjoint : (i j : ℕ)
        → i < len
        → j < len
        → user_page k.word pagetable (srcva + i) ≢ 0
        → physical k.word pagetable (srcva + i) ≢ dst + j) where
    abbrev Copied : ℕ → Kmem → Type 0
    Copied n c = (p : ℕ) → byte_at c.word p ≡ with_copy k.word pagetable dst srcva n p

    abbrev Readable : ℕ → Type 0
    Readable n = (i : ℕ) → i < n → user_page k.word pagetable (srcva + i) ≢ 0

    Agrees-moved :
        (d n src : ℕ) (c : Kmem)
        → d + n ≤ len
        → Agrees k role c
        → Agrees k role (record c { word = moved (dst + d) src n c.word })
    Agrees-moved d n src c le same b j ne lt =
        let page = (v.pages b ne).0.aligned in
        moved_same (dst + d) src n c.word (b + 8 * j) (omega (arith, page))
          (subst (λ (w : ℕ). w < 2 ^ 64) (sym (same b j ne lt)) (bounded (b + 8 * j)))
          (elim (away b ne) [
            | inl before ↦ inl (omega (arith, before, lt))
            | inr behind ↦ inr (omega (arith, behind, le))
          ])
        ∙ same b j ne lt

    Readable-more :
        (d left : ℕ)
        → user_page k.word pagetable (pg_round_down (srcva + d)) ≢ 0
        → Readable d
        → Readable (d + chunk (srcva + d) left)
    Readable-more d left page before i lt zero_page = elim (Bool-cases (ltb i d)) [
      | inl earlier ↦ before i (ltb→lt i d earlier) zero_page
      | inr later ↦
          let within : i - d < chunk (srcva + d) left = ground (arith, later, lt) in
          let at : srcva + d + (i - d) ≡ srcva + i = ground (arith, later) in
          let same_page : (srcva + i) / pgsize ≡ (srcva + d) / pgsize =
            ap (λ (a : ℕ). a / pgsize) (sym at) ∙ chunk_page (srcva + d) left (i - d) within in
          page (
            user_page_same k.word pagetable (pg_round_down (srcva + d)) (srcva + i)
              (omega (arith, same_page))
            ∙ zero_page)
    ]

    -- A source byte that is to be copied yet is what it was.
    source_same :
        (d i : ℕ) (c : Kmem)
        → d ≤ len
        → i < len
        → user_page k.word pagetable (srcva + i) ≢ 0
        → Copied d c
        → byte_at c.word (physical k.word pagetable (srcva + i))
          ≡ byte_at k.word (physical k.word pagetable (srcva + i))
    source_same d i c d_le lt readable before =
        let q = physical k.word pagetable (srcva + i) in
        let outside : (leb dst q && ltb q (dst + d)) ≡ false =
          elim (Bool-cases (leb dst q && ltb q (dst + d))) [
            | inr h ↦ h
            | inl h ↦
                let from : dst ≤ q = ground (arith, h) in
                let to : q < dst + d = ground (arith, h) in
                absurd (
                  disjoint i (q - dst) lt (omega (arith, from, to, d_le)) readable
                    (omega (arith, from)))
          ] in
        before q ∙ rw outside refl

    Copied-more :
        (d left pa : ℕ) (c : Kmem)
        → d + left ≡ len
        → user_page k.word pagetable (pg_round_down (srcva + d)) ≡ pa
        → Readable (d + chunk (srcva + d) left)
        → Copied d c
        → Copied (d + chunk (srcva + d) left) (record c {
          word =
              moved
                (dst + d)
                (pa + (srcva + d - pg_round_down (srcva + d)))
                (chunk (srcva + d) left)
                c.word;
        })
    Copied-more d left pa c all page readable before p =
        let n = chunk (srcva + d) left in
        let n_le : n ≤ left = chunk_le (srcva + d) left in
        byte_at-moved (dst + d) (pa + (srcva + d - pg_round_down (srcva + d))) n c.word p
        ∙ (elim (Bool-cases (leb (dst + d) p && ltb p (dst + d + n))) [
          | inl inside ↦
              let from : dst + d ≤ p = ground (arith, inside) in
              let to : p < dst + d + n = ground (arith, inside) in
              let reached : (leb dst p && ltb p (dst + (d + n))) ≡ true =
                ground (arith, from, to) in
              let at : srcva + d + (p - (dst + d)) ≡ srcva + (p - dst) = omega (arith, from) in
              let same_page : (srcva + (p - dst)) / pgsize ≡ (srcva + d) / pgsize =
                ap (λ (a : ℕ). a / pgsize) (sym at)
                ∙ chunk_page (srcva + d) left (p - (dst + d)) (omega (arith, from, to)) in
              let there : user_page k.word pagetable (srcva + (p - dst)) ≡ pa =
                user_page_same k.word pagetable (srcva + (p - dst)) (pg_round_down (srcva + d))
                  (omega (arith, same_page))
                ∙ page in
              let source : pa + (srcva + d - pg_round_down (srcva + d)) + (p - (dst + d))
                  ≡ physical k.word pagetable (srcva + (p - dst)) =
                omega (arith, from, same_page, there) in
              rw (inside, reached)
                (ap (byte_at c.word) source
                  ∙ source_same d (p - dst) c (omega (arith, all))
                      (omega (arith, from, to, all, n_le))
                      (readable (p - dst) (omega (arith, from, to))) before)
          | inr outside ↦
              let same_test : (leb dst p && ltb p (dst + (d + n)))
                  ≡ (leb dst p && ltb p (dst + d)) =
                ground (arith, outside) in
              rw (outside, same_test) (before p)
        ])

    -- A round behind its walkaddr.
    copyin_page-Copying :
        (d left pa : ℕ) (next : M Bool) (c : Kmem)
        → 0 < left
        → d + left ≡ len
        → user_page k.word pagetable (pg_round_down (srcva + d)) ≡ pa
        → Agrees k role c
        → Readable d
        → Copied d c
        → ((c₁ : Kmem)
            → Agrees k role c₁
            → Readable (d + chunk (srcva + d) left)
            → Copied (d + chunk (srcva + d) left) c₁
            → Copying pagetable dst srcva len k (next c₁))
        → Copying pagetable dst srcva len k (copyin_page next (dst + d) (srcva + d) left pa c)
    unfolding copyin_page
    copyin_page-Copying d left pa next c some_left all page same readable before rest =
        elim (Bool-cases (pa == 0)) [
          | inl absent ↦
              let zero_page : user_page k.word pagetable (srcva + d) ≡ 0 =
                user_page_same k.word pagetable (srcva + d) (pg_round_down (srcva + d))
                  (omega arith)
                ∙ page
                ∙ ground (arith, absent) in
              rw (absent, copyin_page)
                (stopped d c (omega (arith, some_left, all)) zero_page readable before)
          | inr present ↦
              let more =
                Readable-more d left (λ h. ground (arith, present, sym page ∙ h)) readable in
              rw (present, copyin_page)
                (rest
                  (record c {
                    word =
                        moved (dst + d) (pa + (srcva + d - pg_round_down (srcva + d)))
                          (chunk (srcva + d) left) c.word;
                  })
                  (Agrees-moved d (chunk (srcva + d) left)
                    (pa + (srcva + d - pg_round_down (srcva + d))) c
                    (omega (arith, chunk_le (srcva + d) left, all)) same)
                  more (Copied-more d left pa c all page more before))
        ]

    copyin_from-done :
        (rounds d s : ℕ) (c : Kmem)
        → 0 < rounds
        → copyin_from rounds pagetable d s 0 c ≡ some (true, c)
    unfolding copyin_from
    copyin_from-done zero d s c h = absurd (omega arith)
    copyin_from-done (suc rounds) d s c h = refl

    -- Every round of copyin, with d bytes copied and `left` to go.
    copyin_from-Copying :
        (rounds d left : ℕ) (c : Kmem)
        → left < rounds
        → d + left ≡ len
        → Agrees k role c
        → Readable d
        → Copied d c
        → Copying pagetable dst srcva len k
            (copyin_from rounds pagetable (dst + d) (srcva + d) left c)
    unfolding copyin_from
    copyin_from-Copying zero d left c fuel all same readable before = absurd (omega arith)
    copyin_from-Copying (suc rounds) d left c fuel all same readable before =
        elim (Bool-cases (left == 0)) [
          | inl none_left ↦
              let d_len : d ≡ len = ground (arith, none_left, all) in
              rw (none_left, copyin_from)
                (complete c (λ i lt. readable i (omega (arith, lt, d_len)))
                  (subst (λ (n : ℕ). Copied n c) d_len before))
          | inr some_left ↦
              let some_lt : 0 < left = ground (arith, some_left) in
              let page = user_page k.word pagetable (pg_round_down (srcva + d)) in
              let runs : walkaddr pagetable (pg_round_down (srcva + d)) c ≡ some (page, c) =
                walkaddr_lem pagetable (pg_round_down (srcva + d)) c
                ∙ ap (λ (a : ℕ). some (a, c))
                    (user_page-Agrees e pagetable k free role v c (pg_round_down (srcva + d))
                      same) in
              let n = chunk (srcva + d) left in
              let n_some = chunk_some (srcva + d) left some_lt in
              let n_le = chunk_le (srcva + d) left in
              let next =
                copyin_from rounds pagetable (dst + d + n) (pg_round_down (srcva + d) + pgsize)
                  (left - n) in
              rw (some_left, copyin_from)
                (subst (Copying pagetable dst srcva len k)
                  (sym (
                    bind_some (walkaddr pagetable (pg_round_down (srcva + d)))
                      (copyin_page next (dst + d) (srcva + d) left) c runs))
                  (copyin_page-Copying d left page next c some_lt all refl same readable before
                    λ c₁ same₁ readable₁ before₁. elim (Bool-cases (ltb n left)) [
                      | inl within ↦
                          let next_page = chunk_next (srcva + d) left (ltb→lt n left within) in
                          subst
                            (λ (a : ℕ). Copying pagetable dst srcva len k (
                              copyin_from rounds pagetable a (pg_round_down (srcva + d) + pgsize)
                                (left - n) c₁))
                            (omega arith)
                            (subst
                              (λ (a : ℕ).
                                Copying pagetable dst srcva len k
                                  (copyin_from rounds pagetable (dst + (d + n)) a (left - n) c₁))
                              (omega (arith, next_page))
                              (copyin_from-Copying rounds (d + n) (left - n) c₁
                                (omega (arith, n_some, n_le, fuel)) (omega (arith, n_le, all)) same₁
                                readable₁ before₁))
                      | inr over ↦
                          let n_left : n ≡ left = ground (arith, over, n_le) in
                          let total : d + n ≡ len = omega (arith, n_left, all) in
                          subst (λ (o : Option (Bool × Kmem)). Copying pagetable dst srcva len k o)
                            (sym (
                              ap
                                (λ (m : ℕ).
                                  copyin_from rounds pagetable (dst + d + n)
                                    (pg_round_down (srcva + d) + pgsize) m c₁)
                                (omega (arith, n_left))
                              ∙ copyin_from-done rounds (dst + d + n)
                                  (pg_round_down (srcva + d) + pgsize) c₁
                                  (omega (arith, some_lt, fuel))))
                            (complete c₁ (λ i lt. readable₁ i (omega (arith, lt, total)))
                              (subst (λ (m : ℕ). Copied m c₁) total before₁))
                    ]))
        ]

-- copyin of len bytes through a proper page table returns, and every byte that it writes to dst is the byte
-- at the physical address of its own user address: all len of them with result 0 if each is accessible to
-- the user, and otherwise those before the first that is not, with result -1. No other byte of memory
-- changes. dst must lie outside the tables and apart from the user's bytes.
pub copyin_lem :
    (e pagetable dst srcva len : ℕ) (k : Kmem) (free : List ℕ) (role : ℕ → Role)
    → IsTable e pagetable k free role
    → ((a : ℕ) → k.word a < 2 ^ 64)
    → ((b : ℕ) → role b ≢ other → (b + pgsize ≤ dst) ⊎ (dst + len ≤ b))
    → ((i j : ℕ)
        → i < len
        → j < len
        → user_page k.word pagetable (srcva + i) ≢ 0
        → physical k.word pagetable (srcva + i) ≢ dst + j)
    → Copying pagetable dst srcva len k (copyin pagetable dst srcva len k)
unfolding copyin
copyin_lem e pagetable dst srcva len k free role v bounded away disjoint =
    subst
      (λ (a : ℕ). Copying pagetable dst srcva len k (copyin_from (len + 1) pagetable a srcva len k))
      (omega arith)
      (subst
        (λ (a : ℕ).
          Copying pagetable dst srcva len k (copyin_from (len + 1) pagetable (dst + 0) a len k))
        (omega arith)
        (copyin_from-Copying e pagetable k free role v dst srcva len bounded away disjoint (len + 1)
          0 len k (omega arith) (omega arith) (λ b j ne lt. refl) (λ i lt. absurd (omega arith))
          (λ p.
            let outside : (leb dst p && ltb p (dst + 0)) ≡ false = ground arith in
            rw outside refl)))
