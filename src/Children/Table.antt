-- ===== src/Children/Table.antt =====
-- What the table of child processes (src/core/child.c) holds, and who gets a signal at the end.
use uwm.Base.{
  ℕ, zero, suc, ◌+◌, ◌<◌, ◌≤◌, ◌≡◌, ◌≢◌, refl, sym, subst, ◌∙◌, inl, inr, Bool, true, false, ap,
  ◌||◌, ◌⊎◌, if_true, if_false, List, [], ◌∷◌, map, ◌==◌, if◌then◌else◌, Bool-cases, contains,
  arith, true_ne_false, ==_iff,
}
use uwm.Base.Counts.{count}
use uwm.Base.Members.{in_cons, in_tail, in_head}
use uwm.Base.Int.{pos}
use uwm.Children.{
  place, uwm_child_register, live, any_alive, wait_or_kill, kill_after, uwm_children_terminate,
  grace_tries,
}

place_self : (qs : List ℕ) (p : ℕ) → contains 0 qs ≡ true → contains p (place qs p) ≡ true
unfolding place
place_self [] p z = absurd (true_ne_false (sym z))
place_self (q ∷ qs) p z = elim (Bool-cases (q == 0)) [
  | inl t ↦ rw t (in_head p qs)
  | inr e ↦ rw e (elim (in_cons 0 q qs z) [
    | inl c ↦ absurd (true_ne_false (sym ((==_iff q 0).1 (sym c)) ∙ e))
    | inr m ↦ in_tail p q (place qs p) (place_self qs p m)
  ])
]

place_other :
    (qs : List ℕ) (p r : ℕ) → r ≢ 0 → contains r qs ≡ true → contains r (place qs p) ≡ true
unfolding place
place_other [] p r n m = m
place_other (q ∷ qs) p r n m = elim (Bool-cases (q == 0)) [
  | inl t ↦ rw t (elim (in_cons r q qs m) [
    | inl c ↦ absurd (n (c ∙ (==_iff q 0).0 t))
    | inr m ↦ in_tail r p qs m
  ])
  | inr e ↦ rw e (elim (in_cons r q qs m) [
    | inl c ↦ subst (λ x. contains x (q ∷ place qs p) ≡ true) (sym c) (in_head q (place qs p))
    | inr m ↦ in_tail r q (place qs p) (place_other qs p r n m)
  ])
]

-- While a slot is free, a child that has not ended yet is in the table once it is registered; and
-- whether or not that is so, no other process leaves the table.
pub uwm_child_register-contains :
    (table : List ℕ) (n : ℕ)
    → (contains 0 table ≡ true
        → contains (suc n) (uwm_child_register false table (pos (suc n))) ≡ true)
      × ((gone : Bool) (r : ℕ)
          → r ≢ 0
          → contains r table ≡ true
          → contains r (uwm_child_register gone table (pos (suc n))) ≡ true)
unfolding uwm_child_register
uwm_child_register-contains table n =
    (place_self table (suc n), λ gone r ne m. place_other table (if gone then 0 else suc n) r ne m)

-- The tries either find a process alive each time, or one of them finds none.
wait_or_kill_lem :
    (alive : ℕ → ℕ → Bool) (qs : List ℕ) (n i : ℕ)
    → (((j : ℕ) → i ≤ j → j < i + n → any_alive (alive j) qs ≡ true)
        × (wait_or_kill alive qs n i ≡ qs))
      ⊎ ((j : ℕ) × (i ≤ j)
          × (j < i + n)
          × (any_alive (alive j) qs ≡ false)
          × (wait_or_kill alive qs n i ≡ []))
unfolding wait_or_kill
wait_or_kill_lem alive qs zero i = inl (λ j l m. absurd (omega arith), refl)
wait_or_kill_lem alive qs (suc n) i = elim (Bool-cases (any_alive (alive i) qs)) [
  | inr f ↦ inr (i, omega arith, omega arith, f, if_false _ _ f)
  | inl t ↦ elim (wait_or_kill_lem alive qs n (suc i)) [
    | inl (h, e) ↦ inl (λ j l m. first t h j l m, if_true _ _ t ∙ e)
    | inr (j, l, m, f, e) ↦ inr (j, omega (arith, l), omega (arith, m), f, if_true _ _ t ∙ e)
  ]
]
  where
    first :
        any_alive (alive i) qs ≡ true
        → ((j : ℕ) → suc i ≤ j → j < suc i + n → any_alive (alive j) qs ≡ true)
        → (j : ℕ) → i ≤ j
        → j < i + suc n
        → any_alive (alive j) qs ≡ true
    first t h j l m = elim (Bool-cases (i == j)) [
      | inl q ↦ subst (λ x. any_alive (alive x) qs ≡ true) ((==_iff i j).0 q) t
      | inr q ↦ h j (ground arith) (omega (arith, m))
    ]

live-count : (q : ℕ) (table : List ℕ) → count q (live table) ≡ (if q == 0 then 0 else count q table)
unfolding live
live-count q [] = ground arith
live-count q (x ∷ xs) = ground (arith, live-count q xs)

-- Some child of the table answers, or none does; an empty slot is not a child.
answers :
    (alive : ℕ → Bool) (table : List ℕ)
    → any_alive alive (live table) ≡ true
    → (q : ℕ) × (q ≢ 0) × (contains q table ≡ true) × (alive q ≡ true)
unfolding live
answers alive [] e = absurd (true_ne_false (sym e))
answers alive (x ∷ xs) e = elim (Bool-cases (x == 0)) [
  | inl z ↦ further (answers alive xs (sym (ap (any_alive alive) (if_true _ _ z)) ∙ e))
  | inr nz ↦
      let e' : (alive x || any_alive alive (live xs)) ≡ true =
        sym (ap (any_alive alive) (if_false _ _ nz)) ∙ e in
      elim (Bool-cases (alive x)) [
        | inl a ↦ (x, λ q. true_ne_false (sym ((==_iff x 0).1 q) ∙ nz), in_head x xs, a)
        | inr n ↦ further (answers alive xs (sym (ap (λ b. b || any_alive alive (live xs)) n) ∙ e'))
      ]
]
  where
    further :
        (q : ℕ) × (q ≢ 0) × (contains q xs ≡ true) × (alive q ≡ true)
        → (q : ℕ) × (q ≢ 0) × (contains q (x ∷ xs) ≡ true) × (alive q ≡ true)
    further (q, ne, m, a) = (q, ne, in_tail q x xs m, a)

silent :
    (alive : ℕ → Bool) (table : List ℕ)
    → any_alive alive (live table) ≡ false
    → (q : ℕ) → q ≢ 0
    → contains q table ≡ true
    → alive q ≡ false
unfolding live
silent alive [] e q ne m = absurd (true_ne_false (sym m))
silent alive (x ∷ xs) e q ne m = elim (Bool-cases (x == 0)) [
  | inl z ↦ elim (in_cons q x xs m) [
    | inl c ↦ absurd (ne (c ∙ (==_iff x 0).0 z))
    | inr m ↦ silent alive xs (sym (ap (any_alive alive) (if_true _ _ z)) ∙ e) q ne m
  ]
  | inr nz ↦
      let e' : (alive x || any_alive alive (live xs)) ≡ false =
        sym (ap (any_alive alive) (if_false _ _ nz)) ∙ e in
      elim (in_cons q x xs m) [
        | inl c ↦ ap alive c ∙ (or_false (alive x) _ e').0
        | inr m ↦ silent alive xs (or_false (alive x) _ e').1 q ne m
      ]
]
  where
    or_false : (b c : Bool) → (b || c) ≡ false → (b ≡ false) × (c ≡ false)
    or_false true c e = absurd (true_ne_false e)
    or_false false c e = (refl, e)

-- At the end the table is cleared, and every process gets as many SIGTERMs as it has slots in the
-- table. Either at each of the fifty tries one of the table's processes is alive, and the same
-- processes get SIGKILL; or at some try none of them is, and none gets it.
pub uwm_children_terminate-signals :
    (alive : ℕ → ℕ → Bool) (table : List ℕ)
    → let r = uwm_children_terminate alive table in
      (r.0 ≡ map (λ q. 0) table)
      × ((q : ℕ) → count q r.1 ≡ (if q == 0 then 0 else count q table))
      × ((((i : ℕ)
              → i < grace_tries
              → (q : ℕ) × (q ≢ 0) × (contains q table ≡ true) × (alive i q ≡ true))
            × (r.2 ≡ r.1))
          ⊎ ((i : ℕ) × (i < grace_tries)
              × ((q : ℕ) → q ≢ 0 → contains q table ≡ true → alive i q ≡ false)
              × (r.2 ≡ [])))
unfolding uwm_children_terminate
uwm_children_terminate-signals alive table =
    (refl, λ q. live-count q table, killed (live table) refl)
  where
    killed :
        (qs : List ℕ)
        → live table ≡ qs
        → (((i : ℕ)
              → i < grace_tries
              → (q : ℕ) × (q ≢ 0) × (contains q table ≡ true) × (alive i q ≡ true))
            × (kill_after alive qs ≡ qs))
          ⊎ ((i : ℕ) × (i < grace_tries)
              × ((q : ℕ) → q ≢ 0 → contains q table ≡ true → alive i q ≡ false)
              × (kill_after alive qs ≡ []))
    killed [] e = inr (0, omega arith, silent (alive 0) table (ap (any_alive (alive 0)) e), refl)
    killed (q ∷ qs) e = elim (wait_or_kill_lem alive (q ∷ qs) grace_tries 0) [
      | inl (h, k) ↦
          inl
            (λ i lt. answers (alive i) table (ap (any_alive (alive i)) e ∙ h i (omega arith) lt), k)
      | inr (i, _, lt, f, k) ↦
          inr (i, lt, silent (alive i) table (ap (any_alive (alive i)) e ∙ f), k)
    ]
