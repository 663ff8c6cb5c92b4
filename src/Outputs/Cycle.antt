-- ===== src/Outputs/Cycle.antt =====
-- Which workspace the cycling functions of src/wm/workspace.c and find_unused_workspace of
-- src/output/output.c choose.
use uwm.Base.{
  ℕ, zero, suc, ◌+◌, ◌%◌, ◌<◌, ◌≤◌, ◌≡◌, refl, subst, ◌⊎◌, inl, inr, Bool, true, false, none, some,
  arith, ◌==◌, Bool-cases, Link, List, [], ◌∷◌, ◌||◌, ap, sym, ◌∙◌, contains, true_ne_false, ==_iff,
}
use uwm.Base.Members.{in_cons, in_tail, in_head}
use uwm.Outputs.{
  Server, prev_id, next_id, first_active, next_candidate, current_id, workspace_is_active,
  workspace_next_active, workspace_next, workspace_switch, used, first_unused,
  find_unused_workspace, workspace_count,
}

-- The next workspace of the previous one, and the previous one of the next, is the one itself.
next_id-prev_id :
    (n : ℕ)
    → n < workspace_count
    → (next_id (prev_id n) ≡ n)
      × (prev_id (next_id n) ≡ n)
      × (next_id n < workspace_count)
      × (prev_id n < workspace_count)
unfolding next_id prev_id
next_id-prev_id n lt = (ground arith, ground arith, ground arith, ground arith)

-- What a scan for the first active candidate finds.
pub data Scan (f : ℕ → ℕ) (active : ℕ → Bool) (n i : ℕ) (r : Link) : Type 0 where
  nearest :
      (k : ℕ)
      → i ≤ k
      → k < i + n
      → r ≡ some (f k)
      → active (f k) ≡ true
      → ((j : ℕ) → i ≤ j → j < k → active (f j) ≡ false)
      → Scan f active n i r
  nowhere : r ≡ none → ((j : ℕ) → i ≤ j → j < i + n → active (f j) ≡ false) → Scan f active n i r

first_of : (P : ℕ → Type 0) (i j : ℕ) → P i → (suc i ≤ j → P j) → i ≤ j → P j
first_of P i j p q le = elim (Bool-cases (i == j)) [
  | inl e ↦ subst P (ground arith) p
  | inr e ↦ q (ground arith)
]

pub first_active-Scan :
    (f : ℕ → ℕ) (active : ℕ → Bool) (n i : ℕ) → Scan f active n i (first_active f active n i)
unfolding first_active
first_active-Scan f active zero i = nowhere refl (λ j le lt. absurd (omega arith))
first_active-Scan f active (suc n) i = elim (Bool-cases (active (f i))) [
  | inl t ↦ rw t (nearest i (omega arith) (omega arith) refl t (λ j le lt. absurd (omega arith)))
  | inr e ↦ rw e (later e (first_active-Scan f active n (suc i)))
]
  where
    later :
        active (f i) ≡ false
        → Scan f active n (suc i) (first_active f active n (suc i))
        → Scan f active (suc n) i (first_active f active n (suc i))
    later e (nearest k le lt q t b) =
        nearest k (omega arith) (omega arith) q t
          (λ j l m. first_of (λ j. active (f j) ≡ false) i j e (λ l'. b j l' m) l)
    later e (nowhere q b) =
        nowhere q
          (λ j l m. first_of (λ j. active (f j) ≡ false) i j e (λ l'. b j l' (omega arith)) l)

-- `workspace_next_active` switches to the nearest active workspace after the current one, in cyclic
-- order, and to the next one when none of the other eight is active.
pub workspace_next_active_nearest :
    (s : Server)
    → let cur = current_id s in
      ((k : ℕ) × (1 ≤ k)
        × (k < workspace_count)
        × (workspace_is_active s ((cur + k) % workspace_count) ≡ true)
        × ((j : ℕ) → 1 ≤ j → j < k → workspace_is_active s ((cur + j) % workspace_count) ≡ false)
        × (workspace_next_active s ≡ workspace_switch s ((cur + k) % workspace_count)))
      ⊎ (((j : ℕ)
            → 1 ≤ j
            → j < workspace_count
            → workspace_is_active s ((cur + j) % workspace_count) ≡ false)
          × (workspace_next_active s ≡ workspace_next s))
unfolding workspace_next_active next_candidate
workspace_next_active_nearest s =
    elim (first_active-Scan (next_candidate (current_id s)) (workspace_is_active s) 8 1) [
      | nearest k le lt q t b ↦ inl (k, le, lt, t, b, rw (q, workspace_next_active) refl)
      | nowhere q b ↦ inr (b, rw (q, workspace_next_active) refl)
    ]

-- The result of the scan for an unused workspace.
pub first_unused_lem :
    (mark : ℕ → Bool) (n i : ℕ)
    → let r = first_unused mark n i in
      ((mark r ≡ false) × (i ≤ r) × (r < i + n) × ((j : ℕ) → i ≤ j → j < r → mark j ≡ true))
      ⊎ ((r ≡ 0) × ((j : ℕ) → i ≤ j → j < i + n → mark j ≡ true))
unfolding first_unused
first_unused_lem mark zero i = inr (refl, λ j le lt. absurd (omega arith))
first_unused_lem mark (suc n) i = elim (Bool-cases (mark i)) [
  | inl t ↦ rw t (later t (first_unused_lem mark n (suc i)))
  | inr e ↦ rw e (inl (e, omega arith, omega arith, λ j le lt. absurd (omega arith)))
]
  where
    later :
        mark i ≡ true
        → let r = first_unused mark n (suc i) in
          ((mark r ≡ false)
              × (suc i ≤ r)
              × (r < suc i + n)
              × ((j : ℕ) → suc i ≤ j → j < r → mark j ≡ true))
            ⊎ ((r ≡ 0) × ((j : ℕ) → suc i ≤ j → j < suc i + n → mark j ≡ true))
          → ((mark r ≡ false)
              × (i ≤ r)
              × (r < i + suc n)
              × ((j : ℕ) → i ≤ j → j < r → mark j ≡ true))
            ⊎ ((r ≡ 0) × ((j : ℕ) → i ≤ j → j < i + suc n → mark j ≡ true))
    later t (inl (e, le, lt, b)) = inl (
      e,
      omega arith,
      omega arith,
      λ j l m. first_of (λ j. mark j ≡ true) i j t (λ l'. b j l' m) l,
    )
    later t (inr (e, b)) =
        inr (e, λ j l m. first_of (λ j. mark j ≡ true) i j t (λ l'. b j l' (omega arith)) l)

-- The marks: an output of the list shows the workspace, or none does.
abbrev pub IsShown : Server → ℕ → Type 0
IsShown s w = (o : ℕ) × (contains o s.outputs ≡ true) × (s.current_workspace o ≡ w)

used_lem :
    (s : Server) (os : List ℕ) (w : ℕ)
    → ((used s os w ≡ true) × ((o : ℕ) × (contains o os ≡ true) × (s.current_workspace o ≡ w)))
      ⊎ ((used s os w ≡ false)
          × ((o : ℕ) → contains o os ≡ true → (s.current_workspace o == w) ≡ false))
unfolding used
used_lem s [] w = inr (refl, λ o m. absurd (true_ne_false (sym m)))
used_lem s (o ∷ os) w = elim (Bool-cases (s.current_workspace o == w)) [
  | inl e ↦
      inl (ap (λ b. b || used s os w) e, (o, in_head o os, (==_iff (s.current_workspace o) w).0 e))
  | inr ne ↦ elim (used_lem s os w) [
    | inl (u, (p, m, q)) ↦ inl (ap (λ b. b || used s os w) ne ∙ u, (p, in_tail p o os m, q))
    | inr (u, away) ↦ inr (
      ap (λ b. b || used s os w) ne ∙ u,
      λ p m. elim (in_cons p o os m) [
        | inl e ↦ ap (λ x. s.current_workspace x == w) e ∙ ne
        | inr m ↦ away p m
      ],
    )
  ]
]

used-IsShown : (s : Server) (w : ℕ) → used s s.outputs w ≡ true → IsShown s w
used-IsShown s w e = elim (used_lem s s.outputs w) [
  | inl (_, p) ↦ p
  | inr (u, _) ↦ absurd (true_ne_false (sym e ∙ u))
]

unused-IsShown : (s : Server) (w : ℕ) → used s s.outputs w ≡ false → ¬ IsShown s w
unused-IsShown s w e (o, m, q) = elim (used_lem s s.outputs w) [
  | inl (u, _) ↦ absurd (true_ne_false (sym u ∙ e))
  | inr (_, away) ↦ absurd (true_ne_false (sym ((==_iff (s.current_workspace o) w).1 q) ∙ away o m))
]

-- `find_unused_workspace` gives the least workspace that no output of the list shows, or 0 when each
-- of the nine is shown by an output; it is in the range in both cases.
pub find_unused_workspace_least :
    (s : Server)
    → let r = find_unused_workspace s in
      (r < workspace_count)
      × (((¬ IsShown s r) × ((j : ℕ) → j < r → IsShown s j))
          ⊎ ((r ≡ 0) × ((j : ℕ) → j < workspace_count → IsShown s j)))
unfolding find_unused_workspace
find_unused_workspace_least s = elim (first_unused_lem (used s s.outputs) workspace_count 0) [
  | inl (e, le, lt, b) ↦
      (lt, inl (unused-IsShown s _ e, λ j l. used-IsShown s j (b j (omega arith) l)))
  | inr (e, b) ↦
      (rw e (omega arith), inr (e, λ j l. used-IsShown s j (b j (omega arith) (omega (arith, l)))))
]
