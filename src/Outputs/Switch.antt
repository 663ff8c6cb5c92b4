-- ===== src/Outputs/Switch.antt =====
-- What a switch of the workspace on an output leaves, on every branch of output_set_workspace
-- (src/output/output.c).
use uwm.Base.{
  ℕ, ◌<◌, ◌≡◌, refl, ◌⊎◌, inl, inr, true, false, none, some, arith, ◌==◌, ◌=?◌, contains,
  Bool-cases, ==_iff, ◌∙◌, subst, some_refl, sym, ap, true_ne_false, Link, Bool, ◌&&◌, leb, if_true,
  if_false, =?_eq,
}
use uwm.Outputs.{Server, output_set_workspace, switched, give_up, leave, workspace_count}
use uwm.Base.Maps.{update}

-- Every output of the list shows a workspace that knows it.
abbrev pub IsConsistent : Server → Type 0
IsConsistent s = (p : ℕ) → contains p s.outputs ≡ true → s.output (s.current_workspace p) ≡ some p

-- The two outcomes for a workspace of the range.
abbrev pub Outcome : Server → (o w : ℕ) → Type 0
Outcome s o w =
    ((output_set_workspace s o w ≡ s) × (s.current_workspace o ≡ w) × (s.output w ≡ some o))
    ⊎ ((¬ ((s.current_workspace o ≡ w) × (s.output w ≡ some o)))
        × (output_set_workspace s o w ≡ switched s o w))

pub outcome : (s : Server) (o w : ℕ) → w < workspace_count → Outcome s o w
unfolding output_set_workspace
outcome s o w lt = elim (Bool-cases (s.current_workspace o == w && s.output w =? some o)) [
  | inl e ↦ inl (if_false _ _ small ∙ if_true _ _ e, (both e).0, (both e).1)
  | inr e ↦ inr (
    λ (c, d). true_ne_false (
        sym (
          ap (λ x. x == w && s.output w =? some o) c
          ∙ rw ((==_iff w w).1 refl) (ap (λ l. l =? some o) d ∙ some_refl o))
        ∙ e),
    if_false _ _ small ∙ if_false _ _ e,
  )
]
  where
    small : leb workspace_count w ≡ false
    small = ground arith

    both :
        (s.current_workspace o == w && s.output w =? some o) ≡ true
        → (s.current_workspace o ≡ w) × (s.output w ≡ some o)
    both e = (
      (==_iff (s.current_workspace o) w).0 (left (s.current_workspace o == w) _ e),
      =?_eq (s.output w) o (right (s.current_workspace o == w) _ e),
    )
      where
        left : (b c : Bool) → (b && c) ≡ true → b ≡ true
        left true c e = refl
        left false c e = e

        right : (b c : Bool) → (b && c) ≡ true → c ≡ true
        right true c e = e
        right false c e = absurd (true_ne_false (sym e))

give_up-none :
    (s : Server) (o w : ℕ)
    → (s.output w ≡ none) ⊎ (s.output w ≡ some o)
    → give_up s w o ≡ s.current_workspace
unfolding give_up
give_up-none s o w (inl e) = rw (e, give_up) refl
give_up-none s o w (inr e) = rw (e, give_up) (rw ((==_iff o o).1 refl) refl)

-- The workspace of another output is neither the new one nor the old one.
elsewhere :
    (s : Server) (o w p x : ℕ)
    → (p == o) ≡ false
    → s.output x ≡ some p
    → s.output (s.current_workspace o) ≡ some o
    → (s.output w ≡ none) ⊎ (s.output w ≡ some o)
    → ((x == w) ≡ false) × ((x == s.current_workspace o) ≡ false)
elsewhere s o w p x ne e h free = (
  elim (Bool-cases (x == w)) [ inl t ↦ absurd (new ((==_iff x w).0 t) free) | inr q ↦ q ],
  elim (Bool-cases (x == s.current_workspace o)) [
    | inl t ↦ absurd (old ((==_iff x (s.current_workspace o)).0 t))
    | inr q ↦ q
  ],
)
  where
    new : x ≡ w → (s.output w ≡ none) ⊎ (s.output w ≡ some o) → ⊥
    new q f = ground arith

    old : x ≡ s.current_workspace o → ⊥
    old q = ground arith

switched_elsewhere :
    (s : Server) (o w x : ℕ)
    → (x == w) ≡ false
    → (x == s.current_workspace o) ≡ false
    → (switched s o w).output x ≡ s.output x
unfolding switched leave update
switched_elsewhere s o w x n m =
    rw n (elim (Bool-cases (s.output (s.current_workspace o) =? some o)) [
      | inl t ↦ rw (t, leave) (rw m refl)
      | inr f ↦ rw (f, leave) refl
    ])

switched-current_workspace :
    (s : Server) (o w p : ℕ)
    → (p == o) ≡ false
    → (switched s o w).current_workspace p ≡ give_up s w o p
unfolding switched update
switched-current_workspace s o w p ne = rw ne refl

pub switched_here :
    (s : Server) (o w : ℕ)
    → ((switched s o w).current_workspace o ≡ w) × ((switched s o w).output w ≡ some o)
unfolding switched update
switched_here s o w = (rw ((==_iff o o).1 refl) refl, rw ((==_iff w w).1 refl) refl)

pub switched-current : (s : Server) (o w : ℕ) → (switched s o w).current ≡ w
unfolding switched
switched-current s o w = refl

pub switched-last : (s : Server) (o w : ℕ) → (switched s o w).last ≡ s.current
unfolding switched
switched-last s o w = refl

switched-outputs : (s : Server) (o w : ℕ) → (switched s o w).outputs ≡ s.outputs
unfolding switched
switched-outputs s o w = refl

switched-IsConsistent :
    (s : Server) (o w : ℕ)
    → IsConsistent s
    → contains o s.outputs ≡ true
    → (s.output w ≡ none) ⊎ (s.output w ≡ some o)
    → IsConsistent (switched s o w)
switched-IsConsistent s o w c m free p mp = elim (Bool-cases (p == o)) [
  | inl t ↦ rw ((==_iff p o).0 t) (rw (switched_here s o w).0 ((switched_here s o w).1))
  | inr ne ↦ away ne (c p (subst (λ l. contains p l ≡ true) (switched-outputs s o w) mp))
]
  where
    away :
        (p == o) ≡ false
        → s.output (s.current_workspace p) ≡ some p
        → (switched s o w).output ((switched s o w).current_workspace p) ≡ some p
    away ne there =
        let far = elsewhere s o w p (s.current_workspace p) ne there (c o m) free in
        rw (switched-current_workspace s o w p ne) (
          rw (give_up-none s o w free)
            (switched_elsewhere s o w (s.current_workspace p) far.0 far.1 ∙ there))

-- The old workspace has no output.
pub switched_old :
    (s : Server) (o w : ℕ)
    → s.output (s.current_workspace o) ≡ some o
    → (s.current_workspace o == w) ≡ false
    → (switched s o w).output (s.current_workspace o) ≡ none
unfolding switched update
switched_old s o w h ne = rw ne (
    rw (h, leave)
      (rw (some_refl o)
        (rw ((==_iff (s.current_workspace o) (s.current_workspace o)).1 refl) refl)))

switched_swap :
    (s : Server) (o p w : ℕ)
    → IsConsistent s
    → contains o s.outputs ≡ true
    → contains p s.outputs ≡ true
    → (p == o) ≡ false
    → s.output w ≡ some p
    → let s' = switched s o w in
      (s'.current_workspace p ≡ s.current_workspace o)
      × (s'.output (s'.current_workspace p) ≡ none)
      × (¬ IsConsistent s')
unfolding switched
switched_swap s o p w c mo mp ne e = (moved, lost, λ c'. ground (arith, c' p mp, lost))
  where
    moved : (switched s o w).current_workspace p ≡ s.current_workspace o
    moved = rw ne (rw (e, give_up) (rw ne (rw ((==_iff p p).1 refl) refl)))

    old_ne : (s.current_workspace o == w) ≡ false
    old_ne = elim (Bool-cases (s.current_workspace o == w)) [
      | inl t ↦ absurd (clash ((==_iff (s.current_workspace o) w).0 t) (c o mo))
      | inr f ↦ f
    ]
      where
        clash : s.current_workspace o ≡ w → s.output (s.current_workspace o) ≡ some o → ⊥
        clash q h = ground arith

    lost : (switched s o w).output ((switched s o w).current_workspace p) ≡ none
    lost = rw moved (switched_old s o w (c o mo) old_ne)

-- A switch to a workspace that another output shows does not: that output is given the workspace
-- of the first, as the comment on the swap says, but the workspace itself is left with no output.
pub output_set_workspace_swap :
    (s : Server) (o p w : ℕ)
    → IsConsistent s
    → contains o s.outputs ≡ true
    → contains p s.outputs ≡ true
    → (p == o) ≡ false
    → s.output w ≡ some p
    → w < workspace_count
    → let s' = output_set_workspace s o w in
      (s'.current_workspace p ≡ s.current_workspace o)
      × (s'.output (s'.current_workspace p) ≡ none)
      × (¬ IsConsistent s')
output_set_workspace_swap s o p w c mo mp ne e lt = elim (outcome s o w lt) [
  | inl (_, _, d) ↦ absurd (clash d)
  | inr (_, q) ↦ rw q (switched_swap s o p w c mo mp ne e)
]
  where
    clash : s.output w ≡ some o → ⊥
    clash d = ground arith

-- The output does not show its old workspace any more, unless that is the new one.
left_behind :
    (s : Server) (o w : ℕ)
    → (s.current_workspace o ≡ w) ⊎ (¬ ((switched s o w).output (s.current_workspace o) ≡ some o))
unfolding switched leave update
left_behind s o w = elim (Bool-cases (s.current_workspace o == w)) [
  | inl e ↦ inl ((==_iff (s.current_workspace o) w).0 e)
  | inr ne ↦ inr (gone ne (Bool-cases (s.output (s.current_workspace o) =? some o)))
]
  where
    gone :
        (s.current_workspace o == w) ≡ false
        → ((s.output (s.current_workspace o) =? some o) ≡ true)
          ⊎ ((s.output (s.current_workspace o) =? some o) ≡ false)
        → ¬ ((switched s o w).output (s.current_workspace o) ≡ some o)
    gone ne (inl h) e =
        let z : ◌≡◌ {A = Link} none (some o) = sym (switched_old s o w (=?_eq _ o h) ne) ∙ e in cc
    gone ne (inr h) e = absurd (
        true_ne_false
          (sym (ap (λ l. l =? some o) (sym (rw ne (rw (h, leave) refl)) ∙ e) ∙ some_refl o) ∙ h))

-- After a switch to a workspace of the range, the output shows it and the workspace knows the output.
-- Either both held already and the server is as it was; or not both did, and then the output is the
-- active one, the server's current and last workspaces are the new one and the current one from
-- before, and the workspace that the output showed, if it is another, does not know the output.
pub output_set_workspace_shows :
    (s : Server) (o w : ℕ)
    → w < workspace_count
    → let s' = output_set_workspace s o w in
      (s'.current_workspace o ≡ w)
      × (s'.output w ≡ some o)
      × (((s.current_workspace o ≡ w) × (s.output w ≡ some o) × (s' ≡ s))
          ⊎ ((¬ ((s.current_workspace o ≡ w) × (s.output w ≡ some o)))
              × (s'.active_output ≡ some o)
              × (s'.current ≡ w)
              × (s'.last ≡ s.current)
              × ((s.current_workspace o ≡ w) ⊎ (¬ (s'.output (s.current_workspace o) ≡ some o)))))
unfolding switched
output_set_workspace_shows s o w lt = elim (outcome s o w lt) [
  | inl (e, c, d) ↦ rw e (c, d, inl (c, d, refl))
  | inr (n, e) ↦ rw e (
    (switched_here s o w).0,
    (switched_here s o w).1,
    inr (n, refl, refl, refl, left_behind s o w),
  )
]

-- Outputs and workspaces agree both ways: besides, a workspace knows an output only if that output
-- is in the list and shows it.
pub record IsMatched (s : Server) : Type 0 where
  pub shown : IsConsistent s
  pub known :
      (w p : ℕ) → s.output w ≡ some p → (contains p s.outputs ≡ true) × (s.current_workspace p ≡ w)

switched-known :
    (s : Server) (o w : ℕ)
    → IsMatched s
    → contains o s.outputs ≡ true
    → (s.output w ≡ none) ⊎ (s.output w ≡ some o)
    → (x p : ℕ) → (switched s o w).output x ≡ some p
    → (contains p s.outputs ≡ true) × ((switched s o w).current_workspace p ≡ x)
switched-known s o w v m free x p e = elim (Bool-cases (x == w)) [
  | inl xw ↦
      let q : p ≡ o = here ((==_iff x w).0 xw) in
      (
        subst (λ y. contains y s.outputs ≡ true) (sym q) m,
        ap (λ y. (switched s o w).current_workspace y) q
            ∙ (switched_here s o w).0
            ∙ sym ((==_iff x w).0 xw),
      )
  | inr nw ↦ elim (Bool-cases (x == s.current_workspace o)) [
    | inl old ↦ absurd (gone nw ((==_iff x (s.current_workspace o)).0 old))
    | inr far ↦
        let there : s.output x ≡ some p = sym (switched_elsewhere s o w x nw far) ∙ e in
        let (mp, cp) = v.known x p there in
        (
          mp,
          switched-current_workspace s o w p (other far cp)
              ∙ ap (λ (f : ℕ → ℕ). f p) (give_up-none s o w free)
              ∙ cp,
        )
  ]
]
  where
    here : x ≡ w → p ≡ o
    here q =
        let z : ◌≡◌ {A = Link} (some p) (some o) =
          sym e ∙ ap (λ y. (switched s o w).output y) q ∙ (switched_here s o w).1 in
        cc

    gone : (x == w) ≡ false → x ≡ s.current_workspace o → ⊥
    gone nw q =
        let nw' : (s.current_workspace o == w) ≡ false = ap (λ y. y == w) (sym q) ∙ nw in
        let z : ◌≡◌ {A = Link} (some p) none =
          sym e ∙ ap (λ y. (switched s o w).output y) q ∙ switched_old s o w (v.shown o m) nw' in
        cc

    other : (x == s.current_workspace o) ≡ false → s.current_workspace p ≡ x → (p == o) ≡ false
    other far cp = elim (Bool-cases (p == o)) [
      | inr q ↦ q
      | inl q ↦ absurd (
          true_ne_false (
            sym (
              (==_iff x (s.current_workspace o)).1
                (sym cp ∙ ap s.current_workspace ((==_iff p o).0 q)))
            ∙ far))
    ]

-- A switch to a workspace of the range that no other output shows keeps the outputs and the
-- workspaces matched: every output of the list shows a workspace that knows it, and every workspace
-- that knows an output is shown by it, so that no two workspaces claim one output.
pub output_set_workspace-IsMatched :
    (s : Server) (o w : ℕ)
    → w < workspace_count
    → IsMatched s
    → contains o s.outputs ≡ true
    → (s.output w ≡ none) ⊎ (s.output w ≡ some o)
    → IsMatched (output_set_workspace s o w)
output_set_workspace-IsMatched s o w lt v m free = elim (outcome s o w lt) [
  | inl (e, _, _) ↦ rw e v
  | inr (_, e) ↦ rw e (record {
    shown = switched-IsConsistent s o w v.shown m free;
    known = λ x p q.
        let (mp, cp) = switched-known s o w v m free x p q in
        (subst (λ l. contains p l ≡ true) (sym (switched-outputs s o w)) mp, cp);
  })
]
