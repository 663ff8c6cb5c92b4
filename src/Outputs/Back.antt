-- ===== src/Outputs/Back.antt =====
-- A switch and its way back, the action workspaceprev of src/input/actions.c.
use uwm.Base.{
  ℕ, ◌<◌, ◌≡◌, refl, inl, inr, Bool, true, false, none, some, arith, ◌==◌, leb, if◌then◌else◌,
  Bool-cases, ==_iff, ne_sym, true_ne_false, sym, ◌∙◌, subst,
}
use uwm.Outputs.{
  Server, output_set_workspace, switched, with_borders, workspace_switch, workspaceprev,
  workspace_count, target_output, switch_on,
}
use uwm.Outputs.Switch.{outcome, switched_here, switched-current, switched-last, switched_old}

-- A switch of the active output to a workspace that it does not show and that is in the range.
away_outcome :
    (s : Server) (o w : ℕ)
    → s.active_output ≡ some o
    → (s.current_workspace o == w) ≡ false
    → w < workspace_count
    → workspace_switch s w ≡ with_borders (switched s o w) w
unfolding workspace_switch switch_on
away_outcome s o w a ne lt = simp (target, switch_on) (go (leb workspace_count w) refl)
  where
    target : target_output s ≡ some o
    target = simp (a, target_output)

    go :
        (b : Bool)
        → leb workspace_count w ≡ b
        → (if b then s else with_borders (output_set_workspace s o w) w)
          ≡ with_borders (switched s o w) w
    go true e = absurd (ground arith)
    go false e = elim (outcome s o w lt) [
      | inl (_, c, _) ↦ absurd (true_ne_false (sym ((==_iff (s.current_workspace o) w).1 c) ∙ ne))
      | inr (_, q) ↦ rw q refl
    ]

back :
    (s : Server) (o w : ℕ)
    → s.current ≡ s.current_workspace o
    → (s.current == w) ≡ false
    → s.current < workspace_count
    → let t = with_borders (switched s o w) w in
      workspaceprev t ≡ with_borders (switched t o s.current) s.current
unfolding workspaceprev switched
back s o w cur ne lt = rw ne (
    away_outcome (with_borders (switched s o w) w) o s.current refl
      (rw (switched_here s o w).0 (ne_sym s.current w ne)) lt)

-- On a server whose active output `o` shows the current workspace, a switch to another
-- workspace of the range that no output shows, followed by `workspaceprev`, brings the old workspace
-- back: the output and the server's current workspace are as before, no output shows the other
-- workspace, and that one is `last`.
pub workspaceprev-workspace_switch :
    (s : Server) (o w : ℕ)
    → s.active_output ≡ some o
    → s.current ≡ s.current_workspace o
    → s.output (s.current_workspace o) ≡ some o
    → s.output w ≡ none
    → w < workspace_count
    → s.current < workspace_count
    → let s' = workspaceprev (workspace_switch s w) in
      (s'.current_workspace o ≡ s.current_workspace o)
      × (s'.output (s.current_workspace o) ≡ some o)
      × (s'.output w ≡ none)
      × (s'.current ≡ s.current)
      × (s'.last ≡ w)
workspaceprev-workspace_switch s o w a cur here free lt lt' =
    let t = with_borders (switched s o w) w in
    let h = switched_here s o w in
    let u = switched_here t o s.current in
    rw (away_outcome s o w a ne lt) (
      rw (back s o w cur ne' lt') (
        u.0 ∙ cur,
        subst (λ x. (switched t o s.current).output x ≡ some o) cur u.1,
        subst (λ x. (switched t o s.current).output x ≡ none) h.0
            (switched_old t o s.current (subst (λ x. t.output x ≡ some o) (sym h.0) h.1)
              (rw h.0 (ne_sym s.current w ne'))),
        switched-current t o s.current,
        switched-last t o s.current ∙ switched-current s o w,
      ))
  where
    ne : (s.current_workspace o == w) ≡ false
    ne = elim (Bool-cases (s.current_workspace o == w)) [
      | inl t ↦ absurd (clash ((==_iff (s.current_workspace o) w).0 t))
      | inr f ↦ f
    ]
      where
        clash : s.current_workspace o ≡ w → ⊥
        clash q = ground arith

    ne' : (s.current == w) ≡ false
    ne' = rw cur ne
