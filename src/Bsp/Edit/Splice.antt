-- ===== src/Bsp/Edit/Splice.antt =====
-- The pointer writes of bsp_insert (src/wm/bsp.c) turn the nodes of a tree into those of the tree
-- with a new leaf beside the focused one.
use uwm.Base.{
  ℕ, ◌≡◌, ◌≢◌, sym, ◌∙◌, ◌⊎◌, inl, inr, true, false, none, some, arith, ◌==◌, ◌=?◌, =?_eq, Link,
  Bool-cases, ==_iff, if◌then◌else◌,
}
use uwm.Bsp.{Node, Nodes, Split, write}
use uwm.Bsp.Tree.{Tree, leaf, branch, addr, has, has_leaf, IsLeaf, IsBranch, Rep}
use uwm.Bsp.Tree.Frame.{
  has_leaf-has, parent_cases, parent_of_first, parent_of_second, first-ne-second, Rep-parent,
}
use uwm.Bsp.Tree.Graft.{Spliced, redirect}
use uwm.Bsp.Edit.{attach, set_first, set_second}

-- The leaf's node has no children.
pub leaf_ends :
    (h : Nodes) (T : Tree) (p : Link) (c : ℕ)
    → Rep h p T
    → has_leaf c T ≡ true
    → ((h c).first ≡ none) × ((h c).second ≡ none)
leaf_ends h (leaf a w) p c v e = ground arith
leaf_ends h (branch a sp l r) p c (k, al, ar, d, vl, vr) e =
    ground (arith, leaf_ends h l (some a) c vl, leaf_ends h r (some a) c vr)

pub record Attached (h h' : Nodes) (c n i : ℕ) : Type 0 where
  pub old : h' c ≡ record (h c) { parent = some i }
  pub new : h' n ≡ record (h n) { parent = some i }
  pub inner : h' i ≡ record (h i) { parent = (h c).parent }
  pub others : (b : ℕ) → (b == c) ≡ false → (b == n) ≡ false → (b == i) ≡ false → h' b ≡ h b

attach-Attached :
    (h : Nodes) (c n i : ℕ)
    → (c == n) ≡ false
    → (c == i) ≡ false
    → (n == i) ≡ false
    → Attached h (attach h c n i) c n i
unfolding attach write
attach-Attached h c n i cn ci ni = record {
  old = ground arith;
  new = ground arith;
  inner = ground arith;
  others = λ b bc bn bi. ground arith;
}

redirect_self :
    (c i : ℕ) (nd : Node)
    → (nd.first =? some c) ≡ false
    → (nd.second =? some c) ≡ false
    → redirect c i nd ≡ nd
redirect_self c i nd e f = rw (e, f)

-- A node whose child is not `c` is not redirected.
module _ (h : Nodes) (T : Tree) (c : ℕ) (rep : Rep h none T) where
  pub not_first : (b : ℕ) → has b T ≡ true → (h c).parent ≢ some b → ((h b).first =? some c) ≡ false
  not_first b m ne = elim (Bool-cases ((h b).first =? some c)) [
    | inl e ↦ absurd (ne (parent_of_first h T none b c rep m (=?_eq _ c e)))
    | inr e ↦ e
  ]

  pub not_second :
      (b : ℕ) → has b T ≡ true → (h c).parent ≢ some b → ((h b).second =? some c) ≡ false
  not_second b m ne = elim (Bool-cases ((h b).second =? some c)) [
    | inl e ↦ absurd (ne (parent_of_second h T none b c rep m (=?_eq _ c e)))
    | inr e ↦ e
  ]

  -- Exactly one child pointer of the parent leads to `c`.
  unfoldable pub OneChild : ℕ → Type 0
  OneChild g =
      (((h g).first ≡ some c) × (((h g).second =? some c) ≡ false))
      ⊎ ((((h g).first =? some c) ≡ false) × ((h g).second ≡ some c))

  one_first : (a : ℕ) → has a T ≡ true → (h a).first ≡ some c → OneChild a
  unfolding OneChild
  one_first a m f = elim (Bool-cases ((h a).second =? some c)) [
    | inl e ↦ absurd (first-ne-second h T none a c rep m f (=?_eq _ c e))
    | inr e ↦ inl (f, e)
  ]

  one_second : (a : ℕ) → has a T ≡ true → (h a).second ≡ some c → OneChild a
  unfolding OneChild
  one_second a m f = elim (Bool-cases ((h a).first =? some c)) [
    | inl e ↦ absurd (first-ne-second h T none a c rep m (=?_eq _ c e) f)
    | inr e ↦ inr (e, f)
  ]

  pub parent_facts :
      (g : ℕ) → has c T ≡ true → (h c).parent ≡ some g → (has g T ≡ true) × OneChild g
  parent_facts g m e = elim (parent_cases h T none c rep m) [
    | inl root ↦ absurd (top root)
    | inr (a, i, q, inl f) ↦ let ga : g ≡ a = cc in rw ga (i, one_first a i f)
    | inr (a, i, q, inr f) ↦ let ga : g ≡ a = cc in rw ga (i, one_second a i f)
  ]
    where
      top : c ≡ addr T → ⊥
      top root = let up : (h c).parent ≡ none = rw root (Rep-parent h T none rep) in cc

-- What relink does to the parent node and to the others.
unfoldable pub relinked : Nodes → (g c i : ℕ) → Nodes
relinked h g c i = if (h g).first =? some c then set_first h g (some i) else set_second h g (some i)

relinked_self :
    (h : Nodes) (T : Tree) (rep : Rep h none T) (h₃ : Nodes) (g c i : ℕ)
    → h₃ g ≡ h g
    → OneChild h T c rep g
    → relinked h₃ g c i g ≡ redirect c i (h g)
unfolding relinked OneChild set_first set_second write
relinked_self h T rep h₃ g c i same (inl (f, e)) = ground arith
relinked_self h T rep h₃ g c i same (inr (e, f)) = ground arith

pub relinked_ne : (h₃ : Nodes) (g c i b : ℕ) → (b == g) ≡ false → relinked h₃ g c i b ≡ h₃ b
unfolding relinked set_first set_second write
relinked_ne h₃ g c i b ne = ground arith

-- The nodes between the allocations of bsp_insert and its pointer writes.
pub record Ready (h : Nodes) (T : Tree) (c n i t : ℕ) (sp : Split) : Type 0 where
  pub rep : Rep h none T
  pub focused : has_leaf c T ≡ true
  pub no_new : has n T ≡ false
  pub no_inner : has i T ≡ false
  pub apart : (i == n) ≡ false
  pub inner : IsBranch h none i sp c n
  pub new : IsLeaf h none n t

module _ (h : Nodes) (T : Tree) (c n i t : ℕ) (sp : Split) (r : Ready h T c n i t sp) where
  ne_of_has : (a b : ℕ) → has a T ≡ true → has b T ≡ false → (a == b) ≡ false
  ne_of_has a b m out = elim (Bool-cases (a == b)) [
    | inl e ↦ let z : a ≡ b = (==_iff a b).0 e in let w : has b T ≡ true = rw (← z) m in cc
    | inr e ↦ e
  ]

  here : has c T ≡ true
  here = has_leaf-has c T r.focused

  pub attached : Attached h (attach h c n i) c n i
  attached =
      attach-Attached h c n i (ne_of_has c n here r.no_new) (ne_of_has c i here r.no_inner)
        (ground arith)

  attached_others : (b : ℕ) → has b T ≡ true → (b == c) ≡ false → attach h c n i b ≡ h b
  attached_others b m bc =
      attached.others b bc (ne_of_has b n m r.no_new) (ne_of_has b i m r.no_inner)

  pub Spliced-root : (h c).parent ≡ none → Spliced c sp i n t h (attach h c n i) T
  Spliced-root top = record {
    was_leaf = (leaf_ends h T none c r.rep r.focused).0;
    old = attached.old;
    rest = λ b m bc.
        attached_others b m bc
        ∙ sym (
            redirect_self c i (h b) (not_first h T c r.rep b m (λ e. cc))
              (not_second h T c r.rep b m (λ e. cc)));
    inner = ground (arith, attached.inner);
    new = ground (arith, attached.new);
    no_inner = r.no_inner;
    no_new = r.no_new;
    apart = r.apart;
  }

  module _ (g : ℕ) (up : (h c).parent ≡ some g) where
    facts : (has g T ≡ true) × OneChild h T c r.rep g
    facts = parent_facts h T c r.rep g here up

    gc : (g == c) ≡ false
    unfolding OneChild
    gc = elim (Bool-cases (g == c)) [
      | inl e ↦ let z : g ≡ c = (==_iff g c).0 e in absurd (ends (rw z at facts.1))
      | inr e ↦ e
    ]
      where
        ends : OneChild h T c r.rep c → ⊥
        ends (inl (f, _)) = cc ((leaf_ends h T none c r.rep r.focused).0)
        ends (inr (_, f)) = cc ((leaf_ends h T none c r.rep r.focused).1)

    abbrev h₃ : Nodes
    h₃ = attach h c n i

    away : (b : ℕ) → (b == g) ≡ false → relinked h₃ g c i b ≡ h₃ b
    away b ne = relinked_ne h₃ g c i b ne

    flip : (a b : ℕ) → (a == b) ≡ false → (b == a) ≡ false
    flip a b e = ground arith

    not_up : (b : ℕ) → (b == g) ≡ false → (h c).parent ≢ some b
    not_up b ne q = ground arith

    pub Spliced-child : Spliced c sp i n t h (relinked h₃ g c i) T
    Spliced-child = record {
      was_leaf = (leaf_ends h T none c r.rep r.focused).0;
      old = away c (flip g c gc) ∙ attached.old;
      rest = λ b m bc. elim (Bool-cases (b == g)) [
        | inl e ↦
            rw ((==_iff b g).0 e)
              (relinked_self h T r.rep h₃ g c i (attached_others g facts.0 gc) facts.1)
        | inr e ↦
            away b e
            ∙ attached_others b m bc
            ∙ sym (
                redirect_self c i (h b) (not_first h T c r.rep b m (not_up b e))
                  (not_second h T c r.rep b m (not_up b e)))
      ];
      inner = ground (arith, attached.inner, away i (flip g i (ne_of_has g i facts.0 r.no_inner)));
      new = ground (arith, attached.new, away n (flip g n (ne_of_has g n facts.0 r.no_new)));
      no_inner = r.no_inner;
      no_new = r.no_new;
      apart = r.apart;
    }

    pub outside_child :
        (b : ℕ) → has b T ≡ false → (b == n) ≡ false → (b == i) ≡ false → relinked h₃ g c i b ≡ h b
    outside_child b out bn bi =
        away b (flip g b (ne_of_has g b facts.0 out))
        ∙ attached.others b (flip c b (ne_of_has c b here out)) bn bi

  pub outside_root :
      (b : ℕ) → has b T ≡ false → (b == n) ≡ false → (b == i) ≡ false → attach h c n i b ≡ h b
  outside_root b out bn bi = attached.others b (swap (ne_of_has c b here out)) bn bi
    where
      swap : (c == b) ≡ false → (b == c) ≡ false
      swap e = ground arith

  -- The root pointer: it leads to the new branch if the leaf was the root.
  pub root_moves : (h c).parent ≡ none → c ≡ addr T
  root_moves up = elim (parent_cases h T none c r.rep here) [
    | inl e ↦ e
    | inr (a, _, q, _) ↦ absurd (clash a q)
  ]
    where
      clash : (a : ℕ) → (h c).parent ≡ some a → ⊥
      clash a q = cc

  pub root_stays : (g : ℕ) → (h c).parent ≡ some g → (addr T == c) ≡ false
  root_stays g up = elim (Bool-cases (addr T == c)) [
    | inl e ↦ absurd (clash ((==_iff _ c).0 e))
    | inr e ↦ e
  ]
    where
      clash : addr T ≡ c → ⊥
      clash e = let z : (h c).parent ≡ none = rw (← e) (Rep-parent h T none r.rep) in cc
