-- ===== src/Bsp/Remove/Destroyed.antt =====
-- bsp_destroy (src/wm/bsp.c) gives every node of a tree back to the pool.
use uwm.Base.{
  ℕ, zero, suc, ◌<◌, ◌≡◌, refl, sym, ap, ◌∙◌, inl, inr, true, false, Option, none, some, List, ◌∷◌,
  arith, ◌==◌, Link, Bool-cases, ==_iff, true_ne_false, contains,
}
use uwm.Bsp.{Node, State}
use uwm.Bsp.Pool.{node_free}
use uwm.Bsp.Pool.Chain.{Chain, node_free-Chain, node_free_others}
use uwm.Bsp.Tree.{Tree, leaf, branch, addr, has, depth, Rep}
use uwm.Bsp.Tree.Frame.{Rep-frame, has-addr}
use uwm.Bsp.Remove.{destroy}

-- The nodes of the tree in front of the list, the root first.
abbrev pub freed : Tree → List ℕ → List ℕ
freed (leaf a w) xs = a ∷ xs
freed (branch a sp l r) xs = a ∷ freed r (freed l xs)

contains-freed :
    (b : ℕ) (T : Tree) (xs : List ℕ)
    → has b T ≡ false
    → contains b xs ≡ false
    → contains b (freed T xs) ≡ false
contains-freed b (leaf a w) xs o e = ground arith
contains-freed b (branch a sp l r) xs o e =
    ground (arith, contains-freed b l xs, contains-freed b r (freed l xs))

-- bsp_destroy returns, and what it leaves.
abbrev pub Destroyed : State → Tree → List ℕ → Option State → Type 0
Destroyed s T free r =
    (s' : State) × (r ≡ some s')
    × Chain s'.nodes s'.freelist (freed T free)
    × ((b : ℕ) → has b T ≡ false → s'.nodes b ≡ s.nodes b)

-- No node of the tree is free.
abbrev pub AllTaken : Tree → List ℕ → Type 0
AllTaken T free = (b : ℕ) → has b T ≡ true → contains b free ≡ false

destroy_step :
    (k : ℕ) (s s' s'' : State) (a : ℕ)
    → destroy k s (s.nodes a).first ≡ some s'
    → destroy k s' (s'.nodes a).second ≡ some s''
    → destroy (suc k) s (some a) ≡ some (node_free s'' (some a))
unfolding destroy
destroy_step k s s' s'' a x y = rw (x, destroy) (rw y refl)

destroy_nothing : (k : ℕ) (s : State) (l : Link) → l ≡ none → destroy (suc k) s l ≡ some s
unfolding destroy
destroy_nothing k s l e = ap (destroy (suc k) s) e

freed_node :
    (s s' : State) (a : ℕ) (T : Tree) (free : List ℕ) (r : Option State)
    → has a T ≡ true
    → r ≡ some (node_free s' (some a))
    → Chain s'.nodes s'.freelist free
    → contains a free ≡ false
    → ((b : ℕ) → has b T ≡ false → s'.nodes b ≡ s.nodes b)
    → (s'' : State) × (r ≡ some s'')
      × Chain s''.nodes s''.freelist (a ∷ free)
      × ((b : ℕ) → has b T ≡ false → s''.nodes b ≡ s.nodes b)
freed_node s s' a T free r m e chain out same = (
  node_free s' (some a),
  e,
  node_free-Chain s' a free chain out,
  λ b o. node_free_others s' a b (apart b o) ∙ same b o,
)
  where
    apart : (b : ℕ) → has b T ≡ false → (b == a) ≡ false
    apart b o = elim (Bool-cases (b == a)) [
      | inl q ↦ absurd (true_ne_false (sym m ∙ ap (λ x. has x T) (sym ((==_iff b a).0 q)) ∙ o))
      | inr q ↦ q
    ]

-- With more fuel than the tree has nodes, bsp_destroy returns; the free list is then every node of
-- the tree, once, in front of the nodes that were free, and no other node has changed.
pub destroy-Destroyed :
    (k : ℕ) (s : State) (T : Tree) (p : Link) (free : List ℕ)
    → Rep s.nodes p T
    → Chain s.nodes s.freelist free
    → AllTaken T free
    → depth T < k
    → Destroyed s T free (destroy k s (some (addr T)))
destroy-Destroyed zero s T p free v c taken lt = absurd (omega arith)
destroy-Destroyed (suc zero) s (leaf a w) p free v c taken lt = absurd (omega arith)
destroy-Destroyed (suc (suc k)) s (leaf a w) p free v c taken lt =
    freed_node s s a (leaf a w) free _ (has-addr (leaf a w))
      (destroy_step (suc k) s s s a (destroy_nothing k s _ v.first)
        (destroy_nothing k s _ v.second))
      c (taken a (has-addr (leaf a w))) (λ b o. refl)
destroy-Destroyed (suc k) s (branch a sp l r) p free (n, al, ar, d, vl, vr) c taken lt =
    left
      (λ s' v' c' taken'.
        destroy-Destroyed k s' r (some a) (freed l free) v' c' taken' (omega arith))
      (destroy-Destroyed k s l (some a) free vl c (λ b m. taken b (in_l b m)) (omega arith))
  where
    in_l : (b : ℕ) → has b l ≡ true → has b (branch a sp l r) ≡ true
    in_l b m = ground arith

    in_r : (b : ℕ) → has b r ≡ true → has b (branch a sp l r) ≡ true
    in_r b m = ground arith

    out_l : (b : ℕ) → has b (branch a sp l r) ≡ false → has b l ≡ false
    out_l b m = ground arith

    out_r : (b : ℕ) → has b (branch a sp l r) ≡ false → has b r ≡ false
    out_r b m = ground arith

    not_l : (b : ℕ) → has b r ≡ true → has b l ≡ false
    not_l b m = elim (Bool-cases (has b l)) [
      | inl e ↦ absurd (true_ne_false (sym m ∙ d b e))
      | inr e ↦ e
    ]

    right :
        (s' : State)
        → destroy k s (some (addr l)) ≡ some s'
        → ((b : ℕ) → has b l ≡ false → s'.nodes b ≡ s.nodes b)
        → Destroyed s' r (freed l free) (destroy k s' (some (addr r)))
        → Destroyed s (branch a sp l r) free (destroy (suc k) s (some a))
    right s' e same (s'', e', c', same') =
        freed_node s s'' a (branch a sp l r) (freed r (freed l free)) _ (has-addr (branch a sp l r))
          (destroy_step k s s' s'' a (ap (destroy k s) n.first ∙ e)
            (ap (destroy k s') (ap (λ (x : Node). x.second) (same a al) ∙ n.second) ∙ e'))
          c'
          (contains-freed a r (freed l free) ar
            (contains-freed a l free al (taken a (has-addr (branch a sp l r)))))
          (λ b o. same' b (out_r b o) ∙ same b (out_l b o))

    left :
        ((s' : State)
          → Rep s'.nodes (some a) r
          → Chain s'.nodes s'.freelist (freed l free)
          → AllTaken r (freed l free)
          → Destroyed s' r (freed l free) (destroy k s' (some (addr r))))
        → Destroyed s l free (destroy k s (some (addr l)))
        → Destroyed s (branch a sp l r) free (destroy (suc k) s (some a))
    left on_right (s', e, c', same) = right s' e same (
        on_right s' (Rep-frame s.nodes s'.nodes r (some a) vr (λ b m. same b (not_l b m))) c'
          (λ b m. contains-freed b l free (not_l b m) (taken b (in_r b m))))
