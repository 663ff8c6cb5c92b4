-- ===== src/Bsp/Forest/Leaves.antt =====
-- The leaves of a tree of src/wm/bsp.c after an insertion and after a removal.
use uwm.Base.{
  ℕ, suc, ◌*◌, length, length-append, ◌≡◌, refl, sym, subst, ◌∙◌, ◌⊎◌, inl, inr, true, false, some,
  arith, ◌==◌, Link, Bool-cases, ==_iff,
}
use uwm.Bsp.{Nodes, Split}
use uwm.Bsp.Tree.{Tree, leaf, branch, addr, has, has_leaf, windows, depth, Rep}
use uwm.Bsp.Tree.Frame.{has_leaf-has, has-addr}
use uwm.Bsp.Tree.Graft.{beside}
use uwm.Bsp.Tree.Prune.{prune, resplit, prune_same}
use uwm.Bsp.Tree.Gone.{leaf_root}

pub leaf_stays :
    (c : ℕ) (sp : Split) (i n t b : ℕ) (T : Tree)
    → has_leaf b T ≡ true
    → has_leaf b (beside c sp i n t T) ≡ true
unfolding beside
leaf_stays c sp i n t b (leaf a w) m = ground arith
leaf_stays c sp i n t b (branch a sp' l r) m =
    ground (arith, leaf_stays c sp i n t b l, leaf_stays c sp i n t b r)

pub leaf-of_beside :
    (c : ℕ) (sp : Split) (i n t b : ℕ) (T : Tree)
    → has_leaf b (beside c sp i n t T) ≡ true
    → (has_leaf b T ≡ true) ⊎ (b ≡ n)
unfolding beside
leaf-of_beside c sp i n t b (leaf a w) m = ground arith
leaf-of_beside c sp i n t b (branch a sp' l r) m =
    ground (arith, leaf-of_beside c sp i n t b l, leaf-of_beside c sp i n t b r)

pub new-leaf_shows :
    (c : ℕ) (sp : Split) (i n t : ℕ) (h : Nodes) (T : Tree) (p : Link)
    → has_leaf c T ≡ true
    → Rep h p (beside c sp i n t T)
    → (h n).toplevel ≡ some t
unfolding beside
new-leaf_shows c sp i n t h (leaf a w) p m v =
    let e : (a == c) ≡ true = ground arith in
    let v' : Rep h p (branch i sp (leaf a w) (leaf n t)) = rw e at v in v'.5.toplevel
new-leaf_shows c sp i n t h (branch a sp' l r) p m (_, _, _, _, vl, vr) =
    elim (Bool-cases (has_leaf c l)) [
      | inl x ↦ new-leaf_shows c sp i n t h l (some a) x vl
      | inr x ↦ new-leaf_shows c sp i n t h r (some a) (ground arith) vr
    ]

has_leaf-resplit : (b : ℕ) (sp : Split) (T : Tree) → has_leaf b (resplit sp T) ≡ has_leaf b T
has_leaf-resplit b sp (leaf a w) = refl
has_leaf-resplit b sp (branch a sp' l r) = refl

pub has_leaf-prune : (b c : ℕ) (T : Tree) → has_leaf b (prune c T) ≡ true → has_leaf b T ≡ true
unfolding prune
has_leaf-prune b c (leaf a w) m = m
has_leaf-prune b c (branch a sp l r) m = ground (
  arith,
  has_leaf-prune b c l,
  has_leaf-prune b c r,
  has_leaf-resplit b sp l,
  has_leaf-resplit b sp r,
)

-- Only the leaf `c` goes.
pub other-leaf_stays :
    (h : Nodes) (b c t : ℕ) (T : Tree) (p : Link)
    → Rep h p T
    → has_leaf c T ≡ true
    → (h c).toplevel ≡ some t
    → (b == c) ≡ false
    → has_leaf b T ≡ true
    → has_leaf b (prune c T) ≡ true
unfolding prune
other-leaf_stays h b c t (leaf a w) p v mc s ne m = m
other-leaf_stays h b c t (branch a sp l r) p (n, al, ar, d, vl, vr) mc s ne m =
    elim (Bool-cases (addr l == c)) [
      | inl e ↦
          let q : addr l ≡ c = (==_iff (addr l) c).0 e in
          let z : l ≡ leaf c t = leaf_root h l (some a) c t vl (in_left (at_left q)) q s in
          let y : has_leaf b l ≡ false = subst (λ U. has_leaf b U ≡ false) (sym z) ne in
          rw e (has_leaf-resplit b sp r ∙ other_side y m)
      | inr e ↦ elim (Bool-cases (addr r == c)) [
        | inl f ↦
            let q : addr r ≡ c = (==_iff (addr r) c).0 f in
            let z : r ≡ leaf c t = leaf_root h r (some a) c t vr (in_right (at_right q)) q s in
            let y : has_leaf b r ≡ false = subst (λ U. has_leaf b U ≡ false) (sym z) ne in
            rw (e, f) (has_leaf-resplit b sp l ∙ first_side y m)
        | inr f ↦
            rw (e, f)
              (inside (λ x. other-leaf_stays h b c t l (some a) vl x s ne)
                (λ x. other-leaf_stays h b c t r (some a) vr x s ne) (Bool-cases (has_leaf c l)))
      ]
    ]
  where
    at_left : addr l ≡ c → has c l ≡ true
    at_left q = subst (λ x. has x l ≡ true) q (has-addr l)

    at_right : addr r ≡ c → has c r ≡ true
    at_right q = subst (λ x. has x r ≡ true) q (has-addr r)

    in_left : has c l ≡ true → has_leaf c l ≡ true
    in_left q = elim (Bool-cases (has_leaf c l)) [
      | inl x ↦ x
      | inr x ↦ cc (d c q, has_leaf-has c r (ground arith))
    ]

    in_right : has c r ≡ true → has_leaf c r ≡ true
    in_right q = elim (Bool-cases (has_leaf c r)) [
      | inl x ↦ x
      | inr x ↦ cc (d c (has_leaf-has c l (ground arith)), q)
    ]

    other_side : has_leaf b l ≡ false → has_leaf b (branch a sp l r) ≡ true → has_leaf b r ≡ true
    other_side y m = ground arith

    first_side : has_leaf b r ≡ false → has_leaf b (branch a sp l r) ≡ true → has_leaf b l ≡ true
    first_side y m = ground arith

    out_of_left : has_leaf c l ≡ false → has c l ≡ false
    out_of_left x = elim (Bool-cases (has c l)) [ inl q ↦ cc (in_left q) | inr q ↦ q ]

    inside :
        (has_leaf c l ≡ true → has_leaf b l ≡ true → has_leaf b (prune c l) ≡ true)
        → (has_leaf c r ≡ true → has_leaf b r ≡ true → has_leaf b (prune c r) ≡ true)
        → (has_leaf c l ≡ true) ⊎ (has_leaf c l ≡ false)
        → has_leaf b (branch a sp (prune c l) (prune c r)) ≡ true
    inside lower upper (inl x) =
        rw (prune_same c r (d c (has_leaf-has c l x))) (ground (arith, lower x))
    inside lower upper (inr x) =
        let y : has_leaf c r ≡ true = ground arith in
        rw (prune_same c l (out_of_left x)) (ground (arith, upper y))

-- A tree of `n` leaves has `2 * n - 1` nodes.
pub depth-windows : (T : Tree) → suc (depth T) ≡ 2 * length (windows T)
depth-windows (leaf a w) = refl
depth-windows (branch a sp l r) =
    omega (arith, depth-windows l, depth-windows r, length-append (windows l) (windows r))
