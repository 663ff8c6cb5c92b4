-- ===== src/Arrange/Settled.antt =====
-- How often bsp_node_apply_geometry (src/wm/bsp_arrange.c) asks a window for its size.
use uwm.Base.{
  ℕ, zero, suc, ◌⊎◌, ◌≡◌, refl, sym, subst, inl, inr, is_some, ◌∙◌, ap, Bool, true, false, not,
  ◌||◌, ◌&&◌, Option, none, some, List, [], ◌∷◌, ◌++◌, arith, Bool-cases, if◌then◌else◌,
}
use uwm.Base.Int.{ℤ}
use uwm.Bsp.{Node}
use uwm.Arrange.{eqb_ℤ}
use uwm.Arrange.Apply.{
  Surface, Window, Call, set_position, set_tiled, xwayland_configure, toplevel_set_size,
  needs_configure, surface_moved, request_size, apply_size, node_apply_geometry,
}

eqb_refl : (a : ℤ) → eqb_ℤ a a ≡ true
eqb_refl a = ground arith

-- The window once its scene node has been moved.
abbrev pub moved : Node → Window → Window
moved n t = record t { scene_x = n.x; scene_y = n.y }

-- The branches of apply_size.
abbrev sized : Node → Window → Bool → Window × List Call
sized n t true = (
  (request_size n t).0,
  (request_size n t).1 ++ (if not t.is_xwayland && t.has_xdg then set_tiled ∷ [] else []),
)
sized n t false = (t, [])

apply_size-sized : (n : Node) (t : Window) → apply_size n t ≡ sized n t (needs_configure n t)
unfolding apply_size
apply_size-sized n t = elim (Bool-cases (needs_configure n t)) [
  | inl e ↦ rw (e, apply_size) refl
  | inr e ↦ rw (e, apply_size) refl
]

apply_size_idle : (n : Node) (t : Window) → needs_configure n t ≡ false → apply_size n t ≡ (t, [])
apply_size_idle n t e = apply_size-sized n t ∙ ap (sized n t) e

apply_size_asks :
    (n : Node) (t : Window) → needs_configure n t ≡ true → (apply_size n t).0 ≡ (request_size n t).0
apply_size_asks n t e =
    ap (λ (r : Window × List Call). r.0) (apply_size-sized n t ∙ ap (sized n t) e)

-- The position does not matter to the size.
apply_geometry-size : (n : Node) (t : Window) → (node_apply_geometry n t).0 ≡ (apply_size n t).0
unfolding node_apply_geometry
apply_geometry-size n t =
    either (not (eqb_ℤ n.x t.scene_x) || not (eqb_ℤ n.y t.scene_y)) (apply_size n t)
  where
    either :
        (c : Bool) (r : Window × List Call)
        → (if◌then◌else◌ {A = Window × List Call} c (r.0, set_position n.x n.y ∷ r.1) (r.0, r.1)).0
          ≡ r.0
    either true r = refl
    either false r = refl

in_place : (n : Node) (t : Window) → node_apply_geometry n (moved n t) ≡ apply_size n (moved n t)
unfolding node_apply_geometry
in_place n t =
    ap
      (λ (c : Bool × Bool).
        if not c.0 || not c.1
        then ((apply_size n (moved n t)).0, set_position n.x n.y ∷ (apply_size n (moved n t)).1)
        else ((apply_size n (moved n t)).0, (apply_size n (moved n t)).1))
      (λ i. (eqb_refl n.x i, eqb_refl n.y i))

request_size-xdg :
    (n : Node) (t : Window)
    → t.is_xwayland ≡ false
    → (request_size n t).0 ≡ record t { req_width = n.width; req_height = n.height }
unfolding request_size toplevel_set_size
request_size-xdg n t e =
    ap
      (λ c.
        (if c && is_some t.xwayland_surface
          then (t, xwayland_configure n.x n.y n.width n.height ∷ [])
          else toplevel_set_size t n.width n.height).0)
      e

not_moved :
    (n : Node) (t : Window) (s : Option Surface)
    → t.is_xwayland ≡ false
    → surface_moved n t s ≡ false
unfolding surface_moved
not_moved n t none e = refl
not_moved n t (some s) e = rw e refl

-- A size that has been requested is not requested again.
requested :
    (n : Node) (t : Window)
    → t.is_xwayland ≡ false
    → needs_configure n (record t { req_width = n.width; req_height = n.height }) ≡ false
unfolding needs_configure
requested n t e =
    rw (eqb_refl n.width, eqb_refl n.height)
      (not_moved n (record t { req_width = n.width; req_height = n.height }) t.xwayland_surface e)

settled :
    (n : Node) (t : Window) → t.is_xwayland ≡ false → needs_configure n (apply_size n t).0 ≡ false
settled n t e = elim (Bool-cases (needs_configure n t)) [
  | inl c ↦
      ap (λ u. needs_configure n u) (apply_size_asks n t c ∙ request_size-xdg n t e)
      ∙ requested n t e
  | inr c ↦ ap (λ u. needs_configure n u.0) (apply_size_idle n t c) ∙ c
]

needs_configure-moved :
    (n : Node) (t : Window) → needs_configure n (moved n t) ≡ needs_configure n t
unfolding needs_configure
needs_configure-moved n t =
    ap (λ m. not (eqb_ℤ n.width t.req_width) || (not (eqb_ℤ n.height t.req_height) || m))
      (same t.xwayland_surface)
  where
    same : (s : Option Surface) → surface_moved n (moved n t) s ≡ surface_moved n t s
    same none = refl
    same (some s) = refl

-- A window of the xdg shell is configured once: when the scene node has been moved, the next
-- application of the same geometry calls nothing.
pub node_apply_geometry_settles :
    (n : Node) (t : Window)
    → t.is_xwayland ≡ false
    → let t' = moved n (node_apply_geometry n t).0 in node_apply_geometry n t' ≡ (t', [])
node_apply_geometry_settles n t e =
    let u = (node_apply_geometry n t).0 in
    in_place n u
    ∙ apply_size_idle n (moved n u) (
        needs_configure-moved n u
        ∙ ap (λ w. needs_configure n w) (apply_geometry-size n t)
        ∙ settled n t e)

-- The requested size is not the tile's, in one of its two dimensions.
abbrev pub Differs : Node → Window → Type 0
Differs n t = (eqb_ℤ n.width t.req_width ≡ false) ⊎ (eqb_ℤ n.height t.req_height ≡ false)

needed : (n : Node) (t : Window) → Differs n t → needs_configure n t ≡ true
unfolding needs_configure
needed n t (inl ne) = rw ne refl
needed n t (inr ne) = rw ne (either_one (eqb_ℤ n.width t.req_width))
  where
    either_one : (b : Bool) → (not b || true) ≡ true
    either_one true = refl
    either_one false = refl

asks :
    (n : Node) (t : Window) {s : Surface}
    → t.is_xwayland ≡ true
    → t.xwayland_surface ≡ some s
    → Differs n t
    → apply_size n t ≡ (t, xwayland_configure n.x n.y n.width n.height ∷ [])
unfolding request_size
asks n t x e d = apply_size-sized n t ∙ ap (sized n t) (needed n t d) ∙ rw (x, e) refl

-- The window behind `count` applications of the geometry, each followed by the move of its node.
abbrev pub applied : Node → (count : ℕ) → Window → Window
applied n zero t = t
applied n (suc count) t = moved n (node_apply_geometry n (applied n count t)).0

abbrev pub node_move : Node → Window → List Call
node_move n t =
    if not (eqb_ℤ n.x t.scene_x) || not (eqb_ℤ n.y t.scene_y) then set_position n.x n.y ∷ [] else []

configures :
    (n : Node) (t : Window) (s : Surface)
    → t.is_xwayland ≡ true
    → t.xwayland_surface ≡ some s
    → Differs n t
    → node_apply_geometry n t
      ≡ (t, node_move n t ++ xwayland_configure n.x n.y n.width n.height ∷ [])
unfolding node_apply_geometry
configures n t s x e d =
    ap
      (λ r.
        if not (eqb_ℤ n.x t.scene_x) || not (eqb_ℤ n.y t.scene_y)
        then (r.0, set_position n.x n.y ∷ r.1)
        else (r.0, r.1))
      (asks n t x e d)
    ∙ split (not (eqb_ℤ n.x t.scene_x) || not (eqb_ℤ n.y t.scene_y))
  where
    split :
        (c : Bool)
        → (if◌then◌else◌ {A = Window × List Call} c
            (t, set_position n.x n.y ∷ xwayland_configure n.x n.y n.width n.height ∷ [])
            (t, xwayland_configure n.x n.y n.width n.height ∷ []))
          ≡ (
            t,
            (if c then set_position n.x n.y ∷ [] else [])
                ++ xwayland_configure n.x n.y n.width n.height ∷ [],
          )
    split true = refl
    split false = refl

-- An Xwayland window whose requested width or height is not its tile's is configured by every
-- application of the geometry, however many have come before, since none of them records the size;
-- only a node that is not in its place is moved before that.
pub node_apply_geometry_again :
    (n : Node) (t : Window) (s : Surface) (count : ℕ)
    → t.is_xwayland ≡ true
    → t.xwayland_surface ≡ some s
    → Differs n t
    → let t' = applied n count t in
      node_apply_geometry n t'
      ≡ (t', node_move n t' ++ xwayland_configure n.x n.y n.width n.height ∷ [])
node_apply_geometry_again n t s count x e d =
    let k = kept count in configures n (applied n count t) s (k.0 ∙ x) (k.1 ∙ e) k.2
  where
    kept :
        (count : ℕ)
        → ((applied n count t).is_xwayland ≡ t.is_xwayland)
          × ((applied n count t).xwayland_surface ≡ t.xwayland_surface)
          × Differs n (applied n count t)
    kept zero = (refl, refl, d)
    kept (suc count) =
        let k = kept count in
        let u = applied n count t in
        let same : (node_apply_geometry n u).0 ≡ u =
          ap (λ (r : Window × List Call). r.0) (configures n u s (k.0 ∙ x) (k.1 ∙ e) k.2) in
        (
          ap (λ (w : Window). w.is_xwayland) same ∙ k.0,
          ap (λ (w : Window). w.xwayland_surface) same ∙ k.1,
          subst (Differs n) (sym (ap (moved n) same)) k.2,
        )
