-- ===== src/Arrange/Enabled.antt =====
-- Which windows are enabled after a list of actions of bsp_arrange (src/wm/bsp_arrange.c).
use uwm.Base.{
  ℕ, ◌≡◌, refl, sym, ap, subst, ◌∙◌, inl, inr, Bool, true, false, not, ◌||◌, none, some, List, [],
  ◌∷◌, ◌++◌, map, if◌then◌else◌, Link, ◌==◌, ◌=?◌, arith, Bool-cases, ==_iff, contains,
}
use uwm.Base.Int.{ℤ}
use uwm.Arrange.{eqb_ℤ}
use uwm.Arrange.Place.{Effect, apply_geometry, update_visibility}
use uwm.Arrange.Walked.{OnlyGeometry}
use uwm.Arrange.Workspaces.{
  Desk, Action, enable, move, resize, tile, borders, is_tiled, show_floating, show_one, show_all,
  show_active,
}

module _ (seen : (node t : ℕ) → Bool → Bool) where
  -- Is the window's scene node enabled after the actions, if it was `b` before? `seen a t b` is what
  -- update_layout_visibility of the node `a` makes of `b` at the window `t`.
  unfoldable pub enabled : List Action → ℕ → Bool → Bool
  enabled [] t b = b
  enabled (enable u c ∷ acts) t b = enabled acts t (if t == u then c else b)
  enabled (move u x y ∷ acts) t b = enabled acts t b
  enabled (resize u w h ∷ acts) t b = enabled acts t b
  enabled (tile (apply_geometry a) ∷ acts) t b = enabled acts t b
  enabled (tile (update_visibility a) ∷ acts) t b = enabled acts t (seen a t b)
  enabled (borders ∷ acts) t b = enabled acts t b

  pub enabled-append :
      (acts bs : List Action) (t : ℕ) (b : Bool)
      → enabled (acts ++ bs) t b ≡ enabled bs t (enabled acts t b)
  unfolding enabled
  enabled-append [] bs t b = refl
  enabled-append (enable u c ∷ acts) bs t b = enabled-append acts bs t (if t == u then c else b)
  enabled-append (move u x y ∷ acts) bs t b = enabled-append acts bs t b
  enabled-append (resize u w h ∷ acts) bs t b = enabled-append acts bs t b
  enabled-append (tile (apply_geometry a) ∷ acts) bs t b = enabled-append acts bs t b
  enabled-append (tile (update_visibility a) ∷ acts) bs t b = enabled-append acts bs t (seen a t b)
  enabled-append (borders ∷ acts) bs t b = enabled-append acts bs t b

  pub enabled-tiles :
      (es : List Effect) (t : ℕ) (b : Bool) → OnlyGeometry es → enabled (map tile es) t b ≡ b
  unfolding enabled
  enabled-tiles [] t b o = refl
  enabled-tiles (apply_geometry a ∷ es) t b o = enabled-tiles es t b o
  enabled-tiles (update_visibility a ∷ es) t b o = absurd o

  pub enabled_borders : (t : ℕ) (b : Bool) → enabled (borders ∷ []) t b ≡ b
  unfolding enabled
  enabled_borders t b = refl

  -- The floating windows do not matter to a tiled one.
  pub enabled-floating :
      (d : Desk) (ts : List ℕ) (t : ℕ) (b : Bool)
      → contains t ts ≡ false
      → enabled (show_floating d ts) t b ≡ b
  unfolding enabled show_floating
  enabled-floating d [] t b o = refl
  enabled-floating d (u ∷ ts) t b o =
      ap (λ c. enabled (show_floating d ts) t (if c then true else b)) (head o)
      ∙ enabled-floating d ts t b (tail o)
    where
      head : contains t (u ∷ ts) ≡ false → (t == u) ≡ false
      head o = ground arith

      tail : contains t (u ∷ ts) ≡ false → contains t ts ≡ false
      tail o = ground arith

  module _ (x y width height : ℤ) (t : ℕ) where
    -- The branches of the loop's body.
    abbrev round : (tiled shown sized : Bool) → ℕ → List Action
    round tiled shown sized u =
        if not tiled
        then []
        else if shown
        then move u x y ∷ ((if sized then resize u width height ∷ [] else []) ++ enable u true ∷ [])
        else enable u false ∷ []

    self : (c b : Bool) → (if t == t then c else b) ≡ c
    self c b = ap (λ e. if e then c else b) ((==_iff t t).1 refl)

    enabled_self : (shown sized b : Bool) → enabled (round true shown sized t) t b ≡ shown
    unfolding enabled
    enabled_self true true b = self true b
    enabled_self true false b = self true b
    enabled_self false sized b = self false b

    enabled-other :
        (tiled shown sized b : Bool) (u : ℕ)
        → (t == u) ≡ false
        → enabled (round tiled shown sized u) t b ≡ b
    unfolding enabled
    enabled-other false shown sized b u ne = refl
    enabled-other true true true b u ne = ap (λ e. if e then true else b) ne
    enabled-other true true false b u ne = ap (λ e. if e then true else b) ne
    enabled-other true false sized b u ne = ap (λ e. if e then false else b) ne

    module _ (d : Desk) (active : Link) (tiled : is_tiled d t ≡ true) where
      abbrev differs : Bool
      differs = not (eqb_ℤ (d.req_width t) width) || not (eqb_ℤ (d.req_height t) height)

      shown_one :
          (b : Bool) → enabled (show_one d active x y width height t) t b ≡ (active =? some t)
      unfolding show_one
      shown_one b =
          ap (λ c. enabled (round c (active =? some t) differs t) t b) tiled
          ∙ enabled_self (active =? some t) differs b

      hidden_one :
          (u : ℕ) (b : Bool)
          → (t == u) ≡ false
          → enabled (show_one d active x y width height u) t b ≡ b
      unfolding show_one
      hidden_one u b ne = enabled-other (is_tiled d u) (active =? some u) _ b u ne

      pub after_all :
          (ts : List ℕ) (b : Bool)
          → enabled (show_all d active x y width height ts) t b
            ≡ (if contains t ts then active =? some t else b)
      unfolding show_all enabled
      after_all [] b = refl
      after_all (u ∷ ts) b =
          enabled-append (show_one d active x y width height u)
            (show_all d active x y width height ts) t b
          ∙ after_all ts (enabled (show_one d active x y width height u) t b)
          ∙ (elim (Bool-cases (t == u)) [
            | inl e ↦
                ap (λ c. if contains t ts then active =? some t else c)
                  (subst
                    (λ u. enabled (show_one d active x y width height u) t b ≡ (active =? some t))
                    ((==_iff t u).0 e) (shown_one b))
                ∙ same (contains t ts)
                ∙ ap (λ c. if c || contains t ts then active =? some t else b) (sym e)
            | inr e ↦
                ap (λ c. if contains t ts then active =? some t else c) (hidden_one u b e)
                ∙ ap (λ c. if c || contains t ts then active =? some t else b) (sym e)
          ])
        where
          same :
              (c : Bool) → (if c then active =? some t else active =? some t) ≡ (active =? some t)
          same true = refl
          same false = refl

      pub after_active : (l : Link) → enabled (show_active l x y) t (l =? some t) ≡ (l =? some t)
      unfolding show_active enabled
      after_active none = refl
      after_active (some a) = ground arith
