-- ===== src/Arrange/Shown.antt =====
-- Which windows bsp_arrange (src/wm/bsp_arrange.c) shows in monocle mode.
use uwm.Base.{
  ℕ, ◌<◌, ◌≡◌, refl, ap, ◌∙◌, Bool, true, false, Option, none, some, List, [], ◌∷◌, ◌++◌, map,
  if◌then◌else◌, ◌=?◌, contains, sym, subst, ◌⊎◌, inl, inr, not, ◌&&◌, Link, Bool-cases,
  true_ne_false, if_true, if_false,
}
use uwm.Base.Members.{in_cons}
use uwm.Base.Int.{ℤ, pos, ◌+ℤ◌, ◌-ℤ◌, ◌*ℤ◌}
use uwm.Bsp.{Nodes, Float}
use uwm.Bsp.Tree.{Tree, addr, depth, Rep}
use uwm.Arrange.{at_least_one}
use uwm.Arrange.Place.{Effect, arrange_node}
use uwm.Arrange.Walked.{OnlyGeometry, Within, Walked, arrange_node-Walked}
use uwm.Arrange.Workspaces.{
  Desk, Action, tile, borders, is_tiled, is_tiled_link, first_tiled, active_tiled, show_floating,
  show_all, show_active, arrange_root, arrange,
}
use uwm.Arrange.Enabled.{
  enabled, enabled-append, enabled-tiles, enabled_borders, enabled-floating, after_all,
  after_active,
}

-- Neither floating nor fullscreen.
abbrev pub IsFree : Desk → ℕ → Type 0
IsFree d t = (d.tiles.floating t ≡ false) × (d.tiles.fullscreen t ≡ false)

-- The pointer does not name a window that is free.
abbrev pub NotFree : Desk → Link → Type 0
NotFree d l = (t : ℕ) → l ≡ some t → ¬ IsFree d t

-- The window to be shown: the focused one if it is free, or else the one focused before, or else the
-- first free one of the list of tiled windows.
pub data Active (d : Desk) (r : Link) : Type 0 where
  by_focus : (t : ℕ) → r ≡ some t → d.focused ≡ some t → IsFree d t → Active d r
  by_last :
      (t : ℕ) → r ≡ some t → NotFree d d.focused → d.last_focused ≡ some t → IsFree d t → Active d r
  by_order :
      (pre : List ℕ) (t : ℕ) (post : List ℕ)
      → r ≡ some t
      → NotFree d d.focused
      → NotFree d d.last_focused
      → d.toplevels ≡ pre ++ t ∷ post
      → ((u : ℕ) → contains u pre ≡ true → ¬ IsFree d u)
      → IsFree d t
      → Active d r
  by_default :
      r ≡ none
      → NotFree d d.focused
      → NotFree d d.last_focused
      → ((u : ℕ) → contains u d.toplevels ≡ true → ¬ IsFree d u)
      → Active d r

is_tiled-IsFree : (d : Desk) (t : ℕ) → is_tiled d t ≡ true → IsFree d t
unfolding is_tiled
is_tiled-IsFree d t = both (d.tiles.floating t) (d.tiles.fullscreen t)
  where
    both : (b c : Bool) → (not b && not c) ≡ true → (b ≡ false) × (c ≡ false)
    both true c e = absurd (true_ne_false (sym e))
    both false true e = absurd (true_ne_false (sym e))
    both false false e = (refl, refl)

IsFree-is_tiled : (d : Desk) (t : ℕ) → IsFree d t → is_tiled d t ≡ true
unfolding is_tiled
IsFree-is_tiled d t (e, f) = rw (e, f) refl

not-IsFree : (d : Desk) (t : ℕ) → is_tiled d t ≡ false → ¬ IsFree d t
not-IsFree d t e v = true_ne_false (sym (IsFree-is_tiled d t v) ∙ e)

-- The test of a pointer.
link_lem :
    (d : Desk) (l : Link)
    → ((t : ℕ) × (l ≡ some t) × IsFree d t × (is_tiled_link d l ≡ true))
      ⊎ (NotFree d l × (is_tiled_link d l ≡ false))
unfolding is_tiled_link
link_lem d none = inr (λ t e. cc, refl)
link_lem d (some t) = elim (Bool-cases (is_tiled d t)) [
  | inl e ↦ inl (t, refl, is_tiled-IsFree d t e, e)
  | inr e ↦ inr (λ u q v. let z : t ≡ u = cc in not-IsFree d t e (subst (IsFree d) (sym z) v), e)
]

first_lem :
    (d : Desk) (ts : List ℕ)
    → ((pre : List ℕ) × (t : ℕ) × (post : List ℕ) × (first_tiled d ts ≡ some t)
        × (ts ≡ pre ++ t ∷ post)
        × ((u : ℕ) → contains u pre ≡ true → ¬ IsFree d u)
        × IsFree d t)
      ⊎ ((first_tiled d ts ≡ none) × ((u : ℕ) → contains u ts ≡ true → ¬ IsFree d u))
unfolding first_tiled
first_lem d [] = inr (refl, λ u m. absurd (true_ne_false (sym m)))
first_lem d (t ∷ ts) = elim (Bool-cases (is_tiled d t)) [
  | inl e ↦
      inl (
        [],
        t,
        ts,
        if_true _ _ e,
        refl,
        λ u m. absurd (true_ne_false (sym m)),
        is_tiled-IsFree d t e,
      )
  | inr e ↦ elim (first_lem d ts) [
    | inl (pre, u, post, q, z, none_before, v) ↦
        inl (t ∷ pre, u, post, if_false _ _ e ∙ q, ap (λ l. t ∷ l) z, busy e pre none_before, v)
    | inr (q, none_at_all) ↦ inr (if_false _ _ e ∙ q, busy e ts none_at_all)
  ]
]
  where
    busy :
        is_tiled d t ≡ false
        → (l : List ℕ) → ((u : ℕ) → contains u l ≡ true → ¬ IsFree d u)
        → (u : ℕ) → contains u (t ∷ l) ≡ true
        → ¬ IsFree d u
    busy e l h u m v = elim (in_cons u t l m) [
      | inl q ↦ not-IsFree d t e (subst (IsFree d) q v)
      | inr m ↦ h u m v
    ]

active_tiled-Active : (d : Desk) → Active d (active_tiled d)
unfolding active_tiled
active_tiled-Active d = elim (link_lem d d.focused) [
  | inl (t, q, v, e) ↦ by_focus t (if_true _ _ e ∙ q) q v
  | inr (nf, e) ↦ elim (link_lem d d.last_focused) [
    | inl (t, q, v, f) ↦ by_last t (if_false _ _ e ∙ if_true _ _ f ∙ q) nf q v
    | inr (nl, f) ↦ elim (first_lem d d.toplevels) [
      | inl (pre, t, post, q, z, h, v) ↦
          by_order pre t post (if_false _ _ e ∙ if_false _ _ f ∙ q) nf nl z h v
      | inr (q, h) ↦ by_default (if_false _ _ e ∙ if_false _ _ f ∙ q) nf nl h
    ]
  ]
]

-- bsp_arrange of a workspace in monocle mode returns: one window is the active one, and of the free
-- windows of the list that one alone is shown, whatever update_layout_visibility would do.
abbrev pub ShowsActive : Desk → Option (Nodes × List Action) → Type 0
ShowsActive d r =
    (active : Link) × (h' : Nodes) × (acts : List Action) × Active d active
    × (r ≡ some (h', acts))
    × ((seen : (node t : ℕ) → Bool → Bool) (t : ℕ) (b : Bool)
        → IsFree d t
        → contains t d.toplevels ≡ true
        → contains t d.floating_windows ≡ false
        → enabled seen acts t b ≡ (active =? some t))

module _ (scale : ℤ → Float → ℤ) (k gap : ℕ) (d : Desk) (h : Nodes) where
  arrange_eq :
      (a : ℕ) (x y width height : ℤ)
      → d.has_output ≡ true
      → d.root ≡ some a
      → arrange scale k (pos gap) d h x y width height
        ≡ arrange_root scale k
            (pos gap)
            d
            h
            a
            (x +ℤ d.outer_gap)
            (y +ℤ d.outer_gap)
            (at_least_one (width -ℤ pos 2 *ℤ d.outer_gap))
            (at_least_one (height -ℤ pos 2 *ℤ d.outer_gap))
  unfolding arrange
  arrange_eq a x y width height o e = rw (o, arrange) (rw (e, arrange) refl)

  -- The actions behind the clamps in monocle mode.
  abbrev monocle_actions : (x y width height : ℤ) → List Effect → List Action
  monocle_actions x y width height es =
      show_all d (active_tiled d) x y width height d.toplevels
      ++ (map tile es
          ++ (show_active (active_tiled d) x y
              ++ (show_floating d d.floating_windows ++ borders ∷ [])))

  -- What follows the arrangement of the tree.
  abbrev rest_of :
      Bool → (x y width height : ℤ) → Option (Nodes × List Effect) → Option (Nodes × List Action)
  rest_of m x y width height none = none
  rest_of m x y width height (some (h', es)) = some (
    h',
    (if m then show_all d (active_tiled d) x y width height d.toplevels else [])
        ++ (map tile es
            ++ ((if m then show_active (active_tiled d) x y else [])
                ++ (show_floating d d.floating_windows ++ borders ∷ []))),
  )

  root_rest :
      (a : ℕ) (x y width height : ℤ) (m : Bool) (r : Option (Nodes × List Effect))
      → d.monocle ≡ m
      → arrange_node scale d.tiles (pos gap) m k h (some a) x y width height ≡ r
      → arrange_root scale k (pos gap) d h a x y width height ≡ rest_of m x y width height r
  unfolding arrange_root
  root_rest a x y width height m r e q =
      by_result (arrange_node scale d.tiles (pos gap) d.monocle k h (some a) x y width height)
      ∙ ap
          (λ c.
            rest_of c x y width height
              (arrange_node scale d.tiles (pos gap) c k h (some a) x y width height))
          e
      ∙ ap (rest_of m x y width height) q
    where
      by_result :
          (r : Option (Nodes × List Effect))
          → (elim r [
            | none ↦ none
            | some (h', es) ↦ some (
              h',
              (if d.monocle then show_all d (active_tiled d) x y width height d.toplevels else [])
                  ++ (map tile es
                      ++ ((if d.monocle then show_active (active_tiled d) x y else [])
                          ++ (show_floating d d.floating_windows ++ borders ∷ []))),
            )
          ])
            ≡ rest_of d.monocle x y width height r
      by_result none = refl
      by_result (some (h', es)) = refl

  root_eq :
      (a : ℕ) (x y width height : ℤ) (h' : Nodes) (es : List Effect)
      → d.monocle ≡ true
      → arrange_node scale d.tiles (pos gap) true k h (some a) x y width height ≡ some (h', es)
      → arrange_root scale k (pos gap) d h a x y width height
        ≡ some (h', monocle_actions x y width height es)
  root_eq a x y width height h' es m e = root_rest a x y width height true (some (h', es)) m e

  end_shown :
      (seen : (node t : ℕ) → Bool → Bool) (t : ℕ) (x y width height : ℤ) (es : List Effect)
      (b : Bool)
      → OnlyGeometry es
      → is_tiled d t ≡ true
      → contains t d.toplevels ≡ true
      → contains t d.floating_windows ≡ false
      → enabled seen (monocle_actions x y width height es) t b ≡ (active_tiled d =? some t)
  end_shown seen t x y width height es b only tiled listed fixed =
      enabled-append seen (show_all d (active_tiled d) x y width height d.toplevels) _ t b
      ∙ ap
          (λ c.
            enabled seen
              (map tile es
                ++ (show_active (active_tiled d) x y
                    ++ (show_floating d d.floating_windows ++ borders ∷ [])))
              t c)
          (after_all seen x y width height t d (active_tiled d) tiled d.toplevels b
            ∙ ap (λ c. if c then active_tiled d =? some t else b) listed)
      ∙ enabled-append seen (map tile es) _ t (active_tiled d =? some t)
      ∙ ap
          (λ c.
            enabled seen
              (show_active (active_tiled d) x y
                ++ (show_floating d d.floating_windows ++ borders ∷ []))
              t c)
          (enabled-tiles seen es t (active_tiled d =? some t) only)
      ∙ enabled-append seen (show_active (active_tiled d) x y) _ t (active_tiled d =? some t)
      ∙ ap (λ c. enabled seen (show_floating d d.floating_windows ++ borders ∷ []) t c)
          (after_active seen x y width height t d (active_tiled d) tiled (active_tiled d))
      ∙ enabled-append seen (show_floating d d.floating_windows) (borders ∷ []) t
          (active_tiled d =? some t)
      ∙ enabled_borders seen t
          (enabled seen (show_floating d d.floating_windows) t (active_tiled d =? some t))
      ∙ enabled-floating seen d d.floating_windows t (active_tiled d =? some t) fixed

  -- On an output, a workspace in monocle mode whose tree has the active child of each container
  -- below it is arranged, in any area, with more fuel than the tree's depth. One window is the
  -- active one: the focused one if it neither floats nor is fullscreen, or else the one focused
  -- before, or else the first such window of the tiled list, if there is any. Of the windows of the
  -- tiled list that neither float nor are fullscreen, and are not on the floating list too, the
  -- active one is shown afterwards and the others are not, whichever were shown before, and
  -- whatever update_layout_visibility would do to them.
  pub arrange-ShowsActive :
      (T : Tree) (x y width height : ℤ)
      → d.has_output ≡ true
      → d.monocle ≡ true
      → d.root ≡ some (addr T)
      → Rep h none T
      → Within h T
      → depth T < k
      → ShowsActive d (arrange scale k (pos gap) d h x y width height)
  arrange-ShowsActive T x y width height o m root v i lt =
      shown (arrange_node-Walked scale d.tiles (pos gap) k h T none x' y' width' height' v i lt)
    where
      x' : ℤ
      x' = x +ℤ d.outer_gap

      y' : ℤ
      y' = y +ℤ d.outer_gap

      width' : ℤ
      width' = at_least_one (width -ℤ pos 2 *ℤ d.outer_gap)

      height' : ℤ
      height' = at_least_one (height -ℤ pos 2 *ℤ d.outer_gap)

      shown :
          Walked h
            (arrange_node scale d.tiles (pos gap) true k h (some (addr T)) x' y' width' height')
          → ShowsActive d (arrange scale k (pos gap) d h x y width height)
      shown (h', es, e, only, _) = (
        active_tiled d,
        h',
        monocle_actions x' y' width' height' es,
        active_tiled-Active d,
        arrange_eq (addr T) x y width height o root
            ∙ root_eq (addr T) x' y' width' height' h' es m e,
        λ seen t b free listed fixed.
            end_shown seen t x' y' width' height' es b only (IsFree-is_tiled d t free) listed fixed,
      )
