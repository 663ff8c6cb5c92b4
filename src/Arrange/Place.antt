-- ===== src/Arrange/Place.antt =====
-- bsp_arrange_node and bsp_arrange_node_full of src/wm/bsp_arrange.c over the store of nodes. What
-- they do to windows is a list of effects. A result `none` means that a walk ran out of fuel or that
-- a NULL child was read.
use uwm.Base.{
  ℕ, zero, suc, Bool, not, ◌||◌, ◌&&◌, Option, none, some, List, [], ◌∷◌, ◌++◌, if◌then◌else◌, Link,
}
use uwm.Base.Int.{ℤ, pos, ◌+ℤ◌, ltb_ℤ}
use uwm.Bsp.{Nodes, Float, vertical, horizontal, bsp, monocle, write}
use uwm.Arrange.{split_sizes}

-- The fields of the windows that decide whether a tile is placed; `on_monocle` is the flag of the
-- window's workspace.
pub record Tiles : Type 0 where
  pub floating : ℕ → Bool
  pub fullscreen : ℕ → Bool
  pub on_monocle : ℕ → Bool

-- bsp_node_apply_geometry of a leaf, and update_layout_visibility of a container.
pub data Effect : Type 0 where
  apply_geometry update_visibility : ℕ → Effect

unfoldable pub set_geometry : Nodes → ℕ → (x y width height : ℤ) → Nodes
unfolding write
set_geometry h a x y width height =
    write h a (record (h a) { x = x; y = y; width = width; height = height })

-- `width <= 0 || height <= 0`
unfoldable pub is_empty : (width height : ℤ) → Bool
is_empty width height = not (ltb_ℤ (pos 0) width) || not (ltb_ℤ (pos 0) height)

-- The effects at a leaf.
unfoldable pub leaf_effects : Tiles → ℕ → (toplevel : Link) → List Effect
leaf_effects w a none = []
leaf_effects w a (some t) =
    if not (w.floating t) && not (w.fullscreen t) && not (w.on_monocle t)
    then apply_geometry a ∷ []
    else []

-- One call behind the other, on the nodes that the first one leaves.
unfoldable pub and_then :
    Option (Nodes × List Effect)
    → (Nodes → Option (Nodes × List Effect))
    → Option (Nodes × List Effect)
and_then none next = none
and_then (some (h, es)) next = elim (next h) [ none ↦ none | some (h', es') ↦ some (h', es ++ es') ]

unfoldable pub arrange_node_full :
    Tiles → ℕ → Nodes → Link → (x y width height : ℤ) → Option (Nodes × List Effect)
unfolding set_geometry is_empty leaf_effects and_then
arrange_node_full w zero h l x y width height = none
arrange_node_full w (suc k) h none x y width height = none
arrange_node_full w (suc k) h (some a) x y width height =
    let h' = set_geometry h a x y width height in
    if is_empty width height then some (h, []) else elim (h' a).first [
      | none ↦ some (h', leaf_effects w a (h' a).toplevel)
      | some l ↦
          and_then (arrange_node_full w k h' (some l) x y width height)
            (λ h''. arrange_node_full w k h'' (h'' a).second x y width height)
    ]

module _ (scale : ℤ → Float → ℤ) (w : Tiles) (gap : ℤ) (ws_monocle : Bool) where
  -- A container that shows one child.
  unfoldable pub arrange_monocle :
      ℕ → Nodes → (a : ℕ) → (x y width height : ℤ) → Option (Nodes × List Effect)
  unfolding arrange_node_full and_then
  arrange_monocle k h a x y width height =
      and_then
        (arrange_node_full w k h (elim (h a).active_child [ none ↦ (h a).first | some c ↦ some c ])
          x y width height)
        (λ h'. some (h', if ws_monocle then [] else update_visibility a ∷ []))

  unfoldable pub arrange_node :
      ℕ → Nodes → Link → (x y width height : ℤ) → Option (Nodes × List Effect)
  unfolding set_geometry is_empty leaf_effects and_then arrange_monocle
  arrange_node zero h l x y width height = none
  arrange_node (suc k) h none x y width height = none
  arrange_node (suc k) h (some a) x y width height =
      let h' = set_geometry h a x y width height in
      if is_empty width height then some (h, []) else elim (h' a).first [
        | none ↦ some (h', leaf_effects w a (h' a).toplevel)
        | some l ↦ elim (h' a).mode [
          | monocle ↦ arrange_monocle k h' a x y width height
          | bsp ↦ elim (h' a).split [
            | vertical ↦
                let (first_w, second_w) = split_sizes scale width gap (h' a).ratio in
                and_then (arrange_node k h' (some l) x y first_w height)
                  (λ h''. arrange_node k h'' (h'' a).second (x +ℤ first_w +ℤ gap) y second_w height)
            | horizontal ↦
                let (first_h, second_h) = split_sizes scale height gap (h' a).ratio in
                and_then (arrange_node k h' (some l) x y width first_h)
                  (λ h''. arrange_node k h'' (h'' a).second x (y +ℤ first_h +ℤ gap) width second_h)
          ]
        ]
      ]
