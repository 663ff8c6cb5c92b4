-- ===== src/Arrange/Apply.antt =====
-- bsp_node_apply_geometry (src/wm/bsp_arrange.c) and toplevel_set_size (src/wm/toplevel.c), in a
-- build with Xwayland. The calls of wlroots are listed; what they do to the scene and the surfaces is
-- up to wlroots.
use uwm.Base.{
  Bool, false, not, ◌||◌, ◌&&◌, Option, none, some, List, [], ◌∷◌, ◌++◌, if◌then◌else◌, is_some,
}
use uwm.Base.Int.{ℤ}
use uwm.Bsp.{Node}
use uwm.Arrange.{eqb_ℤ}

-- `mapped` also says that the surface has a `surface`.
pub record Surface : Type 0 where
  pub x : ℤ
  pub y : ℤ
  pub mapped : Bool
  pub override_redirect : Bool

-- The fields of a window that are read or written: the position of its scene node, the size that
-- was last requested, its type, and its protocol objects.
pub record Window : Type 0 where
  pub scene_x : ℤ
  pub scene_y : ℤ
  pub req_width : ℤ
  pub req_height : ℤ
  pub is_xwayland : Bool
  pub has_xdg : Bool
  pub xwayland_surface : Option Surface
  pub floating : Bool
  pub float_x : ℤ
  pub float_y : ℤ

pub data Call : Type 0 where
  set_position : (x y : ℤ) → Call
  xwayland_configure : (x y width height : ℤ) → Call
  xdg_set_size : (width height : ℤ) → Call
  set_tiled : Call

-- The Xwayland branch of toplevel_set_size.
unfoldable pub configure_size : Window → Option Surface → (w h : ℤ) → List Call
configure_size t none w h = []
configure_size t (some s) w h =
    if not s.mapped || s.override_redirect
    then []
    else xwayland_configure (if t.floating then t.float_x else t.scene_x)
        (if t.floating then t.float_y else t.scene_y) w h
      ∷ []

unfoldable pub toplevel_set_size : Window → (w h : ℤ) → Window × List Call
unfolding configure_size
toplevel_set_size t w h = (
  record t { req_width = w; req_height = h },
  if not t.is_xwayland && t.has_xdg
      then xdg_set_size w h ∷ []
      else if t.is_xwayland
      then configure_size t t.xwayland_surface w h
      else [],
)

-- Has the Xwayland surface moved away?
unfoldable pub surface_moved : Node → Window → Option Surface → Bool
surface_moved n t none = false
surface_moved n t (some s) = t.is_xwayland && (not (eqb_ℤ s.x n.x) || not (eqb_ℤ s.y n.y))

-- The second `if`.
unfoldable pub needs_configure : Node → Window → Bool
unfolding surface_moved
needs_configure n t =
    not (eqb_ℤ n.width t.req_width)
    || (not (eqb_ℤ n.height t.req_height) || surface_moved n t t.xwayland_surface)

unfoldable pub request_size : Node → Window → Window × List Call
unfolding toplevel_set_size
request_size n t =
    if t.is_xwayland && is_some t.xwayland_surface
    then (t, xwayland_configure n.x n.y n.width n.height ∷ [])
    else toplevel_set_size t n.width n.height

unfoldable pub apply_size : Node → Window → Window × List Call
unfolding needs_configure request_size
apply_size n t =
    let (t', calls) = request_size n t in
    if needs_configure n t
    then (t', calls ++ (if not t.is_xwayland && t.has_xdg then set_tiled ∷ [] else []))
    else (t, [])

-- Moving the scene node is wlroots' part: the field changes when it has been called.
unfoldable pub node_apply_geometry : Node → Window → Window × List Call
unfolding apply_size
node_apply_geometry n t =
    let (t', calls) = apply_size n t in
    if not (eqb_ℤ n.x t.scene_x) || not (eqb_ℤ n.y t.scene_y)
    then (t', set_position n.x n.y ∷ calls)
    else (t', calls)
