-- ===== src/Bsp/Pool.antt =====
-- The node pool: bsp_pool_init, bsp_node_alloc, bsp_node_free, bsp_node_create and
-- bsp_internal_create of src/wm/bsp.c. The free list is threaded through the nodes' `first`.
pub mod Chain
use uwm.Base.{ℕ, zero, suc, none, some, Link}
use uwm.Base.Int.{pos}
use uwm.Bsp.{Node, Nodes, Split, bsp, half, write, State}

-- BSP_POOL_SIZE
pub pool_size : ℕ
pool_size = 576

-- The loop of bsp_pool_init, after `n` rounds.
pub pool_loop : ℕ → Nodes → Nodes × Link
pool_loop zero h = (h, none)
pool_loop (suc n) h =
    let (h', free) = pool_loop n h in (write h' n (record (h' n) { first = free }), some n)

pub pool_init : State → State
unfolding pool_loop pool_size
pool_init s =
    let (h, free) = pool_loop pool_size s.nodes in
    record s { nodes = h; freelist = free; count = 0 }

-- What bsp_node_alloc resets. The split is left as the node's last user set it.
unfoldable pub fresh_node : Node → Node
fresh_node n = record n {
  parent = none;
  first = none;
  second = none;
  toplevel = none;
  ratio = half;
  x = pos 0;
  y = pos 0;
  width = pos 0;
  height = pos 0;
  mode = bsp;
  active_child = none;
}

unfoldable pub node_alloc : State → State × Link
unfolding fresh_node write
node_alloc s = elim s.freelist [
  | none ↦ (s, none)
  | some a ↦ (
    record s { nodes = write s.nodes a (fresh_node (s.nodes a)); freelist = (s.nodes a).first },
    some a,
  )
]

unfoldable pub node_free : State → Link → State
unfolding write
node_free s none = s
node_free s (some a) = record s {
  nodes = write s.nodes a (record (s.nodes a) { first = s.freelist });
  freelist = some a;
}

-- What the two constructors do with the allocated node, if there is one.
unfoldable pub node_fill : (Node → Node) → State × Link → State × Link
unfolding write
node_fill f (s, none) = (s, none)
node_fill f (s, some a) = (record s { nodes = write s.nodes a (f (s.nodes a)) }, some a)

unfoldable pub node_create : State → ℕ → State × Link
node_create s t = node_fill (λ n. record n { toplevel = some t }) (node_alloc s)

unfoldable pub internal_create : State → Split → Link → Link → State × Link
internal_create s sp first second =
    node_fill (λ n. record n { split = sp; first = first; second = second }) (node_alloc s)
