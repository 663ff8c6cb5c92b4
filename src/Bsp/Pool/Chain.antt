-- ===== src/Bsp/Pool/Chain.antt =====
-- The free list of the node pool is a chain of distinct nodes, and what alloc and free do to it.
use uwm.Base.{
  ℕ, zero, suc, ◌<◌, ◌≡◌, refl, ap, ◌∙◌, true, false, none, some, List, [], ◌∷◌, arith, ◌==◌, Link,
  contains, countdown, length,
}
use uwm.Bsp.{Node, Nodes, Split, State, write}
use uwm.Bsp.Pool.{
  pool_size, pool_loop, pool_init, fresh_node, node_alloc, node_free, node_fill, node_create,
  internal_create,
}

-- From `l` the `first` pointers lead through the nodes of the list, all distinct, to NULL.
abbrev pub Chain : Nodes → Link → List ℕ → Type 0
Chain h l [] = l ≡ none
Chain h l (a ∷ xs) = (l ≡ some a) × (contains a xs ≡ false) × Chain h (h a).first xs

pub Chain-frame :
    (h h' : Nodes) (l l' : Link) (xs : List ℕ)
    → Chain h l xs
    → l' ≡ l
    → ((b : ℕ) → contains b xs ≡ true → (h' b).first ≡ (h b).first)
    → Chain h' l' xs
Chain-frame h h' l l' [] c e same = e ∙ c
Chain-frame h h' l l' (a ∷ xs) (e, out, c) e' same =
    (e' ∙ e, out, Chain-frame h h' _ _ xs c (same a (ground arith)) (λ b m. same b (ground arith)))

pub write_self : (h : Nodes) (a : ℕ) (n : Node) → write h a n a ≡ n
unfolding write
write_self h a n = ground arith

pub write_ne : (h : Nodes) (a : ℕ) (n : Node) (b : ℕ) → (b == a) ≡ false → write h a n b ≡ h b
unfolding write
write_ne h a n b ne = ground arith

pub ne_of_contains :
    (a b : ℕ) (xs : List ℕ) → contains a xs ≡ false → contains b xs ≡ true → (b == a) ≡ false
ne_of_contains a b [] out m = ground arith
ne_of_contains a b (x ∷ xs) out m = ground (arith, ne_of_contains a b xs)

length-countdown : (n : ℕ) → length (countdown n) ≡ n
length-countdown zero = refl
length-countdown (suc n) = ap suc (length-countdown n)

contains-countdown : (n b : ℕ) → contains b (countdown n) ≡ true → b < n
contains-countdown zero b e = ground arith
contains-countdown (suc n) b e = ground (arith, contains-countdown n b)

not-contains-countdown : (n : ℕ) → contains n (countdown n) ≡ false
not-contains-countdown n = ground (arith, contains-countdown n n)

pool_loop-Chain : (n : ℕ) (h : Nodes) → Chain (pool_loop n h).0 (pool_loop n h).1 (countdown n)
unfolding pool_loop write
pool_loop-Chain zero h = refl
pool_loop-Chain (suc n) h = (
  refl,
  not-contains-countdown n,
  Chain-frame (pool_loop n h).0 (pool_loop (suc n) h).0 _ _ (countdown n) (pool_loop-Chain n h)
      (ground arith) (λ b m. ground (arith, contains-countdown n b m)),
)

-- bsp_pool_init puts every node of the pool on the free list, once.
pub pool_init-Chain :
    (s : State)
    → let s' = pool_init s in
      Chain s'.nodes s'.freelist (countdown pool_size) × (length (countdown pool_size) ≡ pool_size)
unfolding pool_init
pool_init-Chain s = (pool_loop-Chain pool_size s.nodes, length-countdown pool_size)

-- `a` has left the free list, holds `nd`, and nothing else has changed.
pub record IsAllocated (s s' : State) (a : ℕ) (nd : Node) (free : List ℕ) : Type 0 where
  pub node : s'.nodes a ≡ nd
  pub others : (b : ℕ) → (b == a) ≡ false → s'.nodes b ≡ s.nodes b
  pub chain : Chain s'.nodes s'.freelist free
  pub windows : s'.windows ≡ s.windows

alloc_at : State → ℕ → State
alloc_at s a = record s {
  nodes = write s.nodes a (fresh_node (s.nodes a));
  freelist = (s.nodes a).first;
}

node_alloc-some : (s : State) (a : ℕ) → s.freelist ≡ some a → node_alloc s ≡ (alloc_at s a, some a)
unfolding alloc_at node_alloc
node_alloc-some s a e = rw (e, node_alloc)

alloc_at-IsAllocated :
    (s : State) (a : ℕ) (free : List ℕ)
    → Chain s.nodes s.freelist (a ∷ free)
    → IsAllocated s (alloc_at s a) a (fresh_node (s.nodes a)) free
unfolding alloc_at
alloc_at-IsAllocated s a free (e, out, c) = record {
  node = write_self _ a _;
  others = λ b ne. write_ne _ a _ b ne;
  chain =
      Chain-frame s.nodes (alloc_at s a).nodes _ _ free c refl (λ b m.
        ap (λ (n : Node). n.first) (write_ne s.nodes a _ b (ne_of_contains a b free out m)));
  windows = refl;
}

-- bsp_node_alloc takes the first node off the free list, resets it, and touches nothing else.
pub node_alloc-IsAllocated :
    (s : State) (a : ℕ) (free : List ℕ)
    → Chain s.nodes s.freelist (a ∷ free)
    → ((node_alloc s).1 ≡ some a) × IsAllocated s (node_alloc s).0 a (fresh_node (s.nodes a)) free
node_alloc-IsAllocated s a free c =
    rw (node_alloc-some s a c.0) (refl, alloc_at-IsAllocated s a free c)

-- Filling in the allocated node keeps the free list.
IsAllocated-fill :
    (s s' : State) (a : ℕ) (nd : Node) (f : Node → Node) (free : List ℕ)
    → contains a free ≡ false
    → IsAllocated s s' a nd free
    → IsAllocated s (record s' { nodes = write s'.nodes a (f (s'.nodes a)) }) a (f nd) free
IsAllocated-fill s s' a nd f free out v = record {
  node = write_self _ a _ ∙ ap f v.node;
  others = λ b ne. write_ne _ a _ b ne ∙ v.others b ne;
  chain =
      Chain-frame s'.nodes (write s'.nodes a (f (s'.nodes a))) _ _ free v.chain refl (λ b m.
        ap (λ (n : Node). n.first) (write_ne s'.nodes a _ b (ne_of_contains a b free out m)));
  windows = v.windows;
}

node_fill-IsAllocated :
    (s : State) (f : Node → Node) (a : ℕ) (free : List ℕ)
    → Chain s.nodes s.freelist (a ∷ free)
    → let r = node_fill f (node_alloc s) in
      (r.1 ≡ some a) × IsAllocated s r.0 a (f (fresh_node (s.nodes a))) free
unfolding node_fill
node_fill-IsAllocated s f a free c =
    rw (node_alloc-some s a c.0)
      (refl, IsAllocated-fill s (alloc_at s a) a _ f free c.1 (alloc_at-IsAllocated s a free c))

pub node_create-IsAllocated :
    (s : State) (t a : ℕ) (free : List ℕ)
    → Chain s.nodes s.freelist (a ∷ free)
    → ((node_create s t).1 ≡ some a)
      × IsAllocated s
          (node_create s t).0
          a
          (record (fresh_node (s.nodes a)) { toplevel = some t })
          free
unfolding node_create
node_create-IsAllocated s t a free c = node_fill-IsAllocated s _ a free c

pub internal_create-IsAllocated :
    (s : State) (sp : Split) (f g : Link) (a : ℕ) (free : List ℕ)
    → Chain s.nodes s.freelist (a ∷ free)
    → ((internal_create s sp f g).1 ≡ some a)
      × IsAllocated s
          (internal_create s sp f g).0
          a
          (record (fresh_node (s.nodes a)) { split = sp; first = f; second = g })
          free
unfolding internal_create
internal_create-IsAllocated s sp f g a free c = node_fill-IsAllocated s _ a free c

-- With no free node both constructors answer NULL and change nothing.
pub node_create_exhausted : (s : State) (t : ℕ) → s.freelist ≡ none → node_create s t ≡ (s, none)
unfolding node_create node_alloc node_fill
node_create_exhausted s t e = ground arith

pub internal_create_exhausted :
    (s : State) (sp : Split) (f g : Link) → s.freelist ≡ none → internal_create s sp f g ≡ (s, none)
unfolding internal_create node_alloc node_fill
internal_create_exhausted s sp f g e = ground arith

-- bsp_node_free puts a node that is not on the free list back in front of it.
pub node_free-Chain :
    (s : State) (a : ℕ) (free : List ℕ)
    → Chain s.nodes s.freelist free
    → contains a free ≡ false
    → Chain (node_free s (some a)).nodes (node_free s (some a)).freelist (a ∷ free)
unfolding node_free
node_free-Chain s a free c out = (
  refl,
  out,
  Chain-frame s.nodes (node_free s (some a)).nodes _ _ free c
      (ap (λ (n : Node). n.first) (write_self s.nodes a _))
      (λ b m. ap (λ (n : Node). n.first) (write_ne s.nodes a _ b (ne_of_contains a b free out m))),
)

pub node_free_others :
    (s : State) (a b : ℕ) → (b == a) ≡ false → (node_free s (some a)).nodes b ≡ s.nodes b
unfolding node_free
node_free_others s a b ne = write_ne s.nodes a _ b ne
