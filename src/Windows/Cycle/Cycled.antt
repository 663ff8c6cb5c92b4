-- ===== src/Windows/Cycle/Cycled.antt =====
-- workspace_cycle_next (src/wm/workspace.c) gives the focus to another window of the workspace.
use mathlib.Core.Option
use native.Mathlib.Nat.{mod-lt, mod-eq_of_lt, mod_self}
use uwm.Base.{
  ℕ, zero, suc, ◌+◌, ◌%◌, ◌≤◌, ◌<◌, ◌≡◌, refl, sym, ap, subst, ◌∙◌, ◌⊎◌, inl, inr, Bool, true,
  false, Option, none, some, List, [], ◌∷◌, ◌++◌, arith, length, get_elem?, take, Link, ◌==◌, ◌=?◌,
  ltb, Bool-cases, ==_iff, true_ne_false, some_refl, =?_eq, is_some, not, ◌&&◌, if_true, if_false,
  ltb→lt,
}
use uwm.Windows.Cycle.{focused_index, next_index, max_windows, cycle_windows, workspace_cycle_next}
use uwm.Base.Counts.{one, count}
use uwm.Bsp.Tree.{Tree}
use uwm.Bsp.Forest.{height}
use uwm.Windows.{Session, warp, say}
use uwm.Windows.Focus.{same_link, focus_toplevel}
use uwm.Windows.Listed.{on_tiled, IsSession, say-Quiet, IsSession-Quiet}
use uwm.Windows.Settled.{listed_facts}
use uwm.Windows.Focused.{Focused, focus_toplevel-IsSession}

get_elem?-count : (u : ℕ) (xs : List ℕ) (i : ℕ) → get_elem? xs i ≡ some u → 0 < count u xs
get_elem?-count u [] i e = cc
get_elem?-count u (x ∷ xs) zero e =
    let z : x ≡ u = cc in rw z (rw ((==_iff u u).1 refl) (omega arith))
get_elem?-count u (x ∷ xs) (suc i) e = omega (arith, get_elem?-count u xs i e)

get_elem?-length : (xs : List ℕ) (i : ℕ) → i < length xs → (u : ℕ) × (get_elem? xs i ≡ some u)
get_elem?-length [] i lt = absurd (omega arith)
get_elem?-length (x ∷ xs) zero lt = (x, refl)
get_elem?-length (x ∷ xs) (suc i) lt = get_elem?-length xs i (omega arith)

get_elem?-lt : (u : ℕ) (xs : List ℕ) (i : ℕ) → get_elem? xs i ≡ some u → i < length xs
get_elem?-lt u [] i e = cc
get_elem?-lt u (x ∷ xs) zero e = omega arith
get_elem?-lt u (x ∷ xs) (suc i) e = omega (arith, get_elem?-lt u xs i e)

count-take : (u n : ℕ) (xs : List ℕ) → count u (take n xs) ≤ count u xs
count-take u zero xs = omega arith
count-take u (suc n) [] = omega arith
count-take u (suc n) (x ∷ xs) = omega (arith, count-take u n xs)

count-append : (u : ℕ) (xs ys : List ℕ) → count u (xs ++ ys) ≡ count u xs + count u ys
count-append u [] ys = omega arith
count-append u (x ∷ xs) ys = omega (arith, count-append u xs ys)

-- A number that occurs once has one place.
one_place :
    (u : ℕ) (xs : List ℕ) (i j : ℕ)
    → count u xs ≤ 1
    → get_elem? xs i ≡ some u
    → get_elem? xs j ≡ some u
    → i ≡ j
one_place u [] i j c e f = cc
one_place u (x ∷ xs) zero zero c e f = refl
one_place u (x ∷ xs) (suc i) (suc j) c e f = ap suc (one_place u xs i j (omega arith) e f)
one_place u (x ∷ xs) zero (suc j) c e f =
    let z : u ≡ x = cc in
    let a : one (u == x) ≡ 1 = ap one ((==_iff u x).1 z) in
    absurd (omega (arith, a, get_elem?-count u xs j f))
one_place u (x ∷ xs) (suc i) zero c e f =
    let z : u ≡ x = cc in
    let a : one (u == x) ≡ 1 = ap one ((==_iff u x).1 z) in
    absurd (omega (arith, a, get_elem?-count u xs i e))

next_place : (i n : ℕ) → i < n → 2 ≤ n → (i + 1) % n ≡ i → ⊥
next_place i n lt two e = elim (Bool-cases (ltb (i + 1) n)) [
  | inl q ↦ let a : (i + 1) % n ≡ i + 1 = mod-eq_of_lt (ltb→lt (i + 1) n q) in omega (arith, a, e)
  | inr q ↦
      let z : i + 1 ≡ n = omega (arith, lt, below q) in
      let a : (i + 1) % n ≡ 0 = ap (λ x. x % n) z ∙ mod_self n in omega (arith, a, e, z, two)
]
  where
    below : ltb (i + 1) n ≡ false → n ≤ i + 1
    below q = ground arith

-- The place of the focused window, if it is there.
index_lem :
    (f : Link) (xs : List ℕ) (i : ℕ)
    → ((focused_index f xs i ≡ none)
        × ((j u : ℕ) → get_elem? xs j ≡ some u → (f =? some u) ≡ false))
      ⊎ ((j : ℕ) × (u : ℕ) × (focused_index f xs i ≡ some (i + j))
          × (get_elem? xs j ≡ some u)
          × ((f =? some u) ≡ true))
unfolding focused_index
index_lem f [] i = inl (refl, λ j u e. cc)
index_lem f (x ∷ xs) i = elim (Bool-cases (f =? some x)) [
  | inl q ↦ inr (0, x, if_true _ _ q ∙ ap some (omega arith), refl, q)
  | inr q ↦ elim (index_lem f xs (suc i)) [
    | inl (e, out) ↦ inl (if_false _ _ q ∙ e, away q out)
    | inr (j, u, e, g, m) ↦ inr (suc j, u, if_false _ _ q ∙ e ∙ ap some (omega arith), g, m)
  ]
]
  where
    away :
        (f =? some x) ≡ false
        → ((j u : ℕ) → get_elem? xs j ≡ some u → (f =? some u) ≡ false)
        → (j u : ℕ) → get_elem? (x ∷ xs) j ≡ some u
        → (f =? some u) ≡ false
    away q out zero u e = let z : x ≡ u = cc in ap (λ y. f =? some y) (sym z) ∙ q
    away q out (suc j) u e = out j u e

-- The window behind the focused one, around the end of the array, is another.
next_lem :
    (f : Link) (xs : List ℕ)
    → 2 ≤ length xs
    → ((u : ℕ) → count u xs ≤ 1)
    → (u : ℕ) × (get_elem? xs (next_index (focused_index f xs 0) (length xs)) ≡ some u)
      × ¬ (f ≡ some u)
unfolding next_index
next_lem f xs two once = elim (index_lem f xs 0) [
  | inl (e, out) ↦
      let (u, g) = get_elem?-length xs 0 (omega (arith, two)) in
      (
        u,
        ap (λ r. get_elem? xs (next_index r (length xs))) e ∙ g,
        λ q. true_ne_false (sym (ap (λ l. l =? some u) q ∙ some_refl u) ∙ out 0 u g),
      )
  | inr (j, u, e, g, m) ↦
      let (x, h) =
        get_elem?-length xs ((j + 1) % length xs) (mod-lt (j + 1) (omega (arith, two))) in
      (
        x,
        ap (λ r. get_elem? xs (next_index r (length xs))) (e ∙ ap some (omega arith)) ∙ h,
        λ q.
            next_place j (length xs) (get_elem?-lt u xs j g) two
              (one_place u xs _ j (once u) (h ∙ sym q ∙ =?_eq f u m) g),
      )
]

on_one : (m fl fs c : Bool) → one (m && ((not fl && fs) && c)) + one (m && (fl && c)) ≤ 1
on_one true true fs true = omega arith
on_one true true fs false = omega arith
on_one true false true true = omega arith
on_one true false true false = omega arith
on_one true false false true = omega arith
on_one true false false false = omega arith
on_one false fl fs c = omega arith

module _ (entered : Link → Link → Link) (k : ℕ) (mapped : ℕ → Bool) (s : Session)
    (F : ℕ → Option Tree) (free : List ℕ) (current : ℕ) (v : IsSession s F free mapped)
    (low : (x : ℕ) → height (F x) < k) where
  once : (u : ℕ) → count u (cycle_windows s current) ≤ 1
  unfolding cycle_windows
  once u =
      let a = count-take u max_windows (s.toplevels current ++ s.floating_windows current) in
      let b = count-append u (s.toplevels current) (s.floating_windows current) in
      let c =
        on_one (mapped u) (s.frames u).floating
          (not ((s.frames u).fullscreen && (s.frames u).saved_floating))
          (current == (s.frames u).workspace) in
      omega (arith, a, b, c, v.tiled current u, v.floating current u)

  listed :
      (u : ℕ)
      → 0 < count u (cycle_windows s current)
      → (mapped u ≡ true) × ((s.frames u).workspace ≡ current)
  unfolding cycle_windows
  listed u lt = elim (Bool-cases (ltb 0 (count u (s.toplevels current)))) [
    | inl q ↦
        listed_facts (mapped u) (on_tiled (s.frames u)) current (s.frames u).workspace _
          (v.tiled current u) (ltb→lt 0 _ q)
    | inr q ↦
        listed_facts (mapped u) (s.frames u).floating current (s.frames u).workspace _
          (v.floating current u)
          (omega (
            arith,
            lt,
            nothing _ q,
            count-take u max_windows (s.toplevels current ++ s.floating_windows current),
            count-append u (s.toplevels current) (s.floating_windows current),
          ))
  ]
    where
      nothing : (n : ℕ) → ltb 0 n ≡ false → n ≡ 0
      nothing n q = ground arith

  -- The session behind the cycle: another window of the workspace has been focused.
  abbrev pub Cycled : Option Session → Type 0
  Cycled r =
      (u : ℕ) × (s' : Session) × (r ≡ some s')
      × IsSession s' F free mapped
      × (s'.frames ≡ s.frames)
      × (mapped u ≡ true)
      × ((s.frames u).workspace ≡ current)
      × ¬ ((s.spaces current).tree.focused ≡ some u)
      × (same_link s.keyboard_focus (s.frames u).surface ≡ false
          → (s'.spaces current).tree.focused ≡ some u)

  gives_focus :
      (u : ℕ)
      → 0 < count u (cycle_windows s current)
      → ¬ ((s.spaces current).tree.focused ≡ some u)
      → Cycled (Option.map (say (warp u ∷ [])) (focus_toplevel entered k u s))
  unfolding say
  gives_focus u lt other =
      given (focus_toplevel-IsSession F free mapped u (listed u lt).0 entered k s v (low _))
    where
      home : (s.frames u).workspace ≡ current
      home = (listed u lt).1

      given :
          Focused F free mapped u (listed u lt).0 entered s (focus_toplevel entered k u s)
          → Cycled (Option.map (say (warp u ∷ [])) (focus_toplevel entered k u s))
      given (s', e, v', frames, _, _, focused) = (
        u,
        say (warp u ∷ []) s',
        ap (Option.map _) e,
        IsSession-Quiet s' _ F free mapped (say-Quiet (warp u ∷ []) s') v',
        frames,
        (listed u lt).0,
        home,
        other,
        λ q. subst (λ w. (s'.spaces w).tree.focused ≡ some u) home (focused q),
      )

-- workspace_cycle_next, in a session whose windows stand where they should and with enough fuel,
-- returns. The session is as it was if the current workspace has a fullscreen window, or fewer than
-- two windows. Otherwise it focuses a mapped window of that workspace which is not the one focused
-- there: the invariant holds with the same trees, no window has changed its workspace or its flags,
-- and the workspace's focus is that window unless its surface had the keyboard's focus already.
pub workspace_cycle_next-Cycled :
    (entered : Link → Link → Link) (k : ℕ) (mapped : ℕ → Bool) (s : Session) (F : ℕ → Option Tree)
    (free : List ℕ) (current : ℕ) (v : IsSession s F free mapped) (low : (x : ℕ) → height (F x) < k)
    → let r = workspace_cycle_next entered k current s in
      (((is_some (s.spaces current).fullscreen_window ≡ true)
          ⊎ (length (cycle_windows s current) < 2))
        × (r ≡ some s))
      ⊎ ((is_some (s.spaces current).fullscreen_window ≡ false)
          × (2 ≤ length (cycle_windows s current))
          × Cycled entered k mapped s F free current v low r)
unfolding workspace_cycle_next
workspace_cycle_next-Cycled entered k mapped s F free current v low =
    elim (Bool-cases (is_some (s.spaces current).fullscreen_window)) [
      | inl q ↦ inl (inl q, if_true _ _ q)
      | inr q ↦ elim (Bool-cases (ltb (length (cycle_windows s current)) 2)) [
        | inl few ↦ inl (inr (ltb→lt _ 2 few), if_false _ _ q ∙ if_true _ _ few)
        | inr two ↦
            let (u, g, other) =
              next_lem (s.spaces current).tree.focused (cycle_windows s current) (many _ two)
                (once entered k mapped s F free current v low) in
            inr (
              q,
              many _ two,
              subst (Cycled entered k mapped s F free current v low)
                  (sym (if_false _ _ q ∙ if_false _ _ two ∙ rw g refl))
                  (gives_focus entered k mapped s F free current v low u
                    (get_elem?-count u (cycle_windows s current) _ g) other),
            )
      ]
    ]
  where
    many : (n : ℕ) → ltb n 2 ≡ false → 2 ≤ n
    many n e = ground arith
