-- ===== src/Launcher/Pressed.antt =====
-- Every key press and every repetition (tools/ulaunch/src/input.c) keeps the launcher bounded, with
-- the filter (tools/ulaunch/src/filter.c) that runs in between.
use uwm.Base.{
  ℕ, ◌+◌, ◌≤◌, ◌≡◌, refl, sym, Bool, true, false, List, [], ◌∷◌, ◌++◌, ◌==◌, ltb, length,
  length-append, arith, Bool-cases, is_some, inl, inr,
}
use uwm.Base.Int.{pos, ltb_ℤ, neg_part}
use uwm.Launcher.{Chars, Floats}
use uwm.Launcher.Filter.{
  Filter, filter_update, publish, with_room, appended, survivors, rescan, all_entries,
  filter_reserve,
}
use uwm.Launcher.Keys.{
  Launcher, Sym, up, kp_up, down, kp_down, page_up, page_down, backspace, tab, input_buf_max,
  drop_last, n_filtered, with_text, cursor_up, cursor_down, cursor_page_up, cursor_page_down,
  cursor_tab, refilter, erase, erase_from, has_room, repeat_sym_fire, input_repeat_fire,
}
use uwm.Launcher.Bounds.{
  TextFits, FilterFits, IsBounded, length-drop_last, up_fits, down_fits, page_up_fits,
  page_down_fits, tab_fits, clamp_fits,
}

module _ {F : Type 0} where
  cursor_tab-IsBounded : (s : Launcher F) → IsBounded s → IsBounded (cursor_tab s)
  unfolding cursor_tab
  cursor_tab-IsBounded s b = elim (Bool-cases (ltb_ℤ (pos 0) (n_filtered s))) [
    | inl t ↦ rw t (b.0, tab_fits s.filter.cursor (length s.filter.filtered) (ground arith) b.1)
    | inr e ↦ rw e b
  ]

module _ {F : Type 0} (c : Chars) (f : Floats F) (sorted : List (ℕ × F) → List (ℕ × F))
    (temporaries : Bool) (alloc : ℕ → Bool) where
  publish-FilterFits :
      (s : Filter F) (cap : ℕ) (xs : List (ℕ × F))
      → FilterFits s
      → FilterFits (publish c f sorted temporaries (record s { filter_cap = cap }) xs)
  unfolding publish
  publish-FilterFits s cap xs (l, k) = (l, clamp_fits s.cursor _ (length s.filtered) k)

  with_room-FilterFits :
      (s : Filter F) (k : Filter F → Filter F)
      → FilterFits s
      → ((cap : ℕ) → FilterFits (k (record s { filter_cap = cap })))
      → FilterFits (with_room c f alloc s k)
  unfolding with_room
  with_room-FilterFits s k b h = elim (Bool-cases (ltb s.filter_cap (length s.entries))) [
    | inl t ↦ rw t (elim (Bool-cases (filter_reserve alloc s.filter_cap (length s.entries)).1) [
      | inl u ↦ rw u (h (filter_reserve alloc s.filter_cap (length s.entries)).0)
      | inr v ↦ rw v b
    ])
    | inr e ↦ rw e (h s.filter_cap)
  ]

  filter_update-FilterFits :
      (s : Filter F) → FilterFits s → FilterFits (filter_update c f sorted temporaries alloc s)
  unfolding filter_update
  filter_update-FilterFits s b = elim (Bool-cases (length s.input == 0)) [
    | inl t ↦ rw t (
        with_room-FilterFits s (λ t. publish c f sorted temporaries t (all_entries c f t)) b
          (λ cap. publish-FilterFits s cap (all_entries c f (record s { filter_cap = cap })) b))
    | inr e ↦ rw e (elim (Bool-cases (appended s)) [
      | inl u ↦ rw u (publish-FilterFits s s.filter_cap (survivors c f s) b)
      | inr v ↦ rw v (
          with_room-FilterFits s (λ t. publish c f sorted temporaries t (rescan c f t)) b
            (λ cap. publish-FilterFits s cap (rescan c f (record s { filter_cap = cap })) b))
    ])
  ]

  -- A text that fits, filtered anew.
  refilter-IsBounded :
      (s : Launcher F) → IsBounded s → IsBounded (refilter c f sorted temporaries alloc s)
  refilter-IsBounded s b = filter_update-FilterFits s.filter b

  erase_from-IsBounded :
      (s : Launcher F) (text : List ℕ)
      → TextFits (length text)
      → IsBounded s
      → IsBounded (erase_from c f sorted temporaries alloc s text)
  unfolding erase_from
  erase_from-IsBounded s [] l b = b
  erase_from-IsBounded s (x ∷ xs) l (_, k) =
      filter_update-FilterFits (with_text s (drop_last (x ∷ xs))).filter
        (omega (arith, length-drop_last (x ∷ xs)), k)

  erase-IsBounded :
      (s : Launcher F) → IsBounded s → IsBounded (erase c f sorted temporaries alloc s)
  unfolding erase
  erase-IsBounded s b = erase_from-IsBounded s s.filter.input b.0 b

  room :
      (s : Launcher F) (n : ℕ)
      → has_room c f sorted temporaries alloc s n ≡ true
      → length s.filter.input + n + 2 ≤ input_buf_max
  room s n e = ground arith

  append-IsBounded :
      (s : Launcher F) (utf8 : List ℕ)
      → has_room c f sorted temporaries alloc s (length utf8) ≡ true
      → IsBounded s
      → IsBounded (refilter c f sorted temporaries alloc (with_text s (s.filter.input ++ utf8)))
  append-IsBounded s utf8 e (l, k) =
      refilter-IsBounded (with_text s (s.filter.input ++ utf8))
        (omega (arith, length-append s.filter.input utf8, room s (length utf8) e), k)

  repeat_sym_fire-IsBounded :
      (s : Launcher F) (sym : Sym)
      → neg_part s.max_items ≡ 0
      → IsBounded s
      → IsBounded (repeat_sym_fire c f sorted temporaries alloc s sym)
  unfolding repeat_sym_fire cursor_up cursor_down cursor_page_up cursor_page_down
  repeat_sym_fire-IsBounded s up z (l, k) = (l, up_fits s.filter.cursor _ k)
  repeat_sym_fire-IsBounded s kp_up z (l, k) = (l, up_fits s.filter.cursor _ k)
  repeat_sym_fire-IsBounded s down z (l, k) = (l, down_fits s.filter.cursor _ k)
  repeat_sym_fire-IsBounded s kp_down z (l, k) = (l, down_fits s.filter.cursor _ k)
  repeat_sym_fire-IsBounded s page_up z (l, k) = (l, page_up_fits s.filter.cursor s.max_items _ z k)
  repeat_sym_fire-IsBounded s page_down z (l, k) =
      (l, page_down_fits s.filter.cursor s.max_items _ z k)
  repeat_sym_fire-IsBounded s backspace z b = erase-IsBounded s b
  repeat_sym_fire-IsBounded s tab z b = cursor_tab-IsBounded s b
  repeat_sym_fire-IsBounded s _ z b = b

  -- So does every repetition of a key, under the same condition.
  pub input_repeat_fire-IsBounded :
      (s : Launcher F)
      → neg_part s.max_items ≡ 0
      → IsBounded s
      → IsBounded (input_repeat_fire c f sorted temporaries alloc s)
  unfolding input_repeat_fire
  input_repeat_fire-IsBounded s z b =
      go (is_some s.repeat_key) (ltb 0 (length s.repeat_utf8))
        (has_room c f sorted temporaries alloc s (length s.repeat_utf8)) refl refl refl
    where
      go :
          (p q r : Bool)
          → is_some s.repeat_key ≡ p
          → ltb 0 (length s.repeat_utf8) ≡ q
          → has_room c f sorted temporaries alloc s (length s.repeat_utf8) ≡ r
          → IsBounded (input_repeat_fire c f sorted temporaries alloc s)
      go false q r e g h = rw e b
      go true true true e g h = rw (e, g, h) (append-IsBounded s s.repeat_utf8 h b)
      go true true false e g h = rw (e, g, h) b
      go true false r e g h = rw (e, g) (repeat_sym_fire-IsBounded s s.repeat_sym z b)
