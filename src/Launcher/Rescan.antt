-- ===== src/Launcher/Rescan.antt =====
-- filter_update of tools/ulaunch/src/filter.c: that scoring only the survivors of the previous text
-- finds what scoring all entries finds.
use mathlib.Core.List.{Perm, filter_map}
use mathlib.Core.List.Perm
use uwm.Base.{
  ℕ, ◌-◌, ◌<◌, ◌≤◌, ◌≡◌, ◌≢◌, refl, sym, ap, subst, ◌∙◌, inl, inr, Bool, true, false, ◌&&◌, Option,
  none, some, List, [], ◌++◌, map, ◌==◌, ltb, leb, if◌then◌else◌, length, take, get_or, arith,
  Bool-cases, ==_iff,
}
use uwm.Base.Int.{ℤ, pos, ltb_ℤ}
use uwm.Launcher.{Chars, Floats, Lawful}
use uwm.Launcher.Match.{Embeds, done, score_match, Embeds-prefix}
use uwm.Launcher.Scored.{score_match-Embeds}
use uwm.Launcher.Filter.{
  Filter, filter_update, filter_reserve, want, indices, scan_length, hits_of, prefix_eq, appended,
  rescore, all_entries, survivors, rescan, publish, with_room, max_score_results,
}
use uwm.Launcher.Skim.{prefix_eq_lem, numbers, length_zero, skim, keep_all}

module _ {F : Type 0} (c : Chars) (f : Floats F) where
  -- What scoring all entries against a text finds.
  abbrev pub matches : Filter F → List ℕ → List (ℕ × F)
  matches s q = filter_map (rescore c f s.entries s.hits q) (indices (length s.entries) 0)

  -- The candidates are those of the text that they were last found for.
  abbrev pub IsFresh : Filter F → Type 0
  IsFresh s = Perm (numbers s.cand) (numbers (matches s s.prev_input))

  -- What filter_update leaves of a state: the candidates are the entries that match the text, with
  -- their scores if the text is not empty, the first of them are shown, and the cursor is below the
  -- number of those if there is any.
  pub record Updated (s s' : Filter F) : Type 0 where
    pub input : s'.input ≡ s.input
    pub entries : s'.entries ≡ s.entries
    pub hits : s'.hits ≡ s.hits
    pub prev_input : s'.prev_input ≡ s.input
    pub found : Perm (numbers s'.cand) (numbers (matches s s.input))
    pub scores : s.input ≢ [] → Perm s'.cand (matches s s.input)
    pub shown : s'.filtered ≡ take max_score_results s'.cand
    pub cursor : 0 < length s'.filtered → ltb_ℤ s'.cursor (pos (length s'.filtered)) ≡ true

module _ {F : Type 0} (c : Chars) (f : Floats F) (AtLeastOne : F → Type 0)
    (lawful : Lawful f AtLeastOne) where
  rescore-none :
      (es : List (List ℕ)) (hs : Option (List ℕ)) (q : List ℕ) (i : ℕ)
      → ¬ Embeds c q (get_or es i [])
      → rescore c f es hs q i ≡ none
  unfolding rescore
  rescore-none es hs q i m =
      elim (Bool-cases (f.gt (score_match c f q (get_or es i []) (hits_of hs i)) f.zero_f)) [
        | inl t ↦ absurd (m ((score_match-Embeds c f AtLeastOne lawful q _ _).0 t))
        | inr e ↦ rw e refl
      ]

  rescore-some :
      (es : List (List ℕ)) (hs : Option (List ℕ)) (q : List ℕ) (i : ℕ)
      → Embeds c q (get_or es i [])
      → (x : F) × (rescore c f es hs q i ≡ some (i, x))
  unfolding rescore
  rescore-some es hs q i m = (
    score_match c f q (get_or es i []) (hits_of hs i),
    rw ((score_match-Embeds c f AtLeastOne lawful q _ (hits_of hs i)).1 m) refl,
  )

  rescore_number :
      (es : List (List ℕ)) (hs : Option (List ℕ)) (q : List ℕ) (i : ℕ) (p : ℕ × F)
      → rescore c f es hs q i ≡ some p
      → p.0 ≡ i
  unfolding rescore
  rescore_number es hs q i p e =
      elim (Bool-cases (f.gt (score_match c f q (get_or es i []) (hits_of hs i)) f.zero_f)) [
        | inl t ↦ ap number (
            sym (
              subst
                (λ b.
                  (if b then some (i, score_match c f q (get_or es i []) (hits_of hs i)) else none)
                  ≡ some p)
                t e))
        | inr n ↦ absurd (
            clash (
              subst
                (λ b.
                  (if b then some (i, score_match c f q (get_or es i []) (hits_of hs i)) else none)
                  ≡ some p)
                n e))
      ]
    where
      number : Option (ℕ × F) → ℕ
      number none = 0
      number (some p) = p.0

      clash : ◌≡◌ {A = Option (ℕ × F)} none (some p) → ⊥
      clash q = cc

  -- A longer text matches less.
  rescore_shorter :
      (es : List (List ℕ)) (hs : Option (List ℕ)) (q r : List ℕ) (i : ℕ)
      → rescore c f es hs q i ≡ none
      → rescore c f es hs (q ++ r) i ≡ none
  rescore_shorter es hs q r i e = rescore-none es hs (q ++ r) i (λ m.
      (let h = rescore-some es hs q i (Embeds-prefix c q r (get_or es i []) m) in
        clash h.0 (sym e ∙ h.1)))
    where
      clash : (x : F) → ◌≡◌ {A = Option (ℕ × F)} none (some (i, x)) → ⊥
      clash x q = cc

  -- Scoring the candidates of the previous text again gives what scoring every entry does.
  pub survivors-matches :
      (s : Filter F)
      → IsFresh c f s
      → appended s ≡ true
      → Perm (survivors c f s) (matches c f s s.input)
  unfolding survivors appended
  survivors-matches s fresh e =
      Perm.trans (Perm.filter_map (rescore c f s.entries s.hits s.input) fresh) (
        subst (λ l. Perm l (matches c f s s.input)) (sym again) (Perm.refl (matches c f s s.input)))
    where
      longer :
          (b d : Bool)
          → b && prefix_eq s.prev_input s.input && d ≡ true
          → prefix_eq s.prev_input s.input ≡ true
      longer b d h = ground arith

      again :
          filter_map (rescore c f s.entries s.hits s.input) (numbers (matches c f s s.prev_input))
          ≡ matches c f s s.input
      again =
          skim _ _
            (λ i h.
              subst (λ q. rescore c f s.entries s.hits q i ≡ none)
                (sym (prefix_eq_lem s.prev_input s.input (longer _ _ e)))
                (rescore_shorter s.entries s.hits s.prev_input _ i h))
            (λ i p h. rescore_number s.entries s.hits s.prev_input i p h)
            (indices (length s.entries) 0)

  cursor_below :
      (a : ℤ) (n : ℕ) → 0 < n → ltb_ℤ (if ltb_ℤ a (pos n) then a else pos (n - 1)) (pos n) ≡ true
  cursor_below a n lt = elim (Bool-cases (ltb_ℤ a (pos n))) [
    | inl t ↦ rw t t
    | inr e ↦ rw e (ground arith)
  ]

  module _ (sorted : List (ℕ × F) → List (ℕ × F)) (temporaries : Bool) (alloc : ℕ → Bool)
      (sort_perm : (xs : List (ℕ × F)) → Perm (sorted xs) xs) where
    sort_if : (b : Bool) (xs : List (ℕ × F)) → Perm (if b then sorted xs else xs) xs
    sort_if true xs = sort_perm xs
    sort_if false xs = Perm.refl xs

    publish-Updated :
        (s : Filter F) (cap : ℕ) (xs : List (ℕ × F))
        → Perm (numbers xs) (numbers (matches c f s s.input))
        → (s.input ≢ [] → Perm xs (matches c f s s.input))
        → Updated c f s (publish c f sorted temporaries (record s { filter_cap = cap }) xs)
    unfolding publish
    publish-Updated s cap xs p q = record {
      input = refl;
      entries = refl;
      hits = refl;
      prev_input = refl;
      found = Perm.trans (Perm.map (λ p. p.0) (sort_if (ltb 1 (length xs) && temporaries) xs)) p;
      scores = λ n. Perm.trans (sort_if (ltb 1 (length xs) && temporaries) xs) (q n);
      shown = refl;
      cursor = λ lt. cursor_below s.cursor _ lt;
    }

    want_enough : (cap need : ℕ) → need ≤ want cap need
    unfolding want
    want_enough cap need = ground arith

    reserve_want :
        (cap need : ℕ)
        → (alloc (want cap need) ≡ true)
        → let r = filter_reserve alloc cap need in (r.1 ≡ true) × (need ≤ r.0)
    unfolding filter_reserve
    reserve_want cap need e =
        rw e (go (leb (if ltb max_score_results need then need else max_score_results) cap) refl)
      where
        go :
            (b : Bool)
            → leb (if ltb max_score_results need then need else max_score_results) cap ≡ b
            → let r = if◌then◌else◌ {A = ℕ × Bool} b (cap, true) (want cap need, true) in
              (r.1 ≡ true) × (need ≤ r.0)
        go true q = (refl, ground arith)
        go false q = (refl, want_enough cap need)

    -- With memory, a scan goes through all entries.
    roomy :
        ((n : ℕ) → alloc n ≡ true)
        → (s : Filter F) (k : Filter F → Filter F)
        → (cap : ℕ) × (length s.entries ≤ cap)
          × (with_room c f alloc s k ≡ k (record s { filter_cap = cap }))
    unfolding with_room
    roomy mem s k = elim (Bool-cases (ltb s.filter_cap (length s.entries))) [
      | inl t ↦
          (let r = reserve_want s.filter_cap (length s.entries) (mem _) in
            ((filter_reserve alloc s.filter_cap (length s.entries)).0, r.1, rw t (rw r.0 refl)))
      | inr e ↦ (s.filter_cap, ground arith, rw e refl)
    ]

    scan_all :
        (s : Filter F) (cap : ℕ)
        → length s.entries ≤ cap
        → scan_length (record s { filter_cap = cap }) ≡ length s.entries
    unfolding scan_length
    scan_all s cap le = elim (Bool-cases (ltb (length s.entries) cap)) [
      | inl t ↦ rw t refl
      | inr e ↦ rw e (ground arith)
    ]

    rescan-Updated :
        (s : Filter F) (cap : ℕ)
        → length s.entries ≤ cap
        → let t = record s { filter_cap = cap } in
          Updated c f s (publish c f sorted temporaries t (rescan c f t))
    unfolding rescan
    rescan-Updated s cap le = rw (scan_all s cap le) (
        publish-Updated s cap (matches c f s s.input) (Perm.refl (numbers (matches c f s s.input)))
          (λ n. Perm.refl (matches c f s s.input)))

    all_entries-Updated :
        (s : Filter F) (cap : ℕ)
        → length s.entries ≤ cap
        → s.input ≡ []
        → let t = record s { filter_cap = cap } in
          Updated c f s (publish c f sorted temporaries t (all_entries c f t))
    unfolding all_entries
    all_entries-Updated s cap le e = rw (scan_all s cap le) (
        publish-Updated s cap (map (λ i. (i, f.zero_f)) (indices (length s.entries) 0))
          (subst (λ l. Perm l (numbers (matches c f s s.input)))
            (keep_all (rescore c f s.entries s.hits s.input) f.zero_f every
              (indices (length s.entries) 0))
            (Perm.refl (numbers (matches c f s s.input))))
          (λ n. absurd (n e)))
      where
        every : (i : ℕ) → (x : F) × (rescore c f s.entries s.hits s.input i ≡ some (i, x))
        every i = rescore-some s.entries s.hits s.input i (rw e (done (get_or s.entries i [])))

  -- With memory, and a sort that permutes, filter_update gives the entries that match the text,
  -- best first as far as the sort goes. The shortcut for an appended character, which only
  -- scores the candidates again, finds the same as a scan of all entries, if the candidates are those
  -- of the previous text.
  pub filter_update-Updated :
      (sorted : List (ℕ × F) → List (ℕ × F)) (temporaries : Bool) (alloc : ℕ → Bool)
      → ((xs : List (ℕ × F)) → Perm (sorted xs) xs)
      → ((n : ℕ) → alloc n ≡ true)
      → (s : Filter F) → IsFresh c f s
      → let s' = filter_update c f sorted temporaries alloc s in Updated c f s s' × IsFresh c f s'
  unfolding filter_update
  filter_update-Updated sorted temporaries alloc p mem s fresh = (up, fresh_again _ up)
    where
      fresh_again : (s' : Filter F) → Updated c f s s' → IsFresh c f s'
      fresh_again s' u = rw (u.prev_input, u.entries, u.hits) u.found

      up : Updated c f s (filter_update c f sorted temporaries alloc s)
      up = elim (Bool-cases (length s.input == 0)) [
        | inl t ↦
            (let r =
                roomy sorted temporaries alloc p mem s
                  (λ t. publish c f sorted temporaries t (all_entries c f t)) in
              rw t (
                rw r.2 (
                  all_entries-Updated sorted temporaries alloc p s r.0 r.1
                    (length_zero s.input ((==_iff (length s.input) 0).0 t)))))
        | inr e ↦ rw e (elim (Bool-cases (appended s)) [
          | inl t ↦ rw t (
              publish-Updated sorted temporaries alloc p s s.filter_cap (survivors c f s)
                (Perm.map (λ p. p.0) (survivors-matches s fresh t))
                (λ n. survivors-matches s fresh t))
          | inr e ↦
              (let r =
                  roomy sorted temporaries alloc p mem s
                    (λ t. publish c f sorted temporaries t (rescan c f t)) in
                rw e (rw r.2 (rescan-Updated sorted temporaries alloc p s r.0 r.1)))
        ])
      ]
