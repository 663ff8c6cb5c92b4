-- ===== src/Launcher/Scored.antt =====
-- Which entries have a score: the loop of score_match (tools/ulaunch/src/filter.c) takes every
-- character of the needle at its first occurrence, which finds the needle whenever it can be found.
use uwm.Base.{
  ℕ, suc, ◌+◌, ◌<◌, ◌≤◌, ◌≡◌, refl, ◌⊎◌, inl, inr, true, false, ◌&&◌, Option, none, some, List, [],
  ◌∷◌, arith, ◌==◌, ltb, if◌then◌else◌, length, Bool-cases, Link, ◌=?◌, is_some, ==_iff,
  true_ne_false, sym, ◌∙◌, ◌↔◌,
}
use uwm.Launcher.{Chars, Floats, Lawful}
use uwm.Launcher.Match.{
  Embeds, done, here, skip, Embeds-tail, Embeds-length, is_separator, place_bonus, hit, score_loop,
  finish, score_match,
}

module _ {F : Type 0} (c : Chars) (f : Floats F) (AtLeastOne : F → Type 0)
    (lawful : Lawful f AtLeastOne) where
  place_bonus-AtLeastOne :
      (p : Option ℕ) (h : ℕ) (x : F) → AtLeastOne x → AtLeastOne (place_bonus c f p h x)
  unfolding place_bonus
  place_bonus-AtLeastOne none h x a = a
  place_bonus-AtLeastOne (some p) h x a = elim (Bool-cases (is_separator p)) [
    | inl t ↦ rw t (lawful.add_eight_tenths x a)
    | inr e ↦ rw e (elim (Bool-cases (c.isupper h && c.islower p)) [
      | inl t ↦ rw t (lawful.add_six_tenths x a)
      | inr e ↦ rw e a
    ])
  ]

  -- Either something is in the score, or nothing has been hit.
  abbrev Started : F → Link → Type 0
  Started x prev = AtLeastOne x ⊎ ((x ≡ f.zero_f) × (prev ≡ none))

  one-AtLeastOne : (x : F) (prev : Link) → Started x prev → AtLeastOne (f.add x f.one_f)
  one-AtLeastOne x prev (inl a) = lawful.add_one x a
  one-AtLeastOne x prev (inr (e, _)) = rw e lawful.add_zero

  hit-AtLeastOne :
      (p : Option ℕ) (h hi : ℕ) (prev : Link) (x : F)
      → Started x prev
      → AtLeastOne (hit c f p h hi prev x)
  unfolding hit
  hit-AtLeastOne p h hi none x s = place_bonus-AtLeastOne p h _ (one-AtLeastOne x none s)
  hit-AtLeastOne p h hi (some i) x s = elim (Bool-cases (hi == i + 1)) [
    | inl t ↦ rw t (place_bonus-AtLeastOne p h _ (lawful.add_half _ (one-AtLeastOne x (some i) s)))
    | inr e ↦ rw e (place_bonus-AtLeastOne p h _ (one-AtLeastOne x (some i) s))
  ]

  abbrev Loop : (ns hs : List ℕ) → Option (F × Link) → Type 0
  Loop ns hs r =
      ((x : F) × (first : Link) × (r ≡ some (x, first)) × AtLeastOne x × Embeds c ns hs)
      ⊎ ((r ≡ none) × (¬ Embeds c ns hs))

  no_room : (n : ℕ) (ns : List ℕ) → ¬ Embeds c (n ∷ ns) []
  no_room n ns r = let z = Embeds-length c r in omega arith

  behind_hit : (n h : ℕ) (ns hs : List ℕ) → Embeds c (n ∷ ns) (h ∷ hs) → Embeds c ns hs
  behind_hit n h ns hs (here _ _ _ _ e r) = r
  behind_hit n h ns hs (skip _ _ _ r) = Embeds-tail c r

  behind_miss :
      (n h : ℕ) (ns hs : List ℕ)
      → (c.tolower n == c.tolower h) ≡ false
      → Embeds c (n ∷ ns) (h ∷ hs)
      → Embeds c (n ∷ ns) hs
  behind_miss n h ns hs q (here _ _ _ _ e r) =
      absurd (true_ne_false (sym ((==_iff (c.tolower n) (c.tolower h)).1 e) ∙ q))
  behind_miss n h ns hs q (skip _ _ _ r) = r

  after_hit :
      (n h : ℕ) (ns hs : List ℕ) (r : Option (F × Link))
      → c.tolower n ≡ c.tolower h
      → Loop ns hs r
      → Loop (n ∷ ns) (h ∷ hs) r
  after_hit n h ns hs r q (inl (x, i, e, a, m)) = inl (x, i, e, a, here n h ns hs q m)
  after_hit n h ns hs r q (inr (e, m)) = inr (e, λ z. m (behind_hit n h ns hs z))

  after_miss :
      (n h : ℕ) (ns hs : List ℕ) (r : Option (F × Link))
      → (c.tolower n == c.tolower h) ≡ false
      → Loop (n ∷ ns) hs r
      → Loop (n ∷ ns) (h ∷ hs) r
  after_miss n h ns hs r q (inl (x, i, e, a, m)) = inl (x, i, e, a, skip h (n ∷ ns) hs m)
  after_miss n h ns hs r q (inr (e, m)) = inr (e, λ z. m (behind_miss n h ns hs q z))

  from_hit :
      (ns hs : List ℕ) (p : Option ℕ) (hi : ℕ) (prev first : Link) (x : F)
      → AtLeastOne x ⊎ ((x ≡ f.zero_f) × (prev ≡ none) × (0 < length ns))
      → Loop ns hs (score_loop c f ns hs p hi prev first x)
  unfolding score_loop
  from_hit [] hs p hi prev first x (inl a) = inl (x, first, refl, a, done hs)
  from_hit [] hs p hi prev first x (inr (_, _, lt)) = absurd (omega arith)
  from_hit (n ∷ ns) [] p hi prev first x s = inr (refl, no_room n ns)
  from_hit (n ∷ ns) (h ∷ hs) p hi prev first x s = elim (Bool-cases (c.tolower n == c.tolower h)) [
    | inl t ↦ rw t (
        after_hit n h ns hs _ ((==_iff (c.tolower n) (c.tolower h)).0 t) (
          from_hit ns hs (some h) (hi + 1) (some hi) (if is_some first then first else some hi)
            (hit c f p h hi prev x) (inl (hit-AtLeastOne p h hi prev x (started s)))))
    | inr q ↦
        rw q (after_miss n h ns hs _ q (from_hit (n ∷ ns) hs (some h) (hi + 1) prev first x s))
  ]
    where
      started :
          AtLeastOne x ⊎ ((x ≡ f.zero_f) × (prev ≡ none) × (0 < suc (length ns))) → Started x prev
      started (inl a) = inl a
      started (inr (e, q, _)) = inr (e, q)

  finish_gt_zero :
      (nlen nhits : ℕ) (x : F) (first : Link)
      → AtLeastOne x
      → f.gt (finish c f nlen nhits (some (x, first))) f.zero_f ≡ true
  unfolding finish
  finish_gt_zero nlen nhits x first a = elim (Bool-cases (first =? some 0)) [
    | inl t ↦ rw t (boosted (f.add x f.half_f) (lawful.add_half x a))
    | inr e ↦ rw e (boosted x a)
  ]
    where
      boosted :
          (y : F)
          → AtLeastOne y
          → f.gt
              (if ltb 0 nhits
                then f.mul (f.over y (nlen + 1)) (f.boost nhits)
                else f.over y (nlen + 1))
              f.zero_f
            ≡ true
      boosted y b = elim (Bool-cases (ltb 0 nhits)) [
        | inl t ↦ rw t (lawful.mul_gt_zero _ nhits (lawful.over_gt_zero y (nlen + 1) b))
        | inr e ↦ rw e (lawful.over_gt_zero y (nlen + 1) b)
      ]

  scored :
      (ns hs : List ℕ) (nhits : ℕ) (r : Option (F × Link))
      → Loop ns hs r
      → (f.gt (finish c f (length ns) nhits r) f.zero_f ≡ true) ↔ Embeds c ns hs
  unfolding finish
  scored ns hs nhits r (inl (x, i, e, a, m)) =
      (λ q. m, λ z. rw e (finish_gt_zero (length ns) nhits x i a))
  scored ns hs nhits r (inr (e, m)) =
      (rw e (λ q. absurd (true_ne_false (sym q ∙ lawful.not_gt_zero))), λ z. absurd (m z))

  -- With arithmetic that keeps positive scores positive, an entry scores more than zero exactly if the
  -- characters of the needle occur in it, in order and up to case, whatever its number of hits.
  pub score_match-Embeds :
      (needle haystack : List ℕ) (nhits : ℕ)
      → (f.gt (score_match c f needle haystack nhits) f.zero_f ≡ true) ↔ Embeds c needle haystack
  unfolding score_match
  score_match-Embeds [] hs nhits = (λ q. done hs, λ z. lawful.one_gt_zero)
  score_match-Embeds (n ∷ ns) hs nhits =
      rw (suc_not_zero (length ns)) (elim (Bool-cases (ltb (length hs) (suc (length ns)))) [
        | inl t ↦ rw t (
          λ q. absurd (true_ne_false (sym q ∙ lawful.not_gt_zero)),
          λ z. absurd (too_long (Embeds-length c z) t),
        )
        | inr e ↦ rw e (
            scored (n ∷ ns) hs nhits _
              (from_hit (n ∷ ns) hs none 0 none none f.zero_f (inr (refl, refl, omega arith))))
      ])
    where
      suc_not_zero : (m : ℕ) → (suc m == 0) ≡ false
      suc_not_zero m = ground arith

      too_long : suc (length ns) ≤ length hs → ltb (length hs) (suc (length ns)) ≡ true → ⊥
      too_long le t = ground arith
