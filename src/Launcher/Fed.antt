-- ===== src/Launcher/Fed.antt =====
-- The entries of tools/ulaunch/src/mode_dmenu.c are the lines of the input, however it is cut into
-- reads.
use uwm.Base.{
  ℕ, ◌*◌, ◌≤◌, ◌≡◌, refl, sym, ap, ◌∙◌, inl, inr, Bool, true, false, List, [], ◌∷◌, ◌++◌, arith,
  ◌==◌, ltb, leb, if◌then◌else◌, length, take, Bool-cases, ltb→lt,
}
use uwm.Base.Appends.{append_nil, append_assoc}
use uwm.Launcher.Room.{feed-Step}
use uwm.Launcher.Filter.{filter_reserve, want}
use uwm.Launcher.Feed.{
  Stream, Memory, Read, again, failed, bytes, line_max, newline, c_string, grow_arrays,
  append_entry, push_entry, flush, feed_byte, feed, dmenu_pump, pump_all,
}
use uwm.Launcher.Lines.{
  with_head, lines, line_entries, join_first, take_snoc_room, take_snoc_full, lines-join,
  join_first-with_head, pos_length, line_entries-cons, line_entries-first, not_ltb,
}

-- Every allocation succeeds.
pub record Plenty (m : Memory) : Type 0 where
  pub entries : (n : ℕ) → m.entries n ≡ true
  pub filter : (n : ℕ) → m.filter n ≡ true
  pub copy : (l : List ℕ) → m.copy l ≡ true

module _ (m : Memory) (p : Plenty m) where
  reserve_ok : (cap need : ℕ) → (filter_reserve m.filter cap need).1 ≡ true
  unfolding filter_reserve
  reserve_ok cap need = ground (arith, p.filter (want cap need))

  append_entry_ok :
      (line : List ℕ) (s : Stream)
      → let r = (append_entry m line s).0 in
        (r.entries ≡ s.entries ++ c_string line ∷ []) × (r.buf ≡ s.buf)
  unfolding append_entry
  append_entry_ok line s = rw (p.copy (c_string line)) (refl, refl)

  push_entry_ok :
      (line : List ℕ) (s : Stream)
      → let r = (push_entry m line s).0 in
        (r.entries ≡ s.entries ++ c_string line ∷ []) × (r.buf ≡ s.buf)
  unfolding push_entry grow_arrays
  push_entry_ok line s = elim (Bool-cases (leb s.cap_entries (length s.entries))) [
    | inl e ↦
        rw (e, p.entries (s.cap_entries * 2), reserve_ok s.filter_cap (s.cap_entries * 2))
          (append_entry_ok line _)
    | inr e ↦ rw e (append_entry_ok line s)
  ]

  flush_full :
      (y : ℕ) (ys : List ℕ) (s : Stream)
      → s.buf ≡ y ∷ ys
      → flush m s ≡ (push_entry m (y ∷ ys) (record s { buf = [] })).0
  unfolding flush push_entry grow_arrays append_entry
  flush_full y ys s e =
      ap (λ b. if ltb 0 (length b) then (push_entry m b (record s { buf = [] })).0 else s) e
      ∙ ap (λ c. if c then (push_entry m (y ∷ ys) (record s { buf = [] })).0 else s)
          (pos_length y ys)

  flush_empty : (s : Stream) → s.buf ≡ [] → flush m s ≡ s
  unfolding flush push_entry grow_arrays append_entry
  flush_empty s e =
      ap (λ b. if ltb 0 (length b) then (push_entry m b (record s { buf = [] })).0 else s) e

  -- What flushing adds, for a buffer that holds as much as fits of `raw`.
  flush-entries :
      (raw : List ℕ) (s : Stream)
      → s.buf ≡ take line_max raw
      → ((flush m s).entries ≡ s.entries ++ line_entries (raw ∷ [])) × ((flush m s).buf ≡ [])
  unfolding line_entries
  flush-entries [] s e =
      let q = flush_empty s e in
      (
        ap (λ (t : Stream). t.entries) q ∙ sym (append_nil s.entries),
        ap (λ (t : Stream). t.buf) q ∙ e,
      )
  flush-entries (x ∷ raw) s e =
      let q = flush_full x (take 4094 raw) s e in
      let done = push_entry_ok (x ∷ take 4094 raw) (record s { buf = [] }) in
      (
        ap (λ (t : Stream). t.entries) q
            ∙ done.0
            ∙ ap (λ l. s.entries ++ l) (sym (line_entries-cons x raw [])),
        ap (λ (t : Stream). t.buf) q ∙ done.1,
      )

  feed-newline :
      (b : ℕ) (bs : List ℕ) (s : Stream)
      → (b == newline) ≡ true
      → feed m (b ∷ bs) s ≡ feed m bs (flush m s)
  unfolding feed feed_byte flush push_entry grow_arrays append_entry
  feed-newline b bs s e =
      ap
        (λ c. feed m bs (
          if c
          then flush m s
          else if ltb (length s.buf) line_max
          then record s { buf = s.buf ++ b ∷ [] }
          else s))
        e

  feed_room :
      (b : ℕ) (bs : List ℕ) (s : Stream)
      → (b == newline) ≡ false
      → ltb (length s.buf) line_max ≡ true
      → feed m (b ∷ bs) s ≡ feed m bs (record s { buf = s.buf ++ b ∷ [] })
  unfolding feed feed_byte flush push_entry grow_arrays append_entry
  feed_room b bs s e f =
      ap
        (λ c. feed m bs (
          if c
          then flush m s
          else if ltb (length s.buf) line_max
          then record s { buf = s.buf ++ b ∷ [] }
          else s))
        e
      ∙ ap (λ c. feed m bs (if c then record s { buf = s.buf ++ b ∷ [] } else s)) f

  feed_full :
      (b : ℕ) (bs : List ℕ) (s : Stream)
      → (b == newline) ≡ false
      → ltb (length s.buf) line_max ≡ false
      → feed m (b ∷ bs) s ≡ feed m bs s
  unfolding feed feed_byte flush push_entry grow_arrays append_entry
  feed_full b bs s e f =
      ap
        (λ c. feed m bs (
          if c
          then flush m s
          else if ltb (length s.buf) line_max
          then record s { buf = s.buf ++ b ∷ [] }
          else s))
        e
      ∙ ap (λ c. feed m bs (if c then record s { buf = s.buf ++ b ∷ [] } else s)) f

  -- The entries once the buffer has been flushed.
  abbrev ends : Stream → List (List ℕ)
  ends s = (flush m s).entries

  feed-entries :
      (xs raw : List ℕ) (s : Stream)
      → s.buf ≡ take line_max raw
      → ends (feed m xs s) ≡ s.entries ++ line_entries (join_first raw (lines xs))
  unfolding feed lines
  feed-entries [] raw s e =
      (flush-entries raw s e).0
      ∙ ap (λ l. s.entries ++ line_entries (l ∷ [])) (sym (append_nil raw))
  feed-entries (b ∷ bs) raw s e = elim (Bool-cases (b == newline)) [
    | inl t ↦
        let f = flush-entries raw s e in
        ap ends (feed-newline b bs s t)
        ∙ feed-entries bs [] (flush m s) f.1
        ∙ ap (λ l. l ++ line_entries (join_first [] (lines bs))) f.0
        ∙ append_assoc s.entries (line_entries (raw ∷ [])) (line_entries (join_first [] (lines bs)))
        ∙ ap (λ l. s.entries ++ l) (joined bs t)
    | inr t ↦ elim (Bool-cases (ltb (length s.buf) line_max)) [
      | inl room ↦
          ap ends (feed_room b bs s t room)
          ∙ feed-entries bs (raw ++ b ∷ []) (record s { buf = s.buf ++ b ∷ [] }) (fits room)
          ∙ ap (λ l. s.entries ++ line_entries l) (sym (longer t))
      | inr full ↦
          ap ends (feed_full b bs s t full)
          ∙ feed-entries bs (raw ++ b ∷ []) s (e ∙ take_snoc_full line_max raw b (above full))
          ∙ ap (λ l. s.entries ++ line_entries l) (sym (longer t))
    ]
  ]
    where
      joined :
          (bs : List ℕ)
          → (b == newline) ≡ true
          → line_entries (raw ∷ []) ++ line_entries (join_first [] (lines bs))
            ≡ line_entries (join_first raw (lines (b ∷ bs)))
      joined bs t =
          ap (λ l. line_entries (raw ∷ []) ++ line_entries l) (lines-join bs)
          ∙ line_entries-first raw (lines bs)
          ∙ ap (λ l. line_entries (l ∷ lines bs)) (sym (append_nil raw))
          ∙ ap
              (λ c.
                line_entries (join_first raw (if c then [] ∷ lines bs else with_head b (lines bs))))
              (sym t)

      longer :
          (b == newline) ≡ false
          → join_first raw (lines (b ∷ bs)) ≡ join_first (raw ++ b ∷ []) (lines bs)
      longer t =
          ap (λ c. join_first raw (if c then [] ∷ lines bs else with_head b (lines bs))) t
          ∙ join_first-with_head raw b (lines bs)

      fits : ltb (length s.buf) line_max ≡ true → s.buf ++ b ∷ [] ≡ take line_max (raw ++ b ∷ [])
      fits room =
          ap (λ l. l ++ b ∷ []) e
          ∙ take_snoc_room line_max raw b
              (ltb→lt _ line_max (ap (λ l. ltb (length l) line_max) (sym e) ∙ room))

      above : ltb (length s.buf) line_max ≡ false → line_max ≤ length (take line_max raw)
      above full =
          not_ltb (length (take line_max raw)) line_max
            (ap (λ l. ltb (length l) line_max) (sym e) ∙ full)

-- The bytes of some reads, and whether all of them are more input or nothing yet.
abbrev pub content : List Read → List ℕ
content [] = []
content (again ∷ rs) = content rs
content (failed ∷ rs) = content rs
content (bytes bs ∷ rs) = bs ++ content rs

abbrev pub ongoing : List Read → Bool
ongoing [] = true
ongoing (again ∷ rs) = ongoing rs
ongoing (failed ∷ rs) = false
ongoing (bytes [] ∷ rs) = false
ongoing (bytes (b ∷ bs) ∷ rs) = ongoing rs

module _ (m : Memory) where
  feed-append : (xs ys : List ℕ) (s : Stream) → feed m (xs ++ ys) s ≡ feed m ys (feed m xs s)
  unfolding feed
  feed-append [] ys s = refl
  feed-append (x ∷ xs) ys s = feed-append xs ys (feed_byte m x s)

  not_done :
      (r : Read) (rs : List Read) (s : Stream)
      → s.stdin_done ≡ false
      → pump_all m (r ∷ rs) s ≡ pump_all m rs (dmenu_pump m r s).0
  unfolding pump_all
  not_done r rs s e = ap (λ c. if c then s else pump_all m rs (dmenu_pump m r s).0) e

  finished :
      (last : Read) (s : Stream) → pump_all m [] (dmenu_pump m last s).0 ≡ (dmenu_pump m last s).0
  unfolding pump_all
  finished last s = refl

  nothing : (s : Stream) → (dmenu_pump m again s).0 ≡ s
  unfolding dmenu_pump
  nothing s = refl

  fed : (b : ℕ) (bs : List ℕ) (s : Stream) → (dmenu_pump m (bytes (b ∷ bs)) s).0 ≡ feed m (b ∷ bs) s
  unfolding dmenu_pump feed
  fed b bs s = refl

  closed : (s : Stream) → (dmenu_pump m (bytes []) s).0 ≡ record (flush m s) { stdin_done = true }
  unfolding dmenu_pump flush push_entry grow_arrays append_entry
  closed s = refl

  pump_all-ongoing :
      (rs : List Read) (last : Read) (s : Stream)
      → ongoing rs ≡ true
      → s.stdin_done ≡ false
      → pump_all m (rs ++ last ∷ []) s ≡ (dmenu_pump m last (feed m (content rs) s)).0
  unfolding feed
  pump_all-ongoing [] last s o e = not_done last [] s e ∙ finished last s
  pump_all-ongoing (again ∷ rs) last s o e =
      not_done again (rs ++ last ∷ []) s e
      ∙ ap (λ t. pump_all m (rs ++ last ∷ []) t) (nothing s)
      ∙ pump_all-ongoing rs last s o e
  pump_all-ongoing (failed ∷ rs) last s o e = cc
  pump_all-ongoing (bytes [] ∷ rs) last s o e = cc
  pump_all-ongoing (bytes (b ∷ bs) ∷ rs) last s o e =
      not_done (bytes (b ∷ bs)) (rs ++ last ∷ []) s e
      ∙ ap (λ t. pump_all m (rs ++ last ∷ []) t) (fed b bs s)
      ∙ pump_all-ongoing rs last (feed m (b ∷ bs) s) o ((feed-Step m (b ∷ bs) s).stdin_done ∙ e)
      ∙ ap (λ t. (dmenu_pump m last t).0) (sym (feed-append (b ∷ bs) (content rs) s))

-- If every allocation succeeds, the reads up to the end of the input bring one entry for each
-- non-empty line, in order: the line's first 4095 bytes, up to a zero byte. The last line needs no
-- newline, and how the input is cut into reads does not matter.
pub pump_all-lines :
    (m : Memory) (rs : List Read) (s : Stream)
    → Plenty m
    → ongoing rs ≡ true
    → s.stdin_done ≡ false
    → s.buf ≡ []
    → let s' = pump_all m (rs ++ bytes [] ∷ []) s in
      (s'.entries ≡ s.entries ++ line_entries (lines (content rs))) × (s'.stdin_done ≡ true)
pump_all-lines m rs s p o e empty = (
  ap (λ (t : Stream). t.entries) q
      ∙ feed-entries m p (content rs) [] s empty
      ∙ ap (λ l. s.entries ++ line_entries l) (lines-join (content rs)),
  ap (λ (t : Stream). t.stdin_done) q,
)
  where
    q :
        pump_all m (rs ++ bytes [] ∷ []) s
        ≡ record (flush m (feed m (content rs) s)) { stdin_done = true }
    q = pump_all-ongoing m rs (bytes []) s o e ∙ closed m (feed m (content rs) s)
