-- ===== src/Launcher/Room.antt =====
-- The arrays of tools/ulaunch/src/mode_dmenu.c: no write leaves the line buffer or the array of
-- entries, whatever allocation fails.
use uwm.Base.{
  ℕ, ◌+◌, ◌*◌, ◌<◌, ◌≤◌, ◌≡◌, refl, sym, ap, ◌∙◌, inl, inr, Bool, true, false, List, [], ◌∷◌, ◌++◌,
  arith, ◌==◌, ltb, leb, not, if◌then◌else◌, length, length-append, Bool-cases, true_ne_false,
  ltb→lt,
}
use uwm.Launcher.Filter.{filter_reserve}
use uwm.Launcher.Feed.{
  Stream, Memory, Read, again, failed, bytes, line_max, newline, c_string, grow_arrays,
  append_entry, push_entry, flush, feed_byte, feed, dmenu_pump,
}

-- The buffered line and a zero fit the buffer, and the entries fit their array.
pub record Room (s : Stream) : Type 0 where
  pub buf : length s.buf ≤ line_max
  pub entries : length s.entries ≤ s.cap_entries
  pub cap : 0 < s.cap_entries

-- What every step of the loops keeps.
pub record Step (s s' : Stream) : Type 0 where
  pub stdin_done : s'.stdin_done ≡ s.stdin_done
  pub grows : length s.entries ≤ length s'.entries
  pub room : Room s → Room s'

Step-refl : (s : Stream) → Step s s
Step-refl s = record { stdin_done = refl; grows = omega arith; room = λ r. r }

Step-trans : (s s' s'' : Stream) → Step s s' → Step s' s'' → Step s s''
Step-trans s s' s'' a b = record {
  stdin_done = b.stdin_done ∙ a.stdin_done;
  grows = omega (arith, a.grows, b.grows);
  room = λ r. b.room (a.room r);
}

leb_ge : (a b : ℕ) → leb a b ≡ true → a ≤ b
leb_ge a b e = ground arith

leb_lt : (a b : ℕ) → leb a b ≡ false → b < a
leb_lt a b e = ground arith

module _ (m : Memory) where
  -- With room for one more entry.
  append_entry-Step :
      (line : List ℕ) (s s' : Stream)
      → Step s s'
      → (Room s → length s'.entries < s'.cap_entries)
      → Step s (append_entry m line s').0
  unfolding append_entry
  append_entry-Step line s s' a free = elim (Bool-cases (m.copy (c_string line))) [
    | inl e ↦ rw e (record {
      stdin_done = a.stdin_done;
      grows = omega (arith, a.grows, length-append s'.entries (c_string line ∷ []));
      room = λ r. record {
        buf = (a.room r).buf;
        entries = omega (arith, length-append s'.entries (c_string line ∷ []), free r);
        cap = (a.room r).cap;
      };
    })
    | inr e ↦ rw e a
  ]

  -- What growing leaves: twice the room, if it succeeds.
  abbrev Grown : Stream → Stream × Bool → Type 0
  Grown s r =
      Step s r.0 × (r.0.entries ≡ s.entries) × (r.1 ≡ true → r.0.cap_entries ≡ s.cap_entries * 2)

  Grown-with :
      (s : Stream) (array : Bool) (cap : ℕ) (ok : Bool)
      → Grown s (
          if not array
          then (s, false)
          else if ok
          then (record s { cap_entries = s.cap_entries * 2; filter_cap = cap }, true)
          else (record s { filter_cap = cap }, false))
  Grown-with s false cap ok = (Step-refl s, refl, λ e. absurd (true_ne_false (sym e)))
  Grown-with s true cap true = (
    record {
      stdin_done = refl;
      grows = omega arith;
      room = λ r. record {
        buf = r.buf;
        entries = omega (arith, r.entries);
        cap = omega (arith, r.cap);
      };
    },
    refl,
    λ e. refl,
  )
  Grown-with s true cap false = (
    record {
      stdin_done = refl;
      grows = omega arith;
      room = λ r. record { buf = r.buf; entries = r.entries; cap = r.cap };
    },
    refl,
    λ e. absurd (true_ne_false (sym e)),
  )

  grow_arrays-Grown : (s : Stream) → Grown s (grow_arrays m s)
  unfolding grow_arrays
  grow_arrays-Grown s =
      Grown-with s (m.entries (s.cap_entries * 2))
        (filter_reserve m.filter s.filter_cap (s.cap_entries * 2)).0
        (filter_reserve m.filter s.filter_cap (s.cap_entries * 2)).1

  push-Grown :
      (line : List ℕ) (s : Stream) (r : Stream × Bool)
      → Grown s r
      → Step s (if r.1 then append_entry m line r.0 else (r.0, false)).0
  push-Grown line s (s', true) (a, e, twice) =
      append_entry-Step line s s' a
        (λ r. omega (arith, r.entries, r.cap, twice refl, ap (λ (l : List (List ℕ)). length l) e))
  push-Grown line s (s', false) (a, _, _) = a

  push_entry-Step : (line : List ℕ) (s : Stream) → Step s (push_entry m line s).0
  unfolding push_entry grow_arrays append_entry
  push_entry-Step line s = elim (Bool-cases (leb s.cap_entries (length s.entries))) [
    | inl e ↦ rw e (push-Grown line s (grow_arrays m s) (grow_arrays-Grown s))
    | inr e ↦
        rw e (
          append_entry-Step line s s (Step-refl s) (λ r. leb_lt s.cap_entries (length s.entries) e))
  ]

  emptied : (s : Stream) → Step s (record s { buf = [] })
  emptied s = record {
    stdin_done = refl;
    grows = omega arith;
    room = λ r. record { buf = omega arith; entries = r.entries; cap = r.cap };
  }

  pub flush-Step : (s : Stream) → Step s (flush m s)
  unfolding flush push_entry grow_arrays append_entry
  flush-Step s = elim (Bool-cases (ltb 0 (length s.buf))) [
    | inl e ↦ rw e (
        Step-trans s (record s { buf = [] }) (push_entry m s.buf (record s { buf = [] })).0
          (emptied s) (push_entry-Step s.buf (record s { buf = [] })))
    | inr e ↦ rw e (Step-refl s)
  ]

  longer :
      (b : ℕ) (s : Stream) → length s.buf < line_max → Step s (record s { buf = s.buf ++ b ∷ [] })
  longer b s lt = record {
    stdin_done = refl;
    grows = omega arith;
    room = λ r. record {
      buf = omega (arith, length-append s.buf (b ∷ []), lt);
      entries = r.entries;
      cap = r.cap;
    };
  }

  feed_byte-Step : (b : ℕ) (s : Stream) → Step s (feed_byte m b s)
  unfolding feed_byte flush push_entry grow_arrays append_entry
  feed_byte-Step b s = elim (Bool-cases (b == newline)) [
    | inl e ↦ rw e (flush-Step s)
    | inr e ↦ rw e (elim (Bool-cases (ltb (length s.buf) line_max)) [
      | inl lt ↦ rw lt (longer b s (ltb→lt (length s.buf) line_max lt))
      | inr ge ↦ rw ge (Step-refl s)
    ])
  ]

  pub feed-Step : (bs : List ℕ) (s : Stream) → Step s (feed m bs s)
  unfolding feed
  feed-Step [] s = Step-refl s
  feed-Step (b ∷ bs) s =
      Step-trans s (feed_byte m b s) (feed m bs (feed_byte m b s)) (feed_byte-Step b s)
        (feed-Step bs (feed_byte m b s))

  -- Whatever is read and whatever allocation fails, dmenu_pump keeps the buffered line with its zero
  -- within the line buffer and the entries within their array, drops no entry, and returns how many
  -- it has added.
  pub dmenu_pump-Room :
      (r : Read) (s : Stream)
      → Room s
      → let (s', n) = dmenu_pump m r s in Room s' × (length s'.entries ≡ length s.entries + n)
  unfolding dmenu_pump
  dmenu_pump-Room again s v = (v, omega arith)
  dmenu_pump-Room failed s v =
      (record { buf = v.buf; entries = v.entries; cap = v.cap }, omega arith)
  dmenu_pump-Room (bytes []) s v =
      let a = flush-Step s in
      let w = a.room v in
      (record { buf = w.buf; entries = w.entries; cap = w.cap }, omega (arith, a.grows))
  dmenu_pump-Room (bytes (b ∷ bs)) s v =
      let a = feed-Step (b ∷ bs) s in (a.room v, omega (arith, a.grows))
