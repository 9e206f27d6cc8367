-- ===== src/Contracts/Packed.antt =====
-- `prefix_length` accepts exactly the packed layouts of a prefix and one video tail.
use comfy_ui_sol_h.Contracts.Layout.{
  Layout, Segment, Cursor, Chain, IsPacked, place, place_all, prefix_length, video_start_of,
  span_at, known_kind, is_video,
}
use comfy_ui_sol_h.Base.{
  ℕ, Option, ◌≡◌, List, some, true, ◌++◌, false, ◌≤◌, ◌∷◌, arith, none, ◌⊎◌, [], inl, refl, inr, ap,
  some≢none, ◌∙◌, sym, ap₂, some-eq, ◌<◌, ◌↔◌, not, is_empty, ◌&&◌, subst, and_true,
}
use comfy_ui_sol_h.Py.{int, natural-eq, py_eq}
use comfy_ui_sol_h.Py.Outcome.{
  ok, ◌>>=◌, raise, >>=-eq-ok, ok-eq, assert, runtime_error, assert-true, ◌>>◌,
}
use comfy_ui_sol_h.Base.Int.{pos}
use mathlib.Core.List.{[]}

abbrev at_row : ℕ → Option ℕ → Cursor
at_row c v = record { cursor = c; video_start = v }

span_at-eq-some :
    (s : Segment) (c b : ℕ)
    → span_at s c ≡ some b
    → (s.a ≡ int (pos c)) × (s.b ≡ int (pos b)) × (c ≤ b)
unfolding span_at
span_at-eq-some s c b h = ground (arith, natural-eq s.a c, natural-eq s.b b)

span_at_lem :
    (s : Segment) (c b : ℕ) → s.a ≡ int (pos c) → s.b ≡ int (pos b) → c ≤ b → span_at s c ≡ some b
unfolding span_at
span_at_lem s c b ea eb h = ground arith

module _ (rows : ℕ) where
  -- A span that is no video.
  place_plain :
      (c b : ℕ) (v : Option ℕ) (s : Segment)
      → known_kind s.kind ≡ true
      → is_video s ≡ false
      → s.a ≡ int (pos c)
      → s.b ≡ int (pos b)
      → c ≤ b
      → place rows (at_row c v) s ≡ ok (at_row b v)
  unfolding place
  place_plain c b v s k nv ea eb h = ground (arith, span_at_lem s c b ea eb h)

  place_video :
      (c : ℕ) (s : Segment)
      → is_video s ≡ true
      → s.a ≡ int (pos c)
      → s.b ≡ int (pos rows)
      → c ≤ rows
      → place rows (at_row c none) s ≡ ok (at_row rows (some c))
  unfolding place known_kind
  place_video c s v ea eb h = ground (arith, span_at_lem s c rows ea eb h)

  -- What a span that is placed looks like.
  place-eq-ok :
      (c : ℕ) (v : Option ℕ) (s : Segment) (d : Cursor)
      → place rows (at_row c v) s ≡ ok d
      → (known_kind s.kind ≡ true)
        × (s.a ≡ int (pos c))
        × (s.b ≡ int (pos d.cursor))
        × (c ≤ d.cursor)
        × (((is_video s ≡ false) × (d.video_start ≡ v))
            ⊎ ((is_video s ≡ true) × (v ≡ none) × (d.cursor ≡ rows) × (d.video_start ≡ some c)))
  unfolding place
  place-eq-ok c v s d h = ground (arith, span_at-eq-some s c d.cursor)

  place_all-append :
      (c : Cursor) (xs ys : List Segment)
      → place_all rows c (xs ++ ys) ≡ (place_all rows c xs >>= λ d. place_all rows d ys)
  unfolding place_all
  place_all-append c [] ys = refl
  place_all-append c (x ∷ xs) ys =
      elim (place rows c x)
        as (λ m.
          (m >>= λ d. place_all rows d (xs ++ ys))
          ≡ ((m >>= λ d. place_all rows d xs) >>= λ d. place_all rows d ys)) [
            | ok d ↦ place_all-append d xs ys
            | raise e ↦ refl
          ]

  -- Placing a chain of plain spans.
  place_all-Chain :
      (c e : ℕ) (v : Option ℕ) (ss : List Segment)
      → Chain c e ss
      → place_all rows (at_row c v) ss ≡ ok (at_row e v)
  unfolding place_all
  place_all-Chain c e v [] h = rw h
  place_all-Chain c e v (s ∷ ss) (k, nv, b, ea, eb, le, rest) =
      ap (λ m. m >>= λ d. place_all rows d ss) (place_plain c b v s k nv ea eb le)
      ∙ place_all-Chain b e v ss rest

  -- Behind the video there are only plain spans.
  place_all-after :
      (c p : ℕ) (ss : List Segment) (d : Cursor)
      → place_all rows (at_row c (some p)) ss ≡ ok d
      → Chain c d.cursor ss × (d.video_start ≡ some p)
  unfolding place_all
  place_all-after c p [] d h = (ground arith, ground arith)
  place_all-after c p (s ∷ ss) d h =
      let (m, e₁, e₂) = >>=-eq-ok (place rows (at_row c (some p)) s) (λ d. place_all rows d ss) h in
      let (k, ea, eb, le, way) = place-eq-ok c (some p) s m e₁ in
      elim way [
        | inl (plain, same) ↦
            let stays : m ≡ at_row m.cursor (some p) = ap (at_row m.cursor) same in
            let (chain, kept) =
              place_all-after m.cursor p ss d (sym (ap (λ x. place_all rows x ss) stays) ∙ e₂) in
            ((k, plain, m.cursor, ea, eb, le, chain), kept)
        | inr (_, clash, _, _) ↦ absurd (some≢none clash)
      ]

  -- A layout with a video, split at it.
  Split : (c p e : ℕ) → List Segment → Type 0
  Split c p e ss =
      (before : List Segment) × (video : Segment) × (after : List Segment) × (ss
        ≡ before ++ video ∷ after)
      × Chain c p before
      × (is_video video ≡ true)
      × (video.a ≡ int (pos p))
      × (video.b ≡ int (pos rows))
      × Chain rows e after

  place_all-Split :
      (c p : ℕ) (ss : List Segment) (d : Cursor)
      → place_all rows (at_row c none) ss ≡ ok d
      → d.video_start ≡ some p
      → Split c p d.cursor ss
  unfolding place_all Split
  place_all-Split c p [] d h v =
      absurd (some≢none (sym v ∙ ap (λ (x : Cursor). x.video_start) (sym (ok-eq _ _ h))))
  place_all-Split c p (s ∷ ss) d h v =
      let (m, e₁, e₂) = >>=-eq-ok (place rows (at_row c none) s) (λ d. place_all rows d ss) h in
      let (k, ea, eb, le, way) = place-eq-ok c none s m e₁ in
      elim way [
        | inl (plain, same) ↦
            let stays : m ≡ at_row m.cursor none = ap (at_row m.cursor) same in
            let (before, video, after, eq, chain, tail, ev, ew, chain') =
              place_all-Split m.cursor p ss d (sym (ap (λ x. place_all rows x ss) stays) ∙ e₂) v in
            (
              s ∷ before,
              video,
              after,
              ap (◌∷◌ s) eq,
              (k, plain, m.cursor, ea, eb, le, chain),
              tail,
              ev,
              ew,
              chain',
            )
        | inr (video, _, at_end, start) ↦
            let stays : m ≡ at_row rows (some c) = ap₂ at_row at_end start in
            let (chain, kept) =
              place_all-after rows c ss d (sym (ap (λ x. place_all rows x ss) stays) ∙ e₂) in
            let same : c ≡ p = some-eq c p (sym kept ∙ v) in
            (
              [],
              s,
              ss,
              refl,
              same,
              video,
              ea ∙ ap (λ n. int (pos n)) same,
              eb ∙ ap (λ n. int (pos n)) at_end,
              chain,
            )
      ]

video_start_of-eq-ok :
    (rows : ℕ) (c : Cursor) (p : ℕ)
    → video_start_of rows c ≡ ok p
    → (c.video_start ≡ some p) × (c.cursor ≡ rows) × (0 < p) × (p < rows)
unfolding video_start_of
video_start_of-eq-ok rows c p h = ground arith

prefix_length_sound :
    (layout : Layout) (rows p : ℕ) → prefix_length layout rows ≡ ok p → IsPacked layout rows p
unfolding prefix_length Split
prefix_length_sound layout rows p h =
    let (t, e₀, e₁) =
      >>=-eq-ok (assert (not (is_empty layout.segments) && py_eq layout.seq_len (int (pos rows))) _)
        _ h in
    let (c, e₂, e₃) =
      >>=-eq-ok (place_all rows (at_row 0 none) layout.segments) (video_start_of rows) e₁ in
    let (ev, ec, lo, hi) = video_start_of-eq-ok rows c p e₃ in
    let (before, video, after, eq, chain, tail, ea, eb, chain') =
      place_all-Split rows 0 p layout.segments c e₂ ev in
    record {
      before = before;
      video = video;
      after = after;
      parts = eq;
      length_known = (and_true _ _ (assert-true _ _ e₀)).1;
      prefix = chain;
      is_tail = tail;
      starts = ea;
      ends = eb;
      nothing_after = subst (λ e. Chain rows e after) ec chain';
      prefix_rows = lo;
      video_rows = hi;
    }

not_empty : (xs : List Segment) (y : Segment) (ys : List Segment) → is_empty (xs ++ y ∷ ys) ≡ false
not_empty [] y ys = refl
not_empty (x ∷ xs) y ys = refl

video_start_of_lem :
    (rows p : ℕ) → 0 < p → p < rows → video_start_of rows (at_row rows (some p)) ≡ ok p
unfolding video_start_of
video_start_of_lem rows p lo hi = ground arith

placed :
    (rows p : ℕ) (layout : Layout)
    → IsPacked layout rows p
    → place_all rows (at_row 0 none) layout.segments ≡ ok (at_row rows (some p))
unfolding place_all
placed rows p layout k =
    ap (place_all rows (at_row 0 none)) k.parts
    ∙ place_all-append rows (at_row 0 none) k.before (k.video ∷ k.after)
    ∙ ap (λ m. m >>= λ d. place_all rows d (k.video ∷ k.after))
        (place_all-Chain rows 0 p none k.before k.prefix)
    ∙ ap (λ m. m >>= λ d. place_all rows d k.after)
        (place_video rows p k.video k.is_tail k.starts k.ends (omega (arith, k.video_rows)))
    ∙ place_all-Chain rows rows rows (some p) k.after k.nothing_after

prefix_length_complete :
    (layout : Layout) (rows p : ℕ) → IsPacked layout rows p → prefix_length layout rows ≡ ok p
unfolding prefix_length
prefix_length_complete layout rows p k =
    ap (λ m. m >> (place_all rows (at_row 0 none) layout.segments >>= video_start_of rows))
      (ready k)
    ∙ ap (λ m. m >>= video_start_of rows) (placed rows p layout k)
    ∙ video_start_of_lem rows p k.prefix_rows k.video_rows
  where
    ready :
        IsPacked layout rows p
        → assert
            (not (is_empty layout.segments) && py_eq layout.seq_len (int (pos rows)))
            (runtime_error "SOL needs the current native packed layout and matching row count")
          ≡ ok tt
    ready k = rw (k.length_known, ap is_empty k.parts ∙ not_empty k.before k.video k.after)

-- `prefix_length` returns `p` exactly for a layout of known spans, end to end over the rows of the
-- call: a nonempty prefix of `p` rows, then one nonempty video span up to the last row, then at
-- most empty spans.
pub prefix_length_iff :
    (layout : Layout) (rows p : ℕ) → (prefix_length layout rows ≡ ok p) ↔ IsPacked layout rows p
prefix_length_iff layout rows p =
    (prefix_length_sound layout rows p, prefix_length_complete layout rows p)
