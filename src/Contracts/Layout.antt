-- ===== src/Contracts/Layout.antt =====
-- `prefix_length` of sol_h3/contracts.py: the rows before the target video of a packed layout.
use comfy_ui_sol_h.Base.{
  ℕ, List, [], ◌∷◌, String, Option, Bool, ◌≡◌, str_eq, true, ◌++◌, ◌||◌, some, false, none, not,
  if◌then◌else◌, is_empty, ◌≤◌, ◌<◌, ◌==◌, ◌&&◌, leb, ltb,
}
use comfy_ui_sol_h.Py.{Value, int, natural, py_eq}
use comfy_ui_sol_h.Py.Outcome.{Outcome, ◌>>◌, ok, assert, ◌>>=◌, runtime_error, or_raise, raise}
use mathlib.Core.Option.{none}
use comfy_ui_sol_h.Base.Int.{pos}

-- One packed span, `(a, b, kind)`.
pub record Segment : Type 0 where
  pub a : Value
  pub b : Value
  pub kind : String

-- A layout that has no `segments`, or an empty one, is refused alike.
pub record Layout : Type 0 where
  pub segments : List Segment
  pub seq_len : Value

unfoldable pub known_kind : String → Bool
known_kind kind =
    str_eq kind "text"
    || str_eq kind "cond"
    || str_eq kind "cond_audio"
    || str_eq kind "ref_img"
    || str_eq kind "ref_audio"
    || str_eq kind "audio"
    || str_eq kind "video"

pub record Cursor : Type 0 where
  pub cursor : ℕ
  pub video_start : Option ℕ

abbrev is_none : Option ℕ → Bool
is_none none = true
is_none (some n) = false

-- A span whose ends are integers, `a` at the cursor and `b` not before it.
unfoldable pub span_at : Segment → ℕ → Option ℕ
span_at s cursor = elim (natural s.a) [
  | none ↦ none
  | some a ↦ elim (natural s.b) [
    | none ↦ none
    | some b ↦ if a == cursor && leb a b then some b else none
  ]
]

unfoldable pub place : ℕ → Cursor → Segment → Outcome Cursor
place rows c s = do
  assert (known_kind s.kind) (runtime_error "Unrecognized packed segment kind")
  b ←
      or_raise (span_at s c.cursor)
        (runtime_error "Packed segments must cover the sequence contiguously")
  let video = str_eq s.kind "video"
  assert (not video || (is_none c.video_start && b == rows))
      (runtime_error "SOL requires one contiguous target-video tail")
  ok (record { cursor = b; video_start = if video then some c.cursor else c.video_start })

unfoldable pub place_all : ℕ → Cursor → List Segment → Outcome Cursor
place_all rows c [] = ok c
place_all rows c (s ∷ ss) = do c' ← place rows c s; place_all rows c' ss

unfoldable pub video_start_of : ℕ → Cursor → Outcome ℕ
video_start_of rows c = elim c.video_start [
  | none ↦ raise (runtime_error "SOL requires a nonempty prefix and target-video tail")
  | some v ↦
      if c.cursor == rows && ltb 0 v && ltb v rows
      then ok v
      else raise (runtime_error "SOL requires a nonempty prefix and target-video tail")
]

-- `rows` is the number of rows of the call.
unfoldable pub prefix_length : Layout → ℕ → Outcome ℕ
unfolding place_all video_start_of
prefix_length layout rows = do
  assert (not (is_empty layout.segments) && py_eq layout.seq_len (int (pos rows)))
      (runtime_error "SOL needs the current native packed layout and matching row count")
  c ← place_all rows (record { cursor = 0; video_start = none }) layout.segments
  video_start_of rows c

abbrev pub is_video : Segment → Bool
is_video s = str_eq s.kind "video"

-- Known spans other than video, end to end from row `c` to row `e`.
abbrev pub Chain : (c e : ℕ) → List Segment → Type 0
Chain c e [] = c ≡ e
Chain c e (s ∷ ss) =
    (known_kind s.kind ≡ true)
    × (is_video s ≡ false)
    × (b : ℕ) × (s.a ≡ int (pos c))
    × (s.b ≡ int (pos b))
    × (c ≤ b)
    × Chain b e ss

-- A layout of a prefix of `p` rows and one video tail, with no rows behind it.
pub record IsPacked (layout : Layout) (rows p : ℕ) : Type 0 where
  pub before : List Segment
  pub video : Segment
  pub after : List Segment
  pub parts : layout.segments ≡ before ++ video ∷ after
  pub length_known : py_eq layout.seq_len (int (pos rows)) ≡ true
  pub prefix : Chain 0 p before
  pub is_tail : is_video video ≡ true
  pub starts : video.a ≡ int (pos p)
  pub ends : video.b ≡ int (pos rows)
  pub nothing_after : Chain rows rows after
  pub prefix_rows : 0 < p
  pub video_rows : p < rows
