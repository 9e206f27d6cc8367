-- ===== src/MappedNeighbors/Wire/Sound.antt =====
-- The maps that `validate_wire_map` accepts are the encodings of the well-formed ones.
use comfy_ui_sol_h.Base.{
  ℕ, ◌+◌, ◌≤◌, ◌≡◌, refl, ap, ◌∙◌, Bool, true, false, leb, ◌==◌, Option, none, some, List, arith,
  inl, inr, Option-cases, all, ◌<◌, ◌&&◌, ◌-◌, ◌++◌, ◌∷◌, [], map, append-nil, append_assoc, subst₂,
  ap₂, sym,
}
use comfy_ui_sol_h.Base.Int.{ℤ, pos, negsuc, ltb_ℤ}
use comfy_ui_sol_h.Py.{Value, int, tuple, nil, cons, natural, natural-eq}
use comfy_ui_sol_h.MappedNeighbors.Types.{
  Reason, Result, ok, unavailable, ◌>>=◌, ◌>>◌, guard, require, Run, int32_max,
}
use comfy_ui_sol_h.MappedNeighbors.Wire.{
  strict_int, triple, run_of, read_run, run_value, Scan, accept_run, scan_runs, scan_run,
}
use comfy_ui_sol_h.MappedNeighbors.Wire.Runs.{span, RunsFrom}

-- Inversion of a successful bind.
pub ok-eq {ℓ} : {A : Type ℓ} (a b : A) → ok a ≡ ok b → a ≡ b
ok-eq a b h = cc

pub >>=-eq-ok {κ ℓ} :
    {Found : Type κ} {Next : Type ℓ} (first : Result Found) (next : Found → Result Next)
    {final : Next}
    → (first >>= next) ≡ ok final
    → (found : Found) × (first ≡ ok found) × (next found ≡ ok final)
>>=-eq-ok (unavailable reason) next failed = cc
>>=-eq-ok (ok found) next reached = (found, refl, reached)

pub guard-eq-ok {κ} :
    {B : Type κ} (t : Bool) (e : Reason) (k : Result B) {b : B}
    → (guard t e >> k) ≡ ok b
    → (t ≡ true) × (k ≡ ok b)
guard-eq-ok true e k h = (refl, h)
guard-eq-ok false e k h = cc

pub require-eq-ok {ℓ} :
    {A : Type ℓ} (o : Option A) (e : Reason) {a : A} → require o e ≡ ok a → o ≡ some a
require-eq-ok (some x) e h = cc
require-eq-ok none e h = cc

pub strict_int-eq-ok :
    (v : Value) (m n : ℕ) → strict_int v m ≡ ok n → (v ≡ int (pos n)) × (m ≤ n) × (n ≤ int32_max)
unfolding strict_int
strict_int-eq-ok v m n h = elim (Option-cases (natural v)) [
  | inl e ↦ ground arith
  | inr (x, e) ↦
      let same : x ≡ n = ground arith in
      (natural-eq v n (e ∙ ap some same), ground arith, ground arith)
]

pub strict_int-pos : (m n : ℕ) → m ≤ n → n ≤ int32_max → strict_int (int (pos n)) m ≡ ok n
unfolding strict_int
strict_int-pos m n h k = ground arith

triple-eq-ok :
    (v a b c : Value) → triple v ≡ ok (a, b, c) → v ≡ tuple (cons a (cons b (cons c nil)))
unfolding triple
triple-eq-ok (tuple (cons x (cons y (cons z nil)))) a b c h = cc
triple-eq-ok v a b c h = cc

run_of-eq-ok :
    (a b c : Value) (r : Run)
    → run_of a b c ≡ ok r
    → (a ≡ int (pos r.q_begin)) × (b ≡ int (pos r.q_end)) × (c ≡ int (pos r.kv_begin))
unfolding run_of
run_of-eq-ok a b c r h = ground (
  arith,
  strict_int-eq-ok a 0 r.q_begin,
  strict_int-eq-ok b 1 r.q_end,
  strict_int-eq-ok c 0 r.kv_begin,
)

-- A raw run that is read is the encoding of what was read.
read_run-eq-ok : (v : Value) (r : Run) → read_run v ≡ ok r → v ≡ run_value r
unfolding read_run
read_run-eq-ok v r h =
    let ((a, b, c), t, k) = >>=-eq-ok (triple v) (λ t. run_of t.0 t.1 t.2) h in
    ground (arith, triple-eq-ok v a b c t, run_of-eq-ok a b c r k)

read_run_value :
    (r : Run)
    → 1 ≤ r.q_end
    → r.q_begin ≤ r.q_end
    → r.q_end ≤ int32_max
    → r.kv_begin ≤ int32_max
    → read_run (run_value r) ≡ ok r
unfolding read_run
read_run_value r pos_end le fits kfits =
    ground
      (arith, strict_int-pos 0 r.q_begin, strict_int-pos 1 r.q_end, strict_int-pos 0 r.kv_begin)

-- The first key row that the next run may take.
abbrev pub next_free : ℤ → ℕ
next_free (pos p) = p + 1
next_free (negsuc n) = 0

abbrev pub aligned : List Run → Bool
aligned = all (λ r. r.kv_begin == r.q_begin)

ltb_ℤ-next_free : (z : ℤ) (n : ℕ) → ltb_ℤ z (pos n) ≡ leb (next_free z) n
ltb_ℤ-next_free (pos p) n = ground arith
ltb_ℤ-next_free (negsuc p) n = ground arith

module _ (q_rows kv_rows : ℕ) where
  abbrev Follows : Scan → Run → Scan → Type 0
  Follows s r s' =
      (r.q_begin ≡ s.expected_q)
      × (s.expected_q < r.q_end)
      × (r.q_end ≤ q_rows)
      × (next_free s.previous_position ≤ r.kv_begin)
      × (r.kv_begin + span r ≤ kv_rows)
      × (s'.expected_q ≡ r.q_end)
      × (next_free s'.previous_position ≡ r.kv_begin + span r)
      × (s'.identity_aligned ≡ (s.identity_aligned && r.kv_begin == r.q_begin))
      × (s'.runs ≡ s.runs ++ r ∷ [])

  accept_run-eq-ok :
      (s s' : Scan) (r : Run) → accept_run q_rows kv_rows s r ≡ ok s' → Follows s r s'
  unfolding accept_run
  accept_run-eq-ok s s' r h = ground (arith, ltb_ℤ-next_free s.previous_position r.kv_begin)

  accept_run_lem :
      (s : Scan) (r : Run)
      → r.q_begin ≡ s.expected_q
      → s.expected_q < r.q_end
      → r.q_end ≤ q_rows
      → next_free s.previous_position ≤ r.kv_begin
      → r.kv_begin + span r ≤ kv_rows
      → (s' : Scan) × (accept_run q_rows kv_rows s r ≡ ok s')
  unfolding accept_run
  accept_run_lem s r b lt le above fits = (
    record {
      expected_q = r.q_end;
      previous_position = pos (r.kv_begin + span r - 1);
      identity_aligned = s.identity_aligned && r.kv_begin == r.q_begin;
      runs = s.runs ++ r ∷ [];
    },
    ground (arith, ltb_ℤ-next_free s.previous_position r.kv_begin),
  )

  pub scan_runs_sound :
      (raws : List Value) (s t : Scan)
      → scan_runs q_rows kv_rows s raws ≡ ok t
      → t.expected_q ≡ q_rows
      → (rs : List Run) × (t.runs ≡ s.runs ++ rs)
        × (t.identity_aligned ≡ (s.identity_aligned && aligned rs))
        × RunsFrom q_rows kv_rows s.expected_q (next_free s.previous_position) rs
        × (raws ≡ map run_value rs)
  unfolding scan_runs
  scan_runs_sound [] s t h e =
      ([], ground (arith, append-nil s.runs), ground arith, ground arith, refl)
  scan_runs_sound (raw ∷ raws) s t h e =
      let (s', h₁, h₂) =
        >>=-eq-ok (scan_run q_rows kv_rows s raw) (λ u. scan_runs q_rows kv_rows u raws) h in
      let (r, h₃, h₄) = >>=-eq-ok (read_run raw) (accept_run q_rows kv_rows s) h₁ in
      let (rs, er, ei, follow, eq) = scan_runs_sound raws s' t h₂ e in
      let (b, lt, le, above, fits, ee, en, ea, el) = accept_run-eq-ok s s' r h₄ in
      (
        r ∷ rs,
        er ∙ rw el (append_assoc s.runs (r ∷ []) rs),
        ground arith,
        (b, lt, le, above, fits, subst₂ (λ x y. RunsFrom q_rows kv_rows x y rs) ee en follow),
        ap₂ ◌∷◌ (read_run-eq-ok raw r h₃) eq,
      )

  pub scan_runs_complete :
      (rs : List Run) (s : Scan)
      → q_rows ≤ int32_max
      → kv_rows ≤ int32_max
      → RunsFrom q_rows kv_rows s.expected_q (next_free s.previous_position) rs
      → (t : Scan) × (scan_runs q_rows kv_rows s (map run_value rs) ≡ ok t)
        × (t.expected_q ≡ q_rows)
        × (t.runs ≡ s.runs ++ rs)
        × (t.identity_aligned ≡ (s.identity_aligned && aligned rs))
  unfolding scan_runs
  scan_runs_complete [] s mq mk h = (s, refl, h, sym (append-nil s.runs), ground arith)
  scan_runs_complete (r ∷ rs) s mq mk (b, lt, le, above, fits, rest) =
      let (s', e) = accept_run_lem s r b lt le above fits in
      let (_, _, _, _, _, ee, en, ea, el) = accept_run-eq-ok s s' r e in
      let (t, et, eq, er, ei) =
        scan_runs_complete rs s' mq mk
          (subst₂ (λ x y. RunsFrom q_rows kv_rows x y rs) (sym ee) (sym en) rest) in
      (
        t,
        ap
              (λ m. m >>= accept_run q_rows kv_rows s >>= λ u.
                scan_runs q_rows kv_rows u (map run_value rs))
              (read_run_value r (omega arith) (omega arith) (omega arith) (omega arith))
            ∙ ap (λ m. m >>= λ u. scan_runs q_rows kv_rows u (map run_value rs)) e
            ∙ et,
        eq,
        er ∙ rw el (append_assoc s.runs (r ∷ []) rs),
        ground arith,
      )
