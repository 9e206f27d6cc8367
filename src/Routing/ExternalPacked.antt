-- ===== src/Routing/ExternalPacked.antt =====
-- The sequences for which `_external_sequence_prefix` of sol_h3/runtime.py gives a prefix.
use comfy_ui_sol_h.Py.Outcome.{Outcome}
use comfy_ui_sol_h.Contracts.Layout.{Layout, prefix_length, IsPacked}
use comfy_ui_sol_h.Base.{
  ℕ, String, Bool, ◌<◌, ◌≡◌, ◌≢◌, if◌then◌else◌, ◌+◌, not, true, ◌*◌, Bool-cases, ◌⊎◌, ◌-◌, ◌==◌,
  refl, all, inl, and_true, sym, if-true, ◌∙◌, ==→eq, inr, subst, if-false, ap, ltb→lt, suc, arith,
}
use comfy_ui_sol_h.Routing.External.{
  counts_agree, external_sequence_prefix, prefix_of, refused, layout_prefix, Prefix, same_prefix,
  sequence_of, supported, native_rows, external_fields, mixed_rows,
}
use comfy_ui_sol_h.Py.{Value, py_eq, int, is_int, get}
use mathlib.Core.Bool.{false}
use comfy_ui_sol_h.Base.Int.{negsuc, pos_part, pos, int_eq, int_eq→eq, ℤ, ltb_ℤ}
use comfy_ui_sol_h.MixedMeasure.Contract.{ordered, count_in, whole_number}
use comfy_ui_sol_h.MixedMeasure.Accounted.{ordered-lt}
use comfy_ui_sol_h.Contracts.Packed.{prefix_length_iff}

-- The contract names a prefix of `start` rows in front of `t` frames, `p` of them with `m` rows and
-- the others with `n`; and a layout is packed behind the same prefix, of these rows or of those of
-- `t` frames with `n` rows.
pub record IsExternal (contract : Value) (layout : Layout) (rows start : ℕ) : Type 0 where
  pub t : ℕ
  pub p : ℕ
  pub m : ℕ
  pub n : ℕ
  pub start_named : get "video_start" contract ≡ int (pos start)
  pub t_named : get "temporal" contract ≡ int (pos t)
  pub p_named : get "prefix_t" contract ≡ int (pos p)
  pub m_named : get "prefix_rows_per_frame" contract ≡ int (pos m)
  pub n_named : get "source_rows_per_frame" contract ≡ int (pos n)
  pub rows_named : get "sequence_rows" contract ≡ int (pos rows)
  pub native_named : get "native_sequence_rows" contract ≡ int (pos (start + t * n))
  pub some_prefix : 0 < start
  pub some_protected : 0 < p
  pub some_suffix : p < t
  pub some_rows : 0 < n
  pub denser : n < m
  pub all_rows : rows ≡ start + p * m + (t - p) * n
  pub packed : IsPacked layout (start + t * n) start ⊎ IsPacked layout rows start

prefix-eq : (a b : ℕ) → prefix_of a ≡ prefix_of b → a ≡ b
prefix-eq a b h = cc

refused≢prefix : (reason : String) (p : ℕ) → refused reason ≢ prefix_of p
refused≢prefix reason p h = cc

same_prefix-packed :
    (layout : Layout) (rows start p : ℕ) (o : Outcome ℕ)
    → prefix_length layout rows ≡ o
    → same_prefix start o ≡ prefix_of p
    → (start ≡ p) × IsPacked layout rows p
same_prefix-packed layout rows start p (Outcome.raise exn) e h = absurd (refused≢prefix _ p h)
same_prefix-packed layout rows start p (Outcome.ok found) e h = elim (Bool-cases (found == start)) [
  | inl same ↦
      let own = prefix-eq start p (sym (if-true (found == start) _ _ same) ∙ h) in
      let here = ==→eq found start same ∙ own in
      (own, (prefix_length_iff layout rows p).0 (e ∙ ap Outcome.ok here))
  | inr other ↦ absurd (refused≢prefix _ p (sym (if-false (found == start) _ _ other) ∙ h))
]

layout_prefix-packed :
    (layout : Layout) (native actual start p : ℕ)
    → layout_prefix layout native actual start ≡ prefix_of p
    → (start ≡ p) × (IsPacked layout native p ⊎ IsPacked layout actual p)
layout_prefix-packed layout native actual start p h =
    elim (Bool-cases (py_eq layout.seq_len (int (pos native)))) [
      | inl whole ↦
          let (own, packed) =
            same_prefix-packed layout native start p (prefix_length layout native) refl
              (sym (if-true (py_eq layout.seq_len (int (pos native))) _ _ whole) ∙ h) in
          (own, inl packed)
      | inr not_native ↦
          let rest = sym (if-false (py_eq layout.seq_len (int (pos native))) _ _ not_native) ∙ h in
          elim (Bool-cases (py_eq layout.seq_len (int (pos actual)))) [
            | inl mixed ↦
                let (own, packed) =
                  same_prefix-packed layout actual start p (prefix_length layout actual) refl
                    (sym (if-true (py_eq layout.seq_len (int (pos actual))) _ _ mixed) ∙ rest) in
                (own, inr packed)
            | inr neither ↦ absurd (
                refused≢prefix _ p
                  (sym (if-false (py_eq layout.seq_len (int (pos actual))) _ _ neither) ∙ rest))
          ]
    ]

passed :
    (b : Bool) (reason : String) (next : Prefix) (p : ℕ)
    → (if not b then refused reason else next) ≡ prefix_of p
    → (b ≡ true) × (next ≡ prefix_of p)
passed true reason next p h = (refl, h)
passed false reason next p h = absurd (refused≢prefix reason p h)

ordered-pos :
    (low high : ℤ)
    → ordered low high ≡ true
    → (low ≡ pos (pos_part low)) × (high ≡ pos (pos_part high))
ordered-pos (pos a) (pos b) h = (refl, refl)
ordered-pos (pos a) (negsuc b) h =
    let q = (and_true (ltb_ℤ (pos 0) (pos a)) (ltb_ℤ (pos a) (negsuc b)) h).1 in
    let below = ltb→lt (a + suc b) 0 q in absurd (omega arith)
ordered-pos (negsuc a) b h =
    let q = (and_true (ltb_ℤ (pos 0) (negsuc a)) (ltb_ℤ (negsuc a) b) h).0 in
    let below = ltb→lt (0 + suc a) 0 q in absurd (omega arith)

typed-count :
    (contract : Value) (name : String)
    → is_int (get name contract) ≡ true
    → get name contract ≡ int (count_in contract name)
typed-count contract name h = whole_number (get name contract) h

named-count :
    (contract : Value) (name : String) (n : ℕ)
    → is_int (get name contract) ≡ true
    → count_in contract name ≡ pos n
    → get name contract ≡ int (pos n)
named-count contract name n h e = typed-count contract name h ∙ ap int e

agreed-IsExternal :
    (contract : Value) (layout : Layout) (rows p : ℕ)
    → all (λ name. is_int (get name contract)) external_fields ≡ true
    → counts_agree rows (sequence_of contract) ≡ true
    → pos_part (sequence_of contract).start ≡ p
    → IsPacked layout (native_rows (sequence_of contract)) p ⊎ IsPacked layout rows p
    → IsExternal contract layout rows p
unfolding counts_agree
agreed-IsExternal contract layout rows p typed h start packed =
    let s = sequence_of contract in
    let is = λ (name : String). is_int (get name contract) in
    let (native_int, i1) = and_true (is "native_sequence_rows") _ typed in
    let (actual_int, i2) = and_true (is "sequence_rows") _ i1 in
    let (start_int, i3) = and_true (is "video_start") _ i2 in
    let (t_int, i4) = and_true (is "temporal") _ i3 in
    let (p_int, i5) = and_true (is "prefix_t") _ i4 in
    let (n_int, i6) = and_true (is "source_rows_per_frame") _ i5 in
    let (m_int, i7) = and_true (is "prefix_rows_per_frame") _ i6 in
    let (actual, h1) = and_true (int_eq s.actual (pos rows)) _ h in
    let (starts, h2) = and_true (ordered s.start s.actual) _ h1 in
    let (frames, h3) = and_true (ordered s.prefix_t s.temporal) _ h2 in
    let (dense, h4) = and_true (ordered s.source_rows s.prefix_rows) _ h3 in
    let (native, mixed) = and_true (int_eq s.native (pos (native_rows s))) _ h4 in
    let (some_prefix, below) = ordered-lt s.start s.actual starts in
    let (some_protected, some_suffix) = ordered-lt s.prefix_t s.temporal frames in
    let (some_rows, denser) = ordered-lt s.source_rows s.prefix_rows dense in
    record {
      t = pos_part s.temporal;
      p = pos_part s.prefix_t;
      m = pos_part s.prefix_rows;
      n = pos_part s.source_rows;
      start_named =
          named-count contract "video_start" p start_int
            ((ordered-pos s.start s.actual starts).0 ∙ ap pos start);
      t_named =
          named-count contract "temporal" _ t_int (ordered-pos s.prefix_t s.temporal frames).1;
      p_named =
          named-count contract "prefix_t" _ p_int (ordered-pos s.prefix_t s.temporal frames).0;
      m_named =
          named-count contract "prefix_rows_per_frame" _ m_int
            (ordered-pos s.source_rows s.prefix_rows dense).1;
      n_named =
          named-count contract "source_rows_per_frame" _ n_int
            (ordered-pos s.source_rows s.prefix_rows dense).0;
      rows_named =
          named-count contract "sequence_rows" rows actual_int
            (int_eq→eq s.actual (pos rows) actual);
      native_named = named-count contract "native_sequence_rows" _ native_int (
          int_eq→eq s.native (pos (native_rows s)) native
          ∙ ap (λ z. pos (z + pos_part s.temporal * pos_part s.source_rows)) start);
      some_prefix = subst (λ z. 0 < z) start some_prefix;
      some_protected = some_protected;
      some_suffix = some_suffix;
      some_rows = some_rows;
      denser = denser;
      all_rows =
          ap pos_part (
            sym (int_eq→eq s.actual (pos rows) actual)
            ∙ int_eq→eq s.actual (pos (mixed_rows s)) mixed)
          ∙ ap
              (λ z.
                z
                + pos_part s.prefix_t * pos_part s.prefix_rows
                + (pos_part s.temporal - pos_part s.prefix_t) * pos_part s.source_rows)
              start;
      packed =
          subst
            (λ z.
              IsPacked layout (z + pos_part s.temporal * pos_part s.source_rows) p
              ⊎ IsPacked layout rows p)
            start packed;
    }

-- A prefix is used only if the contract names its rows, `t` frames, `p` of them protected, the rows of
-- a protected frame and those of another, the former more; if these give the rows of the call and
-- the native rows that the contract names; and if the layout is packed behind the same prefix, for
-- the rows of the call or for the native rows.
pub external_sequence_prefix-IsExternal :
    (contract : Value) (layout : Layout) (rows p : ℕ)
    → external_sequence_prefix contract layout rows ≡ prefix_of p
    → IsExternal contract layout rows p
unfolding external_sequence_prefix
external_sequence_prefix-IsExternal contract layout rows p h =
    let s = sequence_of contract in
    let (known, h1) = passed (supported contract) "external_sequence_native" _ p h in
    let (typed, h2) =
      passed (all (λ name. is_int (get name contract)) external_fields) "external_sequence_contract"
        _ p h1 in
    let (agree, h3) = passed (counts_agree rows s) "external_sequence_contract" _ p h2 in
    let (own, packed) = layout_prefix-packed layout (native_rows s) rows (pos_part s.start) p h3 in
    agreed-IsExternal contract layout rows p typed agree own packed
