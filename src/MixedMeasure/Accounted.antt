-- ===== src/MixedMeasure/Accounted.antt =====
-- What `validate_measure_contract` of sol_h3/mixed_measure.py promises to `kv_gather_indices`.
use comfy_ui_sol_h.Py.Outcome.{Outcome, >>=-eq-ok, assert, assert-true, ok-eq}
use comfy_ui_sol_h.Base.Int.{ℤ, int_eq, pos_part, pos, ltb_ℤ, negsuc, int_eq→eq}
use comfy_ui_sol_h.Base.{
  ℕ, List, ◌≡◌, All, true, ◌<◌, ◌≤◌, and_true, ◌∷◌, ◌*◌, arith, ap, [], ◌∙◌, ap₂, length, ◌+◌, ◌&&◌,
  ◌==◌, subst, sym, ==→eq, refl,
}
use comfy_ui_sol_h.MixedMeasure.Contract.{
  product_ℤ, ordered, check_counts, validate_measure_contract, Counts, check_shape, counts_of,
  expected_mixed, expected_kv, contract_of,
}
use comfy_ui_sol_h.MixedMeasure.Representatives.{representative_spatial_indices, Arithmetic}
use comfy_ui_sol_h.Py.{Value, py_eq, get, int}
use comfy_ui_sol_h.MixedMeasure.Gather.{
  Validated, kv_gather_indices, suffix_start, distinct, suffix_rows,
}
use mathlib.Core.List.{[]}
use comfy_ui_sol_h.MixedMeasure.Rows.{IsContract, kv_gather_indices-returns}
use comfy_ui_sol_h.MixedMeasure.Nearest.{representative_spatial_indices-IsRepresentatives}

pub ordered-lt :
    (low high : ℤ) → ordered low high ≡ true → (0 < pos_part low) × (pos_part low < pos_part high)
ordered-lt (pos a) (pos b) h = let (p, q) = and_true (ltb_ℤ (pos 0) (pos a)) _ h in ground arith
ordered-lt (pos a) (negsuc b) h = let (p, q) = and_true (ltb_ℤ (pos 0) (pos a)) _ h in ground arith
ordered-lt (negsuc a) b h = let (p, q) = and_true (ltb_ℤ (pos 0) (negsuc a)) _ h in ground arith

Between-below : (n : ℕ) (xs : List ℕ) → All (λ x. x < n) xs → All (λ x. (0 ≤ x) × (x < n)) xs
Between-below n [] h = tt
Between-below n (x ∷ xs) (h, hs) = ((omega arith, h), Between-below n xs hs)

product-rows :
    (rows a b : ℤ) (m n : ℕ)
    → int_eq rows (product_ℤ a b) ≡ true
    → a ≡ pos m
    → b ≡ pos n
    → pos_part rows ≡ m * n
unfolding product_ℤ
product-rows rows a b m n h ea eb =
    ap pos_part (int_eq→eq rows (product_ℤ a b) h) ∙ ap₂ (λ x y. pos_part (product_ℤ x y)) ea eb

module _ (ops : Arithmetic) where
  check_counts-IsContract :
      (external : Value) (q_rows kv_rows : ℕ) (c : Counts) (v : Validated)
      → check_counts ops external q_rows kv_rows c ≡ Outcome.ok v
      → IsContract v × (suffix_start v + suffix_rows v ≡ q_rows)
  unfolding check_counts
  check_counts-IsContract external q_rows kv_rows c v h =
      let (t0, r0, d0) =
        >>=-eq-ok
          (assert (int_eq (pos q_rows) c.sequence_rows && int_eq (pos kv_rows) c.sequence_rows) _) _
          h in
      let (t1, r1, d1) =
        >>=-eq-ok (assert (ordered c.start (pos q_rows) && ordered c.prefix_t c.temporal) _) _ d0 in
      let (t2, r2, d2) =
        >>=-eq-ok (assert (int_eq c.source_rows (product_ℤ c.source_grid.0 c.source_grid.1)) _) _
          d1 in
      let (t3, r3, d3) =
        >>=-eq-ok (assert (int_eq c.prefix_rows (product_ℤ c.prefix_grid.0 c.prefix_grid.1)) _) _
          d2 in
      let (t4, r4, d4) = >>=-eq-ok (assert (ordered c.source_rows c.prefix_rows) _) _ d3 in
      let (t5, r5, d5) =
        >>=-eq-ok
          (assert (expected_mixed c == q_rows && int_eq c.expected_kv_rows (pos (expected_kv c))) _)
          _ d4 in
      let (t6, r6, d6) =
        >>=-eq-ok
          (assert (py_eq (get "native_sequence_rows" external) (int (pos (expected_kv c)))) _) _
          d5 in
      let (reps, found, d7) =
        >>=-eq-ok
          (representative_spatial_indices ops c.source_grid.0 c.source_grid.1 c.prefix_grid.0
            c.prefix_grid.1)
          _ d6 in
      let (h', w, ph, pw, (eh, ew, eph, epw), chosen) =
        representative_spatial_indices-IsRepresentatives ops c.source_grid.0 c.source_grid.1
          c.prefix_grid.0 c.prefix_grid.1 reps found in
      let source =
        product-rows c.source_rows c.source_grid.0 c.source_grid.1 h' w (assert-true _ _ r2) eh
          ew in
      let prefix =
        product-rows c.prefix_rows c.prefix_grid.0 c.prefix_grid.1 ph pw (assert-true _ _ r3) eph
          epw in
      subst (λ z. IsContract z × (suffix_start z + suffix_rows z ≡ q_rows))
        (ok-eq (contract_of c reps) v d7)
        (
          record {
            prefix =
                (ordered-lt c.prefix_t c.temporal
                  (and_true (ordered c.start (pos q_rows)) _ (assert-true _ _ r1)).1).1;
            chosen = chosen.counted ∙ sym source;
            unique = chosen.unique;
            within =
                subst (λ n. All (λ x. (0 ≤ x) × (x < n)) reps) (sym prefix)
                  (Between-below (ph * pw) reps chosen.within);
            accounted = refl;
          },
          ==→eq (expected_mixed c) q_rows
              (and_true (expected_mixed c == q_rows) _ (assert-true _ _ r5)).0,
        )

  -- A contract that is accepted can be gathered: `kv_gather_indices` does not raise on it, and gives
  -- as many rows as expected, no row twice, and each a key row of the call.
  pub validate_measure_contract-gathers :
      (measure external : Value) (q_rows kv_rows : ℕ) (v : Validated)
      → validate_measure_contract ops measure external q_rows kv_rows ≡ Outcome.ok v
      → (indices : List ℕ) × (kv_gather_indices v ≡ Outcome.ok indices)
        × (length indices ≡ v.expected_kv_rows)
        × (distinct indices ≡ true)
        × All (λ row. row < q_rows) indices
  unfolding validate_measure_contract
  validate_measure_contract-gathers measure external q_rows kv_rows v h =
      let (t, shaped, h1) = >>=-eq-ok (check_shape measure external) _ h in
      let (good, total) =
        check_counts-IsContract external q_rows kv_rows (counts_of measure) v h1 in
      let (indices, ran, counted, unique, below) = kv_gather_indices-returns v good in
      (indices, ran, counted, unique, subst (λ n. All (λ row. row < n) indices) total below)
