-- ===== src/MixedMeasure/Reduce.antt =====
-- `reduce_kv` of sol_h3/mixed_measure.py. `index_select(2, ...)` of torch is a parameter;
-- it raises on an index outside the rows of the tensor.
use comfy_ui_sol_h.PartitionedRequest.Tensors.{Tensor}
use comfy_ui_sol_h.Base.{
  ◌∷◌, List, [], ap₂, refl, ℕ, Bool, ◌<◌, ◌+◌, All, and_true, ==→eq, if◌then◌else◌, length, ◌≡◌,
  leb, ◌==◌, ◌&&◌, true, ◌-◌, subst, ◌∙◌, ==-refl, ap, sym,
}
use comfy_ui_sol_h.Base.Int.{ℤ, pos, negsuc}
use comfy_ui_sol_h.MixedMeasure.Gather.{kv_gather_indices, Validated, suffix_start, suffix_rows}
use comfy_ui_sol_h.Py.Outcome.{Outcome, ◌>>◌, assert, runtime_error, ◌>>=◌}
use comfy_ui_sol_h.MixedMeasure.Rows.{IsContract, kv_gather_indices-returns}
use comfy_ui_sol_h.Routing.Shapes.{same_shape}

pub record Reduction (C : Type 0) : Type 0 where
  pub k : Tensor C
  pub v : Tensor C
  pub kv_rows_before : ℕ
  pub kv_rows_after : ℕ
  pub kv_rows_removed : ℤ

-- `t.shape[2]` of a tensor with four dimensions.
abbrev pub third : List ℕ → ℕ
third (b ∷ h ∷ t ∷ rest) = t
third _ = 0

abbrev pub token_rows : {C : Type 0} → Tensor C → ℕ
token_rows t = third t.layout.shape

abbrev minus : ℕ → ℕ → ℤ
minus a b = if leb b a then pos (a - b) else negsuc (b - a - 1)

-- K and V are BHTD tensors of one shape.
unfoldable pub matching_kv : (k v : List ℕ) → Bool
matching_kv k v = length k == 4 && length v == 4 && same_shape k v

abbrev pub reduced :
    {C : Type 0} → (k v reduced_k reduced_v : Tensor C) → (expected : ℕ) → Reduction C
reduced k v reduced_k reduced_v expected = record {
  k = reduced_k;
  v = reduced_v;
  kv_rows_before = token_rows k;
  kv_rows_after = expected;
  kv_rows_removed = minus (token_rows k) expected;
}

same_shape-eq : (k v : List ℕ) → same_shape k v ≡ true → k ≡ v
same_shape-eq [] [] h = refl
same_shape-eq (a ∷ k) (b ∷ v) h =
    let (first, rest) = and_true _ _ h in
    ap₂ (λ x xs. x ∷ xs) (==→eq a b first) (same_shape-eq k v rest)
same_shape-eq [] (b ∷ v) h = cc
same_shape-eq (a ∷ k) [] h = cc

matching-rows : (k v : List ℕ) → matching_kv k v ≡ true → third k ≡ third v
unfolding matching_kv
matching-rows k v h = let (lengths, same) = and_true _ _ h in ap third (same_shape-eq k v same)

module _ {C : Type 0} (index_select : Tensor C → List ℕ → Outcome (Tensor C)) where
  unfoldable pub reduce_kv : (k v : Tensor C) → Validated → Outcome (Reduction C)
  unfolding matching_kv kv_gather_indices
  reduce_kv k v validated = do
    assert (matching_kv k.layout.shape v.layout.shape)
        (runtime_error "Flow mixed-grid attention measure requires matching BHTD K/V")
    indices ← kv_gather_indices validated
    reduced_k ← index_select k indices
    reduced_v ← index_select v indices
    assert
        (token_rows reduced_k == validated.expected_kv_rows
          && token_rows reduced_v == validated.expected_kv_rows)
        (runtime_error "Flow mixed-grid attention-measure reduction returned wrong K/V row count")
    Outcome.ok (reduced k v reduced_k reduced_v validated.expected_kv_rows)

  -- What `index_select` gives on the rows of a tensor: one row for each index.
  abbrev pub Selects : Type 0
  Selects =
      (t : Tensor C) (indices : List ℕ)
      → All (λ row. row < token_rows t) indices
      → (u : Tensor C) × (index_select t indices ≡ Outcome.ok u) × (token_rows u ≡ length indices)

  -- K and V of one shape, whose rows are those of the contract's mixed stream, are reduced without
  -- an error to the rows of the gather, if `index_select` gives one row for each index as long as
  -- every index is below the rows of the tensor.
  pub reduce_kv-returns :
      (k v : Tensor C) (validated : Validated)
      → Selects
      → IsContract validated
      → matching_kv k.layout.shape v.layout.shape ≡ true
      → token_rows k ≡ suffix_start validated + suffix_rows validated
      → (indices : List ℕ) × (kv_gather_indices validated ≡ Outcome.ok indices)
        × (reduced_k : Tensor C) × (index_select k indices ≡ Outcome.ok reduced_k)
        × (reduced_v : Tensor C) × (index_select v indices ≡ Outcome.ok reduced_v)
        × (reduce_kv k v validated ≡ Outcome.ok (reduced k v reduced_k reduced_v (length indices)))
  unfolding reduce_kv
  reduce_kv-returns k v validated selects good matching stream =
      let (indices, ran, counted, unique, below) = kv_gather_indices-returns validated good in
      let fits = subst (λ n. All (λ row. row < n) indices) (sym stream) below in
      let (reduced_k, ran_k, rows_k) = selects k indices fits in
      let (reduced_v, ran_v, rows_v) = selects v indices (
        subst (λ n. All (λ row. row < n) indices)
          (matching-rows k.layout.shape v.layout.shape matching) fits) in
      let kept = λ (n : ℕ) (e : n ≡ length indices).
        subst (λ m. (n == m) ≡ true) (e ∙ counted) (==-refl n) in
      (
        indices,
        ran,
        reduced_k,
        ran_k,
        reduced_v,
        ran_v,
        rw matching (
            rw ran (
              rw ran_k (
                rw ran_v (
                  rw (kept (token_rows reduced_k) rows_k) (
                    rw (kept (token_rows reduced_v) rows_v)
                      (ap (λ n. Outcome.ok (reduced k v reduced_k reduced_v n)) (sym counted))))))),
      )
