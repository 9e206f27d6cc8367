-- ===== src/MappedNeighbors/Descriptor/Exact.antt =====
-- A compiled descriptor holds, for every tile, exactly the neighbours of its query rows.
use comfy_ui_sol_h.MappedNeighbors.Types.{
  ok, ValidatedMap, Interval, Run, block_size, max_interval_width, DescriptorPlan,
}
use comfy_ui_sol_h.MappedNeighbors.Descriptor.{
  single_interval, tile_interval, blocks, tile_end, selected_ranges, compile_tiles, advance,
  compile_cold, descriptor_payload, compile_moved,
}
use comfy_ui_sol_h.Base.{
  ℕ, List, ◌≡◌, ◌<◌, ◌∷◌, ◌≤◌, ◌*◌, [], ◌+◌, ◌-◌, arith, true, ◌↔◌, length, get_elem?, sym, some,
  suc, ◌∙◌, ap, or_false, subst₂, some≢none, some-eq, zero, String, false, Bool-cases, inl, inr,
  subst, none, refl, and_true, if-true, if-false,
}
use comfy_ui_sol_h.MappedNeighbors.Wire.Runs.{RunsFrom, position, span}
use comfy_ui_sol_h.MappedNeighbors.Intervals.{holds, merge_block_intervals, covers, covers-merge}
use comfy_ui_sol_h.MappedNeighbors.Descriptor.Neighbors.{
  Neighbor, selected_sound, selected_complete, advance-RunsFrom, position-advance,
}
use comfy_ui_sol_h.MappedNeighbors.Wire.Sound.{ok-eq, >>=-eq-ok, aligned}
use comfy_ui_sol_h.Py.{Value}
use comfy_ui_sol_h.MappedNeighbors.Wire.Accepts.{IsWellFormed}

single_interval-eq-ok :
    (xs : List Interval) (i : Interval)
    → single_interval xs ≡ ok i
    → (xs ≡ i ∷ []) × (i.start < i.stop) × (i.stop - i.start ≤ max_interval_width)
unfolding single_interval
single_interval-eq-ok (x ∷ []) i h = ground arith
single_interval-eq-ok xs i h = absurd cc

-- The promise of one tile's interval.
pub record IsExact (v : ValidatedMap) (tile : ℕ) (i : Interval) : Type 0 where
  pub nonempty : i.start < i.stop
  pub narrow : i.stop ≤ i.start + max_interval_width
  pub exact :
      (b : ℕ)
      → (holds b i ≡ true)
        ↔ Neighbor (blocks v.kv_rows) (tile * block_size) (tile_end v.q_rows tile) v.runs b

module _ (v : ValidatedMap) where
  -- The runs that are left at a tile map its rows as all the runs do.
  abbrev Agrees : ℕ → List Run → Type 0
  Agrees tile rs = (q : ℕ) → tile * block_size ≤ q → position rs q ≡ position v.runs q

  tile_interval-IsExact :
      (tile e n : ℕ) (rs : List Run) (i : Interval)
      → RunsFrom v.q_rows v.kv_rows e n rs
      → Agrees tile rs
      → tile_interval v.q_rows (blocks v.kv_rows) tile rs ≡ ok i
      → IsExact v tile i
  unfolding tile_interval
  tile_interval-IsExact tile e n rs i f agree h =
      let (one, some_block, few) = single_interval-eq-ok _ i h in
      record { nonempty = some_block; narrow = omega arith; exact = λ b. (into b one, out b one) }
    where
      lo : ℕ
      lo = tile * block_size

      ranges : List Interval
      ranges = selected_ranges (blocks v.kv_rows) lo (tile_end v.q_rows tile) rs

      held : (b : ℕ) → merge_block_intervals ranges ≡ i ∷ [] → covers b ranges ≡ holds b i
      held b one = sym (covers-merge b ranges) ∙ ap (covers b) one ∙ or_false (holds b i)

      into :
          (b : ℕ)
          → merge_block_intervals ranges ≡ i ∷ []
          → holds b i ≡ true
          → Neighbor (blocks v.kv_rows) lo (tile_end v.q_rows tile) v.runs b
      into b one inside =
          let (q, p, ql, qh, ep, near, bk) =
            selected_sound v.q_rows v.kv_rows (blocks v.kv_rows) lo (tile_end v.q_rows tile) e n rs
              b f (held b one ∙ inside) in
          (q, p, ql, qh, sym (agree q ql) ∙ ep, near, bk)

      out :
          (b : ℕ)
          → merge_block_intervals ranges ≡ i ∷ []
          → Neighbor (blocks v.kv_rows) lo (tile_end v.q_rows tile) v.runs b
          → holds b i ≡ true
      out b one (q, p, ql, qh, ep, near, bk) =
          sym (held b one)
          ∙ selected_complete v.q_rows v.kv_rows (blocks v.kv_rows) lo (tile_end v.q_rows tile) e n
              rs b f (q, p, ql, qh, agree q ql ∙ ep, near, bk)

  -- The first tile and the later ones.
  IsExact-cons :
      (tile : ℕ) (i₀ : Interval) (rest : List Interval)
      → IsExact v tile i₀
      → ((j t : ℕ) (i : Interval) → t ≡ tile + 1 + j → get_elem? rest j ≡ some i → IsExact v t i)
      → (j t : ℕ) (i : Interval) → t ≡ tile + j
      → get_elem? (i₀ ∷ rest) j ≡ some i
      → IsExact v t i
  IsExact-cons tile i₀ rest exact later zero t i et ei =
      let here : tile ≡ t = omega arith in subst₂ (IsExact v) here (some-eq i₀ i ei) exact
  IsExact-cons tile i₀ rest exact later (suc j) t i et ei = later j t i (omega arith) ei

  compile_tiles-IsExact :
      (count tile e n : ℕ) (rs : List Run) (is' : List Interval)
      → RunsFrom v.q_rows v.kv_rows e n rs
      → Agrees tile rs
      → compile_tiles v.q_rows (blocks v.kv_rows) count tile rs ≡ ok is'
      → (length is' ≡ count)
        × ((j t : ℕ) (i : Interval) → t ≡ tile + j → get_elem? is' j ≡ some i → IsExact v t i)
  unfolding compile_tiles
  compile_tiles-IsExact zero tile e n rs is' f agree h =
      let empty : [] ≡ is' = cc in
      (
        ground arith,
        λ j t i et ei. absurd (some≢none (sym ei ∙ ap (λ l. get_elem? l j) (sym empty))),
      )
  compile_tiles-IsExact (suc count) tile e n rs is' f agree h =
      let ahead : List Run = advance (tile * block_size) rs in
      let (i₀, h₁, h₂) = >>=-eq-ok (tile_interval v.q_rows (blocks v.kv_rows) tile ahead) _ h in
      let (rest, h₃, h₄) =
        >>=-eq-ok (compile_tiles v.q_rows (blocks v.kv_rows) count (tile + 1) ahead) _ h₂ in
      let (e', n', f') = advance-RunsFrom v.q_rows v.kv_rows (tile * block_size) e n rs f in
      let exact =
        tile_interval-IsExact tile e' n' ahead i₀ f'
          (λ q lo. position-advance (tile * block_size) rs q lo ∙ agree q lo) h₁ in
      let (len, later) =
        compile_tiles-IsExact count (tile + 1) e' n' ahead rest f'
          (λ q lo. position-advance (tile * block_size) rs q (omega arith) ∙ agree q (omega arith))
          h₃ in
      let split : i₀ ∷ rest ≡ is' = cc in
      (
        ap length (sym split) ∙ ap suc len,
        λ j t i et ei.
            IsExact-cons tile i₀ rest exact later j t i et (ap (λ l. get_elem? l j) split ∙ ei),
      )

aligned-position :
    (q_rows kv_rows e n : ℕ) (rs : List Run) (q : ℕ)
    → RunsFrom q_rows kv_rows e n rs
    → aligned rs ≡ true
    → e ≤ q
    → q < q_rows
    → position rs q ≡ some q
unfolding position
aligned-position q_rows kv_rows e n [] q f a lo hi = absurd (omega arith)
aligned-position q_rows kv_rows e n (r ∷ rs) q f a lo hi =
    ground (arith, aligned-position q_rows kv_rows r.q_end (r.kv_begin + span r) rs q f.5)

module _ (sha256_json : Value → String) where
  -- What a descriptor promises of a map.
  pub record IsDescriptor (v : ValidatedMap) (plan : DescriptorPlan) : Type 0 where
    pub moved : v.identity_aligned ≡ false
    pub owner : plan.validated ≡ v
    pub one_per_tile : length plan.intervals ≡ blocks v.q_rows
    pub exact_tiles : (t : ℕ) (i : Interval) → get_elem? plan.intervals t ≡ some i → IsExact v t i

  abbrev pub plan_of : ValidatedMap → List Interval → DescriptorPlan
  plan_of v is' = record {
    validated = v;
    intervals = is';
    descriptor_digest = sha256_json (descriptor_payload v is');
  }

  pub compile_cold-moved :
      (v : ValidatedMap) (plan : DescriptorPlan)
      → compile_cold sha256_json v ≡ ok (some plan)
      → (v.identity_aligned ≡ false)
        × (is' : List Interval) × (compile_tiles v.q_rows
              (blocks v.kv_rows)
              (blocks v.q_rows)
              0
              v.runs
            ≡ ok is')
        × (plan ≡ plan_of v is')
  unfolding compile_cold compile_moved
  compile_cold-moved v plan h = elim (Bool-cases v.identity_aligned) [
    | inl still ↦
        let h' = sym (if-true v.identity_aligned _ (compile_moved sha256_json v) still) ∙ h in
        absurd (some≢none (sym (ok-eq _ _ h')))
    | inr moved ↦
        let h' = sym (if-false v.identity_aligned (ok none) _ moved) ∙ h in
        let (is', e, k) =
          >>=-eq-ok (compile_tiles v.q_rows (blocks v.kv_rows) (blocks v.q_rows) 0 v.runs) _ h' in
        (moved, is', e, sym (some-eq _ _ (ok-eq _ _ k)))
  ]

  -- The descriptor that `compile_descriptor` makes of a well-formed map has one interval for each
  -- tile of 64 query rows; it is neither empty nor wider than four blocks, and a key block lies in
  -- it exactly when the block exists and is, or is beside, the block of the key row of some query
  -- row of the tile.
  pub compile_cold-IsDescriptor :
      (v : ValidatedMap) (plan : DescriptorPlan)
      → IsWellFormed sha256_json v
      → compile_cold sha256_json v ≡ ok (some plan)
      → IsDescriptor v plan
  compile_cold-IsDescriptor v plan w h =
      let (moved, is', e, eq) = compile_cold-moved v plan h in
      let (len, exact) =
        compile_tiles-IsExact v (blocks v.q_rows) 0 0 0 v.runs is' w.covered (λ q _. refl) e in
      subst (IsDescriptor v) (sym eq) (record {
        moved = moved;
        owner = refl;
        one_per_tile = len;
        exact_tiles = λ t i ei. exact t t i (omega arith) ei;
      })

  -- A map that is compiled to no descriptor sends every query row to the key row of its own number.
  pub compile_cold-none :
      (v : ValidatedMap) (q : ℕ)
      → IsWellFormed sha256_json v
      → compile_cold sha256_json v ≡ ok none
      → q < v.q_rows
      → position v.runs q ≡ some q
  unfolding compile_cold compile_moved
  compile_cold-none v q w h lt = elim (Bool-cases v.identity_aligned) [
    | inl still ↦
        aligned-position v.q_rows v.kv_rows 0 0 v.runs q w.covered
          (and_true _ _ (sym w.identity ∙ still)).1 (omega arith) lt
    | inr moved ↦
        let h' = sym (if-false v.identity_aligned (ok none) _ moved) ∙ h in
        let (is', e, k) =
          >>=-eq-ok (compile_tiles v.q_rows (blocks v.kv_rows) (blocks v.q_rows) 0 v.runs) _ h' in
        absurd (some≢none (ok-eq _ _ k))
  ]
