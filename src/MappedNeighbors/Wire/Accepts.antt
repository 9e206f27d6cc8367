-- ===== src/MappedNeighbors/Wire/Accepts.antt =====
-- `validate_wire_map` accepts exactly the encodings of well-formed maps.
use comfy_ui_sol_h.MappedNeighbors.Wire.Sound.{
  >>=-eq-ok, guard-eq-ok, require-eq-ok, scan_runs_sound, aligned, strict_int-eq-ok, strict_int-pos,
  scan_runs_complete,
}
use comfy_ui_sol_h.Py.{
  Value, int, tuple, values-items, nil, py_eq-str, py_eq-int, int-py_eq, py_eq, items-values,
}
use comfy_ui_sol_h.Base.{
  refl, [], ◌∷◌, ℕ, String, str_eq, ◌≡◌, List, false, some, true, arith, map, ◌≤◌, ◌<◌, ◌==◌, ◌&&◌,
  ==→eq, ◌∙◌, ap, subst, sym, ◌↔◌, ◌∷◌,
}
use comfy_ui_sol_h.MappedNeighbors.Types.{
  ValidatedMap, ok, wire_tag, Run, wire_schema, int32_max, require, schema_reason,
}
use comfy_ui_sol_h.MappedNeighbors.Wire.{
  runs_of, validate_runs, pos, cons, validated_of, str, digest_text, values, run_value, payload,
  scan_runs, scan_start, Wire, wire_of, nonempty_text, digest_of, validate_fields, read_owner,
  read_counts, check_domain, read_header, Header, validate_cold,
}
use comfy_ui_sol_h.MappedNeighbors.Wire.Runs.{RunsFrom, position, position-RunsFrom, position_mono}

abbrev pub natural_value : ℕ → Value
natural_value n = int (pos n)

abbrev pub encode : ValidatedMap → Value
encode v = tuple (
    cons (str wire_tag) (
      cons (natural_value wire_schema) (
        cons (str v.owner_generation) (
          cons (str v.plan_digest) (
            cons (natural_value v.group_index) (
              cons (natural_value v.q_rows) (
                cons (natural_value v.kv_rows) (
                  cons (natural_value v.sink_rows)
                    (cons (tuple (values (map run_value v.runs))) nil)))))))))

module _ (sha256_json : Value → String) where
  -- The promise of a validated map.
  pub record IsWellFormed (v : ValidatedMap) : Type 0 where
    pub owner_named : str_eq v.owner_generation "" ≡ false
    pub plan_digested : digest_text v.plan_digest ≡ true
    pub group_fits : v.group_index ≤ int32_max
    pub q_positive : 0 < v.q_rows
    pub q_fits : v.q_rows ≤ int32_max
    pub kv_positive : 0 < v.kv_rows
    pub kv_fits : v.kv_rows ≤ int32_max
    pub sink_fits : v.sink_rows ≤ v.kv_rows
    pub covered : RunsFrom v.q_rows v.kv_rows 0 0 v.runs
    pub identity : v.identity_aligned ≡ (v.q_rows == v.kv_rows && aligned v.runs)
    pub digested :
        v.map_digest
        ≡ sha256_json (
            payload v.owner_generation v.plan_digest v.group_index v.q_rows v.kv_rows v.sink_rows
              v.runs)

  -- The raw runs of an accepted tuple.
  runs_of-eq-some :
      (v : Value) (raws : List Value) → runs_of v ≡ some raws → v ≡ tuple (values raws)
  unfolding runs_of
  runs_of-eq-some (tuple (cons x xs)) raws h = ground (arith, values-items xs)
  runs_of-eq-some v raws h = cc

  validate_runs_sound :
      (owner plan : String) (group q kv sink : ℕ) (raw : Value) (v : ValidatedMap)
      → validate_runs sha256_json owner plan group q kv sink raw ≡ ok v
      → (rs : List Run) × RunsFrom q kv 0 0 rs
        × (raw ≡ tuple (values (map run_value rs)))
        × (v ≡ record {
          owner_generation = owner;
          plan_digest = plan;
          group_index = group;
          q_rows = q;
          kv_rows = kv;
          sink_rows = sink;
          runs = rs;
          map_digest = sha256_json (payload owner plan group q kv sink rs);
          identity_aligned = q == kv && aligned rs;
        })
  unfolding validate_runs validated_of
  validate_runs_sound owner plan group q kv sink raw v h =
      let (raws, h₁, h₂) = >>=-eq-ok (require (runs_of raw) schema_reason) _ h in
      let (t, h₃, h₄) = >>=-eq-ok (scan_runs q kv (scan_start q kv) raws) _ h₂ in
      let (e, h₅) =
        guard-eq-ok (t.expected_q == q) schema_reason
          (ok (validated_of sha256_json owner plan group q kv sink t)) h₄ in
      let (rs, er, ei, follow, eq) =
        scan_runs_sound q kv raws (scan_start q kv) t h₃ (==→eq _ _ e) in
      (
        rs,
        follow,
        runs_of-eq-some raw raws (require-eq-ok (runs_of raw) schema_reason h₁)
            ∙ ap (λ l. tuple (values l)) eq,
        ground arith,
      )

  -- The header of a tuple that is accepted, with the query's own row counts.
  abbrev pub Accepted : Value → (q_rows kv_rows sink_rows : Value) → ValidatedMap → Type 0
  Accepted value q_rows kv_rows sink_rows v =
      IsWellFormed v
      × (value ≡ encode v)
      × (q_rows ≡ natural_value v.q_rows)
      × (kv_rows ≡ natural_value v.kv_rows)
      × (sink_rows ≡ natural_value v.sink_rows)

  abbrev wire_value : Wire → Value
  wire_value w = tuple (
      cons w.tag (
        cons w.schema (
          cons w.owner (
            cons w.plan_digest (
              cons w.group_index
                (cons w.q_rows (cons w.kv_rows (cons w.sink_rows (cons w.raw_runs nil)))))))))

  wire_of-eq-ok : (value : Value) (w : Wire) → wire_of value ≡ ok w → value ≡ wire_value w
  unfolding wire_of
  wire_of-eq-ok
        (tuple (cons a (cons b (cons c (cons d (cons e (cons f (cons g (cons h (cons i nil))))))))))
        w eq =
      cc
  wire_of-eq-ok value w eq = cc

  nonempty_text-eq-some :
      (v : Value) (s : String) → nonempty_text v ≡ some s → (v ≡ str s) × (str_eq s "" ≡ false)
  unfolding nonempty_text
  nonempty_text-eq-some (str a) s h = ground arith
  nonempty_text-eq-some v s h = absurd cc

  digest_of-eq-some :
      (v : Value) (s : String) → digest_of v ≡ some s → (v ≡ str s) × (digest_text s ≡ true)
  unfolding digest_of
  digest_of-eq-some (str a) s h = ground arith
  digest_of-eq-some v s h = absurd cc

  read_owner-eq-ok :
      (w : Wire) (owner plan : String)
      → read_owner w ≡ ok (owner, plan)
      → (w.tag ≡ str wire_tag)
        × (w.schema ≡ natural_value wire_schema)
        × (w.owner ≡ str owner)
        × (str_eq owner "" ≡ false)
        × (w.plan_digest ≡ str plan)
        × (digest_text plan ≡ true)
  unfolding read_owner
  read_owner-eq-ok w owner plan h = ground (
    arith,
    py_eq-str w.tag wire_tag,
    py_eq-int w.schema (pos wire_schema),
    nonempty_text-eq-some w.owner owner,
    digest_of-eq-some w.plan_digest plan,
  )

  read_counts-eq-ok :
      (w : Wire) (names : String × String) (h : Header)
      → read_counts w names ≡ ok h
      → (h.owner ≡ names.0)
        × (h.plan_digest ≡ names.1)
        × (w.group_index ≡ natural_value h.group_index)
        × (h.group_index ≤ int32_max)
        × (w.q_rows ≡ natural_value h.q_rows)
        × (1 ≤ h.q_rows)
        × (h.q_rows ≤ int32_max)
        × (w.kv_rows ≡ natural_value h.kv_rows)
        × (1 ≤ h.kv_rows)
        × (h.kv_rows ≤ int32_max)
        × (w.sink_rows ≡ natural_value h.sink_rows)
  unfolding read_counts
  read_counts-eq-ok w names h e = ground (
    arith,
    strict_int-eq-ok w.group_index 0 h.group_index,
    strict_int-eq-ok w.q_rows 1 h.q_rows,
    strict_int-eq-ok w.kv_rows 1 h.kv_rows,
    strict_int-eq-ok w.sink_rows 0 h.sink_rows,
  )

  check_domain-eq-ok :
      (h : Header) (q_rows kv_rows sink_rows : Value)
      → check_domain h q_rows kv_rows sink_rows ≡ ok tt
      → (q_rows ≡ natural_value h.q_rows)
        × (kv_rows ≡ natural_value h.kv_rows)
        × (sink_rows ≡ natural_value h.sink_rows)
        × (h.sink_rows ≤ h.kv_rows)
  unfolding check_domain
  check_domain-eq-ok h q_rows kv_rows sink_rows e = ground (
    arith,
    int-py_eq q_rows (pos h.q_rows),
    int-py_eq kv_rows (pos h.kv_rows),
    int-py_eq sink_rows (pos h.sink_rows),
  )

  abbrev map_of : Header → List Run → ValidatedMap
  map_of h rs = record {
    owner_generation = h.owner;
    plan_digest = h.plan_digest;
    group_index = h.group_index;
    q_rows = h.q_rows;
    kv_rows = h.kv_rows;
    sink_rows = h.sink_rows;
    runs = rs;
    map_digest =
        sha256_json (payload h.owner h.plan_digest h.group_index h.q_rows h.kv_rows h.sink_rows rs);
    identity_aligned = h.q_rows == h.kv_rows && aligned rs;
  }

  map_of-Accepted :
      (w : Wire) (owner plan : String) (h : Header) (rs : List Run)
      (q_rows kv_rows sink_rows : Value)
      → read_owner w ≡ ok (owner, plan)
      → read_counts w (owner, plan) ≡ ok h
      → check_domain h q_rows kv_rows sink_rows ≡ ok tt
      → RunsFrom h.q_rows h.kv_rows 0 0 rs
      → w.raw_runs ≡ tuple (values (map run_value rs))
      → Accepted (wire_value w) q_rows kv_rows sink_rows (map_of h rs)
  map_of-Accepted w owner plan h rs q_rows kv_rows sink_rows e₁ e₂ e₃ follow raw =
      let (tag, schema, eo, named, ep, digested) = read_owner-eq-ok w owner plan e₁ in
      let (ho, hp, eg, g_max, eq, q_min, q_max, ek, k_min, k_max, es) =
        read_counts-eq-ok w (owner, plan) h e₂ in
      let (sq, sk, ss, sink_le) = check_domain-eq-ok h q_rows kv_rows sink_rows e₃ in
      (
        record {
          owner_named = rw ho named;
          plan_digested = rw hp digested;
          group_fits = g_max;
          q_positive = q_min;
          q_fits = q_max;
          kv_positive = k_min;
          kv_fits = k_max;
          sink_fits = sink_le;
          covered = follow;
          identity = refl;
          digested = refl;
        },
        cc,
        sq,
        sk,
        ss,
      )

  validate_fields_sound :
      (w : Wire) (q_rows kv_rows sink_rows : Value) (v : ValidatedMap)
      → validate_fields sha256_json w q_rows kv_rows sink_rows ≡ ok v
      → Accepted (wire_value w) q_rows kv_rows sink_rows v
  unfolding validate_fields read_header
  validate_fields_sound w q_rows kv_rows sink_rows v e =
      let (h, e₁, e₂) = >>=-eq-ok (read_header w) _ e in
      let ((owner, plan), e₃, e₄) = >>=-eq-ok (read_owner w) (read_counts w) e₁ in
      let (_, e₅, e₆) = >>=-eq-ok (check_domain h q_rows kv_rows sink_rows) _ e₂ in
      let (rs, follow, raw, ev) =
        validate_runs_sound h.owner h.plan_digest h.group_index h.q_rows h.kv_rows h.sink_rows
          w.raw_runs v e₆ in
      subst (Accepted (wire_value w) q_rows kv_rows sink_rows) (sym ev)
        (map_of-Accepted w owner plan h rs q_rows kv_rows sink_rows e₃ e₄ e₅ follow raw)

  header_of : ValidatedMap → Header
  header_of v = record {
    owner = v.owner_generation;
    plan_digest = v.plan_digest;
    group_index = v.group_index;
    q_rows = v.q_rows;
    kv_rows = v.kv_rows;
    sink_rows = v.sink_rows;
  }

  wire_from : ValidatedMap → Wire
  wire_from v = record {
    tag = str wire_tag;
    schema = natural_value wire_schema;
    owner = str v.owner_generation;
    plan_digest = str v.plan_digest;
    group_index = natural_value v.group_index;
    q_rows = natural_value v.q_rows;
    kv_rows = natural_value v.kv_rows;
    sink_rows = natural_value v.sink_rows;
    raw_runs = tuple (values (map run_value v.runs));
  }

  read_owner_complete :
      (v : ValidatedMap)
      → IsWellFormed v
      → read_owner (wire_from v) ≡ ok (v.owner_generation, v.plan_digest)
  unfolding read_owner wire_from py_eq
  read_owner_complete v h = ground (arith, h.owner_named, h.plan_digested)

  read_counts_complete :
      (v : ValidatedMap)
      → IsWellFormed v
      → read_counts (wire_from v) (v.owner_generation, v.plan_digest) ≡ ok (header_of v)
  unfolding read_counts wire_from header_of
  read_counts_complete v h = ground (
    arith,
    strict_int-pos 0 v.group_index,
    strict_int-pos 1 v.q_rows,
    strict_int-pos 1 v.kv_rows,
    strict_int-pos 0 v.sink_rows,
  )

  check_domain_complete :
      (v : ValidatedMap)
      → IsWellFormed v
      → check_domain
          (header_of v)
          (natural_value v.q_rows)
          (natural_value v.kv_rows)
          (natural_value v.sink_rows)
        ≡ ok tt
  unfolding check_domain header_of py_eq
  check_domain_complete v h = ground arith

  runs_of-values : (x : Value) (xs : List Value) → runs_of (tuple (values (x ∷ xs))) ≡ some (x ∷ xs)
  unfolding runs_of
  runs_of-values x xs = ap (λ l. some (x ∷ l)) (items-values xs)

  runs_of-runs :
      (v : ValidatedMap) (rs : List Run)
      → RunsFrom v.q_rows v.kv_rows 0 0 rs
      → 0 < v.q_rows
      → runs_of (tuple (values (map run_value rs))) ≡ some (map run_value rs)
  runs_of-runs v [] h p = absurd (omega arith)
  runs_of-runs v (r ∷ rs) h p = runs_of-values (run_value r) (map run_value rs)

  validate_runs_complete :
      (v : ValidatedMap)
      → IsWellFormed v
      → validate_runs sha256_json v.owner_generation v.plan_digest v.group_index v.q_rows v.kv_rows
          v.sink_rows
          (tuple (values (map run_value v.runs)))
        ≡ ok v
  unfolding validate_runs validated_of
  validate_runs_complete v h =
      let (t, et, eq, er, ei) =
        scan_runs_complete v.q_rows v.kv_rows v.runs (scan_start v.q_rows v.kv_rows) h.q_fits
          h.kv_fits h.covered in
      rw (runs_of-runs v v.runs h.covered h.q_positive, et) (ground (arith, h.digested, h.identity))

  -- A well-formed map passes.
  validate_cold_complete :
      (v : ValidatedMap)
      → IsWellFormed v
      → validate_cold sha256_json
          (encode v)
          (natural_value v.q_rows)
          (natural_value v.kv_rows)
          (natural_value v.sink_rows)
        ≡ ok v
  unfolding validate_cold validate_fields read_header wire_of wire_from header_of
  validate_cold_complete v h =
      rw (read_owner_complete v h, read_counts_complete v h, check_domain_complete v h)
        (validate_runs_complete v h)

  -- `validate_wire_map` on a cold cache accepts a value exactly when it encodes a well-formed map
  -- with the row counts of the call, and then it returns that map.
  pub validate_cold_iff :
      (value q_rows kv_rows sink_rows : Value) (v : ValidatedMap)
      → (validate_cold sha256_json value q_rows kv_rows sink_rows ≡ ok v)
        ↔ Accepted value q_rows kv_rows sink_rows v
  unfolding validate_cold
  validate_cold_iff value q_rows kv_rows sink_rows v = (
    λ e.
        let (w, e₁, e₂) = >>=-eq-ok (wire_of value) _ e in
        rw (wire_of-eq-ok value w e₁) (validate_fields_sound w q_rows kv_rows sink_rows v e₂),
    λ (h, ev, eq, ek, es). rw (ev, eq, ek, es) (validate_cold_complete v h),
  )

  -- Any two query rows of a map that `validate_wire_map` returns have key rows inside the key
  -- domain, and the later query row has the later key row.
  pub validate_cold-position :
      (value q_rows kv_rows sink_rows : Value) (v : ValidatedMap) (q r : ℕ)
      → validate_cold sha256_json value q_rows kv_rows sink_rows ≡ ok v
      → q < r
      → r < v.q_rows
      → (p : ℕ) × (s : ℕ) × (position v.runs q ≡ some p)
        × (position v.runs r ≡ some s)
        × (p < s)
        × (s < v.kv_rows)
  validate_cold-position value q_rows kv_rows sink_rows v q r h lt hi =
      let w = ((validate_cold_iff value q_rows kv_rows sink_rows v).0 h).0 in
      let (p, ep, _, _) =
        position-RunsFrom v.q_rows v.kv_rows 0 0 v.runs q w.covered (omega arith) (omega arith) in
      let (s, es, _, fits) =
        position-RunsFrom v.q_rows v.kv_rows 0 0 v.runs r w.covered (omega arith) hi in
      (
        p,
        s,
        ep,
        es,
        position_mono v.q_rows v.kv_rows 0 0 v.runs q r p s w.covered lt hi ep es,
        fits,
      )
