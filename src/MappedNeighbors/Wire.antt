-- ===== src/MappedNeighbors/Wire.antt =====
-- `validate_wire_map` of sol_h3/mapped_neighbors.py on a cold cache. `sha256_json` stands for the
-- digest of a value's canonical JSON text.
pub mod Runs
pub mod Sound
pub mod Accepts
use comfy_ui_sol_h.Base.{
  ℕ, suc, ◌+◌, ◌-◌, Bool, true, false, not, ◌&&◌, ◌||◌, ltb, leb, ◌==◌, str_eq, if◌then◌else◌,
  Option, none, some, List, [], ◌∷◌, ◌++◌, map, String, ⊤,
}
use comfy_ui_sol_h.Base.Int.{ℤ, pos, negsuc, ltb_ℤ}
use comfy_ui_sol_h.Py.{
  Value, Values, Entries, nothing, int, str, tuple, list, dict, nil, cons, end, entry, items,
  values, py_eq, is_int, natural,
}
use comfy_ui_sol_h.Py.Text.{digest, digest_text}
use comfy_ui_sol_h.MappedNeighbors.Types.{
  Reason, Result, ok, unavailable, ◌>>=◌, ◌>>◌, guard, require, Run, ValidatedMap, wire_tag,
  wire_schema, int32_max, missing, schema_reason, owner_reason, domain,
}

-- The nine parts of a wire tuple, in order.
pub record Wire : Type 0 where
  pub tag : Value
  pub schema : Value
  pub owner : Value
  pub plan_digest : Value
  pub group_index : Value
  pub q_rows : Value
  pub kv_rows : Value
  pub sink_rows : Value
  pub raw_runs : Value

unfoldable pub unpack : List Value → Option Wire
unpack (a ∷ b ∷ c ∷ d ∷ e ∷ f ∷ g ∷ h ∷ i ∷ []) = some (record {
  tag = a;
  schema = b;
  owner = c;
  plan_digest = d;
  group_index = e;
  q_rows = f;
  kv_rows = g;
  sink_rows = h;
  raw_runs = i;
})
unpack _ = none

unfoldable pub wire_of : Value → Result Wire
unfolding unpack
wire_of (tuple xs) = require (unpack (items xs)) schema_reason
wire_of nothing = unavailable missing
wire_of _ = unavailable schema_reason

-- `_strict_int`: an integer from `minimum` up to the largest int32.
unfoldable pub strict_int : Value → ℕ → Result ℕ
strict_int v minimum = elim (natural v) [
  | none ↦ unavailable schema_reason
  | some n ↦ if ltb n minimum || ltb int32_max n then unavailable schema_reason else ok n
]

-- A text that is not empty.
unfoldable pub nonempty_text : Value → Option String
nonempty_text (str s) = if str_eq s "" then none else some s
nonempty_text _ = none

unfoldable pub digest_of : Value → Option String
unfolding digest
digest_of (str s) = if digest_text s then some s else none
digest_of _ = none

pub record Scan : Type 0 where
  pub expected_q : ℕ
  pub previous_position : ℤ
  pub identity_aligned : Bool
  pub runs : List Run

unfoldable pub triple : Value → Result (Value × Value × Value)
triple (tuple (cons a (cons b (cons c nil)))) = ok (a, b, c)
triple _ = unavailable schema_reason

-- What the loop does with the three numbers of a run.
unfoldable pub accept_run : (q_rows kv_rows : ℕ) → Scan → Run → Result Scan
accept_run q_rows kv_rows s r = do
  guard (r.q_begin == s.expected_q && ltb r.q_begin r.q_end && leb r.q_end q_rows) schema_reason
  let span = r.q_end - r.q_begin
  guard (leb (r.kv_begin + span) kv_rows) domain
  guard (ltb_ℤ s.previous_position (pos r.kv_begin)) domain
  ok (record {
    expected_q = r.q_end;
    previous_position = pos (r.kv_begin + span - 1);
    identity_aligned = s.identity_aligned && r.kv_begin == r.q_begin;
    runs = s.runs ++ r ∷ [];
  })

unfoldable pub run_of : Value → Value → Value → Result Run
unfolding strict_int
run_of b e k = do
  q_begin ← strict_int b 0
  q_end ← strict_int e 1
  kv_begin ← strict_int k 0
  ok (record { q_begin = q_begin; q_end = q_end; kv_begin = kv_begin })

unfoldable pub read_run : Value → Result Run
unfolding triple run_of
read_run raw = triple raw >>= λ t. run_of t.0 t.1 t.2

unfoldable pub scan_run : (q_rows kv_rows : ℕ) → Scan → Value → Result Scan
unfolding read_run accept_run
scan_run q_rows kv_rows s raw = read_run raw >>= accept_run q_rows kv_rows s

unfoldable pub scan_runs : (q_rows kv_rows : ℕ) → Scan → List Value → Result Scan
unfolding scan_run
scan_runs q_rows kv_rows s [] = ok s
scan_runs q_rows kv_rows s (raw ∷ raws) = do
  s' ← scan_run q_rows kv_rows s raw
  scan_runs q_rows kv_rows s' raws

unfoldable pub runs_of : Value → Option (List Value)
runs_of (tuple (cons x xs)) = some (x ∷ items xs)
runs_of _ = none

abbrev pub run_value : Run → Value
run_value r =
    tuple (cons (int (pos r.q_begin)) (cons (int (pos r.q_end)) (cons (int (pos r.kv_begin)) nil)))

-- What the map's digest is taken of.
unfoldable pub payload : String → String → (group q kv sink : ℕ) → List Run → Value
payload owner plan group q kv sink runs = dict (
    entry "tag" (str wire_tag) (
      entry "schema" (int (pos wire_schema)) (
        entry "owner_generation" (str owner) (
          entry "plan_digest" (str plan) (
            entry "group_index" (int (pos group)) (
              entry "q_rows" (int (pos q)) (
                entry "kv_rows" (int (pos kv)) (
                  entry "sink_rows" (int (pos sink))
                    (entry "runs" (list (values (map run_value runs))) end)))))))))

abbrev pub scan_start : (q_rows kv_rows : ℕ) → Scan
scan_start q_rows kv_rows = record {
  expected_q = 0;
  previous_position = negsuc 0;
  identity_aligned = q_rows == kv_rows;
  runs = [];
}

-- What the tuple says before its runs.
pub record Header : Type 0 where
  pub owner : String
  pub plan_digest : String
  pub group_index : ℕ
  pub q_rows : ℕ
  pub kv_rows : ℕ
  pub sink_rows : ℕ

unfoldable pub read_owner : Wire → Result (String × String)
unfolding nonempty_text digest_of
read_owner w = do
  guard (py_eq w.tag (str wire_tag) && is_int w.schema && py_eq w.schema (int (pos wire_schema)))
      schema_reason
  owner ← require (nonempty_text w.owner) owner_reason
  plan ← require (digest_of w.plan_digest) owner_reason
  ok (owner, plan)

unfoldable pub read_counts : Wire → String × String → Result Header
unfolding strict_int
read_counts w names = do
  group ← strict_int w.group_index 0
  q ← strict_int w.q_rows 1
  kv ← strict_int w.kv_rows 1
  sink ← strict_int w.sink_rows 0
  ok (record {
    owner = names.0;
    plan_digest = names.1;
    group_index = group;
    q_rows = q;
    kv_rows = kv;
    sink_rows = sink;
  })

unfoldable pub read_header : Wire → Result Header
unfolding read_owner read_counts
read_header w = read_owner w >>= read_counts w

-- The counts of the tuple are those of the call.
unfoldable pub check_domain : Header → (q_rows kv_rows sink_rows : Value) → Result ⊤
check_domain h q_rows kv_rows sink_rows = do
  guard (is_int q_rows && is_int kv_rows && is_int sink_rows) domain
  guard
      (py_eq (int (pos h.q_rows)) q_rows
        && py_eq (int (pos h.kv_rows)) kv_rows
        && py_eq (int (pos h.sink_rows)) sink_rows
        && leb h.sink_rows h.kv_rows)
      domain

module _ (sha256_json : Value → String) where
  unfoldable pub validated_of : String → String → (group q kv sink : ℕ) → Scan → ValidatedMap
  unfolding payload
  validated_of owner plan group q kv sink s = record {
    owner_generation = owner;
    plan_digest = plan;
    group_index = group;
    q_rows = q;
    kv_rows = kv;
    sink_rows = sink;
    runs = s.runs;
    map_digest = sha256_json (payload owner plan group q kv sink s.runs);
    identity_aligned = s.identity_aligned;
  }

  -- The header of the tuple has been read: the runs.
  unfoldable pub validate_runs :
      String → String → (group q kv sink : ℕ) → Value → Result ValidatedMap
  unfolding runs_of scan_runs validated_of
  validate_runs owner plan group q kv sink raw_runs = do
    raws ← require (runs_of raw_runs) schema_reason
    s ← scan_runs q kv (scan_start q kv) raws
    guard (s.expected_q == q) schema_reason
    ok (validated_of owner plan group q kv sink s)

  unfoldable pub validate_fields : Wire → (q_rows kv_rows sink_rows : Value) → Result ValidatedMap
  unfolding read_header check_domain validate_runs
  validate_fields w q_rows kv_rows sink_rows = do
    h ← read_header w
    check_domain h q_rows kv_rows sink_rows
    validate_runs h.owner h.plan_digest h.group_index h.q_rows h.kv_rows h.sink_rows w.raw_runs

  unfoldable pub validate_cold : Value → (q_rows kv_rows sink_rows : Value) → Result ValidatedMap
  unfolding wire_of validate_fields
  validate_cold value q_rows kv_rows sink_rows = do
    w ← wire_of value
    validate_fields w q_rows kv_rows sink_rows
