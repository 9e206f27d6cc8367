-- ===== src/Caches/Bias.antt =====
-- `_key_bias` of sol_h3/partitioned_request.py: the additive log measure of the key rows, which the
-- request keeps. The synchronisation of the CUDA streams is left out; an entry made on CUDA always
-- has its event. `capturing` is `torch.cuda.is_current_stream_capturing()`, and
-- `float32` what torch stores of a float in a tensor of that type.
use comfy_ui_sol_h.Caches.Lru.{Entry, Cache, store, lookup, move_to_end}
use comfy_ui_sol_h.Py.{
  Value, tuple, cons, nil, nothing, Float, float_lt, float_eq, is_finite, whole, is_int, natural,
}
use comfy_ui_sol_h.Base.{
  none, some, [], ◌∷◌, ℕ, String, Bool, List, Option, length, str_eq, suc, if◌then◌else◌, ◌&&◌,
  true, ◌*◌, ◌==◌, zero, leb, not, false, ltb, ◌+◌,
}
use comfy_ui_sol_h.Py.Outcome.{
  Outcome, ok, raise, Exn, assert, runtime_error, ◌>>=◌, raise_if, ◌>>◌, or_raise, key_error,
}
use Prim.Native.Nat.{zero}
use comfy_ui_sol_h.Py.Text.{digest_text}

abbrev pub max_bias_cache_entries : ℕ
max_bias_cache_entries = 64

abbrev pub max_bias_cache_bytes : ℕ
max_bias_cache_bytes = 4194304

-- The key, less the constant ABI in front.
pub record BiasKey : Type 0 where
  pub semantic_digest : String
  pub kv_rows : ℕ
  pub start : ℕ
  pub stop : ℕ
  pub log_measure : Float
  pub device : String

unfoldable pub same_key : BiasKey → BiasKey → Bool
same_key a b =
    str_eq a.semantic_digest b.semantic_digest
    && (a.kv_rows == b.kv_rows)
    && (a.start == b.start)
    && (a.stop == b.stop)
    && float_eq a.log_measure b.log_measure
    && str_eq a.device b.device

-- `torch.zeros(n)`
abbrev pub zeros : ℕ → List Float
zeros zero = []
zeros (suc n) = whole 0 ∷ zeros n

-- `row[start:stop] = v`, for the part of the row that begins at index `i`.
abbrev pub set_slice : (i start stop : ℕ) → Float → List Float → List Float
set_slice i start stop v [] = []
set_slice i start stop v (x ∷ xs) =
    (if leb start i && ltb i stop then v else x) ∷ set_slice (i + 1) start stop v xs

unfoldable pub bias_of : (float32 : Float → Float) → BiasKey → List Float
bias_of float32 k = set_slice 0 k.start k.stop (float32 k.log_measure) (zeros k.kv_rows)

pub record BiasState : Type 0 where
  pub cache : Cache BiasKey (List Float)
  pub unit_measure_calls : ℕ

pub record BiasCall : Type 0 where
  pub kv_rows : ℕ
  pub prefix_range : Value
  pub log_measure : Float
  pub device : String
  pub semantic_digest : String

abbrev pub no_range : Exn
no_range = runtime_error "partitioned Sol received a measure without a target-prefix K/V range"

abbrev pub outside : Exn
outside = runtime_error "partitioned Sol prefix K/V range is outside the current domain"

-- A tuple of two integers, neither of which need be positive.
unfoldable pub read_pair : Value → Outcome (Value × Value)
read_pair (tuple (cons a (cons b nil))) =
    assert (is_int a && is_int b)
      (runtime_error "partitioned Sol prefix K/V range must be an integer pair")
    >> ok (a, b)
read_pair _ = raise (runtime_error "partitioned Sol prefix K/V range must be an integer pair")

-- `0 <= start < end <= kv_rows`
unfoldable pub read_range : Value → ℕ → Outcome (ℕ × ℕ)
unfolding read_pair
read_range v kv_rows = do
  pair ← read_pair v
  start ← or_raise (natural pair.0) outside
  stop ← or_raise (natural pair.1) outside
  assert (ltb start stop && leb stop kv_rows) outside
  ok (start, stop)

unfoldable pub measure_usable : Float → Bool
measure_usable m = is_finite m && not (float_lt (whole 0) m)

unfoldable pub key_of : BiasCall → ℕ × ℕ → BiasKey
key_of c r = record {
  semantic_digest = c.semantic_digest;
  kv_rows = c.kv_rows;
  start = r.0;
  stop = r.1;
  log_measure = c.log_measure;
  device = c.device;
}

abbrev pub no_value : Value → Bool
no_value nothing = true
no_value _ = false

-- What is passed on and what the request keeps.
abbrev pub Biased : Type 0
Biased = Option (List Float) × BiasState

-- Of four bytes for each element.
unfoldable pub made_entry : (float32 : Float → Float) → BiasKey → Entry BiasKey (List Float)
unfolding bias_of
made_entry float32 k = record {
  key = k;
  value = bias_of float32 k;
  size = length (bias_of float32 k) * 4;
}

-- `cache[key] = ...` and the eviction.
unfoldable pub insert_bias : (float32 : Float → Float) → BiasKey → BiasState → Outcome Biased
unfolding made_entry
insert_bias float32 k s = do
  kept ←
      or_raise (store max_bias_cache_entries max_bias_cache_bytes (made_entry float32 k) s.cache)
        (key_error "dictionary is empty")
  ok (some (bias_of float32 k), record s { cache = kept })

unfoldable pub cached_bias :
    (float32 : Float → Float)
    → (capturing : Bool) → BiasKey
    → Option (Entry BiasKey (List Float))
    → BiasState
    → Outcome Biased
unfolding insert_bias
cached_bias float32 capturing k (some hit) s =
    ok (some hit.value, record s { cache = move_to_end same_key k hit s.cache })
cached_bias float32 capturing k none s =
    raise_if capturing (
      runtime_error
        "partitioned Sol cannot allocate key-measure metadata during CUDA graph capture")
    >> insert_bias float32 k s

-- A measure of zero needs no bias.
unfoldable pub weigh :
    (float32 : Float → Float) → (capturing : Bool) → BiasCall → ℕ × ℕ → BiasState → Outcome Biased
unfolding cached_bias key_of
weigh float32 capturing c r s =
    if float_eq c.log_measure (whole 0)
    then ok (none, record s { unit_measure_calls = s.unit_measure_calls + 1 })
    else cached_bias float32 capturing (key_of c r) (lookup same_key (key_of c r) s.cache.entries) s

unfoldable pub checked_range : BiasCall → Outcome (ℕ × ℕ)
unfolding read_range measure_usable
checked_range c = do
  r ← read_range c.prefix_range c.kv_rows
  assert (measure_usable c.log_measure)
      (runtime_error "partitioned Sol target-prefix log measure must be finite and non-positive")
  assert (digest_text c.semantic_digest)
      (runtime_error "partitioned Sol semantic digest is invalid")
  ok r

unfoldable pub ranged_bias :
    (float32 : Float → Float) → (capturing : Bool) → BiasCall → BiasState → Outcome Biased
unfolding checked_range weigh
ranged_bias float32 capturing c s = checked_range c >>= λ r. weigh float32 capturing c r s

unfoldable pub key_bias :
    (float32 : Float → Float) → (capturing : Bool) → BiasCall → BiasState → Outcome Biased
unfolding ranged_bias
key_bias float32 capturing c s =
    if no_value c.prefix_range
    then raise_if (not (float_eq c.log_measure (whole 0))) no_range >> ok (none, s)
    else ranged_bias float32 capturing c s
