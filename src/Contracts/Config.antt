-- ===== src/Contracts/Config.antt =====
-- The `Config` of sol_h3/contracts.py, and `merge_config` of sol_h3/runtime.py.
use comfy_ui_sol_h.Base.{
  ℕ, Bool, true, String, ◌≡◌, Option, ◌%◌, if◌then◌else◌, ◌&&◌, str_eq, some, none, ◌==◌, arith,
  refl, ◌↔◌, false, eq_iff, not, ◌||◌, leb→le, and_intro, le→leb, ◌≤◌, and_true, ◌*◌, leb, ◌^◌,
  ==→eq,
}
use comfy_ui_sol_h.Py.{
  Value, Float, is_finite, int, whole, float_le, natural, float_eq, natural-eq, finite, magnitude,
  infinite, nan,
}
use comfy_ui_sol_h.Base.Int.{pos}
use comfy_ui_sol_h.Py.Outcome.{Outcome, or_raise, ◌>>=◌, value_error, ◌>>◌, assert, ok, raise_if}

pub data Backend : Type 0 where
  inherit sol : Backend

pub record Config : Type 0 where
  pub exact : Bool
  pub backend : Backend
  pub tau : Float
  pub dense_evaluations : ℕ
  pub dense_layers : ℕ
  pub qkv_chunk_size : ℕ

abbrev pub default_config : Config
default_config = record {
  exact = true;
  backend = inherit;
  tau = whole 1;
  dense_evaluations = 1;
  dense_layers = 2;
  qkv_chunk_size = 4096;
}

-- The arguments of `Config(...)`, before `__post_init__`.
pub record Fields : Type 0 where
  pub exact : Bool
  pub backend : String
  pub tau : Float
  pub dense_evaluations : Value
  pub dense_layers : Value
  pub qkv_chunk_size : Value

unfoldable pub backend_of : String → Option Backend
backend_of s =
    if str_eq s "inherit" then some inherit else if str_eq s "sol" then some sol else none

-- `math.isfinite(tau) and 0 <= tau <= 3`
unfoldable pub tau_valid : Float → Bool
unfolding is_finite float_le
tau_valid t = is_finite t && float_le (whole 0) t && float_le t (whole 3)

unfoldable pub count_of : Value → String → Outcome ℕ
count_of v name = or_raise (natural v) (value_error name)

-- `Config.__post_init__`
unfoldable pub post_init : Fields → Outcome Config
post_init f = do
  backend ←
      or_raise (backend_of f.backend)
        (value_error "Supported backends: inherit, sol. SOL-BSA is not validated on SM120.")
  assert (tau_valid f.tau) (value_error "tau must be finite and between 0 and 3")
  evaluations ← count_of f.dense_evaluations "dense_evaluations must be a nonnegative integer"
  layers ← count_of f.dense_layers "dense_layers must be a nonnegative integer"
  chunk ← count_of f.qkv_chunk_size "qkv_chunk_size must be zero or a positive multiple of 64"
  assert (chunk % 64 == 0) (value_error "qkv_chunk_size must be zero or a positive multiple of 64")
  ok (record {
    exact = f.exact;
    backend = backend;
    tau = f.tau;
    dense_evaluations = evaluations;
    dense_layers = layers;
    qkv_chunk_size = chunk;
  })

backend_name : Backend → String
backend_name inherit = "inherit"
backend_name sol = "sol"

-- The arguments that a configuration was made of, as `metadata` lists them.
pub fields_of : Config → Fields
unfolding backend_name
fields_of c = record {
  exact = c.exact;
  backend = backend_name c.backend;
  tau = c.tau;
  dense_evaluations = int (pos c.dense_evaluations);
  dense_layers = int (pos c.dense_layers);
  qkv_chunk_size = int (pos c.qkv_chunk_size);
}

-- A float from zero to three, in units of 2 ^ -1074; a negative one is the negative zero.
abbrev pub FromZeroToThree : Float → Type 0
FromZeroToThree (finite false m e) = magnitude m e ≤ 3 * 2 ^ 1074
FromZeroToThree (finite true m e) = magnitude m e ≡ 0
FromZeroToThree (infinite s) = ⊥
FromZeroToThree nan = ⊥

pub record IsValid (c : Config) : Type 0 where
  pub tau_fits : FromZeroToThree c.tau
  pub whole_tiles : c.qkv_chunk_size % 64 ≡ 0

backend_of-eq-some : (s : String) (b : Backend) → backend_of s ≡ some b → s ≡ backend_name b
unfolding backend_of backend_name
backend_of-eq-some s inherit h = ground (arith, eq_iff s "inherit", eq_iff s "sol")
backend_of-eq-some s sol h = ground (arith, eq_iff s "inherit", eq_iff s "sol")

backend_of-name : (b : Backend) → backend_of (backend_name b) ≡ some b
unfolding backend_of backend_name
backend_of-name inherit = refl
backend_of-name sol = refl

count_of-eq-ok : (v : Value) (e : String) (n : ℕ) → count_of v e ≡ ok n → v ≡ int (pos n)
unfolding count_of
count_of-eq-ok v e n h = ground (arith, natural-eq v n)

tau_valid_sound : (t : Float) → tau_valid t ≡ true → FromZeroToThree t
unfolding tau_valid is_finite float_le
tau_valid_sound (finite false m e) h =
    leb→le (magnitude m e) _ (and_true (leb 0 (magnitude m e)) _ h).1
tau_valid_sound (finite true m e) h =
    ==→eq (magnitude m e) 0
      (and_true (is_finite (finite true m e)) _
        (and_true _ (float_le (finite true m e) (whole 3)) h).0).1
tau_valid_sound (infinite s) h = cc
tau_valid_sound nan h = cc

tau_valid_complete : (t : Float) → FromZeroToThree t → tau_valid t ≡ true
unfolding tau_valid is_finite float_le
tau_valid_complete (finite false m e) h =
    and_intro (le→leb 0 (magnitude m e) (omega arith)) (le→leb (magnitude m e) _ h)
tau_valid_complete (finite true m e) h = rw h refl
tau_valid_complete (infinite s) h = absurd h
tau_valid_complete nan h = absurd h

-- Every configuration that is constructed is valid and keeps its arguments.
post_init-IsValid : (f : Fields) (c : Config) → post_init f ≡ ok c → IsValid c × (f ≡ fields_of c)
unfolding post_init fields_of
post_init-IsValid f c h = (
  record { tau_fits = tau_valid_sound c.tau (ground arith); whole_tiles = ground arith },
  ground (
    arith,
    backend_of-eq-some f.backend c.backend,
    count_of-eq-ok f.dense_evaluations "dense_evaluations must be a nonnegative integer"
        c.dense_evaluations,
    count_of-eq-ok f.dense_layers "dense_layers must be a nonnegative integer" c.dense_layers,
    count_of-eq-ok f.qkv_chunk_size "qkv_chunk_size must be zero or a positive multiple of 64"
        c.qkv_chunk_size,
  ),
)

count_of-int : (n : ℕ) (e : String) → count_of (int (pos n)) e ≡ ok n
unfolding count_of
count_of-int n e = refl

-- A valid configuration is what its own metadata constructs.
post_init-fields_of : (c : Config) → IsValid c → post_init (fields_of c) ≡ ok c
unfolding post_init fields_of
post_init-fields_of c v =
    let fits = tau_valid_complete c.tau v.tau_fits in
    ground (
      arith,
      backend_of-name c.backend,
      count_of-int c.dense_evaluations "dense_evaluations must be a nonnegative integer",
      count_of-int c.dense_layers "dense_layers must be a nonnegative integer",
      count_of-int c.qkv_chunk_size "qkv_chunk_size must be zero or a positive multiple of 64",
    )

-- `Config(...)` succeeds exactly on the arguments that a valid configuration lists in its metadata.
pub post_init_iff :
    (f : Fields) (c : Config) → (post_init f ≡ ok c) ↔ (IsValid c × (f ≡ fields_of c))
post_init_iff f c = (post_init-IsValid f c, λ h. rw h.1 (post_init-fields_of c h.0))

backend_eq : Backend → Backend → Bool
backend_eq inherit inherit = true
backend_eq sol sol = true
backend_eq _ _ = false

bool_eq : Bool → Bool → Bool
bool_eq true true = true
bool_eq false false = true
bool_eq _ _ = false

-- Equality of the frozen data class.
unfoldable pub config_eq : Config → Config → Bool
unfolding backend_eq bool_eq float_eq
config_eq a b =
    bool_eq a.exact b.exact
    && backend_eq a.backend b.backend
    && float_eq a.tau b.tau
    && a.dense_evaluations == b.dense_evaluations
    && a.dense_layers == b.dense_layers
    && a.qkv_chunk_size == b.qkv_chunk_size

abbrev pub is_sol : Backend → Bool
is_sol sol = true
is_sol inherit = false

-- `merge_config` of sol_h3/runtime.py.
unfoldable pub merge_config : Config → Config → Outcome Config
merge_config old new = do
  raise_if
      (is_sol old.backend
        && is_sol new.backend
        && not (config_eq (record old { exact = new.exact }) new))
      (value_error
        "Conflicting SOL policies on one MODEL; branch before SOL to use different policies")
  let policy = if is_sol old.backend then old else new
  ok (record policy { exact = old.exact || new.exact })
