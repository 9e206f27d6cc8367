-- ===== src/PartitionedRequest/Facts/Ranges.antt =====
-- Shapes, digests and ranges that the checks of sol_h3/partitioned_request.py have passed.
use comfy_ui_sol_h.Base.{
  none, some, [], ◌∷◌, List, Bool, Option, ℕ, ltb, ◌≡◌, String, true, if◌then◌else◌, ◌&&◌, and_true,
  some-eq, subst, ap, leb, refl, ◌∙◌, ap₂, sym,
}
use comfy_ui_sol_h.Base.Int.{pos}
use comfy_ui_sol_h.Py.{
  Value, nothing, bool, int, float, str, tuple, list, dict, object, cons, nil, is_int, natural,
  natural-eq,
}
use comfy_ui_sol_h.Py.Outcome.{ok, Exn, >>=-eq-ok, or_raise, assert, ok-eq, assert-true}
use comfy_ui_sol_h.PartitionedRequest.Tensors.{geometry_valid, rows_of}
use comfy_ui_sol_h.MappedNeighbors.Wire.{digest_of}
use comfy_ui_sol_h.Caches.Bias.{read_pair, read_range, no_value, outside}
use comfy_ui_sol_h.PartitionedRequest.Arguments.{pair_of}
use comfy_ui_sol_h.Py.Text.{digest_text}
use mathlib.Core.Bool.{false}

abbrev Positive : List ℕ → Type 0
Positive shape = ltb 0 (rows_of shape) ≡ true

pub geometry_valid-rows :
    (q k v : List ℕ)
    → geometry_valid q k v ≡ true
    → (ltb 0 (rows_of q) ≡ true) × (ltb 0 (rows_of k) ≡ true)
unfolding geometry_valid
geometry_valid-rows (a ∷ b ∷ c ∷ []) (d ∷ e ∷ f ∷ []) (g ∷ h ∷ i ∷ []) t =
    let (front, heads) = and_true _ _ t in and_true _ _ (and_true _ _ front).1
geometry_valid-rows (a ∷ b ∷ c ∷ []) (d ∷ e ∷ f ∷ []) [] t = cc
geometry_valid-rows (a ∷ b ∷ c ∷ []) (d ∷ e ∷ f ∷ []) (g ∷ []) t = cc
geometry_valid-rows (a ∷ b ∷ c ∷ []) (d ∷ e ∷ f ∷ []) (g ∷ h ∷ []) t = cc
geometry_valid-rows (a ∷ b ∷ c ∷ []) (d ∷ e ∷ f ∷ []) (g ∷ h ∷ i ∷ j ∷ l) t = cc
geometry_valid-rows (a ∷ b ∷ c ∷ []) [] v t = cc
geometry_valid-rows (a ∷ b ∷ c ∷ []) (d ∷ []) v t = cc
geometry_valid-rows (a ∷ b ∷ c ∷ []) (d ∷ e ∷ []) v t = cc
geometry_valid-rows (a ∷ b ∷ c ∷ []) (d ∷ e ∷ f ∷ g ∷ l) v t = cc
geometry_valid-rows [] k v t = cc
geometry_valid-rows (a ∷ []) k v t = cc
geometry_valid-rows (a ∷ b ∷ []) k v t = cc
geometry_valid-rows (a ∷ b ∷ c ∷ d ∷ l) k v t = cc

if_some : (b : Bool) (s t : String) → (if b then some s else none) ≡ some t → (b ≡ true) × (s ≡ t)
if_some true s t h = (refl, some-eq s t h)
if_some false s t h = cc

pub digest_of-digest_text : (v : Value) (s : String) → digest_of v ≡ some s → digest_text s ≡ true
unfolding digest_of
digest_of-digest_text (str t) s h =
    let (valid, eq) = if_some (digest_text t) t s h in subst (λ z. digest_text z ≡ true) eq valid
digest_of-digest_text nothing s h = cc
digest_of-digest_text (bool b) s h = cc
digest_of-digest_text (int z) s h = cc
digest_of-digest_text (float f) s h = cc
digest_of-digest_text (tuple xs) s h = cc
digest_of-digest_text (list xs) s h = cc
digest_of-digest_text (dict es) s h = cc
digest_of-digest_text (object i) s h = cc

read_pair-eq :
    (v : Value) (p : Value × Value) → read_pair v ≡ ok p → v ≡ tuple (cons p.0 (cons p.1 nil))
unfolding read_pair
read_pair-eq (tuple (cons a (cons b nil))) p h =
    let (t, both, eq) = >>=-eq-ok (assert (is_int a && is_int b) _) _ h in
    ap (λ z. tuple (cons z.0 (cons z.1 nil))) (ok-eq (a, b) p eq)
read_pair-eq (tuple nil) p h = cc
read_pair-eq (tuple (cons a nil)) p h = cc
read_pair-eq (tuple (cons a (cons b (cons c d)))) p h = cc
read_pair-eq nothing p h = cc
read_pair-eq (bool b) p h = cc
read_pair-eq (int z) p h = cc
read_pair-eq (float f) p h = cc
read_pair-eq (str s) p h = cc
read_pair-eq (list xs) p h = cc
read_pair-eq (dict es) p h = cc
read_pair-eq (object i) p h = cc

pub or_raise-some {ℓ} :
    {A : Type ℓ} (o : Option A) (e : Exn) (a : A) → or_raise o e ≡ ok a → o ≡ some a
or_raise-some none e a h = cc
or_raise-some (some b) e a h = ap some (ok-eq b a h)

abbrev pair_value : ℕ → ℕ → Value
pair_value start stop = tuple (cons (int (pos start)) (cons (int (pos stop)) nil))

-- A range that is read is a pair of numbers in order and within the rows.
pub read_range-pair_of :
    (v : Value) (n : ℕ) (r : ℕ × ℕ)
    → read_range v n ≡ ok r
    → (pair_of v ≡ some r) × (ltb r.0 r.1 && leb r.1 n ≡ true)
unfolding read_range pair_of
read_range-pair_of v n r h =
    let (p, pair, h1) = >>=-eq-ok (read_pair v) _ h in
    let (a, first, h2) = >>=-eq-ok (or_raise (natural p.0) outside) _ h1 in
    let (b, second, h3) = >>=-eq-ok (or_raise (natural p.1) outside) _ h2 in
    let (t, ordered, h4) = >>=-eq-ok (assert (ltb a b && leb b n) outside) _ h3 in
    let whole_pair : v ≡ pair_value a b =
      read_pair-eq v p pair
      ∙ ap₂ (λ x y. tuple (cons x (cons y nil)))
          (natural-eq p.0 a (or_raise-some (natural p.0) outside a first))
          (natural-eq p.1 b (or_raise-some (natural p.1) outside b second)) in
    let eq = ok-eq (a, b) r h4 in
    (
      subst (λ z. pair_of z ≡ some r) (sym whole_pair) (ap some eq),
      subst (λ z. (ltb z.0 z.1 && leb z.1 n) ≡ true) eq
          (assert-true (ltb a b && leb b n) outside ordered),
    )

pub no_value-eq : (v : Value) → no_value v ≡ true → pair_of v ≡ none
unfolding pair_of
no_value-eq nothing h = refl
no_value-eq (bool b) h = cc
no_value-eq (int z) h = cc
no_value-eq (float f) h = cc
no_value-eq (str s) h = cc
no_value-eq (tuple xs) h = cc
no_value-eq (list xs) h = cc
no_value-eq (dict es) h = cc
no_value-eq (object i) h = cc
