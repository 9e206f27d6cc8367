-- ===== src/Receipts/Routes.antt =====
-- The route of a receipt before `_accept_partitioned_receipt` of sol_h3/partitioned_history.py. The
-- request's proofs name a block and its fields, but no route.
use comfy_ui_sol_h.Receipts.Ledger.{Ledger, full_receipt}
use comfy_ui_sol_h.Receipts.Partitioned.{
  Completion, route_valid, equals, mapped_route, sol_route, dense_route, is_partitioned_route,
  completion_valid, fields_valid, accept_partitioned, unpack, native_dense_fields,
  weighted_dense_fields,
}
use comfy_ui_sol_h.Base.{
  none, some, String, Bool, str_eq, ◌≡◌, false, true, subst, sym, and_true, or_true, ◌⊎◌, refl,
  Option, inl, ℕ, inr, ◌∙◌,
}
use comfy_ui_sol_h.Py.{
  py_eq, Value, str, py_eq-str, tuple, items, bool, int, float, list, dict, object, nothing,
}

equals_excludes :
    (v : Value) (a b : String) → str_eq a b ≡ false → equals v a ≡ true → equals v b ≡ false
unfolding py_eq
equals_excludes v a b differ h = subst (λ w. equals w b ≡ false) (sym (py_eq-str v a h)) differ

-- The mode that the sparse routes and no dense one have.
abbrev mode_of : Completion → String → Bool
mode_of c = equals c.execution_mode

mapped_mode :
    (c : Completion) → route_valid (str mapped_route) c ≡ true → mode_of c "sm120_mapped" ≡ true
unfolding route_valid py_eq
mapped_mode c h =
    let (front, kernel) = and_true _ _ h in
    let (names, descriptor) = and_true _ _ front in (and_true _ _ names).0

union_mode :
    (c : Completion) → route_valid (str sol_route) c ≡ true → mode_of c "sm120_union" ≡ true
unfolding route_valid py_eq
union_mode c h = let (front, kernel) = and_true _ _ h in (and_true _ _ front).0

dense_mode :
    (c : Completion) (mode : String)
    → str_eq "dense_forced" mode ≡ false
    → str_eq "dense_warmup" mode ≡ false
    → str_eq "dense_sm120_forced" mode ≡ false
    → str_eq "dense_sm120_warmup" mode ≡ false
    → route_valid (str dense_route) c ≡ true
    → mode_of c mode ≡ false
unfolding route_valid py_eq
dense_mode c mode p q r t h = elim (or_true (native_dense_fields c) (weighted_dense_fields c) h) [
  | inl native ↦
      elim (or_true (mode_of c "dense_forced") (mode_of c "dense_warmup") (and_true _ _ native).0) [
        | inl forced ↦ equals_excludes c.execution_mode "dense_forced" mode p forced
        | inr warmup ↦ equals_excludes c.execution_mode "dense_warmup" mode q warmup
      ]
  | inr weighted ↦
      let (front, negative) = and_true _ _ weighted in
      let (contract, ranged) = and_true _ _ front in
      elim (or_true (mode_of c "dense_sm120_forced") (mode_of c "dense_sm120_warmup")
        (and_true _ _ contract).0) [
          | inl forced ↦ equals_excludes c.execution_mode "dense_sm120_forced" mode r forced
          | inr warmup ↦ equals_excludes c.execution_mode "dense_sm120_warmup" mode t warmup
        ]
]

clash {ℓ} : {A : Type ℓ} (b : Bool) → b ≡ true → b ≡ false → A
clash b p q = cc

-- The three routes.
abbrev Known : String → Type 0
Known r = (r ≡ dense_route) ⊎ ((r ≡ sol_route) ⊎ (r ≡ mapped_route))

str-eq : (a b : String) → str a ≡ str b → a ≡ b
str-eq a b h = cc

is_partitioned_route-Known : (r : String) → is_partitioned_route (str r) ≡ true → Known r
is_partitioned_route-Known r h = elim (or_true _ _ h) [
  | inl first ↦ elim (or_true _ _ first) [
    | inl dense ↦ inl (str-eq r dense_route (py_eq-str (str r) dense_route dense))
    | inr sol ↦ inr (inl (str-eq r sol_route (py_eq-str (str r) sol_route sol)))
  ]
  | inr mapped ↦ inr (inr (str-eq r mapped_route (py_eq-str (str r) mapped_route mapped)))
]

abbrev Valid : Completion → String → Type 0
Valid c r = route_valid (str r) c ≡ true

dense_or_union {ℓ} : {A : Type ℓ} (c : Completion) → Valid c dense_route → Valid c sol_route → A
dense_or_union c d u =
    clash (mode_of c "sm120_union") (union_mode c u)
      (dense_mode c "sm120_union" refl refl refl refl d)

dense_or_mapped {ℓ} : {A : Type ℓ} (c : Completion) → Valid c dense_route → Valid c mapped_route → A
dense_or_mapped c d m =
    clash (mode_of c "sm120_mapped") (mapped_mode c m)
      (dense_mode c "sm120_mapped" refl refl refl refl d)

union_or_mapped {ℓ} : {A : Type ℓ} (c : Completion) → Valid c sol_route → Valid c mapped_route → A
union_or_mapped c u m =
    clash (mode_of c "sm120_union") (union_mode c u)
      (equals_excludes c.execution_mode "sm120_mapped" "sm120_union" refl (mapped_mode c m))

route_eq : (c : Completion) (a b : String) → Known a → Known b → Valid c a → Valid c b → a ≡ b
route_eq c a b (inl p) (inl q) v w = p ∙ sym q
route_eq c a b (inl p) (inr (inl q)) v w =
    dense_or_union c (subst (Valid c) p v) (subst (Valid c) q w)
route_eq c a b (inl p) (inr (inr q)) v w =
    dense_or_mapped c (subst (Valid c) p v) (subst (Valid c) q w)
route_eq c a b (inr (inl p)) (inl q) v w =
    dense_or_union c (subst (Valid c) q w) (subst (Valid c) p v)
route_eq c a b (inr (inl p)) (inr (inl q)) v w = p ∙ sym q
route_eq c a b (inr (inl p)) (inr (inr q)) v w =
    union_or_mapped c (subst (Valid c) p v) (subst (Valid c) q w)
route_eq c a b (inr (inr p)) (inl q) v w =
    dense_or_mapped c (subst (Valid c) q w) (subst (Valid c) p v)
route_eq c a b (inr (inr p)) (inr (inl q)) v w =
    union_or_mapped c (subst (Valid c) q w) (subst (Valid c) p v)
route_eq c a b (inr (inr p)) (inr (inr q)) v w = p ∙ sym q

completion_valid-route :
    (c : Completion) (r : String) → completion_valid (str r) c ≡ true → Valid c r
unfolding completion_valid
completion_valid-route c r h = (and_true _ _ h).1

unpacked_eq :
    (o : Option Completion) (a b : String)
    → Known a
    → Known b
    → elim o [ none ↦ false | some c ↦ completion_valid (str a) c ] ≡ true
    → elim o [ none ↦ false | some c ↦ completion_valid (str b) c ] ≡ true
    → a ≡ b
unpacked_eq none a b p q v w = cc
unpacked_eq (some c) a b p q v w =
    route_eq c a b p q (completion_valid-route c a v) (completion_valid-route c b w)

fields_eq :
    (fields : Value) (a b : String)
    → Known a
    → Known b
    → fields_valid (str a) fields ≡ true
    → fields_valid (str b) fields ≡ true
    → a ≡ b
unfolding fields_valid
fields_eq (tuple xs) a b p q v w = unpacked_eq (unpack (items xs)) a b p q v w
fields_eq nothing a b p q v w = cc
fields_eq (bool x) a b p q v w = cc
fields_eq (int x) a b p q v w = cc
fields_eq (float x) a b p q v w = cc
fields_eq (str x) a b p q v w = cc
fields_eq (list x) a b p q v w = cc
fields_eq (dict x) a b p q v w = cc
fields_eq (object x) a b p q v w = cc

accepted-parts :
    (s : Option Ledger) (block : ℕ) (route : String) (fields : Value)
    → accept_partitioned s (full_receipt block route fields) ≡ true
    → Known route × (fields_valid (str route) fields ≡ true)
unfolding accept_partitioned
accepted-parts s block route fields h =
    let (front, own) = and_true _ _ h in
    let (routed, valid) = and_true _ _ front in
    let (numbered, known) = and_true _ _ routed in (is_partitioned_route-Known route known, valid)

-- Two accepted receipts with the same fields have the same route, even in two requests: a receipt
-- cannot pass for one of another route, though the proofs name none.
pub accept_partitioned-route :
    (s t : Option Ledger) (i j : ℕ) (a b : String) (fields : Value)
    → accept_partitioned s (full_receipt i a fields) ≡ true
    → accept_partitioned t (full_receipt j b fields) ≡ true
    → a ≡ b
accept_partitioned-route s t i j a b fields h k =
    let (known_a, valid_a) = accepted-parts s i a fields h in
    let (known_b, valid_b) = accepted-parts t j b fields k in
    fields_eq fields a b known_a known_b valid_a valid_b
