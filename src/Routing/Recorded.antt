-- ===== src/Routing/Recorded.antt =====
-- What a call of the VDN providers of sol_h3/runtime.py leaves behind when it returns.
use comfy_ui_sol_h.Base.{
  ℕ, String, Bool, Option, str_eq, some, ◌≡◌, if◌then◌else◌, ◌||◌, true, false, ◌⊎◌, none, sym,
  Bool-cases, ap, inl, ◌∙◌, inr, refl, subst, not,
}
use comfy_ui_sol_h.Py.Outcome.{
  Outcome, Exn, kernel_unavailable, mapping_unavailable, runtime_error, value_error, key_error,
  type_error, import_error, os_error, ok-eq,
}
use comfy_ui_sol_h.Py.{Value}
use comfy_ui_sol_h.Routing.State.{
  Scope, Block, recorded, route_name, LocalCall, record_route, Attend, in_warmup,
}
use comfy_ui_sol_h.Receipts.Ledger.{Ledger, full_receipt}
use comfy_ui_sol_h.PartitionedRequest.Engine.{Stateful}
use comfy_ui_sol_h.Receipts.Publish.{mapped_local_route}
use comfy_ui_sol_h.Routing.Local.{
  or_caught, or_unmapped, try_attention, run_local, run_unless, fall_back, vdn_legacy_local,
  warm_up, finish_local, local_reason, attend_of, note_eligible, guarded, other_kind, square_local,
  square, domain_local, in_domain, with_sparse,
}
use mathlib.Core.Bool.{true}
use comfy_ui_sol_h.Receipts.History.{accept_item}

-- The claim that receipts of the block carry: a mapped one is accepted by the history policy.
abbrev pub Accepted : ℕ → String → Option Value → Ledger → Type 0
Accepted index route none l = Unit
Accepted index route (some fields) l =
    (route ≡ mapped_local_route)
    × (accept_item l.mapped_validated (full_receipt index route fields) ≡ true)

-- One route and one receipt, and a result whose source the route and the receipt name.
pub record IsRecorded {C : Type 0} (Source : String → Option Value → C → Type 0) (index : ℕ)
    (l l' : Ledger) (result : C) : Type 0 where
  pub route : String
  pub fields : Option Value
  pub once : l' ≡ recorded index route fields l
  pub source : Source route fields result
  pub accepted : Accepted index route fields l'

-- The result that the sparse attention has given for the arguments, in the shape of the query.
pub record IsAttended {C K : Type 0} (scope : Scope C K) (call : LocalCall C) (arguments : Attend C)
    (k : K) (result : C) : Type 0 where
  pub attended : C
  pub ran : (scope.attention arguments k).0 ≡ Outcome.ok attended
  pub shaped : result ≡ scope.reshaped call.q.layout.shape attended

-- VDN's own attention, under any route and without a receipt of a map.
abbrev pub FromNative : {C : Type 0} → LocalCall C → String → Option Value → C → Type 0
FromNative call route fields result = (call.native ≡ Outcome.ok result) × (fields ≡ none)

-- The sparse attention of an older provider.
abbrev pub FromLocal :
    {C K : Type 0} → Scope C K → LocalCall C → K → String → Option Value → C → Type 0
FromLocal scope call k route fields result =
    (route ≡ "vdn_local_sol")
    × (fields ≡ none)
    × IsAttended scope call (attend_of scope call none none) k result

-- Where the result of an older provider comes from.
abbrev pub LegacySource :
    {C K : Type 0} → Scope C K → LocalCall C → K → String → Option Value → C → Type 0
LegacySource scope call k route fields result =
    FromNative call route fields result ⊎ FromLocal scope call k route fields result

or_caught-cases :
    {S A B : Type 0} (Q : Outcome B × S → Type 0) (o : Outcome A) (s : S)
    (caught : String → Stateful S B) (next : A → Stateful S B)
    → ((exn : Exn) → Q (Outcome.raise exn, s))
    → ((message : String) → Q (caught message s))
    → ((a : A) → o ≡ Outcome.ok a → Q (next a s))
    → Q (or_caught o s caught next)
or_caught-cases Q (Outcome.ok a) s caught next r c n = n a refl
or_caught-cases Q (Outcome.raise (kernel_unavailable m)) s caught next r c n = c m
or_caught-cases Q (Outcome.raise (runtime_error m)) s caught next r c n = r (runtime_error m)
or_caught-cases Q (Outcome.raise (value_error m)) s caught next r c n = r (value_error m)
or_caught-cases Q (Outcome.raise (key_error m)) s caught next r c n = r (key_error m)
or_caught-cases Q (Outcome.raise (mapping_unavailable m)) s caught next r c n =
    r (mapping_unavailable m)
or_caught-cases Q (Outcome.raise (type_error m)) s caught next r c n = r (type_error m)
or_caught-cases Q (Outcome.raise (import_error m)) s caught next r c n = r (import_error m)
or_caught-cases Q (Outcome.raise (os_error m)) s caught next r c n = r (os_error m)

pub or_unmapped-cases :
    {S A B : Type 0} (Q : Outcome B × S → Type 0) (o : Outcome A) (s : S)
    (caught : String → Stateful S B) (next : A → Stateful S B)
    → ((exn : Exn) → Q (Outcome.raise exn, s))
    → ((message : String) → Q (caught message s))
    → ((a : A) → o ≡ Outcome.ok a → Q (next a s))
    → Q (or_unmapped o s caught next)
or_unmapped-cases Q (Outcome.ok a) s caught next r c n = n a refl
or_unmapped-cases Q (Outcome.raise (mapping_unavailable m)) s caught next r c n = c m
or_unmapped-cases Q (Outcome.raise (runtime_error m)) s caught next r c n = r (runtime_error m)
or_unmapped-cases Q (Outcome.raise (value_error m)) s caught next r c n = r (value_error m)
or_unmapped-cases Q (Outcome.raise (key_error m)) s caught next r c n = r (key_error m)
or_unmapped-cases Q (Outcome.raise (kernel_unavailable m)) s caught next r c n =
    r (kernel_unavailable m)
or_unmapped-cases Q (Outcome.raise (type_error m)) s caught next r c n = r (type_error m)
or_unmapped-cases Q (Outcome.raise (import_error m)) s caught next r c n = r (import_error m)
or_unmapped-cases Q (Outcome.raise (os_error m)) s caught next r c n = r (os_error m)

pub branches :
    {S B : Type 0} (Q : Outcome B × S → Type 0) (b : Bool) (x y : Stateful S B) (s : S)
    → Q (x s)
    → Q (y s)
    → Q ((if b then x else y) s)
branches Q true x y s h k = h
branches Q false x y s h k = k

module _ {C K : Type 0} (scope : Scope C K) where
  pub route_name-kept :
      (route : String)
      → (str_eq route "sol" || str_eq route "dense_warmup") ≡ false
      → route_name scope route ≡ route
  route_name-kept route h = elim (Bool-cases scope.streamed) [
    | inl streamed ↦ rw streamed (rw h refl)
    | inr plain ↦ rw plain refl
  ]

module _ {C K : Type 0} (scope : Scope C K) (call : LocalCall C)
    (Source : String → Option Value → C → Type 0)
    (from_native : (route : String) (result : C)
      → call.native ≡ Outcome.ok result
      → Source route none result) where
  -- If the call returns, then it has recorded its route on the ledger `l`.
  abbrev pub Good : Ledger → Outcome C × Block K → Type 0
  Good l r =
      (result : C) (s' : Block K)
      → r ≡ (Outcome.ok result, s')
      → IsRecorded Source scope.index l s'.ledger result

  pub raised-Good : (l : Ledger) (s : Block K) (exn : Exn) → Good l (Outcome.raise exn, s)
  raised-Good l s exn result s' h = cc

  native-Good :
      (l : Ledger) (s : Block K) (route : String)
      → s.ledger ≡ recorded scope.index route none l
      → Good l (call.native, s)
  native-Good l s route e result s' h = record {
    route = route;
    fields = none;
    once = sym (ap (λ z. z.1.ledger) h) ∙ e;
    source = from_native route result (ap (λ z. z.0) h);
    accepted = tt;
  }

  pub fall_back-Good : (route : String) (s : Block K) → Good s.ledger (fall_back scope call route s)
  unfolding record_route
  fall_back-Good route s = native-Good s.ledger _ (route_name scope route) refl

  pub warm_up-Good : (s : Block K) → Good s.ledger (warm_up scope call s)
  unfolding record_route
  warm_up-Good s = native-Good s.ledger _ (route_name scope "vdn_dense_warmup") refl

  pub try_attention-Good :
      (arguments : Attend C) (next : C → Stateful (Block K) C) (s : Block K)
      → ((a : C)
          → (scope.attention arguments s.sparse).0 ≡ Outcome.ok a
          → Good s.ledger (next a (with_sparse scope s (scope.attention arguments s.sparse).1)))
      → Good s.ledger (try_attention scope call arguments next s)
  unfolding try_attention
  try_attention-Good arguments next s good =
      or_caught-cases (Good s.ledger) (scope.attention arguments s.sparse).0 _ _ next
        (λ exn. raised-Good s.ledger _ exn) (λ message. fall_back-Good _ _) good

  pub run_unless-Good :
      (o : Option String) (run : Stateful (Block K) C) (s : Block K)
      → Good s.ledger (run s)
      → Good s.ledger (run_unless scope call o run s)
  run_unless-Good none run s h = h
  run_unless-Good (some reason) run s h = fall_back-Good reason s

  pub guarded-Good :
      (fine : Bool) (route : String) (run : Stateful (Block K) C) (s : Block K)
      → Good s.ledger (run s)
      → Good s.ledger (guarded scope call fine route run s)
  guarded-Good fine route run s h =
      branches (Good s.ledger) (not fine) (fall_back scope call route) run s
        (fall_back-Good route s) h

  module _ (s : Block K)
      (from_local : (a : C)
        → (scope.attention (attend_of scope call none none) s.sparse).0 ≡ Outcome.ok a
        → Source "vdn_local_sol" none (scope.reshaped call.q.layout.shape a)) where
    finish_local-Good :
        (a : C) (t : Block K)
        → (scope.attention (attend_of scope call none none) s.sparse).0 ≡ Outcome.ok a
        → Good t.ledger (finish_local scope call a t)
    unfolding record_route
    finish_local-Good a t ran result s' h = record {
      route = "vdn_local_sol";
      fields = none;
      once =
          subst (λ r. s'.ledger ≡ recorded scope.index r none t.ledger)
            (route_name-kept scope "vdn_local_sol" refl) (sym (ap (λ z. z.1.ledger) h));
      source =
          subst (Source "vdn_local_sol" none) (ok-eq _ result (ap (λ z. z.0) h)) (from_local a ran);
      accepted = tt;
    }

    run_local-Good : Good s.ledger (run_local scope call s)
    unfolding run_local
    run_local-Good =
        let t = note_eligible scope s in
        branches (Good s.ledger) (in_warmup scope) (warm_up scope call)
          (try_attention scope call (attend_of scope call none none) (finish_local scope call)) t
          (warm_up-Good t)
          (try_attention-Good (attend_of scope call none none) (finish_local scope call) t
            (λ a ran. finish_local-Good a _ ran))

    pub vdn_legacy_local-Good : Good s.ledger (vdn_legacy_local scope call s)
    unfolding vdn_legacy_local
    vdn_legacy_local-Good =
        guarded-Good (str_eq call.kind "local") (other_kind scope call) (square_local scope call) s
          (guarded-Good (square scope call) "vdn_local_native" (domain_local scope call) s (
            guarded-Good (in_domain scope call) "vdn_local_domain"
              (run_unless scope call (local_reason scope call) (run_local scope call)) s
              (run_unless-Good (local_reason scope call) (run_local scope call) s run_local-Good)))

module _ {C K : Type 0} (scope : Scope C K) (call : LocalCall C) where
  -- A call of the older providers that returns has recorded one route and no receipt of a map. Its
  -- result is that of VDN's own attention; or the route is `vdn_local_sol`, and the result is what
  -- the sparse attention gives for the call's query, key, value and sink rows, in the shape of the
  -- query.
  pub vdn_legacy_local-IsRecorded :
      (s s' : Block K) (result : C)
      → vdn_legacy_local scope call s ≡ (Outcome.ok result, s')
      → IsRecorded (LegacySource scope call s.sparse) scope.index s.ledger s'.ledger result
  vdn_legacy_local-IsRecorded s s' result =
      vdn_legacy_local-Good scope call (LegacySource scope call s.sparse)
        (λ route result ran. inl (ran, refl)) s
        (λ a ran. inr (refl, refl, record { attended = a; ran = ran; shaped = refl })) result s'
