-- ===== src/Py/Outcome.antt =====
-- What a call returns or raises, with the exception's class and message.
use comfy_ui_sol_h.Base.{Bool, true, false, Option, none, some, String, ◌≡◌, refl, ⊤}

pub data Exn : Type 0 where
  runtime_error value_error key_error mapping_unavailable type_error import_error os_error
        kernel_unavailable :
      String → Exn

pub data Outcome {ℓ} (A : Type ℓ) : Type ℓ where
  ok : A → Outcome A
  raise : Exn → Outcome A

-- An exception ends the sequence.
abbrev pub ◌>>=◌ {κ ℓ} :
    {Value : Type κ} {Next : Type ℓ} → Outcome Value → (next : Value → Outcome Next) → Outcome Next
raise exn >>= next = raise exn
ok value >>= next = next value

abbrev pub ◌>>◌ {ℓ} : {Next : Type ℓ} → Outcome ⊤ → Outcome Next → Outcome Next
done >> next = done >>= λ _. next

infixl 5 ◌>>=◌ ◌>>◌
-- `if not test: raise`
abbrev pub assert : Bool → Exn → Outcome ⊤
assert true e = ok tt
assert false e = raise e

-- `if test: raise`
abbrev pub raise_if : Bool → Exn → Outcome ⊤
raise_if true e = raise e
raise_if false e = ok tt

abbrev pub or_raise {ℓ} : {A : Type ℓ} → Option A → Exn → Outcome A
or_raise (some a) e = ok a
or_raise none e = raise e

pub >>=-eq-ok {κ ℓ} :
    {Found : Type κ} {Next : Type ℓ} (first : Outcome Found) (next : Found → Outcome Next)
    {final : Next}
    → (first >>= next) ≡ ok final
    → (found : Found) × (first ≡ ok found) × (next found ≡ ok final)
>>=-eq-ok (raise exn) next failed = cc
>>=-eq-ok (ok found) next reached = (found, refl, reached)

pub ok-eq {ℓ} : {A : Type ℓ} (a b : A) → ok a ≡ ok b → a ≡ b
ok-eq a b h = cc

pub assert-true : (b : Bool) (e : Exn) {t : ⊤} → assert b e ≡ ok t → b ≡ true
assert-true true e h = refl
assert-true false e h = cc
