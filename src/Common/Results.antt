-- ===== src/Common/Results.antt =====
-- The results of the entry points: `enum pw_result` of prospero-win/include/prospero_win.h.
use mathlib.Core.Bool.{Bool, true, false}
use mathlib.Core.Path.{◌≡◌, refl}
use mathlib.Core.Logic.{◌≢◌}

pub data Error : Type 0 where
  precondition not_pe truncated malformed unsupported overflow limit not_found : Error
  vm_error bad_state x87_trap : Error

-- `ok` is PW_OK with the values that the call stores, `err` a negative code. `fault` is no code of
-- the source: it is an access outside of the object that a pointer was made for.
pub data Outcome {ℓ} (A : Type ℓ) : Type ℓ where
  ok : A → Outcome A
  err : Error → Outcome A
  fault : Outcome A

module _ {ℓ κ} {A : Type ℓ} {B : Type κ} where
  infixl 5 ◌>>=◌
  -- The rest of a call, which runs only behind a part that succeeded.
  abbrev pub ◌>>=◌ : Outcome A → (A → Outcome B) → Outcome B
  fault >>= rest = fault
  err code >>= rest = err code
  ok value >>= rest = rest value

  pub >>=-eq-ok :
      (part : Outcome A) (rest : A → Outcome B) {result : B}
      → (part >>= rest) ≡ ok result
      → (value : A) × (part ≡ ok value) × (rest value ≡ ok result)
  >>=-eq-ok fault rest h = cc
  >>=-eq-ok (err code) rest h = cc
  >>=-eq-ok (ok value) rest h = (value, refl, h)

infixl 5 ◌>>◌
abbrev pub ◌>>◌ {κ} : {B : Type κ} → Outcome (Unit {0}) → Outcome B → Outcome B
part >> rest = part >>= λ _. rest

-- `if (bad) return code;`
abbrev pub refuse : Bool → Error → Outcome (Unit {0})
refuse false code = ok tt
refuse true code = err code

-- No access out of bounds in the first part, nor in the second after it, so none in the whole.
pub >>=-ne-fault {ℓ κ} :
    {A : Type ℓ} {B : Type κ} (m : Outcome A) (f : A → Outcome B)
    → m ≢ fault
    → ((a : A) → m ≡ ok a → f a ≢ fault)
    → (m >>= f) ≢ fault
>>=-ne-fault (ok a) f h k = k a refl
>>=-ne-fault (err e) f h k = λ e. cc
>>=-ne-fault fault f h k = absurd (h refl)

-- The value of a part that did not fail.
pub value_of {ℓ} :
    {A : Type ℓ} (m : Outcome A) → ((e : Error) → m ≢ err e) → m ≢ fault → (a : A) × (m ≡ ok a)
value_of (ok a) f g = (a, refl)
value_of (err e) f g = absurd (f e refl)
value_of fault f g = absurd (g refl)
