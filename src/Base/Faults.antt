-- ===== src/Base/Faults.antt =====
-- A run of C code that may fault: an access outside an allocated block, a null pointer followed or
-- an assertion that fails; `null_location` is the failure of assert(*curr_buf_node) of src/buf_ctrl.c,
-- apart from the others. `out_of_fuel` is the mark of a loop of the model that was given too few
-- rounds; no code causes it. Where the C standard leaves the outcome open, the model stops.
use mathlib.Core.Path.{◌≡◌, refl}
use mathlib.Core.Option.{Option, none, some}

pub data Fault : Type 0 where
  out_of_bounds null_pointer dangling uninitialised assertion_failed null_location out_of_fuel :
      Fault

pub data Run {ℓ} (Value : Type ℓ) : Type ℓ where
  fault : Fault → Run Value
  ok : Value → Run Value

-- what follows runs only where nothing has gone wrong
infixl 5 ◌>>=◌
abbrev pub ◌>>=◌ {ℓ κ} : {A : Type ℓ} {B : Type κ} → Run A → (A → Run B) → Run B
fault why >>= next = fault why
ok value >>= next = next value

-- the run ends with no fault, in a value with the property
abbrev pub Returns {ℓ κ} : {A : Type ℓ} (run : Run A) (Holds : A → Type κ) → Type (ℓ ⊔ κ)
Returns {A} run Holds = (value : A) × (run ≡ ok value) × Holds value

abbrev pub or_fault {ℓ} : {A : Type ℓ} → Fault → Option A → Run A
or_fault e none = fault e
or_fault e (some a) = ok a

pub bind-eq-ok {ℓ κ} :
    {A : Type ℓ} {B : Type κ} (run : Run A) (next : A → Run B) {last : B}
    → (run >>= next) ≡ ok last
    → (value : A) × (run ≡ ok value) × (next value ≡ ok last)
bind-eq-ok (fault why) next e = cc
bind-eq-ok (ok value) next e = (value, refl, e)
