-- ===== src/Exec/Keeps.antt =====
-- What code with state leaves true of its state, whether it returns or throws.
use scitokens_cpp.Prelude.{Bool, true, false, if◌then◌else◌, Result, ok, throw, undefined}
use scitokens_cpp.Exec.{Exec, continue, lift, gets, ◌>>=◌}

pub record Keeps {ℓ} {State Answer : Type ℓ} (Inv : State → Type ℓ) (code : Exec State Answer)
    : Type ℓ where
  pub at : (now : State) → Inv now → Inv (code now).1

module _ {ℓ} {State Answer Next : Type ℓ} {Inv : State → Type ℓ} where
  continue-Keeps :
      (answer : Result Answer) (rest : Answer → Exec State Next) (now : State)
      → ((value : Answer) → Keeps Inv (rest value))
      → Inv now
      → Inv (continue answer rest now).1
  continue-Keeps (ok value) rest now keeps holds = (keeps value).at now holds
  continue-Keeps (throw e) rest now keeps holds = holds
  continue-Keeps undefined rest now keeps holds = holds

  pub >>=-Keeps :
      (first : Exec State Answer) (rest : Answer → Exec State Next)
      → Keeps Inv first
      → ((value : Answer) → Keeps Inv (rest value))
      → Keeps Inv (first >>= rest)
  >>=-Keeps first rest keeps later = record {
    at = λ now holds. continue-Keeps (first now).0 rest (first now).1 later (keeps.at now holds);
  }

module _ {ℓ} {State Answer : Type ℓ} {Inv : State → Type ℓ} where
  pub gets-Keeps : (read : State → Answer) → Keeps Inv (gets read)
  gets-Keeps read = record { at = λ now holds. holds }

  pub lift-Keeps : (answer : Result Answer) → Keeps Inv (lift answer)
  lift-Keeps answer = record { at = λ now holds. holds }

  pub if-Keeps :
      (test : Bool) (yes_code no_code : Exec State Answer)
      → Keeps Inv yes_code
      → Keeps Inv no_code
      → Keeps Inv (if test then yes_code else no_code)
  if-Keeps true yes_code no_code keeps other = keeps
  if-Keeps false yes_code no_code other keeps = keeps

-- The same where the state has been passed on to the branches.
pub if_end {ℓ} :
    {State Answer : Type ℓ} (Inv : State → Type ℓ) (test : Bool) (x y : Result Answer × State)
    → Inv x.1
    → Inv y.1
    → Inv (if test then x else y).1
if_end Inv true x y holds other = holds
if_end Inv false x y other holds = holds
