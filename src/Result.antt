-- ===== src/Result.antt =====
-- A Go result pair (value, error) of which exactly one part is used.
use gopcda.Prelude.{String, ◌≡◌, refl, ◌⊎◌, inl, inr, Bool, true, false}
use gopcda.Errors.{Error, wrapped}

pub data Result {ℓ} (A : Type ℓ) : Type ℓ where
  err : Error → Result A
  ok : A → Result A

-- `if bad { return cause }`
abbrev pub refuse : Bool → Error → Result (Unit {0})
refuse false cause = ok tt
refuse true cause = err cause

pub refuse-ok : (bad : Bool) (cause : Error) → refuse bad cause ≡ ok tt → bad ≡ false
refuse-ok false cause h = refl
refuse-ok true cause h = cc

module _ {ℓ} {A : Type ℓ} where
  -- `return fmt.Errorf("text: %w", cause)` on an error.
  abbrev pub in_context : String → Result A → Result A
  in_context text (err cause) = err (wrapped text cause)
  in_context text (ok value) = ok value

  pub Result-cases :
      (r : Result A) → ((cause : Error) × (r ≡ err cause)) ⊎ ((value : A) × (r ≡ ok value))
  Result-cases (err cause) = inl (cause, refl)
  Result-cases (ok value) = inr (value, refl)

module _ {ℓ κ} {A : Type ℓ} {B : Type κ} where
  infixl 5 ◌>>=◌
  -- `if err != nil { return err }`, then what follows
  abbrev pub ◌>>=◌ : Result A → (A → Result B) → Result B
  (err cause) >>= next = err cause
  (ok value) >>= next = next value

  pub >>=-ok :
      (first : Result A) (next : A → Result B) {result : B}
      → (first >>= next) ≡ ok result
      → (value : A) × (first ≡ ok value) × (next value ≡ ok result)
  >>=-ok (err cause) next h = cc
  >>=-ok (ok value) next h = (value, refl, h)

infixl 5 ◌>>◌
abbrev pub ◌>>◌ {ℓ} : {B : Type ℓ} → Result (Unit {0}) → Result B → Result B
check >> rest = check >>= λ passed. rest
