-- ===== src/Prelude/Errors.antt =====
-- `CryptoError` of src/crypto/crypto.h, and computations that may throw it.
use Prim.Native.Nat.{ℕ}
use Prim.Native.String.{String}
use mathlib.Core.Path.{◌≡◌, refl}
use mathlib.Core.Bool.{Bool, true, false}
use mathlib.Core.Logic.{◌⊎◌, inl, inr}
use mathlib.Core.Option.{Option, none, some}

-- The text of the exception; `numbered` is a text that ends in a printed number.
pub data CryptoError : Type 0 where
  message : String → CryptoError
  numbered : String → ℕ → CryptoError

pub data Result {ℓ} (V : Type ℓ) : Type ℓ where
  err : CryptoError → Result V
  ok : V → Result V

infixl 5 ◌>>=◌
abbrev pub ◌>>=◌ {ℓ κ} : {V : Type ℓ} {W : Type κ} → Result V → (V → Result W) → Result W
err thrown >>= next = err thrown
ok v >>= next = next v

infixl 5 ◌>>◌
abbrev pub ◌>>◌ {ℓ} : {W : Type ℓ} → Result (Unit {0}) → Result W → Result W
first >> second = first >>= λ done. second

abbrev pub throw {ℓ} : {A : Type ℓ} → String → Result A
throw s = err (message s)

-- `if (bad) throw CryptoError(text);`
abbrev pub throw_if : Bool → String → Result (Unit {0})
throw_if true s = throw s
throw_if false s = ok tt

-- The answer of a library call, or the exception that its failure raises.
abbrev pub or_throw {ℓ} : {A : Type ℓ} → Option A → String → Result A
or_throw none s = throw s
or_throw (some a) s = ok a

abbrev pub IsErr {ℓ} : {A : Type ℓ} → Result A → Type ℓ
IsErr r = (e : CryptoError) × (r ≡ err e)

pub >>=-eq-ok {ℓ κ} :
    {V : Type ℓ} {W : Type κ} (first : Result V) (next : V → Result W) {w : W}
    → (first >>= next) ≡ ok w
    → (v : V) × (first ≡ ok v) × (next v ≡ ok w)
>>=-eq-ok (err thrown) next e = cc
>>=-eq-ok (ok v) next e = (v, refl, e)

-- What a guard that let the rest run says.
pub throw_if-eq-ok {ℓ} :
    {A : Type ℓ} (b : Bool) (s : String) (k : Result A) {a : A}
    → (throw_if b s >> k) ≡ ok a
    → (b ≡ false) × (k ≡ ok a)
throw_if-eq-ok true s k h = cc
throw_if-eq-ok false s k h = (refl, h)

pub Result-cases {ℓ} :
    {A : Type ℓ} (r : Result A) → ((a : A) × (r ≡ ok a)) ⊎ ((e : CryptoError) × (r ≡ err e))
Result-cases (ok a) = inl (a, refl)
Result-cases (err e) = inr (e, refl)
