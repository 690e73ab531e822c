-- ===== src/App/Ended.antt =====
-- Code that goes on, returns an error early, or panics.
use tatcoin.Base.{◌≡◌, refl}
use tatcoin.Keeper.Sdk.{Outcome, ok, err}

pub data Ended (E A : Type 0) : Type 0 where
  went_on : A → Ended E A
  returned : E → Ended E A
  panics : Ended E A

infixl 5 ◌>>=◌
abbrev pub ◌>>=◌ : {E A B : Type 0} → Ended E A → (A → Ended E B) → Ended E B
went_on a >>= f = f a
returned e >>= f = returned e
panics >>= f = panics

-- `if err != nil { return err }`
abbrev pub or_return : {E A : Type 0} → Outcome E A → Ended E A
or_return (ok a) = went_on a
or_return (err e) = returned e

-- `if err != nil { panic(err) }`, for an error that is returned
abbrev pub or_panic : {E A X : Type 0} → Ended X A → Ended E A
or_panic (went_on a) = went_on a
or_panic (returned e) = panics
or_panic panics = panics

-- What a run that went on did first, and what it did then.
pub >>=-eq-went_on :
    {E X Y : Type 0} (r : Ended E X) (next : X → Ended E Y) {out : Y}
    → (r >>= next) ≡ went_on out
    → (x : X) × (r ≡ went_on x) × (next x ≡ went_on out)
>>=-eq-went_on (returned e) next whole = cc
>>=-eq-went_on panics next whole = cc
>>=-eq-went_on (went_on x) next whole = (x, refl, whole)

pub went_on-injective :
    {E A : Type 0} {a b : A} → ◌≡◌ {A = Ended E A} (went_on a) (went_on b) → a ≡ b
went_on-injective {a = a} e = cc

pub or_return-went_on :
    {E A : Type 0} (r : Outcome E A) (a : A) → or_return r ≡ went_on a → r ≡ ok a
or_return-went_on (ok x) a e = cc
or_return-went_on (err x) a e = cc
