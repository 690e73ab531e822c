-- ===== src/App/Run.antt =====
-- Code that may panic, and its loops.
use mathlib.Core.Path.{subst}
use tatcoin.Base.{◌≡◌, refl, ap, List, [], ◌∷◌}

pub data Run (A : Type 0) : Type 0 where
  done : A → Run A
  panics : Run A

infixl 5 ◌>>=◌
abbrev pub ◌>>=◌ : {A B : Type 0} → Run A → (A → Run B) → Run B
done a >>= f = f a
panics >>= f = panics

infixl 5 ◌>>◌
abbrev pub ◌>>◌ : {B : Type 0} → Run (Unit {0}) → Run B → Run B
m >> k = m >>= λ _. k

-- `for _, x := range xs`, with the state handed on.
unfoldable pub each : {X S : Type 0} → (X → S → Run S) → List X → S → Run S
each body [] s = done s
each body (x ∷ xs) s = body x s >>= each body xs

-- What every round keeps, the loop keeps.
pub each-keeps :
    {X S : Type 0} (P : S → Type 0) (body : X → S → Run S)
    → ((x : X) (s s' : S) → body x s ≡ done s' → P s → P s')
    → (xs : List X) (s s' : S) → each body xs s ≡ done s'
    → P s
    → P s'
unfolding each
each-keeps {X} {S} P body keep [] s s' e h = subst P (ap state_of e) h
  where
    state_of : Run S → S
    state_of (done x) = x
    state_of panics = s
each-keeps {X} {S} P body keep (x ∷ xs) s s' e h =
    go (λ t rest k. each-keeps P body keep xs t s' rest k) (body x s)
      (λ t round. keep x s t round h) e
  where
    stopped : panics ≡ done s' → ⊥
    stopped p = cc

    go :
        ((t : S) → each body xs t ≡ done s' → P t → P s')
        → (r : Run S) → ((t : S) → r ≡ done t → P t)
        → (r >>= each body xs) ≡ done s'
        → P s'
    go later (done t) kept rest = later t rest (kept t refl)
    go later panics kept rest = absurd (stopped rest)

-- What a step that was done gave, and that the steps behind it were done.
pub >>=-eq-done :
    {X Y : Type 0} (r : Run X) (next : X → Run Y) {out : Y}
    → (r >>= next) ≡ done out
    → (x : X) × (r ≡ done x) × (next x ≡ done out)
>>=-eq-done panics next whole = cc
>>=-eq-done (done x) next whole = (x, refl, whole)

-- A loop that is done has done its rounds one by one.
pub each-nil : {X S : Type 0} (body : X → S → Run S) (s s' : S) → each body [] s ≡ done s' → s ≡ s'
unfolding each
each-nil {X} {S} body s s' e = ap state_of e
  where
    state_of : Run S → S
    state_of (done x) = x
    state_of panics = s

pub each-cons :
    {X S : Type 0} (body : X → S → Run S) (x : X) (xs : List X) (s s' : S)
    → each body (x ∷ xs) s ≡ done s'
    → (t : S) × (body x s ≡ done t) × (each body xs t ≡ done s')
unfolding each
each-cons body x xs s s' e = >>=-eq-done (body x s) (each body xs) e
