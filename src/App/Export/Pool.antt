-- ===== src/App/Export/Pool.antt =====
-- The community pool through the loop that reinitializes the validators.
use tatcoin.Base.{
  ℕ, ◌+◌, ◌≡◌, refl, sym, ap, ◌∙◌, List, [], ◌∷◌, Bool, true, false, not, ◌&&◌, ◌||◌, if◌then◌else◌,
  arith,
}
use tatcoin.Keeper.Sdk.{Outcome, ok, err}
use tatcoin.Keeper.Server.{bytes_equal}
use tatcoin.App.Run.{done, each, each-nil, each-cons, >>=-eq-done}
use tatcoin.App.Export.Sdk.{Text, Address, Sdk}
use tatcoin.App.Export.Defs.{must, reinitialize_validator}
use tatcoin.App.Export.Validators.{must-done}

-- What the SDK documents of the pool and of what is owed to a validator, by the worth of coins: each is
-- what is read; a sum is worth its parts; a new pool changes nothing that is owed; the record of a new
-- validator owes it nothing, and changes neither the pool nor what is owed to others.
pub record IsPool {E D K L Coins : Type 0} (sdk : Sdk E D K L Coins) (pool : D → ℕ)
    (owed : D → Address → ℕ) (worth : Coins → ℕ) : Type 0 where
  pub rewards :
      (d : D) (a : Address) (c : Coins) → sdk.outstanding_rewards d a ≡ ok c → worth c ≡ owed d a
  pub pooled : (d : D) (c : Coins) → sdk.community_pool d ≡ ok c → worth c ≡ pool d
  pub added : (b c : Coins) → worth (sdk.add_coins b c) ≡ worth b + worth c
  pub pool_set :
      (c : Coins) (d d' : D) (a : Address)
      → sdk.set_community_pool c d ≡ ok d'
      → (pool d' ≡ worth c) × (owed d' a ≡ owed d a)
  pub created :
      (h : ℕ) (a b : Address) (d d' : D)
      → sdk.after_validator_created h a d ≡ ok d'
      → (pool d' ≡ pool d) × (owed d' b ≡ (if bytes_equal a b then 0 else owed d b))

module _ {E D K L Coins : Type 0} (sdk : Sdk E D K L Coins) (pool : D → ℕ) (owed : D → Address → ℕ)
    (worth : Coins → ℕ) (law : IsPool sdk pool owed worth) where
  -- The address of an operator that is readable.
  abbrev address : Outcome E Address → Address
  address (ok a) = a
  address (err e) = []

  abbrev pub address_of : Text → Address
  address_of t = address (sdk.validator_to_bytes t)

  -- What is owed to the operators of a list.
  abbrev pub owed_to : List Text → D → ℕ
  owed_to [] d = 0
  owed_to (t ∷ ts) d = owed d (address_of t) + owed_to ts d

  -- Whether an address is that of an operator of a list.
  abbrev pub operates : List Text → Address → Bool
  operates [] a = false
  operates (t ∷ ts) a = bytes_equal (address_of t) a || operates ts a

  -- No address comes twice.
  abbrev absent : Address → List Text → Bool
  absent a [] = true
  absent a (t ∷ ts) = not (bytes_equal a (address_of t)) && absent a ts

  abbrev pub distinct : List Text → Bool
  distinct [] = true
  distinct (t ∷ ts) = absent (address_of t) ts && distinct ts

  -- One round: what was owed is in the pool.
  round :
      (height : ℕ) (t : Text) (d d' : D) (b : Address)
      → reinitialize_validator sdk height t d ≡ done d'
      → (pool d' ≡ pool d + owed d (address_of t))
        × (owed d' b ≡ (if bytes_equal (address_of t) b then 0 else owed d b))
  unfolding reinitialize_validator
  round height t d d' b e =
      let (a, e0, f0) = >>=-eq-done (must (sdk.validator_to_bytes t)) _ e in
      let (c, e1, f1) = >>=-eq-done (must (sdk.outstanding_rewards d a)) _ f0 in
      let (p, e2, f2) = >>=-eq-done (must (sdk.community_pool d)) _ f1 in
      let (d1, e3, f3) = >>=-eq-done (must (sdk.set_community_pool (sdk.add_coins p c) d)) _ f2 in
      let here : address_of t ≡ a = ap address (must-done _ a e0) in
      let donated = law.pool_set (sdk.add_coins p c) d d1 b (must-done _ d1 e3) in
      let new = law.created height a b d1 d' (must-done _ d' f3) in
      (
        rw here (
            omega (
              arith,
              new.0,
              donated.0,
              law.added p c,
              law.pooled d p (must-done _ p e2),
              law.rewards d a c (must-done _ c e1),
            )),
        rw here (new.1 ∙ ap (λ (n : ℕ). if bytes_equal a b then 0 else n) donated.1),
      )

  owed_to-absent :
      (t : Text) (ts : List Text) (d d' : D)
      → ((b : Address) → owed d' b ≡ (if bytes_equal (address_of t) b then 0 else owed d b))
      → absent (address_of t) ts ≡ true
      → owed_to ts d' ≡ owed_to ts d
  owed_to-absent t [] d d' kept h = refl
  owed_to-absent t (u ∷ ts) d d' kept h =
      let other : bytes_equal (address_of t) (address_of u) ≡ false = ground arith in
      let rest : absent (address_of t) ts ≡ true = ground arith in
      let same : owed d' (address_of u) ≡ owed d (address_of u) =
        kept (address_of u) ∙ rw other refl in
      omega (arith, same, owed_to-absent t ts d d' kept rest)

  -- Where no operator comes twice: the loop moves what was owed to the operators into the community
  -- pool, so that nothing is lost, owes the operators nothing afterwards, and leaves what is owed to
  -- others.
  pub pool-reinitialize_validator :
      (height : ℕ) (ts : List Text) (d d' : D) (b : Address)
      → each (reinitialize_validator sdk height) ts d ≡ done d'
      → distinct ts ≡ true
      → (pool d' ≡ pool d + owed_to ts d) × (owed d' b ≡ (if operates ts b then 0 else owed d b))
  pool-reinitialize_validator height [] d d' b e h =
      let same = each-nil (reinitialize_validator sdk height) d d' e in
      (omega (arith, ap pool same), ap (λ x. owed x b) (sym same))
  pool-reinitialize_validator height (t ∷ ts) d d' b e h =
      let (d1, step, rest) = each-cons (reinitialize_validator sdk height) t ts d d' e in
      let apart : absent (address_of t) ts ≡ true = ground arith in
      let later = pool-reinitialize_validator height ts d1 d' b rest (ground arith) in
      (
        omega (
          arith,
          later.0,
          (round height t d d1 b step).0,
          owed_to-absent t ts d d1 (λ x. (round height t d d1 x step).1) apart,
        ),
        both (bytes_equal (address_of t) b) (operates ts b) _ _ _ ((round height t d d1 b step).1)
            later.1,
      )
    where
      both :
          (p q : Bool) (x y z : ℕ)
          → y ≡ (if p then 0 else x)
          → z ≡ (if q then 0 else y)
          → z ≡ (if p || q then 0 else x)
      both true true x y z here after = after
      both true false x y z here after = after ∙ here
      both false true x y z here after = after
      both false false x y z here after = after ∙ here
