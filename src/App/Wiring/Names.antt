-- ===== src/App/Wiring/Names.antt =====
-- Lists of the names that the configuration uses.
use tatcoin.Base.{
  ◌≡◌, refl, sym, ap, ◌∙◌, ℕ, some, List, [], ◌∷◌, get_elem?, Bool, true, false, ◌&&◌, ◌||◌, ◌==◌,
  Bool-cases, inl, inr, arith,
}
use tatcoin.App.Wiring.Config.{Name}

-- A number for each name.
abbrev pub code : Name → ℕ
code Name.runtime = 0
code Name.auth = 1
code Name.vesting = 2
code Name.bank = 3
code Name.staking = 4
code Name.slashing = 5
code Name.tx = 6
code Name.genutil = 7
code Name.authz = 8
code Name.upgrade = 9
code Name.distr = 10
code Name.evidence = 11
code Name.mint = 12
code Name.group = 13
code Name.nft = 14
code Name.feegrant = 15
code Name.gov = 16
code Name.consensus = 17
code Name.circuit = 18
code Name.params = 19
code Name.epochs = 20
code Name.tatcore = 21
code Name.ibc = 22
code Name.ibc_transfer = 23
code Name.interchain_accounts = 24
code Name.ica_host = 25
code Name.ica_controller = 26
code Name.tendermint = 27
code Name.solomachine = 28
code Name.fee_collector = 29
code Name.bonded_pool = 30
code Name.not_bonded_pool = 31
code Name.minter = 32
code Name.burner = 33

abbrev pub same : Name → Name → Bool
same a b = code a == code b

abbrev pub mem : Name → List Name → Bool
mem n [] = false
mem n (x ∷ xs) = same n x || mem n xs

-- The names in the order of their numbers.
abbrev names : List Name
names =
    Name.runtime ∷ Name.auth ∷ Name.vesting ∷ Name.bank ∷ Name.staking ∷ Name.slashing ∷ Name.tx
    ∷ Name.genutil ∷ Name.authz ∷ Name.upgrade ∷ Name.distr ∷ Name.evidence ∷ Name.mint ∷ Name.group
    ∷ Name.nft ∷ Name.feegrant ∷ Name.gov ∷ Name.consensus ∷ Name.circuit ∷ Name.params
    ∷ Name.epochs ∷ Name.tatcore ∷ Name.ibc ∷ Name.ibc_transfer ∷ Name.interchain_accounts
    ∷ Name.ica_host ∷ Name.ica_controller ∷ Name.tendermint ∷ Name.solomachine ∷ Name.fee_collector
    ∷ Name.bonded_pool ∷ Name.not_bonded_pool ∷ Name.minter ∷ Name.burner ∷ []

named : (n : Name) → get_elem? names (code n) ≡ some n
named Name.runtime = refl
named Name.auth = refl
named Name.vesting = refl
named Name.bank = refl
named Name.staking = refl
named Name.slashing = refl
named Name.tx = refl
named Name.genutil = refl
named Name.authz = refl
named Name.upgrade = refl
named Name.distr = refl
named Name.evidence = refl
named Name.mint = refl
named Name.group = refl
named Name.nft = refl
named Name.feegrant = refl
named Name.gov = refl
named Name.consensus = refl
named Name.circuit = refl
named Name.params = refl
named Name.epochs = refl
named Name.tatcore = refl
named Name.ibc = refl
named Name.ibc_transfer = refl
named Name.interchain_accounts = refl
named Name.ica_host = refl
named Name.ica_controller = refl
named Name.tendermint = refl
named Name.solomachine = refl
named Name.fee_collector = refl
named Name.bonded_pool = refl
named Name.not_bonded_pool = refl
named Name.minter = refl
named Name.burner = refl

same-eq : (a b : Name) → same a b ≡ true → a ≡ b
same-eq a b e =
    let numbers : code a ≡ code b = ground arith in
    let found : some a ≡ some b = sym (named a) ∙ ap (get_elem? names) numbers ∙ named b in cc

-- Whether all of a list pass a test.
abbrev pub all : (Name → Bool) → List Name → Bool
all test [] = true
all test (x ∷ xs) = test x && all test xs

pub all-mem :
    (test : Name → Bool) (n : Name) (ns : List Name)
    → all test ns ≡ true
    → mem n ns ≡ true
    → test n ≡ true
all-mem test n [] e m = cc
all-mem test n (x ∷ xs) e m =
    let here : test x ≡ true = ground arith in
    let later : all test xs ≡ true = ground arith in
    elim (Bool-cases (same n x)) [
      | inl p ↦ ap test (same-eq n x p) ∙ here
      | inr p ↦ all-mem test n xs later (rw p at m)
    ]
