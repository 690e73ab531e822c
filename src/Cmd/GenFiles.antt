-- ===== src/Cmd/GenFiles.antt =====
-- `initGenFiles` (cmd/tatcoind/cmd/testnet_multi_node.go): the genesis with the accounts and the
-- balances. The state of the app by module is a map, the last write first.
use tatcoin.Base.{ℕ, zero, suc, ◌+◌, Option, none, some, List, [], ◌∷◌, get_elem?}
use tatcoin.Keeper.Sdk.{Outcome}
use tatcoin.App.Run.{Run, done, ◌>>=◌}
use tatcoin.App.Ended.{Ended, went_on}
use tatcoin.Cmd.Flags.{Text}
use tatcoin.Cmd.NodeSdk.{Prog, give, try_step, try_pure, as_outcome, Balance}
use tatcoin.Cmd.NodeSdk.{◌>>=◌ as ◌>>>=◌}

-- The genesis states of auth and bank; `rest` is what stays as it is.
pub record AuthGenesis (Packed Rest : Type 0) : Type 0 where
  pub accounts : List Packed
  pub rest : Rest

pub record BankGenesis (Coin Rest : Type 0) : Type 0 where
  pub balances : List (Balance Coin)
  pub supply : List Coin
  pub rest : Rest

-- The state of the app by module: the two modules that are set, and the others.
pub record GenesisMap (J Rest : Type 0) : Type 0 where
  pub auth : J
  pub bank : J
  pub others : Rest

-- `types.GenesisDoc`, without validators
pub record GenesisDoc (Json : Type 0) : Type 0 where
  pub chain_id : Text
  pub app_state : Json

-- What it takes from the SDK; a `Must` function panics on an error.
pub record GenSdk (E W J Json Rest AuthRest BankRest Account Packed Coin : Type 0) : Type 0 where
  pub default_genesis : GenesisMap J Rest
  pub must_unmarshal_auth : J → Run (AuthGenesis Packed AuthRest)
  pub must_marshal_auth : AuthGenesis Packed AuthRest → Run J
  pub must_unmarshal_bank : J → Run (BankGenesis Coin BankRest)
  pub must_marshal_bank : BankGenesis Coin BankRest → Run J
  pub pack_accounts : List Account → Outcome E (List Packed)
  pub sanitize_genesis_balances : List (Balance Coin) → List (Balance Coin)
  pub add : List Coin → List Coin → Run (List Coin)
  pub marshal_indent : GenesisMap J Rest → Outcome E Json
  pub save_as : GenesisDoc Json → Text → W → Option E × W

-- A `Must` call.
abbrev pub ended_run : {E W A : Type 0} → Run A → W → Ended (E × W) (A × W)
ended_run (done a) w = went_on (a, w)
ended_run Run.panics w = Ended.panics

abbrev pub must : {E W A : Type 0} → Run A → Prog E W A
must r w = ended_run r w

module _ {E W J Json Rest AuthRest BankRest Account Packed Coin : Type 0}
    (sdk : GenSdk E W J Json Rest AuthRest BankRest Account Packed Coin) where
  -- `for _, bal := range bankGenState.Balances`
  unfoldable pub add_supply : List (Balance Coin) → List Coin → Run (List Coin)
  add_supply [] supply = done supply
  add_supply (bal ∷ bals) supply = sdk.add supply bal.coins >>= add_supply bals

  unfoldable pub set_bank :
      List (Balance Coin) → BankGenesis Coin BankRest → Run (BankGenesis Coin BankRest)
  unfolding add_supply
  set_bank gen_balances bank = do
    let balances = sdk.sanitize_genesis_balances gen_balances
    supply ← add_supply balances bank.supply
    done (record bank { balances = balances; supply = supply })

  -- The state of the app with the accounts and the balances.
  unfoldable pub app_gen_state : List Account → List (Balance Coin) → Prog E W (GenesisMap J Rest)
  unfolding set_bank
  app_gen_state gen_accounts gen_balances =
      let state = sdk.default_genesis in
      must (sdk.must_unmarshal_auth state.auth) >>>= λ auth.
      try_pure (sdk.pack_accounts gen_accounts) >>>= λ accounts.
      must (sdk.must_marshal_auth (record auth { accounts = accounts })) >>>= λ auth_json.
      must (sdk.must_unmarshal_bank state.bank) >>>= λ bank.
      must (set_bank gen_balances bank) >>>= λ bank'.
      must (sdk.must_marshal_bank bank') >>>= λ bank_json.
      give (record state { auth = auth_json; bank = bank_json })

  -- `genFiles[i]`
  abbrev pub save_at : GenesisDoc Json → Option Text → Prog E W (Unit {0})
  save_at doc none w = Ended.panics
  save_at doc (some file) w = try_step (λ x. as_outcome (sdk.save_as doc file x)) w

  -- The loop that saves the files, with `n` rounds left.
  unfoldable pub save_files : GenesisDoc Json → List Text → ℕ → ℕ → Prog E W (Unit {0})
  save_files doc gen_files zero i = give tt
  save_files doc gen_files (suc n) i =
      save_at doc (get_elem? gen_files i) >>>= λ _. save_files doc gen_files n (i + 1)

  -- `initGenFiles`
  unfoldable pub init_gen_files :
      Text → List Account → List (Balance Coin) → List Text → ℕ → Prog E W (Unit {0})
  unfolding app_gen_state save_files
  init_gen_files chain_id gen_accounts gen_balances gen_files num_validators =
      app_gen_state gen_accounts gen_balances >>>= λ state.
      try_pure (sdk.marshal_indent state) >>>= λ json.
      save_files (record { chain_id = chain_id; app_state = json }) gen_files num_validators 0
