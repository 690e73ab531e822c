-- ===== src/Keeper/Chain.antt =====
-- The module over the life of a chain: InitGenesis, the blocks with their messages, and ExportGenesis
-- (x/tatcore/module/module.go), called in the order in which the SDK calls them.
use tatcoin.Base.{ℕ, ◌≡◌, none, List}
use tatcoin.Keeper.Sdk.{ok, err, JsonCodec}
use tatcoin.Keeper.Server.{Keeper, built}
use tatcoin.Keeper.AppModule.{app_init_genesis, begin_block, end_block}
use tatcoin.Keeper.Handler.{HandlerError, msg_update_params_handler}
use tatcoin.Keeper.Requests.{decoded}
use tatcoin.Proto.Tx
use tatcoin.Proto.Tx.{new_msg, response}

-- Before the genesis, between two blocks, and in a block.
pub data Phase : Type 0 where
  fresh committed in_block : Phase

pub record Chain (Store : Type 0) : Type 0 where
  pub phase : Phase
  pub store : Store

module _ {E Store : Type 0} (cdc : JsonCodec E) (k : Keeper E Store) (fault : E) where
  -- One call of the module: its genesis, the begin and the end of a block, which go on where they have no
  -- error, and a message on the wire. Of a message that fails the SDK drops what it wrote.
  pub data Step : Chain Store → Chain Store → Type 0 where
    init_chain :
        {s s' : Store} (bz : List ℕ)
        → app_init_genesis cdc k s bz ≡ built s'
        → Step (record { phase = fresh; store = s }) (record { phase = committed; store = s' })
    begin :
        {s : Store}
        → begin_block {E = E} ≡ none
        → Step (record { phase = committed; store = s }) (record { phase = in_block; store = s })
    deliver :
        {s s' : Store} (bytes : List ℕ)
        → msg_update_params_handler k s (decoded fault (Tx.unmarshal bytes new_msg)) none
          ≡ (ok response, s')
        → Step (record { phase = in_block; store = s }) (record { phase = in_block; store = s' })
    reject :
        {s s' : Store} {e : HandlerError E} (bytes : List ℕ)
        → msg_update_params_handler k s (decoded fault (Tx.unmarshal bytes new_msg)) none
          ≡ (err e, s')
        → Step (record { phase = in_block; store = s }) (record { phase = in_block; store = s })
    end :
        {s : Store}
        → end_block {E = E} ≡ none
        → Step (record { phase = in_block; store = s }) (record { phase = committed; store = s })

  -- Any number of steps.
  pub data Steps : Chain Store → Chain Store → Type 0 where
    here : {c : Chain Store} → Steps c c
    then_step : {c c' c'' : Chain Store} → Steps c c' → Step c' c'' → Steps c c''
