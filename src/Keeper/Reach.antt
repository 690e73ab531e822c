-- ===== src/Keeper/Reach.antt =====
-- What the steps of a chain can reach (x/tatcore/module/module.go).
use tatcoin.Base.{◌^◌, ◌<◌, ◌≡◌, refl, ap, ◌∙◌, ℕ, none, some, List, length}
use tatcoin.Keeper.Sdk.{ok, JsonCodec, IsCodec, IsItem, IsJson}
use tatcoin.Keeper.Server.{
  Keeper, built, update_params, query_params, init_genesis, default_genesis,
}
use tatcoin.Keeper.AppModule.{app_init_genesis, begin_block}
use tatcoin.Keeper.Handler.{msg_update_params_handler}
use tatcoin.Keeper.Requests.{decoded}
use tatcoin.Keeper.Updates.{Authorized, update_params-written, update_params-ok_iff}
use tatcoin.Keeper.Chain.{
  Phase, fresh, committed, in_block, Chain, Step, init_chain, begin, deliver, Steps, here,
  then_step,
}
use tatcoin.Proto.Result
use tatcoin.Proto.Result.{◌>>=◌}
use tatcoin.Proto.Params.{Params}
use tatcoin.Proto.Query.{QueryParamsRequest}
use tatcoin.Proto.Tx
use tatcoin.Proto.Tx.{MsgUpdateParams, MsgUpdateParamsResponse, new_msg, response}
use tatcoin.Proto.Tx.RoundTrip.{unmarshal-marshal_msg}
use tatcoin.Keeper.Life.{Takes, Expresses}

module _ {E Store : Type 0} (k : Keeper E Store) (cdc : JsonCodec E) (fault : E) where
  -- From each phase there are steps into a block.
  block_of :
      (s : Store) (phase : Phase)
      → IsJson cdc
      → Expresses k cdc
      → ((s : Store) → Takes k s)
      → (s' : Store) × Steps cdc k fault
          (record { phase = phase; store = s })
          (record { phase = in_block; store = s' })
  unfolding app_init_genesis init_genesis begin_block
  block_of s in_block json expresses takes = (s, here)
  block_of s committed json expresses takes = (s, then_step here (begin refl))
  block_of s fresh json expresses takes =
      let (bz, written) = expresses default_genesis in
      let read = json default_genesis bz written in
      let started : app_init_genesis cdc k s bz ≡ built (k.params.set s default_genesis.params).0 =
        rw (read, app_init_genesis, takes s default_genesis.params) in
      (
        (k.params.set s default_genesis.params).0,
        then_step (then_step here (init_chain bz started)) (begin refl),
      )

  -- The bytes of a message of the authority, whose write has no error, are answered with the response.
  pub delivered :
      (s : Store) (m : MsgUpdateParams)
      → Authorized k s m
      → (k.params.set s m.params).1 ≡ none
      → length m.authority < 2 ^ 62
      → (bytes : List ℕ) × (msg_update_params_handler k s
            (decoded fault (Tx.unmarshal bytes new_msg))
            none
          ≡ (ok response, (update_params k s m).1))
  unfolding msg_update_params_handler
  delivered s m a fine short =
      let (bytes, read) = sent (Tx.marshal m) (unmarshal-marshal_msg m short) in
      (bytes, rw (read, (update_params-ok_iff k s m).1 (a, fine)))
    where
      sent :
          (r : Result.Result (List ℕ))
          → (r >>= λ bs. Tx.unmarshal bs new_msg) ≡ Result.ok m
          → (bytes : List ℕ) × (Tx.unmarshal bytes new_msg ≡ Result.ok m)
      sent (Result.ok bs) e = (bs, e)
      sent (Result.err x) e = cc
      sent Result.panic e = cc
      sent Result.stuck e = cc

  -- From every state of a chain, before its genesis, between two blocks or in one, and for all
  -- parameters there are steps into a block in which some bytes are a message that is accepted and
  -- leaves the store that the write of these parameters leaves, which is a step; a read and a query
  -- then give the parameters; where the authority has a text of fewer than 2 ^ 62 bytes; the codec
  -- reads back what it prints, JSON expresses every genesis state and reads back what it wrote, the item gives back what was
  -- written, and every write succeeds.
  pub Steps-query_params :
      (c : Chain Store) (p : Params) (text : List ℕ) (req : QueryParamsRequest)
      → IsCodec k.address_codec
      → IsItem k.params
      → IsJson cdc
      → Expresses k cdc
      → ((s : Store) → Takes k s)
      → k.address_codec.bytes_to_string k.authority ≡ ok text
      → length text < 2 ^ 62
      → (s : Store) × (bytes : List ℕ) × Steps cdc k fault c
          (record { phase = in_block; store = s })
        × (msg_update_params_handler k s (decoded fault (Tx.unmarshal bytes new_msg)) none
            ≡ (ok response, (k.params.set s p).0))
        × Step cdc k fault
            (record { phase = in_block; store = s })
            (record { phase = in_block; store = (k.params.set s p).0 })
        × (k.params.get (k.params.set s p).0 ≡ ok p)
        × (query_params k (k.params.set s p).0 (some req) ≡ ok (record { params = p }))
  unfolding query_params
  Steps-query_params c p text req codec item json expresses takes printed short =
      let (s, steps) = block_of c.store c.phase json expresses takes in
      let m : MsgUpdateParams = record { authority = text; params = p } in
      let a : Authorized k s m = codec k.authority text printed in
      let (bytes, served) = delivered s m a (takes s p) short in
      let left = update_params-written k s m a (takes s p) in
      let answered = served ∙ ap (λ t. (ok response, t)) left in
      (
        s,
        bytes,
        steps,
        answered,
        deliver bytes answered,
        item s p (takes s p),
        rw (item s p (takes s p), query_params),
      )
