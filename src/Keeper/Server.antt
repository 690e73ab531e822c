-- ===== src/Keeper/Server.antt =====
-- x/tatcore/keeper: the keeper, its message server, its query server and its genesis.
use tatcoin.Base.{ℕ, Option, none, some, List, Bool, true, false, ◌&&◌, not, ◌==◌, if◌then◌else◌}
use tatcoin.Keeper.Sdk.{Outcome, ok, err, ◌>>=◌, AddressCodec, ParamsItem}
use tatcoin.Proto.Params.{Params, no_params, default_params}
use tatcoin.Proto.Tx.{MsgUpdateParams, MsgUpdateParamsResponse, response}
use tatcoin.Proto.Query.{QueryParamsRequest, QueryParamsResponse}
use tatcoin.Proto.Genesis.{GenesisState}

-- `bytes.Equal`
unfoldable pub bytes_equal : List ℕ → List ℕ → Bool
bytes_equal List.[] List.[] = true
bytes_equal List.[] (List.◌∷◌ y ys) = false
bytes_equal (List.◌∷◌ x xs) List.[] = false
bytes_equal (List.◌∷◌ x xs) (List.◌∷◌ y ys) = x == y && bytes_equal xs ys

-- An error of the module: one that it wraps or passes on, its own, or a gRPC status.
pub data Error (E : Type 0) : Type 0 where
  invalid_authority_address : E → Error E
  -- the expected address as a text, and the one given
  invalid_signer : List ℕ → List ℕ → Error E
  passed_on : E → Error E
  invalid_request internal_error : Error E

-- `Params.Validate`, which has nothing to object to
unfoldable pub validate : {E : Type 0} → Params → Option E
validate p = none

-- `GenesisState.Validate`
unfoldable pub validate_genesis : {E : Type 0} → GenesisState → Option E
unfolding validate
validate_genesis gs = validate gs.params

-- `DefaultGenesis`
unfoldable pub default_genesis : GenesisState
default_genesis = record { params = default_params }

-- `type Keeper struct`, with what the functions below use of it.
pub record Keeper (E Store : Type 0) : Type 0 where
  pub address_codec : AddressCodec E
  pub authority : List ℕ
  pub params : ParamsItem E Store

-- A constructor that may panic.
pub data Built (A : Type 0) : Type 0 where
  built : A → Built A
  panics : Built A

-- The text that `expectedAuthorityStr, _ :=` gets: empty where the codec fails.
abbrev pub text_or_empty : {E : Type 0} → Outcome E (List ℕ) → List ℕ
text_or_empty (ok s) = s
text_or_empty (err e) = List.[]

module _ {E Store : Type 0} where
  -- `NewKeeper`; `schema` is the error of `sb.Build()`, if there is one.
  unfoldable pub new_keeper :
      AddressCodec E → ParamsItem E Store → List ℕ → Option E → Built (Keeper E Store)
  new_keeper codec item authority schema = elim (codec.bytes_to_string authority) [
    | err e ↦ panics
    | ok s ↦ elim schema [
      | some e ↦ panics
      | none ↦ built (record { address_codec = codec; authority = authority; params = item })
    ]
  ]

  -- The last part of `UpdateParams`: what comes back from the write.
  abbrev pub finish_update : Store × Option E → Outcome (Error E) MsgUpdateParamsResponse × Store
  finish_update (s, none) = (ok response, s)
  finish_update (s, some e) = (err (passed_on e), s)

  -- `UpdateParams`: the response or the error, and the store after the call.
  unfoldable pub update_params :
      Keeper E Store → Store → MsgUpdateParams → Outcome (Error E) MsgUpdateParamsResponse × Store
  unfolding validate
  update_params k s req = elim (k.address_codec.string_to_bytes req.authority) [
    | err e ↦ (err (invalid_authority_address e), s)
    | ok authority ↦
        if bytes_equal k.authority authority
        then elim (validate {E = E} req.params) [
          | some e ↦ (err (passed_on e), s)
          | none ↦ finish_update (k.params.set s req.params)
        ]
        else (
          err (
              invalid_signer (text_or_empty (k.address_codec.bytes_to_string k.authority))
                req.authority),
          s,
        )
  ]

  -- `queryServer.Params`: a nil request is `none`. Parameters that were never stored are the zero
  -- value, not an error.
  unfoldable pub query_params :
      Keeper E Store → Store → Option QueryParamsRequest → Outcome (Error E) QueryParamsResponse
  query_params k s none = err invalid_request
  query_params k s (some req) = elim (k.params.get s) [
    | ok p ↦ ok (record { params = p })
    | err e ↦
        if not (k.params.is_not_found e)
        then err internal_error
        else ok (record { params = no_params })
  ]

  -- `Keeper.InitGenesis`: the store after it, and its error.
  unfoldable pub init_genesis : Keeper E Store → Store → GenesisState → Store × Option E
  init_genesis k s gs = k.params.set s gs.params

  -- `Keeper.ExportGenesis`
  unfoldable pub export_genesis : Keeper E Store → Store → Outcome E GenesisState
  unfolding default_genesis
  export_genesis k s =
      let genesis = default_genesis in k.params.get s >>= λ p. ok (record genesis { params = p })
