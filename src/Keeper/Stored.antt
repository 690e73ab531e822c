-- ===== src/Keeper/Stored.antt =====
-- The stored item over the module's own codec: the store holds the marshalled parameters.
use tatcoin.Base.{ℕ, ◌≡◌, ap, ◌∙◌, Option, none, some, List, Bool, true, false}
use tatcoin.Keeper.Sdk.{Outcome, ok, err, ParamsItem}
use tatcoin.Proto.Result
use tatcoin.Proto.Params
use tatcoin.Proto.Params.{Params, no_params, new_params}
use tatcoin.Proto.Params.Codec.{unmarshal-nil, marshal-nil}

-- An error of the store: nothing is stored, or the bytes cannot be read or written.
pub data StoreError : Type 0 where
  not_found undecodable unencodable : StoreError

abbrev decoded : Result.Result Params → Outcome StoreError Params
decoded (Result.ok p) = ok p
decoded r = err undecodable

abbrev read_stored : Option (List ℕ) → Outcome StoreError Params
read_stored none = err not_found
read_stored (some bs) = decoded (Params.unmarshal bs new_params)

abbrev write_stored : Option (List ℕ) → Result.Result (List ℕ) → Option (List ℕ) × Option StoreError
write_stored s (Result.ok bs) = (some bs, none)
write_stored s r = (s, some unencodable)

abbrev missing : StoreError → Bool
missing not_found = true
missing _ = false

-- `collections.Item` with `codec.CollValue`, on one key of the store.
abbrev pub stored_item : ParamsItem StoreError (Option (List ℕ))
stored_item = record {
  get = read_stored;
  set = λ s p. write_stored s (Params.marshal p);
  is_not_found = missing;
}

-- An item over the module's own encoding gives back what was written, and every write succeeds.
pub stored_item-IsItem :
    (s : Option (List ℕ)) (p : Params)
    → ((stored_item.set s p).1 ≡ none) × (stored_item.get (stored_item.set s p).0 ≡ ok p)
stored_item-IsItem s no_params = (
  ap (λ r. (write_stored s r).1) (marshal-nil no_params),
  ap (λ r. read_stored (write_stored s r).0) (marshal-nil no_params)
      ∙ ap decoded (unmarshal-nil new_params),
)
