-- ===== src/Keeper/Sdk.antt =====
-- What the module takes from the Cosmos SDK: an address codec and a stored item.
use tatcoin.Base.{ℕ, ◌≡◌, Option, none, List, Bool}
use tatcoin.Proto.Params.{Params}
use tatcoin.Proto.Genesis.{GenesisState}

-- A Go pair (value, error) of which one is set.
pub data Outcome (E A : Type 0) : Type 0 where
  ok : A → Outcome E A
  err : E → Outcome E A

infixl 5 ◌>>=◌
abbrev pub ◌>>=◌ : {E A B : Type 0} → Outcome E A → (A → Outcome E B) → Outcome E B
ok a >>= f = f a
err e >>= f = err e

-- `address.Codec`: texts are lists of their bytes.
pub record AddressCodec (E : Type 0) : Type 0 where
  pub string_to_bytes : List ℕ → Outcome E (List ℕ)
  pub bytes_to_string : List ℕ → Outcome E (List ℕ)

-- What the SDK documents of an address codec: reading a printed address gives it back.
abbrev pub IsCodec : {E : Type 0} → AddressCodec E → Type 0
IsCodec c = (bz s : List ℕ) → c.bytes_to_string bz ≡ ok s → c.string_to_bytes s ≡ ok bz

-- `collections.Item[types.Params]` over a store. A write gives the store after it and its error.
pub record ParamsItem (E : Type 0) (Store : Type 0) : Type 0 where
  pub get : Store → Outcome E Params
  pub set : Store → Params → Store × Option E
  -- `errors.Is(err, collections.ErrNotFound)`
  pub is_not_found : E → Bool

-- What the SDK documents of an item: a write without an error is what is read after it.
abbrev pub IsItem : {E Store : Type 0} → ParamsItem E Store → Type 0
IsItem {Store = Store} item =
    (s : Store) (p : Params) → (item.set s p).1 ≡ none → item.get (item.set s p).0 ≡ ok p

-- `codec.JSONCodec` on the genesis state.
pub record JsonCodec (E : Type 0) : Type 0 where
  pub marshal_json : GenesisState → Outcome E (List ℕ)
  pub unmarshal_json : List ℕ → Outcome E GenesisState

-- What is documented of JSON: reading what was written gives it back.
abbrev pub IsJson : {E : Type 0} → JsonCodec E → Type 0
IsJson c =
    (gs : GenesisState) (bz : List ℕ) → c.marshal_json gs ≡ ok bz → c.unmarshal_json bz ≡ ok gs
