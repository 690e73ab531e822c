-- ===== src/Keeper/Built.antt =====
-- The keeper that `NewKeeper` builds (x/tatcore/keeper/keeper.go), and its updates.
use tatcoin.Base.{ℕ, ◌≡◌, refl, ap, Option, none, some, List}
use mathlib.Core.Path.{subst}
use tatcoin.Keeper.Sdk.{Outcome, ok, err, AddressCodec, ParamsItem, IsCodec, IsItem}
use tatcoin.Keeper.Server.{Keeper, Built, built, panics, new_keeper, update_params}
use tatcoin.Proto.Params.{Params}
use tatcoin.Proto.Tx.{MsgUpdateParams, response}
use tatcoin.Keeper.Updates.{update_params-ok_iff, update_params-get}

-- NewKeeper gives a keeper exactly when the codec can print the authority and the schema is built;
-- the keeper has the authority, the codec and the item that it was given.
pub new_keeper_built :
    {E Store : Type 0} (codec : AddressCodec E) (item : ParamsItem E Store) (authority : List ℕ)
    (schema : Option E) (k : Keeper E Store)
    → new_keeper codec item authority schema ≡ built k
    → ((text : List ℕ) × (codec.bytes_to_string authority ≡ ok text))
      × (schema ≡ none)
      × (record { address_codec = codec; authority = authority; params = item } ≡ k)
unfolding new_keeper
new_keeper_built {E} {Store} codec item authority schema k made =
    go (codec.bytes_to_string authority) refl schema refl
  where
    keeper_of : Built (Keeper E Store) → Keeper E Store
    keeper_of (built x) = x
    keeper_of panics = k

    no_keeper : panics ≡ built k → ⊥
    no_keeper e = cc

    go :
        (r : Outcome E (List ℕ))
        → codec.bytes_to_string authority ≡ r
        → (o : Option E) → schema ≡ o
        → ((text : List ℕ) × (codec.bytes_to_string authority ≡ ok text))
          × (schema ≡ none)
          × (record { address_codec = codec; authority = authority; params = item } ≡ k)
    go (err e) p o q = absurd (no_keeper (rw (p, new_keeper) at made))
    go (ok text) p none q = ((text, p), q, ap keeper_of (rw (p, q, new_keeper) at made))
    go (ok text) p (some e) q = absurd (no_keeper (rw (p, q, new_keeper) at made))

-- A keeper that NewKeeper built succeeds on the message that names its authority by the text that
-- the codec prints, if the write has no error, and a read gives the parameters of the message; the
-- codec reads back what it prints, and the item gives back what was written.
pub new_keeper_update :
    {E Store : Type 0} (codec : AddressCodec E) (item : ParamsItem E Store) (authority : List ℕ)
    (schema : Option E) (k : Keeper E Store) (s : Store) (text : List ℕ) (p : Params)
    → IsCodec codec
    → IsItem item
    → new_keeper codec item authority schema ≡ built k
    → codec.bytes_to_string authority ≡ ok text
    → (item.set s p).1 ≡ none
    → let (answer, s') = update_params k s (record { authority = text; params = p }) in
      (answer ≡ ok response) × (item.get s' ≡ ok p)
new_keeper_update {E} {Store} codec item authority schema k s text p codec_law IsItem-law made
      printed fine =
    subst
      (λ (k : Keeper E Store).
        let (answer, s') = update_params k s (record { authority = text; params = p }) in
        (answer ≡ ok response) × (item.get s' ≡ ok p))
      (new_keeper_built codec item authority schema k made).2
      (accepted, update_params-get k0 s req IsItem-law accepted)
  where
    k0 : Keeper E Store
    k0 = record { address_codec = codec; authority = authority; params = item }

    req : MsgUpdateParams
    req = record { authority = text; params = p }

    accepted : (update_params k0 s req).0 ≡ ok response
    accepted = (update_params-ok_iff k0 s req).1 (codec_law authority text printed, fine)
