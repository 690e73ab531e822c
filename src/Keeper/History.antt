-- ===== src/Keeper/History.antt =====
-- Histories of calls of `UpdateParams` (x/tatcore/keeper/msg_update_params.go).
use tatcoin.Base.{◌≡◌, refl, none, List, [], ◌∷◌, ◌++◌}
use tatcoin.Keeper.Sdk.{ok, IsItem}
use tatcoin.Keeper.Server.{Keeper, update_params}
use tatcoin.Keeper.Updates.{
  Authorized, update_params_unauthorized, update_params-written, update_params-get,
  update_params-ok_iff,
}
use tatcoin.Proto.Tx.{MsgUpdateParams}

module _ {E Store : Type 0} (k : Keeper E Store) where
  -- The store after a block of messages; a message that fails leaves what its call left.
  pub deliver : Store → List MsgUpdateParams → Store
  deliver s [] = s
  deliver s (m ∷ ms) = deliver (update_params k s m).1 ms

  -- None of the messages comes from the authority.
  abbrev pub Strangers : Store → List MsgUpdateParams → Type 0
  Strangers s [] = Unit {0}
  Strangers s (m ∷ ms) = (¬ (Authorized k s m)) × Strangers s ms

  -- Messages none of which is signed by the authority leave the store as it was, however many they
  -- are.
  pub deliver-Strangers :
      (s : Store) (ms : List MsgUpdateParams) → Strangers s ms → deliver s ms ≡ s
  unfolding deliver
  deliver-Strangers s [] h = refl
  deliver-Strangers s (m ∷ ms) h =
      rw ((update_params_unauthorized k s m h.0).0) (deliver-Strangers s ms h.1)

  deliver-append :
      (s : Store) (xs ys : List MsgUpdateParams) → deliver s (xs ++ ys) ≡ deliver (deliver s xs) ys
  unfolding deliver
  deliver-append s [] ys = refl
  deliver-append s (x ∷ xs) ys = deliver-append (update_params k s x).1 xs ys

  -- After any history of messages, then a message whose signer is the authority and whose
  -- parameters the store takes without an error, and then only messages whose signers are not the
  -- authority, the store is the one that the write of its parameters left, and a
  -- read of the parameters gives those of that message, if the item gives back what was written.
  pub deliver-get :
      (s : Store) (before after : List MsgUpdateParams) (m : MsgUpdateParams)
      → IsItem k.params
      → Authorized k (deliver s before) m
      → (k.params.set (deliver s before) m.params).1 ≡ none
      → Strangers (update_params k (deliver s before) m).1 after
      → (deliver s (before ++ (m ∷ after)) ≡ (k.params.set (deliver s before) m.params).0)
        × (k.params.get (deliver s (before ++ (m ∷ after))) ≡ ok m.params)
  unfolding deliver
  deliver-get s before after m law a fine others =
      let s' : Store = deliver s before in
      let kept : deliver (update_params k s' m).1 after ≡ (update_params k s' m).1 =
        deliver-Strangers (update_params k s' m).1 after others in
      rw (deliver-append s before (m ∷ after), kept)
        (
          update_params-written k s' m a fine,
          update_params-get k s' m law ((update_params-ok_iff k s' m).1 (a, fine)),
        )
