-- ===== src/Keeper/Updates.antt =====
-- `UpdateParams` by caller (x/tatcore/keeper/msg_update_params.go), and the keeper that is built.
use tatcoin.Base.{
  ℕ, ◌≡◌, ◌≢◌, ◌↔◌, refl, ap, ◌∙◌, Option, none, some, List, [], ◌∷◌, true, Bool-cases,
  Option-cases, inl, inr, ◌⊎◌, arith,
}
use tatcoin.Keeper.Sdk.{Outcome, ok, err, IsItem}
use tatcoin.Keeper.Server.{
  bytes_equal, text_or_empty, finish_update, Error, invalid_authority_address, invalid_signer,
  passed_on, Keeper, update_params,
}
use tatcoin.Proto.Tx.{MsgUpdateParams, MsgUpdateParamsResponse, response}

-- `bytes.Equal` decides equality.
pub bytes_equal_iff : (xs ys : List ℕ) → (bytes_equal xs ys ≡ true) ↔ (xs ≡ ys)
unfolding bytes_equal
bytes_equal_iff xs ys = (sound xs ys, λ e. rw (← e) (same xs))
  where
    sound : (xs ys : List ℕ) → bytes_equal xs ys ≡ true → xs ≡ ys
    sound [] [] h = refl
    sound [] (y ∷ ys) h = cc
    sound (x ∷ xs) [] h = cc
    sound (x ∷ xs) (y ∷ ys) h = ground (arith, sound xs ys)

    same : (xs : List ℕ) → bytes_equal xs xs ≡ true
    same [] = refl
    same (x ∷ xs) = ground (arith, same xs)

pub Outcome-cases :
    {E A : Type 0} (r : Outcome E A) → ((a : A) × (r ≡ ok a)) ⊎ ((e : E) × (r ≡ err e))
Outcome-cases (ok a) = inl (a, refl)
Outcome-cases (err e) = inr (e, refl)

finish_fine :
    {E Store : Type 0} (w : Store × Option E) → w.1 ≡ none → finish_update w ≡ (ok response, w.0)
finish_fine (s, none) e = refl
finish_fine (s, some x) e = cc

finish_fault :
    {E Store : Type 0} (w : Store × Option E) (x : E)
    → w.1 ≡ some x
    → finish_update w ≡ (err (passed_on x), w.0)
finish_fault (s, none) x e = cc
finish_fault (s, some y) x e = cc

module _ {E Store : Type 0} (k : Keeper E Store) (s : Store) (req : MsgUpdateParams) where
  -- The caller's address is the keeper's authority.
  abbrev pub Authorized : Type 0
  Authorized = k.address_codec.string_to_bytes req.authority ≡ ok k.authority

  -- An authorized call comes down to the write of its parameters.
  pub update_params_authorized :
      Authorized → update_params k s req ≡ finish_update (k.params.set s req.params)
  unfolding update_params
  update_params_authorized a =
      rw (a, update_params, (bytes_equal_iff k.authority k.authority).1 refl)

  -- An address that is read, and is another.
  update_params_other :
      (bz : List ℕ)
      → k.address_codec.string_to_bytes req.authority ≡ ok bz
      → k.authority ≢ bz
      → update_params k s req ≡ (
        err (
            invalid_signer
              (text_or_empty (k.address_codec.bytes_to_string k.authority))
              req.authority),
        s,
      )
  unfolding update_params
  update_params_other bz a ne = elim (Bool-cases (bytes_equal k.authority bz)) [
    | inl same ↦ absurd (ne ((bytes_equal_iff k.authority bz).0 same))
    | inr other ↦ rw (a, update_params, other)
  ]

  update_params_unread :
      (e : E)
      → k.address_codec.string_to_bytes req.authority ≡ err e
      → update_params k s req ≡ (err (invalid_authority_address e), s)
  unfolding update_params
  update_params_unread e a = rw (a, update_params)

  -- What a call gives, by who made it. The authority's call is the write: its error is passed on.
  -- Any other call changes nothing, and its error says whether the address could be read.
  pub data Answer : Outcome (Error E) MsgUpdateParamsResponse × Store → Type 0 where
    done :
        Authorized
        → (k.params.set s req.params).1 ≡ none
        → Answer (ok response, (k.params.set s req.params).0)
    failed :
        {e : E}
        → Authorized
        → (k.params.set s req.params).1 ≡ some e
        → Answer (err (passed_on e), (k.params.set s req.params).0)
    denied :
        {bz : List ℕ}
        → k.address_codec.string_to_bytes req.authority ≡ ok bz
        → k.authority ≢ bz
        → Answer (
          err (
              invalid_signer
                (text_or_empty (k.address_codec.bytes_to_string k.authority))
                req.authority),
          s,
        )
    unread :
        {e : E}
        → k.address_codec.string_to_bytes req.authority ≡ err e
        → Answer (err (invalid_authority_address e), s)

  -- Every call is answered in one of four ways: the authority's call with the response, or with the
  -- error of the write, and the store that the write leaves; a call with another signer, or with one
  -- that cannot be decoded, with the error that says so and the store as it was.
  pub update_params-Answer : Answer (update_params k s req)
  update_params-Answer = elim (Outcome-cases (k.address_codec.string_to_bytes req.authority)) [
    | inr (e, a) ↦ rw (update_params_unread e a) (unread a)
    | inl (bz, a) ↦ elim (Bool-cases (bytes_equal k.authority bz)) [
      | inl same ↦ authorized (rw (← (bytes_equal_iff k.authority bz).0 same) at a)
      | inr other ↦
          let ne : k.authority ≢ bz = λ e. cc ((bytes_equal_iff k.authority bz).1 e) in
          rw (update_params_other bz a ne) (denied a ne)
    ]
  ]
    where
      authorized : Authorized → Answer (update_params k s req)
      authorized a =
          rw (update_params_authorized a) (elim (Option-cases (k.params.set s req.params).1) [
            | inl fine ↦ rw (finish_fine (k.params.set s req.params) fine) (done a fine)
            | inr (e, fault) ↦
                rw (finish_fault (k.params.set s req.params) e fault) (failed a fault)
          ])

module _ {E Store : Type 0} (k : Keeper E Store) where
  -- A call whose signer does not decode to the authority of the keeper leaves the store as it was,
  -- and does not succeed.
  pub update_params_unauthorized :
      (s : Store) (req : MsgUpdateParams)
      → ¬ (Authorized k s req)
      → ((update_params k s req).1 ≡ s) × ((update_params k s req).0 ≢ ok response)
  update_params_unauthorized s req other = go (update_params k s req) (update_params-Answer k s req)
    where
      go :
          (r : Outcome (Error E) MsgUpdateParamsResponse × Store)
          → Answer k s req r
          → (r.1 ≡ s) × (r.0 ≢ ok response)
      go _ (done a fine) = absurd (other a)
      go _ (failed a fault) = absurd (other a)
      go _ (denied a ne) = (refl, λ e. cc)
      go _ (unread a) = (refl, λ e. cc)

  -- A call succeeds exactly when its signer decodes to the authority of the keeper and the write of
  -- its parameters has no error.
  pub update_params-ok_iff :
      (s : Store) (req : MsgUpdateParams)
      → ((update_params k s req).0 ≡ ok response)
        ↔ (Authorized k s req × ((k.params.set s req.params).1 ≡ none))
  update_params-ok_iff s req = (
    only (update_params k s req) (update_params-Answer k s req),
    λ (a, fine). ap (λ r. r.0) (update_params_authorized k s req a ∙ finish_fine _ fine),
  )
    where
      only :
          (r : Outcome (Error E) MsgUpdateParamsResponse × Store)
          → Answer k s req r
          → r.0 ≡ ok response
          → Authorized k s req × ((k.params.set s req.params).1 ≡ none)
      only _ (done a fine) e = (a, fine)
      only _ (failed a fault) e = cc
      only _ (denied a ne) e = cc
      only _ (unread a) e = cc

  -- The store after the authority's call is the one that its write leaves.
  pub update_params-written :
      (s : Store) (req : MsgUpdateParams)
      → Authorized k s req
      → (k.params.set s req.params).1 ≡ none
      → (update_params k s req).1 ≡ (k.params.set s req.params).0
  update_params-written s req a fine =
      ap (λ r. r.1)
        (update_params_authorized k s req a ∙ finish_fine (k.params.set s req.params) fine)

  -- After a call that succeeds, a read gives the parameters of its message, if the item gives back
  -- what was written.
  pub update_params-get :
      (s : Store) (req : MsgUpdateParams)
      → IsItem k.params
      → (update_params k s req).0 ≡ ok response
      → k.params.get (update_params k s req).1 ≡ ok req.params
  update_params-get s req item h =
      let (a, fine) = (update_params-ok_iff s req).0 h in
      rw (update_params_authorized k s req a, finish_fine (k.params.set s req.params) fine)
        (item s req.params fine)
