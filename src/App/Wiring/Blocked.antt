-- ===== src/App/Wiring/Blocked.antt =====
-- Which accounts are blocked.
use tatcoin.Base.{
  ◌≡◌, refl, sym, ap, ◌∙◌, none, some, List, [], ◌∷◌, map, Bool, true, false, not, ◌||◌,
  if◌then◌else◌, arith,
}
use tatcoin.Keeper.Server.{bytes_equal}
use tatcoin.Cmd.Flags.{Text}
use tatcoin.App.Wiring.Config.{Name, AccountPermission, module_acc_perms, block_acc_addrs}
use tatcoin.App.Wiring.Names.{same, mem, all, all-mem}
use tatcoin.App.Wiring.Accounts.{
  TextMap, find, copy_perms, get_macc_perms, block, keys, blocked_addresses,
}

-- Whether a text is one of a list.
abbrev pub listed : Text → List Text → Bool
listed t [] = false
listed t (x ∷ xs) = bytes_equal t x || listed t xs

-- The accounts of the permissions.
abbrev pub accounts : List AccountPermission → List Name
accounts [] = []
accounts (p ∷ ps) = p.account ∷ accounts ps

-- What blocks: the list of addresses or, where it is empty, the accounts.
abbrev pub blockers : List Name → List AccountPermission → List Name
blockers [] perms = accounts perms
blockers (addr ∷ addrs) perms = addr ∷ addrs

module _ (text : Name → Text) where
  find-block :
      (t : Text) (addrs : List Text) (m : TextMap Bool)
      → find t (block text addrs m) ≡ (if listed t addrs then some true else find t m)
  unfolding block find
  find-block t [] m = refl
  find-block t (a ∷ addrs) m =
      find-block t addrs ((a, true) ∷ m) ∙ either (bytes_equal t a) (listed t addrs)
    where
      either :
          (here there : Bool)
          → (if there then some true else (if here then some true else find t m))
            ≡ (if here || there then some true else find t m)
      either true true = refl
      either true false = refl
      either false there = refl

  -- The keys after the copying are those before it and the accounts.
  listed-keys :
      (t : Text) (ps : List AccountPermission) (dup : TextMap (List Text))
      → listed t (keys text (copy_perms text ps dup))
        ≡ listed t (map text (accounts ps)) || listed t (keys text dup)
  unfolding copy_perms
  listed-keys t [] dup = refl
  listed-keys t (p ∷ ps) dup =
      listed-keys t ps ((text p.account, map text p.permissions) ∷ dup)
      ∙ swap (bytes_equal t (text p.account)) (listed t (map text (accounts ps)))
          (listed t (keys text dup))
    where
      swap : (a b c : Bool) → b || (a || c) ≡ (a || b) || c
      swap true true c = refl
      swap true false c = refl
      swap false b c = refl

  -- A text is blocked exactly if it is the text of a listed address or, where none is listed, of an
  -- account that has a permission entry.
  pub find-blocked_addresses :
      (t : Text) (addrs : List Name) (perms : List AccountPermission)
      → find t (blocked_addresses text addrs perms)
        ≡ (if listed t (map text (blockers addrs perms)) then some true else none)
  unfolding blocked_addresses get_macc_perms find
  find-blocked_addresses t [] perms =
      find-block t (keys text (copy_perms text perms [])) []
      ∙ ap (λ (b : Bool). if b then some true else none)
          (listed-keys t perms [] ∙ last (listed t (map text (accounts perms))))
    where
      last : (b : Bool) → b || false ≡ b
      last true = refl
      last false = refl
  find-blocked_addresses t (a ∷ addrs) perms = find-block t (map text (a ∷ addrs)) []

-- The module accounts that may receive funds.
abbrev pub unblocked : List Name
unblocked = Name.gov ∷ Name.ibc_transfer ∷ Name.interchain_accounts ∷ []

-- A module account is one that the configuration blocks, or one of three others.
accounts_split :
    (n : Name)
    → mem n (accounts module_acc_perms) ≡ true
    → mem n block_acc_addrs ≡ not (mem n unblocked)
accounts_split Name.runtime e = cc
accounts_split Name.auth e = cc
accounts_split Name.vesting e = cc
accounts_split Name.bank e = cc
accounts_split Name.staking e = cc
accounts_split Name.slashing e = cc
accounts_split Name.tx e = cc
accounts_split Name.genutil e = cc
accounts_split Name.authz e = cc
accounts_split Name.upgrade e = cc
accounts_split Name.distr e = refl
accounts_split Name.evidence e = cc
accounts_split Name.mint e = refl
accounts_split Name.group e = cc
accounts_split Name.nft e = refl
accounts_split Name.feegrant e = cc
accounts_split Name.gov e = refl
accounts_split Name.consensus e = cc
accounts_split Name.circuit e = cc
accounts_split Name.params e = cc
accounts_split Name.epochs e = cc
accounts_split Name.tatcore e = cc
accounts_split Name.ibc e = cc
accounts_split Name.ibc_transfer e = refl
accounts_split Name.interchain_accounts e = refl
accounts_split Name.ica_host e = cc
accounts_split Name.ica_controller e = cc
accounts_split Name.tendermint e = cc
accounts_split Name.solomachine e = cc
accounts_split Name.fee_collector e = refl
accounts_split Name.bonded_pool e = refl
accounts_split Name.not_bonded_pool e = refl
accounts_split Name.minter e = cc
accounts_split Name.burner e = cc

-- Whether two names have the same text exactly if they are the same.
abbrev pub agrees : (Name → Text) → Name → Name → Bool
agrees text a b = if bytes_equal (text a) (text b) then same a b else not (same a b)

-- Different names of a list have different texts.
abbrev pub apart : (Name → Text) → List Name → Bool
apart text ns = all (λ a. all (agrees text a) ns) ns

agrees-eq : (b c : Bool) → (if b then c else not c) ≡ true → b ≡ c
agrees-eq true true e = refl
agrees-eq true false e = sym e
agrees-eq false true e = e
agrees-eq false false e = refl

bytes_equal-same :
    (text : Name → Text) (a b : Name) (ns : List Name)
    → apart text ns ≡ true
    → mem a ns ≡ true
    → mem b ns ≡ true
    → bytes_equal (text a) (text b) ≡ same a b
bytes_equal-same text a b ns e p q =
    agrees-eq (bytes_equal (text a) (text b)) (same a b)
      (all-mem (agrees text a) b ns (all-mem (λ a. all (agrees text a) ns) a ns e p) q)

listed-mem :
    (text : Name → Text) (n : Name) (ns xs : List Name)
    → apart text ns ≡ true
    → mem n ns ≡ true
    → all (λ x. mem x ns) xs ≡ true
    → listed (text n) (map text xs) ≡ mem n xs
listed-mem text n ns [] e p q = refl
listed-mem text n ns (x ∷ xs) e p q =
    let here : mem x ns ≡ true = ground arith in
    let later : all (λ y. mem y ns) xs ≡ true = ground arith in
    rw (bytes_equal-same text n x ns e p here, listed-mem text n ns xs e p later) refl

-- Where different module accounts have different texts: each module account of the configuration is
-- blocked, except those of gov, ibc-transfer and the interchain accounts.
pub blocked_addresses-unblocked :
    (text : Name → Text) (n : Name)
    → apart text (accounts module_acc_perms) ≡ true
    → mem n (accounts module_acc_perms) ≡ true
    → find (text n) (blocked_addresses text block_acc_addrs module_acc_perms)
      ≡ (if mem n unblocked then none else some true)
blocked_addresses-unblocked text n distinct account =
    find-blocked_addresses text (text n) block_acc_addrs module_acc_perms
    ∙ ap (λ (b : Bool). if b then some true else none)
        (listed-mem text n (accounts module_acc_perms) block_acc_addrs distinct account refl
          ∙ accounts_split n account)
    ∙ turned (mem n unblocked)
  where
    turned : (b : Bool) → (if not b then some true else none) ≡ (if b then none else some true)
    turned true = refl
    turned false = refl
