-- ===== src/App/Wiring/Accounts.antt =====
-- `GetMaccPerms` and `BlockedAddresses` (app/app.go). A map is the list of its entries, the last write
-- first.
use tatcoin.Base.{Option, none, some, List, [], ◌∷◌, map, Bool, true, if◌then◌else◌}
use tatcoin.Keeper.Server.{bytes_equal}
use tatcoin.Cmd.Flags.{Text}
use tatcoin.App.Wiring.Config.{Name, AccountPermission}

abbrev pub TextMap : Type 0 → Type 0
TextMap A = List (Text × A)

unfoldable pub find : {A : Type 0} → Text → TextMap A → Option A
find k [] = none
find k ((j, a) ∷ m) = let rest = find k m in if bytes_equal k j then some a else rest

module _ (text : Name → Text) where
  -- `for _, perms := range moduleAccPerms`
  unfoldable pub copy_perms : List AccountPermission → TextMap (List Text) → TextMap (List Text)
  copy_perms [] dup = dup
  copy_perms (perms ∷ rest) dup =
      copy_perms rest ((text perms.account, map text perms.permissions) ∷ dup)

  unfoldable pub get_macc_perms : List AccountPermission → TextMap (List Text)
  unfolding copy_perms
  get_macc_perms module_acc_perms = copy_perms module_acc_perms []

  -- `for … { result[addr] = true }`
  unfoldable pub block : List Text → TextMap Bool → TextMap Bool
  block [] result = result
  block (addr ∷ addrs) result = block addrs ((addr, true) ∷ result)

  -- The keys of a map, in an order of no matter here.
  abbrev pub keys : {A : Type 0} → TextMap A → List Text
  keys [] = []
  keys ((k, a) ∷ m) = k ∷ keys m

  -- `BlockedAddresses`, by `blockAccAddrs` and `moduleAccPerms`
  unfoldable pub blocked_addresses : List Name → List AccountPermission → TextMap Bool
  unfolding block get_macc_perms
  blocked_addresses [] module_acc_perms = block (keys (get_macc_perms module_acc_perms)) []
  blocked_addresses (addr ∷ addrs) module_acc_perms = block (map text (addr ∷ addrs)) []
