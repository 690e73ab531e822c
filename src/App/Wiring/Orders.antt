-- ===== src/App/Wiring/Orders.antt =====
-- The orders of the hooks against the modules there are.
use tatcoin.Base.{
  ◌≡◌, refl, List, [], ◌∷◌, ◌++◌, Bool, true, false, ◌&&◌, not, if◌then◌else◌, arith,
}
use tatcoin.App.Wiring.Config.{Name, ModuleConfig, RuntimeModule, app_config, runtime_module}
use tatcoin.App.Wiring.Names.{code, same, mem}

-- The names of the configured modules, and of those that `registerIBCModules` registers.
abbrev pub names : List ModuleConfig → List Name
names [] = []
names (m ∷ ms) = m.name ∷ names ms

abbrev pub ibc_names : List Name
ibc_names =
    Name.ibc ∷ Name.ibc_transfer ∷ Name.interchain_accounts ∷ Name.tendermint ∷ Name.solomachine
    ∷ []

-- All modules that some hook calls.
abbrev pub hooked : RuntimeModule → List Name
hooked r = r.pre_blockers ++ (r.begin_blockers ++ (r.end_blockers ++ r.init_genesis))

-- Whether each name of a list is one of another.
abbrev all_mem : List Name → List Name → Bool
all_mem [] ys = true
all_mem (x ∷ xs) ys = mem x ys && all_mem xs ys

mem-code : (n x : Name) (ys : List Name) → code n ≡ code x → mem n ys ≡ mem x ys
mem-code n x [] e = refl
mem-code n x (y ∷ ys) e = rw (e, mem-code n x ys e) refl

mem-all_mem :
    (n : Name) (xs ys : List Name) → all_mem xs ys ≡ true → mem n xs ≡ true → mem n ys ≡ true
mem-all_mem n [] ys all one = cc
mem-all_mem n (x ∷ xs) ys all one = ground (arith, mem-code n x ys, mem-all_mem n xs ys)

-- Whether `a` is in the list, and `b` is in it behind the first `a`.
abbrev pub before : Name → Name → List Name → Bool
before a b [] = false
before a b (x ∷ xs) =
    if same a x then mem b xs && not (mem a xs) else not (same b x) && before a b xs

-- Each module that a hook of the app calls is configured or is one of the modules of IBC; and the
-- orders keep what they need: auth and staking have their genesis before genutil, upgrade comes before
-- auth at the start, and the distribution has its begin block before slashing.
pub app_config-hooked :
    (n : Name)
    → mem n (hooked runtime_module) ≡ true
    → (mem n (names app_config ++ ibc_names) ≡ true)
      × (before Name.staking Name.genutil runtime_module.init_genesis ≡ true)
      × (before Name.auth Name.genutil runtime_module.init_genesis ≡ true)
      × (before Name.upgrade Name.auth runtime_module.pre_blockers ≡ true)
      × (before Name.distr Name.slashing runtime_module.begin_blockers ≡ true)
app_config-hooked n one = (
  mem-all_mem n (hooked runtime_module) (names app_config ++ ibc_names) refl one,
  refl,
  refl,
  refl,
  refl,
)
