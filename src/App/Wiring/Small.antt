-- ===== src/App/Wiring/Small.antt =====
-- A small chain for the wiring: lists of names stand for stores, tables, modules and versions.
use tatcoin.Base.{
  ℕ, ◌+◌, ◌≡◌, refl, sym, ap, ◌∙◌, Option, none, some, List, [], ◌∷◌, ◌++◌, map, Bool, true, false,
  ◌||◌, if◌then◌else◌,
}
use tatcoin.Keeper.Sdk.{Outcome, ok}
use tatcoin.App.Ended.{went_on, went_on-injective}
use tatcoin.App.Wiring.Config.{Name}
use tatcoin.App.Wiring.Names.{same, mem}
use tatcoin.App.Wiring.IbcSdk.{kv, not_kv, Stack, IbcSdk}
use tatcoin.App.Wiring.Build.{AppSdk}
use tatcoin.App.Wiring.Routes.{IsIbc}
use tatcoin.App.Wiring.Versions.{name_of, IsApp}

abbrev pub look : {B : Type 0} → Name → List (Name × B) → Option B
look n [] = none
look n ((m, b) ∷ rest) = if same n m then some b else look n rest

pub record Chain : Type 0 where
  pub stores : List Name
  pub tables : List (Name × ℕ)
  pub modules : List Name

abbrev pub empty_chain : Chain
empty_chain = record { stores = []; tables = []; modules = [] }

-- A keeper of transfers is 1, of hosts 2 and of controllers 3.
abbrev pub Routes : Type 0
Routes = List (Name × Stack ℕ ℕ ℕ)

abbrev pub SmallIbc : Type 0
SmallIbc = IbcSdk ℕ Chain Name ℕ (Option ℕ) Routes ℕ ℕ ℕ Routes ℕ ℕ

abbrev pub small_ibc : SmallIbc
small_ibc = record {
  register_stores = λ ns c. ok (record c { stores = ns ++ c.stores });
  unsafe_find_store_key = λ n c. if mem n c.stores then kv n else not_kv;
  client_key_table = 10;
  register_connection_params = λ t. t + 1;
  transfer_key_table = 20;
  controller_key_table = 30;
  host_key_table = 40;
  subspace_with_key_table = λ n t c. went_on (record c { tables = (n, t) ∷ c.tables });
  get_subspace = λ n c. (look n c.tables, true);
  module_address_text = λ n c. ok (7 ∷ []);
  new_ibc_keeper = λ c key subspace authority. went_on [];
  new_transfer_keeper = λ c ibc key subspace authority. went_on 1;
  new_host_keeper = λ c ibc key subspace authority. went_on 2;
  new_controller_keeper = λ c ibc key subspace authority. went_on 3;
  new_router = [];
  add_route = λ n s r. went_on ((n, s) ∷ r);
  new_router_v2 = 0;
  add_route_v2 = λ n t r. went_on (r + 1);
  set_router = λ r ibc. went_on r;
  set_router_v2 = λ r ibc. went_on ibc;
  store_provider = λ ibc. 0;
  add_client_route = λ n client ibc. went_on ibc;
  register_modules = λ ms c. ok (record c { modules = map name_of ms ++ c.modules });
}

abbrev pub small_app : AppSdk ℕ Chain ℕ ℕ (List Name) (List Name) ℕ ℕ
small_app = record {
  inject = λ config opts. ok empty_chain;
  build = λ options c. c;
  register_store_decoders = λ c. c;
  load = λ latest c. ok c;
  get_version_map = λ c. c.modules;
  set_module_version_map = λ v w. (none, v ++ w);
  init_chainer = λ c req w. (ok req, w);
}

mem-append : (n : Name) (xs ys : List Name) → mem n (xs ++ ys) ≡ mem n xs || mem n ys
mem-append n [] ys = refl
mem-append n (x ∷ xs) ys =
    ap (λ (b : Bool). same n x || b) (mem-append n xs ys) ∙ assoc (same n x) (mem n xs) (mem n ys)
  where
    assoc : (a b c : Bool) → a || (b || c) ≡ (a || b) || c
    assoc true b c = refl
    assoc false b c = refl

ok-injective : {A : Type 0} {a b : A} → ◌≡◌ {A = Outcome ℕ A} (ok a) (ok b) → a ≡ b
ok-injective {a = a} e = cc

pub small_ibc-IsIbc : IsIbc small_ibc (λ r n. look n r) (λ ibc. ibc) (λ s. s)
small_ibc-IsIbc = record {
  no_route = λ n. refl;
  routed = λ n m s r r' e. ap (look m) (sym (went_on-injective e));
  router_set = λ r i i' e. sym (went_on-injective e);
  router_v2_set = λ r i i' e. sym (went_on-injective e);
  client_routed = λ n i i' c e. sym (went_on-injective e);
  stored = λ ns n c c' e there. (
    n,
    ap (small_ibc.unsafe_find_store_key n) (sym (ok-injective e))
        ∙ found (mem n (ns ++ c.stores)) n
            (mem-append n ns c.stores ∙ ap (λ (b : Bool). b || mem n c.stores) there),
  );
  store_kept = λ n m t c c' e. ap (small_ibc.unsafe_find_store_key m) (sym (went_on-injective e));
  tabled = λ n m t c c' e. ap (λ (x : Chain). look m x.tables) (sym (went_on-injective e));
}
  where
    found : (b : Bool) (n : Name) → b ≡ true → (if b then kv n else not_kv) ≡ kv n
    found true n e = refl
    found false n e = cc

pub small_app-IsApp :
    IsApp small_app small_ibc (λ c n. mem n c.modules) (λ v n. mem n v) (λ w n. mem n w)
small_app-IsApp = record {
  registered = λ ms c c' n e.
      ap (λ (x : Chain). mem n x.modules) (sym (ok-injective e))
      ∙ mem-append n (map name_of ms) c.modules;
  decoders_kept = λ c n. refl;
  load_kept = λ latest c c' n e. ap (λ (x : Chain). mem n x.modules) (sym (ok-injective e));
  versions = λ c n. refl;
  set = λ v w w' n e. ap (λ x. mem n x.1) (sym e) ∙ mem-append n v w;
}
