-- ===== src/Cmd/Root/Modules.antt =====
-- The modules of IBC on the side of the client (cmd/tatcoind/cmd/root.go, app/ibc.go).
use Prim.Native.String.{String, ◌++◌}
use mathlib.Core.Path.{subst}
use tatcoin.Base.{
  ◌≡◌, refl, sym, ap, ◌∙◌, some, List, [], ◌∷◌, Bool, true, false, ◌||◌, Bool-cases, ◌⊎◌, inl, inr,
}
use tatcoin.Keeper.Sdk.{ok}
use tatcoin.App.Run.{Run, done, each, >>=-eq-done}
use tatcoin.App.Wiring.Config.{Name, app_config, app_name}
use tatcoin.App.Wiring.Names.{same, mem}
use tatcoin.App.Wiring.IbcSdk.{IbcModule}
use tatcoin.App.Wiring.Ibc.{Keepers}
use tatcoin.App.Wiring.Orders.{ibc_names}
use tatcoin.App.Wiring.Versions.{name_of, or_panic-done}
use tatcoin.App.Wiring.Build.{or_panic}
use tatcoin.App.Wiring.Client.{client_modules, register_basic, register_ibc}
use tatcoin.Cmd.Commands.{RootCmd, init_root_cmd}
use tatcoin.Cmd.Root.{
  Table, find_name, CliOptions, ContextSdk, RootSdk, provide_client_context, add_modules,
  new_root_cmd,
}

abbrev names_of : {A : Type 0} → Table A → List Name
names_of [] = []
names_of ((n, a) ∷ t) = n ∷ names_of t

or-left : (a b : Bool) → (a || b) ≡ false → a ≡ false
or-left false b e = refl
or-left true b e = cc

or-right : (a b : Bool) → (a || b) ≡ false → b ≡ false
or-right false b e = e
or-right true b e = cc

or-first : (a b : Bool) → (a || b) ≡ true → b ≡ false → a ≡ true
or-first true b e h = refl
or-first false b e h = cc

find_name-first :
    {A : Type 0} (n k : Name) (a : A) (t : Table A)
    → same n k ≡ true
    → find_name n ((k, a) ∷ t) ≡ some a
unfolding find_name
find_name-first n k a t e = rw e refl

find_name-other :
    {A : Type 0} (n k : Name) (a : A) (t : Table A)
    → same n k ≡ false
    → find_name n ((k, a) ∷ t) ≡ find_name n t
unfolding find_name
find_name-other n k a t e = rw e refl

module _ {E W Ctx Cdc Registry TxOptions Amino B M Rest Tx X : Type 0}
    (sdk : ContextSdk E W Ctx Cdc Registry TxOptions Amino Tx)
    (root : RootSdk E W Ctx Cdc Registry TxOptions Amino B M Rest Tx X)
    {Ibc Transfer Host Controller P : Type 0} (empty : Keepers Ibc Transfer Host Controller)
    (no_store : P) (is_basic : IbcModule Ibc Transfer Host Controller P → Bool)
    (register_interfaces : IbcModule Ibc Transfer Host Controller P → Registry → Run Registry)
    (core_adaptor : Name → IbcModule Ibc Transfer Host Controller P → B)
    (as_module : IbcModule Ibc Transfer Host Controller P → M) (home : String) where
  abbrev Mod : Type 0
  Mod = IbcModule Ibc Transfer Host Controller P

  abbrev Both : Type 0
  Both = Table B × CliOptions M Rest

  abbrev add : List (Name × Mod) → Both → Both
  add = add_modules sdk root empty no_store is_basic register_interfaces core_adaptor as_module home

  -- Each entry has the name of its module.
  abbrev Named : List (Name × Mod) → Type 0
  Named [] = Unit {0}
  Named ((n, m) ∷ ms) = (name_of m ≡ n) × Named ms

  find_name-add_other :
      (ms : List (Name × Mod)) (t : Both) (n : Name)
      → mem n (names_of ms) ≡ false
      → (find_name n (add ms t).0 ≡ find_name n t.0)
        × (find_name n (add ms t).1.modules ≡ find_name n t.1.modules)
  unfolding add_modules
  find_name-add_other [] t n e = (refl, refl)
  find_name-add_other ((k, m) ∷ ms) t n e =
      let not_first : same n k ≡ false = or-left (same n k) (mem n (names_of ms)) e in
      let not_rest : mem n (names_of ms) ≡ false = or-right (same n k) (mem n (names_of ms)) e in
      let (basics, cli) =
        find_name-add_other ms
          ((k, core_adaptor k m) ∷ t.0, record t.1 { modules = (k, as_module m) ∷ t.1.modules }) n
          not_rest in
      (
        basics ∙ find_name-other n k (core_adaptor k m) t.0 not_first,
        cli ∙ find_name-other n k (as_module m) t.1.modules not_first,
      )

  -- What is found of a module of IBC.
  abbrev pub Found : Name → Both → Type 0
  Found n t =
      (m : Mod) × (same n (name_of m) ≡ true)
      × (find_name n t.0 ≡ some (core_adaptor (name_of m) m))
      × (find_name n t.1.modules ≡ some (as_module m))

  Found-add :
      (ms : List (Name × Mod)) (t : Both) (n : Name)
      → Named ms
      → mem n (names_of ms) ≡ true
      → Found n (add ms t)
  unfolding add_modules
  Found-add [] t n named e = cc
  Found-add ((k, m) ∷ ms) t n named e = elim (Bool-cases (mem n (names_of ms))) [
    | inl later ↦ Found-add ms _ n named.1 later
    | inr last ↦
        let first : same n k ≡ true = or-first (same n k) (mem n (names_of ms)) e last in
        let (basics, cli) =
          find_name-add_other ms
            ((k, core_adaptor k m) ∷ t.0, record t.1 { modules = (k, as_module m) ∷ t.1.modules }) n
            last in
        (
          m,
          rw (named.0) first,
          basics
              ∙ find_name-first n k (core_adaptor k m) t.0 first
              ∙ ap (λ k. some (core_adaptor k m)) (sym named.0),
          cli ∙ find_name-first n k (as_module m) t.1.modules first,
        )
  ]

  -- What there is of a name: the module of IBC of that name, or the entry there was.
  abbrev pub IsEntry : Name → Both → Both → Type 0
  IsEntry n before after =
      ((mem n ibc_names ≡ true) × Found n after)
      ⊎ ((mem n ibc_names ≡ false)
          × (find_name n after.0 ≡ find_name n before.0)
          × (find_name n after.1.modules ≡ find_name n before.1.modules))

  entry :
      (ms : List (Name × Mod)) (before : Both) (n : Name)
      → ms ≡ client_modules empty no_store is_basic register_interfaces
      → IsEntry n before (add ms before)
  entry ms before n e = elim (Bool-cases (mem n ibc_names)) [
    | inl one ↦
        inl
          (one, Found-add ms before n (rw e (refl, (refl, (refl, (refl, (refl, tt)))))) (rw e one))
    | inr other ↦
        let (basics, cli) = find_name-add_other ms before n (rw e other) in inr (other, basics, cli)
  ]

  -- The command and the context are made of what the injection gave, from the files `w` and with those
  -- that it left, with the modules of IBC in it.
  abbrev pub IsMade : W → RootCmd (Table B) Tx X × Ctx → W → Type 0
  IsMade w made w' =
      (before after : Both) × (root.inject app_config (provide_client_context sdk home) w
        ≡ done (ok (before.1, (before.0, made.1)), w'))
      × (root.enhance_root_command after.1 (
            init_root_cmd home root.add_start_commands
              (record {
                use_line = app_name ++ "d";
                short = "tatcore node";
                silence_errors = true;
                commands = [];
              })
              (sdk.tx_config made.1) after.0)
          ≡ ok made.0)
      × ((n : Name) → IsEntry n before after)

  -- Where `NewRootCmd` returns a command, it is the one that autocli makes of a tree of commands over some
  -- basic manager and options, and these have an entry, over the module of that name, for each module of
  -- IBC that the app registers; every other name has the entry that the injection gave it.
  pub new_root_cmd-IsMade :
      (w : W) (made : RootCmd (Table B) Tx X × Ctx) (w' : W)
      → new_root_cmd sdk root empty no_store is_basic register_interfaces core_adaptor as_module
          home w
        ≡ done (made, w')
      → IsMade w made w'
  unfolding new_root_cmd register_ibc
  new_root_cmd-IsMade w made w' e =
      let ((injected, v), e1, f1) =
        >>=-eq-done (root.inject app_config (provide_client_context sdk home) w) _ e in
      let ((cli, (basics, ctx)), e2, f2) = >>=-eq-done (or_panic injected) _ f1 in
      let ((modules, registry), e3, f3) =
        >>=-eq-done
          (register_ibc empty no_store is_basic register_interfaces (sdk.registry (sdk.codec ctx)))
          _ f2 in
      let same_modules = register_ibc-modules _ modules registry e3 in
      let after : Both = add modules (basics, cli) in
      let (enhanced, e4, f4) = >>=-eq-done (or_panic (root.enhance_root_command after.1 _)) _ f3 in
      subst (λ x. IsMade w x.0 x.1) (done-injective f4)
        (
          (basics, cli),
          after,
          e1 ∙ ap (λ r. done (r, v)) (or_panic-done injected _ e2),
          or_panic-done _ enhanced e4,
          λ n. entry modules (basics, cli) n same_modules,
        )
    where
      done-injective : {A : Type 0} {a b : A} → done a ≡ done b → a ≡ b
      done-injective {a = a} h = cc

      register_ibc-modules :
          (r : Registry) (ms : List (Name × Mod)) (r' : Registry)
          → register_ibc empty no_store is_basic register_interfaces r ≡ done (ms, r')
          → ms ≡ client_modules empty no_store is_basic register_interfaces
      register_ibc-modules r ms r' e =
          let (s, e', f) =
            >>=-eq-done
              (each (register_basic empty no_store is_basic register_interfaces)
                (client_modules empty no_store is_basic register_interfaces) r)
              _ e in
          sym (ap (λ x. x.0) (done-injective f))
