-- ===== src/Lib.antt =====
-- TatCoin, a Cosmos SDK chain with one module of its own, x/tatcore.
--
-- The parts and their files. Proto is the code that protoc-gen-gogo generated under
-- x/tatcore/types: Proto.Wire and Proto.Emit are the helpers that every *.pb.go file repeats
-- (the reading loop of a varint, skipTx, sovTx, encodeVarintTx), Proto.Message is the shape that
-- every Marshal and Unmarshal method has, and Proto.Tx, Proto.Params, Proto.Query, Proto.Genesis
-- and Proto.Module are the messages of tx.pb.go, params.pb.go, query.pb.go, genesis.pb.go and
-- module.pb.go, each with its fields. Proto.Varint writes down the bytes of a varint for the
-- theorems. Keeper is x/tatcore/keeper and x/tatcore/module: Keeper.Server has NewKeeper,
-- UpdateParams, Params, InitGenesis and ExportGenesis, Keeper.AppModule the genesis methods of
-- the module, its hooks of a block and ProvideModule, Keeper.Handler the two gRPC handlers of
-- the generated code, Keeper.Services the services that the module registers, Keeper.Chain the
-- calls of the module over the life of a chain as a step relation, Keeper.Gateway the HTTP
-- handlers of x/tatcore/types/query.pb.gw.go and the client they call. App is app/export.go and
-- appExport of cmd/tatcoind/cmd/commands.go: App.Export.Defs has prepForZeroHeightGenesis,
-- App.Export.Exported has ExportAppStateAndValidators and appExport, App.Export.Prepared and
-- App.Export.Pool are about the prepared state. App.GenesisAccount is app/genesis_account.go.
-- App.Wiring is the construction of the app: App.Wiring.Config is app/app_config.go,
-- App.Wiring.Ibc is registerIBCModules of app/ibc.go, App.Wiring.Build is New of app/app.go,
-- App.Wiring.Accounts its BlockedAddresses, App.Wiring.Client is RegisterIBC of app/ibc.go, and
-- App.Wiring.Start has the two init functions, the API routes and newApp. Cmd is
-- cmd/tatcoind/cmd/testnet_multi_node.go: Cmd.Flags reads the stakes and the ports, Cmd.Ports
-- has the ports of the listeners, Cmd.Nodes is the loop of initTestnetFiles over the tools of
-- Cmd.NodeSdk, Cmd.GenFiles is initGenFiles, Cmd.Testnet puts the parts of initTestnetFiles
-- together, Cmd.Collect is collectGenFiles, Cmd.Paths is copyFile, isSubDir and the loop that
-- copies the gentx files, and Cmd.MultiNode has the flags of the command and its RunE. Cmd.Root
-- is cmd/tatcoind/cmd/root.go with config.go and cmd/tatcoind/main.go, Cmd.Commands the tree of
-- commands of cmd/tatcoind/cmd/commands.go. Cmd.InPlace is cmd/tatcoind/cmd/testnet.go:
-- Cmd.InPlace.Args has getCommandArgs, Cmd.InPlace.Init has newTestnetApp and initAppForTestnet,
-- over the keepers of Cmd.InPlace.Sdk. Base has the tests, the lists and the bit laws that the
-- parts share.
--
-- How they interact. A request's bytes become a message by Unmarshal; the handler passes it to
-- UpdateParams, which compares the decoded signer with the keeper's authority and writes the
-- parameters; the item stores them as marshalled bytes (Keeper.Stored), and the query and the
-- export read them back.
--
-- Data and state. A byte slice is a list of numbers; a Go int, int64 or uint64 is the 64-bit
-- word that stands for it, with the wrap-around written out, and an int is negative from 2 ^ 63
-- on. A text is the list of its bytes. A slice has fewer than 2 ^ 63 bytes. A method on a
-- pointer is called on a message that is there, and the message after it is its result; after an
-- error what Unmarshal has left in the receiver is not kept. The stores of the SDK are abstract:
-- an address codec, a stored item, a JSON codec and the keepers of staking, distribution and
-- slashing are parameters, with their documented laws as hypotheses. A panic is a value of the
-- result: a slice expression out of range, and a slice that is made too long; the length of the
-- longest slice is a parameter. Files are a state that reading and writing pass on. A name of the
-- SDK or of ibc-go is its text: a module, a store and a port with the same text are one name.
--
-- Bounds. A varint is read in eleven rounds at most, since the shift passes 64 after ten; it is
-- written in ten. The bit length of a uint64 takes 64 rounds. The loops of Unmarshal and of skip
-- have the length of the slice and one more round, since each round takes a byte.
--
-- Not modelled: what depinject, autocli, cobra and pflag do, which are parameters; the accessors
-- of the app that return a field, and its simulation manager; the cobra command of the in-place
-- testnet, which is registration; the closing of the gateway's connection; descriptors and the
-- reflection methods of the generated code; the simulations. Go ranges over a map in any order;
-- the model takes the order of the literal. In MarshalTo the buffer has no capacity beyond its
-- length. Of Config and of the genesis states the fields that the code sets are modelled, and
-- the others are one value.
pub mod Base
pub mod Proto
pub mod Keeper
pub mod App
pub mod Cmd
