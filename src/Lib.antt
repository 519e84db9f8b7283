-- ===== src/Lib.antt =====
-- The GYDS chain's RPC node, written in Go: a chain of blocks with account balances, a key-value
-- store, the programs for tokens and staking that keep their state in that store, and a virtual machine
-- for contracts. The node also has a proof-of-stake engine, a mempool, a peer-to-peer layer and an HTTP
-- server with JSON-RPC.
--
-- How the parts interact: `core.Chain` owns the blocks and the accounts and writes each accepted
-- block to a store (core/db.go over storage/storage.go); the engine makes blocks on its head and
-- inserts them, and each is announced to the subscribers of the server, which reads the chain. The token
-- program (gpl/token/token.go) and the staking program (gpl/staking/staking.go) each read and write JSON
-- documents in a store, under keys with their own prefixes. Every exported method takes the
-- object's lock, so that it is one step.
--
-- The files:
--   Prelude      shared names. Prelude/Text has Go strings as lists of bytes, Prelude/Int has
--                `*big.Int` and `int64`, Prelude/Dict has maps, Prelude/Outcome has functions that
--                return a value or an error and change a state, with rules for their early returns.
--   Json         what the programs use of encoding/json: a document is the value that it spells.
--   Storage      storage/storage.go: `MemStorage` (`get`, `put`, `delete`, `has`), `memBatch`
--                (`batch_put`, `batch_delete`, `batch_write`, `batch_reset`), `memIter` (`iterator`,
--                `next`, `current`). Storage/Document has the decoding of what `Get` returned.
--   Token        gpl/token/token.go, one function for each method of `Program`; Token/Types has its
--                data, Token/Codec its documents, Token/Store its storage helpers. Token/Spec is the
--                specification: what each call is for, who may make it, and what it needs. Token/Step
--                forgets the caller, for the invariants of stores; Token/Request is a client's sequence
--                of calls; the other modules are named for what they are about.
--   Staking      gpl/staking/staking.go, in the same way: Staking/Types, Staking/Codec,
--                Staking/Store, Staking/Request, and modules named for what they are about.
--   Vm           gpl/vm/vm.go, the machine `machine` as a state: Vm/Types has the structs, Vm/Codes the
--                bytes and their gas, Vm/Words what it takes of math/big, Vm/Contract the contract's
--                storage. Vm/Stack, Vm/Regions and Vm/World have the cases of the `switch`, Vm/Loop
--                `run` and `Execute`, Vm/Abi the ABI helpers, Vm/Codec the documents of contracts;
--                the other modules are proofs.
--   Mempool      mempool/mempool.go: Mempool/Types has the structs over a store of entries, Mempool/Heap
--                `txHeap` with what it uses of container/heap, Mempool the methods; the other modules are
--                proofs.
--   Core         core/: Core/Types has the structs, Core/Blocks has block.go, transaction.go and
--                `GenesisBlock`, Core/Genesis `GydsGenesis`, Core/Chain chain.go and db.go.
--                Core/Views has `LatestBlocks`, `Stats` and the two `ToMap`.
--   Consensus    consensus/pos.go: `ValidatorSet`, `select_proposer`, and the block that
--                `produceBlock` puts on the chain's head.
--   Rpc          rpc/server.go: Rpc/Types has the structs, Rpc/Views how blocks and transactions are
--                shown, Rpc/Dispatch the methods of JSON-RPC, Rpc/Http the bodies, single and batched,
--                Rpc/Rest the handlers under `/api`, Rpc/Sockets the channels of the WebSocket
--                subscribers, Rpc/Metrics rpc/metrics.go, Rpc/Announced the end of `produceBlock`
--                with the call-back of main.go; the other modules are proofs. Prelude/Numerals has what
--                they take of fmt and strconv.
--   P2p          p2p/peer.go: P2p/Peers has the rounds of a peer's loops, P2p/Network its `Server`.
--                P2p/Steps has them in every order, as a step relation; the other modules are proofs.
--   Config       config/config.go: `default_config` and `from_env`.
--
-- Conventions. A `*big.Int` is an integer, or an option where a path may read nil. A `uint64` keeps
-- its wrap-around, `% 2 ^ 64`. A clock reading is an argument. SHA-256 is a parameter of the
-- definitions that use it, and so are encoding/json on blocks and what it writes back of the
-- id of a request (`echoed`), and the shifts for which `Lsh` of math/big panics
-- (`lsh_fails`); of these, only the length of a digest is ever a hypothesis. A pointer
-- to a struct that is written back whole is the struct. `strings.ToLower` is taken on ASCII text. A
-- map's entries stand in a list, and the iterator visits them in that order, where Go's is not
-- determined. The recursion is on lists, but for loops on fuel. The loop over an iterator has a theorem
-- that says how much is enough. The loops of the heap have a round for each of its places, enough because
-- a round goes up or down the tree, or takes one place off. `Execute` gives the loop of the virtual machine
-- a unit of fuel for each unit of gas and one more, enough because a free instruction ends the loop. The
-- memory of that machine is a function of places with a length; the capacity that Go gives its slice is a
-- parameter, since it alone decides what a place past the cap of the memory does. The digits of a number
-- in bytes, in decimal and in hexadecimal are made in at most one round more than the number has units.
--
-- A panic of a handler of the server is a value: net/http drops the connection and keeps what was
-- written. The rounds of a peer's loops and the two halves of a failed read are single steps; accepting a
-- connection is two, since the peer is started before it is sent the handshake.
--
-- Not modelled: the routes and the embedded files of rpc/server.go, which are the router's and
-- net/http's; main.go but for the announcement of new blocks, since it wires the parts together; the
-- sockets and the goroutines; and the clients, scripts and dashboards around the node.
pub mod Prelude
pub mod Json
pub mod Storage
pub mod Token
pub mod Staking
pub mod Core
pub mod Consensus
pub mod Vm
pub mod Mempool
pub mod Rpc
pub mod P2p
pub mod Config
