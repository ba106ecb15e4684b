-- ===== src/Lib.antt =====
-- Naza: a model of the consensus code of the daemon, and of the encodings that it stands on.
--
-- The daemon keeps a chain of blocks. A block is checked by itself and in its chain (src/Core), its
-- transactions move amounts between keys, and the state of the chain, key images and outputs, lives
-- in a sorted database. Users see addresses and hexadecimal text (src/common); work and rewards are
-- computed with the wide arithmetic of src/crypto/int-util.h.
--
-- Files, by the code that they model:
-- - Common: shared names, Boolean tests, lists, options, powers and bit operations.
-- - Varint: src/common/Varint.hpp. The iterators are the list of the bytes left; the value that the
--   code writes through a reference is a field of the result.
-- - Sqlite4: src/common/Varint.cpp, the integers in the keys of the database; an exception is a
--   `throw` of the result type.
-- - Hex: src/common/StringTools.cpp, hexadecimal text, with all overloads of `from_hex`.
-- - Words: src/crypto/int-util.h, the product of 64-bit words and the division by a 32-bit one.
-- - Difficulty: `check_hash` of src/Core/Difficulty.cpp, over Words.
-- - Base58: src/common/Base58.cpp, blocks of letters and addresses, over Varint and Words. The hash
--   is a parameter.
-- - Decompose: `decompose_amount` of src/Core/CryptoNoteTools.cpp and the loop of
--   `Currency::construct_miner_tx` that merges amounts.
-- - Currency: src/Core/Currency.cpp and .hpp with the parameters of src/CryptoNoteConfig.hpp, over
--   Words: versions, sizes, rewards, penalties, unlock times, both difficulty algorithms and the checkpoints.
-- - Median: `median_value` of src/common/Math.hpp, for the sizes and times of the last blocks.
-- - Transaction: the transactions of src/CryptoNote.hpp.
-- - Semantic: `validate_semantic` of src/Core/BlockChainState.cpp and `get_tx_fee`, over Transaction.
--   `key_isvalid` is a parameter.
-- - State: key images and outputs of src/Core/BlockChainState.cpp: State has the operations on the
--   database, State/Delta those of `DeltaState` over a parent that it reads through
--   `IBlockChainState`, State/Apply the application of a delta and the undoing of blocks, State/Redo
--   `redo_transaction_get_error`, and State/Redo/Whole `redo_block` with the ring checker's work and the
--   answer that RingChecker shows its threads to come to. `check_ring_signature` and the hash of a
--   prefix are parameters. State/Built describes the state after a block,
--   which State/Redo/Inverse compares with what `redo_block` and `undo_block` make.
-- - Block: the blocks of src/CryptoNote.hpp, src/rpc_api.hpp and src/Core/BlockChain.hpp.
-- - BlockChain: src/Core/BlockChain.cpp, over Block. The derived class is an interface, of the state
--   that it keeps, its `redo_block`, which may throw, and `undo_block`, and its check of a block;
--   BlockChain/Derived fills it with State/Redo, State/Apply and Consensus. BlockChain/AddBlock has
--   `add_block`, Reorganize `reorganize_blocks`, Ancestor `get_common_block`, Segment
--   `get_tip_segment`, Locator what peers are told, Children the counters and the pruning; Valid has
--   the invariant of the main chain.
-- - RingChecker: src/Core/RingCheckerMulticore.cpp and .hpp, over State: what `start_work_get_error`
--   gives to the threads, and the threads as steps between states, one for each critical section of
--   the mutex, with RingChecker/Counted for the invariant of the counters. `check_ring_signature` is a
--   parameter. State/Redo/Whole takes its work and its answer.
-- - Pool: the memory pool of src/Core/BlockChainState.cpp, over State/Redo and Semantic:
--   `add_transaction`, `remove_from_pool`, `on_reorganization` and what `store_keyimage` does with the
--   pool. Pool/Ordered has the lists that stand for the maps, Pool/Valid the invariant of the indices.
--   `check_ring_signature`, `key_isvalid` and the hash of a prefix are parameters.
-- - Consensus: `check_standalone_consensus` of src/Core/BlockChainState.cpp with its medians, over
--   Currency, Semantic and BlockChain/Segment. Keys, hashes, the clock and the proof of work are
--   parameters. It fills the check that `add_block` takes.
--
-- Conventions. Numbers are natural numbers, and each operation of the code that can wrap has its
-- `% 2 ^ w`. A byte string is a list of numbers. A function that returns `bool` and writes its result
-- through a pointer returns an option; a throwing one returns a result or an option. A failed
-- `invariant` is an exception. Keys, key images and hashes are numbers where only their identity
-- matters.
--
-- Fuel. `write_varint` recurs on the order of the numbers. `digit_loop` has 20 rounds,
-- which are the digits of a 64-bit number. `encode_loop` of Base58 has one round for each letter of
-- its block. The merging loop has one round for each output. `climb_to` and `climb_both` have as many rounds as
-- both heights together, `undo_loop`, `segment_loop` and `climb_to_chain` one for each height below
-- the block, `sparse_loop` one for each height of the chain, and `evict` one for each transaction of the pool. That these are enough is part of
-- the theorems about them; of `sparse_loop` it holds because each distance is longer than the last.
--
-- Not modelled: the indices of transactions and of timestamps, the cache of headers,
-- serialization, the proof of merged mining, the wallet, the network, the RPC, the
-- databases, the logs and the cryptographic primitives.
pub mod Common
pub mod Varint
pub mod Sqlite4
pub mod Hex
pub mod Words
pub mod Base58
pub mod Difficulty
pub mod Decompose
pub mod Currency
pub mod Median
pub mod Transaction
pub mod Semantic
pub mod State
pub mod Block
pub mod BlockChain
pub mod RingChecker
pub mod Pool
pub mod Consensus
