-- ===== src/BlockChain/Locator.antt =====
-- What peers tell each other about their chains: `get_sparse_chain`, `find_blockchain_supplement` and
-- `get_sync_headers_chain`.
use naza.Common.{ℕ, zero, suc, ◌+◌, ◌-◌, ◌%◌, ◌^◌, List, [], ◌∷◌, ◌++◌, Option, none, some}
use naza.Common.{true, false, ◌||◌, ltb, leb, ◌==◌, if◌then◌else◌}
use naza.Common.Options.{◌>>=◌}
use naza.Block.{BlockHeader}
use naza.BlockChain.{BlockChain, in_chain}

-- `tip_path.back()`; the path is not empty.
abbrev pub back : ℕ → List ℕ → ℕ
back default [] = default
back default (x ∷ xs) = back x xs

-- The next distance from the tip, where `size` blocks are in the path.
abbrev pub next_jump : ℕ → ℕ → ℕ
next_jump size jump = if leb size 10 then (jump + 1) % 2 ^ 32 else (jump + 2 ^ (size - 10)) % 2 ^ 32

abbrev pub last_or_genesis : ℕ → List ℕ → List ℕ
last_or_genesis genesis_bid path =
    if back genesis_bid path == genesis_bid then path else path ++ genesis_bid ∷ []

-- The known blocks of a peer, from the highest; the height of the first that is not above our tip.
unfoldable pub find_blockchain_supplement : {S : Type 0} → BlockChain S → List ℕ → ℕ
find_blockchain_supplement bc [] = 0
find_blockchain_supplement bc (lit ∷ remote_block_ids) = elim (bc.headers lit) [
  | none ↦ find_blockchain_supplement bc remote_block_ids
  | some header ↦
      let rest = find_blockchain_supplement bc remote_block_ids in
      if ltb bc.tip_height header.height then rest else header.height
]

module _ {S : Type 0} where
  -- `while (m_tip_height >= jump)`, with fuel.
  unfoldable pub sparse_loop : ℕ → BlockChain S → ℕ → ℕ → Option (List ℕ)
  sparse_loop zero bc size jump = if leb jump bc.tip_height then none else some []
  sparse_loop (suc fuel) bc size jump = elim (leb jump bc.tip_height) [
    | false ↦ some []
    | true ↦ bc.chain (bc.tip_height - jump) >>= λ bid.
        sparse_loop fuel bc (size + 1) (next_jump (size + 1) jump) >>= λ path. some (bid ∷ path)
  ]

  unfoldable pub get_sparse_chain : BlockChain S → Option (List ℕ)
  get_sparse_chain bc = sparse_loop (suc bc.tip_height) bc 0 0 >>= λ tip_path.
      some (last_or_genesis bc.genesis_bid tip_path)

  -- `while (header.height != 0)`: down to the main chain, with a round for every height.
  unfoldable pub climb_to_chain : ℕ → BlockChain S → BlockHeader → Option BlockHeader
  climb_to_chain zero bc header =
      if header.height == 0 || in_chain bc header.height header.hash then some header else none
  climb_to_chain (suc fuel) bc header = elim (header.height == 0) [
    | true ↦ some header
    | false ↦ elim (in_chain bc header.height header.hash) [
      | true ↦ some header
      | false ↦ bc.headers header.previous_block_hash >>= λ parent. climb_to_chain fuel bc parent
    ]
  ]

  -- `for (; result.size() < max_count && min_height <= m_tip_height; min_height += 1)`
  unfoldable pub chain_from : ℕ → BlockChain S → ℕ → Option (List ℕ)
  chain_from zero bc min_height = some []
  chain_from (suc left) bc min_height = elim (leb min_height bc.tip_height) [
    | false ↦ some []
    | true ↦ bc.chain min_height >>= λ bid.
        chain_from left bc (min_height + 1) >>= λ rest. some (bid ∷ rest)
  ]

  -- The start height and the hashes of the blocks from there.
  unfoldable pub get_sync_headers_chain : BlockChain S → List ℕ → ℕ → Option (ℕ × List ℕ)
  get_sync_headers_chain bc [] max_count = some ((bc.tip_height + 1) % 2 ^ 32, [])
  get_sync_headers_chain bc (lit ∷ locator) max_count = elim (bc.headers lit) [
    | none ↦ get_sync_headers_chain bc locator max_count
    | some header ↦ climb_to_chain header.height bc header >>= λ common.
        chain_from max_count bc common.height >>= λ result. some (common.height, result)
  ]

  -- `get_sync_headers`
  unfoldable pub read_headers : BlockChain S → List ℕ → Option (List BlockHeader)
  read_headers bc [] = some []
  read_headers bc (bid ∷ chain) =
      bc.headers bid >>= λ header. read_headers bc chain >>= λ rest. some (header ∷ rest)

  unfoldable pub get_sync_headers : BlockChain S → List ℕ → ℕ → Option (List BlockHeader)
  get_sync_headers bc locator max_count =
      get_sync_headers_chain bc locator max_count >>= λ r. read_headers bc r.1
