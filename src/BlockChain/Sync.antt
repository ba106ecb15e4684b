-- ===== src/BlockChain/Sync.antt =====
-- What `get_sync_headers_chain` and `get_sparse_chain` answer on a valid chain.
use naza.Common.Options.{Option-cases}
use Prim.Native.Nat.{min}
use naza.Common.{ℕ, zero, suc, ◌+◌, ◌-◌, ◌%◌, ◌^◌}
use naza.Common.{◌≡◌, refl, ap, ◌∙◌, ◌⊎◌, inl, inr, arith}
use naza.Common.{true, false, leb, Bool-cases}
use naza.Common.{none, some, List, [], ◌∷◌, ◌++◌}
use naza.Common.{length, All}
use naza.Block.{BlockHeader}
use naza.BlockChain.{IBlockState, BlockChain}
use naza.BlockChain.Ancestor.{IsAncestor}
use naza.BlockChain.Valid.{IsValid}
use naza.BlockChain.Locator.{climb_to_chain, chain_from, get_sync_headers_chain}
use naza.BlockChain.Landing.{Replay-filled, climb_to_chain_lem}

module _ {S : Type 0} (ops : IBlockState S) (genesis_state : S) where
  -- The blocks of the main chain from a height on.
  abbrev pub OnChain : BlockChain S → ℕ → List ℕ → Type 0
  OnChain bc height [] = Unit
  OnChain bc height (x ∷ xs) = (bc.chain height ≡ some x) × OnChain bc (height + 1) xs

  chain_from_stop :
      (left : ℕ) (bc : BlockChain S) (start : ℕ)
      → leb start bc.tip_height ≡ false
      → chain_from left bc start ≡ some []
  unfolding chain_from
  chain_from_stop zero bc start above = refl
  chain_from_stop (suc left) bc start above = grind (arith, above)

  chain_from_more :
      (left : ℕ) (bc : BlockChain S) (start x : ℕ) (xs : List ℕ)
      → leb start bc.tip_height ≡ true
      → bc.chain start ≡ some x
      → chain_from left bc (start + 1) ≡ some xs
      → chain_from (suc left) bc start ≡ some (x ∷ xs)
  unfolding chain_from
  chain_from_more left bc start x xs below e run = grind (arith, below, e, run)

  chain_from_lem :
      (left : ℕ) (bc : BlockChain S) (start : ℕ)
      → IsValid ops genesis_state bc
      → (result : List ℕ) × (chain_from left bc start ≡ some result)
        × OnChain bc start result
        × (length result ≡ min left (bc.tip_height + 1 - start))
  chain_from_lem zero bc start v = ([], unfold chain_from in refl, tt, omega arith)
  chain_from_lem (suc left) bc start v = elim (Bool-cases (leb start bc.tip_height)) [
    | inr above ↦ ([], chain_from_stop (suc left) bc start above, tt, ground arith)
    | inl below ↦
        let (x, e) =
          Replay-filled ops genesis_state bc bc.tip_height bc.tip_bid bc.state v.replay start
            (ground arith) in
        let (xs, run, on, count) = chain_from_lem left bc (start + 1) v in
        (
          x ∷ xs,
          chain_from_more left bc start x xs below e run,
          (e, on),
          longer (length xs) left start bc.tip_height below count,
        )
  ]
    where
      longer :
          (n left start tip : ℕ)
          → leb start tip ≡ true
          → n ≡ min left (tip + 1 - (start + 1))
          → suc n ≡ min (suc left) (tip + 1 - start)
      longer n left start tip below count = ground arith

  -- What a peer gets that sent a locator: the first block that is known decides.
  abbrev pub IsSync : BlockChain S → List ℕ → ℕ → ℕ → List ℕ → Type 0
  IsSync bc locator max_count start result =
      (All (λ b. bc.headers b ≡ none) locator
        × (start ≡ (bc.tip_height + 1) % 2 ^ 32)
        × (result ≡ []))
      ⊎ ((unknown : List ℕ) × (lit : ℕ) × (known : List ℕ) × (locator ≡ unknown ++ lit ∷ known)
          × All (λ b. bc.headers b ≡ none) unknown
          × (base : ℕ) × (bc.chain start ≡ some base)
          × IsAncestor bc.headers base lit
          × OnChain bc start result
          × (length result ≡ min max_count (bc.tip_height + 1 - start)))

  skip-IsSync :
      (bc : BlockChain S) (lit : ℕ) (locator : List ℕ) (max_count start : ℕ) (result : List ℕ)
      → bc.headers lit ≡ none
      → IsSync bc locator max_count start result
      → IsSync bc (lit ∷ locator) max_count start result
  skip-IsSync bc lit locator max_count start result e (inl (all, at, empty)) =
      inl ((e, all), at, empty)
  skip-IsSync bc lit locator max_count start result e
        (inr (unknown, l, known, split, all, base, on, way, along, count)) =
      inr (
        lit ∷ unknown,
        l,
        known,
        ap (λ (xs : List ℕ). lit ∷ xs) split,
        (e, all),
        base,
        on,
        way,
        along,
        count,
      )

  get_sync_headers_chain_unknown :
      (bc : BlockChain S) (lit : ℕ) (locator : List ℕ) (max_count : ℕ)
      → bc.headers lit ≡ none
      → get_sync_headers_chain bc (lit ∷ locator) max_count
        ≡ get_sync_headers_chain bc locator max_count
  unfolding get_sync_headers_chain
  get_sync_headers_chain_unknown bc lit locator max_count e = grind (arith, e)

  get_sync_headers_chain_known :
      (bc : BlockChain S) (lit : ℕ) (locator : List ℕ) (max_count : ℕ) (h p : BlockHeader)
      (result : List ℕ)
      → bc.headers lit ≡ some h
      → climb_to_chain h.height bc h ≡ some p
      → chain_from max_count bc p.height ≡ some result
      → get_sync_headers_chain bc (lit ∷ locator) max_count ≡ some (p.height, result)
  unfolding get_sync_headers_chain
  get_sync_headers_chain_known bc lit locator max_count h p result e climbed taken =
      grind (arith, e, climbed, taken)

  -- On a valid main chain, the answer to a locator starts at the height after the tip and is empty
  -- where no block of the locator is known; otherwise it starts on the main chain at an ancestor
  -- of the first known block, and holds the blocks of the main chain from there, as many as asked
  -- for or up to the tip.
  pub get_sync_headers_chain-IsSync :
      (bc : BlockChain S) (locator : List ℕ) (max_count : ℕ)
      → IsValid ops genesis_state bc
      → (start : ℕ) × (result : List ℕ) × (get_sync_headers_chain bc locator max_count
          ≡ some (start, result))
        × IsSync bc locator max_count start result
  get_sync_headers_chain-IsSync bc [] max_count v = (
    (bc.tip_height + 1) % 2 ^ 32,
    [],
    unfold get_sync_headers_chain in refl,
    inl (tt, refl, refl),
  )
  get_sync_headers_chain-IsSync bc (lit ∷ locator) max_count v =
      elim (Option-cases (bc.headers lit)) [
        | inl e ↦
            let (start, result, run, sync) = get_sync_headers_chain-IsSync bc locator max_count v in
            (
              start,
              result,
              get_sync_headers_chain_unknown bc lit locator max_count e ∙ run,
              skip-IsSync bc lit locator max_count start result e sync,
            )
        | inr (h, e) ↦
            let (p, climbed, (on, stored, (path, way))) =
              climb_to_chain_lem ops genesis_state h.height lit bc h v e (omega arith) in
            let (result, taken, along, count) = chain_from_lem max_count bc p.height v in
            (
              p.height,
              result,
              get_sync_headers_chain_known bc lit locator max_count h p result e climbed taken,
              inr ([], lit, locator, refl, tt, p.hash, on, (path, way), along, count),
            )
      ]
