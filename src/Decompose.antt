-- ===== src/Decompose.antt =====
-- Core/CryptoNoteTools.cpp: an amount as digits and dust, and the merging of outputs in
-- `Currency::construct_miner_tx`.
pub mod Sum
pub mod Merge
mod Tests
use naza.Common.{ℕ, zero, suc, ◌+◌, ◌-◌, ◌*◌, ◌/◌, ◌%◌, ◌^◌}
use naza.Common.{List, [], ◌∷◌, ◌++◌, Option, none, some, length}
use naza.Common.Options.{◌>>=◌}
use naza.Common.{Bool, true, false, not, ◌&&◌, ltb, leb, ◌==◌, if◌then◌else◌}

-- The locals of `decompose_amount_into_digits`, and the amounts that the handlers pushed.
pub record Digits : Type 0 where
  pub amount : ℕ
  pub dust : ℕ
  pub order : ℕ
  pub is_dust_handled : Bool
  pub decomposed_amounts : List ℕ

unfoldable pub push_nonzero : List ℕ → ℕ → List ℕ
push_nonzero out x = if x == 0 then out else out ++ x ∷ []

-- The dust handler of `decompose_amount`.
unfoldable pub push_dust : List ℕ → ℕ → List ℕ
unfolding push_nonzero
push_dust out dust = push_nonzero (push_nonzero out (dust % 1000)) (dust - dust % 1000)

-- `if (!is_dust_handled && 0 != dust)`
unfoldable pub dust_waits : Digits → Bool
dust_waits s = not s.is_dust_handled && not (s.dust == 0)

-- A digit that joins the dust, and one that does not.
unfoldable pub join_dust : Digits → ℕ → Digits
join_dust s dust = record s { amount = s.amount / 10; order = s.order * 10 % 2 ^ 64; dust = dust }

unfoldable pub push_chunk : Digits → ℕ → Digits
push_chunk s chunk = record s {
  amount = s.amount / 10;
  order = s.order * 10 % 2 ^ 64;
  is_dust_handled = if dust_waits s then true else s.is_dust_handled;
  decomposed_amounts =
      push_nonzero
        (if dust_waits s then push_dust s.decomposed_amounts s.dust else s.decomposed_amounts)
        chunk;
}

-- One round of the loop.
unfoldable pub digit_step : ℕ → Digits → Digits
digit_step dust_threshold s =
    let chunk = s.amount % 10 * s.order % 2 ^ 64 in
    let dust = (s.dust + chunk) % 2 ^ 64 in
    if leb dust dust_threshold then join_dust s dust else push_chunk s chunk

-- `while (0 != amount)`, with fuel; `none` means that the fuel ran out.
unfoldable pub digit_loop : ℕ → ℕ → Digits → Option Digits
digit_loop zero dust_threshold s = if s.amount == 0 then some s else none
digit_loop (suc fuel) dust_threshold s = elim (s.amount == 0) [
  | true ↦ some s
  | false ↦ digit_loop fuel dust_threshold (digit_step dust_threshold s)
]

abbrev pub start_digits : ℕ → Digits
start_digits amount = record {
  amount = amount;
  dust = 0;
  order = 1;
  is_dust_handled = false;
  decomposed_amounts = [];
}

abbrev pub finish_digits : Digits → List ℕ
finish_digits s =
    if dust_waits s then push_dust s.decomposed_amounts s.dust else s.decomposed_amounts

-- Twenty digits are enough for 64 bits.
unfoldable pub decompose_amount : ℕ → ℕ → Option (List ℕ)
decompose_amount amount dust_threshold =
    digit_loop 20 dust_threshold (start_digits amount) >>= λ s. some (finish_digits s)

-- `out_amounts[size - 2] += out_amounts.back(); out_amounts.pop_back();`
unfoldable pub merge_last : List ℕ → List ℕ
merge_last [] = []
merge_last (x ∷ []) = x ∷ []
merge_last (x ∷ y ∷ []) = ((x + y) % 2 ^ 64) ∷ []
merge_last (x ∷ y ∷ z ∷ rest) = x ∷ merge_last (y ∷ z ∷ rest)

-- `while (out_amounts.size() > max_outs)`, at most once for each output.
unfoldable pub merge_loop : ℕ → ℕ → List ℕ → List ℕ
merge_loop zero max_outs out_amounts = out_amounts
merge_loop (suc fuel) max_outs out_amounts = elim (ltb max_outs (length out_amounts)) [
  | true ↦ merge_loop fuel max_outs (merge_last out_amounts)
  | false ↦ out_amounts
]

-- `if (max_outs == 0) max_outs = 1;`
unfoldable pub merge_outputs : ℕ → List ℕ → List ℕ
merge_outputs max_outs out_amounts =
    merge_loop (length out_amounts) (if max_outs == 0 then 1 else max_outs) out_amounts
