-- ===== src/Transaction.antt =====
-- CryptoNote.hpp: transactions. Keys, key images and hashes are numbers, which stand for their
-- 32 bytes; a ring signature is the list of its signatures.
use naza.Common.{ℕ, List}

pub data TransactionInput : Type 0 where
  coinbase_input : (block_index : ℕ) → TransactionInput
  key_input : (amount : ℕ) (output_indexes : List ℕ) (key_image : ℕ) → TransactionInput

pub data TransactionOutputTarget : Type 0 where
  key_output : (key : ℕ) → TransactionOutputTarget

pub record TransactionOutput : Type 0 where
  pub amount : ℕ
  pub target : TransactionOutputTarget

pub record Transaction : Type 0 where
  pub version : ℕ
  pub unlock_time : ℕ
  pub inputs : List TransactionInput
  pub outputs : List TransactionOutput
  pub extra : List ℕ
  pub signatures : List (List ℕ)
