-- ===== src/ClickHouse.antt =====
-- learnclickhouse/src/main.cpp: `StandardTest`, which `main` runs. The client of ClickHouse is not part
-- of the repository: a `Select` hands over some blocks, and what a block holds is the argument `client`.
pub mod Rows
pub mod Tests
use learn_framework.Common.{
  ℕ, zero, suc, ◌+◌, Bool, true, false, Option, none, some, List, [], ◌∷◌, ◌++◌, length,
}

abbrev pub Text : Type 0
Text = List ℕ

-- `GetRowCount`, and what `block[column]->As<ColumnString>()->At(row)` is: `none` where the cast gives a
-- null pointer, or the column or the row is out of range.
pub record Client : Type 1 where
  pub Block : Type 0
  pub row_count : Block → ℕ
  pub string_at : Block → ℕ → ℕ → Option Text

pub data Line : Type 0 where
  from_size total_size : (n : ℕ) → Line
  address_line : (address : Text) → Line

-- The lines printed, and whether the program came to the end.
pub record Shown : Type 0 where
  pub lines : List Line
  pub ended : Bool

abbrev pub address_lines : List Text → List Line
address_lines [] = []
address_lines (a ∷ more) = address_line a ∷ address_lines more

module _ (client : Client) where
  open client use {Block, row_count, string_at}

  -- The loop of the callback, from row `i` on, with so many rows left; `none` where a row has no string.
  unfoldable pub push_rows : ℕ → ℕ → Block → List Text → Option (List Text)
  push_rows zero i block vect_address = some vect_address
  push_rows (suc n) i block vect_address = elim (string_at block 0 i) [
    | none ↦ none
    | some address ↦ push_rows n (i + 1) block (vect_address ++ (address ∷ []))
  ]

  -- `client.Select` with the callback.
  unfoldable pub select : List Block → List Text → Option (List Text)
  unfolding push_rows
  select [] vect_address = some vect_address
  select (block ∷ blocks) vect_address = elim (push_rows (row_count block) 0 block vect_address) [
    | none ↦ none
    | some vect_address' ↦ select blocks vect_address'
  ]

  -- The answers to both queries.
  unfoldable pub standard_test : List Block → List Block → Shown
  unfolding select
  standard_test from_blocks to_blocks = elim (select from_blocks []) [
    | none ↦ record { lines = []; ended = false }
    | some senders ↦ elim (select to_blocks senders) [
      | none ↦ record { lines = from_size (length senders) ∷ []; ended = false }
      | some vect_address ↦ record {
        lines =
            from_size (length senders)
            ∷ total_size (length vect_address)
            ∷ address_lines vect_address;
        ended = true;
      }
    ]
  ]
