-- ===== src/ClickHouse/Rows.antt =====
-- learnclickhouse/src/main.cpp: what `StandardTest` prints.
use mathlib.Core.List.{append_assoc, append-nil}
use learn_framework.Common.{
  ℕ, zero, suc, ◌+◌, ◌≡◌, refl, sym, ap, ◌∙◌, true, false, Option, none, some, List, [], ◌∷◌, ◌++◌,
  inl, inr, Option-cases, length, length-append,
}
use learn_framework.ClickHouse.{
  Text, Client, from_size, total_size, Shown, address_lines, push_rows, select, standard_test,
}

-- More strings in front.
abbrev behind : List Text → Option (List Text) → Option (List Text)
behind front none = none
behind front (some rest) = some (front ++ rest)

behind-append :
    (front first : List Text) (o : Option (List Text))
    → behind (front ++ first) o ≡ behind front (behind first o)
behind-append front first none = refl
behind-append front first (some rest) = ap some (append_assoc front first rest)

module _ (client : Client) where
  open client use {Block, row_count, string_at}

  -- The strings of a block's first column from row `i` on, if it has so many; and of blocks in order.
  unfoldable pub column : ℕ → ℕ → Block → Option (List Text)
  column zero i block = some []
  column (suc n) i block = elim (string_at block 0 i) [
    | none ↦ none
    | some a ↦ behind (a ∷ []) (column n (i + 1) block)
  ]

  unfoldable pub columns : List Block → Option (List Text)
  unfolding column
  columns [] = some []
  columns (block ∷ blocks) = elim (column (row_count block) 0 block) [
    | none ↦ none
    | some first ↦ behind first (columns blocks)
  ]

  push_rows-column :
      (n i : ℕ) (block : Block) (front : List Text)
      → push_rows client n i block front ≡ behind front (column n i block)
  unfolding push_rows column
  push_rows-column zero i block front = ap some (sym (append-nil front))
  push_rows-column (suc n) i block front = elim (Option-cases (string_at block 0 i)) [
    | inl e ↦ rw (e, push_rows, column) refl
    | inr (a, e) ↦
        rw (e, push_rows, column)
          (push_rows-column n (i + 1) block (front ++ (a ∷ []))
            ∙ behind-append front (a ∷ []) (column n (i + 1) block))
  ]

  select-next :
      (block : Block) (blocks : List Block) (front : List Text) (o : Option (List Text))
      → column (row_count block) 0 block ≡ o
      → ((first : List Text)
          → select client blocks (front ++ first) ≡ behind (front ++ first) (columns blocks))
      → select client (block ∷ blocks) front ≡ behind front (columns (block ∷ blocks))
  unfolding select columns
  select-next block blocks front none e later =
      rw (push_rows-column (row_count block) 0 block front, e, select, columns) refl
  select-next block blocks front (some first) e later =
      rw (push_rows-column (row_count block) 0 block front, e, select, columns)
        (later first ∙ behind-append front first (columns blocks))

  select-columns :
      (blocks : List Block) (front : List Text)
      → select client blocks front ≡ behind front (columns blocks)
  unfolding select columns
  select-columns [] front = ap some (sym (append-nil front))
  select-columns (block ∷ blocks) front =
      select-next block blocks front (column (row_count block) 0 block) refl
        (λ first. select-columns blocks (front ++ first))

  -- What the program prints of what the two queries hand over.
  unfoldable pub report : Option (List Text) → Option (List Text) → Shown
  report none recipients = record { lines = []; ended = false }
  report (some senders) none = record { lines = from_size (length senders) ∷ []; ended = false }
  report (some senders) (some recipients) = record {
    lines =
        from_size (length senders)
        ∷ total_size (length senders + length recipients)
        ∷ address_lines (senders ++ recipients);
    ended = true;
  }

  standard_test-by :
      (from_blocks to_blocks : List Block) (first second : Option (List Text))
      → columns from_blocks ≡ first
      → columns to_blocks ≡ second
      → standard_test client from_blocks to_blocks ≡ report first second
  unfolding report standard_test
  standard_test-by from_blocks to_blocks none second e k =
      rw (standard_test, select-columns from_blocks [], e) refl
  standard_test-by from_blocks to_blocks (some senders) none e k =
      rw (standard_test, select-columns from_blocks [], e, select-columns to_blocks senders, k) refl
  standard_test-by from_blocks to_blocks (some senders) (some recipients) e k =
      rw
        (
          standard_test,
          select-columns from_blocks [],
          e,
          select-columns to_blocks senders,
          k,
          length-append senders recipients,
        )
        refl

  -- The program prints the number of senders, the number of senders and recipients together, and then
  -- all of them, the senders first, block by block and in the order of the rows: an address that is
  -- both is counted and printed twice. Where a row of the first query has no string, it prints nothing
  -- and does not come to the end; where one of the second has none, it has printed the first number.
  pub standard_test-report :
      (from_blocks to_blocks : List Block)
      → standard_test client from_blocks to_blocks
        ≡ report (columns from_blocks) (columns to_blocks)
  standard_test-report from_blocks to_blocks =
      standard_test-by from_blocks to_blocks (columns from_blocks) (columns to_blocks) refl refl
