-- ===== src/Generator.antt =====
-- The load generator, scripts/data_generator.py: what it draws, its three kinds of writes to Postgres, and
-- its loop. The table's primary key is that of infra/init.sql. Python's random numbers are a parameter,
-- and so is the product of the batch size with a floating-point share.
pub mod Loop
pub mod Rows
pub mod Deletes
pub mod Moves
pub mod Totals
mod Examples
use payments_cdc_pipeline.Prelude.{
  ℕ, zero, suc, ◌+◌, ◌-◌, ◌*◌, ◌%◌, String, List, [], ◌∷◌, ◌++◌, Bool, true, false, not, ◌&&◌, ◌||◌,
  any, map, keep, count_if, length, ltb, leb, ◌==◌, text_eq, if◌then◌else◌,
}
use payments_cdc_pipeline.Errors.{Error, Result, ok, err}
use payments_cdc_pipeline.Exec.{Exec, Outcome, pure, raise, gets, modify, write, ◌>>=◌, ◌>>◌}

abbrev pub whale_merchant_id : String
whale_merchant_id = "MERCH_007"

abbrev pub statuses : List String
statuses = "PENDING" ∷ "SETTLED" ∷ "FAILED" ∷ []

abbrev pub event_types : List String
event_types = "AUTHORIZATION" ∷ "CAPTURE" ∷ "REFUND" ∷ "CHARGEBACK" ∷ []

abbrev pub currencies : List String
currencies = "USD" ∷ "EUR" ∷ "GBP" ∷ "JPY" ∷ []

pub record Transaction : Type 0 where
  pub transaction_id : String
  pub merchant_id : String
  pub amount_minor : ℕ
  pub currency : String
  pub status : String
  pub event_type : String
  pub created_at : ℕ
  pub updated_at : ℕ

-- A number below the given one, whether `random.random()` is below so many percent, and a fresh id. Each
-- comes with the next state of the source.
pub record Random (Seed : Type 0) : Type 0 where
  pub randbelow : ℕ → Seed → ℕ × Seed
  pub percent : ℕ → Seed → Bool × Seed
  pub uuid4 : Seed → String × Seed

abbrev pub nth : String → List String → ℕ → String
nth x [] k = x
nth x (y ∷ ys) k = let rest = nth y ys (k - 1) in if k == 0 then x else rest

abbrev pub has_id : String → Transaction → Bool
has_id tid r = text_eq r.transaction_id tid

module _ {Seed : Type 0} (random : Random Seed) where
  -- `random.choice(xs)`. No caller has an empty list.
  abbrev pub choice : List String → Seed → String × Seed
  choice [] s = ("", s)
  choice (x ∷ xs) s = let (k, s') = random.randbelow (suc (length xs)) s in (nth x xs k, s')

  -- `random.randint(a, b)`
  abbrev pub randint : ℕ → ℕ → Seed → ℕ × Seed
  randint a b s = let (k, s') = random.randbelow (suc (b - a)) s in (a + k, s')

  pub generate_amount : Bool → Seed → ℕ × Seed
  generate_amount false s = randint 100 99900 s
  generate_amount true s =
      let (whale, s') = random.percent 3 s in
      if whale then randint 500000 5000000 s' else randint 100 99900 s'

  pub pick_merchant : List String → Bool → Seed → String × Seed
  pick_merchant merchant_ids false s = choice merchant_ids s
  pick_merchant merchant_ids true s =
      let (whale, s') = random.percent 40 s in
      if whale then (whale_merchant_id, s') else choice merchant_ids s'

  abbrev pub new_row : List String → Bool → ℕ → Seed → Transaction × Seed
  new_row merchant_ids whale_mode now s =
      let (tid, s₁) = random.uuid4 s in
      let (merchant, s₂) = pick_merchant merchant_ids whale_mode s₁ in
      let (amount, s₃) = generate_amount whale_mode s₂ in
      let (currency, s₄) = choice currencies s₃ in
      let (status, s₅) = choice statuses s₄ in
      let (event_type, s₆) = choice event_types s₅ in
      (
        record {
          transaction_id = tid;
          merchant_id = merchant;
          amount_minor = amount;
          currency = currency;
          status = status;
          event_type = event_type;
          created_at = now;
          updated_at = now;
        },
        s₆,
      )

  abbrev pub new_rows : List String → Bool → ℕ → ℕ → Seed → List Transaction × Seed
  new_rows merchant_ids whale_mode now zero s = ([], s)
  new_rows merchant_ids whale_mode now (suc n) s =
      let (row, s₁) = new_row merchant_ids whale_mode now s in
      let (rows, s₂) = new_rows merchant_ids whale_mode now n s₁ in (row ∷ rows, s₂)

  -- The UPDATEs of one transaction: the row counts, the table and the source after them.
  abbrev pub updates : List String → ℕ → ℕ → List Transaction → Seed → ℕ × List Transaction × Seed
  updates ids now zero table s = (0, table, s)
  updates ids now (suc n) table s =
      let (tid, s₁) = choice ids s in
      let (status, s₂) = choice statuses s₁ in
      let (updated, table', s₃) =
        updates ids now n
          (map (λ r. if has_id tid r then record r { status = status; updated_at = now } else r)
            table)
          s₂ in
      (count_if (has_id tid) table + updated, table', s₃)

-- `ids.remove(tid)`: the first of them
abbrev pub remove : String → List String → List String
remove tid [] = []
remove tid (x ∷ ids) = let rest = remove tid ids in if text_eq x tid then ids else x ∷ rest

module _ {Seed : Type 0} (random : Random Seed) where
  -- The DELETEs of one transaction.
  abbrev pub deletes : List String → ℕ → List Transaction → Seed → ℕ × List Transaction × Seed
  deletes ids zero table s = (0, table, s)
  deletes [] (suc n) table s = (0, table, s)
  deletes (x ∷ xs) (suc n) table s =
      let (tid, s₁) = choice random (x ∷ xs) s in
      let hit = any (has_id tid) table in
      let (deleted, table', s₂) =
        deletes (if hit then remove tid (x ∷ xs) else x ∷ xs) n
          (keep (λ r. not (has_id tid r)) table) s₁ in
      ((if hit then suc deleted else deleted), table', s₂)

-- The primary key of the table.
abbrev pub unique_ids : List Transaction → Bool
unique_ids [] = true
unique_ids (r ∷ rows) = not (any (has_id r.transaction_id) rows) && unique_ids rows

-- Postgres, the source of random numbers, and the variables of `main`.
pub record State (Seed : Type 0) : Type 0 where
  pub table : List Transaction
  pub seed : Seed
  pub existing_ids : List String
  pub total_ops : ℕ
  pub total_inserts : ℕ
  pub total_updates : ℕ
  pub total_deletes : ℕ

-- What one round of the loop meets: the signal, the seconds since the start, the clock of the database,
-- how the transactions end, and the ids that a query for a sample gives.
pub record Tick : Type 0 where
  pub kill_now : Bool
  pub elapsed : ℕ
  pub now : ℕ
  pub inserting : Outcome
  pub updating : Outcome
  pub deleting : Outcome
  pub sample : List String

module _ {Seed : Type 0} (random : Random Seed) where
  -- A transaction that stores the table and answers a number.
  abbrev pub commit : Outcome → List Transaction → Seed → ℕ → Exec (State Seed) ℕ
  commit save table seed n st =
      (write save Error.postgres_error (λ (w : State Seed). record w { table = table }) >> pure n)
        (record st { seed = seed })

  unfoldable pub do_inserts : List String → Bool → ℕ → Tick → Exec (State Seed) ℕ
  do_inserts merchant_ids whale_mode zero tick st = pure 0 st
  do_inserts merchant_ids whale_mode (suc n) tick st =
      let (rows, s) = new_rows random merchant_ids whale_mode tick.now (suc n) st.seed in
      if unique_ids (st.table ++ rows)
      then commit tick.inserting (st.table ++ rows) s (suc n) st
      else raise Error.postgres_error (record st { seed = s })

  unfoldable pub do_updates : ℕ → Tick → Exec (State Seed) ℕ
  do_updates zero tick st = pure 0 st
  do_updates (suc n) tick st = elim st.existing_ids [
    | [] ↦ (ok 0, st)
    | x ∷ xs ↦
        let (updated, table, s) = updates random (x ∷ xs) tick.now (suc n) st.table st.seed in
        commit tick.updating table s updated st
  ]

  unfoldable pub do_deletes : ℕ → Tick → Exec (State Seed) ℕ
  do_deletes zero tick st = pure 0 st
  do_deletes (suc n) tick st = elim st.existing_ids [
    | [] ↦ (ok 0, st)
    | x ∷ xs ↦
        let (deleted, table, s) = deletes random (x ∷ xs) (suc n) st.table st.seed in
        commit tick.deleting table s deleted st
  ]
