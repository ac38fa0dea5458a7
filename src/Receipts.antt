-- ===== src/Receipts.antt =====
-- internal/storage/sqlite/sqlite.go: the receipts by which a broadcast is made once for a key. Each
-- operation is one SQL statement or transaction; times are nanoseconds since 1970, and no update of
-- SQLite fails. A generation counts past no bound.
pub mod Fencing
pub mod Steps
pub mod Takeover
use juno_exchange_gateway.Prelude.{
  ℕ, ◌+◌, Bool, true, false, ◌&&◌, not, Option, none, some, List, [], ◌∷◌, String, str_eq, ltb,
  ◌==◌, if◌then◌else◌,
}

-- `complete` is the state 'complete', and otherwise the state is 'processing'
pub record Receipt : Type 0 where
  pub key : String
  pub payload_digest : String
  pub expected_txid : String
  pub generation : ℕ
  pub complete : Bool
  pub http_status : ℕ
  pub response_json : String
  pub updated_at : ℕ

-- storage.ClaimState
pub data Claim : Type 0 where
  acquired in_progress replay conflict : Claim

unfoldable pub find_receipt : String → List Receipt → Option Receipt
find_receipt key [] = none
find_receipt key (r ∷ rows) = if str_eq r.key key then some r else find_receipt key rows

-- `WHERE idempotency_key=? AND payload_digest=? AND claim_generation=? AND state='processing'`
unfoldable pub is_owned : String → String → ℕ → Receipt → Bool
is_owned key digest generation r =
    str_eq r.key key
    && str_eq r.payload_digest digest
    && (r.generation == generation)
    && not r.complete

-- `UPDATE … WHERE idempotency_key=?`: the key is the primary key
unfoldable pub set_receipt : String → Receipt → List Receipt → List Receipt
set_receipt key new [] = []
set_receipt key new (r ∷ rows) =
    let rest = set_receipt key new rows in if str_eq r.key key then new ∷ rows else r ∷ rest

-- An update of the claim that is owned, `none` where no row is affected.
unfoldable pub update_owned :
    String → String → ℕ → (Receipt → Receipt) → List Receipt → Option (List Receipt)
update_owned key digest generation f rows = elim (find_receipt key rows) [
  | none ↦ none
  | some r ↦ if is_owned key digest generation r then some (set_receipt key (f r) rows) else none
]

unfoldable pub new_receipt : String → String → String → ℕ → Receipt
new_receipt key digest txid now = record {
  key = key;
  payload_digest = digest;
  expected_txid = txid;
  generation = 1;
  complete = false;
  http_status = 0;
  response_json = "";
  updated_at = now;
}

unfoldable pub reclaimed : String → ℕ → Receipt → Receipt
reclaimed txid now r = record r {
  generation = r.generation + 1;
  expected_txid = txid;
  updated_at = now;
}

unfoldable pub claim_existing :
    String → String → ℕ → ℕ → Receipt → List Receipt → (Claim × Receipt) × List Receipt
claim_existing digest txid now lease r rows =
    if not (str_eq r.payload_digest digest)
    then ((conflict, r), rows)
    else if r.complete
    then ((replay, r), rows)
    else if ltb now (r.updated_at + lease)
    then ((in_progress, r), rows)
    else ((acquired, reclaimed txid now r), set_receipt r.key (reclaimed txid now r) rows)

-- `ClaimReceipt`
unfoldable pub claim_receipt :
    String → String → String → ℕ → ℕ → List Receipt → (Claim × Receipt) × List Receipt
unfolding claim_existing new_receipt
claim_receipt key digest txid now lease rows = elim (find_receipt key rows) [
  | none ↦ ((acquired, new_receipt key digest txid now), new_receipt key digest txid now ∷ rows)
  | some r ↦ claim_existing digest txid now lease r rows
]

-- `RenewReceipt`
unfoldable pub renew_receipt : String → String → ℕ → ℕ → List Receipt → Option (List Receipt)
unfolding update_owned
renew_receipt key digest generation now rows =
    update_owned key digest generation (λ r. record r { updated_at = now }) rows

-- `CompleteReceipt`
unfoldable pub complete_receipt :
    String → String → ℕ → ℕ → String → ℕ → List Receipt → Option (List Receipt)
unfolding update_owned
complete_receipt key digest generation status response now rows =
    update_owned key digest generation
      (λ r. record r {
        complete = true;
        http_status = status;
        response_json = response;
        updated_at = now;
      })
      rows

-- `AbandonReceipt`: the claim lapses at once
unfoldable pub abandon_receipt : String → String → ℕ → List Receipt → Option (List Receipt)
unfolding update_owned
abandon_receipt key digest generation rows =
    update_owned key digest generation
      (λ r. record r { generation = r.generation + 1; updated_at = 0 }) rows
