-- ===== src/Tests/Sample.antt =====
-- A wallet, two claimed withdrawals and what the coordinator stores for them.
use juno_exchange_gateway.Domain.Network.{regtest}
use juno_exchange_gateway.Coordinator.Request.{Config, Wallet}
use juno_exchange_gateway.Prelude.{false, none, some, List, [], ◌∷◌, String}
use juno_exchange_gateway.State.{planning}
use juno_exchange_gateway.Db.{Attempt, Db}
use juno_exchange_gateway.Attempts.Claim.{claim_attempt}
use juno_exchange_gateway.Attempts.Reserve.{Plan, reserve_attempt_plan}
use juno_exchange_gateway.Attempts.Signing.{Signed, begin_attempt_signing, complete_attempt_signing}
use juno_exchange_gateway.Safety.Reach.{Reach, here, next, claim, reserve, sign, complete, fresh_db}

abbrev pub config : Config
config = record {
  network = regtest;
  default_confirmations = 10;
  max_outputs = 20;
  max_amount_zat = 1000000;
  min_note_zat = 100;
  max_replans = 3;
  target_notes = 8;
  change_split_max = 4;
  note_summary_max_notes = 100;
}

abbrev pub wallet : Wallet
wallet = record { wallet_id = "hot"; account = 0 }

abbrev pub candidate : String → String → Attempt
candidate id key = record {
  attempt_id = id;
  scoped_idempotency_key = key;
  request_digest = "digest";
  principal_name = "ops";
  wallet_id = "hot";
  approval_reference = "ticket-1";
  request_json = "{}";
  state = planning;
  change_address = "";
  plan_json = "";
  plan_digest = "";
  fee_zat = "";
  expiry_height = 0;
  selected_note_ids = [];
  txid = "";
  raw_tx_hex = "";
  orchard_output_action_indices = [];
  orchard_change_action_index = none;
  error_code = "";
  error_message = "";
  error_retryable = false;
  created_at = 0;
  updated_at = 0;
}

abbrev pub plan_of : List String → Plan
plan_of notes = record {
  plan_json = "plan";
  plan_digest = "plan-digest";
  fee_zat = "10000";
  expiry_height = 120;
  note_ids = notes;
}

abbrev pub signer_answer : Signed
signer_answer = record {
  txid = "tx-1";
  raw_tx_hex = "00";
  fee_zat = "10000";
  output_indices = 0 ∷ [];
  change_index = some 1;
}

abbrev pub claimed : Db
claimed =
    (claim_attempt (candidate "txn_2" "v1:b") 2
      (claim_attempt (candidate "txn_1" "v1:a") 1 (fresh_db ("hot" ∷ []))).1).1

abbrev pub both_reserved : Db
both_reserved =
    (reserve_attempt_plan "txn_2" "mainnet" (plan_of ("n3" ∷ [])) 4
      (reserve_attempt_plan "txn_1" "mainnet" (plan_of ("n2" ∷ "n1" ∷ [])) 3 claimed).1).1

abbrev pub one_signed : Db
one_signed =
    (complete_attempt_signing "txn_1" signer_answer 6
      (begin_attempt_signing "txn_1" 5 both_reserved).1).1

pub claimed-Reach : Reach "mainnet" (fresh_db ("hot" ∷ [])) claimed
claimed-Reach =
    next (next here (claim (candidate "txn_1" "v1:a") 1)) (claim (candidate "txn_2" "v1:b") 2)

pub both_reserved-Reach : Reach "mainnet" (fresh_db ("hot" ∷ [])) both_reserved
both_reserved-Reach =
    next (next claimed-Reach (reserve "txn_1" (plan_of ("n2" ∷ "n1" ∷ [])) 3))
      (reserve "txn_2" (plan_of ("n3" ∷ [])) 4)

pub signing-Reach : Reach "mainnet" both_reserved one_signed
signing-Reach = next (next here (sign "txn_1" 5)) (complete "txn_1" signer_answer 6)
