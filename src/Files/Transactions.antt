-- ===== src/Files/Transactions.antt =====
-- src/file_server.cpp: createPageTransaction, validatePageTransaction, clearExpiredTransactions.
pub mod Expiry
use ur_webif.Base.{
  ℕ, ◌/◌, Bool, true, false, not, Option, none, some, ◌++◌, Bytes, codes, to_string, lookup, insert,
  erase, retain, ltb, if◌then◌else◌,
}
use ur_webif.Run.{Call, returns, ◌>>=◌, ◌>>◌, pure, modify, with_lock}
use ur_webif.Files.State.{PageTransaction, FileServer, transaction_mutex, age_in_seconds}

-- `"txn_" << timestamp << "_" << dis(gen)`, the time stamp in milliseconds.
unfoldable pub new_transaction_id : ℕ → ℕ → Bytes
new_transaction_id now random =
    codes "txn_" ++ (to_string (now / 1000000) ++ (codes "_" ++ to_string random))

unfoldable pub create_page_transaction :
    Bytes → Bytes → Bytes → Bytes → Bool → ℕ → ℕ → Call FileServer Bytes
unfolding new_transaction_id
create_page_transaction session_token user_id source_page target_page requires_auth now random =
    with_lock transaction_mutex do
      let transaction_id = new_transaction_id now random
      modify λ s. record s {
        active_transactions =
            insert transaction_id
              (record {
                session_token = session_token;
                user_id = user_id;
                source_page = source_page;
                target_page = target_page;
                requires_auth = requires_auth;
                timestamp = now;
              })
              s.active_transactions;
      }
      pure transaction_id

-- `age > 30`
abbrev pub has_expired : ℕ → PageTransaction → Bool
has_expired now transaction = ltb 30 (age_in_seconds now transaction.timestamp)

check_transaction : Bytes → ℕ → Option PageTransaction → Call FileServer Bool
check_transaction id now none s = returns false s
check_transaction id now (some transaction) s =
    if has_expired now transaction
    then returns false (record s { active_transactions = erase id s.active_transactions })
    else returns true s

unfoldable pub validate_page_transaction : Bytes → ℕ → Call FileServer Bool
unfolding check_transaction
validate_page_transaction id now =
    with_lock transaction_mutex (λ s. check_transaction id now (lookup id s.active_transactions) s)

unfoldable pub clear_expired_transactions : ℕ → Call FileServer (Unit {0})
clear_expired_transactions now = with_lock transaction_mutex (
    modify λ s. record s {
      active_transactions =
          retain (λ transaction. not (has_expired now transaction)) s.active_transactions;
    })
