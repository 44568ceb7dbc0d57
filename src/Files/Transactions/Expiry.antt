-- ===== src/Files/Transactions/Expiry.antt =====
-- How long a page transaction is good.
use ur_webif.Base.{
  ℕ, ◌+◌, Bool, false, not, Option, none, some, Bytes, ◌≡◌, refl, ◌∙◌, ap, arith, lookup, insert,
  erase, retain, IsMap, ltb, lookup-insert_self, lookup-retain, Option-cases, inl, inr, Bool-cases,
}
use ur_webif.Run.{returns, ◌>>=◌, ◌>>◌}
use ur_webif.Files.State.{PageTransaction, FileServer, age_in_seconds}
use ur_webif.Files.Transactions.{
  create_page_transaction, validate_page_transaction, clear_expired_transactions,
  new_transaction_id, has_expired,
}

-- Whether a transaction is known and has not expired.
abbrev pub is_current : ℕ → Option PageTransaction → Bool
is_current now none = false
is_current now (some transaction) = not (has_expired now transaction)

validate-free :
    (id : Bytes) (now : ℕ) (s : FileServer)
    → s.transaction_held ≡ false
    → (t : FileServer) × (validate_page_transaction id now s
        ≡ returns (is_current now (lookup id s.active_transactions)) t)
unfolding validate_page_transaction
validate-free id now s free = elim (Option-cases (lookup id s.active_transactions)) [
  | inl missing ↦ (record s { transaction_held = false }, ground arith)
  | inr (transaction, found) ↦ elim (Bool-cases (has_expired now transaction)) [
    | inl over ↦ (
      record s { active_transactions = erase id s.active_transactions; transaction_held = false },
      ground arith,
    )
    | inr live ↦ (record s { transaction_held = false }, ground arith)
  ]
]

abbrev transaction_of : Bytes → Bytes → Bytes → Bytes → Bool → ℕ → PageTransaction
transaction_of token user source target auth created = record {
  session_token = token;
  user_id = user;
  source_page = source;
  target_page = target;
  requires_auth = auth;
  timestamp = created;
}

-- The object with a transaction under a name.
abbrev stored : Bytes → PageTransaction → FileServer → FileServer
stored id transaction s = record s {
  active_transactions = insert id transaction s.active_transactions;
  transaction_held = false;
}

create-free :
    (token user source target : Bytes) (auth : Bool) (created random : ℕ) (s : FileServer)
    → s.transaction_held ≡ false
    → create_page_transaction token user source target auth created random s
      ≡ returns (new_transaction_id created random) (
          stored
            (new_transaction_id created random)
            (transaction_of token user source target auth created)
            s)
unfolding create_page_transaction
create-free token user source target auth created random s free = ground arith

age-seconds :
    (created now : ℕ) → not (ltb 30 (age_in_seconds now created)) ≡ ltb now (created + 31000000000)
age-seconds created now = ground arith

-- The object without the expired transactions.
abbrev cleared : ℕ → FileServer → FileServer
cleared now s = record s {
  active_transactions =
      retain (λ transaction. not (has_expired now transaction)) s.active_transactions;
  transaction_held = false;
}

clear-free :
    (now : ℕ) (s : FileServer)
    → s.transaction_held ≡ false
    → clear_expired_transactions now s ≡ returns tt (cleared now s)
unfolding clear_expired_transactions
clear-free now s free = ground arith

lookup-cleared :
    (id : Bytes) (now : ℕ) (s : FileServer)
    → IsMap s.active_transactions
    → is_current now (lookup id (cleared now s).active_transactions)
      ≡ is_current now (lookup id s.active_transactions)
lookup-cleared id now s m =
    rw (lookup-retain (λ transaction. not (has_expired now transaction)) id s.active_transactions m)
      (elim (Option-cases (lookup id s.active_transactions)) [
        | inl missing ↦ rw missing
        | inr (transaction, found) ↦ rw found (ground arith)
      ])

-- With no thread inside, a page transaction is accepted until 31 seconds have passed since it was
-- created, and refused from then on: ages are compared in whole seconds.
pub validate_page_transaction-create :
    (token user source target : Bytes) (auth : Bool) (created random now : ℕ) (s : FileServer)
    → s.transaction_held ≡ false
    → (t : FileServer) × ((create_page_transaction token user source target auth created random
            >>= λ id. validate_page_transaction id now)
          s
        ≡ returns (ltb now (created + 31000000000)) t)
validate_page_transaction-create token user source target auth created random now s free =
    let id = new_transaction_id created random in
    let transaction = transaction_of token user source target auth created in
    let (t, ran) = validate-free id now (stored id transaction s) refl in
    (
      t,
      rw (create-free token user source target auth created random s free, ◌>>=◌)
          (ran
            ∙ ap (λ o. returns (is_current now o) t)
                (lookup-insert_self id transaction s.active_transactions)
            ∙ ap (λ b. returns b t) (age-seconds created now)),
    )

-- With no thread inside and no name stored twice, a cleanup changes no answer: after
-- `clearExpiredTransactions`, `validatePageTransaction` at the same time accepts just the
-- transactions that it accepted before.
validate_page_transaction-clear :
    (id : Bytes) (now : ℕ) (s : FileServer)
    → s.transaction_held ≡ false
    → IsMap s.active_transactions
    → (t u : FileServer) × ((clear_expired_transactions now >> validate_page_transaction id now) s
        ≡ returns (is_current now (lookup id s.active_transactions)) t)
      × (validate_page_transaction id now s
          ≡ returns (is_current now (lookup id s.active_transactions)) u)
validate_page_transaction-clear id now s free m =
    let (t, ran) = validate-free id now (cleared now s) refl in
    let (u, direct) = validate-free id now s free in
    (
      t,
      u,
      rw (clear-free now s free, ◌>>=◌) (ran ∙ ap (λ b. returns b t) (lookup-cleared id now s m)),
      direct,
    )
