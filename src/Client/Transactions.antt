-- ===== src/Client/Transactions.antt =====
-- `TransactionRequest` of kazoo/client.py.
pub mod Commit
use kazoo.Base.{
  ℕ, List, [], ◌∷◌, ◌++◌, some, Bool, true, false, Result, ok, err, value_error, ◌>>=◌,
  if◌then◌else◌,
}
use kazoo.Base.Int.{ℤ}
use kazoo.Paths.{prefix_root}
use kazoo.Protocol.Strings.{Text, Buffer}
use kazoo.Protocol.Records.{Acl}
use kazoo.Protocol.Requests.{Op, transaction}
use kazoo.Client.{Client}
use kazoo.Client.Calls.{issue}
use kazoo.Client.Operations.{create_flags}

pub record TransactionRequest : Type 0 where
  pub operations : List Op
  pub committed : Bool

abbrev pub new_transaction : TransactionRequest
new_transaction = record { operations = []; committed = false }

-- `_check_tx_state`
abbrev pub check_tx_state : TransactionRequest → Result Bool
check_tx_state t = if t.committed then err value_error else ok true

-- `_add`
unfoldable pub add : Op → TransactionRequest → Result TransactionRequest
add op t = check_tx_state t >>= λ _. ok (record t { operations = t.operations ++ op ∷ [] })

-- An operation on a path below the chroot.
unfoldable pub add_on :
    List ℕ → List ℕ → (Text → Op) → TransactionRequest → Result TransactionRequest
unfolding add
add_on chroot path make t = prefix_root chroot path false >>= λ full. add (make (some full)) t

unfoldable pub tx_create :
    List ℕ
    → List ℕ
    → Buffer
    → List Acl
    → Bool
    → Bool
    → TransactionRequest
    → Result TransactionRequest
unfolding add_on
tx_create chroot path value acl ephemeral sequence =
    add_on chroot path (λ p. Op.create p value acl (create_flags ephemeral sequence))

unfoldable pub tx_delete : List ℕ → List ℕ → ℤ → TransactionRequest → Result TransactionRequest
unfolding add_on
tx_delete chroot path version = add_on chroot path (λ p. Op.delete p version)

unfoldable pub tx_set_data :
    List ℕ → List ℕ → Buffer → ℤ → TransactionRequest → Result TransactionRequest
unfolding add_on
tx_set_data chroot path value version = add_on chroot path (λ p. Op.set_data p value version)

unfoldable pub tx_check : List ℕ → List ℕ → ℤ → TransactionRequest → Result TransactionRequest
unfolding add_on
tx_check chroot path version = add_on chroot path (λ p. Op.check_version p version)

-- `commit_async`: the transaction is committed before the call.
unfoldable pub commit_async : TransactionRequest → Client → Result (ℕ × Client × TransactionRequest)
unfolding issue
commit_async t c = check_tx_state t >>= λ _.
    issue (ok (transaction t.operations)) c >>= λ r. ok (r.0, r.1, record t { committed = true })
