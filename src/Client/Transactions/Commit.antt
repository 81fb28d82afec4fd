-- ===== src/Client/Transactions/Commit.antt =====
-- A transaction is committed once.
use kazoo.Base.{
  ℕ, ◌+◌, ◌≡◌, refl, ap, sym, ◌∙◌, true, false, Bool-cases, inl, inr, ok, err, value_error,
}
use kazoo.Protocol.Requests.{Op, transaction}
use kazoo.Client.{Client}
use kazoo.Client.Calls.{call, issue}
use kazoo.Client.Transactions.{TransactionRequest, add, commit_async}

-- What a commit returns where the transaction was not committed before.
commit_async-open :
    (t : TransactionRequest) (c : Client)
    → t.committed ≡ false
    → commit_async t c
      ≡ ok (
        c.next_async,
        (call
            (transaction t.operations)
            c.next_async
            (record c { next_async = c.next_async + 1 })).0,
        record t { committed = true },
      )
unfolding commit_async issue
commit_async-open t c h = rw h refl

commit_async-closed :
    (t : TransactionRequest) (c : Client) → t.committed ≡ true → commit_async t c ≡ err value_error
unfolding commit_async
commit_async-closed t c h = rw h refl

add-closed : (op : Op) (t : TransactionRequest) → t.committed ≡ true → add op t ≡ err value_error
unfolding add
add-closed op t h = rw h refl

-- A transaction that was committed holds the operations that it held, takes no more of them, and
-- cannot be committed once more, whatever the state of the client.
pub commit_async-once :
    (t t' : TransactionRequest) (c c' d : Client) (a : ℕ) (op : Op)
    → commit_async t c ≡ ok (a, c', t')
    → (t'.operations ≡ t.operations)
      × (add op t' ≡ err value_error)
      × (commit_async t' d ≡ err value_error)
commit_async-once t t' c c' d a op h = elim (Bool-cases t.committed) [
  | inl e ↦ let q = sym (commit_async-closed t c e) ∙ h in cc
  | inr e ↦
      let q = sym (commit_async-open t c e) ∙ h in
      let same : record t { committed = true } ≡ t' = cc in
      let closed : t'.committed ≡ true = sym (ap (λ (s : TransactionRequest). s.committed) same) in
      (
        sym (ap (λ (s : TransactionRequest). s.operations) same),
        add-closed op t' closed,
        commit_async-closed t' d closed,
      )
]
