-- ===== src/Tests/Operations.antt =====
-- Operations and transactions.
use kazoo.Base.{
  [], ◌∷◌, ◌≡◌, refl, none, some, true, false, Exn, err, value_error, connection_closed,
}
use kazoo.Base.Int.{pos}
use kazoo.Python.Text.{codes}
use kazoo.Protocol.Requests.{delete}
use kazoo.Client.{completed, exception}
use kazoo.Client.Operations.{create_async}
use kazoo.Client.Operations.Create.{IsLast, create_async-IsLast}
use kazoo.Client.Transactions.{TransactionRequest, add, commit_async}
use kazoo.Client.Transactions.Commit.{commit_async-once}
use kazoo.Tests.{new_client}

-- The client is closed.
create_async-IsLast_example :
    (e : Exn) × IsLast
      (completed 0 (exception e))
      (create_async (codes "/a") none [] true false false new_client).2.effects
unfolding create_async kazoo.Paths.prefix_root kazoo.Python.Text.split
    kazoo.Python.Text.starts_with_char kazoo.Python.Text.ends_with_char kazoo.Python.Text.lstrip
    kazoo.Python.Text.join_with
create_async-IsLast_example =
    create_async-IsLast (codes "/a") none [] true false false new_client refl

abbrev one_delete : TransactionRequest
one_delete = record { operations = delete (some (codes "/a")) (pos 1) ∷ []; committed = false }

abbrev after_commit : TransactionRequest
after_commit = record one_delete { committed = true }

commit_async-once_example :
    (after_commit.operations ≡ one_delete.operations)
    × (add (delete (some (codes "/b")) (pos 1)) after_commit ≡ err value_error)
    × (commit_async after_commit new_client ≡ err value_error)
unfolding commit_async
commit_async-once_example =
    commit_async-once one_delete after_commit new_client
      (record new_client {
        next_async = 1;
        effects = completed 0 (exception connection_closed) ∷ [];
      })
      new_client 0 (delete (some (codes "/b")) (pos 1)) refl
