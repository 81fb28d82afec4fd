-- ===== src/Connection/Steps/Accounts.antt =====
-- No async object is lost.
use kazoo.Base.{ℕ, ◌<◌, Bool, inl, inr}
use kazoo.States.{KazooState}
use kazoo.Connection.{Connection}
use kazoo.Connection.Steps.{Step, calls, sends, reads, changes, Steps, here, step, IsAccounted}
use kazoo.Connection.Steps.Keeping.{Keeps, calls-Keeps, sends-Keeps, changes-Keeps}
use kazoo.Connection.Steps.Packets.{packet-Keeps}

module _ (wants_removal : ℕ → KazooState → Bool) where
  step-Keeps : (n m : Connection) → Step wants_removal n m → Keeps n m
  step-Keeps n _ (calls r _) = calls-Keeps r n
  step-Keeps n _ (sends ss _ h) = sends-Keeps ss n h
  step-Keeps n _ (reads header buffer offset _ h) =
      packet-Keeps wants_removal header buffer offset n h
  step-Keeps n _ (changes s _) = changes-Keeps wants_removal s n

  accounted-step :
      (n m : Connection)
      → Keeps n m
      → ((a : ℕ) → a < n.client.next_async → IsAccounted n.client a)
      → (a : ℕ) → a < m.client.next_async
      → IsAccounted m.client a
  accounted-step n m k f a h = elim (k.makes a h) [ inl l ↦ k.keeps a (f a l) | inr r ↦ r ]

  -- No async object is lost: whatever sequence of calls, sends, packets that were read and changes
  -- of the session's state there was, in any order, every async object that was made waits for its
  -- request or was set, if this was so at the start. The packets are pings, answers to an `Auth`
  -- that accept or refuse it, watch events and responses, also such with a wrong xid or a body that
  -- cannot be read. A request is sent while a byte is in the pipe, and may fail to be. If a packet
  -- has the xid of the first pending request and is no answer to an `Auth`, its error code is 0 or
  -- that of a class, and the request has fields where it has an object.
  pub steps-accounted :
      (n m : Connection)
      → Steps wants_removal n m
      → ((a : ℕ) → a < n.client.next_async → IsAccounted n.client a)
      → (a : ℕ) → a < m.client.next_async
      → IsAccounted m.client a
  steps-accounted n _ (here _) f a h = f a h
  steps-accounted n _ (step {m} {l} ss s) f a h =
      accounted-step m l (step-Keeps m l s) (λ b. steps-accounted n m ss f b) a h
