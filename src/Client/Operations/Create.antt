-- ===== src/Client/Operations/Create.antt =====
-- What becomes of the object that `create_async` returns.
use kazoo.Base.{
  ℕ, ◌+◌, List, [], ◌∷◌, ◌++◌, ◌≡◌, ◌≢◌, refl, ap, sym, ◌∙◌, Option, none, some, Bool, true, false,
  inl, inr, Exn, Result, ok, err, Result-cases,
}
use kazoo.Paths.{prefix_root}
use kazoo.Protocol.Strings.{Buffer}
use kazoo.Base.Int.{ℤ}
use kazoo.Protocol.Records.{Acl}
use kazoo.Protocol.Requests.{Request}
use kazoo.Client.{Client, Effect, completed, exception}
use kazoo.Client.Calls.{call, refusal}
use kazoo.Client.Operations.{create_flags, create_inner, created_on, create_async}

-- The last thing that happened.
pub IsLast : Effect → List Effect → Type 0
IsLast e es = (before : List Effect) × (es ≡ before ++ e ∷ [])

-- A call is refused only by a state that has an exception for it.
call-accepted : (r : Request) (a : ℕ) (c : Client) → refusal c.state ≡ none → (call r a c).1 ≡ true
unfolding call
call-accepted r a c h = rw h refl

created_on-IsLast :
    (outer : ℕ) (refused : Option Exn) (c : Client) (res : Result (ℕ × Client × Bool))
    → ((inner : ℕ) (d : Client) → res ≡ ok (inner, d, false) → refused ≢ none)
    → (created_on outer refused c res).1 ≡ none
    → (e : Exn) × IsLast (completed outer (exception e)) (created_on outer refused c res).2.effects
unfolding IsLast
created_on-IsLast outer refused c (err e) f h = (e, (c.effects, refl))
created_on-IsLast outer refused c (ok (inner, d, true)) f h = cc
created_on-IsLast outer (some e) c (ok (inner, d, false)) f h = (e, (d.effects, refl))
created_on-IsLast outer none c (ok (inner, d, false)) f h = absurd (f inner d refl refl)

-- Whether a call was accepted; an error is no refusal.
abbrev flag_of : Result (ℕ × Client × Bool) → Bool
flag_of (ok (inner, d, b)) = b
flag_of (err e) = true

true-ne-false : true ≢ false
true-ne-false h = cc

create_inner-accepted :
    (path : List ℕ) (value : Buffer) (acl : List Acl) (flags : ℤ) (trailing include_data : Bool)
    (c : Client)
    → refusal c.state ≡ none
    → flag_of (create_inner path value acl flags trailing include_data c) ≡ true
unfolding create_inner
create_inner-accepted path value acl flags trailing include_data c k =
    elim (Result-cases (prefix_root c.chroot path trailing)) [
      | inl (full, p) ↦
          rw p (call-accepted _ c.next_async (record c { next_async = c.next_async + 1 }) k)
      | inr (e, p) ↦ rw p refl
    ]

-- `create_async` never leaves its caller without an answer to come: where no call waits for the
-- server, because the path was not accepted or the state refuses calls, the object that it returns
-- is set to an exception.
pub create_async-IsLast :
    (path : List ℕ) (value : Buffer) (acl : List Acl) (ephemeral sequence include_data : Bool)
    (c : Client)
    → (create_async path value acl ephemeral sequence include_data c).1 ≡ none
    → (e : Exn) × IsLast
        (completed c.next_async (exception e))
        (create_async path value acl ephemeral sequence include_data c).2.effects
unfolding create_async
create_async-IsLast path value acl ephemeral sequence include_data c h =
    let c' = record c { next_async = c.next_async + 1 } in
    created_on-IsLast c.next_async (refusal c.state) c'
      (create_inner path value acl (create_flags ephemeral sequence) sequence include_data c')
      (λ inner d q k. true-ne-false (
        sym (
          create_inner-accepted path value acl (create_flags ephemeral sequence) sequence
            include_data c' k)
        ∙ ap flag_of q))
      h
