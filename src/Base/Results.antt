-- ===== src/Base/Results.antt =====
-- Code that may raise: a result, and the exceptions that the modelled code raises.
use mathlib.Core.Path.{◌≡◌, refl}
use mathlib.Core.Logic.{◌⊎◌, inl, inr}
use mathlib.Core.List.{List, ◌++◌}
use kazoo.Exceptions.{ZookeeperError}

-- `out_of_fuel` is no Python value: the loop of a model ran out of rounds.
-- `zookeeper_error e` is a class with a server's error code.
pub data Exn : Type 0 where
  struct_error : Exn
  unicode_error : Exn
  value_error : Exn
  runtime_error : Exn
  connection_closed : Exn
  connection_dropped : Exn
  configuration_error : Exn
  attribute_error : Exn
  index_error : Exn
  type_error : Exn
  timeout_error : Exn
  force_retry_error : Exn
  retry_failed_error : Exn
  interrupted_error : Exn
  cancelled_error : Exn
  lock_timeout : Exn
  kazoo_exception : Exn
  out_of_fuel : Exn
  zookeeper_error : ZookeeperError → Exn

pub data Result {ℓ} (A : Type ℓ) : Type ℓ where
  ok : A → Result A
  err : Exn → Result A

infixl 5 ◌>>=◌
abbrev pub ◌>>=◌ {ℓ κ} : {X : Type ℓ} {Y : Type κ} → Result X → (X → Result Y) → Result Y
ok x >>= k = k x
err z >>= k = err z

pub Result-cases {ℓ} :
    {A : Type ℓ} (r : Result A) → ((a : A) × (r ≡ ok a)) ⊎ ((e : Exn) × (r ≡ err e))
Result-cases (ok a) = inl (a, refl)
Result-cases (err e) = inr (e, refl)

-- Inversion of a successful bind, for proofs where the parts stay shut.
pub >>=-eq-ok {ℓ κ} :
    {X : Type ℓ} {Y : Type κ} (r : Result X) (k : X → Result Y) {y : Y}
    → (r >>= k) ≡ ok y
    → (x : X) × (r ≡ ok x) × (k x ≡ ok y)
>>=-eq-ok (ok x) k e = (x, refl, e)
>>=-eq-ok (err z) k e = cc

-- Byte strings one after the other, each of which may fail to be made.
infixr 60 ◌<>◌
abbrev pub ◌<>◌ {ℓ} : {A : Type ℓ} → Result (List A) → Result (List A) → Result (List A)
m <> n = m >>= λ xs. n >>= λ ys. ok (xs ++ ys)

pub <>-eq-ok {ℓ} :
    {A : Type ℓ} (m n : Result (List A)) {zs : List A}
    → (m <> n) ≡ ok zs
    → (xs ys : List A) × (m ≡ ok xs) × (n ≡ ok ys) × (zs ≡ xs ++ ys)
<>-eq-ok (ok xs) (ok ys) h = (xs, ys, refl, refl, cc)
<>-eq-ok (ok xs) (err e) h = cc
<>-eq-ok (err e) n h = cc
