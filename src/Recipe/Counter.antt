-- ===== src/Recipe/Counter.antt =====
-- kazoo/recipe/counter.py, for any type of numbers: `Numeric` is what the code uses of `type(default)`
-- and of `struct` for it.
pub mod Change
use kazoo.Base.{
  ℕ, List, [], ◌∷◌, Option, none, some, Bool, true, false, Exn, Result, ok, err, zookeeper_error,
  force_retry_error, type_error, if◌then◌else◌, ◌&&◌, not,
}
use kazoo.Base.Int.{ℤ}
use kazoo.Exceptions.{bad_version_error}
use kazoo.Protocol.Records.{ZnodeStat}
use kazoo.Recipe.{
  Zookeeper, M, pure, raise, on_world, handled, catch, retry, bind, ◌>>=◌, ◌>>◌, self, update,
}

-- `repr(n).encode("ascii")` and `type(bytes.decode("ascii"))`, `struct.pack(">i", n)` and its inverse.
pub record Numeric : Type 1 where
  pub Number : Type 0
  pub add : Number → Number → Number
  pub negate : Number → Number
  pub is_int : Bool
  pub repr : Number → List ℕ
  pub parse : List ℕ → Result Number
  pub pack : Number → Result (List ℕ)
  pub unpack : List ℕ → Result Number

module _ (num : Numeric) where
  open num use {Number}

  pub record CounterState : Type 0 where
    pub path : List ℕ
    pub default : Number
    pub support_curator : Bool
    pub ensured_path : Bool
    pub pre_value : Option Number
    pub post_value : Option Number

  unfoldable pub new_counter : List ℕ → Number → Bool → Result CounterState
  new_counter path default support_curator =
      if support_curator && not num.is_int
      then err type_error
      else ok (record {
        path = path;
        default = default;
        support_curator = support_curator;
        ensured_path = false;
        pre_value = none;
        post_value = none;
      })

  unfoldable pub decode_with : Bool → Number → List ℕ → Result Number
  decode_with curator default [] = ok default
  decode_with curator default (b ∷ bs) = if curator then num.unpack (b ∷ bs) else num.parse (b ∷ bs)

  unfoldable pub encode_with : Bool → Number → Result (List ℕ)
  encode_with curator n = if curator then num.pack n else ok (num.repr n)

  abbrev pub decoded : CounterState → List ℕ → Result Number
  decoded c bytes = decode_with c.support_curator c.default bytes

  abbrev pub encoded : CounterState → Number → Result (List ℕ)
  encoded c n = encode_with c.support_curator n

-- except BadVersionError
abbrev pub is_bad_version : Exn → Bool
is_bad_version (zookeeper_error bad_version_error) = true
is_bad_version _ = false

module _ (zk : Zookeeper) (num : Numeric) where
  open zk use {World}
  open num use {Number}

  abbrev pub CounterM : Type 0 → Type 0
  CounterM A = M World (CounterState num) A

  abbrev pub ensure_unless : Bool → CounterM (Unit {0})
  ensure_unless true = pure tt
  ensure_unless false = do
    c ← self
    there ← on_world (λ w. zk.ensure_path w c.path)
    update (λ c'. record c' { ensured_path = true })

  -- `_value` behind `_ensure_node`: the number and the version.
  abbrev pub get_value : CounterM (Number × ℤ)
  get_value = do
    c ← self
    found ← on_world (λ w. zk.get w c.path)
    n ← (λ s. (s, decoded num c found.0))
    pure (n, found.1.version)

  unfoldable pub value : CounterM (Number × ℤ)
  value = do c ← self; ensure_unless c.ensured_path; get_value

  abbrev pub retry_if : Bool → Exn → CounterM (Unit {0})
  retry_if true e = do update (λ c. record c { post_value = none }); raise force_retry_error
  retry_if false e = raise e

  -- What `_inner_change` does behind `_value`.
  abbrev pub change_from : Number → Number × ℤ → CounterM (Unit {0})
  change_from by (pre, version) = do
    update (λ c. record c { pre_value = some pre })
    c ← self
    bytes ← (λ s. (s, encoded num c (num.add pre by)))
    catch (on_world (λ w. zk.set w c.path bytes (some version)))
        (λ e. retry_if (is_bad_version e) e)
    update (λ c'. record c' { post_value = some (num.add pre by) })

  unfoldable pub inner_change : Number → CounterM (Unit {0})
  inner_change by = value >>= change_from by

  unfoldable pub change : ℕ → Number → CounterM (Unit {0})
  change fuel by = retry zk.pause fuel (inner_change by)

  -- `__add__` and `__sub__`.
  unfoldable pub add : ℕ → Number → CounterM (Unit {0})
  add = change

  unfoldable pub sub : ℕ → Number → CounterM (Unit {0})
  sub fuel by = change fuel (num.negate by)
