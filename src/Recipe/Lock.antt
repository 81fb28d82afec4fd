-- ===== src/Recipe/Lock.antt =====
-- `Lock`, `WriteLock` and `ReadLock` of kazoo/recipe/lock.py: the choice of the predecessor.
pub mod Predecessor
pub mod Acquire
pub mod Names
pub mod Exclusion
use kazoo.Base.{
  ℕ, zero, suc, List, [], ◌∷◌, ◌++◌, Option, none, some, Bool, true, false, Exn, Result, ok, err,
  force_retry_error, map, if◌then◌else◌, ◌==◌, leb, ◌&&◌, ◌||◌, length, drop, list_eq,
}
use kazoo.Python.Text.{codes, starts_with}
use kazoo.Python.Ordered.{text_lt, has_text, sorted, last}

-- The three classes, which differ in `_NODE_NAME` and `_EXCLUDE_NAMES`.
pub data Kind : Type 0 where
  exclusive write read : Kind

abbrev pub lock_name : List ℕ
lock_name = codes "__lock__"

abbrev pub rlock_name : List ℕ
rlock_name = codes "__rlock__"

abbrev pub node_name : Kind → List ℕ
node_name exclusive = lock_name
node_name write = lock_name
node_name read = rlock_name

abbrev pub exclude_names : Kind → List (List ℕ)
exclude_names exclusive = lock_name ∷ []
exclude_names write = lock_name ∷ rlock_name ∷ []
exclude_names read = lock_name ∷ []

-- The fields of a lock but its client; `patterns` is `_exclude_names`.
pub record Lock : Type 0 where
  pub path : List ℕ
  pub patterns : List (List ℕ)
  pub own_name : List ℕ
  pub identity : List ℕ
  pub prefix : List ℕ
  pub node : Option (List ℕ)
  pub create_tried : Bool
  pub is_acquired : Bool
  pub assured_path : Bool
  pub cancelled : Bool

-- `hex` is `uuid.uuid4().hex`, and `identity` the identifier in UTF-8.
unfoldable pub new_lock : Kind → List ℕ → List ℕ → List ℕ → List (List ℕ) → Lock
new_lock kind path identity hex extra = record {
  path = path;
  patterns = exclude_names kind ++ extra;
  own_name = node_name kind;
  identity = identity;
  prefix = hex ++ node_name kind;
  node = none;
  create_tried = false;
  is_acquired = false;
  assured_path = false;
  cancelled = false;
}

abbrev pub slash : List ℕ
slash = codes "/"

abbrev pub create_path : Lock → List ℕ
create_path l = l.path ++ (slash ++ l.prefix)

abbrev pub is_digit : ℕ → Bool
is_digit c = leb b'0' c && leb c b'9'

abbrev pub with_first : ℕ → Option (List ℕ) → Option (List ℕ)
with_first c none = none
with_first c (some g) = some (c ∷ g)

-- `\d{n}$`, the digits: behind them the text ends, or a newline ends it.
unfoldable pub digits_then_end : ℕ → List ℕ → Option (List ℕ)
digits_then_end zero [] = some []
digits_then_end zero (c ∷ []) = if c == 10 then some [] else none
digits_then_end zero (c ∷ d ∷ s) = none
digits_then_end (suc n) [] = none
digits_then_end (suc n) (c ∷ s) =
    let rest = digits_then_end n s in if is_digit c then with_first c rest else none

-- `(-?\d{10})$` at the start of a text, and its group.
unfoldable pub sequence_of : List ℕ → Option (List ℕ)
unfolding digits_then_end
sequence_of [] = none
sequence_of (c ∷ s) =
    if c == b'-' then with_first c (digits_then_end 10 s) else digits_then_end 10 (c ∷ s)

abbrev pub or_else {ℓ} : {A : Type ℓ} → Option A → Option A → Option A
or_else none n = n
or_else (some g) n = some g

-- `(?:patterns)(-?\d{10})$` at the start of a text.
unfoldable pub match_at : List (List ℕ) → List ℕ → Option (List ℕ)
unfolding sequence_of starts_with
match_at [] s = none
match_at (p ∷ ps) s =
    or_else (if starts_with p s then sequence_of (drop (length p) s) else none) (match_at ps s)

-- `_contenders_re.search(s)`: the group of the match that starts first.
unfoldable pub search_in : List (List ℕ) → List ℕ → Option (List ℕ)
unfolding match_at
search_in ps [] = match_at ps []
search_in ps (c ∷ s) = or_else (match_at ps (c ∷ s)) (search_in ps s)

-- A match: its group, and the text.
abbrev pub Match : Type 0
Match = List ℕ × List ℕ

abbrev pub group : Match → List ℕ
group m = m.0

abbrev pub kept_if : (List ℕ → Bool) → Option (List ℕ) → List ℕ → List Match → List Match
kept_if test none child rest = rest
kept_if test (some g) child rest = if test g then (g, child) ∷ rest else rest

-- The children that match, if their group passes a test.
unfoldable pub matches : List (List ℕ) → (List ℕ → Bool) → List (List ℕ) → List Match
matches ps test [] = []
matches ps test (child ∷ cs) = kept_if test (search_in ps child) child (matches ps test cs)

abbrev pub node_sequence : Lock → List ℕ → List ℕ
node_sequence l node = drop (length l.prefix) node

abbrev pub last_of : List Match → Option (List ℕ)
last_of [] = none
last_of (m ∷ ms) = some (last m ms).1

-- `_get_predecessor` behind `get_children`.
unfoldable pub predecessor_of : Lock → List ℕ → List (List ℕ) → Result (Option (List ℕ))
unfolding matches sorted
predecessor_of l node children =
    if has_text node children
    then ok (
        last_of
          (sorted group (matches l.patterns (λ g. text_lt g (node_sequence l node)) children)))
    else err force_retry_error

-- The first child that starts with a prefix.
unfoldable pub starting : List ℕ → List (List ℕ) → Option (List ℕ)
starting prefix [] = none
starting prefix (child ∷ cs) =
    let rest = starting prefix cs in if starts_with prefix child then some child else rest

-- The contenders, in order of their sequence numbers.
unfoldable pub ordered : Lock → List (List ℕ) → List (List ℕ)
unfolding matches sorted
ordered l children =
    map (λ (m : Match). m.1) (sorted group (matches (l.own_name ∷ l.patterns) (λ g. true) children))
