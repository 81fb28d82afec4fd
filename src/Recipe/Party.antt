-- ===== src/Recipe/Party.antt =====
-- kazoo/recipe/party.py.
pub mod Members
use kazoo.Base.{
  ℕ, suc, List, [], ◌∷◌, ◌++◌, Option, none, some, Bool, true, false, Exn, Result, ok, err, length,
  if◌then◌else◌, ◌==◌, drop,
}
use kazoo.Protocol.Records.{ZnodeStat}
use kazoo.Python.Text.{codes, starts_with}
use kazoo.Python.Utf8.{decode}
use kazoo.Recipe.{
  Zookeeper, M, pure, raise, on_world, handled, catch, retry, bind, ◌>>=◌, ◌>>◌, self, update,
  is_no_node, is_node_exists,
}

pub record PartyState : Type 0 where
  pub path : List ℕ
  pub member : List ℕ
  pub create_path : List ℕ
  pub ensured_path : Bool
  pub participating : Bool

abbrev pub party_name : List ℕ
party_name = codes "__party__"

-- `identity` is the identifier in UTF-8; `hex` is `uuid.uuid4().hex`.
unfoldable pub new_party : List ℕ → List ℕ → List ℕ → PartyState
new_party path identity hex = record {
  path = path;
  member = identity;
  create_path = path ++ (codes "/" ++ (hex ++ party_name));
  ensured_path = false;
  participating = false;
}

-- "-".join([hex, identifier])
abbrev pub shallow_node : List ℕ → List ℕ → List ℕ
shallow_node hex identifier = hex ++ (codes "-" ++ identifier)

unfoldable pub new_shallow_party : List ℕ → List ℕ → List ℕ → List ℕ → PartyState
new_shallow_party path identity identifier hex = record {
  path = path;
  member = identity;
  create_path = path ++ (codes "/" ++ shallow_node hex identifier);
  ensured_path = false;
  participating = false;
}

-- pattern in s
unfoldable pub has_part : List ℕ → List ℕ → Bool
unfolding starts_with
has_part p [] = starts_with p []
has_part p (c ∷ s) = if starts_with p (c ∷ s) then true else has_part p s

abbrev pub named : List (List ℕ) → List (List ℕ)
named [] = []
named (c ∷ cs) = let rest = named cs in if has_part party_name c then c ∷ rest else rest

-- s[s.find("-") + 1:]: the whole text if there is no dash.
unfoldable pub behind_dash : List ℕ → Option (List ℕ)
behind_dash [] = none
behind_dash (c ∷ s) = let rest = behind_dash s in if c == b'-' then some s else rest

abbrev pub or_whole : Option (List ℕ) → List ℕ → List ℕ
or_whole none s = s
or_whole (some t) s = t

unfoldable pub identifier_of : List ℕ → List ℕ
unfolding behind_dash
identifier_of child = or_whole (behind_dash child) child

abbrev pub identifiers : List (List ℕ) → List (List ℕ)
identifiers [] = []
identifiers (child ∷ cs) = identifier_of child ∷ identifiers cs

module _ (zk : Zookeeper) where
  open zk use {World}

  abbrev pub PartyM : Type 0 → Type 0
  PartyM A = M World PartyState A

  abbrev pub ensure_unless : Bool → PartyM (Unit {0})
  ensure_unless true = pure tt
  ensure_unless false = do
    p ← self
    there ← on_world (λ w. zk.ensure_path w p.path)
    update (λ p'. record p' { ensured_path = true })

  unfoldable pub ensure_parent : PartyM (Unit {0})
  ensure_parent = do p ← self; ensure_unless p.ensured_path

  -- except NodeExistsError: the node was already created
  abbrev pub joined_if : Bool → Exn → PartyM (Unit {0})
  joined_if true e = update (λ p. record p { participating = true })
  joined_if false e = raise e

  abbrev pub create_own : PartyM (Unit {0})
  create_own = do
    p ← self
    made ← on_world (λ w. zk.create w p.create_path p.member true false)
    update (λ p'. record p' { participating = true })

  unfoldable pub inner_join : PartyM (Unit {0})
  inner_join = do ensure_parent; catch create_own (λ e. joined_if (is_node_exists e) e)

  unfoldable pub join : ℕ → PartyM (Unit {0})
  join fuel = retry zk.pause fuel inner_join

  abbrev pub missing_if : Bool → Exn → PartyM Bool
  missing_if true e = pure false
  missing_if false e = raise e

  unfoldable pub inner_leave : PartyM Bool
  inner_leave = do
    p ← self
    catch (on_world (λ w. zk.delete w p.create_path) >>= λ _. pure true)
        (λ e. missing_if (is_no_node e) e)

  unfoldable pub leave : ℕ → PartyM Bool
  leave fuel = do update (λ p. record p { participating = false }); retry zk.pause fuel inner_leave

  abbrev pub children : ℕ → PartyM (List (List ℕ))
  children fuel = do p ← self; retry zk.pause fuel (on_world (λ w. zk.get_children w p.path))

  -- `__len__`: `Party` counts its own nodes only.
  unfoldable pub size : ℕ → PartyM ℕ
  size fuel = do ensure_parent; names ← children fuel; pure (length (named names))

  unfoldable pub shallow_size : ℕ → PartyM ℕ
  shallow_size fuel = do ensure_parent; names ← children fuel; pure (length names)

  -- `__iter__` of `Party`: the data of the nodes that are still there.
  abbrev pub data_then :
      PartyM (List (List ℕ))
      → (PartyState × World) × Result (List ℕ × ZnodeStat)
      → (PartyState × World) × Result (List (List ℕ))
  data_then rest (s, ok (bytes, stat)) =
      bind (λ text. rest >>= λ texts. pure (text ∷ texts)) (s, decode bytes)
  data_then rest (s, err e) = if is_no_node e then rest s else (s, err e)

  unfoldable pub data_of : ℕ → List (List ℕ) → PartyM (List (List ℕ))
  data_of fuel [] = pure []
  data_of fuel (name ∷ names) =
      let rest = data_of fuel names in
      λ s.
        data_then rest
          (retry zk.pause fuel (on_world (λ w. zk.get w (s.0.path ++ (codes "/" ++ name)))) s)

  unfoldable pub members : ℕ → PartyM (List (List ℕ))
  members fuel = do ensure_parent; names ← children fuel; data_of fuel (named names)

  -- `__iter__` of `ShallowParty`.
  unfoldable pub shallow_members : ℕ → PartyM (List (List ℕ))
  shallow_members fuel = do ensure_parent; names ← children fuel; pure (identifiers names)
