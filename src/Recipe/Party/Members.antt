-- ===== src/Recipe/Party/Members.antt =====
-- Members of a party.
use kazoo.Base.{ℕ, ◌≡◌, refl, List, [], ◌∷◌, some, false, All, ◌==◌}
use kazoo.Recipe.Party.{identifier_of, behind_dash, shallow_node, identifiers}

-- An identifier is read back from the name of its node, whatever dashes it holds.
identifier_of-node :
    (hex identifier : List ℕ)
    → All (λ c. (c == b'-') ≡ false) hex
    → behind_dash (shallow_node hex identifier) ≡ some identifier
unfolding behind_dash
identifier_of-node [] identifier h = refl
identifier_of-node (c ∷ hex) identifier h = rw (h.0, identifier_of-node hex identifier h.1)

abbrev pub nodes : List (List ℕ × List ℕ) → List (List ℕ)
nodes [] = []
nodes ((hex, identifier) ∷ ms) = shallow_node hex identifier ∷ nodes ms

abbrev pub given : List (List ℕ × List ℕ) → List (List ℕ)
given [] = []
given ((hex, identifier) ∷ ms) = identifier ∷ given ms

-- The members of a shallow party are the identifiers that were given, whatever characters they hold, if
-- no dash is in the generated part of the nodes' names.
pub identifiers-nodes :
    (ms : List (List ℕ × List ℕ))
    → All (λ m. All (λ c. (c == b'-') ≡ false) m.0) ms
    → identifiers (nodes ms) ≡ given ms
unfolding identifier_of
identifiers-nodes [] h = refl
identifiers-nodes ((hex, identifier) ∷ ms) h =
    rw (identifier_of-node hex identifier h.0, identifiers-nodes ms h.1)
