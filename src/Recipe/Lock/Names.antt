-- ===== src/Recipe/Lock/Names.antt =====
-- The nodes of locks are found by the patterns of the locks that they exclude.
use kazoo.Base.{
  ℕ, ◌≡◌, refl, List, [], ◌∷◌, ◌++◌, Bool, true, false, none, some, All, arith, ◌==◌, ◌||◌,
}
use kazoo.Python.Ordered.{has_text}
use kazoo.Recipe.Lock.{
  Kind, exclusive, write, read, exclude_names, node_name, search_in, match_at, sequence_of,
  is_digit,
}

-- The names that `create` with `sequence=True` appends, and what `uuid4().hex` holds.
abbrev pub IsSequence : List ℕ → Type 0
IsSequence s = sequence_of s ≡ some s

abbrev pub IsPlain : List ℕ → Type 0
IsPlain hex = All (λ c. (b'_' == c) ≡ false) hex

-- A lock of kind `k` waits for the nodes of kind `other`.
abbrev pub excludes : Kind → Kind → Bool
excludes k other = has_text (node_name other) (exclude_names k)

match_at-plain :
    (k : Kind) (c : ℕ) (s : List ℕ)
    → (b'_' == c) ≡ false
    → match_at (exclude_names k) (c ∷ s) ≡ none
unfolding match_at
match_at-plain exclusive c s h = rw h
match_at-plain write c s h = rw h
match_at-plain read c s h = rw h

search_in-name :
    (k other : Kind) (s : List ℕ)
    → excludes k other ≡ true
    → IsSequence s
    → search_in (exclude_names k) (node_name other ++ s) ≡ some s
unfolding search_in
search_in-name exclusive exclusive s h e = rw e
search_in-name exclusive write s h e = rw e
search_in-name exclusive read s h e = cc
search_in-name write exclusive s h e = rw e
search_in-name write write s h e = rw e
search_in-name write read s h e = rw e
search_in-name read exclusive s h e = rw e
search_in-name read write s h e = rw e
search_in-name read read s h e = cc

pub search_in-node :
    (k other : Kind) (hex s : List ℕ)
    → excludes k other ≡ true
    → IsPlain hex
    → IsSequence s
    → search_in (exclude_names k) (hex ++ (node_name other ++ s)) ≡ some s
unfolding search_in
search_in-node k other [] s h p e = search_in-name k other s h e
search_in-node k other (c ∷ hex) s h p e =
    rw (match_at-plain k c (hex ++ (node_name other ++ s)) p.0)
      (search_in-node k other hex s h p.1 e)

search_in-plain : (s : List ℕ) → IsPlain s → search_in (exclude_names read) s ≡ none
unfolding search_in match_at
search_in-plain [] p = refl
search_in-plain (c ∷ s) p = rw (match_at-plain read c s p.0) (search_in-plain s p.1)

-- What a sequence number holds: digits, and a minus if the server's counter went round.
abbrev pub IsNumeral : List ℕ → Type 0
IsNumeral s = All (λ c. (is_digit c || (c == b'-')) ≡ true) s

numeral_cases :
    (c : ℕ) → (is_digit c || (c == b'-')) ≡ true → ((b'_' == c) ≡ false) × ((b'l' == c) ≡ false)
numeral_cases c h = ground arith

IsNumeral-IsPlain : (s : List ℕ) → IsNumeral s → IsPlain s
IsNumeral-IsPlain [] h = tt
IsNumeral-IsPlain (c ∷ s) h = ((numeral_cases c h.0).0, IsNumeral-IsPlain s h.1)

-- No pattern of a read lock finds the node of another.
pub search_in-rlock :
    (hex s : List ℕ)
    → IsPlain hex
    → IsNumeral s
    → search_in (exclude_names read) (hex ++ (node_name read ++ s)) ≡ none
unfolding search_in
search_in-rlock [] [] p q = refl
search_in-rlock [] (c ∷ s) p q =
    rw ((numeral_cases c q.0).0, (numeral_cases c q.0).1)
      (search_in-plain s (IsNumeral-IsPlain s q.1))
search_in-rlock (c ∷ hex) s p q =
    rw (match_at-plain read c (hex ++ (node_name read ++ s)) p.0) (search_in-rlock hex s p.1 q)
