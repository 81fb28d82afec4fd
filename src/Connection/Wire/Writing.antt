-- ===== src/Connection/Wire/Writing.antt =====
-- What `_write` hands to the socket.
use kazoo.Base.{
  ℕ, zero, suc, List, [], ◌∷◌, ◌++◌, ◌≡◌, refl, ap, sym, ◌∙◌, append_assoc, Result, ok, take, drop,
}
use kazoo.Connection.Wire.{Sending, accepts, not_writable, want_again, broken, write, sent_first}

take-drop : (n : ℕ) (bs : List ℕ) → take n bs ++ drop n bs ≡ bs
take-drop zero bs = refl
take-drop (suc n) [] = refl
take-drop (suc n) (b ∷ bs) = ap (λ l. b ∷ l) (take-drop n bs)

-- What is written is a start of the message, and all of it where `_write` returns.
abbrev pub Writes : List ℕ → List ℕ × Result (List Sending) → Type 0
Writes bs w = (rest : List ℕ) × (bs ≡ w.0 ++ rest) × ((ss : List Sending) → w.1 ≡ ok ss → rest ≡ [])

Writes-sent_first :
    (b : ℕ) (k : ℕ) (bs : List ℕ) (w : List ℕ × Result (List Sending))
    → Writes (drop k bs) w
    → Writes (b ∷ bs) (sent_first (b ∷ take k bs) w)
Writes-sent_first b k bs w h = (
  h.0,
  ap (λ l. b ∷ l)
      (sym (take-drop k bs)
        ∙ ap (λ l. take k bs ++ l) h.1
        ∙ sym (append_assoc (take k bs) w.0 h.0)),
  h.2,
)

-- However little the socket takes at a time, what `_write` hands to it is a start of the message, in
-- order and without repetition, and is the whole message where `_write` returns without an exception.
pub write_lem : (bs : List ℕ) (ss : List Sending) → Writes bs (write bs ss)
unfolding write
write_lem [] ss = ([], refl, λ _ _. refl)
write_lem (b ∷ bs) [] = (b ∷ bs, refl, λ s h. cc)
write_lem (b ∷ bs) (not_writable ∷ ss) = (b ∷ bs, refl, λ s h. cc)
write_lem (b ∷ bs) (want_again ∷ ss) = write_lem (b ∷ bs) ss
write_lem (b ∷ bs) (broken ∷ ss) = (b ∷ bs, refl, λ s h. cc)
write_lem (b ∷ bs) (accepts zero ∷ ss) = (b ∷ bs, refl, λ s h. cc)
write_lem (b ∷ bs) (accepts (suc k) ∷ ss) =
    Writes-sent_first b k bs (write (drop k bs) ss) (write_lem (drop k bs) ss)
