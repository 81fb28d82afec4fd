-- ===== src/Recipe/Rules.antt =====
-- What holds where a method returns a value, and how it follows from its parts.
use mathlib.Core.Path.{subst}
use kazoo.Base.{
  ℕ, zero, suc, ◌≡◌, ◌∙◌, refl, sym, Option, none, some, Bool, true, false, Exn, Result, ok, err,
}
use kazoo.Retry.{is_retryable}
use kazoo.Recipe.{M, on_world, bind, ◌>>=◌, catch, handled, retry, retried, again, retry_if}

module _ {W S A : Type 0} where
  abbrev pub Returns : (S × W → A → Type 0) → (S × W) × Result A → Type 0
  Returns Q (s, ok a) = Q s a
  Returns Q (s, err e) = Unit {0}

  pub Returns-eq :
      (Q : S × W → A → Type 0) (r : (S × W) × Result A) (s : S × W) (a : A)
      → Returns Q r
      → r ≡ (s, ok a)
      → Q s a
  Returns-eq Q r s a h e = subst (Returns Q) e h

  pub Returns-intro :
      (Q : S × W → A → Type 0) (r : (S × W) × Result A)
      → ((s : S × W) (a : A) → r ≡ (s, ok a) → Q s a)
      → Returns Q r
  Returns-intro Q (s, ok a) h = h s a refl
  Returns-intro Q (s, err e) h = tt

  pub Returns-map :
      (P Q : S × W → A → Type 0) (r : (S × W) × Result A)
      → Returns P r
      → ((s : S × W) (a : A) → P s a → Q s a)
      → Returns Q r
  Returns-map P Q (s, ok a) h g = g s a h
  Returns-map P Q (s, err e) h g = tt

  pub Returns-handled :
      (Q : S × W → A → Type 0) (k : Exn → M W S A) (r : (S × W) × Result A)
      → Returns Q r
      → ((e : Exn) (s : S × W) → Returns Q (k e s))
      → Returns Q (handled k r)
  Returns-handled Q k (s, ok a) h g = h
  Returns-handled Q k (s, err e) h g = g e s

  again-Returns :
      (Q : S × W → A → Type 0) (m : M W S A) (s : S) (p : W × Option Exn)
      → ((t : S × W) → Returns Q (m t))
      → Returns Q (again m s p)
  again-Returns Q m s (w, none) h = h (s, w)
  again-Returns Q m s (w, some e) h = tt

  retry_if-Returns :
      (Q : S × W → A → Type 0) (b : Bool) (e : Exn) (pause : W → W × Option Exn) (m : M W S A)
      (s : S × W)
      → ((t : S × W) → Returns Q (m t))
      → Returns Q (retry_if b e pause m s)
  retry_if-Returns Q true e pause m s h = again-Returns Q m s.0 (pause s.1) h
  retry_if-Returns Q false e pause m s h = tt

  retried-Returns :
      (Q : S × W → A → Type 0) (pause : W → W × Option Exn) (m : M W S A) (r : (S × W) × Result A)
      → ((t : S × W) → Returns Q (m t))
      → Returns Q r
      → Returns Q (retried pause m r)
  unfolding retried
  retried-Returns Q pause m (s, ok a) h g = g
  retried-Returns Q pause m (s, err e) h g = retry_if-Returns Q (is_retryable true e) e pause m s h

  -- What every try returns, the call returns.
  pub Returns-retry :
      (Q : S × W → A → Type 0) (pause : W → W × Option Exn) (fuel : ℕ) (m : M W S A)
      → ((t : S × W) → Returns Q (m t))
      → (s : S × W) → Returns Q (retry pause fuel m s)
  unfolding retry
  Returns-retry Q pause zero m h s = tt
  Returns-retry Q pause (suc fuel) m h s =
      retried-Returns Q pause (retry pause fuel m) (m s) (Returns-retry Q pause fuel m h) (h s)

module _ {W S A B : Type 0} where
  pub Returns-bind :
      (P : S × W → A → Type 0) (Q : S × W → B → Type 0) (k : A → M W S B) (r : (S × W) × Result A)
      → Returns P r
      → ((s : S × W) (a : A) → P s a → Returns Q (k a s))
      → Returns Q (bind k r)
  Returns-bind P Q k (s, ok a) h g = g s a h
  Returns-bind P Q k (s, err e) h g = tt

  pub Returns-then :
      (Q : S × W → B → Type 0) (k : A → M W S B) (r : (S × W) × Result A)
      → ((s : S × W) (a : A) → Returns Q (k a s))
      → Returns Q (bind k r)
  Returns-then Q k (s, ok a) h = h s a
  Returns-then Q k (s, err e) h = tt

-- A call gave an answer.
abbrev pub Answered : {W A : Type 0} → (W → W × Result A) → A → Type 0
Answered {W} f a = (w : W) × ((f w).1 ≡ ok a)

-- An operation of the client that is tried again leaves the object alone, and one try gave the answer.
module _ {W S A : Type 0} (f : W → W × Result A) where
  abbrev pub Kept : S → S × W → A → Type 0
  Kept s t a = (t.0 ≡ s) × Answered f a

  pub Returns-on_world : (s : S) (w : W) → Returns (Kept s) (on_world f (s, w))
  Returns-on_world s w = go (f w).1 refl
    where
      go : (r : Result A) → (f w).1 ≡ r → Returns (Kept s) ((s, (f w).0), r)
      go (ok a) e = (refl, (w, e))
      go (err z) e = tt

  module _ (pause : W → W × Option Exn) (s : S) where
    again-Kept :
        (m : M W S A) (p : W × Option Exn)
        → ((w : W) → Returns (Kept s) (m (s, w)))
        → Returns (Kept s) (again m s p)
    again-Kept m (w, none) h = h w
    again-Kept m (w, some e) h = tt

    retry_if-Kept :
        (b : Bool) (e : Exn) (m : M W S A) (w : W)
        → ((w : W) → Returns (Kept s) (m (s, w)))
        → Returns (Kept s) (retry_if b e pause m (s, w))
    retry_if-Kept true e m w h = again-Kept m (pause w) h
    retry_if-Kept false e m w h = tt

    retried-Kept :
        (m : M W S A) (w : W) (r : Result A)
        → ((w : W) → Returns (Kept s) (m (s, w)))
        → Returns (Kept s) ((s, w), r)
        → Returns (Kept s) (retried pause m ((s, w), r))
    unfolding retried
    retried-Kept m w (ok a) h g = g
    retried-Kept m w (err e) h g = retry_if-Kept (is_retryable true e) e m w h

    pub Returns-retry-on_world :
        (fuel : ℕ) (w : W) → Returns (Kept s) (retry pause fuel (on_world f) (s, w))
    unfolding retry
    Returns-retry-on_world zero w = tt
    Returns-retry-on_world (suc fuel) w =
        retried-Kept (retry pause fuel (on_world f)) (f w).0 (f w).1 (Returns-retry-on_world fuel)
          (Returns-on_world s w)

-- Methods that leave the object alone, whether they return or raise.
module _ {W S : Type 0} where
  abbrev pub Same : {A : Type 0} → M W S A → Type 0
  Same m = (s : S × W) → (m s).0.0 ≡ s.0

  bind-Same :
      {A B : Type 0} (q : S) (k : A → M W S B) (r : (S × W) × Result A)
      → r.0.0 ≡ q
      → ((a : A) → Same (k a))
      → (bind k r).0.0 ≡ q
  bind-Same q k (s, ok a) h g = g a s ∙ h
  bind-Same q k (s, err e) h g = h

  pub Same-bind :
      {A B : Type 0} (m : M W S A) (k : A → M W S B)
      → Same m
      → ((a : A) → Same (k a))
      → Same (m >>= k)
  Same-bind m k h g s = bind-Same s.0 k (m s) (h s) g

  handled-Same :
      {A : Type 0} (q : S) (k : Exn → M W S A) (r : (S × W) × Result A)
      → r.0.0 ≡ q
      → ((e : Exn) → Same (k e))
      → (handled k r).0.0 ≡ q
  handled-Same q k (s, ok a) h g = h
  handled-Same q k (s, err e) h g = g e s ∙ h

  pub Same-catch :
      {A : Type 0} (m : M W S A) (k : Exn → M W S A)
      → Same m
      → ((e : Exn) → Same (k e))
      → Same (catch m k)
  Same-catch m k h g s = handled-Same s.0 k (m s) (h s) g

  again-Same :
      {A : Type 0} (q : S) (m : M W S A) (s : S) (p : W × Option Exn)
      → s ≡ q
      → Same m
      → (again m s p).0.0 ≡ q
  again-Same q m s (w, none) h g = g (s, w) ∙ h
  again-Same q m s (w, some e) h g = h

  retry_if-Same :
      {A : Type 0} (q : S) (b : Bool) (e : Exn) (pause : W → W × Option Exn) (m : M W S A)
      (s : S × W)
      → s.0 ≡ q
      → Same m
      → (retry_if b e pause m s).0.0 ≡ q
  retry_if-Same q true e pause m s h g = again-Same q m s.0 (pause s.1) h g
  retry_if-Same q false e pause m s h g = h

  retried-Same :
      {A : Type 0} (q : S) (pause : W → W × Option Exn) (m : M W S A) (r : (S × W) × Result A)
      → r.0.0 ≡ q
      → Same m
      → (retried pause m r).0.0 ≡ q
  unfolding retried
  retried-Same q pause m (s, ok a) h g = h
  retried-Same q pause m (s, err e) h g = retry_if-Same q (is_retryable true e) e pause m s h g

  pub Same-retry :
      {A : Type 0} (pause : W → W × Option Exn) (fuel : ℕ) (m : M W S A)
      → Same m
      → Same (retry pause fuel m)
  unfolding retry
  Same-retry pause zero m h s = refl
  Same-retry pause (suc fuel) m h s =
      retried-Same s.0 pause (retry pause fuel m) (m s) (h s) (Same-retry pause fuel m h)

  same-Returns :
      {A : Type 0} (q : S) (Q : S × W → A → Type 0) (r : (S × W) × Result A)
      → r.0.0 ≡ q
      → Returns Q r
      → Returns (λ t a. (t.0 ≡ q) × Q t a) r
  same-Returns q Q (s, ok a) e h = (e, h)
  same-Returns q Q (s, err z) e h = tt

  pub Returns-Same :
      {A : Type 0} (s : S × W) (Q : S × W → A → Type 0) (m : M W S A)
      → Same m
      → Returns Q (m s)
      → Returns (λ t a. (t.0 ≡ s.0) × Q t a) (m s)
  Returns-Same s Q m same h = same-Returns s.0 Q (m s) (same s) h

-- What holds of the object in the end, whether a method returns or raises.
module _ {W S : Type 0} (P : S → Type 0) where
  pub Keeps-bind :
      {A B : Type 0} (k : A → M W S B) (r : (S × W) × Result A)
      → P r.0.0
      → ((a : A) (s : S × W) → P s.0 → P (k a s).0.0)
      → P (bind k r).0.0
  Keeps-bind k (s, ok a) h g = g a s h
  Keeps-bind k (s, err e) h g = h

  pub Keeps-handled :
      {A : Type 0} (k : Exn → M W S A) (r : (S × W) × Result A)
      → P r.0.0
      → ((e : Exn) (s : S × W) → P s.0 → P (k e s).0.0)
      → P (handled k r).0.0
  Keeps-handled k (s, ok a) h g = h
  Keeps-handled k (s, err e) h g = g e s h

  pub Keeps-Same : {A : Type 0} (m : M W S A) → Same m → (s : S × W) → P s.0 → P (m s).0.0
  Keeps-Same m same s h = subst P (sym (same s)) h
