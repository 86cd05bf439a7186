-- ===== src/Port/After.antt =====
-- What holds after an action, one rule for each way to build an action. A rule gives each branch its
-- case, so a proof about a `do` block follows its lines.
use orchestrix_api.Common.{
  String, ◌≡◌, refl, Bool, true, false, Option, none, some, ◌∷◌, if◌then◌else◌,
}
use orchestrix_api.Fault.{Error, sentinel, Result, ok, err}
use orchestrix_api.Domain.Errors.{DomainError}
use orchestrix_api.Port.Call.{Background, Call, History, read, spawn}
use orchestrix_api.Port.Action.{
  Action, continue, pure, raise, gets, from_domain, check, ignore, map_error, attempt, on_error,
  ask, write, launch, accepted, ◌>>=◌,
}

pub record After {A : Type 0} (Q : Result A → History → Type 0) (m : Action A) (h : History)
    : Type 0 where
  pub at : Q (m h).0 (m h).1

module _ {A : Type 0} {Q : Result A → History → Type 0} where
  pub After-pure : (a : A) (h : History) → Q (ok a) h → After Q (pure a) h
  unfolding pure
  After-pure a h q = record { at = q }

  pub After-raise : (e : Error) (h : History) → Q (err e) h → After Q (raise e) h
  unfolding raise
  After-raise e h q = record { at = q }

  pub After-ask :
      (what : String) (f : History → Result A) (h : History)
      → Q (f h) (read what ∷ h)
      → After Q (ask what f) h
  unfolding ask
  After-ask what f h q = record { at = q }

  pub After-write :
      (c : Bool → Call) (f : History → Result A) (h : History)
      → ((e : Error) → f h ≡ err e → Q (err e) (c false ∷ h))
      → ((a : A) → f h ≡ ok a → Q (ok a) (c true ∷ h))
      → After Q (write c f) h
  unfolding write
  After-write c f h failed returned = record { at = go (f h) failed returned }
    where
      go :
          (r : Result A)
          → ((e : Error) → r ≡ err e → Q (err e) (c false ∷ h))
          → ((a : A) → r ≡ ok a → Q (ok a) (c true ∷ h))
          → Q r (c (accepted r) ∷ h)
      go (ok a) f g = g a refl
      go (err e) f g = f e refl

  pub After-if :
      (b : Bool) (m n : Action A) (h : History)
      → (b ≡ true → After Q m h)
      → (b ≡ false → After Q n h)
      → After Q (if b then m else n) h
  After-if true m n h km kn = km refl
  After-if false m n h km kn = kn refl

module _ {A B : Type 0} {Q : Result B → History → Type 0} where
  continue-After :
      (r : Result A) (k : A → Action B) (h : History)
      → ((e : Error) → r ≡ err e → Q (err e) h)
      → ((a : A) → r ≡ ok a → After Q (k a) h)
      → Q (continue r k h).0 (continue r k h).1
  continue-After (ok a) k h failed returned = (returned a refl).at
  continue-After (err e) k h failed returned = failed e refl

  -- the rule for any first action
  pub After-bind :
      (m : Action A) (k : A → Action B) (h : History)
      → ((e : Error) → (m h).0 ≡ err e → Q (err e) (m h).1)
      → ((a : A) → (m h).0 ≡ ok a → After Q (k a) (m h).1)
      → After Q (m >>= k) h
  unfolding ◌>>=◌
  After-bind m k h failed returned = record {
    at = continue-After (m h).0 k (m h).1 failed returned;
  }

  pub After-gets-bind :
      (f : History → A) (k : A → Action B) (h : History)
      → After Q (k (f h)) h
      → After Q (gets f >>= k) h
  unfolding ◌>>=◌
  After-gets-bind f k h q = record { at = q.at }

  pub After-ask-bind :
      (what : String) (f : History → Result A) (k : A → Action B) (h : History)
      → ((e : Error) → f h ≡ err e → Q (err e) (read what ∷ h))
      → ((a : A) → f h ≡ ok a → After Q (k a) (read what ∷ h))
      → After Q (ask what f >>= k) h
  unfolding ◌>>=◌
  After-ask-bind what f k h failed returned = record {
    at = continue-After (f h) k (read what ∷ h) failed returned;
  }

  pub After-write-bind :
      (c : Bool → Call) (f : History → Result A) (k : A → Action B) (h : History)
      → ((e : Error) → f h ≡ err e → Q (err e) (c false ∷ h))
      → ((a : A) → f h ≡ ok a → After Q (k a) (c true ∷ h))
      → After Q (write c f >>= k) h
  unfolding ◌>>=◌
  After-write-bind c f k h failed returned = record { at = go (f h) failed returned }
    where
      go :
          (r : Result A)
          → ((e : Error) → r ≡ err e → Q (err e) (c false ∷ h))
          → ((a : A) → r ≡ ok a → After Q (k a) (c true ∷ h))
          → Q (continue r k (c (accepted r) ∷ h)).0 (continue r k (c (accepted r) ∷ h)).1
      go (ok a) f g = (g a refl).at
      go (err e) f g = f e refl

  pub After-from_domain-bind :
      (r : Option DomainError × A) (k : A → Action B) (h : History)
      → ((e : DomainError) → r.0 ≡ some e → Q (err (sentinel e)) h)
      → (r.0 ≡ none → After Q (k r.1) h)
      → After Q (from_domain r >>= k) h
  unfolding ◌>>=◌
  After-from_domain-bind (none, a) k h failed returned = record { at = (returned refl).at }
  After-from_domain-bind (some e, a) k h failed returned = record { at = failed e refl }

  -- a write whose error the caller looks at
  pub After-attempt-write-bind :
      (c : Bool → Call) (f : History → Result A) (k : Result A → Action B) (h : History)
      → ((e : Error) → f h ≡ err e → After Q (k (err e)) (c false ∷ h))
      → ((a : A) → f h ≡ ok a → After Q (k (ok a)) (c true ∷ h))
      → After Q (attempt (write c f) >>= k) h
  unfolding ◌>>=◌
  After-attempt-write-bind c f k h failed returned = record { at = go (f h) failed returned }
    where
      go :
          (r : Result A)
          → ((e : Error) → r ≡ err e → After Q (k (err e)) (c false ∷ h))
          → ((a : A) → r ≡ ok a → After Q (k (ok a)) (c true ∷ h))
          → Q (k r (c (accepted r) ∷ h)).0 (k r (c (accepted r) ∷ h)).1
      go (ok a) f g = (g a refl).at
      go (err e) f g = (f e refl).at

  -- a write whose error is wrapped
  pub After-map_error-write-bind :
      (w : Error → Error) (c : Bool → Call) (f : History → Result A) (k : A → Action B)
      (h : History)
      → ((e : Error) → f h ≡ err e → Q (err (w e)) (c false ∷ h))
      → ((a : A) → f h ≡ ok a → After Q (k a) (c true ∷ h))
      → After Q (map_error w (write c f) >>= k) h
  unfolding ◌>>=◌
  After-map_error-write-bind w c f k h failed returned = record { at = go (f h) failed returned }
    where
      go :
          (r : Result A)
          → ((e : Error) → r ≡ err e → Q (err (w e)) (c false ∷ h))
          → ((a : A) → r ≡ ok a → After Q (k a) (c true ∷ h))
          → Q
              (continue (on_error w r) k (c (accepted r) ∷ h)).0
              (continue (on_error w r) k (c (accepted r) ∷ h)).1
      go (ok a) f g = (g a refl).at
      go (err e) f g = f e refl

  -- a write whose result is dropped
  pub After-ignore-write-bind :
      (c : Bool → Call) (f : History → Result A) (k : Unit → Action B) (h : History)
      → ((done : Bool) → After Q (k tt) (c done ∷ h))
      → After Q (ignore (write c f) >>= k) h
  unfolding ◌>>=◌
  After-ignore-write-bind c f k h next = record { at = (next (accepted (f h))).at }

module _ {B : Type 0} {Q : Result B → History → Type 0} where
  pub After-check-bind :
      (o : Option DomainError) (k : Unit → Action B) (h : History)
      → ((e : DomainError) → o ≡ some e → Q (err (sentinel e)) h)
      → (o ≡ none → After Q (k tt) h)
      → After Q (check o >>= k) h
  unfolding ◌>>=◌
  After-check-bind none k h failed returned = record { at = (returned refl).at }
  After-check-bind (some e) k h failed returned = record { at = failed e refl }

  pub After-launch-bind :
      (task : Background) (k : Unit → Action B) (h : History)
      → After Q (k tt) (spawn task ∷ h)
      → After Q (launch task >>= k) h
  unfolding ◌>>=◌
  After-launch-bind task k h q = record { at = q.at }
