-- ===== src/Port/Action.antt =====
-- A service method: given the calls so far, its result and the calls after it. What was called
-- before an error stays called.
use orchestrix_api.Common.{String, Bool, true, false, Option, none, some, ◌∷◌}
use orchestrix_api.Fault.{Error, sentinel, Result, ok, err}
use orchestrix_api.Domain.Errors.{DomainError}
use orchestrix_api.Port.Call.{Background, Call, History, read, spawn}

abbrev pub Action : Type 0 → Type 0
Action A = History → Result A × History

abbrev pub continue : {A B : Type 0} → Result A → (A → Action B) → Action B
continue (ok a) f h = f a h
continue (err e) f h = (err e, h)

unfoldable pub pure : {A : Type 0} → A → Action A
pure a h = (ok a, h)

unfoldable pub raise : {A : Type 0} → Error → Action A
raise e h = (err e, h)

-- a value that the history determines, such as a reading of the clock
unfoldable pub gets : {A : Type 0} → (History → A) → Action A
gets f h = (ok (f h), h)

-- a method of an entity: the error that it returns, or the entity that it leaves
unfoldable pub from_domain : {A : Type 0} → Option DomainError × A → Action A
from_domain (none, a) h = (ok a, h)
from_domain (some e, a) h = (err (sentinel e), h)

unfoldable pub check : Option DomainError → Action Unit
check none h = (ok tt, h)
check (some e) h = (err (sentinel e), h)

-- `_ = f()`: the result is dropped, the calls stay
unfoldable pub ignore : {A : Type 0} → Action A → Action Unit
ignore m h = (ok tt, (m h).1)

-- `fmt.Errorf("...: %w", err)` around an error of a call
abbrev pub on_error : {A : Type 0} → (Error → Error) → Result A → Result A
on_error f (ok a) = ok a
on_error f (err e) = err (f e)

unfoldable pub map_error : {A : Type 0} → (Error → Error) → Action A → Action A
map_error f m h = (on_error f (m h).0, (m h).1)

abbrev pub accepted : {A : Type 0} → Result A → Bool
accepted (ok a) = true
accepted (err e) = false

-- a call whose error the caller looks at
unfoldable pub attempt : {A : Type 0} → Action A → Action (Result A)
attempt m h = (ok (m h).0, (m h).1)

-- a call of an adapter that reads
unfoldable pub ask : {A : Type 0} → String → (History → Result A) → Action A
ask what f h = (f h, read what ∷ h)

-- a call of an adapter that writes
unfoldable pub write : {A : Type 0} → (Bool → Call) → (History → Result A) → Action A
write c f h = (f h, c (accepted (f h)) ∷ h)

-- `go f()`: the task is left to the scheduler
unfoldable pub launch : Background → Action Unit
launch task h = (ok tt, spawn task ∷ h)

-- Opening this opens the ways to build an action too.
infixl 5 ◌>>=◌ ◌>>◌
unfoldable pub ◌>>=◌ : {A B : Type 0} → Action A → (A → Action B) → Action B
unfolding pure raise gets from_domain check ignore map_error attempt ask write launch
◌>>=◌ m f h = let (r, h') = m h in continue r f h'

abbrev pub ◌>>◌ : {A B : Type 0} → Action A → Action B → Action B
m >> n = m >>= λ _. n
