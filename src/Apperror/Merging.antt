-- ===== src/Apperror/Merging.antt =====
-- What HandleWithContext adds to the details of an error.
use orchestrix_api.Common.{
  or_else, String, ◌≡◌, ◌≤◌, refl, Option, none, some, List, [], ◌∷◌, str_eq, arith, lookup, insert,
  lookup-insert, lookup-nil, lookup-cons, lookup-absent, entries_of, Bool-cases, inl, inr,
}
use orchestrix_api.Fault.{Detail, Details, Error, AppError, app_error}
use orchestrix_api.Apperror.{
  to_app_error, put_all, add_context, handle, reply, handle_with_context, get_app_error,
  found_or_mapped,
}

abbrev pub detail : String → Details → Option Detail
detail k none = none
detail k (some m) = lookup k m

-- A Go map has one entry to a key.
abbrev pub IsMap : List (String × Detail) → Type 0
IsMap m = (k : String) → entries_of k m ≤ 1

lookup-put_all :
    (k : String) (context m : List (String × Detail))
    → IsMap context
    → lookup k (put_all context m) ≡ or_else (lookup k context) (lookup k m)
unfolding put_all
lookup-put_all k [] m one = ground (arith, lookup-nil {V = Detail} k)
lookup-put_all k ((j, v) ∷ context) m one = elim (Bool-cases (str_eq j k)) [
  | inl same ↦
      let none_later : lookup k context ≡ none = lookup-absent k context (ground (arith, one k)) in
      ground (
        arith,
        lookup-put_all k context (insert j v m) tail,
        lookup-insert j k v m,
        lookup-cons k j v context,
      )
  | inr other ↦ ground (
    arith,
    lookup-put_all k context (insert j v m) tail,
    lookup-insert j k v m,
    lookup-cons k j v context,
  )
]
  where
    tail : IsMap context
    tail i = ground (arith, one i)

-- HandleWithContext answers as Handle does but for the details: under a key of the context there is
-- the context's value, under any other what the error had.
pub handle_with_context_lem :
    (e : Error) (context : List (String × Detail)) (k : String)
    → IsMap context
    → (handle_with_context e context
        ≡ record (handle e) { details = (handle_with_context e context).details })
      × (detail k (handle_with_context e context).details
          ≡ or_else (lookup k context) (detail k (handle e).details))
unfolding handle_with_context handle to_app_error reply get_app_error
handle_with_context_lem e context k one = go (found_or_mapped (get_app_error e) e)
  where
    go :
        (a : AppError)
        → (reply (add_context context a)
            ≡ record (reply a) { details = (reply (add_context context a)).details })
          × (detail k (reply (add_context context a)).details
              ≡ or_else (lookup k context) (detail k (reply a).details))
    go (app_error code message none status c) = (refl, ground arith)
    go (app_error code message (some m) status c) = (refl, lookup-put_all k context m one)
