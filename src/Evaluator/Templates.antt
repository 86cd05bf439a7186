-- ===== src/Evaluator/Templates.antt =====
-- convertTemplateDelimiters: `${name}` becomes `{{.name}}`, for the regular expression
-- `\$\{([^}]+)\}`, on a text as its code points.
use orchestrix_api.Common.{
  ℕ, zero, suc, ◌+◌, ◌≡◌, refl, ap, ◌∙◌, ◌≢◌, String, Option, none, some, List, [], ◌∷◌, ◌++◌,
  length, All, arith, if◌then◌else◌, ◌==◌,
}
use Prim.Native.Char.{code}

unfoldable pub codes : String → List ℕ
codes String.[] = []
codes (String.◌∷◌ c s) = code c ∷ codes s

-- A non-empty run of `[^}]` before a `}`; `read` is what has been read of it, and whether there is any.
unfoldable pub up_to_brace : List ℕ → Option (List ℕ)
up_to_brace [] = none
up_to_brace (c ∷ s) =
    if c == b'}'
    then some []
    else (elim (up_to_brace s) [ none ↦ none | some name ↦ some (c ∷ name) ])

abbrev non_empty : Option (List ℕ) → Option (List ℕ)
non_empty (some (c ∷ name)) = some (c ∷ name)
non_empty _ = none

-- The group of a match that starts here, after the `$`.
unfoldable pub variable_after : List ℕ → Option (List ℕ)
unfolding up_to_brace
variable_after [] = none
variable_after (c ∷ s) = if c == b'{' then non_empty (up_to_brace s) else none

abbrev variable_at : ℕ → List ℕ → Option (List ℕ)
unfolding variable_after
variable_at c s = if c == b'$' then variable_after s else none

abbrev opened : List ℕ
opened = b'{' ∷ b'{' ∷ b'.' ∷ []

abbrev closed : List ℕ
closed = b'}' ∷ b'}' ∷ []

-- What a position gives, and the text after it by how much of it to skip.
abbrev emit : ℕ → Option (List ℕ) → (ℕ → List ℕ) → List ℕ
emit c none later = c ∷ later zero
emit c (some name) later = opened ++ name ++ closed ++ later (length name + 2)

-- The text from here on, of which the first `skip` characters belong to the match before.
unfoldable pub convert_from : ℕ → List ℕ → List ℕ
unfolding variable_after
convert_from skip [] = []
convert_from (suc skip) (c ∷ s) = convert_from skip s
convert_from zero (c ∷ s) = emit c (variable_at c s) λ skip. convert_from skip s

unfoldable pub convert_template_delimiters : List ℕ → List ℕ
unfolding convert_from
convert_template_delimiters s = convert_from zero s

abbrev test_text : List ℕ
unfolding codes
test_text = codes "a ${x} $y ${}"

converted_test : convert_template_delimiters test_text ≡ codes "a {{.x}} $y ${}"
unfolding convert_template_delimiters codes
converted_test = refl

-- A template as it is meant: texts without a `$`, and variables.
pub data Piece : Type 0 where
  literal : List ℕ → Piece
  variable : List ℕ → Piece

abbrev pub IsPiece : Piece → Type 0
IsPiece (literal s) = All (λ c. c ≢ b'$') s
IsPiece (variable name) = (name ≢ []) × All (λ c. c ≢ b'}') name

-- The template as it is written in a rule, and as `text/template` wants it.
abbrev pub written : List Piece → List ℕ
written [] = []
written (literal s ∷ ps) = s ++ written ps
written (variable name ∷ ps) = b'$' ∷ b'{' ∷ (name ++ b'}' ∷ written ps)

abbrev pub wanted : List Piece → List ℕ
wanted [] = []
wanted (literal s ∷ ps) = s ++ wanted ps
wanted (variable name ∷ ps) = opened ++ name ++ closed ++ wanted ps

convert_from-literal :
    (s rest : List ℕ)
    → All (λ c. c ≢ b'$') s
    → convert_from zero (s ++ rest) ≡ s ++ convert_from zero rest
unfolding convert_from
convert_from-literal [] rest all = refl
convert_from-literal (c ∷ s) rest (q, all) = ground (arith, convert_from-literal s rest all)

up_to_brace_lem :
    (name rest : List ℕ) → All (λ c. c ≢ b'}') name → up_to_brace (name ++ b'}' ∷ rest) ≡ some name
unfolding up_to_brace
up_to_brace_lem [] rest all = refl
up_to_brace_lem (c ∷ name) rest (q, all) = ground (arith, up_to_brace_lem name rest all)

-- What is skipped after a match is the rest of the match.
convert_from-skip :
    (k : ℕ) (name rest : List ℕ)
    → k ≡ length name + 1
    → convert_from k (name ++ b'}' ∷ rest) ≡ convert_from zero rest
unfolding convert_from
convert_from-skip zero name rest q = absurd (omega arith)
convert_from-skip (suc k) [] rest q =
    let e : k ≡ 0 = omega arith in ap (λ (m : ℕ). convert_from m rest) e
convert_from-skip (suc k) (c ∷ name) rest q = convert_from-skip k name rest (omega arith)

convert_from-variable :
    (name rest : List ℕ)
    → IsPiece (variable name)
    → convert_from zero (b'$' ∷ b'{' ∷ (name ++ b'}' ∷ rest))
      ≡ opened ++ name ++ closed ++ convert_from zero rest
unfolding convert_from variable_after
convert_from-variable [] rest (q, all) = absurd (q refl)
convert_from-variable (c ∷ name) rest (q, all) =
    let e : length (c ∷ name) + 2 ≡ suc (length (c ∷ name) + 1) = omega arith in
    let after : List ℕ = b'{' ∷ ((c ∷ name) ++ b'}' ∷ rest) in
    ap (λ o. emit b'$' (non_empty o) λ skip. convert_from skip after)
      (up_to_brace_lem (c ∷ name) rest all)
    ∙ ap (λ (m : ℕ). opened ++ (c ∷ name) ++ closed ++ convert_from m after) e
    ∙ ap (λ (t : List ℕ). opened ++ (c ∷ name) ++ closed ++ t)
        (convert_from-skip (length (c ∷ name) + 1) (c ∷ name) rest refl)

-- A template of texts without a `$` and of variables, whose names are not empty and have no `}`, is
-- converted to the same texts with each variable in the form of `text/template`.
pub convert_template_delimiters-written :
    (ps : List Piece) → All IsPiece ps → convert_template_delimiters (written ps) ≡ wanted ps
unfolding convert_template_delimiters
convert_template_delimiters-written [] all = refl
convert_template_delimiters-written (literal s ∷ ps) (q, all) =
    convert_from-literal s (written ps) q
    ∙ ap (λ t. s ++ t) (convert_template_delimiters-written ps all)
convert_template_delimiters-written (variable name ∷ ps) (q, all) =
    convert_from-variable name (written ps) q
    ∙ ap (λ t. opened ++ name ++ closed ++ t) (convert_template_delimiters-written ps all)
