-- ===== src/Http/Pagination.antt =====
-- internal/adapter/driving/http/workflow.go: parsePagination, and the offset that the services make of
-- its numbers.
use orchestrix_api.Common.{
  ℕ, zero, suc, ◌*◌, ◌^◌, ◌≤◌, ◌<◌, ◌≡◌, refl, ap₂, ◌∙◌, ◌||◌, ℤ, pos, negsuc, ltb_ℤ, ◌≤ℤ◌,
  page_offset, page_offset-small, arith, if◌then◌else◌, pos_part,
}

-- From the two numbers that strconv.Atoi returns, whose errors are dropped.
unfoldable pub parse_pagination : ℤ → ℤ → ℤ × ℤ
parse_pagination page limit = (
  if ltb_ℤ page (pos 1) then pos 1 else page,
  if ltb_ℤ limit (pos 1) || ltb_ℤ (pos 100) limit then pos 20 else limit,
)

-- What the services get is a page from 1 and a limit from 1 to 100, whatever the request says.
pub parse_pagination_lem :
    (page limit : ℤ)
    → (pos 1 ≤ℤ (parse_pagination page limit).0)
      × (pos 1 ≤ℤ (parse_pagination page limit).1)
      × ((parse_pagination page limit).1 ≤ℤ pos 100)
unfolding parse_pagination
parse_pagination_lem page limit = (ground arith, ground arith, ground arith)

mul_le : (n a b : ℕ) → a ≤ b → n * a ≤ n * b
mul_le zero a b le = omega arith
mul_le (suc n) a b le = omega (arith, mul_le n a b le)

positive : (a : ℤ) → pos 1 ≤ℤ a → a ≡ pos (pos_part a)
positive (pos n) le = refl
positive (negsuc n) le = absurd (omega arith)

parse_pagination-kept :
    (page : ℕ) (limit : ℤ) → (parse_pagination (pos (suc page)) limit).0 ≡ pos (suc page)
unfolding parse_pagination
parse_pagination-kept page limit = ground arith

-- The offset that the services ask for is the limit times the pages before, without an overflow, for
-- every page of a request up to 2^63 / 100.
pub page_offset-parse_pagination :
    (page : ℕ) (limit : ℤ)
    → page * 100 < 2 ^ 63
    → page_offset
        (parse_pagination (pos (suc page)) limit).0
        (parse_pagination (pos (suc page)) limit).1
      ≡ pos (page * pos_part (parse_pagination (pos (suc page)) limit).1)
page_offset-parse_pagination page limit fits =
    let l = (parse_pagination (pos (suc page)) limit).1 in
    let bounds = parse_pagination_lem (pos (suc page)) limit in
    let whole = positive l bounds.1 in
    let le : pos_part l ≤ 100 = pos_part_le l bounds.1 bounds.2 in
    let same : (parse_pagination (pos (suc page)) limit).0 ≡ pos (suc page) =
      parse_pagination-kept page limit in
    ap₂ page_offset same whole
    ∙ page_offset-small page (pos_part l) (omega arith)
        (omega (arith, mul_le page (pos_part l) 100 le, fits))
  where
    pos_part_le : (a : ℤ) → pos 1 ≤ℤ a → a ≤ℤ pos 100 → pos_part a ≤ 100
    pos_part_le (pos n) low high = omega arith
    pos_part_le (negsuc n) low high = omega arith
