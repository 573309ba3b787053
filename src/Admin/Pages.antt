-- ===== src/Admin/Pages.antt =====
-- service.go: parsePagination, and the page of a list that ListUsers and ListDocuments send.
pub mod Cover
use novagate.Base.{
  ℕ, zero, suc, ◌+◌, ◌-◌, ◌*◌, ◌/◌, ◌%◌, ◌^◌, ◌≤◌, ◌<◌, ◌≡◌, refl, sym, ap, ◌∙◌, Bool, true, false,
  Option, none, some, List, [], ◌∷◌, ◌++◌, length, take, drop, drop-drop, take-append-drop, ltb,
  leb, ◌==◌, arith, if◌then◌else◌, length-drop, length-take,
}
use novagate.Base.Int.{ℤ, pos, negsuc, ◌+ℤ◌, wrap64, ltb_ℤ, pos-+ℤ, wrap64-pos}
use novagate.Protocol.Bytes.{Bytes}
use novagate.Admin.Text.{parse_int}
use novagate.Admin.Env.{Page}

abbrev pub positive_or : Option ℤ → ℕ → ℕ
positive_or none d = d
positive_or (some (pos zero)) d = d
positive_or (some (pos (suc n))) d = suc n
positive_or (some (negsuc n)) d = d

abbrev pub at_most_100 : Option ℤ → Option ℤ
at_most_100 none = none
at_most_100 (some v) = if ltb_ℤ (pos 100) v then none else some v

-- The query's "page" and "page_size", empty where they are missing.
unfoldable pub parse_pagination : Bytes → Bytes → ℕ × ℕ
parse_pagination page page_size =
    (positive_or (parse_int page) 1, positive_or (at_most_100 (parse_int page_size)) 50)

-- `if x > total { x = total }`
abbrev pub capped : ℤ → ℕ → ℤ
capped x total = if ltb_ℤ (pos total) x then pos total else x

-- xs[start:end]; none is a panic.
abbrev pub slice_ℤ {ℓ} : {A : Type ℓ} → List A → ℤ → ℤ → Option (List A)
slice_ℤ xs (negsuc i) end = none
slice_ℤ xs (pos i) (negsuc j) = none
slice_ℤ xs (pos i) (pos j) = if ltb j i then none else some (take (j - i) (drop i xs))

-- The slice of a page, by int64 arithmetic; the page is at least 1.
unfoldable pub paginated {ℓ} : {A : Type ℓ} → List A → ℕ → ℕ → Option (List A)
paginated xs page page_size =
    let start = capped (wrap64 (pos ((page - 1) * page_size))) (length xs) in
    slice_ℤ xs start (capped (wrap64 (start +ℤ pos page_size)) (length xs))

-- Pages of at least one item.
unfoldable pub total_page : ℕ → ℕ → ℕ
total_page total page_size = (total + page_size - 1) / page_size

unfoldable pub page_of : {A : Type 0} → List A → ℕ × ℕ → Option (Page A)
unfolding paginated total_page
page_of xs (page, page_size) = elim (paginated xs page page_size) [
  | none ↦ none
  | some items ↦ some (record {
    items = items;
    page = page;
    page_size = page_size;
    total = length xs;
    total_page = total_page (length xs) page_size;
  })
]
