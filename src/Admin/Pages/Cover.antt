-- ===== src/Admin/Pages/Cover.antt =====
-- service.go: the pages of a list cover it, and a page whose start overflows int64 is a panic.
use Prim.Native.Nat.add
use native.Mathlib.Decide.{dec_le}
use native.Mathlib.Nat.{mod-lt, div-add-mod, mul_comm, zero-mul, suc-mul}
use novagate.Base.{
  ℕ, zero, suc, ◌+◌, ◌-◌, ◌*◌, ◌/◌, ◌%◌, ◌^◌, ◌≤◌, ◌<◌, ◌≡◌, refl, sym, ap, ◌∙◌, Option, none, some,
  List, [], ◌∷◌, ◌++◌, length, take, drop, arith, length-drop, drop-length, le→ltb_false,
}
use novagate.Base.Int.{ℤ, pos, negsuc, ◌+ℤ◌, wrap64, pos-+ℤ, wrap64-pos, wrap64_overflows}
use novagate.Protocol.Bytes.{Bytes}
use novagate.Admin.Text.{parse_int}
use novagate.Admin.Pages.{
  capped, slice_ℤ, positive_or, at_most_100, parse_pagination, paginated, total_page,
}

sub-one_suc : (p : ℕ) → suc p - 1 ≡ p
sub-one_suc p = omega arith

module _ {ℓ} {A : Type ℓ} where
  take-all : (n : ℕ) (xs : List A) → length xs ≤ n → take n xs ≡ xs
  take-all zero [] h = refl
  take-all zero (x ∷ xs) h = absurd (omega arith)
  take-all (suc n) [] h = refl
  take-all (suc n) (x ∷ xs) h = ap (λ t. x ∷ t) (take-all n xs (omega arith))

  drop-all : (n : ℕ) (xs : List A) → length xs ≤ n → drop n xs ≡ []
  drop-all zero [] h = refl
  drop-all zero (x ∷ xs) h = absurd (omega arith)
  drop-all (suc n) [] h = refl
  drop-all (suc n) (x ∷ xs) h = drop-all n xs (omega arith)

  take-nil : (n : ℕ) → take {A = A} n [] ≡ []
  take-nil zero = refl
  take-nil (suc n) = refl

  take-add : (m n : ℕ) (xs : List A) → take (m + n) xs ≡ take m xs ++ take n (drop m xs)
  take-add zero n xs = rw (add.zero n)
  take-add (suc m) n [] = take-nil (suc m + n) ∙ sym (take-nil n)
  take-add (suc m) n (x ∷ xs) = rw (add.suc m n) (ap (λ t. x ∷ t) (take-add m n xs))

  slice_within :
      (xs : List A) (i j : ℕ) → i ≤ j → slice_ℤ xs (pos i) (pos j) ≡ some (take (j - i) (drop i xs))
  slice_within xs i j h = rw (le→ltb_false j i h)

capped_within : (x n : ℕ) → x ≤ n → capped (pos x) n ≡ pos x
capped_within x n h = ground arith

capped_above : (x n : ℕ) → n ≤ x → capped (pos x) n ≡ pos n
capped_above x n h = ground arith

capped_negative : (i n : ℕ) → capped (negsuc i) n ≡ negsuc i
capped_negative i n = ground arith

next_start : (i size : ℕ) → i + size < 2 ^ 63 → wrap64 (pos i +ℤ pos size) ≡ pos (i + size)
next_start i size h = rw (pos-+ℤ i size) (wrap64-pos (i + size) h)

module _ {ℓ} {A : Type ℓ} where
  -- The slice that starts at `a`, by int64 arithmetic that does not overflow.
  abbrev slice_from : List A → ℕ → ℕ → Option (List A)
  slice_from xs a size =
      let start = capped (pos a) (length xs) in
      slice_ℤ xs start (capped (wrap64 (start +ℤ pos size)) (length xs))

  slice_lem :
      (xs : List A) (a size : ℕ)
      → a + size < 2 ^ 63
      → length xs + size < 2 ^ 63
      → slice_from xs a size ≡ some (take size (drop a xs))
  slice_lem xs a size h k = elim (dec_le a (length xs)) [
    | yes below ↦ elim (dec_le (a + size) (length xs)) [
      | yes inside ↦
          rw
            (
              capped_within a (length xs) below,
              next_start a size h,
              capped_within (a + size) (length xs) inside,
              slice_within xs a (a + size) (omega arith),
            )
            (ap (λ n. some (take n (drop a xs))) (omega arith))
      | no outside ↦
          rw
            (
              capped_within a (length xs) below,
              next_start a size h,
              capped_above (a + size) (length xs) (omega arith),
              slice_within xs a (length xs) below,
            )
            (ap some (
              take-all (length xs - a) (drop a xs) (omega (arith, length-drop a xs))
              ∙ sym (take-all size (drop a xs) (omega (arith, length-drop a xs)))))
    ]
    | no above ↦
        rw
          (
            capped_above a (length xs) (omega arith),
            next_start (length xs) size k,
            capped_above (length xs + size) (length xs) (omega arith),
            slice_within xs (length xs) (length xs) (omega arith),
            drop-length xs,
            drop-all a xs (omega arith),
          )
          (ap some (take-nil (length xs - length xs) ∙ sym (take-nil size)))
  ]

  pub paginated_lem :
      (xs : List A) (p size : ℕ)
      → p * size + size < 2 ^ 63
      → length xs + size < 2 ^ 63
      → paginated xs (suc p) size ≡ some (take size (drop (p * size) xs))
  unfolding paginated
  paginated_lem xs p size h k =
      rw (sub-one_suc p, wrap64-pos (p * size) (omega arith)) (slice_lem xs (p * size) size h k)

-- Pages 1 to k after each other, none if one of them is a panic.
unfoldable pub all_pages {ℓ} : {A : Type ℓ} → List A → ℕ → ℕ → Option (List A)
all_pages xs size zero = some []
all_pages xs size (suc k) = elim (all_pages xs size k) [
  | none ↦ none
  | some earlier ↦ elim (paginated xs (suc k) size) [
    | none ↦ none
    | some page ↦ some (earlier ++ page)
  ]
]

all_pages_lem {ℓ} :
    {A : Type ℓ} (xs : List A) (size k : ℕ)
    → k * size + size < 2 ^ 63
    → length xs + size < 2 ^ 63
    → all_pages xs size k ≡ some (take (k * size) xs)
unfolding all_pages
all_pages_lem xs size zero h b = rw (zero-mul size)
all_pages_lem xs size (suc k) h b =
    let e : suc k * size ≡ k * size + size = suc-mul k size in
    rw
      (
        all_pages_lem xs size k (omega (arith, e)) b,
        paginated_lem xs k size (omega (arith, e)) b,
        e,
        take-add (k * size) size xs,
      )
      refl

-- So many pages hold every item, and less than one page more.
total_page_bounds :
    (n size : ℕ) → 0 < size → (n ≤ total_page n size * size) × (total_page n size * size < n + size)
unfolding total_page
total_page_bounds n size h =
    let m = n + size - 1 in
    rw (mul_comm (m / size) size) (omega (arith, div-add-mod m size, mod-lt m h))

positive_or-pos : (o : Option ℤ) (d : ℕ) → 0 < d → 0 < positive_or o d
positive_or-pos none d h = h
positive_or-pos (some (pos zero)) d h = h
positive_or-pos (some (pos (suc n))) d h = omega arith
positive_or-pos (some (negsuc n)) d h = h

size_bounds :
    (o : Option ℤ) → (0 < positive_or (at_most_100 o) 50) × (positive_or (at_most_100 o) 50 ≤ 100)
size_bounds none = omega arith
size_bounds (some (pos zero)) = ground arith
size_bounds (some (pos (suc n))) = ground arith
size_bounds (some (negsuc n)) = ground arith

-- Whatever the query says, the size of a page is at least 1 and at most 100, and the pages from the
-- first to the last that is announced, each of them sent without a panic, are together the whole list,
-- in its order, if that has less than 2^62 items.
pub pages_cover {ℓ} :
    {A : Type ℓ} (xs : List A) (page page_size : Bytes)
    → length xs < 2 ^ 62
    → (let size = (parse_pagination page page_size).1 in
        (0 < size) × (size ≤ 100) × (all_pages xs size (total_page (length xs) size) ≡ some xs))
unfolding parse_pagination
pages_cover xs page page_size h =
    let size = positive_or (at_most_100 (parse_int page_size)) 50 in
    let (low, high) = size_bounds (parse_int page_size) in
    let (enough, last) = total_page_bounds (length xs) size low in
    (
      low,
      high,
      all_pages_lem xs size (total_page (length xs) size) (omega arith) (omega arith)
          ∙ ap some (take-all (total_page (length xs) size * size) xs enough),
    )

-- A page whose start, reduced to 64 bits, has its sign bit set is a panic, whatever the list.
pub paginated_overflows {ℓ} :
    {A : Type ℓ} (xs : List A) (p size : ℕ)
    → 2 ^ 63 ≤ (p * size) % 2 ^ 64
    → paginated xs (suc p) size ≡ none
unfolding paginated
paginated_overflows xs p size h =
    rw
      (
        sub-one_suc p,
        wrap64_overflows (p * size) h,
        capped_negative (2 ^ 64 - (p * size) % 2 ^ 64 - 1) (length xs),
      )
      refl
