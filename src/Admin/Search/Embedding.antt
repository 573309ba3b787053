-- ===== src/Admin/Search/Embedding.antt =====
-- search.go, generateSimpleEmbedding: a vector out of the code points of a text. float32 is a parameter.
use novagate.Base.{
  ℕ, zero, suc, ◌+◌, ◌-◌, ◌*◌, ◌%◌, ◌≡◌, refl, Bool, ◌&&◌, List, [], ◌∷◌, map, length, leb, ltb,
  ◌==◌, arith, if◌then◌else◌, Bool-cases, inl, inr,
}
use novagate.Protocol.Bytes.{Bytes, byte_at}

abbrev pub vector_dim : ℕ
vector_dim = 384

pub record Floats : Type 1 where
  pub F : Type 0
  pub of_ℕ : ℕ → F
  pub add : F → F → F
  pub mul : F → F → F
  pub div : F → F → F
  pub is_positive : F → Bool

abbrev pub is_tail : ℕ → Bool
is_tail b = leb 0x80 b && ltb b 0xC0

-- The code point at the front of a text and its bytes; U+FFFD and one byte where there is none.
unfoldable pub decode_rune : Bytes → ℕ × ℕ
decode_rune s =
    let a = byte_at s 0 in
    let b = byte_at s 1 in
    let c = byte_at s 2 in
    let d = byte_at s 3 in
    let bad : ℕ × ℕ = (0xFFFD, 1) in
    let low = if a == 0xE0 then 0xA0 else if a == 0xF0 then 0x90 else 0x80 in
    let high = if a == 0xED then 0xA0 else if a == 0xF4 then 0x90 else 0xC0 in
    let second = leb low b && ltb b high in
    if ltb a 0x80
    then (a, 1)
    else if ltb a 0xC2
    then bad
    else if ltb a 0xE0
    then (if second then ((a - 0xC0) * 64 + (b - 0x80), 2) else bad)
    else if ltb a 0xF0
    then (if second && is_tail c
        then ((a - 0xE0) * 4096 + (b - 0x80) * 64 + (c - 0x80), 3)
        else bad)
    else if ltb a 0xF5
    then (if second && is_tail c && is_tail d
        then ((a - 0xF0) * 262144 + (b - 0x80) * 4096 + (c - 0x80) * 64 + (d - 0x80), 4)
        else bad)
    else bad

-- `for i, c := range text`: byte offsets and code points, behind the bytes still to skip.
unfoldable pub runes : ℕ → ℕ → Bytes → List (ℕ × ℕ)
unfolding decode_rune
runes i skip [] = []
runes i zero (c ∷ s) = let (r, width) = decode_rune (c ∷ s) in (i, r) ∷ runes (i + 1) (width - 1) s
runes i (suc skip) (c ∷ s) = runes (i + 1) skip s

unfoldable pub replicate {ℓ} : {A : Type ℓ} → ℕ → A → List A
replicate zero x = []
replicate (suc n) x = x ∷ replicate n x

module _ (f : Floats) where
  open f use {F, of_ℕ, add, mul, div, is_positive}

  unfoldable pub add_at : List F → ℕ → F → List F
  add_at [] i x = []
  add_at (v ∷ vs) zero x = add v x ∷ vs
  add_at (v ∷ vs) (suc i) x = v ∷ add_at vs i x

  unfoldable pub accumulate : List F → List (ℕ × ℕ) → List F
  unfolding add_at
  accumulate vs [] = vs
  accumulate vs ((i, c) ∷ rest) =
      accumulate (add_at vs (i % vector_dim) (div (of_ℕ c) (of_ℕ 1000))) rest

  unfoldable pub sum_squares : F → List F → F
  sum_squares acc [] = acc
  sum_squares acc (v ∷ vs) = sum_squares (add acc (mul v v)) vs

  unfoldable pub generate_simple_embedding : Bytes → List F
  unfolding runes replicate accumulate sum_squares
  generate_simple_embedding text =
      let vs = accumulate (replicate vector_dim (of_ℕ 0)) (runes 0 0 text) in
      let norm = div (of_ℕ 1) (of_ℕ (length text)) in
      if is_positive (sum_squares (of_ℕ 0) vs) then map (λ v. mul v norm) vs else vs

  length-add_at : (vs : List F) (i : ℕ) (x : F) → length (add_at vs i x) ≡ length vs
  unfolding add_at
  length-add_at [] i x = refl
  length-add_at (v ∷ vs) zero x = refl
  length-add_at (v ∷ vs) (suc i) x = omega (arith, length-add_at vs i x)

  length-accumulate : (vs : List F) (rs : List (ℕ × ℕ)) → length (accumulate vs rs) ≡ length vs
  unfolding accumulate
  length-accumulate vs [] = refl
  length-accumulate vs ((i, c) ∷ rest) =
      let vs' = add_at vs (i % vector_dim) (div (of_ℕ c) (of_ℕ 1000)) in
      omega (
        arith,
        length-accumulate vs' rest,
        length-add_at vs (i % vector_dim) (div (of_ℕ c) (of_ℕ 1000)),
      )

length-replicate {ℓ} : {A : Type ℓ} (n : ℕ) (x : A) → length (replicate n x) ≡ n
unfolding replicate
length-replicate zero x = refl
length-replicate (suc n) x = omega (arith, length-replicate n x)

length-map {ℓ κ} :
    {A : Type ℓ} {B : Type κ} (g : A → B) (xs : List A) → length (map g xs) ≡ length xs
length-map g [] = refl
length-map g (x ∷ xs) = omega (arith, length-map g xs)

-- Every embedding has as many components as the collections' vectors have dimensions.
pub length-generate_simple_embedding :
    (f : Floats) (text : Bytes) → length (generate_simple_embedding f text) ≡ vector_dim
unfolding generate_simple_embedding
length-generate_simple_embedding f text =
    let zeros = replicate vector_dim (f.of_ℕ 0) in
    let vs = accumulate f zeros (runes 0 0 text) in
    let norm = f.div (f.of_ℕ 1) (f.of_ℕ (length text)) in
    let n : length vs ≡ vector_dim =
      omega (
        arith,
        length-accumulate f zeros (runes 0 0 text),
        length-replicate vector_dim (f.of_ℕ 0),
      ) in
    elim (Bool-cases (f.is_positive (sum_squares f (f.of_ℕ 0) vs))) [
      | inl yes_positive ↦
          rw yes_positive (omega (arith, length-map (λ (v : f.F). f.mul v norm) vs))
      | inr not_positive ↦ rw not_positive n
    ]
