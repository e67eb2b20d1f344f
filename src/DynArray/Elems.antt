-- ===== src/DynArray/Elems.antt =====
-- The elements of an array of src/dynarray/dynarray.c, as they stand in its memory.
use xmltp.Prelude.{
  ℕ, zero, suc, ◌+◌, ◌*◌, ◌≤◌, ◌≡◌, refl, sym, ap, ap₂, ◌<◌, ◌∙◌, List, [], ◌∷◌, ◌++◌, append_assoc,
  arith, some, get_elem?, length, take, drop, length-drop, length-append, length-take, take-append,
}
use xmltp.Bytes.{Bytes}
use xmltp.DynArray.{DynArray, memcpy}

-- `n` elements of `size` bytes each.
abbrev pub chunks : ℕ → ℕ → Bytes → List Bytes
chunks zero size memory = []
chunks (suc n) size memory = take size memory ∷ chunks n size (drop size memory)

abbrev pub elements : DynArray → List Bytes
elements d = chunks d.ctr_used d.sizeof_element d.p_allocated_array

pub suc_mul : (n size : ℕ) → suc n * size ≡ size + n * size
suc_mul n size = omega arith

zero_mul : (size : ℕ) → 0 ≡ 0 * size
zero_mul size = omega arith

pub mul_mono : (n m size : ℕ) → n ≤ m → n * size ≤ m * size
mul_mono zero m size h = omega arith
mul_mono (suc n) zero size h = absurd (omega arith)
mul_mono (suc n) (suc m) size h =
    omega (arith, suc_mul n size, suc_mul m size, mul_mono n m size (omega arith))

pub take-append_le : (n : ℕ) (xs ys : Bytes) → n ≤ length xs → take n (xs ++ ys) ≡ take n xs
take-append_le zero xs ys h = refl
take-append_le (suc n) [] ys h = absurd (omega arith)
take-append_le (suc n) (x ∷ xs) ys h = ap (λ t. x ∷ t) (take-append_le n xs ys (omega arith))

pub drop-append_le : (n : ℕ) (xs ys : Bytes) → n ≤ length xs → drop n (xs ++ ys) ≡ drop n xs ++ ys
drop-append_le zero xs ys h = refl
drop-append_le (suc n) [] ys h = absurd (omega arith)
drop-append_le (suc n) (x ∷ xs) ys h = drop-append_le n xs ys (omega arith)

take-take : (a k : ℕ) (xs : Bytes) → a ≤ k → take a (take k xs) ≡ take a xs
take-take zero k xs h = refl
take-take (suc a) zero xs h = absurd (omega arith)
take-take (suc a) (suc k) [] h = refl
take-take (suc a) (suc k) (x ∷ xs) h = ap (λ t. x ∷ t) (take-take a k xs (omega arith))

take-nil : (b : ℕ) → take {A = ℕ} b [] ≡ []
take-nil zero = refl
take-nil (suc b) = refl

drop-nil : (b : ℕ) → drop {A = ℕ} b [] ≡ []
drop-nil zero = refl
drop-nil (suc b) = refl

drop-take : (a b k : ℕ) (xs : Bytes) → k ≡ a + b → drop a (take k xs) ≡ take b (drop a xs)
drop-take zero b k xs e = ap (λ n. take n xs) (omega arith)
drop-take (suc a) b zero xs e = absurd (omega arith)
drop-take (suc a) b (suc k) [] e = sym (take-nil b)
drop-take (suc a) b (suc k) (x ∷ xs) e = drop-take a b k xs (omega arith)

drop_sum : (a b k : ℕ) (xs : Bytes) → k ≡ a + b → drop k xs ≡ drop b (drop a xs)
drop_sum zero b k xs e = ap (λ n. drop n xs) (omega arith)
drop_sum (suc a) b zero xs e = absurd (omega arith)
drop_sum (suc a) b (suc k) [] e = sym (drop-nil b)
drop_sum (suc a) b (suc k) (x ∷ xs) e = drop_sum a b k xs (omega arith)

-- More memory behind the elements changes none.
pub chunks-append :
    (n size : ℕ) (memory more : Bytes)
    → n * size ≤ length memory
    → chunks n size (memory ++ more) ≡ chunks n size memory
chunks-append zero size memory more h = refl
chunks-append (suc n) size memory more h =
    let l : size ≤ length memory = omega (arith, suc_mul n size) in
    ap₂ (λ x xs. x ∷ xs) (take-append_le size memory more l)
      (ap (chunks n size) (drop-append_le size memory more l)
        ∙ chunks-append n size (drop size memory) more
            (omega (arith, suc_mul n size, length-drop size memory)))

-- The elements stand in the first bytes.
pub chunks-take :
    (n size : ℕ) (memory : Bytes) → chunks n size (take (n * size) memory) ≡ chunks n size memory
chunks-take zero size memory = refl
chunks-take (suc n) size memory =
    let e = suc_mul n size in
    ap₂ (λ x xs. x ∷ xs) (take-take size (suc n * size) memory (omega (arith, e)))
      (ap (chunks n size) (drop-take size (n * size) (suc n * size) memory e)
        ∙ chunks-take n size (drop size memory))

-- One element more behind `n` elements that fill the first part.
pub chunks-snoc :
    (n size : ℕ) (front elem rest : Bytes)
    → length front ≡ n * size
    → length elem ≡ size
    → chunks (suc n) size ((front ++ elem) ++ rest) ≡ chunks n size front ++ elem ∷ []
chunks-snoc zero size [] elem rest h l =
    ap (λ k. take k (elem ++ rest) ∷ []) (sym l) ∙ ap (λ t. t ∷ []) (take-append elem rest)
chunks-snoc zero size (x ∷ front) elem rest h l = absurd (omega arith)
chunks-snoc (suc n) size front elem rest h l =
    let le : size ≤ length front = omega (arith, suc_mul n size) in
    let e = append_assoc front elem rest in
    ap₂ (λ x xs. x ∷ xs) (ap (take size) e ∙ take-append_le size front (elem ++ rest) le)
      (ap (chunks (suc n) size) (
          ap (drop size) e
          ∙ drop-append_le size front (elem ++ rest) le
          ∙ sym (append_assoc (drop size front) elem rest))
        ∙ chunks-snoc n size (drop size front) elem rest
            (omega (arith, suc_mul n size, length-drop size front)) l)

-- The element at an index is the bytes from its offset on.
pub get_elem?-chunks :
    (n size i : ℕ) (memory : Bytes)
    → i < n
    → get_elem? (chunks n size memory) i ≡ some (take size (drop (i * size) memory))
get_elem?-chunks zero size i memory h = absurd (omega arith)
get_elem?-chunks (suc n) size zero memory h =
    ap (λ k. some (take size (drop k memory))) (zero_mul size)
get_elem?-chunks (suc n) size (suc i) memory h =
    get_elem?-chunks n size i (drop size memory) (omega arith)
    ∙ ap (λ t. some (take size t))
        (sym (drop_sum size (i * size) (suc i * size) memory (suc_mul i size)))

pub length-chunks : (n size : ℕ) (memory : Bytes) → length (chunks n size memory) ≡ n
length-chunks zero size memory = refl
length-chunks (suc n) size memory = ap suc (length-chunks n size (drop size memory))

-- A write of one element behind `n`.
pub chunks-memcpy :
    (n size : ℕ) (memory elem : Bytes)
    → suc n * size ≤ length memory
    → length elem ≡ size
    → chunks (suc n) size (memcpy memory (n * size) elem) ≡ chunks n size memory ++ elem ∷ []
chunks-memcpy n size memory elem h l =
    chunks-snoc n size (take (n * size) memory) elem _
      (omega (arith, length-take (n * size) memory, suc_mul n size)) l
    ∙ ap (λ t. t ++ elem ∷ []) (chunks-take n size memory)

pub length-memcpy :
    (memory elem : Bytes) (at : ℕ)
    → at + length elem ≤ length memory
    → length (memcpy memory at elem) ≡ length memory
length-memcpy memory elem at h =
    length-append (take at memory ++ elem) (drop (at + length elem) memory)
    ∙ omega (
      arith,
      length-append (take at memory) elem,
      length-take at memory,
      length-drop (at + length elem) memory,
    )
