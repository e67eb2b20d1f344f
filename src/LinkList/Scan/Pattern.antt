-- ===== src/LinkList/Scan/Pattern.antt =====
-- The patterns of `lkls_is_string_in_list_ext` of src/misc_fn/linklist.c.
use xmltp.Prelude.{
  ℕ, suc, ◌-◌, ◌≡◌, refl, ap, ◌∙◌, [], ◌∷◌, arith, length, Bool, true, false, ◌&&◌, if◌then◌else◌,
  ltb, ◌==◌, get_or,
}
use xmltp.Bytes.{Bytes, NoNul, c_string_whole, strcmp_eq, strncmp_eq}
use xmltp.LinkList.Scan.{matches}

abbrev pub equal : Bytes → Bytes → Bool
equal [] [] = true
equal [] (b ∷ bs) = false
equal (a ∷ as') [] = false
equal (a ∷ as') (b ∷ bs) = if a == b then equal as' bs else false

abbrev pub ends_in_star : Bytes → Bool
ends_in_star [] = false
ends_in_star (c ∷ []) = c == b'*'
ends_in_star (c ∷ d ∷ p) = ends_in_star (d ∷ p)

-- All bytes of the pattern but the last one begin the string.
abbrev pub begins : Bytes → Bytes → Bool
begins [] s = true
begins (a ∷ []) s = true
begins (a ∷ b ∷ p) [] = false
begins (a ∷ b ∷ p) (c ∷ s) = if a == c then begins (b ∷ p) s else false

-- A pattern that ends in `*` stands for the strings that begin with the rest of it.
abbrev pub accepts : Bool → Bytes → Bytes → Bool
accepts pattern p s = if pattern && ends_in_star p then begins p s else equal p s

strcmp_eq-equal : (p s : Bytes) → NoNul p → NoNul s → strcmp_eq p s ≡ equal p s
unfolding strcmp_eq
strcmp_eq-equal [] [] hp hs = refl
strcmp_eq-equal [] (b ∷ s) hp hs = ground arith
strcmp_eq-equal (a ∷ p) [] hp hs = ground arith
strcmp_eq-equal (a ∷ p) (b ∷ s) hp hs = let rest = strcmp_eq-equal p s hp.1 hs.1 in ground arith

strncmp_eq-begins : (p s : Bytes) → NoNul p → NoNul s → strncmp_eq p s (length p - 1) ≡ begins p s
unfolding strncmp_eq
strncmp_eq-begins [] s hp hs = refl
strncmp_eq-begins (a ∷ []) s hp hs = refl
strncmp_eq-begins (a ∷ b ∷ p) [] hp hs = ground arith
strncmp_eq-begins (a ∷ b ∷ p) (c ∷ s) hp hs =
    let rest = strncmp_eq-begins (b ∷ p) s hp.1 hs.1 in ground arith

ends_in_star-last :
    (c : ℕ) (p : Bytes) → (get_or (c ∷ p) (length p) 0 == b'*') ≡ ends_in_star (c ∷ p)
ends_in_star-last c [] = refl
ends_in_star-last c (d ∷ p) = ends_in_star-last d p

suc_sub : (n : ℕ) → suc n - 1 ≡ n
suc_sub n = omega arith

ltb-suc : (n : ℕ) → ltb 0 (suc n) ≡ true
ltb-suc n = ground arith

ends_in_star-test :
    (p : Bytes) → (ltb 0 (length p) && get_or p (length p - 1) 0 == b'*') ≡ ends_in_star p
ends_in_star-test [] = refl
ends_in_star-test (c ∷ p) =
    ap (λ b. b && get_or (c ∷ p) (suc (length p) - 1) 0 == b'*') (ltb-suc (length p))
    ∙ ap (λ n. get_or (c ∷ p) n 0 == b'*') (suc_sub (length p))
    ∙ ends_in_star-last c p

matches-whole :
    (pattern : Bool) (p s : Bytes)
    → NoNul p
    → matches pattern p s ≡ (
        if pattern && (ltb 0 (length p) && get_or p (length p - 1) 0 == b'*')
        then strncmp_eq p s (length p - 1)
        else strcmp_eq p s)
unfolding matches
matches-whole pattern p s hp =
    ap
      (λ q.
        if pattern && (ltb 0 (length q) && get_or p (length q - 1) 0 == b'*')
        then strncmp_eq p s (length q - 1)
        else strcmp_eq p s)
      (c_string_whole p hp)

pub matches-accepts :
    (pattern : Bool) (p s : Bytes) → NoNul p → NoNul s → matches pattern p s ≡ accepts pattern p s
matches-accepts pattern p s hp hs =
    matches-whole pattern p s hp
    ∙ ap (λ t. if pattern && t then strncmp_eq p s (length p - 1) else strcmp_eq p s)
        (ends_in_star-test p)
    ∙ ap (λ t. if pattern && ends_in_star p then t else strcmp_eq p s) (strncmp_eq-begins p s hp hs)
    ∙ ap (λ t. if pattern && ends_in_star p then begins p s else t) (strcmp_eq-equal p s hp hs)
