-- ===== src/Keywords/Order.antt =====
-- The comparison of keywords.
use Prim.Native.Nat.{Ordering}
use xmltp.Prelude.{◌≡◌, refl, [], ◌∷◌, arith}
use xmltp.Bytes.{Bytes}
use xmltp.Keywords.{compare_bytes}

pub eq-of-compare_bytes : (a b : Bytes) → compare_bytes a b ≡ Ordering.eq → a ≡ b
unfolding compare_bytes
eq-of-compare_bytes [] [] h = refl
eq-of-compare_bytes [] (b ∷ bs) h = cc
eq-of-compare_bytes (a ∷ as') [] h = cc
eq-of-compare_bytes (a ∷ as') (b ∷ bs) h = ground (arith, eq-of-compare_bytes as' bs)

pub compare_bytes_self : (a : Bytes) → compare_bytes a a ≡ Ordering.eq
unfolding compare_bytes
compare_bytes_self [] = refl
compare_bytes_self (a ∷ as') = ground (arith, compare_bytes_self as')
