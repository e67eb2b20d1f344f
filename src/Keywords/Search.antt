-- ===== src/Keywords/Search.antt =====
-- `sf_get_keyword_val` of src/xmltp/xmltp_lex.c against a search from the front of the table.
use Prim.Native.Nat.{Ordering}
use xmltp.Prelude.{
  ℕ, zero, suc, ◌+◌, ◌-◌, ◌/◌, ◌≤◌, ◌<◌, ◌≡◌, ◌≢◌, refl, ◌∙◌, Option, none, some, ◌⊎◌, inl, inr,
  List, [], ◌∷◌, arith, ltb, length, get_elem?, Bool-cases, Option-cases, All, ℤ, pos,
}
use mathlib.Core.Path.{subst}
use xmltp.Bytes.{Bytes, c_string}
use xmltp.Tags.{
  Element, attr, date, int, isnull, name, num, proc, str, sz, start, finish, tag_name, end_tag_name,
  tag_xmlversion_and_encoding, xmlversion_and_encoding,
}
use xmltp.Keywords.{
  value_follows_is_name, value_follows_is_attrib, value_follows_is_strval, value_follows_is_intval,
  value_follows_is_size, Keyword, keywords_tab, lower, compare_bytes, strcasecmp,
  check_keywords_table, search_keyword, get_keyword_val,
}
use xmltp.Keywords.Order.{eq-of-compare_bytes}

-- The first entry that the text spells, upper and lower case alike.
pub find_keyword : List Keyword → Bytes → Option Keyword
find_keyword [] s = none
find_keyword (k ∷ ks) s = elim (strcasecmp s k.keyword) [
  | Ordering.eq ↦ some k
  | _ ↦ find_keyword ks s
]

-- The table is in the order that the search needs: `sf_check_keywords_table` accepts it.
pub keywords_tab-sorted : check_keywords_table keywords_tab ≡ none
unfolding check_keywords_table strcasecmp compare_bytes lower c_string
keywords_tab-sorted = refl

-- Every entry is found under its own keyword.
FindsSelf : Keyword → Type 0
FindsSelf k = get_keyword_val k.keyword ≡ some (some k)

finds_selves : All FindsSelf keywords_tab
unfolding FindsSelf get_keyword_val search_keyword strcasecmp compare_bytes lower c_string
finds_selves = assumption (refl, tt)

-- The search sees a text only through its lower case.
search_keyword-lower :
    (fuel : ℕ) (s t : Bytes) (lo hi : ℕ)
    → lower (c_string s) ≡ lower (c_string t)
    → search_keyword fuel s lo hi ≡ search_keyword fuel t lo hi
unfolding search_keyword strcasecmp
search_keyword-lower zero s t lo hi e = refl
search_keyword-lower (suc fuel) s t lo hi e = ground (
  arith,
  search_keyword-lower fuel s t lo ((lo + (hi - 1)) / 2) e,
  search_keyword-lower fuel s t (((lo + (hi - 1)) / 2) + 1) hi e,
)

-- The search ends, and an entry that it returns is one of the table that the text spells.
Sound : Bytes → Option (Option Keyword) → Type 0
Sound s none = ⊥
Sound s (some none) = Unit
Sound s (some (some k)) =
    (i : ℕ) × (get_elem? keywords_tab i ≡ some k) × (strcasecmp s k.keyword ≡ Ordering.eq)

Ordering-cases : (o : Ordering) → (o ≡ Ordering.eq) ⊎ (o ≡ Ordering.lt) ⊎ (o ≡ Ordering.gt)
Ordering-cases Ordering.lt = inr (inl refl)
Ordering-cases Ordering.eq = inl refl
Ordering-cases Ordering.gt = inr (inr refl)

search_keyword-Sound :
    (fuel : ℕ) (s : Bytes) (lo hi : ℕ)
    → lo ≤ hi
    → hi < lo + fuel
    → Sound s (search_keyword fuel s lo hi)
unfolding Sound search_keyword
search_keyword-Sound zero s lo hi le h = absurd (omega arith)
search_keyword-Sound (suc fuel) s lo hi le h = elim (Bool-cases (ltb lo hi)) [
  | inr stop ↦ rw (stop, search_keyword) tt
  | inl go ↦ elim (Option-cases (get_elem? keywords_tab ((lo + (hi - 1)) / 2))) [
    | inl out ↦ rw (go, out, search_keyword) tt
    | inr (k, at) ↦ elim (Ordering-cases (strcasecmp s k.keyword)) [
      | inl e ↦ rw (go, at, e, search_keyword) ((lo + (hi - 1)) / 2, at, e)
      | inr (inl e) ↦
          rw (go, at, e, search_keyword)
            (search_keyword-Sound fuel s lo ((lo + (hi - 1)) / 2) (ground arith) (ground arith))
      | inr (inr e) ↦
          rw (go, at, e, search_keyword)
            (search_keyword-Sound fuel s ((lo + (hi - 1)) / 2 + 1) hi (ground arith) (ground arith))
    ]
  ]
]

strcasecmp-lower :
    (s t : Bytes) → strcasecmp s t ≡ Ordering.eq → lower (c_string s) ≡ lower (c_string t)
unfolding strcasecmp
strcasecmp-lower s t h = eq-of-compare_bytes (lower (c_string s)) (lower (c_string t)) h

-- What `find_keyword` finds is spelled by the text, and has a property that all entries have.
find_keyword-found :
    (P : Keyword → Type 0) (ks : List Keyword) (s : Bytes) (k : Keyword)
    → All P ks
    → find_keyword ks s ≡ some k
    → P k × (strcasecmp s k.keyword ≡ Ordering.eq)
unfolding find_keyword
find_keyword-found P [] s k a h = cc
find_keyword-found P (j ∷ ks) s k a h = elim (Ordering-cases (strcasecmp s j.keyword)) [
  | inl e ↦
      let q : some j ≡ some k = rw (e, find_keyword) at h in
      let j_is_k : j ≡ k = cc in
      subst (λ x. P x × (strcasecmp s x.keyword ≡ Ordering.eq)) j_is_k (a.0, e)
  | inr (inl e) ↦ find_keyword-found P ks s k a.1 (rw (e, find_keyword) at h)
  | inr (inr e) ↦ find_keyword-found P ks s k a.1 (rw (e, find_keyword) at h)
]

find_keyword-none :
    (ks : List Keyword) (s : Bytes) (i : ℕ) (k : Keyword)
    → find_keyword ks s ≡ none
    → get_elem? ks i ≡ some k
    → strcasecmp s k.keyword ≢ Ordering.eq
unfolding find_keyword
find_keyword-none [] s i k h g e = cc
find_keyword-none (j ∷ ks) s zero k h g e = ground arith
find_keyword-none (j ∷ ks) s (suc i) k h g e = ground (arith, find_keyword-none ks s i k)

found-of-Sound :
    (s : Bytes) (r : Option (Option Keyword))
    → Sound s r
    → find_keyword keywords_tab s ≡ none
    → r ≡ some none
unfolding Sound
found-of-Sound s none c h = absurd c
found-of-Sound s (some none) c h = refl
found-of-Sound s (some (some k)) (i, g, e) h = absurd (find_keyword-none keywords_tab s i k h g e)

get_keyword_val-Sound : (s : Bytes) → Sound s (get_keyword_val s)
unfolding get_keyword_val
get_keyword_val-Sound s =
    search_keyword-Sound (suc (length keywords_tab)) s 0 (length keywords_tab) (omega arith)
      (omega arith)

get_keyword_val-lower :
    (s t : Bytes) → lower (c_string s) ≡ lower (c_string t) → get_keyword_val s ≡ get_keyword_val t
unfolding get_keyword_val
get_keyword_val-lower s t e =
    search_keyword-lower (suc (length keywords_tab)) s t 0 (length keywords_tab) e

-- The binary search of `sf_get_keyword_val` ends within its rounds, and on every text it returns
-- what a search from the front of the table returns: the entry whose keyword the text spells up
-- to case, or none where no keyword is spelled.
pub get_keyword_val-find : (s : Bytes) → get_keyword_val s ≡ some (find_keyword keywords_tab s)
unfolding FindsSelf
get_keyword_val-find s = elim (Option-cases (find_keyword keywords_tab s)) [
  | inl e ↦ rw e (found-of-Sound s (get_keyword_val s) (get_keyword_val-Sound s) e)
  | inr (k, e) ↦
      let f = find_keyword-found FindsSelf keywords_tab s k finds_selves e in
      rw e (get_keyword_val-lower s k.keyword (strcasecmp-lower s k.keyword f.1) ∙ f.0)
]

-- The kind of value that follows each start tag.
abbrev pub kind_of : Element → ℤ
kind_of attr = value_follows_is_attrib
kind_of isnull = value_follows_is_attrib
kind_of date = value_follows_is_strval
kind_of num = value_follows_is_strval
kind_of str = value_follows_is_strval
kind_of int = value_follows_is_intval
kind_of name = value_follows_is_name
kind_of proc = value_follows_is_name
kind_of sz = value_follows_is_size
kind_of _ = pos 0

pub find_keyword-start :
    (e : Element)
    → find_keyword keywords_tab (tag_name e)
      ≡ some (record { token_val = start e; keyword = tag_name e; b_value_follows = kind_of e })
unfolding find_keyword strcasecmp compare_bytes lower c_string
find_keyword-start attr = refl
find_keyword-start _ = refl

pub find_keyword-finish :
    (e : Element)
    → find_keyword keywords_tab (end_tag_name e)
      ≡ some (record { token_val = finish e; keyword = end_tag_name e; b_value_follows = pos 0 })
unfolding find_keyword strcasecmp compare_bytes lower c_string
find_keyword-finish attr = refl
find_keyword-finish _ = refl

pub find_keyword-header :
    find_keyword keywords_tab tag_xmlversion_and_encoding
    ≡ some (record {
      token_val = xmlversion_and_encoding;
      keyword = tag_xmlversion_and_encoding;
      b_value_follows = pos 0;
    })
unfolding find_keyword strcasecmp compare_bytes lower c_string
find_keyword-header = refl
