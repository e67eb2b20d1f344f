-- ===== src/Keywords.antt =====
-- src/xmltp/xmltp_keyw.h and the keyword search of src/xmltp/xmltp_lex.c.
pub mod Order
pub mod Search
mod Tests
use Prim.Native.Nat.{compare, Ordering}
use xmltp.Prelude.{
  ℕ, zero, suc, ◌+◌, ◌-◌, ◌/◌, Bool, true, false, ◌&&◌, Option, none, some, List, [], ◌∷◌, ℤ, pos,
  neg, leb, ltb, if◌then◌else◌, length, get_elem?, take, ◌++◌,
}
use xmltp.Bytes.{Bytes, codes, c_string, decimal}
use xmltp.Tags.{
  Element, attr, col, colnames, date, int, isnull, msg, msglist, name, num, outparams, param, proc,
  proccall, response, resultset, resultsetslist, returnstatus, row, rows, str, nbrows, totalrows,
  sz, Token, xmlversion_and_encoding, start, finish, tag_name, end_tag_name,
  tag_xmlversion_and_encoding,
}

-- The VALUE_FOLLOWS_ constants of src/xmltp/xmltp_ctx.h.
abbrev pub value_follows_is_name : ℤ
value_follows_is_name = pos 1

abbrev pub value_follows_is_attrib : ℤ
value_follows_is_attrib = pos 2

abbrev pub value_follows_is_strval : ℤ
value_follows_is_strval = pos 3

abbrev pub value_follows_is_intval : ℤ
value_follows_is_intval = pos 4

abbrev pub value_follows_is_size : ℤ
value_follows_is_size = pos 5

abbrev pub value_follows_has_ended : ℤ
value_follows_has_ended = neg 999

pub record Keyword : Type 0 where
  pub token_val : Token
  pub keyword : Bytes
  pub b_value_follows : ℤ

abbrev entry : Token → Bytes → ℤ → Keyword
entry t k v = record { token_val = t; keyword = k; b_value_follows = v }

abbrev ends : Element → Keyword
ends e = entry (finish e) (end_tag_name e) (pos 0)

abbrev begins : Element → ℤ → Keyword
begins e = entry (start e) (tag_name e)

-- `s_keywords_tab`
abbrev pub keywords_tab : List Keyword
keywords_tab =
    ends attr
    ∷ ends col
    ∷ ends colnames
    ∷ ends date
    ∷ ends int
    ∷ ends isnull
    ∷ ends msg
    ∷ ends msglist
    ∷ ends name
    ∷ ends nbrows
    ∷ ends num
    ∷ ends outparams
    ∷ ends param
    ∷ ends proc
    ∷ ends proccall
    ∷ ends response
    ∷ ends resultset
    ∷ ends resultsetslist
    ∷ ends returnstatus
    ∷ ends row
    ∷ ends rows
    ∷ ends str
    ∷ ends sz
    ∷ ends totalrows
    ∷ entry xmlversion_and_encoding tag_xmlversion_and_encoding (pos 0)
    ∷ begins attr value_follows_is_attrib
    ∷ begins col (pos 0)
    ∷ begins colnames (pos 0)
    ∷ begins date value_follows_is_strval
    ∷ begins int value_follows_is_intval
    ∷ begins isnull value_follows_is_attrib
    ∷ begins msg (pos 0)
    ∷ begins msglist (pos 0)
    ∷ begins name value_follows_is_name
    ∷ begins nbrows (pos 0)
    ∷ begins num value_follows_is_strval
    ∷ begins outparams (pos 0)
    ∷ begins param (pos 0)
    ∷ begins proc value_follows_is_name
    ∷ begins proccall (pos 0)
    ∷ begins response (pos 0)
    ∷ begins resultset (pos 0)
    ∷ begins resultsetslist (pos 0)
    ∷ begins returnstatus (pos 0)
    ∷ begins row (pos 0)
    ∷ begins rows (pos 0)
    ∷ begins str value_follows_is_strval
    ∷ begins sz value_follows_is_size
    ∷ begins totalrows (pos 0)
    ∷ []

-- `tolower` in the C locale.
abbrev tolower : ℕ → ℕ
tolower c = if leb b'A' c && leb c b'Z' then c + 32 else c

pub lower : Bytes → Bytes
lower [] = []
lower (c ∷ s) = tolower c ∷ lower s

pub compare_bytes : Bytes → Bytes → Ordering
compare_bytes [] [] = Ordering.eq
compare_bytes [] (b ∷ bs) = Ordering.lt
compare_bytes (a ∷ as') [] = Ordering.gt
compare_bytes (a ∷ as') (b ∷ bs) = elim (compare a b) [
  | Ordering.lt ↦ Ordering.lt
  | Ordering.eq ↦ compare_bytes as' bs
  | Ordering.gt ↦ Ordering.gt
]

-- The sign of `strcasecmp(a, b)`.
pub strcasecmp : Bytes → Bytes → Ordering
strcasecmp a b = compare_bytes (lower (c_string a)) (lower (c_string b))

-- The loop of `sf_check_keywords_table` at `i`, from the entry before it: the message about the
-- first neighbours that are out of order.
pub check_from : ℕ → List Keyword → Option Bytes
check_from i [] = none
check_from i (k ∷ []) = none
check_from i (k ∷ j ∷ rest) = elim (strcasecmp k.keyword j.keyword) [
  | Ordering.gt ↦ some (
      codes "ERROR: keywords table not sorted (in xmltp_keyw.h): "
      ++ (take 30 k.keyword
          ++ (codes " > " ++ (take 30 j.keyword ++ (codes " at " ++ decimal (pos i))))))
  | _ ↦ check_from (i + 1) (j ∷ rest)
]

-- `sf_check_keywords_table`
pub check_keywords_table : List Keyword → Option Bytes
unfolding check_from
check_keywords_table = check_from 1

-- The `while` loop of `sf_get_keyword_val` between `lo` and `hi`, with fuel. The second bound is
-- `hi + 1`, since `hi` may fall to -1. The outer option is `none` when the fuel runs out, and the
-- inner one is `none` for the code -33 of an unknown keyword.
pub search_keyword : ℕ → Bytes → ℕ → ℕ → Option (Option Keyword)
search_keyword zero s lo hi_1 = none
search_keyword (suc fuel) s lo hi_1 = elim (ltb lo hi_1) [
  | false ↦ some none
  | true ↦ elim (get_elem? keywords_tab ((lo + (hi_1 - 1)) / 2)) [
    | none ↦ some none
    | some k ↦ elim (strcasecmp s k.keyword) [
      | Ordering.eq ↦ some (some k)
      | Ordering.lt ↦ search_keyword fuel s lo ((lo + (hi_1 - 1)) / 2)
      | Ordering.gt ↦ search_keyword fuel s (((lo + (hi_1 - 1)) / 2) + 1) hi_1
    ]
  ]
]

-- `sf_get_keyword_val`, with one more round than the table has entries: the entry whose token and
-- `b_value_follows` are returned.
pub get_keyword_val : Bytes → Option (Option Keyword)
get_keyword_val s = search_keyword (suc (length keywords_tab)) s 0 (length keywords_tab)
