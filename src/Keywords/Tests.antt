-- ===== src/Keywords/Tests.antt =====
-- Runs of the keyword search, and its theorem at a concrete text.
use xmltp.Prelude.{◌≡◌, refl, none, some, pos}
use xmltp.Bytes.{codes, c_string}
use xmltp.Tags.{resultset, start}
use xmltp.Keywords.{keywords_tab, lower, compare_bytes, strcasecmp, search_keyword, get_keyword_val}
use xmltp.Keywords.Search.{find_keyword, get_keyword_val-find}

any_case :
    get_keyword_val (codes "ResultSet")
    ≡ some (
        some (record {
          token_val = start resultset;
          keyword = codes "resultset";
          b_value_follows = pos 0;
        }))
unfolding get_keyword_val search_keyword strcasecmp compare_bytes lower c_string
any_case = refl

unknown : get_keyword_val (codes "resultsets") ≡ some none
unfolding get_keyword_val search_keyword strcasecmp compare_bytes lower c_string
unknown = refl

get_keyword_val-find_example :
    get_keyword_val (codes "Param") ≡ some (find_keyword keywords_tab (codes "Param"))
get_keyword_val-find_example = get_keyword_val-find (codes "Param")
