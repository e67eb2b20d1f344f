-- ===== src/Tags.antt =====
-- src/xmltp/xmltp_tags.h and src/xmltp/xmltp_eot.h: the tags of XMLTP/L.
-- The tokens are those of src/xmltp/xmltp_gram.y; `start e` is the token that it spells like the
-- element, `PARAM`, and `finish e` the one with the prefix, `END_PARAM`. Their numbers are chosen
-- by Bison, and all are positive.
use xmltp.Prelude.{◌++◌}
use xmltp.Bytes.{Bytes, codes}

pub data Element : Type 0 where
  attr col colnames date int isnull msg msglist : Element
  name num outparams param proc proccall response resultset : Element
  resultsetslist returnstatus row rows str nbrows totalrows sz : Element

pub data Token : Type 0 where
  xmlversion_and_encoding eot strval : Token
  start finish : Element → Token

-- XMLTP_TAG_ATTR and so on.
abbrev pub tag_name : Element → Bytes
tag_name attr = codes "attr"
tag_name col = codes "col"
tag_name colnames = codes "colnames"
tag_name date = codes "date"
tag_name int = codes "int"
tag_name isnull = codes "isnull"
tag_name msg = codes "msg"
tag_name msglist = codes "msglist"
tag_name name = codes "name"
tag_name num = codes "num"
tag_name outparams = codes "outparams"
tag_name param = codes "param"
tag_name proc = codes "proc"
tag_name proccall = codes "proccall"
tag_name response = codes "response"
tag_name resultset = codes "resultset"
tag_name resultsetslist = codes "resultsetslist"
tag_name returnstatus = codes "returnstatus"
tag_name row = codes "row"
tag_name rows = codes "rows"
tag_name str = codes "str"
tag_name nbrows = codes "nbrows"
tag_name totalrows = codes "totalrows"
tag_name sz = codes "sz"

-- XMLTP_TAG_END_ATTR and so on.
abbrev pub end_tag_name : Element → Bytes
end_tag_name e = codes "/" ++ tag_name e

abbrev pub tag_xmlversion_and_encoding : Bytes
tag_xmlversion_and_encoding = codes "?xml version=\"1.0\" encoding=\"ISO-8859-1\" ?"

abbrev pub tag_eot : Bytes
tag_eot = codes "EOT/"

-- XMLTP_EOT_TAG
abbrev pub eot_tag : Bytes
eot_tag = codes "<EOT/>"
