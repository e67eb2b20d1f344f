-- ===== src/Writer/Items.antt =====
-- What src/xmltp/xmltp_writer.c writes, as a list of tags and texts.
use mathlib.Core.Path.{subst}
use xmltp.Prelude.{◌≡◌, refl, sym, ap, ◌∙◌, List, [], ◌∷◌, ◌++◌, append-nil, append_assoc, ℤ}
use xmltp.Bytes.{Bytes, codes, c_string}
use xmltp.Tags.{
  Element, attr, tag_name, end_tag_name, tag_xmlversion_and_encoding, eot_tag, tag_eot,
}
use xmltp.Writer.{Output, put, tag_text}
use xmltp.Writer.Ready.{IsReady, Extends, Extends-trans, stream}
use xmltp.Writer.Buffer.{put-Extends}

pub data Item : Type 0 where
  opening closing : Element → Item
  header end_mark : Item
  text : Bytes → Item

-- The string that is given to `sf_write_string` for an item.
abbrev pub source_text : Item → Bytes
source_text (opening e) = tag_text (tag_name e)
source_text (closing e) = tag_text (end_tag_name e)
source_text header = tag_text tag_xmlversion_and_encoding
source_text end_mark = tag_text tag_eot
source_text (text s) = s

-- The bytes of an item in the stream.
abbrev pub item_bytes : Item → Bytes
item_bytes (opening e) = codes "<" ++ (tag_name e ++ codes ">")
item_bytes (closing e) = codes "<" ++ (end_tag_name e ++ codes ">")
item_bytes header = codes "<" ++ (tag_xmlversion_and_encoding ++ codes ">")
item_bytes end_mark = eot_tag
item_bytes (text s) = c_string s

abbrev pub render : List Item → Bytes
render [] = []
render (i ∷ items) = item_bytes i ++ render items

pub render-append : (xs ys : List Item) → render (xs ++ ys) ≡ render xs ++ render ys
render-append [] ys = refl
render-append (x ∷ xs) ys =
    ap (λ t. item_bytes x ++ t) (render-append xs ys)
    ∙ sym (append_assoc (item_bytes x) (render xs) (render ys))

-- The writes of these items, one after the other.
abbrev pub puts : ℤ → List Item → Output → Output
puts sd [] o = o
puts sd (i ∷ items) o = puts sd items (put sd (source_text i) o)

opening-bytes : (e : Element) → c_string (tag_text (tag_name e)) ≡ item_bytes (opening e)
unfolding c_string
opening-bytes attr = refl
opening-bytes _ = refl

closing-bytes : (e : Element) → c_string (tag_text (end_tag_name e)) ≡ item_bytes (closing e)
unfolding c_string
closing-bytes attr = refl
closing-bytes _ = refl

source_text-item_bytes : (i : Item) → c_string (source_text i) ≡ item_bytes i
unfolding c_string
source_text-item_bytes (opening e) = opening-bytes e
source_text-item_bytes (closing e) = closing-bytes e
source_text-item_bytes header = refl
source_text-item_bytes end_mark = refl
source_text-item_bytes (text s) = refl

pub puts-Extends :
    (sd : ℤ) (items : List Item) (o : Output)
    → IsReady o
    → Extends o (puts sd items o) (render items)
puts-Extends sd [] o h = record { ready = h; delivered = λ c. (c, sym (append-nil (stream o))) }
puts-Extends sd (i ∷ items) o h =
    let o' = put sd (source_text i) o in
    let x = subst (Extends o o') (source_text-item_bytes i) (put-Extends sd (source_text i) o h) in
    Extends-trans o o' (puts sd items o') (item_bytes i) (render items) x
      (puts-Extends sd items o' x.ready)
