-- ===== src/Encoder/Tests.antt =====
-- Runs of the encoder and the decoder, and their theorems at concrete strings.
use xmltp.Prelude.{
  ℕ, ◌+◌, ◌*◌, ◌<◌, ◌≡◌, refl, some, [], ◌∷◌, ◌++◌, arith, if◌then◌else◌, length, replicate,
}
use xmltp.Bytes.{Bytes, codes, c_string, strchr, strncmp_eq}
use xmltp.Encoder.{
  scan, finish_encode, cut_at_max, encode, restore, replace, unescape_loop, finish_decode, decode,
}
use xmltp.Encoder.Spec.{any_escape, escape}
use xmltp.Encoder.Encode.{encode_lem, encode_quotes}
use xmltp.Encoder.Decode.{chosen, decode_total, decode-encode}

abbrev sample : Bytes
sample = codes "ABC&DEF<HIJ>KLM'OPQ\""

run_encode :
    encode (sample ++ 0 ∷ []) ≡ (1, codes "ABC&amp;DEF&lt;HIJ&gt;KLM&apos;OPQ&quot;" ++ 0 ∷ 0 ∷ [])
unfolding encode scan finish_encode cut_at_max c_string
run_encode = refl

run_encode_plain : encode (codes "abc" ++ 0 ∷ []) ≡ (0, [])
unfolding encode scan finish_encode cut_at_max c_string
run_encode_plain = refl

run_decode :
    decode (codes "A&lt BCDE&&&amp;HIJ&K" ++ 0 ∷ []) ≡ some (1, codes "A&lt BCDE&&&HIJ&K" ++ 0 ∷ [])
unfolding decode unescape_loop replace restore finish_decode c_string strchr strncmp_eq
run_decode = refl

encode_lem_example :
    encode (sample ++ 0 ∷ [])
    ≡ (if any_escape sample then (1, escape sample ++ 0 ∷ 0 ∷ []) else (0, []))
encode_lem_example = encode_lem sample (omega arith)

encode_quotes_example :
    (length (encode (replicate 255 b'"' ++ 0 ∷ [])).1 ≡ 6 * 255 + 2)
    × (4 * 255 + 1 < length (encode (replicate 255 b'"' ++ 0 ∷ [])).1)
encode_quotes_example = encode_quotes 255 (omega arith)

decode_total_example : (r : ℕ × Bytes) × (decode (codes "a&b;&&gt;" ++ 0 ∷ []) ≡ some r)
decode_total_example = decode_total (codes "a&b;&&gt;" ++ 0 ∷ [])

decode-encode_example :
    let e = encode (sample ++ 0 ∷ []) in
    let sent = chosen (sample ++ 0 ∷ []) e in
    (r : ℕ × Bytes) × (decode sent ≡ some r) × (r.0 ≡ e.0) × (c_string (chosen sent r) ≡ sample)
decode-encode_example = decode-encode sample (omega arith)
