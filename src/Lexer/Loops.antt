-- ===== src/Lexer/Loops.antt =====
-- The loops of `sf_match_tag` and `sf_get_value` of src/xmltp/xmltp_lex.c.
use xmltp.Prelude.{
  ℕ, zero, suc, ◌+◌, ◌-◌, ◌<◌, ◌≡◌, ◌≢◌, Bool, true, false, not, ◌&&◌, Option, some, [], ◌∷◌, ◌++◌,
  append-nil, append_assoc, arith, pos, leb, ◌==◌, length, length-append, All,
}
use xmltp.Bytes.{Bytes}
use xmltp.Ctx.{InputState, Context, max_one_string}
use xmltp.Ctx.Recv.{get_input_char}
use xmltp.Ctx.Input.{IsReady, IsValid, pending, get_input_char-Delivers}
use xmltp.Lexer.{
  Scan, check_room, put_char, tag_round, tag_loop, value_round, value_loop, tag_truncated,
  value_truncated,
}

abbrev scan : Context → Bytes → Scan
scan c buf = record { ctx = some c; buf = buf; trunc = false }

abbrev with_input : Context → InputState → Context
with_input c i = record c { input = i }

-- What a loop leaves, where it has read `text` and its delimiter: the text behind what the buffer
-- held, the rest of the stream, and nothing else changed.
abbrev pub ReadsText : Context → Bytes → Bytes → Bytes → Option (Bool × Scan) → Type 0
ReadsText c buf text rest r =
    (i : InputState) × (r ≡ some (true, scan (with_input c i) (buf ++ text)))
    × IsReady i
    × (pending i ≡ rest)

put_char-room :
    (c : Context) (msg buf : Bytes) (b : ℕ)
    → length buf < max_one_string - 1
    → put_char (check_room msg (scan c buf)) b ≡ scan c (buf ++ b ∷ [])
unfolding put_char check_room
put_char-room c msg buf b h =
    let e : leb (max_one_string - 1) (length buf) ≡ false = ground arith in rw e

-- The next byte, as an equation about the call.
pub delivers_cons :
    (c : Context) (b : ℕ) (rest : Bytes)
    → IsValid c
    → pending c.input ≡ b ∷ rest
    → (i : InputState) × (get_input_char (some c) ≡ (pos b, some (with_input c i)))
      × IsReady i
      × (pending i ≡ rest)
delivers_cons c b rest v p = rw p at (get_input_char-Delivers c v)

pub tag_loop-ReadsText :
    (text rest : Bytes) (fuel : ℕ) (c : Context) (buf : Bytes)
    → IsValid c
    → pending c.input ≡ text ++ b'>' ∷ rest
    → All (λ b. b ≢ b'>') text
    → length buf + length text < max_one_string
    → length text < fuel
    → ReadsText c buf text rest (tag_loop fuel (scan c buf))
unfolding tag_loop tag_round
tag_loop-ReadsText text rest zero c buf v p a l f = absurd (omega arith)
tag_loop-ReadsText [] rest (suc fuel) c buf v p a l f =
    let (i, e, r, q) = delivers_cons c b'>' rest v p in (i, rw e (rw append-nil), r, q)
tag_loop-ReadsText (b ∷ text) rest (suc fuel) c buf v p a l f =
    let (i, e, r, q) = delivers_cons c b (text ++ b'>' ∷ rest) v p in
    let n : (b == b'>') ≡ false = ground (arith, a.0) in
    let (i', e', r', q') =
      tag_loop-ReadsText text rest fuel (with_input c i) (buf ++ b ∷ []) (v.0, r) q a.1
        (omega (arith, length-append buf (b ∷ []))) (omega arith) in
    (
      i',
      rw (e, n, tag_round)
          (rw (put_char-room (with_input c i) tag_truncated buf b (omega arith))
            (rw (← append_assoc buf (b ∷ []) text) e')),
      r',
      q',
    )

-- A text in which no `<` stands but behind a backslash; the first argument is the byte before it.
abbrev pub NoDelimiter : ℕ → Bytes → Type 0
NoDelimiter prev [] = prev ≢ b'\\'
NoDelimiter prev (b ∷ text) = ((b == b'<' && not (prev == b'\\')) ≡ false) × NoDelimiter b text

pub value_loop-ReadsText :
    (text rest : Bytes) (fuel prev : ℕ) (c : Context) (buf : Bytes)
    → IsValid c
    → pending c.input ≡ text ++ b'<' ∷ rest
    → NoDelimiter prev text
    → length buf + length text < max_one_string
    → length text < fuel
    → ReadsText c buf text rest (value_loop fuel prev (scan c buf))
unfolding value_loop value_round
value_loop-ReadsText text rest zero prev c buf v p a l f = absurd (omega arith)
value_loop-ReadsText [] rest (suc fuel) prev c buf v p a l f =
    let (i, e, r, q) = delivers_cons c b'<' rest v p in
    let n : (prev == b'\\') ≡ false = ground arith in
    (i, rw (e, n, value_round) (rw append-nil), r, q)
value_loop-ReadsText (b ∷ text) rest (suc fuel) prev c buf v p a l f =
    let (i, e, r, q) = delivers_cons c b (text ++ b'<' ∷ rest) v p in
    let (i', e', r', q') =
      value_loop-ReadsText text rest fuel b (with_input c i) (buf ++ b ∷ []) (v.0, r) q a.1
        (omega (arith, length-append buf (b ∷ []))) (omega arith) in
    (
      i',
      rw (e, a.0, value_round)
          (rw (put_char-room (with_input c i) value_truncated buf b (omega arith))
            (rw (← append_assoc buf (b ∷ []) text) e')),
      r',
      q',
    )
