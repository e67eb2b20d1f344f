-- ===== src/Ctx/Setters.antt =====
-- What the lexer's calls of src/xmltp/xmltp_ctx.c do on a context with a good signature.
use xmltp.Prelude.{◌+◌, ◌≡◌, ◌≢◌, refl, true, false, not, ◌&&◌, some, arith, ℤ, pos, negsuc, eq_ℤ}
use xmltp.Bytes.{Bytes}
use xmltp.Keywords.{value_follows_has_ended}
use xmltp.Ctx.{
  LexerState, Context, TokenVal, ctx_signature, copy_string, check_lexer_value_ended,
  check_lexer_value_follows, assign_lexer_value_follows, assign_lexer_last_known_token, store_value,
  assign_lexer_str_value, ValueBuffer, name_buffer, attrib_buffer, int_buffer, str_buffer,
  size_buffer, unknown_text, buffer_for, get_lexer_value,
}
use xmltp.Ctx.Input.{check_signature-valid}

module _ (c : Context) (sig : c.signature ≡ ctx_signature) where
  pub assign_lexer_value_follows-valid :
      (v : ℤ)
      → assign_lexer_value_follows (some c) v
        ≡ (pos 0, some (record c { lexer = record (c.lexer) { b_value_follows = v } }))
  unfolding assign_lexer_value_follows
  assign_lexer_value_follows-valid v = rw (check_signature-valid c sig)

  pub assign_lexer_last_known_token-valid :
      (t : TokenVal)
      → assign_lexer_last_known_token (some c) t ≡ (
        pos 0,
        some (record c {
          lexer = record (c.lexer) { ctr_tokens = c.lexer.ctr_tokens + 1; last_known_token = t };
        }),
      )
  unfolding assign_lexer_last_known_token
  assign_lexer_last_known_token-valid t = rw (check_signature-valid c sig)

  pub check_lexer_value_ended-valid :
      check_lexer_value_ended (some c) ≡ eq_ℤ value_follows_has_ended c.lexer.b_value_follows
  unfolding check_lexer_value_ended
  check_lexer_value_ended-valid = rw (check_signature-valid c sig)

  pub check_lexer_value_follows-valid : check_lexer_value_follows (some c) ≡ (
      not (eq_ℤ c.lexer.b_value_follows value_follows_has_ended)
      && not (eq_ℤ c.lexer.b_value_follows (pos 0)))
  unfolding check_lexer_value_follows
  check_lexer_value_follows-valid = rw (check_signature-valid c sig)

-- The lexer's state with a text in one of its value buffers.
abbrev pub write_buffer : LexerState → ValueBuffer → Bytes → LexerState
write_buffer l name_buffer s = record l { name_value = copy_string s }
write_buffer l attrib_buffer s = record l { attrib_value = copy_string s }
write_buffer l int_buffer s = record l { int_value = copy_string s }
write_buffer l str_buffer s = record l { str_value = copy_string s }
write_buffer l size_buffer s = record l { size_value = copy_string s }
write_buffer l unknown_text s = l

-- The two `switch`es on `b_value_follows` choose the same buffer.
store_value-buffer_for :
    (l : LexerState) (s : Bytes) (b : ValueBuffer)
    → buffer_for l.b_value_follows ≡ some b
    → store_value l s ≡ some (write_buffer l b s)
unfolding store_value buffer_for
store_value-buffer_for l s b h = ground arith

module _ (c : Context) (sig : c.signature ≡ ctx_signature) (b : ValueBuffer)
    (kind : buffer_for c.lexer.b_value_follows ≡ some b) where
  pub assign_lexer_str_value-valid :
      (s : Bytes)
      → assign_lexer_str_value (some c) s
        ≡ (pos 0, some (record c { lexer = write_buffer c.lexer b s }))
  unfolding assign_lexer_str_value
  assign_lexer_str_value-valid s =
      rw (check_signature-valid c sig, store_value-buffer_for c.lexer s b kind)

  pub get_lexer_value-valid : get_lexer_value (some c) ≡ (some b, some c)
  unfolding get_lexer_value
  get_lexer_value-valid = rw (check_signature-valid c sig, kind)

-- Writing a buffer leaves the kind of the value.
pub b_value_follows-write_buffer :
    (l : LexerState) (b : ValueBuffer) (s : Bytes)
    → (write_buffer l b s).b_value_follows ≡ l.b_value_follows
b_value_follows-write_buffer l name_buffer s = refl
b_value_follows-write_buffer l attrib_buffer s = refl
b_value_follows-write_buffer l int_buffer s = refl
b_value_follows-write_buffer l str_buffer s = refl
b_value_follows-write_buffer l size_buffer s = refl
b_value_follows-write_buffer l unknown_text s = refl

-- A kind of value with a buffer is neither 0 nor the mark of a value that has ended.
pub kind_follows :
    (v : ℤ) (b : ValueBuffer)
    → buffer_for v ≡ some b
    → (eq_ℤ value_follows_has_ended v ≡ false)
      × ((not (eq_ℤ v value_follows_has_ended) && not (eq_ℤ v (pos 0))) ≡ true)
unfolding buffer_for
kind_follows (pos n) b h = ground arith
kind_follows (negsuc n) b h = ground arith

pub buffer_for-ne-unknown_text : (v : ℤ) → buffer_for v ≢ some unknown_text
unfolding buffer_for
buffer_for-ne-unknown_text (pos n) h = ground arith
buffer_for-ne-unknown_text (negsuc n) h = ground arith
