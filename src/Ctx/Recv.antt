-- ===== src/Ctx/Recv.antt =====
-- src/xmltp/xmltp_ctx.c: the bytes of the socket through the input buffer of a context.
use xmltp.Prelude.{
  ◌+◌, ◌-◌, true, false, Option, none, some, List, [], ◌∷◌, ◌++◌, ℤ, pos, neg, is_neg, ltb, leb,
  if◌then◌else◌, length, get_or, set, drop,
}
use xmltp.Bytes.{Bytes, codes}
use xmltp.Ctx.{
  Event, elapsed, interrupted, again, failed, closed, set_timeout_failed, received, InputState,
  Context, inp_buffer_size, check_signature, parser_error,
}

-- `sf_recv_from_socket` puts the bytes at the start of the buffer, and `xmltp_ctx_get_input_char`
-- a NUL behind them.
unfoldable pub store_received : InputState → Bytes → List Event → InputState
store_received i bytes events =
    let n = length bytes in
    let at = if leb inp_buffer_size n then inp_buffer_size - 1 else n in
    record i {
      total_bytes_received = i.total_bytes_received + n;
      inp_buffer = set (bytes ++ drop n i.inp_buffer) at 0;
      curr_pos = 0;
      nb_bytes = n;
      incoming = events;
    }

-- The `for` loop of `xmltp_ctx_get_input_char` with the loop of `sf_recv_from_socket` in it. With
-- no event left, the peer has closed. The result is the new input, and the message and value for
-- the parser's error, where the refill fails.
unfoldable pub refill : InputState → List Event → InputState × Option (Bytes × Bytes)
refill i [] = (
  record i { b_eof_disconnect = 1; incoming = [] },
  some (codes "socket recv() failed.", codes "0"),
)
refill i (elapsed ∷ es) = elim (ltb 0 i.timeout_recv) [
  | true ↦ (
    record i { b_eof_disconnect = 2; incoming = es },
    some (codes "timeout recv():", codes "nb_secs_elapsed >= p_ctx->timeout_recv"),
  )
  | false ↦ refill i es
]
refill i (set_timeout_failed text ∷ es) = elim (ltb 0 i.timeout_recv) [
  | true ↦ (record i { incoming = es }, some (codes "setsockopt() SO_RCVTIMEO failed", text))
  | false ↦ refill i es
]
refill i (interrupted ∷ es) = refill i es
refill i (again ∷ es) = refill i es
refill i (failed ∷ es) = (
  record i { b_eof_disconnect = 1; incoming = es },
  some (codes "socket recv() failed.", codes "0"),
)
refill i (closed ∷ es) = (
  record i { b_eof_disconnect = 1; incoming = es },
  some (codes "socket recv() failed.", codes "0"),
)
refill i (received b bs ∷ es) = (store_received i (b ∷ bs) es, none)

-- The end of `xmltp_ctx_get_input_char`: the byte at `curr_pos`. A read past the list is 0: the
-- bytes behind the buffer are the NULs of `x_end`.
unfoldable pub take_char : Context → ℤ × Option Context
take_char c = if ltb inp_buffer_size c.input.curr_pos then (neg 1, some c) else (
  pos (get_or c.input.inp_buffer c.input.curr_pos 0),
  some (record c { input = record (c.input) { curr_pos = c.input.curr_pos + 1 } }),
)

-- What follows the refill of `xmltp_ctx_get_input_char`.
unfoldable pub after_refill : Context → InputState × Option (Bytes × Bytes) → ℤ × Option Context
after_refill c (i, none) = take_char (record c { input = i })
after_refill c (i, some (msg, sval)) =
    (neg 1, (parser_error (some (record c { input = i })) msg sval).1)

-- `xmltp_ctx_get_input_char`
unfoldable pub get_input_char : Option Context → ℤ × Option Context
get_input_char none = (neg 1, none)
get_input_char (some c) =
    if is_neg (check_signature (some c))
    then (neg 1, some c)
    else if leb c.input.nb_bytes c.input.curr_pos
    then after_refill c (refill c.input c.input.incoming)
    else take_char c
