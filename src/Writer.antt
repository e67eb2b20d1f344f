-- ===== src/Writer.antt =====
-- src/xmltp/xmltp_writer.c: the writer of responses and calls, as linked with src/xmltp/xml2syb.c.
-- The static variables are the fields of two records: `Output` has the send buffer and the socket,
-- `Flags` the state of the response. `s_b_human_readable` is never assigned and is 1. `s_t_begin`,
-- which is never read, is left out. A function that returns nothing but what its callers ignore
-- returns the state alone. The outer option of a result is `none` where `xmltp_encode` writes past
-- the end of `s_esc_buf`.
pub mod Parts
pub mod Response
pub mod Ready
pub mod Buffer
pub mod Items
pub mod Phase
pub mod Nesting
pub mod Calls
pub mod Values
pub mod Refine
pub mod Run
pub mod Reach
pub mod Safety
pub mod Interface
mod Tests
use xmltp.Prelude.{
  ℕ, zero, suc, ◌+◌, ◌-◌, ◌*◌, Bool, true, false, not, ◌&&◌, ◌||◌, Option, none, some, List, [],
  ◌∷◌, ◌++◌, ℤ, pos, neg, eq_ℤ, is_neg, ltb, leb, ◌==◌, if◌then◌else◌, length, take, drop,
  replicate,
}
use xmltp.Bytes.{Bytes, codes, c_string, strlen, decimal}
use xmltp.Encoder.{encode}
use xmltp.SockObj.{SockObj, Link, SendEvent, send, create_from_fd}

abbrev pub send_buffer_size : ℕ
send_buffer_size = 8192

-- ESC_BUF_SIZE
abbrev pub esc_buf_size : ℕ
esc_buf_size = 255 * 4 + 1

-- The socket object is `none` for NULL; `creatable` tells whether memory for one is found.
-- `aborts` counts the calls of `xml2db_abort_program`, which raises a flag of the main program.
pub record Output : Type 0 where
  pub ctr_socket_write_errors : ℕ
  pub p_sock_obj : Option SockObj
  pub n_bytes_in_buff : ℕ
  pub send_buffer : Bytes
  pub esc_buf : Bytes
  pub events : List SendEvent
  pub wire : Bytes
  pub creatable : Bool
  pub aborts : ℕ

pub record Flags : Type 0 where
  pub header_done : Bool
  pub results_sets_started : Bool
  pub rows_started : Bool
  pub within_one_row : Bool
  pub output_params_started : Bool
  pub messages_started : Bool
  pub end_response_done : Bool
  pub prev_result_set_no : ℤ
  pub ctr_errors : ℕ
  pub note_errmsg : Bytes

pub record Writer : Type 0 where
  pub flags : Flags
  pub out : Output

-- The initial values of the flags, which `xmltp_writer_reset` sets again.
abbrev pub fresh_flags : Flags
fresh_flags = record {
  header_done = false;
  results_sets_started = false;
  rows_started = false;
  within_one_row = false;
  output_params_started = false;
  messages_started = false;
  end_response_done = false;
  prev_result_set_no = neg 999;
  ctr_errors = 0;
  note_errmsg = [];
}

-- `sf_create_sock_obj_if_not_done`, on the value of `s_p_sock_obj`.
abbrev pub create_if_null : ℤ → Output → Option SockObj → ℤ × Output
create_if_null sd o (some _) = (pos 0, o)
create_if_null sd o none =
    if o.creatable
    then (pos 0, record o { p_sock_obj = some (create_from_fd 0 sd) })
    else (neg 1, o)

abbrev pub create_sock_obj : ℤ → Output → ℤ × Output
create_sock_obj sd o = create_if_null sd o o.p_sock_obj

-- `sock_obj_send` on the object of the writer, -20 for NULL.
abbrev pub send_bytes : Bytes → Output → ℤ × Output
send_bytes buffer o = elim o.p_sock_obj [
  | none ↦ (neg 20, o)
  | some s ↦
      let (rc, l) = send buffer (record { obj = s; events = o.events; wire = o.wire }) in
      (rc, record o { p_sock_obj = some l.obj; events = l.events; wire = l.wire })
]

-- What follows a send: nothing after the code 0, else the abort and the count of errors.
abbrev pub after_send : ℤ → ℤ × Output → ℤ × Output
after_send code (rc, o) = if eq_ℤ rc (pos 0) then (pos 0, o) else (
  code,
  record o { ctr_socket_write_errors = o.ctr_socket_write_errors + 1; aborts = o.aborts + 1 },
)

-- `sf_flush_send_buffer` once the object is there.
unfoldable pub flush_created : Output → ℤ × Output
flush_created o =
    let (rc, o') = send_bytes (take o.n_bytes_in_buff o.send_buffer) o in
    after_send (neg 1) (rc, record o' { n_bytes_in_buff = 0 })

-- What follows `sf_create_sock_obj_if_not_done`.
abbrev pub if_created : (Output → ℤ × Output) → ℤ × Output → ℤ × Output
if_created go_on (rc, o) = if eq_ℤ rc (pos 0) then go_on o else (neg 1, o)

-- The test at the head of `sf_flush_send_buffer`.
abbrev pub clip : Output → Output
clip o = record o {
  n_bytes_in_buff =
      if ltb send_buffer_size o.n_bytes_in_buff then send_buffer_size else o.n_bytes_in_buff;
}

-- `sf_flush_send_buffer`
unfoldable pub flush_send_buffer : ℤ → Output → ℤ × Output
flush_send_buffer sd o = if_created flush_created (create_sock_obj sd (clip o))

-- The bytes of `str` behind the ones in the buffer.
abbrev pub append_to_buffer : Bytes → Output → Output
append_to_buffer str o =
    let n = o.n_bytes_in_buff in
    record o {
      send_buffer = (take n o.send_buffer ++ str) ++ drop (n + length str) o.send_buffer;
      n_bytes_in_buff = n + length str;
    }

-- `sf_write_string` for a text that the buffer cannot hold, once the object is there.
pub send_large : Bytes → Output → ℤ × Output
send_large str o = let (rc, o') = send_bytes str o in after_send rc (rc, o')

-- `sf_write_string` where the buffer was flushed or had room.
unfoldable pub buffer_or_send : ℤ → Bytes → Output → ℤ × Output
buffer_or_send sd str o =
    if leb send_buffer_size (length str)
    then if_created (send_large str) (create_sock_obj sd o)
    else (pos 0, append_to_buffer str o)

-- What follows the flush in `sf_write_string`.
abbrev pub if_flushed : (Output → ℤ × Output) → ℤ × Output → ℤ × Output
if_flushed go_on (rc, o) = if is_neg rc then (rc, o) else go_on o

-- `sf_write_string`, from its comparison with the room in the buffer, for the bytes before the NUL.
unfoldable pub write_bytes : ℤ → Bytes → Output → ℤ × Output
write_bytes sd str o =
    if leb (send_buffer_size - o.n_bytes_in_buff) (length str)
    then if_flushed (buffer_or_send sd str) (flush_send_buffer sd o)
    else buffer_or_send sd str o

-- `sf_write_string`
unfoldable pub write_string : ℤ → Option Bytes → Output → ℤ × Output
write_string sd none o = (if leb 1 o.ctr_socket_write_errors then neg 1 else pos 0, o)
write_string sd (some str) o =
    if leb 1 o.ctr_socket_write_errors
    then (neg 1, o)
    else if strlen str == 0
    then (pos 0, o)
    else write_bytes sd (c_string str) o

-- `sf_write_string` where its code is ignored.
abbrev pub put : ℤ → Bytes → Output → Output
put sd str o = (write_string sd (some str) o).1

-- The text of `sf_make_readable`.
abbrev pub white_text : ℕ → Bytes
white_text level =
    if level == 1
    then codes "\n"
    else if level == 2
    then codes "\n "
    else if level == 3
    then codes "\n  "
    else if level == 4
    then codes "\n   "
    else if level == 5
    then codes "\n    "
    else if level == 6
    then codes "\n      "
    else if level == 7
    then codes "\n       "
    else codes "\n\t "

-- `sf_make_readable`
abbrev pub make_readable : ℤ → ℕ → Output → Output
make_readable sd level = put sd (white_text level)

-- `sprintf(buff, "<%.90s>", tag)`
abbrev pub tag_text : Bytes → Bytes
tag_text tag = codes "<" ++ (take 90 (c_string tag) ++ codes ">")

-- `sf_write_tag`
abbrev pub write_tag : ℤ → Bytes → Output → Output
write_tag sd tag = put sd (tag_text tag)

-- The escaping of a value into `s_esc_buf`, and the write of what `xmltp_encode` chooses.
abbrev pub put_encoded : ℤ → Bytes → ℕ × Bytes → Output → Option Output
put_encoded sd strval (rc, cnv_buf) o =
    if ltb esc_buf_size (length cnv_buf)
    then none
    else let esc = cnv_buf ++ drop (length cnv_buf) o.esc_buf in
      some (put sd (if rc == 0 then strval else esc) (record o { esc_buf = esc }))

pub put_value : ℤ → Bytes → Output → Option Output
put_value sd strval o = put_encoded sd strval (encode strval) o
