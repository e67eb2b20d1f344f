-- ===== src/Writer/Tests.antt =====
-- A response and a call that are written, and the theorems on them.
use xmltp.Prelude.{
  ◌⊎◌, ◌≤◌, ◌≡◌, refl, ◌++◌, ◌∷◌, [], Option, none, some, ℕ, ℤ, pos, neg, List, true, arith,
  replicate, length-replicate, All,
}
use xmltp.Bytes.{Bytes, codes, c_string, decimal}
use xmltp.SockObj.{send, send_ext, send_loop}
use xmltp.Writer.{
  Writer, Output, fresh_flags, send_buffer_size, write_string, write_bytes, buffer_or_send,
  flush_send_buffer, flush_created, put,
}
use xmltp.Writer.Ready.{IsReady, Extends, stream, flush_send_buffer-Flushes, Flushes}
use xmltp.Writer.Buffer.{put-Extends}
use xmltp.Writer.Items.{Item, render}
use xmltp.Writer.Phase.{
  Call, before, columns, ended, begin_result_set, column_name, column_value, end_colum_values,
  begin_msg, write_msg, end_msg, end_response, begin_proc_call, end_proc_call, Outcome, step, steps,
  nested,
}
use xmltp.Writer.Calls.{do_call, IsCall, InPhase, Does}
use xmltp.Writer.Nesting.{steps-Balances}
use xmltp.Writer.Refine.{do_call-Refines}
use xmltp.Writer.Run.{do_calls, do_calls-Runs, Runs, response-Delivered}
use xmltp.Writer.Interface.{protocol, writer_after-IsWellFormed}
use xmltp.Writer.Safety.{IsWellFormed, do_call-stopped}
use xmltp.Writer.Response

-- The output at the start, with room for `n` bytes.
abbrev output_of : ℕ → Output
output_of n = record {
  ctr_socket_write_errors = 0;
  p_sock_obj = none;
  n_bytes_in_buff = 0;
  send_buffer = replicate n 0;
  esc_buf = [];
  events = [];
  wire = [];
  creatable = true;
  aborts = 0;
}

abbrev start : Output
start = output_of send_buffer_size

start-IsReady : IsReady start
start-IsReady = record {
  fits = omega arith;
  whole = length-replicate {A = ℕ} send_buffer_size 0;
  usable = refl;
}

abbrev items_of : Outcome → List Item
items_of none = []
items_of (some (_, items)) = items

abbrev response_calls : List Call
response_calls =
    begin_result_set (pos 1) (pos 0)
    ∷ column_name (codes "qty") (pos 4) (pos 0)
    ∷ column_value (pos 4) (pos 0) (codes "12")
    ∷ end_colum_values
    ∷ begin_msg (pos 1)
    ∷ write_msg (pos 7) (codes "a<b")
    ∷ end_msg
    ∷ end_response (pos 0) (neg 2) (pos 1)
    ∷ []

abbrev response_items : List Item
response_items = items_of (steps before response_calls)

-- The text of the response.
response_text :
    render response_items
    ≡ codes
        "<?xml version=\"1.0\" encoding=\"ISO-8859-1\" ?>\n<response>\n <resultsetslist>\n  <resultset>\n   <colnames>\n    <col><name>qty</name><int>4</int></col>\n   </colnames>\n   <rows>\n    <row>\n      <int>12</int><isnull>0</isnull>\n    </row>\n   </rows>\n   <nbrows><int>1</int></nbrows>\n  </resultset>\n </resultsetslist>\n <msglist>\n  <msg><int>7</int><str>a&lt;b</str></msg>\n </msglist>\n <returnstatus><int>-1502</int></returnstatus>\n</response>\n<EOT/>"
unfolding c_string decimal Response.final_status
response_text = refl

abbrev wire_of : Option (ℤ × Writer) → Bytes
wire_of none = []
wire_of (some (_, w)) = w.out.wire

-- A call without parameters, as the writer sends it.
call_on_wire :
    wire_of (
      do_calls 4
        (begin_proc_call (codes "sp_who") ∷ end_proc_call ∷ [])
        (record { flags = fresh_flags; out = start }))
    ≡ codes
        "<?xml version=\"1.0\" encoding=\"ISO-8859-1\" ?>\n<proccall>\n <proc>sp_who</proc>\n</proccall>\n<EOT/>"
unfolding do_calls Response.begin_proc_call Response.end_proc_call write_string write_bytes
    buffer_or_send flush_send_buffer flush_created c_string send send_ext send_loop
call_on_wire = refl

steps-Balances_example : nested [] response_items ≡ some []
steps-Balances_example = steps-Balances before ended response_calls response_items refl

put-Extends_example : Extends start (put (pos 4) (codes "sp_who") start) (c_string (codes "sp_who"))
put-Extends_example = put-Extends (pos 4) (codes "sp_who") start start-IsReady

flush_send_buffer-Flushes_example : Flushes start (flush_send_buffer (pos 4) start)
flush_send_buffer-Flushes_example = flush_send_buffer-Flushes (pos 4) start start-IsReady

abbrev fresh : Writer
fresh = record { flags = fresh_flags; out = start }

fresh-InPhase : InPhase before fresh
fresh-InPhase = record { base = fresh_flags; flags_are = refl; output_in = tt }

response_calls-IsCall : All IsCall response_calls
response_calls-IsCall = (
  tt,
  (
    tt,
    (
      (omega arith, (omega arith, tt)),
      (tt, (tt, ((omega arith, (omega arith, (omega arith, tt))), (tt, (tt, tt))))),
    ),
  ),
)

do_call-Refines_example :
    Does
      (columns (pos 1))
      (items_of (step before (begin_result_set (pos 1) (pos 0))))
      start
      (do_call 4 (begin_result_set (pos 1) (pos 0)) fresh)
do_call-Refines_example =
    do_call-Refines 4 before (columns (pos 1)) (begin_result_set (pos 1) (pos 0)) _ fresh
      start-IsReady fresh-InPhase tt refl

do_calls-Runs_example : Runs ended response_items start (do_calls 4 response_calls fresh)
do_calls-Runs_example =
    do_calls-Runs 4 before ended response_calls response_items fresh start-IsReady fresh-InPhase
      response_calls-IsCall refl

response-Delivered_example :
    (code : ℤ) × (w : Writer) × (do_calls 4 response_calls fresh ≡ some (code, w))
    × (nested [] response_items ≡ some [])
    × ((1 ≤ w.out.ctr_socket_write_errors)
        ⊎ ((code ≡ pos 0)
            × (w.out.wire ≡ stream start ++ render response_items)
            × (w.out.n_bytes_in_buff ≡ 0)))
response-Delivered_example =
    response-Delivered 4 response_calls response_items start start-IsReady response_calls-IsCall
      refl

start-IsWellFormed : IsWellFormed start
start-IsWellFormed = record { ready = start-IsReady; idle = λ l. refl }

writer_after-IsWellFormed_example :
    IsWellFormed (Response.end_response (pos 4) (pos 0) (neg 2) (pos 1) fresh).1.out
writer_after-IsWellFormed_example =
    writer_after-IsWellFormed 4 (protocol (end_response (pos 0) (neg 2) (pos 1))) fresh _
      start-IsWellFormed tt refl

abbrev broken : Writer
broken = record fresh { out = record start { ctr_socket_write_errors = 1; wire = codes "<?xml" } }

broken-IsWellFormed : IsWellFormed broken.out
broken-IsWellFormed = record {
  ready = record {
    fits = omega arith;
    whole = length-replicate {A = ℕ} send_buffer_size 0;
    usable = refl;
  };
  idle = λ l. refl;
}

do_call-stopped_example :
    let w = (Response.end_response (pos 4) (pos 0) (neg 2) (pos 1) broken).1 in
    (w.out.wire ≡ codes "<?xml") × (1 ≤ w.out.ctr_socket_write_errors)
do_call-stopped_example =
    do_call-stopped 4 (end_response (pos 0) (neg 2) (pos 1)) broken _ _ broken-IsWellFormed
      (omega arith) refl
