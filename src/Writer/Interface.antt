-- ===== src/Writer/Interface.antt =====
-- Every function that src/xmltp/xmltp_writer.c offers: the calls that write a response or a call,
-- and those that only touch the writer's variables.
use xmltp.Prelude.{ℕ, ◌≡◌, refl, true, Option, none, some, ℤ}
use mathlib.Core.Option.{some-injective}
use mathlib.Core.Path.{subst}
use xmltp.Bytes.{Bytes}
use xmltp.SockObj.{SockObj}
use xmltp.Writer.{Writer, Output}
use xmltp.Writer.Ready.{usable_obj}
use xmltp.Writer.Response
use xmltp.Writer.Phase.{Call}
use xmltp.Writer.Calls.{do_call}
use xmltp.Writer.Safety.{IsWellFormed, do_call-IsWellFormed}

pub data WriterCall : Type 0 where
  protocol : Call → WriterCall
  note_error : Bytes → WriterCall
  param_name drop_sock_obj : WriterCall
  set_sock_obj : Option SockObj → WriterCall

abbrev pub writer_of : Option (ℤ × Writer) → Option Writer
writer_of none = none
writer_of (some r) = some r.1

-- The writer after a call on the socket `fd`.
abbrev pub writer_after : ℕ → WriterCall → Writer → Option Writer
writer_after fd (protocol c) w = writer_of (do_call fd c w)
writer_after fd (note_error errmsg) w = some (Response.note_error errmsg w).1
writer_after fd param_name w = some (Response.param_name w).1
writer_after fd drop_sock_obj w = some (Response.drop_sock_obj w)
writer_after fd (set_sock_obj s) w = some (Response.set_sock_obj s w)

-- A call that takes the socket object away is made where there is memory for another one.
abbrev pub KeepsObject : WriterCall → Output → Type 0
KeepsObject drop_sock_obj o = o.creatable ≡ true
KeepsObject (set_sock_obj s) o = usable_obj o.creatable s ≡ true
KeepsObject _ o = Unit {0}

protocol-IsWellFormed :
    (fd : ℕ) (c : Call) (w w' : Writer) (r : Option (ℤ × Writer))
    → IsWellFormed w.out
    → do_call fd c w ≡ r
    → writer_of r ≡ some w'
    → IsWellFormed w'.out
protocol-IsWellFormed fd c w w' none h e q = cc
protocol-IsWellFormed fd c w w' (some (code, v)) h e q =
    subst (λ (u : Writer). IsWellFormed u.out) (some-injective v w' q)
      (do_call-IsWellFormed fd c w v code h e)

with_object :
    (s : Option SockObj) (w : Writer)
    → IsWellFormed w.out
    → usable_obj w.out.creatable s ≡ true
    → IsWellFormed (Response.set_sock_obj s w).out
with_object s w h u = record {
  ready = record { fits = h.ready.fits; whole = h.ready.whole; usable = u };
  idle = h.idle;
}

-- Every function that the writer offers, on a socket that is open, in whatever order and state of the response, and whatever
-- the operating system answers, keeps the output well formed: at most the size of the buffer waits
-- in it, there is a socket object or memory for one, and once a send has failed nothing waits. The
-- functions that take the socket object away do so where there is memory for another one.
pub writer_after-IsWellFormed :
    (fd : ℕ) (c : WriterCall) (w w' : Writer)
    → IsWellFormed w.out
    → KeepsObject c w.out
    → writer_after fd c w ≡ some w'
    → IsWellFormed w'.out
writer_after-IsWellFormed fd (protocol c) w w' h k e =
    protocol-IsWellFormed fd c w w' (do_call fd c w) h refl e
writer_after-IsWellFormed fd (note_error errmsg) w w' h k e =
    subst (λ (u : Writer). IsWellFormed u.out) (some-injective _ w' e) h
writer_after-IsWellFormed fd param_name w w' h k e =
    subst (λ (u : Writer). IsWellFormed u.out) (some-injective _ w' e) h
writer_after-IsWellFormed fd drop_sock_obj w w' h k e =
    subst (λ (u : Writer). IsWellFormed u.out) (some-injective _ w' e) (with_object none w h k)
writer_after-IsWellFormed fd (set_sock_obj s) w w' h k e =
    subst (λ (u : Writer). IsWellFormed u.out) (some-injective _ w' e) (with_object s w h k)
