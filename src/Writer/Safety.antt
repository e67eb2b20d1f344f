-- ===== src/Writer/Safety.antt =====
-- What holds of the output of src/xmltp/xmltp_writer.c in whatever order its calls are made.
use mathlib.Core.Option.{some-injective}
use mathlib.Core.Path.{subst}
use xmltp.Prelude.{
  ℕ, ◌-◌, ◌≤◌, ◌≡◌, refl, sym, ap, ◌∙◌, true, false, Bool-cases, eq_cases, inl, inr, Option, none,
  some, [], ◌∷◌, ◌++◌, append-nil, ℤ, pos, neg, eq_ℤ, is_neg, leb, ltb, ◌==◌, arith, if◌then◌else◌,
  length, take, drop,
}
use xmltp.Bytes.{Bytes, c_string, strlen}
use xmltp.Encoder.{encode}
use xmltp.SockObj.{SockObj}
use xmltp.SockObj.Send.{send-Sends}
use xmltp.Writer.{
  Writer, Output, esc_buf_size, send_buffer_size, put, put_value, put_encoded, flush_send_buffer,
  flush_created, write_bytes, buffer_or_send, if_flushed, write_string, after_send, send_bytes,
}
use xmltp.Writer.Ready.{
  IsReady, with_obj, create_sock_obj-some, flush_send_buffer-Flushes, flush_send_buffer_created,
  send_large-SendsBytes,
}
use xmltp.Writer.Buffer.{put-Extends}
use xmltp.Writer.Phase.{Call}
use xmltp.Writer.Calls.{do_call}
use xmltp.Writer.Reach.{
  Writes, nothing, put_next, value_next, flush_next, WritesTo, do_call-WritesTo,
}

-- The output is ready, and once a send has failed nothing waits in the buffer.
pub record IsWellFormed (o : Output) : Type 0 where
  pub ready : IsReady o
  pub idle : 1 ≤ o.ctr_socket_write_errors → o.n_bytes_in_buff ≡ 0

-- A send has failed, with these bytes on the wire.
pub record IsStopped (wire : Bytes) (o : Output) : Type 0 where
  pub well_formed : IsWellFormed o
  pub error : 1 ≤ o.ctr_socket_write_errors
  pub wire_is : o.wire ≡ wire

put_value-put :
    (sd : ℤ) (v : Bytes) (o o' : Output)
    → put_value sd v o ≡ some o'
    → (s : Bytes) × (esc : Bytes) × (put sd s (record o { esc_buf = esc }) ≡ o')
unfolding put_value
put_value-put sd v o o' h = elim (Bool-cases (ltb esc_buf_size (length (encode v).1))) [
  | inl e ↦
      let q : put_encoded sd v (encode v) o ≡ none = rw e refl in
      let no_output : none ≡ some o' = sym q ∙ h in cc
  | inr e ↦
      let esc = (encode v).1 ++ drop (length (encode v).1) o.esc_buf in
      let s = if (encode v).0 == 0 then v else esc in
      let written = put sd s (record o { esc_buf = esc }) in
      let q : put_encoded sd v (encode v) o ≡ some written = rw e refl in
      (s, esc, some-injective written o' (sym q ∙ h))
]

-- What every write and every flush keeps, every call keeps.
module _ (P : Output → Type 0) (sd : ℤ)
    (put_keeps : (s : Bytes) (o : Output) → P o → P (put sd s o))
    (esc_keeps : (esc : Bytes) (o : Output) → P o → P (record o { esc_buf = esc }))
    (flush_keeps : (o : Output) → P o → P (flush_send_buffer sd o).1) where
  Writes-keeps : {o o' : Output} → P o → Writes sd o o' → P o'
  Writes-keeps h nothing = h
  Writes-keeps h (put_next r s) = put_keeps s _ (Writes-keeps h r)
  Writes-keeps h (value_next r v e) =
      let (s, esc, q) = put_value-put sd v _ _ e in
      subst P q (put_keeps s _ (esc_keeps esc _ (Writes-keeps h r)))
  Writes-keeps h (flush_next r) = flush_keeps _ (Writes-keeps h r)

  WritesTo-keeps :
      (o : Output) (r : Option (ℤ × Writer)) (code : ℤ) (w : Writer)
      → P o
      → WritesTo sd o r
      → r ≡ some (code, w)
      → P w.out
  WritesTo-keeps o r code w h x e = Writes-keeps h (subst (WritesTo sd o) e x)

-- The code and the count of errors after a send.
after_send-kept :
    (rc : ℤ) (o : Output)
    → is_neg (after_send (neg 1) (rc, o)).0 ≡ false
    → (after_send (neg 1) (rc, o)).1.ctr_socket_write_errors ≡ o.ctr_socket_write_errors
after_send-kept rc o = elim (Bool-cases (eq_ℤ rc (pos 0))) [
  | inl e ↦ rw e (λ h. refl)
  | inr e ↦ rw e (λ h. absurd (ground arith))
]

after_send-counts :
    (code rc : ℤ) (o : Output)
    → (o.ctr_socket_write_errors ≤ (after_send code (rc, o)).1.ctr_socket_write_errors)
      × ((after_send code (rc, o)).1.wire ≡ o.wire)
after_send-counts code rc o = elim (Bool-cases (eq_ℤ rc (pos 0))) [
  | inl e ↦ rw e (omega arith, refl)
  | inr e ↦ rw e (omega arith, refl)
]

flush_send_buffer-kept :
    (sd : ℤ) (o : Output)
    → IsReady o
    → is_neg (flush_send_buffer sd o).0 ≡ false
    → (flush_send_buffer sd o).1.ctr_socket_write_errors ≡ o.ctr_socket_write_errors
unfolding flush_created
flush_send_buffer-kept sd o h =
    let (s, e) = flush_send_buffer_created sd o h in
    let (rc, sent) = send_bytes (take o.n_bytes_in_buff o.send_buffer) (with_obj o s) in
    rw e (after_send-kept rc (record sent { n_bytes_in_buff = 0 }))

buffer_or_send-idle :
    (sd : ℤ) (str : Bytes) (o : Output)
    → IsReady o
    → o.ctr_socket_write_errors ≡ 0
    → (send_buffer_size ≤ length str → o.n_bytes_in_buff ≡ 0)
    → 1 ≤ (buffer_or_send sd str o).1.ctr_socket_write_errors
    → (buffer_or_send sd str o).1.n_bytes_in_buff ≡ 0
unfolding buffer_or_send
buffer_or_send-idle sd str o h z idle = elim (Bool-cases (leb send_buffer_size (length str))) [
  | inr m ↦ rw m (λ l. absurd (omega (arith, z)))
  | inl m ↦
      let (s, e) = create_sock_obj-some sd o h.usable in
      rw (m, e) (λ l. (send_large-SendsBytes o s str).n_is ∙ idle (ground arith))
]

after_flush-idle :
    (sd : ℤ) (str : Bytes) (r : ℤ × Output)
    → IsReady r.1
    → r.1.n_bytes_in_buff ≡ 0
    → (is_neg r.0 ≡ false → r.1.ctr_socket_write_errors ≡ 0)
    → 1 ≤ (if_flushed (buffer_or_send sd str) r).1.ctr_socket_write_errors
    → (if_flushed (buffer_or_send sd str) r).1.n_bytes_in_buff ≡ 0
after_flush-idle sd str (rc, o) h n k = elim (Bool-cases (is_neg rc)) [
  | inl e ↦ rw e (λ l. n)
  | inr e ↦ rw e (buffer_or_send-idle sd str o h (k e) (λ _. n))
]

write_bytes-idle :
    (sd : ℤ) (str : Bytes) (o : Output)
    → IsReady o
    → o.ctr_socket_write_errors ≡ 0
    → 1 ≤ (write_bytes sd str o).1.ctr_socket_write_errors
    → (write_bytes sd str o).1.n_bytes_in_buff ≡ 0
unfolding write_bytes
write_bytes-idle sd str o h z =
    elim (Bool-cases (leb (send_buffer_size - o.n_bytes_in_buff) (length str))) [
      | inl m ↦
          let f = flush_send_buffer-Flushes sd o h in
          rw m (
            after_flush-idle sd str (flush_send_buffer sd o) f.ready f.empty
              (λ n. flush_send_buffer-kept sd o h n ∙ z))
      | inr m ↦ rw m (buffer_or_send-idle sd str o h z (λ l. absurd (ground (arith, h.fits))))
    ]

-- After an error `sf_write_string` does nothing.
put_error : (sd : ℤ) (s : Bytes) (o : Output) → 1 ≤ o.ctr_socket_write_errors → put sd s o ≡ o
unfolding write_string
put_error sd s o h =
    let e : leb 1 o.ctr_socket_write_errors ≡ true = ground arith in rw (e, put, write_string) refl

put-idle :
    (sd : ℤ) (s : Bytes) (o : Output)
    → IsReady o
    → o.ctr_socket_write_errors ≡ 0
    → 1 ≤ (put sd s o).ctr_socket_write_errors
    → (put sd s o).n_bytes_in_buff ≡ 0
unfolding write_string
put-idle sd s o h z =
    let e : leb 1 o.ctr_socket_write_errors ≡ false = ground arith in
    elim (Bool-cases (strlen s == 0)) [
      | inl n ↦ rw (e, put, write_string, n) (λ l. absurd (omega (arith, z)))
      | inr n ↦ rw (e, put, write_string, n) (write_bytes-idle sd (c_string s) o h z)
    ]

put-IsWellFormed : (sd : ℤ) (s : Bytes) (o : Output) → IsWellFormed o → IsWellFormed (put sd s o)
put-IsWellFormed sd s o h = elim (eq_cases o.ctr_socket_write_errors 0) [
  | inl z ↦ record { ready = (put-Extends sd s o h.ready).ready; idle = put-idle sd s o h.ready z }
  | inr n ↦ subst IsWellFormed (sym (put_error sd s o (omega arith))) h
]

esc_buf-IsWellFormed :
    (esc : Bytes) (o : Output) → IsWellFormed o → IsWellFormed (record o { esc_buf = esc })
esc_buf-IsWellFormed esc o h = record {
  ready = record { fits = h.ready.fits; whole = h.ready.whole; usable = h.ready.usable };
  idle = h.idle;
}

flush-IsWellFormed :
    (sd : ℤ) (o : Output) → IsWellFormed o → IsWellFormed (flush_send_buffer sd o).1
flush-IsWellFormed sd o h =
    let f = flush_send_buffer-Flushes sd o h.ready in
    record { ready = f.ready; idle = λ _. f.empty }

-- Every call of the protocol, in whatever order and state of the response, keeps the output well
-- formed.
pub do_call-IsWellFormed :
    (fd : ℕ) (c : Call) (w w' : Writer) (code : ℤ)
    → IsWellFormed w.out
    → do_call fd c w ≡ some (code, w')
    → IsWellFormed w'.out
do_call-IsWellFormed fd c w w' code h =
    WritesTo-keeps IsWellFormed (pos fd) (put-IsWellFormed (pos fd)) esc_buf-IsWellFormed
      (flush-IsWellFormed (pos fd)) w.out (do_call fd c w) code w' h (do_call-WritesTo fd c w)

no_part : (part rest : Bytes) → [] ≡ part ++ rest → part ≡ []
no_part [] rest e = refl
no_part (c ∷ part) rest e = cc

flush_created-wire :
    (o : Output) (s : SockObj)
    → o.n_bytes_in_buff ≡ 0
    → ((flush_created (with_obj o s)).1.wire ≡ o.wire)
      × (o.ctr_socket_write_errors ≤ (flush_created (with_obj o s)).1.ctr_socket_write_errors)
unfolding flush_created
flush_created-wire o s z =
    let buffer = take o.n_bytes_in_buff o.send_buffer in
    let (rc, sent) = send_bytes buffer (with_obj o s) in
    let x = send-Sends buffer (record { obj = s; events = o.events; wire = o.wire }) in
    let none_sent : x.part ≡ [] =
      no_part x.part x.rest (ap (λ n. take n o.send_buffer) (sym z) ∙ x.split) in
    let counts = after_send-counts (neg 1) rc (record sent { n_bytes_in_buff = 0 }) in
    (counts.1 ∙ x.on_wire ∙ ap (λ t. o.wire ++ t) none_sent ∙ append-nil o.wire, counts.0)

flush-IsStopped :
    (wire : Bytes) (sd : ℤ) (o : Output)
    → IsStopped wire o
    → IsStopped wire (flush_send_buffer sd o).1
flush-IsStopped wire sd o h =
    let (s, e) = flush_send_buffer_created sd o h.well_formed.ready in
    let x = flush_created-wire o s (h.well_formed.idle h.error) in
    record {
      well_formed = flush-IsWellFormed sd o h.well_formed;
      error = rw e (omega (arith, x.1, h.error));
      wire_is = ap (λ r. r.1.wire) e ∙ x.0 ∙ h.wire_is;
    }

put-IsStopped :
    (wire : Bytes) (sd : ℤ) (s : Bytes) (o : Output)
    → IsStopped wire o
    → IsStopped wire (put sd s o)
put-IsStopped wire sd s o h = subst (IsStopped wire) (sym (put_error sd s o h.error)) h

esc_buf-IsStopped :
    (wire esc : Bytes) (o : Output) → IsStopped wire o → IsStopped wire (record o { esc_buf = esc })
esc_buf-IsStopped wire esc o h = record {
  well_formed = esc_buf-IsWellFormed esc o h.well_formed;
  error = h.error;
  wire_is = h.wire_is;
}

-- Once a send has failed, no call, in whatever order and state of the response, puts another byte
-- on the wire, and the error stays counted.
pub do_call-stopped :
    (fd : ℕ) (c : Call) (w w' : Writer) (code : ℤ)
    → IsWellFormed w.out
    → 1 ≤ w.out.ctr_socket_write_errors
    → do_call fd c w ≡ some (code, w')
    → (w'.out.wire ≡ w.out.wire) × (1 ≤ w'.out.ctr_socket_write_errors)
do_call-stopped fd c w w' code h l e =
    let P = IsStopped w.out.wire in
    let x =
      WritesTo-keeps P (pos fd) (put-IsStopped w.out.wire (pos fd)) (esc_buf-IsStopped w.out.wire)
        (flush-IsStopped w.out.wire (pos fd)) w.out (do_call fd c w) code w'
        (record { well_formed = h; error = l; wire_is = refl }) (do_call-WritesTo fd c w) e in
    (x.wire_is, x.error)
