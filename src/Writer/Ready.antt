-- ===== src/Writer/Ready.antt =====
-- The output of src/xmltp/xmltp_writer.c as a stream of bytes, and the sends that empty its buffer.
use mathlib.Core.Path.{subst}
use xmltp.Prelude.{
  ℕ, zero, suc, ◌≤◌, ◌≡◌, refl, sym, ap, ◌∙◌, Bool, true, false, inl, inr, Option-cases, Option,
  none, some, ◌++◌, append_assoc, append-nil, arith, ℤ, pos, negsuc, neg, is_neg, ltb, ◌==◌,
  if◌then◌else◌, length, take,
}
use xmltp.Bytes.{Bytes}
use xmltp.SockObj.{SockObj, Link, send, create_from_fd}
use xmltp.SockObj.Send.{Sends, send-Sends}
use xmltp.Writer.{
  send_buffer_size, Output, create_if_null, create_sock_obj, send_bytes, after_send, flush_created,
  if_created, clip, flush_send_buffer, send_large,
}

-- The bytes that the network has, and then those that wait in the buffer.
abbrev pub stream : Output → Bytes
stream o = o.wire ++ take o.n_bytes_in_buff o.send_buffer

abbrev pub usable_obj : Bool → Option SockObj → Bool
usable_obj creatable none = creatable
usable_obj creatable (some _) = true

abbrev pub can_send : Output → Bool
can_send o = usable_obj o.creatable o.p_sock_obj

-- The buffer is as large as it is declared and not overfull, and there is a socket object, or memory
-- for one.
pub record IsReady (o : Output) : Type 0 where
  pub fits : o.n_bytes_in_buff ≤ send_buffer_size
  pub whole : length o.send_buffer ≡ send_buffer_size
  pub usable : can_send o ≡ true

-- The output stays ready, and while no send has failed the stream gets exactly this text.
pub record Extends (o o' : Output) (text : Bytes) : Type 0 where
  pub ready : IsReady o'
  pub delivered :
      o'.ctr_socket_write_errors ≡ 0
      → (o.ctr_socket_write_errors ≡ 0) × (stream o' ≡ stream o ++ text)

pub Extends-trans :
    (o o' o'' : Output) (a b : Bytes) → Extends o o' a → Extends o' o'' b → Extends o o'' (a ++ b)
Extends-trans o o' o'' a b x y = record {
  ready = y.ready;
  delivered = λ z.
      let (z', s) = y.delivered z in
      let (z'', s') = x.delivered z' in
      (z'', s ∙ ap (λ t. t ++ b) s' ∙ append_assoc (stream o) a b);
}

-- What a send on an object that is there leaves, with `n` bytes in the buffer.
pub record SendsBytes (n : ℕ) (o : Output) (buffer : Bytes) (r : ℤ × Output) : Type 0 where
  pub s : SockObj
  pub there : r.1.p_sock_obj ≡ some s
  pub n_is : r.1.n_bytes_in_buff ≡ n
  pub same_buffer : r.1.send_buffer ≡ o.send_buffer
  pub sent :
      r.1.ctr_socket_write_errors ≡ 0
      → (o.ctr_socket_write_errors ≡ 0) × (r.1.wire ≡ o.wire ++ buffer) × (r.0 ≡ pos 0)

suc_not_zero : (n : ℕ) → (suc n == 0) ≡ false
suc_not_zero n = ground arith

-- The object `s` is there, and `rc` is what its send returned.
after_send-SendsBytes :
    (code rc : ℤ) (n : ℕ) (o o' : Output) (buffer : Bytes) (s : SockObj)
    → o'.p_sock_obj ≡ some s
    → o'.n_bytes_in_buff ≡ n
    → o'.send_buffer ≡ o.send_buffer
    → o'.ctr_socket_write_errors ≡ o.ctr_socket_write_errors
    → (is_neg rc ≡ false → o'.wire ≡ o.wire ++ buffer)
    → SendsBytes n o buffer (after_send code (rc, o'))
after_send-SendsBytes code (negsuc i) n o o' buffer s p m b c w = record {
  s = s;
  there = p;
  n_is = m;
  same_buffer = b;
  sent = λ z. absurd (omega arith);
}
after_send-SendsBytes code (pos zero) n o o' buffer s p m b c w = record {
  s = s;
  there = p;
  n_is = m;
  same_buffer = b;
  sent = λ z. (sym c ∙ z, w refl, refl);
}
after_send-SendsBytes code (pos (suc i)) n o o' buffer s p m b c w =
    rw (suc_not_zero i)
      (record { s = s; there = p; n_is = m; same_buffer = b; sent = λ z. absurd (omega arith) })

abbrev pub with_obj : Output → SockObj → Output
with_obj o s = record o { p_sock_obj = some s }

-- What the network has after a send without an error.
whole_on_wire :
    (l : Link) (buffer : Bytes) (r : ℤ × Link)
    → Sends l buffer r
    → is_neg r.0 ≡ false
    → r.1.wire ≡ l.wire ++ buffer
whole_on_wire l buffer r s h =
    let all : buffer ≡ s.part = s.split ∙ ap (λ t. s.part ++ t) (s.whole h) ∙ append-nil s.part in
    s.on_wire ∙ ap (λ t. l.wire ++ t) (sym all)

pub send_large-SendsBytes :
    (o : Output) (s : SockObj) (buffer : Bytes)
    → SendsBytes o.n_bytes_in_buff (with_obj o s) buffer (send_large buffer (with_obj o s))
unfolding send_large
send_large-SendsBytes o s buffer =
    let l : Link = record { obj = s; events = o.events; wire = o.wire } in
    after_send-SendsBytes (send buffer l).0 (send buffer l).0 o.n_bytes_in_buff (with_obj o s)
      (send_bytes buffer (with_obj o s)).1 buffer (send buffer l).1.obj refl refl refl refl
      (whole_on_wire l buffer (send buffer l) (send-Sends buffer l))

flush_created-SendsBytes :
    (o : Output) (s : SockObj)
    → SendsBytes 0
        (with_obj o s)
        (take o.n_bytes_in_buff o.send_buffer)
        (flush_created (with_obj o s))
unfolding flush_created
flush_created-SendsBytes o s =
    let buffer = take o.n_bytes_in_buff o.send_buffer in
    let l : Link = record { obj = s; events = o.events; wire = o.wire } in
    after_send-SendsBytes (neg 1) (send buffer l).0 0 (with_obj o s)
      (record ((send_bytes buffer (with_obj o s)).1) { n_bytes_in_buff = 0 }) buffer
      (send buffer l).1.obj refl refl refl refl
      (whole_on_wire l buffer (send buffer l) (send-Sends buffer l))

pub create_sock_obj-some :
    (sd : ℤ) (o : Output)
    → can_send o ≡ true
    → (s : SockObj) × (create_sock_obj sd o ≡ (pos 0, with_obj o s))
create_sock_obj-some sd o h = elim (Option-cases o.p_sock_obj) [
  | inl e ↦
      let c : o.creatable ≡ true = sym (ap (usable_obj o.creatable) e) ∙ h in
      (create_from_fd 0 sd, ap (create_if_null sd o) e ∙ rw c refl)
  | inr (s, e) ↦ (s, ap (create_if_null sd o) e ∙ ap (λ q. (pos 0, record o { p_sock_obj = q })) e)
]

pub clip_fit : (o : Output) → o.n_bytes_in_buff ≤ send_buffer_size → clip o ≡ o
clip_fit o h =
    let n : ltb send_buffer_size o.n_bytes_in_buff ≡ false = ground arith in
    ap (λ b. record o { n_bytes_in_buff = if b then send_buffer_size else o.n_bytes_in_buff }) n

-- A flush of an output that is ready.
pub record Flushes (o : Output) (r : ℤ × Output) : Type 0 where
  pub ready : IsReady r.1
  pub empty : r.1.n_bytes_in_buff ≡ 0
  pub sent :
      r.1.ctr_socket_write_errors ≡ 0
      → (o.ctr_socket_write_errors ≡ 0) × (r.1.wire ≡ stream o) × (r.0 ≡ pos 0)

SendsBytes-Flushes :
    (o : Output) (s : SockObj) (r : ℤ × Output)
    → IsReady o
    → SendsBytes 0 (with_obj o s) (take o.n_bytes_in_buff o.send_buffer) r
    → Flushes o r
SendsBytes-Flushes o s r h f = record {
  ready = record {
    fits = omega (arith, f.n_is);
    whole = ap length f.same_buffer ∙ h.whole;
    usable = ap (usable_obj r.1.creatable) f.there;
  };
  empty = f.n_is;
  sent = f.sent;
}

-- A flush of an output that is ready finds a socket object, or makes one.
pub flush_send_buffer_created :
    (sd : ℤ) (o : Output)
    → IsReady o
    → (s : SockObj) × (flush_send_buffer sd o ≡ flush_created (with_obj o s))
unfolding flush_send_buffer
flush_send_buffer_created sd o h =
    let (s, e) = create_sock_obj-some sd o h.usable in
    (
      s,
      ap (λ x. if_created flush_created (create_sock_obj sd x)) (clip_fit o h.fits)
          ∙ ap (if_created flush_created) e,
    )

pub flush_send_buffer-Flushes :
    (sd : ℤ) (o : Output) → IsReady o → Flushes o (flush_send_buffer sd o)
flush_send_buffer-Flushes sd o h =
    let (s, e) = flush_send_buffer_created sd o h in
    subst (Flushes o) (sym e) (SendsBytes-Flushes o s _ h (flush_created-SendsBytes o s))
