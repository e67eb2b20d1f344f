-- ===== src/SockObj/Live.antt =====
-- src/sock_fn/sock_obj.c: a send that is kept up until the text is out.
use xmltp.Prelude.{
  ℕ, suc, ◌+◌, ◌<◌, ◌≤◌, true, false, Bool-cases, ◌⊎◌, inl, inr, Option, none, some, List, [], ◌∷◌,
  ◌++◌, ◌≡◌, refl, sym, append-nil, ap, ◌∙◌, arith, ◌==◌, ltb, leb, if◌then◌else◌, length, take,
  drop, length-drop, All, ℤ, pos, is_neg,
}
use xmltp.Bytes.{Bytes}
use xmltp.SockObj.{
  SockObj, SendEvent, accepted, failed, Link, eintr, is_reset, sent_code, reconnect, send_loop,
  send, send_ext,
}
use xmltp.SockObj.Send.{send-Sends, IsOpen, IsOpen-retries, not_empty}

-- An answer before any byte is taken: an interruption, or a broken connection that is made again.
abbrev pub IsFresh : SendEvent → Type 0
IsFresh (accepted k) = ⊥
IsFresh (failed errno opened) =
    (errno ≡ eintr) ⊎ ((is_reset errno ≡ true) × (fd : ℕ) × (opened ≡ some fd))

-- An answer on a connection that holds: bytes taken, or an interruption.
abbrev pub Holds : SendEvent → Type 0
Holds (accepted k) = Unit {0}
Holds (failed errno opened) = errno ≡ eintr

-- How many bytes the answers take at most.
abbrev pub taken : List SendEvent → ℕ
taken [] = 0
taken (accepted k ∷ es) = suc k + taken es
taken (failed errno opened ∷ es) = taken es

abbrev pub opened_or : ℤ → Option ℕ → ℤ
opened_or fd none = fd
opened_or fd (some n) = pos n

-- The descriptor of the connection that the last answer leaves.
abbrev pub last_fd : List SendEvent → ℤ → ℤ
last_fd [] fd = fd
last_fd (accepted k ∷ es) fd = last_fd es fd
last_fd (failed errno opened ∷ es) fd =
    last_fd es (if errno == eintr then fd else opened_or fd opened)

-- A send that has ended well, on this connection.
abbrev Done : SockObj → ℤ × Link → Type 0
Done o r = (is_neg r.0 ≡ false) × (r.1.obj ≡ o)

sent_code-not_neg : (n : ℕ) → is_neg (sent_code n) ≡ false
sent_code-not_neg n = elim (Bool-cases (leb n 1)) [ inl e ↦ rw e refl | inr e ↦ rw e refl ]

IsOpen-reconnect : (o : SockObj) (fd : ℕ) → IsOpen o → IsOpen (record o { fd = pos fd })
IsOpen-reconnect o fd h = record { signed = h.signed; connected = refl; patient = h.patient }

send_loop-holds :
    (es : List SendEvent) (retry : ℕ) (buffer : Bytes) (l : Link)
    → IsOpen l.obj
    → All Holds es
    → 0 < length buffer
    → length buffer ≤ taken es
    → Done l.obj (send_loop false es retry buffer l)
unfolding send_loop
send_loop-holds [] retry buffer l h r lo hi = absurd (omega arith)
send_loop-holds (accepted k ∷ es) retry buffer l h (_, r) lo hi =
    elim (Bool-cases (ltb (suc k) (length buffer))) [
      | inl m ↦
          let n = length-drop (suc k) buffer in
          rw (IsOpen-retries l.obj retry h, send_loop, m)
            (send_loop-holds es (retry + 1) (drop (suc k) buffer)
              (record l { wire = l.wire ++ take (suc k) buffer }) h r (ground (arith, n))
              (ground (arith, n)))
      | inr m ↦ rw (IsOpen-retries l.obj retry h, send_loop, m) (sent_code-not_neg retry, refl)
    ]
send_loop-holds (failed errno opened ∷ es) retry buffer l h (e, r) lo hi =
    let i : (errno == eintr) ≡ true = ground arith in
    rw (IsOpen-retries l.obj retry h, send_loop, i)
      (send_loop-holds es (retry + 1) buffer l h r lo hi)

send_loop-fresh :
    (before after : List SendEvent) (retry : ℕ) (buffer : Bytes) (l : Link)
    → IsOpen l.obj
    → All IsFresh before
    → All Holds after
    → 0 < length buffer
    → length buffer ≤ taken after
    → Done
        (record (l.obj) { fd = last_fd before l.obj.fd })
        (send_loop false (before ++ after) retry buffer l)
unfolding send_loop
send_loop-fresh [] after retry buffer l h f r lo hi = send_loop-holds after retry buffer l h r lo hi
send_loop-fresh (accepted k ∷ es) after retry buffer l h (f, _) r lo hi = absurd f
send_loop-fresh (failed errno opened ∷ es) after retry buffer l h (inl e, f) r lo hi =
    let i : (errno == eintr) ≡ true = ground arith in
    rw (IsOpen-retries l.obj retry h, send_loop, i)
      (send_loop-fresh es after (retry + 1) buffer l h f r lo hi)
send_loop-fresh (failed errno none ∷ es) after retry buffer l h (inr (k, fd, e), f) r lo hi =
    absurd cc
send_loop-fresh (failed errno (some fd) ∷ es) after retry buffer l h (inr (k, _, _), f) r lo hi =
    elim (Bool-cases (errno == eintr)) [
      | inl i ↦
          rw (IsOpen-retries l.obj retry h, send_loop, i)
            (send_loop-fresh es after (retry + 1) buffer l h f r lo hi)
      | inr i ↦
          rw (IsOpen-retries l.obj retry h, send_loop, i, k)
            (send_loop-fresh es after (retry + 1) buffer (reconnect (pos fd) l)
              (IsOpen-reconnect l.obj fd h) f r lo hi)
    ]

send-Done :
    (buffer : Bytes) (before after : List SendEvent) (o : SockObj) (wire : Bytes)
    → IsOpen o
    → All IsFresh before
    → All Holds after
    → 0 < length buffer
    → length buffer ≤ taken after
    → Done
        (record o { fd = last_fd before o.fd })
        (send buffer (record { obj = o; events = before ++ after; wire = wire }))
unfolding send send_ext
send-Done [] before after o wire h f r lo hi = absurd (omega arith)
send-Done (c ∷ s) before after o wire h f r lo hi =
    rw (h.signed, not_empty c s, h.connected)
      (send_loop-fresh before after 0 (c ∷ s)
        (record { obj = o; events = before ++ after; wire = wire }) h f r lo hi)

-- `sock_obj_send` of a text that is not empty, on a connected object that retries for ever, where
-- the operating system answers first with interruptions and broken connections that are made again,
-- and takes nothing, and then with interruptions and with as many bytes as the text has: it returns
-- with a code that is not negative, the object has the descriptor of the last of these connections,
-- and the network has taken the whole text, once and in order, all of it on that connection.
pub send-Completes :
    (buffer : Bytes) (before after : List SendEvent) (o : SockObj) (wire : Bytes)
    → IsOpen o
    → All IsFresh before
    → All Holds after
    → 0 < length buffer
    → length buffer ≤ taken after
    → let r = send buffer (record { obj = o; events = before ++ after; wire = wire }) in
      (is_neg r.0 ≡ false)
      × (r.1.obj ≡ record o { fd = last_fd before o.fd })
      × (r.1.wire ≡ wire ++ buffer)
send-Completes buffer before after o wire h f r lo hi =
    let l : Link = record { obj = o; events = before ++ after; wire = wire } in
    let sent = send-Sends buffer l in
    let (ok, same) = send-Done buffer before after o wire h f r lo hi in
    (
      ok,
      same,
      sent.on_wire
          ∙ ap (λ (t : Bytes). wire ++ t)
              (sym (append-nil sent.part)
                ∙ ap (λ (t : Bytes). sent.part ++ t) (sym (sent.whole ok))
                ∙ sym sent.split),
    )
