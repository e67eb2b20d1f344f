-- ===== src/SockObj/Send.antt =====
-- `sock_obj_send` of src/sock_fn/sock_obj.c and the bytes that the network takes.
use xmltp.Prelude.{
  ℕ, zero, suc, ◌+◌, ◌≡◌, refl, sym, ap, ◌∙◌, Bool, true, false, inl, inr, Bool-cases, none, some,
  List, [], ◌∷◌, ◌++◌, append_assoc, append-nil, arith, ℤ, pos, is_neg, ltb, leb, ◌==◌, length,
  length-append, take-append, drop-append, take, drop, not, ◌&&◌,
}
use mathlib.Core.Path.{subst}
use xmltp.Bytes.{Bytes}
use xmltp.SockObj.{
  SockObj, SendEvent, accepted, failed, Link, no_retry_left, sent_code, reconnect, send_loop,
  send_ext, send, eintr, is_reset, warning_reconnect_after_reset, sock_obj_signature,
}

-- What a send leaves on the wire: a part of the text from its start, and all of it where the code
-- is not negative.
pub record Sends (l : Link) (buffer : Bytes) (r : ℤ × Link) : Type 0 where
  pub part : Bytes
  pub rest : Bytes
  pub split : buffer ≡ part ++ rest
  pub on_wire : r.1.wire ≡ l.wire ++ part
  pub whole : is_neg r.0 ≡ false → rest ≡ []

take-drop : (k : ℕ) (s : Bytes) → s ≡ take k s ++ drop k s
take-drop zero s = refl
take-drop (suc k) [] = refl
take-drop (suc k) (c ∷ s) = ap (◌∷◌ c) (take-drop k s)

Sends-all :
    (l l' : Link) (buffer : Bytes) (rc : ℤ) → l'.wire ≡ l.wire ++ buffer → Sends l buffer (rc, l')
Sends-all l l' buffer rc e = record {
  part = buffer;
  rest = [];
  split = sym (append-nil buffer);
  on_wire = e;
  whole = λ _. refl;
}

Sends-none :
    (l l' : Link) (buffer : Bytes) (rc : ℤ)
    → l'.wire ≡ l.wire
    → is_neg rc ≡ true
    → Sends l buffer (rc, l')
Sends-none l l' buffer rc e n = record {
  part = [];
  rest = buffer;
  split = refl;
  on_wire = e ∙ sym (append-nil l.wire);
  whole = λ h. cc;
}

Sends-piece :
    (l l' : Link) (piece buffer : Bytes) (r : ℤ × Link)
    → l'.wire ≡ l.wire ++ piece
    → Sends l' buffer r
    → Sends l (piece ++ buffer) r
Sends-piece l l' piece buffer r e s = record {
  part = piece ++ s.part;
  rest = s.rest;
  split = ap (λ t. piece ++ t) s.split ∙ sym (append_assoc piece s.part s.rest);
  on_wire = s.on_wire ∙ ap (λ t. t ++ s.part) e ∙ append_assoc l.wire piece s.part;
  whole = s.whole;
}

Sends-wire :
    (l l' : Link) (buffer : Bytes) (r : ℤ × Link)
    → l'.wire ≡ l.wire
    → Sends l' buffer r
    → Sends l buffer r
Sends-wire l l' buffer r e s = record {
  part = s.part;
  rest = s.rest;
  split = s.split;
  on_wire = s.on_wire ∙ ap (λ t. t ++ s.part) e;
  whole = s.whole;
}

send_loop-Sends :
    (nr : Bool) (es : List SendEvent) (retry : ℕ) (buffer : Bytes) (l : Link)
    → Sends l buffer (send_loop nr es retry buffer l)
unfolding send_loop
send_loop-Sends nr [] retry buffer l = elim (Bool-cases (no_retry_left l.obj retry)) [
  | inl e ↦ rw e (Sends-none l _ buffer _ refl refl)
  | inr e ↦ rw e (Sends-all l _ buffer _ refl)
]
send_loop-Sends nr (accepted k ∷ es) retry buffer l =
    elim (Bool-cases (no_retry_left l.obj retry)) [
      | inl e ↦ rw (e, send_loop) (Sends-none l _ buffer _ refl refl)
      | inr e ↦ elim (Bool-cases (ltb (suc k) (length buffer))) [
        | inl m ↦
            let l' : Link = record l { wire = l.wire ++ take (suc k) buffer } in
            let rest = send_loop-Sends nr es (retry + 1) (drop (suc k) buffer) l' in
            let whole =
              Sends-piece l l' (take (suc k) buffer) (drop (suc k) buffer)
                (send_loop nr es (retry + 1) (drop (suc k) buffer) l') refl rest in
            rw (e, send_loop, m)
              (subst (λ t. Sends l t (send_loop nr es (retry + 1) (drop (suc k) buffer) l'))
                (sym (take-drop (suc k) buffer)) whole)
        | inr m ↦ rw (e, send_loop, m) (Sends-all l _ buffer _ refl)
      ]
    ]
send_loop-Sends true (failed errno opened ∷ es) retry buffer l =
    elim (Bool-cases (no_retry_left l.obj retry)) [
      | inl e ↦ rw (e, send_loop) (Sends-none l _ buffer _ refl refl)
      | inr e ↦ elim (Bool-cases (errno == eintr)) [
        | inl i ↦
            rw (e, send_loop, i)
              (Sends-wire l l buffer _ refl (send_loop-Sends true es (retry + 1) buffer l))
        | inr i ↦ elim (Bool-cases (is_reset errno)) [
          | inr k ↦ rw (e, send_loop, i, k) (Sends-none l _ buffer _ refl refl)
          | inl k ↦ rw (e, send_loop, i, k) (Sends-none l _ buffer _ refl refl)
        ]
      ]
    ]
send_loop-Sends false (failed errno none ∷ es) retry buffer l =
    elim (Bool-cases (no_retry_left l.obj retry)) [
      | inl e ↦ rw (e, send_loop) (Sends-none l _ buffer _ refl refl)
      | inr e ↦ elim (Bool-cases (errno == eintr)) [
        | inl i ↦
            rw (e, send_loop, i)
              (Sends-wire l l buffer _ refl (send_loop-Sends false es (retry + 1) buffer l))
        | inr i ↦ elim (Bool-cases (is_reset errno)) [
          | inr k ↦ rw (e, send_loop, i, k) (Sends-none l _ buffer _ refl refl)
          | inl k ↦ rw (e, send_loop, i, k) (Sends-none l _ buffer _ refl refl)
        ]
      ]
    ]
send_loop-Sends false (failed errno (some fd) ∷ es) retry buffer l =
    elim (Bool-cases (no_retry_left l.obj retry)) [
      | inl e ↦ rw (e, send_loop) (Sends-none l _ buffer _ refl refl)
      | inr e ↦ elim (Bool-cases (errno == eintr)) [
        | inl i ↦
            rw (e, send_loop, i)
              (Sends-wire l l buffer _ refl (send_loop-Sends false es (retry + 1) buffer l))
        | inr i ↦ elim (Bool-cases (is_reset errno)) [
          | inr k ↦ rw (e, send_loop, i, k) (Sends-none l _ buffer _ refl refl)
          | inl k ↦
              rw (e, send_loop, i, k)
                (Sends-wire l (reconnect (pos fd) l) buffer _ refl
                  (send_loop-Sends false es (retry + 1) buffer (reconnect (pos fd) l)))
        ]
      ]
    ]

pub not_empty : (c : ℕ) (s : Bytes) → (length (c ∷ s) == 0) ≡ false
not_empty c s = ground arith

-- `sock_obj_send`, whatever the operating system answers: a part of the text from its start is sent,
-- once and in order, and all of the text where the code is not negative.
pub send-Sends : (buffer : Bytes) (l : Link) → Sends l buffer (send buffer l)
unfolding send send_ext
send-Sends [] l = elim (Bool-cases (l.obj.signature == sock_obj_signature)) [
  | inr s ↦ rw s (Sends-none l l [] _ refl refl)
  | inl s ↦ rw s (Sends-all l l [] _ (sym (append-nil l.wire)))
]
send-Sends (c ∷ s) l = elim (Bool-cases (l.obj.signature == sock_obj_signature)) [
  | inr g ↦ rw g (Sends-none l l (c ∷ s) _ refl refl)
  | inl g ↦ elim (Bool-cases (is_neg l.obj.fd)) [
    | inl n ↦ rw (g, not_empty c s, n) (Sends-none l l (c ∷ s) _ refl refl)
    | inr n ↦ rw (g, not_empty c s, n) (send_loop-Sends false l.events 0 (c ∷ s) l)
  ]
]

-- A connected object that retries for ever, as the writer creates them.
pub record IsOpen (o : SockObj) : Type 0 where
  pub signed : (o.signature == sock_obj_signature) ≡ true
  pub connected : is_neg o.fd ≡ false
  pub patient : o.connect_max_retry ≡ 0

more_left :
    (as' : Bytes) (d : ℕ) (ds : Bytes)
    → ltb (suc (length as')) (suc (length (as' ++ d ∷ ds))) ≡ true
more_left as' d ds = ground (arith, length-append as' (d ∷ ds))

none_left : (n : ℕ) → ltb (suc n) (suc n) ≡ false
none_left n = ground arith

pub IsOpen-retries : (o : SockObj) (retry : ℕ) → IsOpen o → no_retry_left o retry ≡ false
IsOpen-retries o retry h = ap (λ n. not (n == 0) && leb n retry) h.patient

-- A round of the loop in which the first piece goes out.
send_loop-first :
    (a : ℕ) (as' : Bytes) (d : ℕ) (ds : Bytes) (es : List SendEvent) (retry : ℕ) (l : Link)
    → IsOpen l.obj
    → send_loop false (accepted (length as') ∷ es) retry ((a ∷ as') ++ d ∷ ds) l
      ≡ send_loop false es (retry + 1) (d ∷ ds) (record l { wire = l.wire ++ a ∷ as' })
unfolding send_loop
send_loop-first a as' d ds es retry l h =
    rw
      (
        IsOpen-retries l.obj retry h,
        send_loop,
        more_left as' d ds,
        take-append as' (d ∷ ds),
        drop-append as' (d ∷ ds),
      )
      refl

send_loop-last :
    (c : ℕ) (cs : Bytes) (es : List SendEvent) (retry : ℕ) (l : Link)
    → IsOpen l.obj
    → send_loop false (accepted (length cs) ∷ es) retry (c ∷ cs) l
      ≡ (sent_code retry, record l { events = es; wire = l.wire ++ c ∷ cs })
unfolding send_loop
send_loop-last c cs es retry l h =
    rw (IsOpen-retries l.obj retry h, send_loop, none_left (length cs)) refl

-- On a connected object, a text that the operating system takes in three pieces is sent, and no
-- connection was made again, but the code is that of a new connection.
pub send_three_pieces :
    (a b c : ℕ) (as' bs cs : Bytes) (es : List SendEvent) (o : SockObj) (wire : Bytes)
    → IsOpen o
    → send ((a ∷ as') ++ ((b ∷ bs) ++ c ∷ cs)) (record {
      obj = o;
      events = accepted (length as') ∷ accepted (length bs) ∷ accepted (length cs) ∷ es;
      wire = wire;
    })
      ≡ (
        warning_reconnect_after_reset,
        record { obj = o; events = es; wire = wire ++ ((a ∷ as') ++ ((b ∷ bs) ++ c ∷ cs)) },
      )
unfolding send send_ext
send_three_pieces a b c as' bs cs es o wire h =
    let l : Link = record { obj = o; events = es; wire = wire } in
    let text = (a ∷ as') ++ ((b ∷ bs) ++ c ∷ cs) in
    rw (h.signed, not_empty a (as' ++ ((b ∷ bs) ++ c ∷ cs)), h.connected)
      (send_loop-first a as' b (bs ++ c ∷ cs) _ 0 _ h
        ∙ send_loop-first b bs c cs _ 1 _ h
        ∙ send_loop-last c cs es 2 _ h
        ∙ ap (λ w. (warning_reconnect_after_reset, record l { wire = w }))
            (append_assoc (wire ++ a ∷ as') (b ∷ bs) (c ∷ cs)
              ∙ append_assoc wire (a ∷ as') ((b ∷ bs) ++ c ∷ cs)))
