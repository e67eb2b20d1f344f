-- ===== src/Writer/Buffer.antt =====
-- `sf_write_string` of src/xmltp/xmltp_writer.c on the stream of bytes that goes to the socket.
use xmltp.Prelude.{
  ℕ, ◌+◌, ◌-◌, ◌≤◌, ◌<◌, ◌≡◌, refl, sym, ap, ◌∙◌, true, false, inl, inr, Bool-cases, [], ◌∷◌, ◌++◌,
  append_assoc, append-nil, arith, ℤ, is_neg, leb, ◌==◌, length, length-append, length-take,
  length-drop, take-append, take, drop,
}
use xmltp.Bytes.{Bytes, c_string, strlen}
use xmltp.Writer.{
  send_buffer_size, Output, append_to_buffer, send_large, buffer_or_send, if_flushed, write_bytes,
  write_string, put,
}
use xmltp.Writer.Ready.{
  stream, IsReady, Extends, usable_obj, with_obj, send_large-SendsBytes, create_sock_obj-some,
  Flushes, flush_send_buffer-Flushes,
}

take-all_length : (n : ℕ) (s : Bytes) → n ≤ length s → length (take n s) ≡ n
take-all_length n s h = omega (arith, length-take n s)

-- The text behind the buffered bytes.
append_to_buffer-Extends :
    (o : Output) (str : Bytes)
    → IsReady o
    → o.n_bytes_in_buff + length str ≤ send_buffer_size
    → Extends o (append_to_buffer str o) str
append_to_buffer-Extends o str h l =
    let n = o.n_bytes_in_buff in
    let kept : length (take n o.send_buffer) ≡ n =
      take-all_length n o.send_buffer (omega (arith, h.whole, h.fits)) in
    let front : length (take n o.send_buffer ++ str) ≡ n + length str =
      length-append (take n o.send_buffer) str ∙ ap (λ k. k + length str) kept in
    record {
      ready = record {
        fits = l;
        whole =
            length-append (take n o.send_buffer ++ str) (drop (n + length str) o.send_buffer)
            ∙ omega (arith, front, length-drop (n + length str) o.send_buffer, h.whole);
        usable = h.usable;
      };
      delivered = λ z. (
        z,
        ap (λ t. o.wire ++ t)
              (ap
                  (λ k.
                    take k ((take n o.send_buffer ++ str) ++ drop (n + length str) o.send_buffer))
                  (sym front)
                ∙ take-append (take n o.send_buffer ++ str) (drop (n + length str) o.send_buffer))
            ∙ sym (append_assoc o.wire (take n o.send_buffer) str),
      );
    }

pub stream_empty : (o : Output) → o.n_bytes_in_buff ≡ 0 → stream o ≡ o.wire
stream_empty o e = ap (λ k. o.wire ++ take k o.send_buffer) e ∙ append-nil o.wire

buffer_or_send-Extends :
    (sd : ℤ) (str : Bytes) (o : Output)
    → IsReady o
    → (length str < send_buffer_size → o.n_bytes_in_buff + length str ≤ send_buffer_size)
    → (send_buffer_size ≤ length str → o.n_bytes_in_buff ≡ 0)
    → Extends o (buffer_or_send sd str o).1 str
unfolding buffer_or_send
buffer_or_send-Extends sd str o h room idle =
    elim (Bool-cases (leb send_buffer_size (length str))) [
      | inr m ↦ rw m (append_to_buffer-Extends o str h (room (ground arith)))
      | inl m ↦
          let (s, e) = create_sock_obj-some sd o h.usable in
          let f = send_large-SendsBytes o s str in
          let z = idle (ground arith) in
          rw (m, e)
            (record {
              ready = record {
                fits = omega (arith, f.n_is, z);
                whole = ap length f.same_buffer ∙ h.whole;
                usable = ap (usable_obj (send_large str (with_obj o s)).1.creatable) f.there;
              };
              delivered = λ c.
                  let (c', w, code) = f.sent c in
                  (
                    c',
                    stream_empty (send_large str (with_obj o s)).1 (f.n_is ∙ z)
                        ∙ w
                        ∙ ap (λ t. t ++ str) (sym (stream_empty o z)),
                  );
            })
    ]

-- What follows a flush.
after_flush-Extends :
    (sd : ℤ) (str : Bytes) (o : Output) (r : ℤ × Output)
    → Flushes o r
    → Extends o (if_flushed (buffer_or_send sd str) r).1 str
after_flush-Extends sd str o (rc, o') f = elim (Bool-cases (is_neg rc)) [
  | inl n ↦ rw n (record {
    ready = f.ready;
    delivered = λ c.
        let (c', w, code) = f.sent c in
        let neg_code : is_neg rc ≡ false = ap is_neg code in absurd (ground arith);
  })
  | inr n ↦
      let x =
        buffer_or_send-Extends sd str o' f.ready (λ l. omega (arith, f.empty)) (λ _. f.empty) in
      rw n (record {
        ready = x.ready;
        delivered = λ c.
            let (c', w) = x.delivered c in
            let (c'', w', code) = f.sent c' in
            (c'', w ∙ ap (λ t. t ++ str) (stream_empty o' f.empty ∙ w'));
      })
]

write_bytes-Extends :
    (sd : ℤ) (str : Bytes) (o : Output) → IsReady o → Extends o (write_bytes sd str o).1 str
unfolding write_bytes
write_bytes-Extends sd str o h =
    elim (Bool-cases (leb (send_buffer_size - o.n_bytes_in_buff) (length str))) [
      | inl m ↦ rw m (after_flush-Extends sd str o _ (flush_send_buffer-Flushes sd o h))
      | inr m ↦ rw m (
          buffer_or_send-Extends sd str o h (λ _. ground (arith, h.fits))
            (λ l. absurd (ground (arith, h.fits))))
    ]

Extends-nothing : (o : Output) (text : Bytes) → IsReady o → text ≡ [] → Extends o o text
Extends-nothing o text h e = record {
  ready = h;
  delivered = λ c. (c, sym (append-nil (stream o)) ∙ ap (λ t. stream o ++ t) (sym e));
}

empty_string : (s : Bytes) → (length s == 0) ≡ true → s ≡ []
empty_string [] h = refl
empty_string (c ∷ s) h = absurd (ground arith)

-- `sf_write_string`, whatever the operating system answers: the output stays ready, and unless a
-- send has failed, by then or before, the stream has exactly the string more, up to its NUL.
pub put-Extends :
    (sd : ℤ) (str : Bytes) (o : Output) → IsReady o → Extends o (put sd str o) (c_string str)
unfolding write_string
put-Extends sd str o h = elim (Bool-cases (leb 1 o.ctr_socket_write_errors)) [
  | inl m ↦ rw (m, put, write_string) (record { ready = h; delivered = λ c. absurd (ground arith) })
  | inr m ↦ elim (Bool-cases (strlen str == 0)) [
    | inl z ↦
        rw (m, put, write_string, z)
          (Extends-nothing o (c_string str) h (empty_string (c_string str) z))
    | inr z ↦ rw (m, put, write_string, z) (write_bytes-Extends sd (c_string str) o h)
  ]
]
