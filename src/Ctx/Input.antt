-- ===== src/Ctx/Input.antt =====
-- `xmltp_ctx_get_input_char` of src/xmltp/xmltp_ctx.c and the stream of bytes that it reads from.
use xmltp.Prelude.{
  length-set, length-drop, ℕ, zero, suc, ◌+◌, ◌-◌, ◌≤◌, ◌<◌, ◌≡◌, refl, sym, ap, ◌∙◌, false, inl,
  inr, Option, none, some, List, [], ◌∷◌, ◌++◌, arith, ℤ, pos, neg, ltb, leb, if◌then◌else◌,
  Bool-cases, length, length-append, get_or, set, take, drop, All,
}
use xmltp.Bytes.{Bytes}
use xmltp.Ctx.{
  Event, elapsed, set_timeout_failed, interrupted, again, failed, closed, received, InputState,
  Context, ctx_signature, inp_buffer_size, check_signature, parser_error,
}
use xmltp.Ctx.Recv.{store_received, refill, take_char, after_refill, get_input_char}

-- The bytes that events bring, up to the first that ends the stream.
abbrev pub arriving : ℕ → List Event → Bytes
arriving t [] = []
arriving t (elapsed ∷ es) = if ltb 0 t then [] else arriving t es
arriving t (set_timeout_failed text ∷ es) = if ltb 0 t then [] else arriving t es
arriving t (interrupted ∷ es) = arriving t es
arriving t (again ∷ es) = arriving t es
arriving t (failed ∷ es) = []
arriving t (closed ∷ es) = []
arriving t (received b bs ∷ es) = b ∷ (bs ++ arriving t es)

-- The bytes that are still to be read: what is left in the buffer, then what arrives.
abbrev pub pending : InputState → Bytes
pending i =
    take (i.nb_bytes - i.curr_pos) (drop i.curr_pos i.inp_buffer)
    ++ arriving i.timeout_recv i.incoming

-- `recv` delivers no more than its size argument, `sizeof(inp_buffer) - 1`.
abbrev pub FitsBuffer : Event → Type 0
FitsBuffer (received b bs) = length bs + 1 < inp_buffer_size
FitsBuffer _ = Unit

pub record IsReady (i : InputState) : Type 0 where
  pub in_buffer : i.nb_bytes < inp_buffer_size
  pub within : i.curr_pos ≤ i.nb_bytes
  pub size : length i.inp_buffer ≡ inp_buffer_size
  pub fits : All FitsBuffer i.incoming

take-drop_cons :
    (n k : ℕ) (xs : Bytes)
    → k < n
    → n ≤ length xs
    → take (n - k) (drop k xs) ≡ get_or xs k 0 ∷ take (n - suc k) (drop (suc k) xs)
take-drop_cons n k [] h le = absurd (omega arith)
take-drop_cons zero k (x ∷ xs) h le = absurd (omega arith)
take-drop_cons (suc n) zero (x ∷ xs) h le =
    let e : suc n - 0 ≡ suc n = omega arith in let f : suc n - 1 ≡ n = omega arith in rw (e, f)
take-drop_cons (suc n) (suc k) (x ∷ xs) h le =
    let e : suc n - suc k ≡ n - k = omega arith in
    let f : suc n - suc (suc k) ≡ n - suc k = omega arith in
    rw (e, f) (take-drop_cons n k xs (omega arith) (omega arith))

-- The next byte is the one at `curr_pos`, where the buffer holds one.
pending-cons :
    (i : InputState)
    → IsReady i
    → i.curr_pos < i.nb_bytes
    → pending i
      ≡ get_or i.inp_buffer i.curr_pos 0 ∷ pending (record i { curr_pos = i.curr_pos + 1 })
pending-cons i r h =
    let e : i.curr_pos + 1 ≡ suc i.curr_pos = omega arith in
    rw (e, take-drop_cons i.nb_bytes i.curr_pos i.inp_buffer h (omega (arith, r.in_buffer, r.size)))

pending-empty :
    (i : InputState) → i.nb_bytes ≤ i.curr_pos → pending i ≡ arriving i.timeout_recv i.incoming
pending-empty i h = let e : i.nb_bytes - i.curr_pos ≡ 0 = omega arith in rw e

take-set : (xs ys : Bytes) (v : ℕ) → take (length xs) (set (xs ++ ys) (length xs) v) ≡ xs
take-set [] ys v = refl
take-set (x ∷ xs) ys v = ap (◌∷◌ x) (take-set xs ys v)

-- What `recv` has put in the buffer stands before what arrives later.
store_received-IsReady :
    (i : InputState) (b : ℕ) (bs : Bytes) (es : List Event)
    → length i.inp_buffer ≡ inp_buffer_size
    → length bs + 1 < inp_buffer_size
    → All FitsBuffer es
    → IsReady (store_received i (b ∷ bs) es)
      × (pending (store_received i (b ∷ bs) es) ≡ b ∷ (bs ++ arriving i.timeout_recv es))
unfolding store_received
store_received-IsReady i b bs es size fits rest =
    let n : leb inp_buffer_size (length (b ∷ bs)) ≡ false = ground arith in
    let k : suc (length bs) - 0 ≡ suc (length bs) = omega arith in
    rw n (
      record {
        in_buffer = omega arith;
        within = omega arith;
        size =
            length-set (b ∷ bs ++ drop (suc (length bs)) i.inp_buffer) (suc (length bs)) 0
            ∙ length-append (b ∷ bs) (drop (suc (length bs)) i.inp_buffer)
            ∙ omega (arith, length-drop (suc (length bs)) i.inp_buffer);
        fits = rest;
      },
      rw (k, take-set bs (drop (suc (length bs)) i.inp_buffer) 0),
    )

-- A refill either brings the bytes that arrive, or fails where none arrive.
record Refilled (bytes : Bytes) (r : InputState × Option (Bytes × Bytes)) : Type 0 where
  ready : IsReady r.0
  brings : r.1 ≡ none → (pending r.0 ≡ bytes) × (r.0.curr_pos < r.0.nb_bytes)
  fails : (e : Bytes × Bytes) → r.1 ≡ some e → bytes ≡ []

module _ (i : InputState) (es : List Event) (r : IsReady i) (a : All FitsBuffer es) where
  Refilled-fail :
      (eof : ℕ) (text : Bytes × Bytes)
      → Refilled [] (record i { b_eof_disconnect = eof; incoming = es }, some text)
  Refilled-fail eof text = record {
    ready = record { in_buffer = r.in_buffer; within = r.within; size = r.size; fits = a };
    brings = λ h. cc;
    fails = λ e h. refl;
  }

refill-Refilled :
    (i : InputState) (es : List Event)
    → IsReady i
    → All FitsBuffer es
    → Refilled (arriving i.timeout_recv es) (refill i es)
unfolding refill
refill-Refilled i [] r a = Refilled-fail i [] r a 1 _
refill-Refilled i (elapsed ∷ es) r a = elim (Bool-cases (ltb 0 i.timeout_recv)) [
  | inl t ↦ rw (t, refill) (Refilled-fail i es r a.1 2 _)
  | inr f ↦ rw (f, refill) (refill-Refilled i es r a.1)
]
refill-Refilled i (set_timeout_failed text ∷ es) r a = elim (Bool-cases (ltb 0 i.timeout_recv)) [
  | inl t ↦ rw (t, refill) (Refilled-fail i es r a.1 i.b_eof_disconnect _)
  | inr f ↦ rw (f, refill) (refill-Refilled i es r a.1)
]
refill-Refilled i (interrupted ∷ es) r a = refill-Refilled i es r a.1
refill-Refilled i (again ∷ es) r a = refill-Refilled i es r a.1
refill-Refilled i (failed ∷ es) r a = Refilled-fail i es r a.1 1 _
refill-Refilled i (closed ∷ es) r a = Refilled-fail i es r a.1 1 _
refill-Refilled i (received b bs ∷ es) r a =
    let s = store_received-IsReady i b bs es r.size a.0 a.1 in
    record {
      ready = s.0;
      brings = λ h. (s.1, unfold store_received in omega arith);
      fails = λ e h. cc;
    }

abbrev pub IsValid : Context → Type 0
IsValid c = (c.signature ≡ ctx_signature) × IsReady c.input

-- What a call of `xmltp_ctx_get_input_char` gives on a context with these bytes to come.
abbrev pub Delivers : Context → Bytes → ℤ × Option Context → Type 0
Delivers c [] r = (c' : Context) × (r ≡ (neg 1, some c'))
Delivers c (b ∷ rest) r =
    (i : InputState) × (r ≡ (pos b, some (record c { input = i }))) × IsReady i × (pending i ≡ rest)

take_char-Delivers :
    (c : Context)
    → IsReady c.input
    → c.input.curr_pos < c.input.nb_bytes
    → Delivers c (pending c.input) (take_char c)
unfolding take_char
take_char-Delivers c r h =
    let low : ltb inp_buffer_size c.input.curr_pos ≡ false = ground (arith, r.in_buffer) in
    rw (pending-cons c.input r h) (
      record (c.input) { curr_pos = c.input.curr_pos + 1 },
      rw low,
      record { in_buffer = r.in_buffer; within = omega arith; size = r.size; fits = r.fits },
      refl,
    )

pub check_signature-valid :
    (c : Context) → c.signature ≡ ctx_signature → check_signature (some c) ≡ pos 0
unfolding check_signature
check_signature-valid c h = ground arith

parser_error-valid :
    (c : Context) (msg sval : Bytes)
    → c.signature ≡ ctx_signature
    → (c' : Context) × ((parser_error (some c) msg sval).1 ≡ some c')
unfolding parser_error
parser_error-valid c msg sval h = rw (check_signature-valid c h) (_, refl)

-- The old input does not matter.
Delivers-input :
    (c : Context) (i : InputState) (bytes : Bytes) (r : ℤ × Option Context)
    → Delivers (record c { input = i }) bytes r
    → Delivers c bytes r
Delivers-input c i [] r d = d
Delivers-input c i (b ∷ bytes) r d = d

after_refill-Delivers :
    (c : Context) (r : InputState × Option (Bytes × Bytes)) (bytes : Bytes)
    → c.signature ≡ ctx_signature
    → Refilled bytes r
    → Delivers c bytes (after_refill c r)
unfolding after_refill
after_refill-Delivers c (i, none) bytes h f = rw (sym (f.brings refl).0) (
    Delivers-input c i (pending i) _
      (take_char-Delivers (record c { input = i }) f.ready (f.brings refl).1))
after_refill-Delivers c (i, some (msg, sval)) bytes h f =
    let (c', e) = parser_error-valid (record c { input = i }) msg sval h in
    rw (f.fails (msg, sval) refl) (c', rw e)

-- On a valid context, whatever `recv` delivers and however it cuts and repeats: the call returns
-- the next byte of the stream, changes nothing but the input, and leaves the rest of the stream;
-- where the stream has ended, it returns -1.
pub get_input_char-Delivers :
    (c : Context) → IsValid c → Delivers c (pending c.input) (get_input_char (some c))
unfolding get_input_char
get_input_char-Delivers c (sig, r) = elim (Bool-cases (leb c.input.nb_bytes c.input.curr_pos)) [
  | inl e ↦
      rw (check_signature-valid c sig, e, pending-empty c.input (ground arith))
        (after_refill-Delivers c _ _ sig (refill-Refilled c.input c.input.incoming r r.fits))
  | inr e ↦ rw (check_signature-valid c sig, e) (take_char-Delivers c r (ground arith))
]
