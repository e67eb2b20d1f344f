-- ===== src/Writer/Run.antt =====
-- Whole responses and calls: sequences of calls of src/xmltp/xmltp_writer.c.
use mathlib.Core.Path.{subst}
use xmltp.Prelude.{
  ℕ, ◌≡◌, refl, sym, ap, ◌∙◌, true, Bool-cases, eq_cases, ◌≤◌, ◌⊎◌, arith, Option-cases, inl, inr,
  Option, none, some, List, [], ◌∷◌, ◌++◌, append-nil, append_assoc, ℤ, pos, eq_ℤ, eq_ℤ_iff,
  if◌then◌else◌, All,
}
use xmltp.Writer.{Writer, Output, fresh_flags}
use xmltp.Writer.Ready.{IsReady, stream}
use xmltp.Writer.Buffer.{stream_empty}
use xmltp.Writer.Items.{Item, render, render-append}
use xmltp.Writer.Phase.{Phase, before, ended, Call, Outcome, step, steps, after, nested}
use xmltp.Writer.Calls.{do_call, IsCall, InPhase, Does}
use xmltp.Writer.Refine.{do_call-Refines}
use xmltp.Writer.Nesting.{steps-Balances}

abbrev pub Result : Type 0
Result = Option (ℤ × Writer)

-- The next calls, while the code is 0.
abbrev pub if_done : (Writer → Result) → Result → Result
if_done go_on none = none
if_done go_on (some (code, w)) = if eq_ℤ code (pos 0) then go_on w else some (code, w)

-- Calls in a row, up to the first code that is not 0.
unfoldable pub do_calls : ℕ → List Call → Writer → Result
do_calls fd [] w = some (pos 0, w)
do_calls fd (c ∷ calls) w = if_done (do_calls fd calls) (do_call fd c w)

-- What a run of calls does, unless a send has failed.
pub record Runs (p : Phase) (items : List Item) (o : Output) (r : Result) : Type 0 where
  pub code : ℤ
  pub w : Writer
  pub returned : r ≡ some (code, w)
  pub ready : IsReady w.out
  pub completed :
      w.out.ctr_socket_write_errors ≡ 0
      → (code ≡ pos 0)
        × InPhase p w
        × (o.ctr_socket_write_errors ≡ 0)
        × (stream w.out ≡ stream o ++ render items)

then_Runs :
    (p q : Phase) (items more : List Item) (o : Output) (go_on : Writer → Result) (r : Result)
    → (d : Does p items o r) → Runs q more d.w.out (go_on d.w)
    → Runs q (items ++ more) o (if_done go_on r)
then_Runs p q items more o go_on r d x = elim (Bool-cases (eq_ℤ d.code (pos 0))) [
  | inl e ↦
      rw (d.returned, e)
        (record {
          code = x.code;
          w = x.w;
          returned = x.returned;
          ready = x.ready;
          completed = λ z.
              let (c, i, z', s) = x.completed z in
              let (z'', s') = d.extends.delivered z' in
              (
                c,
                i,
                z'',
                s
                    ∙ ap (λ t. t ++ render more) s'
                    ∙ append_assoc (stream o) (render items) (render more)
                    ∙ ap (λ t. stream o ++ t) (sym (render-append items more)),
              );
        })
  | inr e ↦
      rw (d.returned, e)
        (record {
          code = d.code;
          w = d.w;
          returned = refl;
          ready = d.extends.ready;
          completed = λ z.
              let zero_code : eq_ℤ d.code (pos 0) ≡ true =
                (eq_ℤ_iff d.code (pos 0)).1 (d.no_error z) in
              absurd cc;
        })
]

abbrev RunsTo : Output → Outcome → Result → Type 0
RunsTo o none r = Unit
RunsTo o (some (p, items)) r = Runs p items o r

then_RunsTo :
    (p : Phase) (items : List Item) (o : Output) (go_on : Writer → Result) (r : Result)
    (rest : Outcome) (d : Does p items o r)
    → RunsTo d.w.out rest (go_on d.w)
    → RunsTo o (after items rest) (if_done go_on r)
then_RunsTo p items o go_on r none d x = tt
then_RunsTo p items o go_on r (some (q, more)) d x = then_Runs p q items more o go_on r d x

do_calls-RunsTo :
    (fd : ℕ) (calls : List Call) (p : Phase) (w : Writer)
    → IsReady w.out
    → InPhase p w
    → All IsCall calls
    → RunsTo w.out (steps p calls) (do_calls fd calls w)
unfolding do_calls
do_calls-RunsTo fd [] p w h i z = record {
  code = pos 0;
  w = w;
  returned = refl;
  ready = h;
  completed = λ e. (refl, i, e, sym (append-nil (stream w.out)));
}
do_calls-RunsTo fd (c ∷ calls) p w h i z = elim (Option-cases (step p c)) [
  | inl e ↦ rw e tt
  | inr ((q, items), e) ↦
      let d = do_call-Refines fd p q c items w h i z.0 e in
      rw e (
        then_RunsTo q items w.out (do_calls fd calls) (do_call fd c w) (steps q calls) d
          (do_calls-RunsTo fd calls q d.w d.extends.ready d.in_phase z.1))
]

-- Calls of the writer in an order that the protocol allows, on an output that is ready: whatever
-- the operating system answers, they return, and unless a send has failed, by then or before,
-- every code is 0, the flags are those of the phase that the protocol reaches, and the bytes sent
-- and buffered are those before and then exactly the markup of the specification.
pub do_calls-Runs :
    (fd : ℕ) (p q : Phase) (calls : List Call) (items : List Item) (w : Writer)
    → IsReady w.out
    → InPhase p w
    → All IsCall calls
    → steps p calls ≡ some (q, items)
    → Runs q items w.out (do_calls fd calls w)
do_calls-Runs fd p q calls items w h i z e =
    subst (λ r. RunsTo w.out r (do_calls fd calls w)) e (do_calls-RunsTo fd calls p w h i z)

-- A whole response or call, from the fresh state of the writer to the end of the protocol: the
-- calls return, the markup is balanced, and unless a send has failed the network has received,
-- behind what it had, what waited in the buffer and then exactly this markup, and nothing waits.
pub response-Delivered :
    (fd : ℕ) (calls : List Call) (items : List Item) (o : Output)
    → IsReady o
    → All IsCall calls
    → steps before calls ≡ some (ended, items)
    → (code : ℤ) × (w : Writer) × (do_calls fd calls (record { flags = fresh_flags; out = o })
        ≡ some (code, w))
      × (nested [] items ≡ some [])
      × ((1 ≤ w.out.ctr_socket_write_errors)
          ⊎ ((code ≡ pos 0)
              × (w.out.wire ≡ stream o ++ render items)
              × (w.out.n_bytes_in_buff ≡ 0)))
response-Delivered fd calls items o h z e =
    let start : Writer = record { flags = fresh_flags; out = o } in
    let x =
      do_calls-Runs fd before ended calls items start h
        (record { base = fresh_flags; flags_are = refl; output_in = tt }) z e in
    (
      x.code,
      x.w,
      x.returned,
      steps-Balances before ended calls items e,
      (elim (eq_cases x.w.out.ctr_socket_write_errors 0) [
        | inr n ↦ inl (omega arith)
        | inl n ↦
            let (c, i, _, s) = x.completed n in
            inr (c, sym (stream_empty x.w.out i.output_in) ∙ s, i.output_in)
      ]),
    )
