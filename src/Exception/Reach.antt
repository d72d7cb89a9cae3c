-- ===== src/Exception/Reach.antt =====
-- The states that a program reaches by the operations of exception.c.
use uparted.Base.{
  Bool, Bool-cases, Option, Option-cases, Run, ap, ap₂, arith, deref, done, eqb_ℤ, false,
  if◌then◌else◌, inl, inr, int_laws, none, none-ne-some, not, pos, refl, some, subst, sym, true, ℕ,
  ◌<ℤ◌, ◌>>=◌, ◌∙◌, ◌≡◌, ◌≤ℤ◌,
}
use uparted.Exception.{
  Exception, ExceptionType, State, catch, do_throw, fetch_all, initial, leave_all, rethrow,
  set_handler, throw, unhandled,
}

-- A call of one of the operations: an exception is rethrown only while it is not resolved, and
-- `ped_exception_leave_all` follows a `ped_exception_fetch_all`.
pub data Step : State → State → Type 0 where
  throws :
      (ex_type : ExceptionType) (ex_opts answer : ℕ) (s t : State)
      → throw ex_type ex_opts s ≡ done (answer, t)
      → Step s t
  rethrows :
      (answer : ℕ) (s t : State) → s.ped_exception ≡ true → rethrow s ≡ done (answer, t) → Step s t
  catches : (s t : State) → catch s ≡ done t → Step s t
  fetches : (s : State) → Step s (fetch_all s)
  leaves : (s : State) → pos 0 <ℤ s.ex_fetch_count → Step s (leave_all s)
  sets : (handler : Option (Exception → ℕ)) (s : State) → Step s (set_handler handler s)

pub data Reachable : State → Type 0 where
  starts : Reachable initial
  goes : (s t : State) → Reachable s → Step s t → Reachable t

-- `ped_exception` is set if and only if there is an exception.
pub record IsConsistent (s : State) : Type 0 where
  pub pending : s.ped_exception ≡ true → (e : Exception) × (s.ex ≡ some e)
  pub resolved : s.ped_exception ≡ false → s.ex ≡ none
  pub count : pos 0 ≤ℤ s.ex_fetch_count

abbrev pub is_fetching : State → Bool
is_fetching s = not (eqb_ℤ s.ex_fetch_count (pos 0))

-- The state with the exception, and the one where there is none.
abbrev pub with_exception : State → Exception → State
with_exception s e = record s { ped_exception = true; ex = some e }

abbrev pub without_exception : State → State
without_exception s = record s { ped_exception = false; ex = none }

-- What throwing the exception leads to.
abbrev pub thrown : State → Exception → ℕ × State
thrown s e =
    if is_fetching s then (unhandled, with_exception s e) else (s.ex_handler e, without_exception s)

same_state : (s : State) → s.ped_exception ≡ false → s.ex ≡ none → s ≡ without_exception s
same_state s flag empty =
    ap₂ (λ (f : Bool) (o : Option Exception). record s { ped_exception = f; ex = o }) flag empty

catch_lem : (s : State) → IsConsistent s → catch s ≡ done (without_exception s)
unfolding catch
catch_lem s ok = elim (Bool-cases s.ped_exception) [
  | inl e ↦ let (exception, here) = ok.pending e in rw (e, here) refl
  | inr e ↦
      subst
        (λ b.
          (if b then (deref s.ex >>= λ x. done (without_exception s)) else done s)
          ≡ done (without_exception s))
        (sym e) (ap done (same_state s e (ok.resolved e)))
]

do_throw_lem : (s : State) (e : Exception) → s.ex ≡ some e → do_throw s ≡ done (thrown s e)
unfolding do_throw catch
do_throw_lem s e here = elim (Bool-cases (eqb_ℤ s.ex_fetch_count (pos 0))) [
  | inl fetching ↦ rw (fetching, here) refl
  | inr other ↦
      rw other (ap (λ o. done (unhandled, record s { ped_exception = true; ex = o })) here)
]

-- The exception that is not resolved yet is forgotten.
forget_lem :
    (s : State)
    → IsConsistent s
    → (elim s.ex as (λ x. Run State) [ none ↦ done s | some e ↦ catch s ])
      ≡ done (without_exception s)
forget_lem s ok = elim (Option-cases s.ex) [
  | inr (e, here) ↦
      ap (λ (o : Option Exception). elim o as (λ x. Run State) [ none ↦ done s | some e ↦ catch s ])
        here
      ∙ catch_lem s ok
  | inl empty ↦
      ap (λ (o : Option Exception). elim o as (λ x. Run State) [ none ↦ done s | some e ↦ catch s ])
        empty
      ∙ ap done (same_state s (quiet empty) empty)
]
  where
    quiet : s.ex ≡ none → s.ped_exception ≡ false
    quiet empty = elim (Bool-cases s.ped_exception) [
      | inl e ↦
          let (exception, here) = ok.pending e in absurd (none-ne-some exception (sym empty ∙ here))
      | inr e ↦ e
    ]

throw_consistent :
    (s : State) (ex_type : ExceptionType) (ex_opts : ℕ)
    → IsConsistent s
    → throw ex_type ex_opts s ≡ done (thrown s (record { type = ex_type; options = ex_opts }))
unfolding throw
throw_consistent s ex_type ex_opts ok =
    let e : Exception = record { type = ex_type; options = ex_opts } in
    ap (λ m. m >>= λ forgotten. do_throw (record forgotten { ex = some e })) (forget_lem s ok)
    ∙ do_throw_lem (record s { ped_exception = false; ex = some e }) e refl

with_exception-IsConsistent :
    (s : State) (e : Exception) → IsConsistent s → IsConsistent (with_exception s e)
with_exception-IsConsistent s e ok = record {
  pending = λ h. (e, refl);
  resolved = λ h. absurd (ground arith);
  count = ok.count;
}

without_exception-IsConsistent :
    (s : State) → pos 0 ≤ℤ s.ex_fetch_count → IsConsistent (without_exception s)
without_exception-IsConsistent s h = record {
  pending = λ e. absurd (ground arith);
  resolved = λ e. refl;
  count = h;
}

thrown-IsConsistent : (s : State) (e : Exception) → IsConsistent s → IsConsistent (thrown s e).1
thrown-IsConsistent s e ok = elim (Bool-cases (is_fetching s)) [
  | inl fetching ↦ rw fetching (with_exception-IsConsistent s e ok)
  | inr other ↦ rw other (without_exception-IsConsistent s ok.count)
]

rethrow_run : (s : State) (e : Exception) → s.ex ≡ some e → rethrow s ≡ done (thrown s e)
unfolding rethrow
rethrow_run s e here = do_throw_lem s e here

fetch_all-IsConsistent : (s : State) → IsConsistent s → IsConsistent (fetch_all s)
unfolding fetch_all
fetch_all-IsConsistent s ok =
    let count = ok.count in
    record { pending = ok.pending; resolved = ok.resolved; count = omega int_laws }

leave_all-IsConsistent :
    (s : State) → IsConsistent s → pos 0 <ℤ s.ex_fetch_count → IsConsistent (leave_all s)
unfolding leave_all
leave_all-IsConsistent s ok some_fetch = record {
  pending = ok.pending;
  resolved = ok.resolved;
  count = omega int_laws;
}

set_handler-IsConsistent :
    (s : State) (handler : Option (Exception → ℕ))
    → IsConsistent s
    → IsConsistent (set_handler handler s)
unfolding set_handler
set_handler-IsConsistent s none ok = record {
  pending = ok.pending;
  resolved = ok.resolved;
  count = ok.count;
}
set_handler-IsConsistent s (some handler) ok = record {
  pending = ok.pending;
  resolved = ok.resolved;
  count = ok.count;
}

done_injective {ℓ} : {A : Type ℓ} (a b : A) → done a ≡ done b → a ≡ b
done_injective a b e = cc

Step-IsConsistent : (s t : State) → IsConsistent s → Step s t → IsConsistent t
Step-IsConsistent s t ok (throws ex_type ex_opts answer _ _ run) =
    let e : Exception = record { type = ex_type; options = ex_opts } in
    let same = done_injective _ _ (sym (throw_consistent s ex_type ex_opts ok) ∙ run) in
    subst IsConsistent (ap (λ r. r.1) same) (thrown-IsConsistent s e ok)
Step-IsConsistent s t ok (rethrows answer _ _ flag run) =
    let (e, here) = ok.pending flag in
    let same = done_injective _ _ (sym (rethrow_run s e here) ∙ run) in
    subst IsConsistent (ap (λ r. r.1) same) (thrown-IsConsistent s e ok)
Step-IsConsistent s t ok (catches _ _ run) =
    let same = done_injective _ _ (sym (catch_lem s ok) ∙ run) in
    subst IsConsistent same (without_exception-IsConsistent s ok.count)
Step-IsConsistent s t ok (fetches _) = fetch_all-IsConsistent s ok
Step-IsConsistent s t ok (leaves _ some_fetch) = leave_all-IsConsistent s ok some_fetch
Step-IsConsistent s t ok (sets handler _) = set_handler-IsConsistent s handler ok

initial-IsConsistent : IsConsistent initial
unfolding initial
initial-IsConsistent = record {
  pending = λ h. absurd (ground arith);
  resolved = λ h. refl;
  count = omega arith;
}

Reachable-IsConsistent : (s : State) → Reachable s → IsConsistent s
Reachable-IsConsistent s starts = initial-IsConsistent
Reachable-IsConsistent t (goes s _ before step) =
    Step-IsConsistent s t (Reachable-IsConsistent s before) step

-- In each state that the operations reach, if an exception is rethrown only while it is not
-- resolved and `ped_exception_leave_all` follows a `ped_exception_fetch_all`, no operation follows a
-- null pointer. `ped_exception_throw` answers UNHANDLED and keeps the exception while exceptions are
-- fetched, and otherwise gives the answer of the handler and leaves no exception;
-- `ped_exception_rethrow` does the same with the exception that is not resolved, and
-- `ped_exception_catch` leaves none.
pub throw_lem :
    (s : State)
    → Reachable s
    → ((ex_type : ExceptionType) (ex_opts : ℕ)
        → throw ex_type ex_opts s ≡ done (thrown s (record { type = ex_type; options = ex_opts })))
      × (s.ped_exception ≡ true
          → (e : Exception) × (s.ex ≡ some e) × (rethrow s ≡ done (thrown s e)))
      × (catch s ≡ done (without_exception s))
throw_lem s reached =
    let ok = Reachable-IsConsistent s reached in
    (
      λ ex_type ex_opts. throw_consistent s ex_type ex_opts ok,
      λ flag. let (e, here) = ok.pending flag in (e, here, rethrow_run s e here),
      catch_lem s ok,
    )
