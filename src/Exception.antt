-- ===== src/Exception.antt =====
-- apps/parted/libparted/exception.c: exceptions, and who answers them. An allocation succeeds, and
-- the text of a message is left out.
pub mod Reach
use uparted.Base.{
  Bool, Option, Run, deref, done, eqb_ℤ, false, if◌then◌else◌, none, pos, some, true, ℕ, ℤ, ◌+ℤ◌,
  ◌-ℤ◌, ◌==◌, ◌>>=◌, ◌||◌,
}

-- `enum _PedExceptionType`
pub data ExceptionType : Type 0 where
  information warning error fatal bug no_feature : ExceptionType

-- `enum _PedExceptionOption`: a word with one bit for each way to resolve an exception.
abbrev pub unhandled : ℕ
unhandled = 0

abbrev pub option_ok : ℕ
option_ok = 8

abbrev pub option_ignore : ℕ
option_ignore = 32

abbrev pub option_cancel : ℕ
option_cancel = 64

-- `struct _PedException`
pub record Exception : Type 0 where
  pub type : ExceptionType
  pub options : ℕ

-- The static variables: `ped_exception`, `ex`, `ex_fetch_count` and `ex_handler`. A handler is the
-- option that it selects.
pub record State : Type 0 where
  pub ped_exception : Bool
  pub ex : Option Exception
  pub ex_fetch_count : ℤ
  pub ex_handler : Exception → ℕ

-- What `default_handler` returns; it also prints the message.
unfoldable pub default_handler : Exception → ℕ
default_handler e =
    if e.options == option_ok || (e.options == option_cancel || e.options == option_ignore)
    then e.options
    else unhandled

-- The values that the variables start with.
unfoldable pub initial : State
initial = record {
  ped_exception = false;
  ex = none;
  ex_fetch_count = pos 0;
  ex_handler = default_handler;
}

-- `ped_exception_set_handler`
unfoldable pub set_handler : Option (Exception → ℕ) → State → State
set_handler none state = record state { ex_handler = default_handler }
set_handler (some handler) state = record state { ex_handler = handler }

-- `ped_exception_catch`, which follows `ex`.
unfoldable pub catch : State → Run State
catch state =
    let forgotten = record state { ped_exception = false; ex = none } in
    if state.ped_exception then deref state.ex >>= (λ e. done forgotten) else done state

-- `do_throw`; a handler follows its argument.
unfoldable pub do_throw : State → Run (ℕ × State)
unfolding catch
do_throw state =
    let thrown = record state { ped_exception = true } in
    if eqb_ℤ state.ex_fetch_count (pos 0)
    then (deref state.ex >>= λ e. catch thrown >>= λ caught. done (state.ex_handler e, caught))
    else done (unhandled, thrown)

-- `ped_exception_throw`
unfoldable pub throw : ExceptionType → ℕ → State → Run (ℕ × State)
unfolding do_throw
throw ex_type ex_opts state =
    (elim state.ex [ none ↦ done state | some e ↦ catch state ]) >>= λ forgotten.
    do_throw (record forgotten { ex = some (record { type = ex_type; options = ex_opts }) })

-- `ped_exception_rethrow`
unfoldable pub rethrow : State → Run (ℕ × State)
unfolding do_throw
rethrow state = do_throw state

-- `ped_exception_fetch_all`, `ped_exception_leave_all`
unfoldable pub fetch_all : State → State
fetch_all state = record state { ex_fetch_count = state.ex_fetch_count +ℤ pos 1 }

unfoldable pub leave_all : State → State
leave_all state = record state { ex_fetch_count = state.ex_fetch_count -ℤ pos 1 }
