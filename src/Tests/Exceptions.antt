-- ===== src/Tests/Exceptions.antt =====
-- Runs of exception.c.
use uparted.Base.{done, false, none, pos, refl, some, trap, true, ℕ, ◌+ℤ◌, ◌-ℤ◌, ◌≡◌}
use uparted.Exception.{
  Exception, ExceptionType, State, catch, default_handler, do_throw, error, fetch_all, initial,
  leave_all, rethrow, throw, unhandled,
}
use uparted.Exception.Reach.{
  Reachable, fetches, goes, starts, throw_lem, thrown, throws, without_exception,
}

abbrev failure : Exception
failure = record { type = error; options = 64 }

abbrev fetching : State
fetching = record {
  ped_exception = false;
  ex = none;
  ex_fetch_count = pos 1;
  ex_handler = default_handler;
}

abbrev pending : State
pending = record fetching { ped_exception = true; ex = some failure }

pending-Reachable : Reachable pending
unfolding initial fetch_all throw do_throw catch ◌+ℤ◌
pending-Reachable =
    goes fetching pending (goes initial fetching starts (fetches initial))
      (throws error 64 unhandled fetching pending refl)

-- An exception that is rethrown behind the last `ped_exception_leave_all` goes to the handler.
rethrown : rethrow (leave_all pending) ≡ done (64, record fetching { ex_fetch_count = pos 0 })
unfolding rethrow do_throw catch leave_all default_handler ◌-ℤ◌
rethrown = refl

-- One that is rethrown when none is left is a null pointer that is followed.
rethrown_twice : rethrow (record fetching { ex_fetch_count = pos 0 }) ≡ trap
unfolding rethrow do_throw
rethrown_twice = refl

throw_lem_example :
    ((ex_type : ExceptionType) (ex_opts : ℕ)
      → throw ex_type ex_opts pending
        ≡ done (thrown pending (record { type = ex_type; options = ex_opts })))
    × (true ≡ true
        → (e : Exception) × (some failure ≡ some e) × (rethrow pending ≡ done (thrown pending e)))
    × (catch pending ≡ done (without_exception pending))
throw_lem_example = throw_lem pending pending-Reachable
