-- ===== src/Tests/Object.antt =====
-- An object's life, and its invariant there.
use librascal.Prelude.{some, none, arith, ◌≡◌, refl}
use librascal.Object.{Object, new_object, incref, cancel, decref}
use librascal.Object.Lifetime.{Steps, take, give, cancels, done, next, IsSound, lifetime-IsSound}

abbrev taken : Object
taken = cancel (incref (new_object 7 1))

deleted : (decref taken).1 ≡ none
unfolding decref
deleted = refl

-- Taken, cancelled, and given back.
life : Steps (some (new_object 7 1)) 0 (decref taken).1 0
life =
    next (take (new_object 7 1) 0 (omega arith))
      (next (cancels (incref (new_object 7 1)) 0) (next (give taken 0) (done _ 0)))

lifetime-IsSound_example : IsSound (decref taken).1 0
lifetime-IsSound_example = lifetime-IsSound 7 1 (decref taken).1 0 life
