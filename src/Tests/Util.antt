-- ===== src/Tests/Util.antt =====
-- Runs of the helpers, and their theorems there.
use librascal.Prelude.{true, some, [], ◌∷◌, ◌≡◌, ◌+◌, ◌-◌, refl, ltb, arith}
use librascal.Util.Ftspec.{Ftspec, add, sub, before}
use librascal.Util.Copy.{strlcpy, strlcpya}
use librascal.Util.Copy.Bounds.{copies-take}
use librascal.Util.ArrayList.{ArrayList, index_of, remove}
use librascal.Util.ArrayList.Count.{Removed, remove-Removed}
use librascal.Util.Ftspec.Sums.{value, IsNormal, arithmetic-value}

abbrev late : Ftspec
late = record { sec = 5; msec = 200 }

abbrev early : Ftspec
early = record { sec = 3; msec = 900 }

arithmetic-value_example :
    ((value (add late early) ≡ value late + value early) × IsNormal (add late early))
    × ((value (sub late early) ≡ value late - value early) × IsNormal (sub late early))
    × (before late early ≡ ltb (value late) (value early))
arithmetic-value_example =
    arithmetic-value late early (record { below = omega arith; word = omega arith })
      (record { below = omega arith; word = omega arith }) (omega arith) (omega arith)

copies-take_example :
    (strlcpy (104 ∷ 105 ∷ 33 ∷ []) 3 ≡ some (104 ∷ 105 ∷ []))
    × (strlcpya ((104 ∷ []) ∷ (105 ∷ 33 ∷ []) ∷ []) 3 ≡ some (104 ∷ 105 ∷ []))
copies-take_example = copies-take (104 ∷ 105 ∷ 33 ∷ []) ((104 ∷ []) ∷ (105 ∷ 33 ∷ []) ∷ []) 2

abbrev four : ArrayList
four = record { items = 5 ∷ 6 ∷ 7 ∷ 6 ∷ []; allocated = 4 }

remove_test : remove four 5 ≡ (true, record { items = 6 ∷ 6 ∷ 7 ∷ []; allocated = 4 })
unfolding remove index_of
remove_test = refl

remove-Removed_example : Removed four 6 7 (remove four 6)
remove-Removed_example = remove-Removed four 6 7
