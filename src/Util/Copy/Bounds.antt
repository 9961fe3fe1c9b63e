-- ===== src/Util/Copy/Bounds.antt =====
-- What the bounded copies leave in the buffer.
use librascal.Prelude.{
  ℕ, zero, suc, ◌-◌, ◌≤◌, ◌≡◌, refl, sym, ap, ap₂, length-append, ◌∙◌, some, List, [], ◌∷◌, ◌++◌,
  length, take, arith, take-append, take_all,
}
use librascal.Util.Copy.{copy_loop, step_back, terminate, strlcpy, copy_args, strlcpya}

-- The arguments of `strlcpya` one behind the other.
abbrev pub joined : List (List ℕ) → List ℕ
joined [] = []
joined (arg ∷ args) = arg ++ joined args

copy_loop_lem : (src : List ℕ) (size : ℕ) → copy_loop src size ≡ (take size src, size - length src)
unfolding copy_loop
copy_loop_lem [] zero = refl
copy_loop_lem [] (suc size) = let e : suc size ≡ suc size - 0 = omega arith in ap (λ n. ([], n)) e
copy_loop_lem (b ∷ bs) zero = let e : 0 ≡ 0 - suc (length bs) = omega arith in ap (λ n. ([], n)) e
copy_loop_lem (b ∷ bs) (suc size) =
    let e : size - length bs ≡ suc size - suc (length bs) = omega arith in
    ap (λ (r : List ℕ × ℕ). (b ∷ r.0, r.1)) (copy_loop_lem bs size)
    ∙ ap (λ n. (b ∷ take size bs, n)) e

step_back-take :
    (src : List ℕ) (size : ℕ)
    → suc size ≤ length src
    → step_back (take (suc size) src) ≡ some (take size src)
unfolding step_back
step_back-take [] size h = absurd (omega arith)
step_back-take (b ∷ bs) zero h = refl
step_back-take (b ∷ []) (suc size) h = absurd (omega arith)
step_back-take (b ∷ c ∷ bs) (suc size) h =
    rw (step_back-take (c ∷ bs) size (omega arith), step_back) refl

terminate-take :
    (src : List ℕ) (size left : ℕ)
    → left ≡ suc size - length src
    → terminate (take (suc size) src) left ≡ some (take size src)
terminate-take src size zero e = step_back-take src size (omega arith)
terminate-take src size (suc left) e =
    ap some (take_all (suc size) src (omega arith) ∙ sym (take_all size src (omega arith)))

copy_args_lem :
    (args : List (List ℕ)) (size : ℕ)
    → copy_args args size ≡ (take size (joined args), size - length (joined args))
unfolding copy_args
copy_args_lem [] zero = refl
copy_args_lem [] (suc size) = let e : suc size ≡ suc size - 0 = omega arith in ap (λ n. ([], n)) e
copy_args_lem (arg ∷ args) zero =
    let e : 0 ≡ 0 - length (joined (arg ∷ args)) = omega arith in ap (λ n. ([], n)) e
copy_args_lem (arg ∷ args) (suc size) =
    let left = suc size - length arg in
    let e : left - length (joined args) ≡ suc size - length (joined (arg ∷ args)) =
      omega (arith, length-append arg (joined args)) in
    ap (λ (r : List ℕ × ℕ). (r.0 ++ (copy_args args r.1).0, (copy_args args r.1).1))
      (copy_loop_lem arg (suc size))
    ∙ ap (λ (r : List ℕ × ℕ). (take (suc size) arg ++ r.0, r.1)) (copy_args_lem args left)
    ∙ ap₂ (λ l n. (l, n)) (sym (take-append (suc size) arg (joined args))) e

-- In a buffer of size + 1 bytes `strlcpy` leaves the first `size` bytes of its text, and `strlcpya`
-- the first `size` bytes of its texts one behind the other, ended by a zero byte; neither writes
-- before the buffer.
pub copies-take :
    (src : List ℕ) (args : List (List ℕ)) (size : ℕ)
    → (strlcpy src (suc size) ≡ some (take size src))
      × (strlcpya args (suc size) ≡ some (take size (joined args)))
unfolding strlcpy strlcpya
copies-take src args size = (
  ap (λ (r : List ℕ × ℕ). terminate r.0 r.1) (copy_loop_lem src (suc size))
      ∙ terminate-take src size _ refl,
  ap (λ (r : List ℕ × ℕ). terminate r.0 r.1) (copy_args_lem args (suc size))
      ∙ terminate-take (joined args) size _ refl,
)
