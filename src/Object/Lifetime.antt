-- ===== src/Object/Lifetime.antt =====
-- The life of an object among those that hold references to it.
use librascal.Prelude.{
  ℕ, suc, ◌^◌, ◌<◌, ◌≡◌, refl, sym, subst, Bool, true, false, ◌&&◌, Option, none, some, ◌==◌,
  if_true, if_false, arith, Bool-cases, inl, inr, ◌⊎◌,
}
use librascal.Object.{Object, new_object, incref, less_one, kills, decref, cancel}

-- A step of a party: it takes a reference, gives one back, or cancels the object while it holds
-- one. The object is none once it is deleted; the number counts the references held.
pub data Step : Option Object → ℕ → Option Object → ℕ → Type 0 where
  take : (o : Object) (n : ℕ) → suc n < 2 ^ 32 → Step (some o) n (some (incref o)) (suc n)
  give : (o : Object) (n : ℕ) → Step (some o) (suc n) (decref o).1 n
  cancels : (o : Object) (n : ℕ) → Step (some o) (suc n) (some (cancel o)) (suc n)

pub data Steps : Option Object → ℕ → Option Object → ℕ → Type 0 where
  done : (x : Option Object) (n : ℕ) → Steps x n x n
  next : {x y z : Option Object} {k m n : ℕ} → Step x k y m → Steps y m z n → Steps x k z n

-- A live object counts the references held and, once cancelled, is held by somebody; nobody holds
-- a deleted one.
abbrev pub IsSound : Option Object → ℕ → Type 0
IsSound none n = n ≡ 0
IsSound (some o) n = (o.refc ≡ n) × (n < 2 ^ 32) × ((o.cancelled ≡ false) ⊎ (0 < n))

kept_lem : (o : Object) → kills o ≡ false → (decref o).1 ≡ some (less_one o)
unfolding decref
kept_lem o e = if_false (kills o) none (some (less_one o)) e

killed_lem : (o : Object) → kills o ≡ true → (decref o).1 ≡ none
unfolding decref
killed_lem o e = if_true (kills o) none (some (less_one o)) e

less_one-refc : (o : Object) (n : ℕ) → o.refc ≡ suc n → suc n < 2 ^ 32 → (less_one o).refc ≡ n
less_one-refc o n e h = omega arith

give-IsSound : (o : Object) (n : ℕ) → IsSound (some o) (suc n) → IsSound (decref o).1 n
give-IsSound o n (e, h, c) =
    let r = less_one-refc o n e h in
    elim (Bool-cases (kills o)) [
      | inl k ↦
          let z : n ≡ 0 = gone (less_one o).refc o.cancelled r k in
          subst (λ x. IsSound x n) (sym (killed_lem o k)) z
      | inr k ↦
          subst (λ x. IsSound x n) (sym (kept_lem o k))
            (r, omega arith, free (less_one o).refc o.cancelled r k)
    ]
  where
    gone : (m : ℕ) (c : Bool) → m ≡ n → ((m == 0) && c) ≡ true → n ≡ 0
    gone m c r k = ground arith

    free : (m : ℕ) (c : Bool) → m ≡ n → ((m == 0) && c) ≡ false → (c ≡ false) ⊎ (0 < n)
    free m false r k = inl refl
    free m true r k = inr (ground arith)

Step-IsSound : {x y : Option Object} {m n : ℕ} → Step x m y n → IsSound x m → IsSound y n
Step-IsSound (take o n h) (e, k, c) = (omega arith, h, inr (omega arith))
Step-IsSound (give o n) s = give-IsSound o n s
Step-IsSound (cancels o n) (e, k, c) = (e, k, inr (omega arith))

Steps-IsSound : {x y : Option Object} {m n : ℕ} → Steps x m y n → IsSound x m → IsSound y n
Steps-IsSound (done x n) s = s
Steps-IsSound (next t ts) s = Steps-IsSound ts (Step-IsSound t s)

-- From a new object, after any steps of those that take references, give them back and cancel it
-- while they hold one: as long as it lives its count is the number of references held, it is deleted
-- only when none is held, and once cancelled it does not live on without one.
pub lifetime-IsSound :
    (id type : ℕ) (x : Option Object) (n : ℕ)
    → Steps (some (new_object id type)) 0 x n
    → IsSound x n
lifetime-IsSound id type x n t = Steps-IsSound t (refl, omega arith, inl refl)
