-- ===== src/Srv/Places/Merge.antt =====
-- The addresses that `on_getaddr` adds, and their place in the list.
use librascal.Prelude.{
  ℕ, ◌≤◌, ◌≡◌, refl, sym, subst, Bool, true, false, List, [], ◌∷◌, ◌++◌, append_assoc, length, ap,
  ◌∙◌, ◌||◌, ◌==◌, if_true, if_false, All, ltb, if◌then◌else◌, arith, Bool-cases, inl, inr,
}
use mathlib.Core.List.{Perm, perm_middle}
use mathlib.Core.List.Perm as P
use librascal.Srv.{Record, Place, same_text}
use librascal.Srv.Places.{insert, offers, insert_all, apply_aliases}

-- By priority, the lowest number first.
abbrev pub IsOrdered : List Place → Type 0
IsOrdered [] = Unit
IsOrdered (x ∷ xs) = All (λ (y : Place). x.priority ≤ y.priority) xs × IsOrdered xs

-- The new elements for which there was memory.
abbrev pub stored : List (Place × Bool) → List Place
stored [] = []
stored ((nu, true) ∷ rest) = nu ∷ stored rest
stored ((nu, false) ∷ rest) = stored rest

-- What a record of the host adds, and what all the records add, the last record's first.
abbrev pub added : (ℕ → Bool) → List (List ℕ) → Record → List Place
added memory addrs r = stored (offers memory r 0 addrs)

abbrev pub aliases : List ℕ → (ℕ → ℕ → Bool) → List (List ℕ) → List Record → List Place
aliases host memory addrs [] = []
aliases host memory addrs (r ∷ rs) =
    let rest = aliases host memory addrs rs in
    if same_text r.host host then rest ++ added (memory (length rs)) addrs r else rest

-- The records of other hosts.
abbrev pub others : List ℕ → List Record → List Record
others host [] = []
others host (r ∷ rs) = let rest = others host rs in if same_text r.host host then rest else r ∷ rest

insert-Perm : (nu : Place) (places : List Place) → Perm (insert nu places) (nu ∷ places)
unfolding insert
insert-Perm nu [] = P.refl (nu ∷ [])
insert-Perm nu (x ∷ xs) = elim (Bool-cases (ltb x.priority nu.priority)) [
  | inl h ↦ rw h (P.trans (P.cons x (insert-Perm nu xs)) (P.swap nu x xs))
  | inr h ↦ rw h (P.refl (nu ∷ x ∷ xs))
]

insert-All :
    (p : ℕ) (nu : Place) (places : List Place)
    → p ≤ nu.priority
    → All (λ (y : Place). p ≤ y.priority) places
    → All (λ (y : Place). p ≤ y.priority) (insert nu places)
unfolding insert
insert-All p nu [] h a = (h, tt)
insert-All p nu (x ∷ xs) h (a, b) = elim (Bool-cases (ltb x.priority nu.priority)) [
  | inl e ↦ rw e (a, insert-All p nu xs h b)
  | inr e ↦ rw e (h, (a, b))
]

All-weaken :
    (p q : ℕ) (places : List Place)
    → p ≤ q
    → All (λ (y : Place). q ≤ y.priority) places
    → All (λ (y : Place). p ≤ y.priority) places
All-weaken p q [] h a = tt
All-weaken p q (x ∷ xs) h (a, b) = (omega arith, All-weaken p q xs h b)

insert-IsOrdered :
    (nu : Place) (places : List Place) → IsOrdered places → IsOrdered (insert nu places)
unfolding insert
insert-IsOrdered nu [] o = (tt, tt)
insert-IsOrdered nu (x ∷ xs) (a, o) = elim (Bool-cases (ltb x.priority nu.priority)) [
  | inl e ↦ rw e (insert-All x.priority nu xs (ground arith) a, insert-IsOrdered nu xs o)
  | inr e ↦
      let h : nu.priority ≤ x.priority = ground arith in
      rw e ((h, All-weaken nu.priority x.priority xs h a), (a, o))
]

insert_all-IsOrdered :
    (nus : List (Place × Bool)) (places : List Place)
    → IsOrdered places
    → IsOrdered (insert_all nus places)
unfolding insert_all
insert_all-IsOrdered [] places o = o
insert_all-IsOrdered ((nu, true) ∷ rest) places o =
    insert_all-IsOrdered rest (insert nu places) (insert-IsOrdered nu places o)
insert_all-IsOrdered ((nu, false) ∷ rest) places o = insert_all-IsOrdered rest places o

append-Perm : (xs : List Place) {ys zs : List Place} → Perm ys zs → Perm (xs ++ ys) (xs ++ zs)
append-Perm [] p = p
append-Perm (x ∷ xs) p = P.cons x (append-Perm xs p)

insert_all-Perm :
    (nus : List (Place × Bool)) (places : List Place)
    → Perm (insert_all nus places) (stored nus ++ places)
unfolding insert_all
insert_all-Perm [] places = P.refl places
insert_all-Perm ((nu, true) ∷ rest) places =
    P.trans (insert_all-Perm rest (insert nu places)) (
      P.trans (append-Perm (stored rest) (insert-Perm nu places))
        (perm_middle (stored rest) places))
insert_all-Perm ((nu, false) ∷ rest) places = insert_all-Perm rest places

-- The records and the addresses that the loop over the records leaves.
pub record Merged (host : List ℕ) (memory : ℕ → ℕ → Bool) (addrs : List (List ℕ))
    (records head : List Record) (places : List Place) (left : List Record) (after : List Place)
    : Type 0 where
  pub kept : Perm left (others host records ++ head)
  pub merged : Perm after (aliases host memory addrs records ++ places)
  pub ordered : IsOrdered after

-- What the loop does with a record of the host, and with another, if what `base` read while it
-- lived can be read later too.
module _ (stale : ℕ → List ℕ) (memory : ℕ → ℕ → Bool) (base : Record) (addrs : List (List ℕ))
    (same : (n : ℕ) → stale n ≡ base.host) where
  host_read : (gone : Bool) (n : ℕ) → (if gone then stale n else base.host) ≡ base.host
  host_read true n = same n
  host_read false n = refl

  module _ (gone : Bool) (r : Record) (rs head : List Record) where
    offered : List (Place × Bool)
    offered = offers (memory (length rs)) r 0 addrs

    apply_same :
        (places : List Place)
        → same_text r.host base.host ≡ true
        → apply_aliases stale memory base addrs gone (r ∷ rs) head places
          ≡ apply_aliases stale memory base addrs
              (gone || (r.id == base.id))
              rs
              head
              (insert_all offered places)
    unfolding apply_aliases offered
    apply_same places e =
        if_true (same_text r.host (if gone then stale (length rs) else base.host)) _ _
          (ap (same_text r.host) (host_read gone (length rs)) ∙ e)

    apply_other :
        (places : List Place)
        → same_text r.host base.host ≡ false
        → apply_aliases stale memory base addrs gone (r ∷ rs) head places
          ≡ apply_aliases stale memory base addrs gone rs (r ∷ head) places
    unfolding apply_aliases
    apply_other places e =
        if_false (same_text r.host (if gone then stale (length rs) else base.host)) _ _
          (ap (same_text r.host) (host_read gone (length rs)) ∙ e)

    same-Merged :
        (places : List Place) (left : List Record) (after : List Place)
        → same_text r.host base.host ≡ true
        → Merged base.host memory addrs rs head (insert_all offered places) left after
        → Merged base.host memory addrs (r ∷ rs) head places left after
    unfolding offered
    same-Merged places left after e m =
        let all = aliases base.host memory addrs rs in
        record {
          kept = rw e m.kept;
          merged = rw e (
              P.trans m.merged (
                subst (Perm (all ++ insert_all offered places))
                  (sym (append_assoc all (added (memory (length rs)) addrs r) places))
                  (append-Perm all (insert_all-Perm offered places))));
          ordered = m.ordered;
        }

    other-Merged :
        (places : List Place) (left : List Record) (after : List Place)
        → same_text r.host base.host ≡ false
        → Merged base.host memory addrs rs (r ∷ head) places left after
        → Merged base.host memory addrs (r ∷ rs) head places left after
    other-Merged places left after e m = record {
      kept = rw e (P.trans m.kept (perm_middle (others base.host rs) head));
      merged = rw e m.merged;
      ordered = m.ordered;
    }

  pub apply_aliases-Merged :
      (gone : Bool) (records head : List Record) (places : List Place)
      → IsOrdered places
      → let out = apply_aliases stale memory base addrs gone records head places in
        Merged base.host memory addrs records head places out.0 out.1
  unfolding apply_aliases
  apply_aliases-Merged gone [] head places o = record {
    kept = P.refl head;
    merged = P.refl places;
    ordered = o;
  }
  apply_aliases-Merged gone (r ∷ rs) head places o =
      elim (Bool-cases (same_text r.host base.host)) [
        | inl e ↦
            let nus = offered gone r rs head in
            let g = gone || (r.id == base.id) in
            let m =
              apply_aliases-Merged g rs head (insert_all nus places)
                (insert_all-IsOrdered nus places o) in
            let out = apply_aliases stale memory base addrs g rs head (insert_all nus places) in
            subst
              (λ (x : List Record × List Place).
                Merged base.host memory addrs (r ∷ rs) head places x.0 x.1)
              (sym (apply_same gone r rs head places e))
              (same-Merged gone r rs head places out.0 out.1 e m)
        | inr e ↦
            let m = apply_aliases-Merged gone rs (r ∷ head) places o in
            let out = apply_aliases stale memory base addrs gone rs (r ∷ head) places in
            subst
              (λ (x : List Record × List Place).
                Merged base.host memory addrs (r ∷ rs) head places x.0 x.1)
              (sym (apply_other gone r rs head places e))
              (other-Merged gone r rs head places out.0 out.1 e m)
      ]
