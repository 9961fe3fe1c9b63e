-- ===== src/Startup/Again.antt =====
-- What a second `rascal_init` does.
use librascal.Prelude.{
  ℕ, ◌%◌, ◌/◌, ◌≡◌, refl, subst, Bool, true, false, Option, none, some, List, [], ◌∷◌, map, length,
  ltb, get_elem?, get_elem?-set_self, ◌==◌, if◌then◌else◌,
}
use librascal.Options.{Setting, get_option, ro_thread_policy}
use librascal.Options.Policy.{Locked, set_option-Locked, set_option_free, set_option_locked}
use librascal.Srv.{isok}
use librascal.Socket.{Sock, get}
use librascal.Connection.Open.{no_sock}
use librascal.Connection.{◌>>=◌}
use librascal.Startup.{
  Library, Resolv, Machine, rascal_initres, rascal_set_nameserver, use_resolv, start_resolver,
  start_worker, start_workers, rascal_init, ro_dns_timeout, ro_dns_retry,
}

-- The thread policy is set for good, if there is a result.
abbrev Leaves : ℕ → Option (ℕ × Library) → Type 0
Leaves v none = Unit
Leaves v (some (rc, lib)) = Locked v lib.options

start_worker-Locked :
    (v : ℕ) (error : Option ℕ) (lib : Library)
    → Locked v lib.options
    → Locked v (start_worker error lib).1.options
unfolding start_worker
start_worker-Locked v none lib l = l
start_worker-Locked v (some errno) lib l = l

Leaves-if :
    (v : ℕ) (b : Bool) (x y : Option (ℕ × Library))
    → Leaves v x
    → Leaves v y
    → Leaves v (if b then x else y)
Leaves-if v true x y p q = p
Leaves-if v false x y p q = q

Locked-if :
    (v : ℕ) (b : Bool) (x y : ℕ × Library)
    → Locked v (x.1).options
    → Locked v (y.1).options
    → Locked v (if b then x else y).1.options
Locked-if v true x y p q = p
Locked-if v false x y p q = q

library_if-Locked :
    (v : ℕ) (b : Bool) (x y : Library)
    → Locked v x.options
    → Locked v y.options
    → Locked v (if b then x else y).options
library_if-Locked v true x y p q = p
library_if-Locked v false x y p q = q

start_workers-Locked :
    (v policy : ℕ) (m : Machine) (r : ℕ × Library)
    → Locked v (r.1).options
    → Locked v (start_workers policy m r).1.options
unfolding start_workers
start_workers-Locked v policy m (rc, lib) l =
    Locked-if v (isok rc) _ _
      (Locked-if v (policy % 4 == 0) _ _ l (start_worker-Locked v m.thread_error lib l)) l

nameserver-Locked :
    (v : ℕ) (connect : Sock → ℕ) (servers : List Sock) (lib : Library)
    → Locked v lib.options
    → Locked v (rascal_set_nameserver connect servers lib).1.options
unfolding rascal_set_nameserver
nameserver-Locked v connect [] lib l = l
nameserver-Locked v connect (peer ∷ rest) lib l = library_if-Locked v (isok (connect peer)) _ _ l l

use_resolv-Leaves :
    (v : ℕ) (m : Machine) (res : Option Resolv) (lib : Library)
    → Locked v lib.options
    → Leaves v (use_resolv m res lib)
unfolding use_resolv
use_resolv-Leaves v m none lib l = l
use_resolv-Leaves v m (some res) lib l = Leaves-if v (res.retry == 0) _ _ tt (
    Leaves-if v (ltb 64 (length res.servers)) _ _ tt (
      nameserver-Locked v m.connect (map (get no_sock) res.servers) _ (
        set_option-Locked v _ ro_dns_retry res.retry
          (set_option-Locked v lib.options ro_dns_timeout _ l))))

rascal_initres-Locked :
    (v : ℕ) (m : Machine) (lib : Library)
    → Locked v lib.options
    → Locked v (rascal_initres m lib).1.options
unfolding rascal_initres
rascal_initres-Locked v m lib l = library_if-Locked v m.monitor_starts _ _ l l

start_resolver-Leaves :
    (v : ℕ) (m : Machine) (lib : Library) → Locked v lib.options → Leaves v (start_resolver m lib)
unfolding start_resolver
start_resolver-Leaves v m lib l =
    let k = rascal_initres-Locked v m lib l in
    Leaves-if v (rascal_initres m lib).0 _ _ (use_resolv-Leaves v m m.resolv _ k) k

Leaves-worked :
    (v policy : ℕ) (m : Machine) (r : Option (ℕ × Library))
    → Leaves v r
    → Leaves v (r >>= (λ (x : ℕ × Library). some (start_workers policy m x)))
Leaves-worked v policy m none l = tt
Leaves-worked v policy m (some r) l = start_workers-Locked v policy m r l

first-Leaves :
    (policy : ℕ) (m : Machine) (lib : Library) (opt : Setting)
    → get_elem? lib.options ro_thread_policy ≡ some opt
    → opt.readonly ≡ false
    → Leaves (policy % 4) (rascal_init policy m lib)
unfolding rascal_init
first-Leaves policy m lib opt e r =
    let q = set_option_free lib.options ro_thread_policy (policy % 4) opt e r in
    let l =
      get_elem?-set_self lib.options ro_thread_policy
        (record { value = policy % 4; readonly = true }) opt e in
    rw (q, rascal_init)
      (Leaves-worked (policy % 4) policy m _ (
        Leaves-if (policy % 4) (policy / 8 % 2 == 0) _ _ (start_resolver-Leaves (policy % 4) m _ l)
          l))

-- A `rascal_init` of bsd/rascal_init.cc that returns, with success or not, where the thread policy
-- may still be set: it sets this option to the workers' part of its policy, and from then on another
-- `rascal_init`, with any policy, returns REC_SUCCESS and changes nothing.
pub rascal_init-again :
    (policy again : ℕ) (m n : Machine) (lib after : Library) (rc : ℕ) (opt : Setting)
    → get_elem? lib.options ro_thread_policy ≡ some opt
    → opt.readonly ≡ false
    → rascal_init policy m lib ≡ some (rc, after)
    → (get_option after.options ro_thread_policy ≡ (0, some (policy % 4)))
      × (rascal_init again n after ≡ some (0, after))
unfolding get_option rascal_init
rascal_init-again policy again m n lib after rc opt e r q =
    let l : Locked (policy % 4) after.options =
      subst (Leaves (policy % 4)) q (first-Leaves policy m lib opt e r) in
    (
      rw (l, get_option) refl,
      rw (set_option_locked after.options ro_thread_policy (again % 4) (policy % 4) l, rascal_init)
          refl,
    )
