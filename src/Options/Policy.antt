-- ===== src/Options/Policy.antt =====
-- The thread policy among the options.
use librascal.Prelude.{
  ℕ, ◌≡◌, ◌≢◌, refl, ap, ◌∙◌, true, false, Option, none, some, List, [], ◌∷◌, get_elem?, set, ◌==◌,
  ==_iff, if_true, if_false, get_elem?-set_ne, get_elem?-set_self, Bool-cases, Option-cases, inl,
  inr, arith,
}
use librascal.Options.{
  Setting, set_option, get_option, rec_success, rec_option_readonly, ro_thread_policy,
}

-- A sequence of calls of `rascal_set_option`, each an option and a value.
abbrev pub run : List (ℕ × ℕ) → List Setting → List Setting
run [] options = options
run ((optid, value) ∷ calls) options = run calls (set_option options optid value).2

abbrev pub Locked : ℕ → List Setting → Type 0
Locked v options = get_elem? options ro_thread_policy ≡ some (record { value = v; readonly = true })

module _ (options : List Setting) (optid value : ℕ) where
  pub set_option_locked :
      (v : ℕ)
      → get_elem? options optid ≡ some (record { value = v; readonly = true })
      → set_option options optid value ≡ (rec_option_readonly, some v, options)
  unfolding set_option
  set_option_locked v e = rw (e, set_option) refl

  pub set_option_free :
      (opt : Setting)
      → get_elem? options optid ≡ some opt
      → opt.readonly ≡ false
      → set_option options optid value ≡ (
        rec_success,
        some opt.value,
        set options optid (record { value = value; readonly = optid == ro_thread_policy }),
      )
  unfolding set_option
  set_option_free opt e r = rw (e, set_option) (if_false opt.readonly _ _ r)

  set_option_missing : get_elem? options optid ≡ none → (set_option options optid value).2 ≡ options
  unfolding set_option
  set_option_missing e = rw (e, set_option) refl

  set_option_readonly :
      (opt : Setting)
      → get_elem? options optid ≡ some opt
      → opt.readonly ≡ true
      → (set_option options optid value).2 ≡ options
  unfolding set_option
  set_option_readonly opt e r =
      rw (e, set_option)
        (ap (λ (o : ℕ × Option ℕ × List Setting). o.2) (if_true opt.readonly _ _ r))

pub set_option-Locked :
    (v : ℕ) (options : List Setting) (optid value : ℕ)
    → Locked v options
    → Locked v (set_option options optid value).2
set_option-Locked v options optid value l = elim (Bool-cases (optid == ro_thread_policy)) [
  | inl e ↦
      let p : optid ≡ ro_thread_policy = (==_iff optid ro_thread_policy).0 e in
      ap (λ (o : ℕ × Option ℕ × List Setting). get_elem? (o.2) ro_thread_policy)
        (set_option_locked options optid value v (ap (get_elem? options) p ∙ l))
      ∙ l
  | inr e ↦
      let p : optid ≢ ro_thread_policy = ground arith in
      elim (Option-cases (get_elem? options optid)) [
        | inl z ↦
            ap (λ (o : List Setting). get_elem? o ro_thread_policy)
              (set_option_missing options optid value z)
            ∙ l
        | inr (opt, z) ↦ elim (Bool-cases opt.readonly) [
          | inl r ↦
              ap (λ (o : List Setting). get_elem? o ro_thread_policy)
                (set_option_readonly options optid value opt z r)
              ∙ l
          | inr r ↦
              ap (λ (o : ℕ × Option ℕ × List Setting). get_elem? (o.2) ro_thread_policy)
                (set_option_free options optid value opt z r)
              ∙ get_elem?-set_ne options optid ro_thread_policy _ p
              ∙ l
        ]
      ]
]

run-Locked :
    (v : ℕ) (calls : List (ℕ × ℕ)) (options : List Setting)
    → Locked v options
    → Locked v (run calls options)
run-Locked v [] options l = l
run-Locked v ((optid, value) ∷ calls) options l =
    run-Locked v calls (set_option options optid value).2
      (set_option-Locked v options optid value l)

-- Once the thread policy, while it is not read-only, has been set to a value, that call returns
-- REC_SUCCESS, and after any further calls of `rascal_set_option` `rascal_get_option` still gives
-- that value.
pub policy_stays :
    (options : List Setting) (value : ℕ) (opt : Setting) (calls : List (ℕ × ℕ))
    → get_elem? options ro_thread_policy ≡ some opt
    → opt.readonly ≡ false
    → ((set_option options ro_thread_policy value).0 ≡ rec_success)
      × (get_option (run calls (set_option options ro_thread_policy value).2) ro_thread_policy
          ≡ (rec_success, some value))
unfolding get_option
policy_stays options value opt calls e r =
    let q = set_option_free options ro_thread_policy value opt e r in
    let l : Locked value (set_option options ro_thread_policy value).2 =
      ap (λ (o : ℕ × Option ℕ × List Setting). get_elem? (o.2) ro_thread_policy) q
      ∙ get_elem?-set_self options ro_thread_policy _ opt e in
    (
      ap (λ (o : ℕ × Option ℕ × List Setting). o.0) q,
      rw (run-Locked value calls (set_option options ro_thread_policy value).2 l, get_option) refl,
    )
