-- ===== src/Tests/Options.antt =====
-- Runs of the options, and their theorem there.
use librascal.Prelude.{◌≡◌, refl, false, [], ◌∷◌, some}
use librascal.Options.{start_options, set_option, get_option, ro_thread_policy, rec_success}
use librascal.Options.Policy.{run, policy_stays}

policy_stays_example :
    ((set_option (start_options 1) ro_thread_policy 2).0 ≡ rec_success)
    × (get_option
          (run ((3, 0) ∷ (1, 9) ∷ []) (set_option (start_options 1) ro_thread_policy 2).2)
          ro_thread_policy
        ≡ (rec_success, some 2))
policy_stays_example =
    policy_stays (start_options 1) 2 (record { value = 1; readonly = false }) ((3, 0) ∷ (1, 9) ∷ [])
      refl refl
