-- ===== src/Nt/Worker/Closure.antt =====
-- nt/connection.cc: `connection::cancel` reports the closure before it marks the connection.
use librascal.Prelude.{
  ℕ, zero, suc, ◌≡◌, refl, ap, ◌∙◌, false, Option, none, some, List, [], ◌∷◌, ◌++◌, if_false,
}
use librascal.Connection.{rop_close, Call, Answer, Act, cancels, ◌>>=◌}
use librascal.Nt.{Host, System, get_error, cancel, act, perform, disp}

-- Who answers to the report of a closure with a cancellation.
abbrev pub IsStubborn : (List Call → Answer) → Type 0
IsStubborn client =
    (calls : List Call) (code : ℕ)
    → (client (calls ++ record { code = code; op = rop_close } ∷ [])).acts ≡ cancels ∷ []

nothing_follows {ℓ κ} :
    {A : Type ℓ} {B : Type κ} (m : Option A) (f : A → Option B) → m ≡ none → (m >>= f) ≡ none
nothing_follows none f e = refl
nothing_follows (some a) f e = absurd cc

-- A list of acts that is one cancellation, where that does not return.
perform_stuck :
    (one : Act → Host → Option Host) (acts : List Act) (h : Host)
    → acts ≡ cancels ∷ []
    → one cancels h ≡ none
    → perform one acts h ≡ none
unfolding perform
perform_stuck one acts h e n =
    ap (λ l. perform one l h) e ∙ nothing_follows (one cancels h) (λ (d : Host). some d) n

-- A user who answers to the report of a closure with a cancellation is told of the closure again, in
-- the same call: however deep the calls may go, `cancel` of a connection that is not cancelled does
-- not return.
pub cancel-endless :
    (sys : System) (client : List Call → Answer) (fuel : ℕ) (h : Host)
    → IsStubborn client
    → h.object.cancelled ≡ false
    → cancel sys (disp sys client fuel) h ≡ none
unfolding cancel disp perform act
cancel-endless sys client zero h s e = if_false h.object.cancelled _ _ e
cancel-endless sys client (suc fuel) h s e =
    if_false h.object.cancelled _ _ e
    ∙ nothing_follows _ _ (
        nothing_follows _ _ (
          perform_stuck _ _ _ (s h.calls _) (
            cancel-endless sys client fuel
              (record h {
                calls =
                    h.calls
                    ++ record {
                      code = get_error sys (disp sys client (suc fuel)) h;
                      op = rop_close;
                    }
                      ∷ [];
              })
              s e)))
