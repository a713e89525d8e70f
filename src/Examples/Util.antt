-- ===== src/Examples/Util.antt =====
-- Runs of src/util.ts.
use tephra_js.Base.{◌≡◌, refl, List, [], ◌∷◌}
use tephra_js.Util.{new_semaphore, acquire, release, hand_over}
use tephra_js.Util.Fifo.{Call, acquires, releases, calls, call, begin, Fair, calls-Fair}

-- Three callers ask one permit; two of them wait, and two releases serve them in turn.
abbrev three_callers : List Call
three_callers = acquires 1 ∷ acquires 2 ∷ acquires 3 ∷ releases ∷ releases ∷ []

three_callers-granted : (calls three_callers (begin 1)).granted ≡ 1 ∷ 2 ∷ 3 ∷ []
unfolding calls call begin new_semaphore acquire release hand_over
three_callers-granted = refl

calls-Fair_example : Fair 1 (calls three_callers (begin 1))
calls-Fair_example = calls-Fair 1 three_callers
