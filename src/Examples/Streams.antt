-- ===== src/Examples/Streams.antt =====
-- Runs of src/streams.ts.
use tephra_js.Base.{ℕ, ◌≡◌, refl, inl, List, [], ◌∷◌}
use tephra_js.Failure.{aborted}
use tephra_js.Streams.{
  item, failed, new_sink, push, push_to, answer, next, next_from, next_waiting, fail,
  answer_waiting,
}
use tephra_js.Streams.Order.{Delivers, calls-Delivers}
use tephra_js.Streams.Calls.{Call, pushes, fails, nexts, calls, call}

-- A consumer that waits, an item that is buffered, a failure behind it, and an item too late.
abbrev busy_stream : List (Call ℕ)
busy_stream = nexts 1 ∷ pushes 7 ∷ pushes 8 ∷ fails aborted ∷ pushes 9 ∷ nexts 2 ∷ nexts 3 ∷ []

busy_stream-answers :
    (calls busy_stream new_sink).answers ≡ (1, item 7) ∷ (2, item 8) ∷ (3, failed aborted) ∷ []
unfolding calls call new_sink push push_to answer next next_from next_waiting fail answer_waiting
busy_stream-answers = refl

calls-Delivers_example : Delivers busy_stream new_sink (calls busy_stream new_sink)
calls-Delivers_example = calls-Delivers busy_stream new_sink (unfold new_sink in inl refl)
