-- ===== src/Api/EthFilter/Stream.antt =====
-- filter_stream of src/api/eth_filter.rs: what a stream of a filter yields.
use rust_web.Prelude.{
  ℕ, zero, suc, String, List, [], ◌∷◌, ◌++◌, length, ◌≡◌, refl, ap, Option, none, some,
  append_assoc, append-nil,
}
use rust_web.Rpc.{Value, string}
use rust_web.Error.{Error, Result, ok, err}
use rust_web.Session.{
  Except, fail, done, of_result, test_transport, execute, call_future, prepare, send,
}
use rust_web.Session.Log.{at}
use rust_web.Api.EthFilter.{BaseFilter, items, filter_stream}

-- That many requests for the changes of a filter.
abbrev pub changes : BaseFilter → ℕ → List (String × List Value)
changes base zero = []
changes base (suc n) = ("eth_getFilterChanges", string base.id ∷ []) ∷ changes base n

-- What an answer to a poll holds: its items, none for no changes, and an error where it cannot be
-- decoded.
abbrev pub held_by : {I : Type 0} → Result (Option (List I)) → List (Except Error I)
held_by (err e) = fail e ∷ []
held_by (ok none) = []
held_by (ok (some [])) = []
held_by (ok (some (i ∷ more))) = done i ∷ held_by (ok (some more))

module _ {I : Type 0} (decode : Value → Result (Option (List I))) where
  -- The items of some answers, one answer after another.
  abbrev pub flat : List Value → List (Except Error I)
  flat [] = []
  flat (v ∷ answers) = held_by (decode v) ++ flat answers

  items-held_by :
      (r : Result (Option (List I))) → items test_transport decode (of_result r) ≡ held_by r
  items-held_by (err e) = refl
  items-held_by (ok none) = refl
  items-held_by (ok (some [])) = refl
  items-held_by (ok (some (i ∷ more))) = ap (λ l. done i ∷ l) (items-held_by (ok (some more)))

  -- A stream yields the items of each answer to its polls, in order and without loss, and an error for
  -- an answer that cannot be decoded, after which it polls on; and it polls once for each answer.
  pub filter_stream_lem :
      (base : BaseFilter) (answers : List Value) (log : List (String × List Value))
      (rest : List Value)
      → filter_stream test_transport decode base (length answers) (at log (answers ++ rest))
        ≡ (at (log ++ changes base (length answers)) rest, flat answers)
  unfolding filter_stream execute call_future test_transport prepare send
  filter_stream_lem base [] log rest = rw (append-nil log) refl
  filter_stream_lem base (v ∷ answers) log rest =
      rw
        (
          filter_stream_lem base answers (log ++ ("eth_getFilterChanges", string base.id ∷ []) ∷ [])
              rest,
          items-held_by (decode v),
          append_assoc log (("eth_getFilterChanges", string base.id ∷ []) ∷ [])
              (changes base (length answers)),
        )
        refl
