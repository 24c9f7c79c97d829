-- ===== src/Mock/Whole.antt =====
-- frontend/src/testing/mock-api.ts and frontend/src/ui.ts: the whole list, after enough loads.
use federated_iot_platform.Prelude.{
  ℕ, zero, suc, ◌+◌, ◌≤◌, ◌<◌, Bool, true, false, Option, none, List, ltb, length, take, drop,
  filter, ◌≡◌, refl, arith, Bool-cases, inl, inr, ap, ◌∙◌, subst, length-take, length-drop,
}
use federated_iot_platform.Js.{Value}
use federated_iot_platform.History.{History, is_terminal_run}
use federated_iot_platform.History.Loading.{begin_load}
use federated_iot_platform.History.Listed.{distinct}
use federated_iot_platform.Mock.Enumerated.{take-all}
use federated_iot_platform.Mock.Rounds.{round, rounds, IsAt, round-first, round-next}

begin_load-done : (h : History) → h.has_more ≡ false → begin_load true true h ≡ none
unfolding begin_load
begin_load-done h e = elim (Bool-cases h.loading) [ inl k ↦ rw k refl | inr k ↦ rw (k, e) refl ]

module _ (summaries : Value → List (Option Value)) (limit : ℕ) (runs : List Value) where
  abbrev one : Bool → History → History
  one = round summaries limit runs

  abbrev many : ℕ → History → History
  many = rounds summaries limit runs

  abbrev At : ℕ → History → Type 0
  At = IsAt summaries limit runs

  round-done : (h : History) → At (length runs) h → one true h ≡ h
  unfolding round
  round-done h at_end =
      let over : ltb (length runs) (length runs) ≡ false = ground arith in
      rw (round, begin_load-done h (at_end.more_is ∙ over)) refl

  -- Every round that is not the last lists at least one more run.
  module _ (different : distinct runs ≡ true) (some_limit : 1 ≤ limit) where
    rounds-IsAt :
        (n k : ℕ) (h : History) → At k h → length runs ≤ n + k → At (length runs) (many n h)
    unfolding rounds
    rounds-IsAt zero k h at_k enough =
        let e : k ≡ length runs = omega (arith, at_k.is_in) in subst (λ j. At j h) e at_k
    rounds-IsAt (suc n) k h at_k enough = elim (Bool-cases (ltb k (length runs))) [
      | inl e ↦
          let page = take limit (drop k runs) in
          let more : k < length runs = ground arith in
          let grows : length runs ≤ n + (k + length page) =
            omega (arith, length-take limit (drop k runs), length-drop k runs) in
          rounds-IsAt n (k + length page) (one true h)
            (round-next summaries limit runs k h different at_k more) grows
      | inr e ↦
          let over : k ≡ length runs = ground (arith, at_k.is_in) in
          let at_end : At (length runs) h = subst (λ j. At j h) over at_k in
          rw (round-done h at_end) (rounds-IsAt n (length runs) h at_end (omega arith))
    ]

  -- The first load and as many further ones as there are runs list every run that has ended, in the
  -- order of the API, and no page is left, where the runs are different and a page holds at least one.
  pub rounds-round :
      (h : History)
      → distinct runs ≡ true
      → 1 ≤ limit
      → h.loading ≡ false
      → let done = rounds summaries limit runs (length runs) (round summaries limit runs false h) in
        (done.items ≡ filter is_terminal_run runs)
        × (done.has_more ≡ false)
        × (done.loading ≡ false)
  rounds-round h different some_limit idle =
      let first = round-first summaries limit runs h idle in
      let at_end =
        rounds-IsAt different some_limit (length runs) _ (one false h) first (omega arith) in
      let over : ltb (length runs) (length runs) ≡ false = ground arith in
      (
        at_end.items_are ∙ ap (filter is_terminal_run) (take-all runs),
        at_end.more_is ∙ over,
        at_end.is_idle,
      )
