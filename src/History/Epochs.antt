-- ===== src/History/Epochs.antt =====
-- frontend/src/ui.ts: loads of the history that overlap with a change of its filters.
use federated_iot_platform.Prelude.{
  is_some, Option-cases, inl, inr, suc, ◌≤◌, ◌≡◌, Bool, true, false, not, ◌&&◌, Option, none, some,
  List, String, ◌===◌, arith,
}
use federated_iot_platform.Js.{Value}
use federated_iot_platform.History.{History}
use federated_iot_platform.History.Loading.{
  Load, begin_load, answer_load, finish_load, fail_load, loaded_items, update_filters,
}

-- A load of the history as it is, or of an earlier one.
abbrev pub IsPast : Load → History → Type 0
IsPast l h = l.epoch ≤ h.list_epoch

abbrev pub changes_filters : String → String → String → History → Bool
changes_filters query status mode h =
    not (h.query === query && h.status === status && h.mode === mode)

-- An answer or an error that arrives after the filters were changed is dropped.
pub answer_after_filters :
    (l : Load) (response error : Value) (summaries : List (Option Value)) (h : History)
    (query status mode : String)
    → IsPast l h
    → changes_filters query status mode h ≡ true
    → (answer_load l response summaries (update_filters query status mode h)
        ≡ update_filters query status mode h)
      × (fail_load l error (update_filters query status mode h)
          ≡ update_filters query status mode h)
unfolding answer_load fail_load update_filters
answer_after_filters l response error summaries h query status mode p c = ground arith

filters_reload :
    (h : History) (query status mode : String)
    → changes_filters query status mode h ≡ true
    → is_some (begin_load true false (update_filters query status mode h)) ≡ true
unfolding update_filters begin_load
filters_reload h query status mode c = ground arith

-- What a late end of an old load leaves, once the load that the filters start has begun.
late_finish :
    (l next : Load) (response : Value) (summaries : List (Option Value)) (h now : History)
    (query status mode : String)
    → changes_filters query status mode h ≡ true
    → begin_load true false (update_filters query status mode h) ≡ some (now, next)
    → let late = finish_load l response summaries now in
      (late.items ≡ loaded_items l response)
      × (late.query ≡ query)
      × (late.status ≡ status)
      × (late.mode ≡ mode)
      × (late.loading ≡ false)
      × (late.list_epoch ≡ suc (suc h.list_epoch))
unfolding finish_load update_filters begin_load
late_finish l next response summaries h now query status mode c e = ground (arith, c, e)

-- But the epoch is not looked at again after the summaries: where the filters change while those are
-- loaded, the load that the filters start is under way when the old one ends, and yet the runs of the
-- old filters are listed under the new ones, as loaded.
pub filters_before_finish :
    (l : Load) (response : Value) (summaries : List (Option Value)) (h : History)
    (query status mode : String)
    → changes_filters query status mode h ≡ true
    → (now : History) × (next : Load) × (begin_load true false (update_filters query status mode h)
        ≡ some (now, next))
      × (let late = finish_load l response summaries now in
          (late.items ≡ loaded_items l response)
          × (late.query ≡ query)
          × (late.status ≡ status)
          × (late.mode ≡ mode)
          × (late.loading ≡ false)
          × (late.list_epoch ≡ suc (suc h.list_epoch)))
filters_before_finish l response summaries h query status mode c =
    elim (Option-cases (begin_load true false (update_filters query status mode h))) [
      | inl e ↦ ground (arith, e, filters_reload h query status mode c)
      | inr ((now, next), e) ↦
          (now, next, e, late_finish l next response summaries h now query status mode c e)
    ]

-- A second load cannot begin before the first has ended, and an answer to the load that has begun
-- ends it with the page listed.
pub load_round :
    (appends : Bool) (response : Value) (summaries : List (Option Value)) (h h' : History)
    (l : Load)
    → begin_load true appends h ≡ some (h', l)
    → (begin_load true appends h' ≡ none)
      × ((answer_load l response summaries h').items ≡ loaded_items l response)
      × ((answer_load l response summaries h').loading ≡ false)
unfolding begin_load answer_load finish_load
load_round appends response summaries h h' l e = ground arith
