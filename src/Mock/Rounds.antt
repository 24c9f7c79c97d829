-- ===== src/Mock/Rounds.antt =====
-- frontend/src/testing/mock-api.ts and frontend/src/ui.ts: the history page loads the paged list of the
-- mock API until no page is left.
use Prim.Native.Char.{Char}
use Prim.Native.String.{◌∷◌}
use federated_iot_platform.Prelude.{
  ◌≢◌, ◌===◌, is_some, Option-cases, eq_iff, ℕ, zero, suc, ◌+◌, ◌≤◌, ◌<◌, Bool, true, false, Option,
  none, some, List, [], ◌∷◌, ◌++◌, String, ◌==◌, ltb, if◌then◌else◌, length, take, drop, filter,
  ◌≡◌, refl, arith, Bool-cases, inl, inr, ap, ◌∙◌, sym, subst, length-take, length-drop,
}
use federated_iot_platform.Js.{Value, null, str, get, truthy, text_or_empty, text, items, lookup}
use federated_iot_platform.Js.Objects.{list_of-items_of}
use federated_iot_platform.Api.{joined}
use federated_iot_platform.Queue.{page_items, page_meta}
use federated_iot_platform.History.{History, is_terminal_run}
use federated_iot_platform.History.Loading.{
  Load, begin_load, answer_load, finish_load, loaded_items, new_items,
}
use federated_iot_platform.History.Listed.{distinct}
use federated_iot_platform.Mock.{page_at}
use federated_iot_platform.Mock.Cursor.{cursor_text, read_cursor, read_cursor-cursor_text}
use federated_iot_platform.Mock.Enumerated.{
  take-drop, take-take-drop, filter-append, filter-kept, distinct-IsNew, All-take, All-kept,
}

-- The cursor of the page that starts at an offset.
abbrev cursor_at : ℕ → List Value → Value
cursor_at k runs = if ltb k (length runs) then str (cursor_text k) else null

page_items-page_at :
    (offset limit : ℕ) (runs : List Value)
    → page_items (page_at offset limit runs) ≡ take limit (drop offset runs)
unfolding page_at
page_items-page_at offset limit runs = unfold get lookup items in list_of-items_of _

-- What a page says of the next one.
page_meta-page_at :
    (offset limit : ℕ) (runs : List Value)
    → let m = page_meta (page_at offset limit runs) in
      let next = offset + length (take limit (drop offset runs)) in
      (m.next_cursor ≡ cursor_at next runs) × (m.has_more ≡ ltb next (length runs))
unfolding page_at
page_meta-page_at offset limit runs =
    let next = offset + length (take limit (drop offset runs)) in
    elim (Bool-cases (ltb next (length runs))) [
      | inl e ↦ unfold get lookup in rw e (refl, refl)
      | inr e ↦ unfold get lookup in rw e (refl, refl)
    ]

cons_not_empty : (c : Char) (s : String) → ◌≢◌ {A = String} (c ∷ s) ""
cons_not_empty c s e = cc

cons-truthy : (c : Char) (s : String) → truthy (str (c ∷ s)) ≡ true
unfolding truthy
cons-truthy c s = elim (Bool-cases ((c ∷ s) === "")) [
  | inl e ↦ absurd (cons_not_empty c s ((eq_iff (c ∷ s) "").0 e))
  | inr e ↦ rw e refl
]

cursor_text-truthy : (k : ℕ) → truthy (str (cursor_text k)) ≡ true
unfolding cursor_text joined
cursor_text-truthy k = cons-truthy _ _

-- What a load that begins has read.
begin_load-prior :
    (appends : Bool) (h h' : History) (l : Load)
    → begin_load true appends h ≡ some (h', l)
    → (h'.list_epoch ≡ l.epoch)
      × (l.appends ≡ appends)
      × (l.prior ≡ (if appends then h.items else []))
unfolding begin_load
begin_load-prior appends h h' l e = ground arith

begin_load-first : (h : History) → h.loading ≡ false → is_some (begin_load true false h) ≡ true
unfolding begin_load
begin_load-first h idle = rw idle refl

begin_load-next :
    (h : History)
    → h.loading ≡ false
    → h.has_more ≡ true
    → truthy h.next_cursor ≡ true
    → is_some (begin_load true true h) ≡ true
unfolding begin_load
begin_load-next h idle more cursor = rw (idle, more, cursor) refl

module _ (summaries : Value → List (Option Value)) (limit : ℕ) (runs : List Value) where
  -- The page that answers a load from a cursor.
  abbrev answered : History × Load → Value → History
  answered (h, l) page = answer_load l page (summaries page) h

  -- A load of the first page, or of the next one, with its answer.
  unfoldable pub round : Bool → History → History
  unfolding begin_load answer_load
  round appends h =
      let from = if appends then read_cursor (text_or_empty h.next_cursor) else 0 in
      elim (begin_load true appends h) [
        | none ↦ h
        | some begun ↦ answered begun (page_at from limit runs)
      ]

  unfoldable pub rounds : ℕ → History → History
  unfolding round
  rounds zero h = h
  rounds (suc n) h = rounds n (round true h)

  -- A history that lists what has ended of the first k runs and goes on from there.
  pub record IsAt (k : ℕ) (h : History) : Type 0 where
    pub is_in : k ≤ length runs
    pub items_are : h.items ≡ filter is_terminal_run (take k runs)
    pub is_idle : h.loading ≡ false
    pub more_is : h.has_more ≡ ltb k (length runs)
    pub cursor_is : h.next_cursor ≡ cursor_at k runs

  answer_load-IsAt :
      (l : Load) (k : ℕ) (h : History)
      → h.list_epoch ≡ l.epoch
      → k ≤ length runs
      → let page = take limit (drop k runs) in
        loaded_items l (page_at k limit runs) ≡ filter is_terminal_run (take (k + length page) runs)
        → IsAt
            (k + length page)
            (answer_load l (page_at k limit runs) (summaries (page_at k limit runs)) h)
  unfolding answer_load finish_load
  answer_load-IsAt l k h same inside items_eq =
      let current : (h.list_epoch == l.epoch) ≡ true = ground arith in
      let (cursor, more) = page_meta-page_at k limit runs in
      let next = k + length (take limit (drop k runs)) in
      let bound : next ≤ length runs =
        omega (arith, length-take limit (drop k runs), length-drop k runs) in
      rw current (record {
        is_in = bound;
        items_are = items_eq;
        is_idle = refl;
        more_is = more;
        cursor_is = cursor;
      })

  loaded_items-page_at :
      (appends : Bool) (k : ℕ) (h : History) (l : Load)
      → l.appends ≡ appends
      → l.prior ≡ (if appends then h.items else [])
      → let page = filter is_terminal_run (take limit (drop k runs)) in
        loaded_items l (page_at k limit runs)
        ≡ (if appends then h.items ++ new_items h.items page else page)
  unfolding loaded_items
  loaded_items-page_at true k h l kind prior =
      rw (kind, prior)
        (ap (λ ys. h.items ++ new_items h.items (filter is_terminal_run ys))
          (page_items-page_at k limit runs))
  loaded_items-page_at false k h l kind prior =
      rw kind (ap (filter is_terminal_run) (page_items-page_at k limit runs))

  round-begun :
      (appends : Bool) (k : ℕ) (h h' : History) (l : Load)
      → begin_load true appends h ≡ some (h', l)
      → (if appends then read_cursor (text_or_empty h.next_cursor) else 0) ≡ k
      → round appends h ≡ answer_load l (page_at k limit runs) (summaries (page_at k limit runs)) h'
  unfolding round
  round-begun appends k h h' l e from = rw (round, e, from) refl

  -- The answer to a load from offset k.
  round-IsAt :
      (appends : Bool) (k : ℕ) (h : History)
      → is_some (begin_load true appends h) ≡ true
      → (if appends then read_cursor (text_or_empty h.next_cursor) else 0) ≡ k
      → k ≤ length runs
      → let page = take limit (drop k runs) in
        (if appends
            then h.items ++ new_items h.items (filter is_terminal_run page)
            else filter is_terminal_run page)
          ≡ filter is_terminal_run (take (k + length page) runs)
        → IsAt (k + length page) (round appends h)
  unfolding round loaded_items
  round-IsAt appends k h begins from inside items_eq =
      elim (Option-cases (begin_load true appends h)) [
        | inl e ↦ ground (arith, e)
        | inr ((h', l), e) ↦
            let (same, kind, prior) = begin_load-prior appends h h' l e in
            subst (IsAt _) (sym (round-begun appends k h h' l e from)) (
              answer_load-IsAt l k h' same inside
                (loaded_items-page_at appends k h l kind prior ∙ items_eq))
      ]

  pub round-first :
      (h : History)
      → h.loading ≡ false
      → IsAt (0 + length (take limit (drop 0 runs))) (round false h)
  round-first h idle =
      round-IsAt false 0 h (begin_load-first h idle) refl (omega arith)
        (ap (filter is_terminal_run) (take-take-drop 0 limit runs (omega arith)))

  -- The next page is new to the runs before it.
  next-items :
      (k : ℕ) (h : History)
      → distinct runs ≡ true
      → IsAt k h
      → let page = take limit (drop k runs) in
        h.items ++ new_items h.items (filter is_terminal_run page)
        ≡ filter is_terminal_run (take (k + length page) runs)
  unfolding new_items
  next-items k h different at_k =
      let page = take limit (drop k runs) in
      let apart : distinct (take k runs ++ drop k runs) ≡ true = rw (take-drop k runs) different in
      let all_new =
        All-take _ limit (drop k runs) (distinct-IsNew (take k runs) (drop k runs) apart) in
      let kept =
        filter-kept _ (filter is_terminal_run page)
          (All-kept is_terminal_run (take k runs) page all_new) in
      rw (at_k.items_are, kept)
        (sym (filter-append is_terminal_run (take k runs) page)
          ∙ ap (filter is_terminal_run) (take-take-drop k limit runs at_k.is_in))

  pub round-next :
      (k : ℕ) (h : History)
      → distinct runs ≡ true
      → IsAt k h
      → k < length runs
      → IsAt (k + length (take limit (drop k runs))) (round true h)
  unfolding text
  round-next k h different at_k more =
      let here : ltb k (length runs) ≡ true = ground arith in
      let cursor : h.next_cursor ≡ str (cursor_text k) =
        at_k.cursor_is ∙ ap (λ b. if b then str (cursor_text k) else null) here in
      round-IsAt true k h
        (begin_load-next h at_k.is_idle (at_k.more_is ∙ here)
          (ap truthy cursor ∙ cursor_text-truthy k))
        (ap (λ c. read_cursor (text_or_empty c)) cursor ∙ read_cursor-cursor_text k) at_k.is_in
        (next-items k h different at_k)
