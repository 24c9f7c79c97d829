-- ===== src/History/Shown.antt =====
-- frontend/src/ui.ts: everything that changes the history page, one after the other, and what holds
-- of the run that it shows.
use federated_iot_platform.Prelude.{
  ℕ, Bool, true, false, not, ◌||◌, Option, none, some, List, [], ◌∷◌, String, ◌==◌, ◌≡◌, refl,
  arith, suc, ◌≤◌,
}
use federated_iot_platform.Js.{Value, truthy}
use federated_iot_platform.History.{History, empty_history, artifact_gate, upsert_run}
use federated_iot_platform.History.Loading
use federated_iot_platform.History.Loading.{Load, answer_load, finish_load, update_filters}
use federated_iot_platform.History.Selection.{
  Task, Selecting, begin_select, fail_select, finish_select, ReplayLoad, begin_replay, Settled,
  answer_replay, select_replay_agent, begin_deep_link, fail_deep_link, finish_deep_link,
  after_store, dropped,
}

-- The start of an operation, or the arrival of what one of them awaits.
pub data Move : Type 0 where
  selects : String → Move
  select_fails : Selecting → Value → Move
  select_ends : Selecting → Value → Value → Task → Move
  replay_begins : ℕ → Move
  replay_ends : ReplayLoad → Settled → Settled → Settled → Move
  agent_picked : ℕ → Move
  link_begins : String → Move
  link_fails : Move
  link_ends : String → Move
  list_begins : Bool → Move
  list_ends : Load → Value → List (Option Value) → Move
  list_fails : Load → Value → Move
  filters_set : String → String → String → Move

abbrev pub or_same {ℓ} : {A : Type ℓ} → History → Option (History × A) → History
or_same h none = h
or_same h (some (next, token)) = next

abbrev pub or_unchanged : History → Option History → History
or_unchanged h none = h
or_unchanged h (some next) = next

abbrev pub state_of {ℓ} : {A : Type ℓ} → History × A → History
state_of (h, a) = h

unfoldable pub move : Move → History → History
move (selects id) h = or_same h (begin_select id h)
move (select_fails s e) h = fail_select s e h
move (select_ends s detail artifacts task) h = finish_select s detail artifacts task h
move (replay_begins epoch) h = or_same h (begin_replay epoch h)
move (replay_ends l a b c) h = answer_replay l a b c h
move (agent_picked n) h = or_unchanged h (select_replay_agent n h)
move (link_begins id) h = state_of (begin_deep_link id h)
move link_fails h = fail_deep_link h
move (link_ends id) h = state_of (finish_deep_link id h)
move (list_begins appends) h = or_same h (Loading.begin_load true appends h)
move (list_ends l response summaries) h = answer_load l response summaries h
move (list_fails l e) h = Loading.fail_load l e h
move (filters_set query status mode) h = update_filters query status mode h

unfoldable pub moves : List Move → History → History
moves [] h = h
moves (m ∷ ms) h = moves ms (move m h)

-- No run is shown, or one whose artifacts are committed.
unfoldable pub is_committed : History → Bool
is_committed h = not (truthy h.detail) || (artifact_gate h.detail h.artifacts).ready

finish-committed :
    (s : Selecting) (detail artifacts : Value) (task : Task) (h : History)
    → is_committed h ≡ true
    → is_committed (finish_select s detail artifacts task h) ≡ true
unfolding finish_select is_committed fail_select upsert_run
finish-committed s detail artifacts task h c = ground (arith, c)

move-committed : (m : Move) (h : History) → is_committed h ≡ true → is_committed (move m h) ≡ true
unfolding move is_committed begin_select fail_select begin_replay answer_replay select_replay_agent
    begin_deep_link fail_deep_link finish_deep_link Loading.begin_load answer_load finish_load
    Loading.fail_load update_filters
move-committed (selects id) h c = ground (arith, c)
move-committed (select_fails s e) h c = ground (arith, c)
move-committed (select_ends s detail artifacts task) h c =
    finish-committed s detail artifacts task h c
move-committed (replay_begins epoch) h c = ground (arith, c)
move-committed (replay_ends l a b e) h c = ground (arith, c)
move-committed (agent_picked n) h c = ground (arith, c)
move-committed (link_begins id) h c = ground (arith, c)
move-committed link_fails h c = ground (arith, c)
move-committed (link_ends id) h c = ground (arith, c)
move-committed (list_begins appends) h c = ground (arith, c)
move-committed (list_ends l response summaries) h c = ground (arith, c)
move-committed (list_fails l e) h c = ground (arith, c)
move-committed (filters_set query status mode) h c = ground (arith, c)

moves-committed :
    (ms : List Move) (h : History) → is_committed h ≡ true → is_committed (moves ms h) ≡ true
unfolding moves
moves-committed [] h c = c
moves-committed (m ∷ ms) h c = moves-committed ms (move m h) (move-committed m h c)

start-committed : is_committed empty_history ≡ true
unfolding is_committed
start-committed = refl

-- However selections, replays, deep links, pages and filters follow each other, the run that the
-- history shows has committed artifacts, or no run is shown.
pub moves-empty_history-committed : (ms : List Move) → is_committed (moves ms empty_history) ≡ true
moves-empty_history-committed ms = moves-committed ms empty_history start-committed

-- No move takes the history back to an earlier selection.
move-epoch : (m : Move) (h : History) → h.selection_epoch ≤ (move m h).selection_epoch
unfolding move begin_select fail_select finish_select upsert_run begin_replay answer_replay
    select_replay_agent begin_deep_link fail_deep_link finish_deep_link Loading.begin_load
    answer_load finish_load Loading.fail_load update_filters
move-epoch (selects id) h = ground arith
move-epoch (select_fails s e) h = ground arith
move-epoch (select_ends s detail artifacts task) h = ground arith
move-epoch (replay_begins epoch) h = ground arith
move-epoch (replay_ends l a b e) h = ground arith
move-epoch (agent_picked n) h = ground arith
move-epoch (link_begins id) h = ground arith
move-epoch link_fails h = ground arith
move-epoch (link_ends id) h = ground arith
move-epoch (list_begins appends) h = ground arith
move-epoch (list_ends l response summaries) h = ground arith
move-epoch (list_fails l e) h = ground arith
move-epoch (filters_set query status mode) h = ground arith

moves-epoch : (ms : List Move) (h : History) → h.selection_epoch ≤ (moves ms h).selection_epoch
unfolding moves
moves-epoch [] h = omega arith
moves-epoch (m ∷ ms) h = omega (arith, move-epoch m h, moves-epoch ms (move m h))

begin_select-epoch :
    (id : String) (h h' : History) (s : Selecting)
    → begin_select id h ≡ some (h', s)
    → (h'.selection_epoch ≡ suc h.selection_epoch) × (s.epoch ≡ suc h.selection_epoch)
unfolding begin_select
begin_select-epoch id h h' s e = ground (arith, e)

-- Once another run is selected, at any time after the first one and whatever happens before and after
-- it, nothing that the first selection still awaits changes the history: not the store, not the
-- artifacts, not an error, not its replay.
pub select-last_wins :
    (a b : String) (h h1 h2 : History) (first second : Selecting) (between after : List Move)
    → begin_select a h ≡ some (h1, first)
    → begin_select b (moves between h1) ≡ some (h2, second)
    → let now = moves after h2 in
      ((task : Task) → after_store first task now ≡ dropped)
      × ((detail artifacts : Value) (task : Task)
          → finish_select first detail artifacts task now ≡ now)
      × ((error : Value) → fail_select first error now ≡ now)
      × ((l : ReplayLoad) (x y z : Settled)
          → l.epoch ≡ first.epoch
          → answer_replay l x y z now ≡ now)
unfolding after_store finish_select fail_select answer_replay
select-last_wins a b h h1 h2 first second between after e f =
    let now = moves after h2 in
    let (at_first, is_first) = begin_select-epoch a h h1 first e in
    let (at_second, is_second) = begin_select-epoch b (moves between h1) h2 second f in
    let late : (now.selection_epoch == first.epoch) ≡ false =
      ground (arith, moves-epoch between h1, moves-epoch after h2) in
    (
      λ task. ground (arith, late),
      λ detail artifacts task. ground (arith, late),
      λ error. ground (arith, late),
      λ l x y z same. ground (arith, late, same),
    )
