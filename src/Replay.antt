-- ===== src/Replay.antt =====
-- frontend/src/ui.ts: the playback of a replay. The number of points is a natural number, and so is
-- the position once it has been set; a requested position and the speed are any numbers.
mod Tests
pub mod View
pub mod Rounds
use federated_iot_platform.Prelude.{
  ℕ, zero, suc, ◌+◌, ◌-◌, Bool, true, false, not, ◌&&◌, ◌||◌, Option, none, some, List, [], String,
  ◌==◌, ◌===◌, leb, if◌then◌else◌, min, max, length,
}
use federated_iot_platform.Js.{
  Value, nat, get, is_nullish, items, is_array, Num, number, finite?, clamp_ℕ, num, nan, int,
  infinity, ◌or◌, arr, truthy, null, nil,
}
use federated_iot_platform.Prelude.Int.{ℤ, pos, negsuc}
use federated_iot_platform.Js.Objects.{with_field, spread}

-- `timer` says whether the interval runs; `focus` is that of the chart.
pub record Playback : Type 0 where
  pub playing : Bool
  pub speed : Value
  pub position : ℕ
  pub timer : Bool
  pub focus : Option ℕ

-- The last position of a replay.
abbrev pub maximum : ℕ → ℕ
maximum count = count - 1

-- `Math.max(0, Math.min(maximum, Math.round(Number(v) || 0)))`. Integers round to themselves, and an
-- infinite position goes to the nearer end.
abbrev pub clamp_position : ℕ → Num → ℕ
clamp_position top (int n) = min top (clamp_ℕ n)
clamp_position top nan = 0
clamp_position top (infinity negative) = if negative then 0 else top

unfoldable pub set_position : ℕ → Value → Playback → Playback
set_position count position p =
    let next = clamp_position (maximum count) (number position) in
    record p { position = next; focus = some next }

-- `Math.max(1, Math.round(Number(speed) || 1))`; an infinite step is one over all points.
abbrev pub speed_steps : ℕ → Num → ℕ
speed_steps count (int n) = max 1 (clamp_ℕ n)
speed_steps count nan = 1
speed_steps count (infinity negative) = if negative then 1 else max 1 count

-- The new state, and whether playback goes on.
unfoldable pub advance : ℕ → Playback → Playback × Bool
advance count p =
    if maximum count == 0 || leb (maximum count) p.position
    then (record p { playing = false }, false)
    else let moved = set_position count (nat (p.position + speed_steps count (number p.speed))) p in
      let ended = leb (maximum count) moved.position in
      let next = if ended then record moved { playing = false } else moved in (next, next.playing)

unfoldable pub stop : Playback → Playback
stop p = record p { timer = false; playing = false }

-- One round of the interval of `toggleReplayPlayback`.
unfoldable pub tick : ℕ → Playback → Playback
tick count p = let (next, goes_on) = advance count p in if goes_on then next else stop next

-- `toggleReplayPlayback` without what it draws.
unfoldable pub toggle : ℕ → Playback → Playback
toggle count p =
    if count == 0
    then p
    else if p.playing
    then stop p
    else let rewound = if leb (maximum count) p.position then set_position count (nat 0) p else p in
      record rewound { playing = true; timer = true }

-- The rounds of the interval; it is cleared by the round that ends the playback.
unfoldable pub ticks : ℕ → ℕ → Playback → Playback
ticks zero count p = p
ticks (suc n) count p = ticks n count (if p.timer then tick count p else p)

unfoldable pub keyboard_position : String → Value → ℕ → Option ℕ
keyboard_position key current count =
    if key === "Home"
    then some 0
    else if key === "ArrowRight"
    then some (
        min (maximum count) (
          elim (number current) [
            | nan ↦ 0
            | infinity negative ↦ if negative then 0 else maximum count
            | int n ↦ clamp_ℕ n
          ]
          + 1))
    else if key === "End"
    then some (maximum count)
    else none

-- `replayPoints`, where what is present is an array.
unfoldable pub replay_points : Value → Value
replay_points replay =
    get "points" replay or (get "items" replay or (get "points" (get "data" replay) or arr nil))

unfoldable pub chart_summary : Value → Value → Value
chart_summary summary replay =
    let points = replay_points replay in
    let count = length (items points) in
    if not (truthy summary) || count == 0
    then summary
    else let chart = get "chart" summary in
      with_field "chart"
        (with_field "original_point_count"
          (num
            (number (get "total_points" replay or (get "original_point_count" chart or nat count))))
          (with_field "display_point_count" (nat count)
            (with_field "points" points (spread chart null))))
        (spread summary null)
