-- ===== src/Replay/Tests.antt =====
-- frontend/src/ui.ts: playback of a replay of four points.
use federated_iot_platform.Prelude.{true, false, none, ◌≡◌, refl, arith}
use federated_iot_platform.Js.{nat}
use federated_iot_platform.Replay.{Playback, toggle, ticks}
use federated_iot_platform.Replay.Rounds.{HasEnded, toggle_ends}

abbrev stopped : Playback
stopped = record { playing = false; speed = nat 2; position = 1; timer = false; focus = none }

toggle_ends_example : ((toggle 4 stopped).timer ≡ true) × HasEnded (ticks 4 4 (toggle 4 stopped))
toggle_ends_example = toggle_ends 4 stopped refl (omega arith)
