-- ===== src/Replay/Rounds.antt =====
-- frontend/src/ui.ts: positions of a replay, and the rounds of its playback.
use federated_iot_platform.Prelude.{
  ℕ, zero, suc, ◌+◌, ◌≤◌, ◌<◌, ◌≡◌, refl, true, false, some, String, if◌then◌else◌, arith, inl, inr,
  ◌⊎◌, ◌∙◌,
}
use federated_iot_platform.Js.{Value, Num, number, nan, int, infinity}
use federated_iot_platform.Replay.{
  Playback, maximum, clamp_position, set_position, speed_steps, advance, stop, tick, toggle, ticks,
  keyboard_position,
}

clamp_position-le : (top : ℕ) (n : Num) → clamp_position top n ≤ top
clamp_position-le top nan = omega arith
clamp_position-le top (infinity true) = omega arith
clamp_position-le top (infinity false) = omega arith
clamp_position-le top (int n) = omega arith

-- Whatever position is asked for, the position and the focus of the chart are one point of the replay.
set_position-le :
    (count : ℕ) (position : Value) (p : Playback)
    → ((set_position count position p).position ≤ maximum count)
      × ((set_position count position p).focus ≡ some (set_position count position p).position)
unfolding set_position
set_position-le count position p = (clamp_position-le (maximum count) (number position), refl)

-- A key never leads out of the replay.
keyboard_position-le :
    (key : String) (current : Value) (count k : ℕ)
    → keyboard_position key current count ≡ some k
    → k ≤ maximum count
unfolding keyboard_position
keyboard_position-le key current count k h = ground arith

speed_steps-pos : (count : ℕ) (n : Num) → 1 ≤ speed_steps count n
speed_steps-pos count nan = omega arith
speed_steps-pos count (infinity true) = omega arith
speed_steps-pos count (infinity false) = omega arith
speed_steps-pos count (int n) = omega arith

-- A round either ends the playback and its interval, or goes on at a later point before the last.
tick_cases :
    (count : ℕ) (p : Playback)
    → (((tick count p).timer ≡ false) × ((tick count p).playing ≡ false))
      ⊎ ((p.position < (tick count p).position)
          × ((tick count p).position < maximum count)
          × ((tick count p).timer ≡ p.timer))
unfolding tick advance stop set_position number
tick_cases count p = ground (arith, speed_steps-pos count (number p.speed))

abbrev pub HasEnded : Playback → Type 0
HasEnded p = (p.timer ≡ false) × (p.playing ≡ false)

ticks-HasEnded : (n count : ℕ) (p : Playback) → HasEnded p → HasEnded (ticks n count p)
unfolding ticks
ticks-HasEnded zero count p h = h
ticks-HasEnded (suc n) count p h =
    ticks-HasEnded n count (if p.timer then tick count p else p) (simp h.0 (refl, h.1))

ticks_end :
    (n count : ℕ) (p : Playback)
    → maximum count ≤ p.position + n
    → 1 ≤ n
    → p.timer ≡ true
    → HasEnded (ticks n count p)
unfolding ticks
ticks_end zero count p h k q = absurd (omega arith)
ticks_end (suc n) count p h k q = elim (tick_cases count p) [
  | inl e ↦ simp q (ticks-HasEnded n count (tick count p) e)
  | inr (later, inside, same) ↦
      simp q (ticks_end n count (tick count p) (omega arith) (omega arith) (same ∙ q))
]

toggle_timer :
    (count : ℕ) (p : Playback) → p.playing ≡ false → 1 ≤ count → (toggle count p).timer ≡ true
unfolding toggle
toggle_timer count p h k = ground arith

-- Playback of at least one point that is started sets its interval and ends by itself: as many rounds
-- as there are points clear the interval.
pub toggle_ends :
    (count : ℕ) (p : Playback)
    → p.playing ≡ false
    → 1 ≤ count
    → ((toggle count p).timer ≡ true) × HasEnded (ticks count count (toggle count p))
toggle_ends count p h k =
    let t = toggle_timer count p h k in
    (t, ticks_end count count (toggle count p) (omega arith) k t)
