-- ===== src/Cron/Laws.antt =====
-- What `next_cron` returns lies ahead, and is the first time that fits its fields.
use az_lab.Text
use az_lab.Cron.{next_at, mod_seven, daily_at, days_ahead}
use az_lab.Time.{Time, minutes, hours, days, day, weekday}
use az_lab.Prelude.{
  ℕ, ◌+◌, ◌-◌, ◌%◌, ◌≤◌, ◌<◌, ◌≡◌, refl, Bool, true, false, Option, none, some, arith,
}

daily_at_later : (now h m : ℕ) → h < 24 → m < 60 → now < daily_at now h m
unfolding daily_at
daily_at_later now h m ph pm = ground arith

-- The time of day, and the day of the week where one is asked for (Sunday is 0).
pub record Fires (m h : ℕ) (dow : Option ℕ) (t : Time) : Type 0 where
  pub clock : t % 86400000000 ≡ hours h + minutes m
  pub on_day : (target : ℕ) → dow ≡ some target → (weekday t + 1) % 7 ≡ target

daily_at_clock :
    (now h m : ℕ) → h < 24 → m < 60 → daily_at now h m % 86400000000 ≡ hours h + minutes m
unfolding daily_at
daily_at_clock now h m ph pm = ground arith

days_ahead_day :
    (target c : ℕ) → target < 7 → (weekday (c + days (days_ahead target c)) + 1) % 7 ≡ target
unfolding days_ahead
days_ahead_day target c p = omega arith

-- Two times with one time of day are whole days apart.
days_apart : (a v : ℕ) → a ≤ v → v % 86400000000 ≡ a % 86400000000 → v ≡ a + days (day v - day a)
days_apart a v p q = omega arith

days_ahead-le :
    (target c j : ℕ)
    → target < 7
    → (weekday (c + days j) + 1) % 7 ≡ target
    → days_ahead target c ≤ j
unfolding days_ahead
days_ahead-le target c j p q = omega arith

daily_at-le :
    (now h m v : ℕ)
    → h < 24
    → m < 60
    → now < v
    → v % 86400000000 ≡ hours h + minutes m
    → daily_at now h m ≤ v
unfolding daily_at
daily_at-le now h m v ph pm later c = ground arith

-- The time that is computed for an hour, a minute and, where one is set, a weekday is later than now,
-- has them, and no earlier time after now does.
pub next_at_first :
    (now h m : ℕ) (dow : Option ℕ)
    → h < 24
    → m < 60
    → ((target : ℕ) → dow ≡ some target → target < 7)
    → (now < next_at now h m dow)
      × Fires m h dow (next_at now h m dow)
      × ((v : Time) → now < v → Fires m h dow v → next_at now h m dow ≤ v)
unfolding next_at
next_at_first now h m none ph pm pd = (
  daily_at_later now h m ph pm,
  record { clock = daily_at_clock now h m ph pm; on_day = λ target e. cc },
  λ v later f. daily_at-le now h m v ph pm later f.clock,
)
next_at_first now h m (some target) ph pm pd =
    let c = daily_at now h m in
    let k = days_ahead target c in
    let t7 = pd target refl in
    (
      omega (arith, daily_at_later now h m ph pm),
      record {
        clock = omega (arith, daily_at_clock now h m ph pm);
        on_day = λ t e. cc (days_ahead_day target c t7, e);
      },
      λ v later f.
          let le = daily_at-le now h m v ph pm later f.clock in
          let apart = days_apart c v le (omega (arith, f.clock, daily_at_clock now h m ph pm)) in
          let fit = f.on_day target refl in
          let near = days_ahead-le target c (day v - day c) t7 (rw (← apart) fit) in
          omega (arith, near, apart),
    )

mod_seven-lt : (p : Option (Bool × ℕ)) {n : ℕ} → mod_seven p ≡ some n → n < 7
unfolding mod_seven
mod_seven-lt none e = cc
mod_seven-lt (some (true, k)) e = ground arith
mod_seven-lt (some (false, k)) e = ground arith
