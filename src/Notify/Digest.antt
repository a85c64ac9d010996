-- ===== src/Notify/Digest.antt =====
-- When the digests are due.
use codex_daily_prewarm.Base.{
  List, Option-cases, String, [], arith, inl, inr, pos, pos_part, some, sub_ℕ, ℕ, ◌*◌, ◌+◌, ◌-ℤ◌,
  ◌-◌, ◌/◌, ◌<◌, ◌∙◌, ◌∷◌, ◌≡◌, ◌≤◌,
}
use codex_daily_prewarm.Clock.{Location, Time, add_days, day, from_local, local, local_day, minute}
use codex_daily_prewarm.Config.Names.{clock_digits, parse_clock}
use codex_daily_prewarm.Data.Config.{PluginConfig}
use codex_daily_prewarm.Notify.Times.{clock_minutes, digest_end, local_time_on}
use codex_daily_prewarm.Text.{codes}

-- A zone whose offset from UTC is the same at all times, and less than a day.
pub record IsFixedZone (location : Location) : Type 0 where
  pub east : ℕ
  pub west : ℕ
  pub constant : (t : Time) → location.offset t ≡ sub_ℕ east west
  pub east_small : east < day
  pub west_small : west < day

module _ (location : Location) (z : IsFixedZone location) where
  local-fixed : (t : Time) → z.west ≤ t → local location t ≡ t + z.east - z.west
  unfolding local
  local-fixed t h = rw (z.constant t) (ground arith)

  from_local-fixed : (w : ℕ) → z.east ≤ w → from_local location w ≡ w + z.west - z.east
  unfolding from_local
  from_local-fixed w h = rw (z.constant (pos_part (pos w -ℤ location.offset w))) (ground arith)

clock_digits-lt : (cs : List ℕ) (m : ℕ) → clock_digits cs ≡ some m → m < 1440
clock_digits-lt [] m h = cc
clock_digits-lt (a ∷ []) m h = cc
clock_digits-lt (a ∷ b ∷ []) m h = cc
clock_digits-lt (a ∷ b ∷ c ∷ []) m h = cc
clock_digits-lt (a ∷ b ∷ c ∷ d ∷ []) m h = cc
clock_digits-lt (a ∷ b ∷ c ∷ d ∷ e ∷ []) m h = ground arith
clock_digits-lt (a ∷ b ∷ c ∷ d ∷ e ∷ f ∷ cs) m h = cc

pub clock_minutes-lt : (text : String) → clock_minutes text < 1440
unfolding parse_clock
clock_minutes-lt text = elim (Option-cases (clock_digits (codes text))) [
  | inl e ↦ rw e (omega arith)
  | inr (m, e) ↦ rw e (clock_digits-lt (codes text) m e)
]

-- The clock time on the day of `at`, in a fixed zone and away from the year 1.
on_day :
    (location : Location) (z : IsFixedZone location) (at : Time) (clock : String)
    → 2 * day ≤ at
    → local_time_on at clock location
      ≡ (at + z.east - z.west) / day * day + clock_minutes clock * minute + z.west - z.east
unfolding local_time_on local_day
on_day location z at clock h =
    rw (local-fixed location z at (omega (arith, z.west_small)))
      (from_local-fixed location z _ (omega (arith, z.west_small, z.east_small)))

module _ (location : Location) (z : IsFixedZone location) where
  add_days-fixed : (t : Time) → day ≤ t → add_days location 1 t ≡ t + day
  unfolding add_days
  add_days-fixed t h = rw (local-fixed location z t (omega (arith, z.west_small))) (
      from_local-fixed location z _ (omega (arith, z.west_small, z.east_small))
      ∙ omega (arith, z.west_small, z.east_small))

  -- The clock time on the day of `at` is less than a day away from it.
  near_day :
      (at : Time) (clock : String)
      → 2 * day ≤ at
      → (at < local_time_on at clock location + day) × (local_time_on at clock location < at + day)
  near_day at clock h = rw (on_day location z at clock h) (
      let m = clock_minutes-lt clock in
      (omega (arith, m, z.west_small, z.east_small), omega (arith, m, z.west_small, z.east_small)))

-- In a zone of fixed offset and away from the year 1, the digest is due within a day: after the
-- moment it is planned at, and at most 24 hours after it.
pub digest_end-after :
    (cfg : PluginConfig) (z : IsFixedZone cfg.location) (at : Time)
    → 2 * day ≤ at
    → (at < digest_end cfg at) × (digest_end cfg at ≤ at + day)
unfolding digest_end
digest_end-after cfg z at h =
    let near = near_day cfg.location z at cfg.digest_time h in
    ground (
      arith,
      add_days-fixed cfg.location z (local_time_on at cfg.digest_time cfg.location)
          (omega (arith, near.0, h)),
      near.0,
      near.1,
    )
