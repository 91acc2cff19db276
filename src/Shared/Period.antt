-- ===== src/Shared/Period.antt =====
-- time_period, get_time_range and timeline_generate of common/ext_fun.py. A time is a number of seconds
-- of the local clock, counted from a Monday at midnight; parts of a second are dropped. The months and
-- years of dateutil and its recurrence rules are parameters.
use devops_backend.Prelude.{
  ℕ, ◌+◌, ◌-◌, ◌*◌, ◌/◌, ◌%◌, ◌≤◌, ◌<◌, String, ◌≡◌, ◌⊎◌, inl, inr, Bool, Option, none, some, List,
  map, ◌||◌, ◌==◌, text_key, arith, if◌then◌else◌, leb, ltb, get_elem?, Bool-cases,
}
use devops_backend.Outcome.{Result, ok, err, ◌>>=◌, or_raise, index_error, key_error}
use devops_backend.Text.{split, last}

pub record Period : Type 0 where
  pub name : String
  pub start_time : ℕ
  pub end_time : ℕ

-- a text for a range up to now, or two times; any other type gives no period
pub data Range : Type 0 where
  static : String → Range
  dynamic : ℕ → ℕ → Range
  unknown : Range

-- what the code calls: the number of a text and the step of dateutil back from a time, which raise for
-- other texts; the recurrence rule with a frequency; a time as a text in a format
pub record Calendar : Type 1 where
  pub back : ℕ → String → String → Result ℕ
  pub rrule : String → ℕ → ℕ → List ℕ
  pub strftime : String → ℕ → String

-- the parts of a time that the code takes off
unfoldable pub weekday : ℕ → ℕ
weekday t = t / 86400 % 7

unfoldable pub hour : ℕ → ℕ
hour t = t % 86400 / 3600

unfoldable pub minute : ℕ → ℕ
minute t = t % 3600 / 60

unfoldable pub second : ℕ → ℕ
second t = t % 60

-- `end_time - relativedelta(days=..., hours=..., minutes=..., seconds=...)`
unfoldable pub minus : ℕ → ℕ → ℕ
minus t days = t - (days * 86400 + hour t * 3600 + minute t * 60 + second t)

unfoldable pub dynamic_period : ℕ → ℕ → Period
dynamic_period one other = if ltb other one then named other one else named one other
  where
    named : ℕ → ℕ → Period
    named start_time end_time =
        let days = (end_time - start_time) / 86400 in
        record {
          name =
              if leb 60 days
              then "months"
              else if leb 2 days
              then "days"
              else if leb 1 days || ltb 3600 ((end_time - start_time) % 86400)
              then "hours"
              else "minutes";
          start_time = start_time;
          end_time = end_time;
        }

module _ (calendar : Calendar) (now : ℕ) where
  -- a number and a unit; the name is the unit, and the tests for None behind it are never met
  unfoldable pub counted_period : List String → Result Period
  counted_period pieces = do
    name ← or_raise index_error (get_elem? pieces 1)
    count ← or_raise index_error (get_elem? pieces 0)
    start_time ← calendar.back now name count
    ok (record { name = name; start_time = start_time; end_time = now })

  unfoldable pub static_period : String → Result Period
  static_period time_range =
      let pieces = split "-" time_range in
      let tail = last pieces in
      if tail == "week"
      then ok (record { name = "days"; start_time = minus now (weekday now); end_time = now })
      else if tail == "lastweek"
      then ok (record {
        name = "days";
        start_time = minus now (weekday now + 7);
        end_time = minus now (weekday now);
      })
      else if tail == "today"
      then ok (record { name = "hours"; start_time = minus now 0; end_time = now })
      else if tail == "yesterday"
      then ok (record { name = "hours"; start_time = minus now 0 - 86400; end_time = minus now 0 })
      else counted_period pieces

  unfoldable pub time_period : Range → Result (Option Period)
  time_period (static time_range) = static_period time_range >>= λ p. ok (some p)
  time_period (dynamic first second) = ok (some (dynamic_period first second))
  time_period unknown = ok none

-- the frequencies of the time line for reports, DASHBOARD_TIME_FREQNAMES_T, a missing name being a
-- KeyError
unfoldable pub has_frequency : String → Bool
has_frequency name =
    name == "years"
    || (name == "months"
        || (name == "days" || (name == "hours" || (name == "minutes" || name == "seconds"))))

unfoldable pub timeline_generate : Calendar → Period → Result (List String)
timeline_generate calendar p =
    if has_frequency p.name
    then ok (map (calendar.strftime p.name) (calendar.rrule p.name p.start_time p.end_time))
    else err key_error

-- the marks of the time line are the hours alone where the scale is hours
unfoldable pub marks : Period → List String → List String
marks p line = if p.name == "hours" then map (λ i. last (split " " i)) line else line

minus_midnight :
    (t days : ℕ) → days * 86400 + t % 86400 ≤ t → minus t days ≡ t - t % 86400 - days * 86400
unfolding minus hour minute second
minus_midnight t days h = omega arith

-- the name that the length of a range gives, in seconds
abbrev pub IsScale : String → ℕ → Type 0
IsScale name length =
    ((name ≡ "months") × (5184000 ≤ length))
    ⊎ (((name ≡ "days") × (172800 ≤ length) × (length < 5184000))
        ⊎ (((name ≡ "hours") × (3600 < length) × (length < 172800))
            ⊎ ((name ≡ "minutes") × (length ≤ 3600))))

-- A range between two times, given in any order, runs from the earlier to the later one, and its scale
-- is months from sixty days on, days from two, hours above one hour, and minutes below.
pub dynamic_period-IsScale :
    (one other : ℕ)
    → (((dynamic_period one other).start_time ≡ one)
        × ((dynamic_period one other).end_time ≡ other)
        × (one ≤ other)
        × IsScale (dynamic_period one other).name (other - one))
      ⊎ (((dynamic_period one other).start_time ≡ other)
          × ((dynamic_period one other).end_time ≡ one)
          × (other ≤ one)
          × IsScale (dynamic_period one other).name (one - other))
unfolding dynamic_period
dynamic_period-IsScale one other = elim (Bool-cases (ltb other one)) [
  | inr ordered ↦ inl (
    ground (arith, ordered),
    ground (arith, ordered),
    ground (arith, ordered),
    ground (arith, ordered),
  )
  | inl swapped ↦ inr (
    ground (arith, swapped),
    ground (arith, swapped),
    ground (arith, swapped),
    ground (arith, swapped),
  )
]
