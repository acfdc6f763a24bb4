-- ===== src/Portal/Statistics.antt =====
-- services/api/src/routers/client.py: the numbers of `get_analytics`.
use ai_calling_agent.Prelude.{
  ℕ, suc, ◌+◌, ◌≤◌, ◌<◌, ◌≡◌, refl, ap, ◌∙◌, Bool, true, List, [], ◌∷◌, length, select, arith,
}
use ai_calling_agent.Accounts.Models.{Caller}
use ai_calling_agent.Portal.Calls.{CallVolumeDay, count_day, by_day, day_of, is_within, analytics}

-- The calls that a daily volume counts.
unfoldable pub volume : List CallVolumeDay → ℕ
volume [] = 0
volume (d ∷ days) = d.count + volume days

-- Every day is later than `day`.
abbrev After : ℕ → List CallVolumeDay → Type 0
After day [] = Unit
After day (d ∷ days) = day < d.day

-- The days ascend, so none is listed twice.
abbrev pub IsAscending : List CallVolumeDay → Type 0
IsAscending [] = Unit
IsAscending (d ∷ days) = After d.day days × IsAscending days

volume-count_day :
    (day : ℕ) (days : List CallVolumeDay) → volume (count_day day days) ≡ suc (volume days)
unfolding volume count_day
volume-count_day day [] = omega arith
volume-count_day day (d ∷ days) = ground (arith, volume-count_day day days)

volume-by_day : (calls : List Caller) → volume (by_day calls) ≡ length calls
unfolding volume by_day
volume-by_day [] = refl
volume-by_day (call ∷ calls) =
    volume-count_day (day_of call.created_at) (by_day calls) ∙ ap suc (volume-by_day calls)

After-count_day :
    (bound day : ℕ) (days : List CallVolumeDay)
    → bound < day
    → After bound days
    → After bound (count_day day days)
unfolding count_day
After-count_day bound day [] h k = h
After-count_day bound day (d ∷ days) h k = ground arith

IsAscending-count_day :
    (day : ℕ) (days : List CallVolumeDay) → IsAscending days → IsAscending (count_day day days)
unfolding count_day
IsAscending-count_day day [] h = (tt, tt)
IsAscending-count_day day (d ∷ days) h =
    ground (arith, After-count_day d.day day days, IsAscending-count_day day days h.1)

IsAscending-by_day : (calls : List Caller) → IsAscending (by_day calls)
unfolding by_day
IsAscending-by_day [] = tt
IsAscending-by_day (call ∷ calls) =
    IsAscending-count_day (day_of call.created_at) (by_day calls) (IsAscending-by_day calls)

-- A weaker test selects no fewer.
length-select-le :
    (p q : Caller → Bool) (calls : List Caller)
    → ((c : Caller) → p c ≡ true → q c ≡ true)
    → length (select p calls) ≤ length (select q calls)
unfolding select
length-select-le p q [] h = omega arith
length-select-le p q (c ∷ calls) h = ground (arith, h c, length-select-le p q calls h)

length-select-all :
    (p : Caller → Bool) (calls : List Caller) → length (select p calls) ≤ length calls
unfolding select
length-select-all p [] = omega arith
length-select-all p (c ∷ calls) = ground (arith, length-select-all p calls)

week-in-month : (now : ℕ) (c : Caller) → is_within now 7 c ≡ true → is_within now 30 c ≡ true
unfolding is_within
week-in-month now c h = ground arith

-- The daily volume of GET /client/analytics lists each day once, in ascending order; its counts add up to at
-- least the calls of the week and at most all calls of the tenant.
pub analytics-volume :
    (now month : ℕ) (calls : List Caller)
    → IsAscending (analytics now month calls).daily_volume
      × ((analytics now month calls).calls_this_week
          ≤ volume (analytics now month calls).daily_volume)
      × (volume (analytics now month calls).daily_volume ≡ length (select (is_within now 30) calls))
      × (volume (analytics now month calls).daily_volume ≤ (analytics now month calls).total_calls)
unfolding analytics
analytics-volume now month calls =
    let v = volume-by_day (select (is_within now 30) calls) in
    let w = length-select-le (is_within now 7) (is_within now 30) calls (week-in-month now) in
    let a = length-select-all (is_within now 30) calls in
    (IsAscending-by_day (select (is_within now 30) calls), omega arith, v, omega arith)
