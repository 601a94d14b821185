-- ===== src/Contracts/Dates.antt =====
-- `datetime.date` and `uuid.UUID` as the program uses them: dates are compared field by field and
-- subtracted by their ordinals, UUIDs are compared as the integers that they hold.
use house_analysis_ai.Prelude.{
  ℕ, ◌+◌, ◌-◌, ◌*◌, ◌/◌, ◌%◌, Bool, not, ◌&&◌, ◌||◌, Eq, ◌==◌, number_eq, ltb, if◌then◌else◌,
}

abbrev pub Uuid : Type 0
Uuid = ℕ

pub record Date : Type 0 where
  pub year : ℕ
  pub month : ℕ
  pub day : ℕ

instance abbrev pub date_eq : Eq Date
date_eq = record { beq = λ a b. a.year == b.year && a.month == b.month && a.day == b.day }

-- `a < b`
abbrev pub before : Date → Date → Bool
before a b =
    ltb a.year b.year
    || (a.year == b.year && (ltb a.month b.month || (a.month == b.month && ltb a.day b.day)))

abbrev is_leap : ℕ → Bool
is_leap y = y % 4 == 0 && (not (y % 100 == 0) || y % 400 == 0)

-- the days of the year before a month, in a year that is no leap year
abbrev days_before : ℕ → ℕ
days_before m =
    if ltb m 2
    then 0
    else if ltb m 3
    then 31
    else if ltb m 4
    then 59
    else if ltb m 5
    then 90
    else if ltb m 6
    then 120
    else if ltb m 7
    then 151
    else if ltb m 8
    then 181
    else if ltb m 9
    then 212
    else if ltb m 10
    then 243
    else if ltb m 11
    then 273
    else if ltb m 12
    then 304
    else 334

-- `date.toordinal`
unfoldable pub to_ordinal : Date → ℕ
to_ordinal d =
    let y = d.year - 1 in
    y * 365
    + y / 4
    - y / 100
    + y / 400
    + (days_before d.month + (if is_leap d.year && ltb 2 d.month then 1 else 0) + d.day)

-- `max(0, (a - b).days)`
unfoldable pub days_since : Date → Date → ℕ
unfolding to_ordinal
days_since a b = to_ordinal a - to_ordinal b
