-- ===== src/Prelude/Time.antt =====
-- A UTC `datetime` as the microseconds since 0001-01-01T00:00:00, the least value that Python
-- has, and its `isoformat`.
use Prim.Native.Nat.{ℕ, zero, suc, ◌+◌, ◌-◌, ◌*◌, ◌/◌, ◌%◌}
use Prim.Native.String.{String, ◌++◌}
use mathlib.Core.Path.{◌≡◌, refl}
use night_ledger.Prelude.Tests.{ltb, leb, ◌==◌, if◌then◌else◌}

abbrev pub Datetime : Type 0
Datetime = ℕ

-- `timedelta(milliseconds=n)`
abbrev pub milliseconds : ℕ → ℕ
milliseconds n = n * 1000

pub record Civil : Type 0 where
  pub year : ℕ
  pub month : ℕ
  pub day : ℕ

-- The date of a day number, counted in eras of 400 years that begin on a first of March.
unfoldable pub civil : ℕ → Civil
civil days =
    let z = days + 306 in
    let doe = z % 146097 in
    let yoe = (doe - doe / 1460 + doe / 36524 - doe / 146096) / 365 in
    let doy = doe - (365 * yoe + yoe / 4 - yoe / 100) in
    let mp = (5 * doy + 2) / 153 in
    let month = if ltb mp 10 then mp + 3 else mp - 9 in
    record {
      year = yoe + z / 146097 * 400 + (if leb month 2 then 1 else 0);
      month = month;
      day = doy - (153 * mp + 2) / 5 + 1;
    }

unfoldable pub digit : ℕ → String
digit zero = "0"
digit (suc zero) = "1"
digit (suc (suc zero)) = "2"
digit (suc (suc (suc zero))) = "3"
digit (suc (suc (suc (suc zero)))) = "4"
digit (suc (suc (suc (suc (suc zero))))) = "5"
digit (suc (suc (suc (suc (suc (suc zero)))))) = "6"
digit (suc (suc (suc (suc (suc (suc (suc zero))))))) = "7"
digit (suc (suc (suc (suc (suc (suc (suc (suc zero)))))))) = "8"
digit _ = "9"

-- The last `width` decimal digits.
unfoldable pub pad : ℕ → ℕ → String
unfolding digit
pad zero n = ""
pad (suc width) n = pad width (n / 10) ++ digit (n % 10)

abbrev pub second : ℕ
second = 1000000

-- `isoformat()` without the offset: the microseconds are left out when they are zero.
unfoldable pub iso_text : Datetime → String
unfolding civil pad
iso_text t =
    let seconds = t / second in
    let date = civil (seconds / 86400) in
    pad 4 date.year
    ++ "-"
    ++ pad 2 date.month
    ++ "-"
    ++ pad 2 date.day
    ++ "T"
    ++ pad 2 (seconds / 3600 % 24)
    ++ ":"
    ++ pad 2 (seconds / 60 % 60)
    ++ ":"
    ++ pad 2 (seconds % 60)
    ++ (if t % second == 0 then "" else "." ++ pad 6 (t % second))

-- `value.isoformat()` of a UTC datetime
unfoldable pub isoformat : Datetime → String
unfolding iso_text
isoformat t = iso_text t ++ "+00:00"

-- `_format_timestamp`: `isoformat().replace("+00:00", "Z")`
unfoldable pub format_timestamp : Datetime → String
unfolding iso_text
format_timestamp t = iso_text t ++ "Z"

-- `int(value.timestamp())`, from 1970 on
unfoldable pub unix : Datetime → ℕ
unix t = t / second - 62135596800

-- `datetime.fromtimestamp(n, tz=timezone.utc)`
unfoldable pub of_unix : ℕ → Datetime
of_unix n = (n + 62135596800) * second

-- 2026-02-16T08:00:20.5Z is the day 739663.
abbrev pub demo_time : Datetime
demo_time = (739662 * 86400 + 28820) * 1000000 + 500000

format_demo_time : format_timestamp demo_time ≡ "2026-02-16T08:00:20.500000Z"
unfolding format_timestamp
format_demo_time = refl

format_midnight : format_timestamp 0 ≡ "0001-01-01T00:00:00Z"
unfolding format_timestamp
format_midnight = refl
