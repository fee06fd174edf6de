-- ===== src/Domain/Time.antt =====
-- libs/domain/src/utils/time-compliance.ts: the hours at which a customer may be contacted. A date is its
-- milliseconds since the epoch, from 1970 on.
pub mod Window
use fin_tech_ai.Base.{ℕ, ◌+◌, ◌*◌, ◌/◌, ◌%◌, Bool, ◌||◌, ltb, leb}

abbrev pub ms_per_hour : ℕ
ms_per_hour = 3600000

-- `getUTCHours`
abbrev pub utc_hours : ℕ → ℕ
utc_hours t = (t / ms_per_hour) % 24

-- The hour in India: UTC and 330 minutes.
abbrev pub ist_hour : ℕ → ℕ
ist_hour now = utc_hours (now + 330 * 60000)

unfoldable pub is_outside_trai_window : ℕ → Bool
is_outside_trai_window now = ltb (ist_hour now) 9 || leb 20 (ist_hour now)
