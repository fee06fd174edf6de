-- ===== src/Domain/Time/Window.antt =====
-- How the contact window repeats, and where a delay leads.
use fin_tech_ai.Base.{ℕ, ◌+◌, ◌*◌, ◌%◌, ◌≤◌, ◌≡◌, ◌↔◌, ◌⊎◌, true, arith}
use fin_tech_ai.Domain.Time.{ms_per_hour, ist_hour, is_outside_trai_window}

ist_hour-add : (now k : ℕ) → k ≤ 24 → ist_hour (now + k * ms_per_hour) ≡ (ist_hour now + k) % 24
ist_hour-add now k h = omega arith

-- The window repeats every day.
is_outside_trai_window-add_day :
    (now : ℕ) → is_outside_trai_window (now + 24 * ms_per_hour) ≡ is_outside_trai_window now
unfolding is_outside_trai_window
is_outside_trai_window-add_day now = ground arith

-- Twelve hours after a time outside the window the window is still shut exactly when the time was
-- between 8:00 and 9:00, or between 20:00 and 21:00, in India.
pub is_outside_trai_window-add_half_day :
    (now : ℕ)
    → is_outside_trai_window now ≡ true
    → (is_outside_trai_window (now + 12 * ms_per_hour) ≡ true)
      ↔ ((ist_hour now ≡ 8) ⊎ (ist_hour now ≡ 20))
unfolding is_outside_trai_window
is_outside_trai_window-add_half_day now h = ground arith
