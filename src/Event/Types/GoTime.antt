-- ===== src/Event/Types/GoTime.antt =====
-- `time.Time`, in nanoseconds; 0 stands for the zero time.
use wsapi_app.Common.{ℕ, Bool, eqb}

abbrev pub Time : Type 0
Time = ℕ

-- `t.IsZero()`
abbrev pub is_zero : Time → Bool
is_zero t = eqb t 0
