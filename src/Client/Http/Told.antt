-- ===== src/Client/Http/Told.antt =====
-- How long a client waits when the coordinator turns it away (coordinator/src/api/middleware.rs and
-- client/src/http.rs).
use blindjoin.Prelude.{◌≡◌, true, All}
use blindjoin.Prelude.Eq.{Text}
use blindjoin.Coordinator.Round.OutPoints.{is_digit}

abbrev Digits : Text → Type 0
Digits s = All (λ c. is_digit c ≡ true) s
