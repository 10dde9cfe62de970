-- ===== src/Fetch/Flight/Wait.antt =====
-- A caller that is sent to wait sleeps: it never goes round on a fetch that has ended.
use owid_rust.Prelude.{ℕ, Option, none, some}
use owid_rust.Fetch.Flight.{Caller, polling}

abbrev waits_for : Caller → Option ℕ
waits_for (polling url is_recent id) = some id
waits_for caller = none
