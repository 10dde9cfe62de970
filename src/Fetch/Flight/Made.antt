-- ===== src/Fetch/Flight/Made.antt =====
-- Who makes which fetch after one has ended.
use owid_rust.Prelude.{ℕ, subst, Option, none, some}
use owid_rust.Fetch.Flight.{Outcome, Caller, World, set, wake, ended, end_flight}
use owid_rust.Fetch.Flight.Waiting.{Makes, set_same}
use owid_rust.Fetch.Flight.Ended.{wake-P, wake_all-P}
use owid_rust.Fetch.Flight.Single.{made_before}

wake-Makes : (caller : Caller) (id : ℕ) → Makes (wake caller) id → Makes caller id
wake-Makes caller id =
    wake-P (λ x. Makes x id → Makes caller id) caller (λ m. m) (λ u r k h m. absurd m)

ended-Makes : (outcome : Option Outcome) (id : ℕ) → ¬ Makes (ended outcome) id
ended-Makes none id makes = makes
ended-Makes (some outcome) id makes = makes

-- The end of a fetch makes nobody make one.
pub end_flight-made :
    (w : World) (i id : ℕ) (o : Option Outcome) (k a : ℕ)
    → Makes ((end_flight w i id o).callers a) k
    → Makes (w.callers a) k
unfolding end_flight
end_flight-made w i id o k a makes =
    let later = set w.callers i (ended o) in
    made_before w.callers i a (ended o) k (λ n. absurd (ended-Makes o k n))
      (wake_all-P (λ x. Makes x k → Makes (later a) k) (w.flights id).wakers later a
        (λ e. wake-Makes (later a) k) (λ e n. n) makes)

-- The caller that ended it makes no fetch.
pub end_flight-Makes_none :
    (w : World) (i id : ℕ) (o : Option Outcome) (k : ℕ)
    → ¬ Makes ((end_flight w i id o).callers i) k
unfolding end_flight
end_flight-Makes_none w i id o k makes =
    let later = set w.callers i (ended o) in
    let still : Makes (later i) k =
      wake_all-P (λ x. Makes x k → Makes (later i) k) (w.flights id).wakers later i
        (λ e. wake-Makes (later i) k) (λ e n. n) makes in
    ended-Makes o k (subst (λ x. Makes x k) (set_same w.callers i (ended o)) still)
