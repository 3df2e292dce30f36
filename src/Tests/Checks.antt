-- ===== src/Tests/Checks.antt =====
-- Two uptime checks: one whose lookup answers, and one whose lookup fails.
use digitalocean_exporter.Base.{
  ℕ, ℤ, pos, suc, ◌≡◌, string_eq, String, true, Option, none, some, List, [], ◌∷◌, GoError, Result,
  ok, err, opaque, refl, ◌==◌, if◌then◌else◌,
}
use digitalocean_exporter.Paging.{Api, all, keep_new}
use digitalocean_exporter.Uptime.{ApiCheck, ApiState, Check, refresh}
use digitalocean_exporter.Uptime.Settled.{Left, refresh-Settles}

abbrev check : String → ApiCheck
check id = record {
  id = id;
  name = "shop";
  type_ = "https";
  target = "shop.example";
  enabled = true;
}

abbrev checks : List ApiCheck
checks = check "a" ∷ check "b" ∷ []

abbrev listing : Api ApiCheck ℕ ℕ
listing = record {
  ctx_err = λ w. none;
  list = λ opts w. (ok (checks, some none), suc w);
  is_last_page = λ n. true;
  current_page = λ n. ok n;
}

abbrev observed : ApiState
observed = record {
  regions =
      ("us_west", record { status = "UP"; thirty_day_uptime_percentage = "99.9" })
      ∷ ("eu_west", record { status = "DOWN"; thirty_day_uptime_percentage = "98" })
      ∷ [];
  previous_outage = record { region = "eu_west"; started_at = ""; duration_seconds = pos 60 };
}

abbrev get_state : String → ℕ → Result ApiState × ℕ
get_state id w = if id == "a" then (ok observed, suc w) else (err (opaque "500"), suc w)

abbrev no_time : String → Option ℤ
no_time text = none

listed : all "uptime checks" (λ (uc : ApiCheck). uc.id) listing 1 0 ≡ some (ok checks, 1)
unfolding all keep_new
listed = refl

refresh-Settles_example :
    (e : Option GoError) × (after : List Check) × (u : ℕ) × (refresh no_time listing get_state 1 []
        0
      ≡ some (e, after, u))
    × Left no_time listing get_state [] 1 checks e after u
refresh-Settles_example = refresh-Settles no_time listing get_state [] 1 0 checks listed
