-- ===== src/Account/Whole.antt =====
-- The counts of the limits collector: all three of one refresh, or those of an earlier one.
use digitalocean_exporter.Base.{
  ℕ, String, Option, none, some, GoError, Result, ok, err, ◌≡◌, ◌⊎◌, inl, inr, refl,
}
use digitalocean_exporter.Account.{
  LimitsSnapshot, Counters, total, count_resource, with_volumes, with_reserved, with_droplets,
  refresh_limits,
}

-- The answer that has this count.
abbrev pub answer : ℕ → Result (Option (Option ℕ))
answer n = ok (some (some n))

count_resource_cases :
    (resource : String) (got : Result (Option (Option ℕ)))
    → ((n : ℕ) × (got ≡ answer n) × (count_resource resource got ≡ ok n))
      ⊎ ((e : GoError) × (count_resource resource got ≡ err e))
unfolding count_resource total
count_resource_cases resource (err e) = inr (_, refl)
count_resource_cases resource (ok none) = inr (_, refl)
count_resource_cases resource (ok (some none)) = inr (_, refl)
count_resource_cases resource (ok (some (some n))) = inl (n, refl, refl)

module _ {W : Type 0} (api : Counters W) where
  -- Every count of the snapshot is the total of its own list, as the API gave it in this refresh.
  abbrev pub IsCount : W → LimitsSnapshot → Type 0
  IsCount w n =
      let v = (api.list_droplets w).1 in
      ((api.list_droplets w).0 ≡ answer n.droplets)
      × ((api.list_reserved_ips v).0 ≡ answer n.reserved_ips)
      × ((api.list_volumes (api.list_reserved_ips v).1).0 ≡ answer n.volumes)

  -- A refresh of the limits either fails and leaves the counts as they were, or replaces all three by the
  -- totals that the three lists gave: a count of one refresh never stands beside a count of another.
  pub refresh_limits_whole :
      (snap : Option LimitsSnapshot) (w : W)
      → ((e : GoError) × ((refresh_limits api snap w).0 ≡ some e)
          × ((refresh_limits api snap w).1 ≡ snap))
        ⊎ ((n : LimitsSnapshot) × ((refresh_limits api snap w).0 ≡ none)
            × ((refresh_limits api snap w).1 ≡ some n)
            × IsCount w n)
  unfolding refresh_limits with_droplets with_reserved with_volumes
  refresh_limits_whole snap w =
      let v = (api.list_droplets w).1 in
      let u = (api.list_reserved_ips v).1 in
      elim (count_resource_cases "droplets" (api.list_droplets w).0) [
        | inr (e, fails) ↦ inl (e, rw fails refl, rw fails refl)
        | inl (d, got_d, gives_d) ↦
            elim (count_resource_cases "reserved IPs" (api.list_reserved_ips v).0) [
              | inr (e, fails) ↦ inl (e, rw (gives_d, fails) refl, rw (gives_d, fails) refl)
              | inl (r, got_r, gives_r) ↦
                  elim (count_resource_cases "volumes" (api.list_volumes u).0) [
                    | inr (e, fails) ↦
                        inl
                          (e, rw (gives_d, gives_r, fails) refl, rw (gives_d, gives_r, fails) refl)
                    | inl (n, got_n, gives_n) ↦ inr (
                      record { droplets = d; reserved_ips = r; volumes = n },
                      rw (gives_d, gives_r, gives_n) refl,
                      rw (gives_d, gives_r, gives_n) refl,
                      (got_d, got_r, got_n),
                    )
                  ]
            ]
      ]
