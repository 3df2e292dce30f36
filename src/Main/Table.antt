-- ===== src/Main/Table.antt =====
-- The flags of internal/config and the table of cmd/digitalocean_exporter name the same collectors.
use digitalocean_exporter.Base.{
  String, string_eq, Bool, true, ◌&&◌, List, [], ◌∷◌, ◌≡◌, refl, contains,
}
use digitalocean_exporter.Base.Assoc.{keys, insert}
use digitalocean_exporter.Config.{
  SimpleCollector, CollectorFlags, Flags, bind_simple, bind_from, simple_collectors, add_timed,
  collectors_of,
}
use digitalocean_exporter.Main.{available}

abbrev pub every : (String → Bool) → List String → Bool
every p [] = true
every p (x ∷ xs) = p x && every p xs

-- Whatever the values of the flags are, each collector that can be registered has a configuration, and
-- nothing else has one: no name of the one table is missing from the other.
pub collectors_of-available :
    {F : Type 0} (parse : SimpleCollector → CollectorFlags) (f : Flags F)
    → f.simple ≡ bind_simple parse
    → (every (contains (keys (collectors_of f))) available ≡ true)
      × (every (contains available) (keys (collectors_of f)) ≡ true)
unfolding collectors_of bind_simple bind_from simple_collectors add_timed insert
collectors_of-available parse f h = rw h (refl, refl)
