-- ===== src/Tests/Inventory.antt =====
-- A firewall with three inbound rules, and three images of two types.
use digitalocean_exporter.Base.{
  ℕ, ◌≤◌, ◌≡◌, ℤ, String, string_eq, nat_eq, true, ◌==◌, Option, none, some, List, [], ◌∷◌, map,
  keep, length, contains,
}
use digitalocean_exporter.Base.Assoc.{lookup}
use digitalocean_exporter.Base.Tally.{count_of}
use digitalocean_exporter.Firewalls.{ApiFirewall, anywhere_v4, anywhere_v6, new_firewall}
use digitalocean_exporter.Firewalls.Open.{is_open, new_firewall-open}
use digitalocean_exporter.Images
use digitalocean_exporter.Images.{ApiImage, known_types, new_image}
use digitalocean_exporter.Images.Counts.{count-snapshot_of}

abbrev web : ApiFirewall
web = record {
  id = "f";
  name = "web";
  status = "succeeded";
  droplet_ids = 1 ∷ 2 ∷ [];
  tags = [];
  inbound_rules = some (anywhere_v4 ∷ anywhere_v6 ∷ []) ∷ none ∷ some ("10.0.0.0/8" ∷ []) ∷ [];
  outbound_rules = 1;
  pending_changes = 0;
}

new_firewall-open_example :
    ((new_firewall web).open_rules ≡ length (keep is_open web.inbound_rules))
    × ((new_firewall web).open_rules ≤ (new_firewall web).inbound)
new_firewall-open_example = new_firewall-open web

abbrev image : ℕ → String → ApiImage
image id type_ = record {
  id = id;
  name = "base";
  type_ = type_;
  distribution = "Debian";
  status = "available";
  regions = "nyc3" ∷ "fra1" ∷ [];
  size_gigabytes = "2.34";
  min_disk_size = 20;
  created = "";
}

abbrev images : List ApiImage
images = image 1 "snapshot" ∷ image 2 "iso" ∷ image 3 "snapshot" ∷ []

abbrev no_time : String → Option ℤ
no_time text = none

count-snapshot_of_example :
    ((Images.snapshot_of no_time images).images ≡ map (new_image no_time) images)
    × (count_of (lookup "snapshot" (Images.snapshot_of no_time images).counts)
        ≡ length (keep (λ (i : ApiImage). i.type_ == "snapshot") images))
    × (contains known_types "snapshot" ≡ true
        → lookup "snapshot" (Images.snapshot_of no_time images).counts
          ≡ some (length (keep (λ (i : ApiImage). i.type_ == "snapshot") images)))
count-snapshot_of_example = count-snapshot_of no_time images "snapshot"
