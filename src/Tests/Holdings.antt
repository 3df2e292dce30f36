-- ===== src/Tests/Holdings.antt =====
-- A refresh of the droplets by one tag, of the limits with one list that gives no total, and of two projects
-- of which one cannot be read.
use digitalocean_exporter.Base.{
  ℕ, ℤ, suc, ◌≡◌, ◌⊎◌, nat_eq, string_eq, String, true, false, Option, none, some, List, [], ◌∷◌,
  keep, length, GoError, ok, err, opaque, wrap, refl, arith, ◌==◌, if◌then◌else◌,
}
use digitalocean_exporter.Base.Assoc.{Assoc}
use digitalocean_exporter.Account.{LimitsSnapshot, Counters, refresh_limits}
use digitalocean_exporter.Account.Whole.{IsCount, refresh_limits_whole}
use digitalocean_exporter.Droplets
use digitalocean_exporter.Droplets.{ApiDroplet, droplets_of}
use digitalocean_exporter.Droplets.Narrow.{refresh-narrow}
use digitalocean_exporter.Filter.{Filter, single_tag}
use digitalocean_exporter.Paging.{Api, is_done, all, keep_new}
use digitalocean_exporter.Paging.Trace.{Walks, last}
use digitalocean_exporter.Projects
use digitalocean_exporter.Projects.{ApiProject, ApiResource, TypeCount, counts_of, count_resources}
use digitalocean_exporter.Projects.Counts.{total, total-counts_of}
use digitalocean_exporter.Projects.Outcome.{Looked, Looks, done, look, Left, refresh-Left}

abbrev page_of : {T : Type 0} → List T → Api T ℕ ℕ
page_of items = record {
  ctx_err = λ w. none;
  list = λ opts w. (ok (items, some none), suc w);
  is_last_page = λ n. true;
  current_page = λ n. ok n;
}

abbrev unreadable : {T : Type 0} → Api T ℕ ℕ
unreadable = record (page_of []) { list = λ opts w. (err (opaque "500"), suc w) }

abbrev web : ApiDroplet
web = record {
  id = 7;
  name = "web";
  region = some "fra1";
  size = none;
  status = "active";
  image = none;
  vpc_uuid = "";
  tags = "prod" ∷ [];
  vcpus = 2;
  memory = 4096;
  disk = 80;
  features = "backups" ∷ [];
  created = "";
}

abbrev account : List ApiDroplet
account = record web { id = 3; tags = [] } ∷ web ∷ []

abbrev no_time : String → Option ℤ
no_time text = none

abbrev prod : Filter
prod = record { tags = some ("prod" ∷ []); regions = none }

abbrev tagged : String → Api ApiDroplet ℕ ℕ
tagged tag = page_of (web ∷ [])

tagged-Walks : Walks (tagged "prod") 0 0 ((web ∷ []) ∷ []) 1
unfolding is_done
tagged-Walks = last (web ∷ []) (some none) refl refl refl

prod-single : single_tag prod ≡ some "prod"
unfolding single_tag
prod-single = refl

refresh-narrow_example :
    Droplets.refresh no_time (page_of account) tagged prod 1 [] 0
    ≡ some (none, droplets_of no_time prod account, 1)
refresh-narrow_example =
    refresh-narrow no_time (page_of account) tagged prod "prod" 1 [] account prod-single
      tagged-Walks refl (omega arith)

abbrev counters : Counters ℕ
counters = record {
  list_droplets = λ w. (ok (some (some 12)), suc w);
  list_reserved_ips = λ w. (ok (some none), suc w);
  list_volumes = λ w. (ok (some (some 4)), suc w);
}

abbrev old_counts : Option LimitsSnapshot
old_counts = some (record { droplets = 11; reserved_ips = 2; volumes = 4 })

refresh_limits_whole_example :
    ((e : GoError) × ((refresh_limits counters old_counts 0).0 ≡ some e)
      × ((refresh_limits counters old_counts 0).1 ≡ old_counts))
    ⊎ ((n : LimitsSnapshot) × ((refresh_limits counters old_counts 0).0 ≡ none)
        × ((refresh_limits counters old_counts 0).1 ≡ some n)
        × IsCount counters 0 n)
refresh_limits_whole_example = refresh_limits_whole counters old_counts 0

abbrev named : String → ApiResource
named urn = record { urn = urn }

abbrev resources : List ApiResource
resources = named "do:volume:1" ∷ named "do:droplet:2" ∷ named "do:volume:3" ∷ named "odd" ∷ []

total-counts_of_example :
    total "volume" (counts_of resources)
    ≡ length (keep (λ (r : ApiResource). Projects.urn_type r.urn == "volume") resources)
total-counts_of_example = total-counts_of "volume" resources

abbrev project : String → ApiProject
project id = record {
  id = id;
  name = "shop";
  purpose = "";
  environment = "Production";
  is_default = false;
}

abbrev projects : List ApiProject
projects = project "a" ∷ project "b" ∷ []

abbrev resources_by : String → Api ApiResource ℕ ℕ
resources_by id = if id == "a" then page_of resources else unreadable

abbrev listing : Api ApiProject ℕ ℕ
listing = page_of projects

listed : all "projects" (λ (p : ApiProject). p.id) listing 1 0 ≡ some (ok projects, 1)
unfolding all keep_new
listed = refl

read_a : count_resources listing resources_by 1 "a" 1 ≡ some (ok (counts_of resources), 2)
unfolding count_resources all keep_new
read_a = refl

abbrev failure : GoError
failure = wrap "list project resources" (opaque "500")

read_b : count_resources listing resources_by 1 "b" 2 ≡ some (err failure, 3)
unfolding count_resources all keep_new
read_b = refl

abbrev answers : List Looked
answers = (project "a", ok (counts_of resources)) ∷ (project "b", err failure) ∷ []

answers-Looks : Looks listing resources_by 1 1 projects answers 3
answers-Looks = look (project "a") _ read_a (look (project "b") _ read_b done)

refresh-Left_example :
    (failed : Option GoError) × (after : Assoc String Projects.Project) × (Projects.refresh listing
        resources_by 1 [] 0
      ≡ some (failed, after, 3))
    × Left [] answers failed after
refresh-Left_example = refresh-Left listing resources_by 1 [] 0 listed answers-Looks
