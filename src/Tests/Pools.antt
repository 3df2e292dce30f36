-- ===== src/Tests/Pools.antt =====
-- The path of a page of the autoscale pools.
use digitalocean_exporter.Base.{◌≡◌, refl}
use digitalocean_exporter.DropletAutoscale.{path_of}

path_of_second :
    path_of (record { page = 2; per_page = 200 }) ≡ "v2/droplets/autoscale?page=2&per_page=200"
unfolding path_of
path_of_second = refl
