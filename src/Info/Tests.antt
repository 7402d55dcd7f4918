-- ===== src/Info/Tests.antt =====
-- A request through two proxies (src/info.rs).
use actix_web.Prelude.{false, none, some, [], ◌∷◌, ◌≡◌}
use actix_web.Prelude.Text.{codes, split, trim}
use actix_web.Info.{RequestHead, split_pair, new, remote_of}
use actix_web.Info.Sources.{new-sources}

abbrev proxied : RequestHead
proxied = record {
  forwarded = none ∷ some (codes "For=10.0.0.1, for=10.0.0.2; proto = x;Host=a.org") ∷ [];
  x_forwarded_proto = some (some (codes "https , http"));
  x_forwarded_host = none;
  x_forwarded_for = none;
  host_header = some (some (codes "b.org"));
  scheme_part = none;
  authority_part = none;
  secure = false;
  server_host = codes "c.org";
  peer_addr = some (codes "10.0.0.3");
}

new-sources_example :
    ((new proxied).scheme ≡ codes "https")
    × ((new proxied).host ≡ codes "a.org")
    × (remote_of (new proxied) ≡ some (codes "10.0.0.1"))
unfolding split trim split_pair
new-sources_example = new-sources proxied
