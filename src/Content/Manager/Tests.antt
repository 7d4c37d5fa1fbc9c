-- ===== src/Content/Manager/Tests.antt =====
-- The content manager's theorems at concrete inputs.
use exaproxy.Common.{◌≡◌, refl, true, false, none, some, [], ◌∷◌, if◌then◌else◌, text_key, ◌==◌}
use exaproxy.Dict.{lookup, contains}
use exaproxy.Content.Worker.{Content, would_block}
use exaproxy.Content.Manager.{create, Host, fresh, get_downloader, is_local, step, gets, connect}
use exaproxy.Content.Manager.Owned.{IsLinked, tables}
use exaproxy.Content.Manager.Fetch.{OpensNew, AllElsewhere, SomeAllows, fresh_permitted}
use exaproxy.Content.Manager.Steps.{nothing-IsLinked, step-IsLinked}

-- The proxy itself is 10.0.0.1, where port 80 alone may be reached; 192.168.0.0/16 is denied.
abbrev world : Host
world = record {
  is_ipv4 = λ host. true;
  is_ipv6 = λ host. false;
  address = λ host. if host == "10.0.0.1" then (4, 167772161) else (4, 3232235777);
  deny = record { proto = 4; first = 3232235520; last = 3232301055 } ∷ [];
  local_hosts = "10.0.0.1" ∷ [];
  local_allowed = record { allowed_host = none; allowed_port = some 80 } ∷ [];
  connect = λ host port. some 9;
  location = "/etc/exaproxy/html";
  resolve = λ name. name;
  is_file = λ name. false;
  stat = λ name. none;
  body = λ name fields. none;
  http = λ code text. text;
  file_header = λ code size. code;
  monitor_page = λ path. path;
}

abbrev server : Content
server = record {
  client = 1;
  sock = 9;
  host = "10.0.0.1";
  port = 80;
  method = "connect";
  ipv4 = true;
}

opens : (get_downloader world 1 "10.0.0.1" 80 "connect" create).0 ≡ fresh server
unfolding get_downloader lookup
opens = refl

fresh_permitted_example :
    AllElsewhere world.deny (world.address "10.0.0.1")
    × (is_local world.local_hosts "10.0.0.1" ≡ true → SomeAllows world.local_allowed "10.0.0.1" 80)
    × (world.connect "10.0.0.1" 80 ≡ some 9)
fresh_permitted_example = fresh_permitted world 1 "10.0.0.1" 80 "connect" create server opens

nothing_held : OpensNew world create
unfolding contains lookup
nothing_held host port s h = (refl, refl)

step-IsLinked_example :
    IsLinked (tables (step world (gets 1 (connect "10.0.0.1" 80 []) would_block) create))
step-IsLinked_example =
    step-IsLinked world (gets 1 (connect "10.0.0.1" 80 []) would_block) create nothing-IsLinked
      nothing_held
