-- ===== src/Content/Worker/Tests.antt =====
-- The worker's theorem at a concrete input.
use exaproxy.Common.{◌≡◌, refl, true, List, [], ◌∷◌, ◌++◌}
use exaproxy.Content.Worker.{Bytes, Content, Sent, took, would_block, write_data}
use exaproxy.Content.Worker.Stream.{converse, converse_keeps}

abbrev server : Content
server = record {
  client = 1;
  sock = 9;
  host = "10.0.0.1";
  port = 80;
  method = "download";
  ipv4 = true;
}

-- two bytes of the first buffer go, then none, then three
abbrev writes : List (Bytes × Sent)
writes = ([], took 2) ∷ (4 ∷ 5 ∷ [], would_block) ∷ (6 ∷ [], took 3) ∷ []

converse_run : converse server (1 ∷ 2 ∷ 3 ∷ []) writes ≡ (1 ∷ 2 ∷ 3 ∷ 4 ∷ 5 ∷ [], 6 ∷ [])
unfolding converse write_data
converse_run = refl

converse_keeps_example :
    (converse server (1 ∷ 2 ∷ 3 ∷ []) writes).0 ++ (converse server (1 ∷ 2 ∷ 3 ∷ []) writes).1
    ≡ 1 ∷ 2 ∷ 3 ∷ 4 ∷ 5 ∷ 6 ∷ []
converse_keeps_example = converse_keeps server (1 ∷ 2 ∷ 3 ∷ []) writes
