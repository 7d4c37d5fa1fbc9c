-- ===== src/Poller/Kqueue/Tests.antt =====
-- The kqueue poller's theorems at concrete inputs.
use Prim.Native.String.{String}
use exaproxy.Common.{[], ◌==◌, if◌then◌else◌, arith, ◌≡◌, refl, none, number_key, text_key}
use exaproxy.Dict.{lookup, insert, contains}
use exaproxy.Poller.Epoll.{Mask, readable, writable, remove_write}
use exaproxy.Poller.Epoll.Kept.{insert-AllOf}
use exaproxy.Poller.Kqueue.Filtered.{IsFiltered, AllFiltered}
use exaproxy.Poller.Epoll.Runs.{run}
use exaproxy.Poller.Epoll.Tests.{
  open_below, watching, poller, poller-AllConsistent, poller-AllIndexed, open_below-IsDistinct,
}
use exaproxy.Poller.Tests.{calls, calls-AllReady}
use exaproxy.Poller.Kqueue.{step, remove_write_socket, take_out}
use exaproxy.Poller.Kqueue.Same.{run_kqueue, run_kqueue-run}

-- The name of the clients' writes is for writing, every other one for reading.
abbrev filter : String → Mask
filter name = if name == "write_client" then writable else readable

watching-IsFiltered : IsFiltered readable watching
unfolding lookup
watching-IsFiltered s k found = ground arith

poller-AllFiltered : AllFiltered filter poller.channels
poller-AllFiltered =
    insert-AllOf (λ n. IsFiltered (filter n)) "read_client" watching []
      (unfold lookup in λ n c h. cc) watching-IsFiltered

run_kqueue-run_example : run_kqueue open_below calls poller ≡ run open_below calls poller
run_kqueue-run_example =
    run_kqueue-run filter open_below calls poller open_below-IsDistinct poller-AllConsistent
      poller-AllIndexed poller-AllFiltered (refl, (refl, (refl, (refl, tt)))) calls-AllReady

-- A socket that is registered for reading cannot be taken out for writing.
other_filter : step open_below (remove_write "read_client" 7) poller ≡ none
unfolding step remove_write_socket take_out lookup insert contains
other_filter = refl
