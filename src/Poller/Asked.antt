-- ===== src/Poller/Asked.antt =====
-- The calls that a component makes on its poller, newest first, and what they ask for: `asked` says
-- which sockets are in under a name when the calls have been made. Corking and uncorking leave a
-- socket in.
use Prim.Native.String.{String}
use exaproxy.Common.{
  ℕ, Bool, true, false, List, [], ◌∷◌, if◌then◌else◌, ◌==◌, number_key, text_key, ◌&&◌,
}
use exaproxy.Poller.Epoll.{
  Call, add_read, remove_read, cork_read, uncork_read, add_write, remove_write, cork_write,
  uncork_write, set_up_read, set_up_write, clear_reads, clear_writes,
}

abbrev pub asked : List Call → String → ℕ → Bool
asked [] m t = false
asked (add_read n s ∷ cs) m t = if n == m && s == t then true else asked cs m t
asked (add_write n s ∷ cs) m t = if n == m && s == t then true else asked cs m t
asked (remove_read n s ∷ cs) m t = if n == m && s == t then false else asked cs m t
asked (remove_write n s ∷ cs) m t = if n == m && s == t then false else asked cs m t
asked (clear_reads n ∷ cs) m t = if n == m then false else asked cs m t
asked (clear_writes n ∷ cs) m t = if n == m then false else asked cs m t
asked (cork_read n s ∷ cs) m t = asked cs m t
asked (uncork_read n s ∷ cs) m t = asked cs m t
asked (cork_write n s ∷ cs) m t = asked cs m t
asked (uncork_write n s ∷ cs) m t = asked cs m t
asked (set_up_read n ∷ cs) m t = asked cs m t
asked (set_up_write n ∷ cs) m t = asked cs m t
