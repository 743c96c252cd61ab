-- ===== src/Tests/Servers.antt =====
-- The servers with a worker for each connection, and the monitors, against concrete replies.
use study_linux_kernel.Base.{◌≡◌, refl, [], ◌∷◌, none, some, arith}
use study_linux_kernel.Sys.Calls.{Text, made, answer, failure, arrival, accept, socket}
use study_linux_kernel.Sys.Monad.{World}
use study_linux_kernel.Sys.Loops.{Ends}
use study_linux_kernel.Sys.Traces.{Always}
use study_linux_kernel.Socket.Worker.Relay
use study_linux_kernel.Socket.Worker.Relay.{Talks}
use study_linux_kernel.Socket.ConnectionEnds
use study_linux_kernel.Socket.ConnectionEnds.{Closed}
use study_linux_kernel.Socket.ThreadServer
use study_linux_kernel.Socket.ThreadServer.Race
use study_linux_kernel.Socket.ThreadServer.Race.{Server, Reach, idle}
use study_linux_kernel.Socket.ForkServer
use study_linux_kernel.Socket.ForkServer.Leak
use study_linux_kernel.Inotify.Buffer.{InotifyEvent, walk}
use study_linux_kernel.Inotify.Encoding
use study_linux_kernel.Inotify.Encoding.{encode_all, for_each, Fits}
use study_linux_kernel.Inotify.Watch
use study_linux_kernel.Inotify.Watch.{show_event}
use study_linux_kernel.Inotify.Watch.Events
use study_linux_kernel.Inotify.MatchDir
use study_linux_kernel.Inotify.MatchDir.{command_line, command_or_default}
use study_linux_kernel.Inotify.MatchDir.Command
use study_linux_kernel.Inotify.MatchDir.Command.{line_for}

-- The peer says "hi", the terminal answers "q" behind which the worker goes.
abbrev connection_4 : World
connection_4 = record {
  replies =
      arrival (b'h' ∷ b'i' ∷ [])
      ∷ answer 0
      ∷ arrival (b'q' ∷ 10 ∷ [])
      ∷ answer 0
      ∷ answer 0
      ∷ answer 0
      ∷ [];
  trace = made (accept 3) (answer 4) ∷ [];
  errno = 0;
}

connection_4-Talks : Talks 4 connection_4
connection_4-Talks = record {
  free = refl;
  guarded = (refl, tt);
  relayed = (tt, tt);
  open_sock = refl;
}

thread_func-Closed_example :
    Ends (λ _. Closed) (Relay.stops 4) (ThreadServer.thread_func 7 1 4 connection_4)
thread_func-Closed_example =
    ConnectionEnds.thread_func-Closed 1 4 7 connection_4 (omega arith) connection_4-Talks

race_loses_connection_example :
    (s : Server) × Reach idle s
    × (s.accepted ≡ 5 ∷ 4 ∷ [])
    × (s.waiting ≡ 0)
    × (s.serving ≡ some 5 ∷ some 5 ∷ [])
race_loses_connection_example = Race.race_loses_connection 4 5

-- Two connections, each with a process of its own.
abbrev two_children : World
two_children = record {
  replies = answer 4 ∷ answer 100 ∷ answer 5 ∷ answer 101 ∷ [];
  trace = made (socket "AF_INET SOCK_STREAM") (answer 3) ∷ [];
  errno = 0;
}

abbrev created : InotifyEvent
created = record { wd = 1; mask = 256; cookie = 0; name = b'a' ∷ 0 ∷ [] }

created-Fits : Fits created
created-Fits = record {
  wd = omega arith;
  mask = omega arith;
  cookie = omega arith;
  len = omega arith;
}

abbrev nothing_done : World
nothing_done = record { replies = []; trace = []; errno = 0 }

walk-encode_all_example :
    walk 3 (show_event []) (encode_all (created ∷ created ∷ [])) nothing_done
    ≡ for_each (show_event []) (created ∷ created ∷ []) nothing_done
walk-encode_all_example =
    Encoding.walk-encode_all (show_event []) (created ∷ created ∷ []) 3
      (created-Fits, (created-Fits, tt)) (omega arith) nothing_done

abbrev letter : Text
letter = b'a' ∷ []

-- An event of 18 bytes, of which two are its name with a NUL, and the end of the events.
abbrev one_event : World
one_event = record {
  replies =
      arrival (1 ∷ 0 ∷ 0 ∷ 0 ∷ 0 ∷ 1 ∷ 0 ∷ 0 ∷ 0 ∷ 0 ∷ 0 ∷ 0 ∷ 2 ∷ 0 ∷ 0 ∷ 0 ∷ b'a' ∷ 0 ∷ [])
      ∷ failure 11
      ∷ [];
  trace = [];
  errno = 0;
}

handle_events-Drained_example :
    Ends (λ _ w. Events.Drained w.trace) Events.stops (Watch.handle_events 3 [] 3 one_event)
handle_events-Drained_example = Events.handle_events-Drained 3 [] 3 one_event (omega arith)

handle_events-Runs_example :
    Ends
      (λ _ w. Always (Command.Runs letter none) w.trace)
      (Command.stops letter none)
      (MatchDir.handle_events 3 letter none 3 one_event)
handle_events-Runs_example = Command.handle_events-Runs letter none 3 3 one_event (omega arith) tt
