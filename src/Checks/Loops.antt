-- ===== src/Checks/Loops.antt =====
-- The main thread's loops, the words and lines of a text, and a rate.
use linux_sensors.Base.{
  ◌++◌, some, ok, All, arith, ◌≡◌, refl, List, [], ◌∷◌, map, true, false, codes,
}
use linux_sensors.Base.Int.{pos, negsuc}
use linux_sensors.Number.{to_string}
use linux_sensors.Os.{get_pids}
use linux_sensors.Os.Tasks.{Task, IsListed, listing, get_pids-listing}
use linux_sensors.Base.{◌>>=◌, undefined, ◌-◌}
use linux_sensors.Text.Completed.{newline, complete, remainder}
use linux_sensors.Text.Fast.{lines_and_rest, split_fast-lines}
use linux_sensors.Sensor.Watch.{EventsWatch, new_watch, now}
use linux_sensors.Sensor.Watch.Rates.{IsRate, now-IsRate}
use linux_sensors.Text.{StringRef, view, split3, split_fast}
use linux_sensors.Text.Tokens.{pieces, not_empty, split3-words}
use linux_sensors.Socket.{listen_server}
use linux_sensors.Sensor.Run.{Event, Main, listening, listened, saw, sent, main_loop}
use linux_sensors.Sensor.Run.Client.{Occurs, IsConnected, IsFlag, Closes, main_loop-over}

split_fast-lines_example :
    (split_fast (codes "a\nb") newline >>= λ refs. ok (map (view (codes "a\nb")) refs))
    ≡ lines_and_rest (complete [] (codes "a\nb")) (remainder [] (codes "a\nb"))
split_fast-lines_example = split_fast-lines (codes "a\nb") (omega arith)

split_fast_test : split_fast (codes "a\nb") newline ≡ undefined
unfolding split_fast
split_fast_test = refl

abbrev watch : EventsWatch
watch = record new_watch { start_p = 7; events = 100 }

now-IsRate_example : IsRate (2999999999 - 7) 3000000001 watch (now 2999999999 3000000001 watch)
unfolding new_watch
now-IsRate_example = now-IsRate 2999999999 3000000001 watch (omega arith) (omega arith)

split3-words_example :
    (refs : List StringRef) × (split3 (codes " ls  -l x") b' ' ≡ ok refs)
    × (map (view (codes " ls  -l x")) refs ≡ not_empty (pieces b' ' [] (codes " ls  -l x")))
split3-words_example = split3-words (codes " ls  -l x") b' ' (omega arith)

words_test :
    not_empty (pieces b' ' [] (codes " ls  -l x")) ≡ codes "ls" ∷ codes "-l" ∷ codes "x" ∷ []
unfolding pieces not_empty
words_test = refl

abbrev main_thread : Main
main_thread = record {
  phase = listening;
  socket = record { socket_id = pos 0; client_id = pos 0; address = []; port = 8888 };
  calls = [];
  effects = [];
}

-- The port is taken at first; then a client connects, gets a status, and goes away.
abbrev events : List Event
events =
    listened (record { socket_reply = pos 4; bind_reply = negsuc 0; accept_reply = pos 0 })
    ∷ listened (record { socket_reply = pos 5; bind_reply = pos 0; accept_reply = pos 6 })
    ∷ saw false
    ∷ sent (codes "status") [] (negsuc 0)
    ∷ saw true
    ∷ []

main_loop-over_example :
    Occurs IsConnected events
    × Occurs IsFlag events
    × Closes (codes "summary") (main_loop (codes "summary") events main_thread)
unfolding main_loop listen_server
main_loop-over_example = main_loop-over (codes "summary") events main_thread refl refl

abbrev tasks : List Task
tasks =
    record { attributes = codes "dr-xr-xr-x 9 root root 0 Nov 26 04:00"; pid = 4242 }
    ∷ record { attributes = codes "dr-xr-xr-x 9 root root 0 Nov 26 04:00"; pid = 40000 }
    ∷ []

tasks-IsListed : All IsListed tasks
unfolding to_string
tasks-IsListed = (
  record { clean = ground arith; fits = omega arith; long = omega arith; short = omega arith },
  (
    record { clean = ground arith; fits = omega arith; long = omega arith; short = omega arith },
    tt,
  ),
)

get_pids-listing_example :
    get_pids (some (codes "total 0" ++ b'\n' ∷ listing tasks)) ≡ ok (pos 4242 ∷ negsuc 25535 ∷ [])
get_pids-listing_example = get_pids-listing tasks tasks-IsListed
