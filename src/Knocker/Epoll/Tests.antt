-- ===== src/Knocker/Epoll/Tests.antt =====
-- A scan without the timer, and the theorem at it.
use low_level_cpp.Base.{◌<◌, ◌≤◌, ◌⊎◌, ℕ, ◌-◌, ◌≡◌, refl, true, Option, none, some, List, [], ◌∷◌}
use low_level_cpp.Knocker.{pack, unpack_fd, unpack_port, invalid_range}
use low_level_cpp.Knocker.Intrusive.Scanner.{Attempt, in_progress, Event}
use low_level_cpp.Knocker.Epoll.{
  Poller, main, dial_each, dial, drain, resolve_all, resolve, Polled, success, failure, waits_on,
  no_sockets,
}
use low_level_cpp.Knocker.Epoll.Ports.{Balances, main-Balances}

-- Each port gets a socket of its own.
abbrev kernel : ℕ → Poller → Attempt
kernel port s = record {
  sock = some (port - 70);
  address_ok = true;
  connect = in_progress;
  now = 0;
}

-- Port 81 refuses, and port 80 answers.
abbrev batches : List (List Event)
batches =
    (record { word = pack 11 81; now = 0; err = 111 } ∷ [])
    ∷ (record { word = pack 10 80; now = 0; err = 0 } ∷ [])
    ∷ []

abbrev seen : Polled → Option (List ℕ × List ℕ)
seen (success t) = some (t.answered, t.closed)
seen (failure t) = none
seen (waits_on t) = none

one_answers : seen (main 80 81 kernel batches) ≡ some (80 ∷ [], 11 ∷ 10 ∷ [])
unfolding main dial_each dial drain resolve_all resolve pack unpack_fd unpack_port invalid_range
one_answers = refl

main-Balances_example :
    ((80 < 1) ⊎ ((65535 < 81) ⊎ (81 < 80)) → main 80 81 kernel batches ≡ failure no_sockets)
    × (1 ≤ 80 → 81 ≤ 65535 → 80 ≤ 81 → Balances kernel (80 ∷ 81 ∷ []) 2 (main 80 81 kernel batches))
main-Balances_example = main-Balances 80 81 kernel batches
