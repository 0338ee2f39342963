-- ===== src/Superchan/LifeTests.antt =====
-- A main superchan with five functions, which the signal 2 ends.
use mostly.Common.{
  ℕ, ◌*◌, ◌≡◌, ◌⊎◌, refl, List, [], ◌∷◌, ◌++◌, map, Bool, true, false, none, some, arith,
}
use mostly.Cancellable.Context.{Err, custom, Store, cause, cancel}
use mostly.Cancellable.Handle.{call_cancel}
use mostly.Cancellable.Chan.{Channel, receive}
use mostly.Superchan.State.{
  Superchan, Config, panic, defer_after_cancel, defer, defer_first, defer_last, is_dead, clear,
}
use mostly.Superchan.Goroutines.{Event}
use mostly.Superchan.Goroutines.Barriers.{Stretches, both}
use mostly.Superchan.Rundeferred.{in_sequence, finished, call_groups, call_each}
use mostly.Superchan.Reader.{with_ch}
use mostly.Superchan.Main.{
  World, MainEvent, MainSignalHandler, cancel_then_deferred, new_main, deferred, cancelled,
  signal_stopped, chan_closed, set_ch,
}
use mostly.Superchan.Wait.{seen_dead, wait_superchan, poll_pause, max_wait_duration}
use mostly.Superchan.Defers.{DeferCall, defers, defers_first, defers_last, call_defer, call_defers}
use mostly.Superchan.Life.{EndsWith, main_life}

abbrev root : Store
root = record { parent = none; own = none } ∷ []

abbrev two : Store
two = record { parent = some 0; own = none } ∷ root

abbrev ch_of : List ℕ → Channel ℕ
ch_of buf = record { buf = buf; cap = 4; closed = false }

abbrev fresh : World ℕ
fresh = record {
  chan = record {
    chan = record { handle = record { context = 1; cancel_func = some 1 }; ch = ch_of [] };
    deferfuncs = some [];
    deferlast = none;
    deferfirst = none;
  };
  store = two;
}

abbrev calls : List (DeferCall ℕ × Store)
calls =
    (defers (3 ∷ 4 ∷ []), two)
    ∷ (defers_last 9, two)
    ∷ (defers_first 1, two)
    ∷ (defers (5 ∷ []), two)
    ∷ []

abbrev full : Superchan ℕ ℕ
full = record fresh.chan {
  deferfuncs = some (5 ∷ 4 ∷ 3 ∷ []);
  deferfirst = some 1;
  deferlast = some 9;
}

abbrev quiet : ℕ → Bool
quiet f = false

abbrev direct : Config
direct = record { cancel_before_defer = true; use_goroutine_defer = false }

abbrev events : List (Event ℕ)
events = both quiet (1 ∷ 5 ∷ 4 ∷ 3 ∷ 9 ∷ [])

abbrev seen : List (MainEvent ℕ)
seen = cancelled (custom 2) ∷ map deferred events ++ signal_stopped ∷ chan_closed ∷ []

abbrev after_signal : Store
after_signal = record { parent = some 0; own = some (custom 2) } ∷ root

abbrev ended : World ℕ
ended = record { chan = set_ch (clear (with_ch full (ch_of []))) true; store = after_signal }

handles :
    MainSignalHandler quiet direct custom 0
      (record { chan = with_ch full (ch_of (2 ∷ [])); store = two })
      seen
      ended
      finished
unfolding clear receive call_cancel cancel cause is_dead call_groups call_each
handles =
    cancel_then_deferred 2 events (clear (with_ch full (ch_of []))) after_signal [] refl refl refl
      (in_sequence refl refl refl)

main_life_example :
    (fs : List (Event ℕ)) × Stretches quiet ((1 ∷ []) ∷ (5 ∷ 4 ∷ 3 ∷ []) ∷ (9 ∷ []) ∷ []) fs
    × ((false ≡ true)
        ⊎ (fs ≡ both quiet (1 ∷ []) ++ (both quiet (5 ∷ 4 ∷ 3 ∷ []) ++ both quiet (9 ∷ []))))
    × ((e : Err) × EndsWith quiet direct custom 0 max_wait_duration
          (λ n. n * poll_pause)
          (record { chan = with_ch full (ch_of (2 ∷ [])); store = two })
          []
          fs
          seen
          e
        × (wait_superchan max_wait_duration
              (λ n. n * poll_pause)
              (λ n. is_dead ended.chan)
              1
              ended.chan
              after_signal
            ≡ some (e, some (seen_dead 0)))
        × (defer (6 ∷ []) ended.chan after_signal ≡ panic defer_after_cancel))
unfolding handles new_main cause call_defers call_defer defer defer_first defer_last
main_life_example =
    main_life quiet direct custom 0 max_wait_duration (λ n. n * poll_pause) 4 0 2 [] root two fresh
      true calls full (ch_of (2 ∷ [])) seen ended 0 (6 ∷ []) refl refl (omega arith) refl refl
      handles (omega arith)
